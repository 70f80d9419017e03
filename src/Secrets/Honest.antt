-- ===== src/Secrets/Honest.antt =====
-- Transfers that an owner makes with src/secrets.rs succeed when src/transactions.rs executes them.
use private_currency.Config.{config}
use private_currency.Consistency.Account.{credited}
use private_currency.Consistency.Chain.{Reachable-Inv}
use private_currency.Consistency.Replay.{loader}
use private_currency.Consistency.Tables.{Inv}
use private_currency.Consistency.Transfer.{payment, execute_transfer-payable}
use private_currency.Crypto.Commitment
use private_currency.Crypto.Commitment.{Commitment}
use private_currency.Crypto.Enc.{Box, pk_from_ed25519}
use private_currency.Crypto.Laws.{verify_sound}
use private_currency.Crypto.Opening
use private_currency.Crypto.Opening.{Opening}
use private_currency.Crypto.RangeProof
use private_currency.Crypto.Suite
use private_currency.Crypto.Suite.{Suite}
use private_currency.Exonum
use private_currency.Exonum.{Node}
use private_currency.Prelude.{
  ℕ, suc, ◌-◌, ◌≤◌, ◌<◌, ◌≡◌, ◌≢◌, ◌∙◌, sym, ap, subst, true, some, drop-all, arith, u64_mod,
  add_u64, add_u64_exact, sub_u64, sub_u64_exact,
}
use private_currency.Secrets.{seal, SecretState, corresponds_to}
use private_currency.Secrets.Create.{created_transfer}
use private_currency.Secrets.Sign.{may_create, create, signed_transfer}
use private_currency.Service.Chain.{Reachable}
use private_currency.Storage.State.{State}
use private_currency.Storage.Wallet.{Wallet, info}
use private_currency.Transactions.Errors.{ok}
use private_currency.Transactions.Execute.{
  verify_transfer, verify_stateless, verify_stateful, execute_transfer,
}
use private_currency.Transactions.Messages.{Transfer, CryptoTransactions}

module _ {S : Suite} {N : Node S} (L : Exonum.IsLawful N) (s : State N) (v : Inv s) (key : ℕ)
    (w : Wallet S) (found : N.map_get s.wallets key ≡ some w) (room : w.history_len < u64_mod) where
  -- The balance is cached at the last entry of the history.
  last_cached :
      N.sparse_get (s.past_balances w.public_key) (sub_u64 w.history_len 1) ≡ some w.balance
  unfolding credited
  last_cached =
      let a = v.accounts key w found in
      let (c, got, reach) =
        a.cached (w.history_len - 1) (omega (arith, a.sent)) (omega (arith, a.sent)) in
      let last : w.balance ≡ c =
        reach
        ∙ ap (credited (loader s) c) (
            drop-all (suc (w.history_len - 1)) (N.log_items (s.history key))
              (omega (arith, a.sent, a.history_len))) in
      let exact : sub_u64 w.history_len 1 ≡ w.history_len - 1 =
        sub_u64_exact w.history_len 1 (omega (arith, a.sent)) room in
      subst (λ k. N.sparse_get (s.past_balances k) (sub_u64 w.history_len 1) ≡ some w.balance)
        (sym a.owner)
        (subst (λ i. N.sparse_get (s.past_balances key) i ≡ some w.balance) (sym exact)
          (got ∙ ap some (sym last)))

  up_to_date : add_u64 w.last_send_index 1 ≤ w.history_len
  up_to_date =
      let a = v.accounts key w found in
      rw (add_u64_exact w.last_send_index 1 (omega (arith, a.sent))) (omega (arith, a.sent))

module _ {S : Suite} (N : Node S) (t : Transfer S) where
  verify_transfer-true :
      config.rollback_delay_start ≤ t.rollback_delay
      → t.rollback_delay < config.rollback_delay_end
      → 0 < t.history_len
      → t.from ≢ t.to
      → N.verify_signature (CryptoTransactions.transfer t) t.from ≡ true
      → verify_stateless t ≡ true
      → verify_transfer N t ≡ true
  unfolding verify_transfer
  verify_transfer-true early late refers apart signed positive = ground arith

-- What the assertions of the creation say.
allowed_parts :
    {S : Suite} {B : Box} (sign : B.SigningKey → CryptoTransactions S → ℕ)
    (amount receiver rollback_delay : ℕ) (st : SecretState S B)
    → may_create sign amount receiver rollback_delay st ≡ true
    → (config.rollback_delay_start ≤ rollback_delay)
      × (rollback_delay < config.rollback_delay_end)
      × (receiver ≢ st.verifying_key)
unfolding may_create
allowed_parts sign amount receiver rollback_delay st h =
    (ground (arith, h), ground (arith, h), ground (arith, h))

-- A state that corresponds to a wallet opens its balance.
corresponds_balance :
    {S : Suite} (LS : Suite.IsLawful S) {B : Box} (st : SecretState S B) (w : Wallet S)
    → corresponds_to st (info w) ≡ true
    → w.balance ≡ Commitment.from_opening st.balance_opening
unfolding corresponds_to info
corresponds_balance LS st w h =
    let verified : Commitment.verify w.balance st.balance_opening ≡ true = ground (arith, h) in
    verify_sound LS w.balance st.balance_opening verified

module _ {S : Suite} (LS : Suite.IsLawful S) {N : Node S} (L : Exonum.IsLawful N) {B : Box}
    (sign : B.SigningKey → CryptoTransactions S → ℕ) (amount receiver rollback_delay : ℕ)
    (st : SecretState S B) (blinding : S.Scalar) (seed1 seed2 : ℕ) (nonce : B.Nonce)
    (signs : (u : Transfer S)
      → let signed = record u { signature = sign st.signing_key (CryptoTransactions.transfer u) } in
        N.verify_signature (CryptoTransactions.transfer signed) st.verifying_key ≡ true) where
  -- In a reachable state, an owner whose secret state corresponds to the wallet and has as many
  -- history entries, with a signature that verifies, an amount and a time lock that the assertions
  -- of the creation allow, a balance in 64 bits and a registered receiver with a valid key,
  -- creates a transfer that passes verification and executes successfully.
  pub create-executes :
      (pk : B.PublicKey)
      → pk_from_ed25519 B receiver ≡ some pk
      → may_create sign amount receiver rollback_delay st ≡ true
      → st.balance_opening.value < u64_mod
      → {s : State N} → Reachable N s
      → (w payee : Wallet S) → N.map_get s.wallets st.verifying_key ≡ some w
      → N.map_get s.wallets receiver ≡ some payee
      → w.history_len < u64_mod
      → corresponds_to st (info w) ≡ true
      → st.history_len ≡ w.history_len
      → (t : Transfer S) × (create sign amount receiver rollback_delay st blinding seed1 seed2 nonce
          ≡ some (some t))
        × (verify_transfer N t ≡ true)
        × (execute_transfer t s ≡ (ok tt, payment t s w payee))
  unfolding verify_stateful RangeProof.verify
  create-executes pk converted allowed fits {s} r w payee found known room follows synced =
      let v = Reachable-Inv L r in
      let a = v.accounts st.verifying_key w found in
      let (t, made, ok1, ok2, (p1, p2, shape)) =
        created_transfer LS sign amount receiver rollback_delay st blinding seed1 seed2 nonce pk
          converted allowed fits in
      let opening : Opening S = Opening.new amount blinding in
      let sealed = seal B (Opening.to_bytes opening) nonce pk st.encryption_sk in
      let full =
        signed_transfer sign st receiver rollback_delay (Commitment.from_opening opening) p1 p2
          sealed in
      let from_is : t.from ≡ st.verifying_key = ap (λ (x : Transfer S). x.from) shape in
      let to_is : t.to ≡ receiver = ap (λ (x : Transfer S). x.to) shape in
      let delay_is : t.rollback_delay ≡ rollback_delay =
        ap (λ (x : Transfer S). x.rollback_delay) shape in
      let len_is : t.history_len ≡ w.history_len =
        ap (λ (x : Transfer S). x.history_len) shape ∙ synced in
      let signed : N.verify_signature (CryptoTransactions.transfer t) t.from ≡ true =
        subst (λ (x : Transfer S). N.verify_signature (CryptoTransactions.transfer x) x.from ≡ true)
          (sym shape) (signs (record full { signature = 0 })) in
      let (early, late, apart) = allowed_parts sign amount receiver rollback_delay st allowed in
      (
        t,
        made,
        verify_transfer-true N t (rw delay_is early) (rw delay_is late)
            (omega (arith, len_is, a.sent)) (λ e. apart (sym to_is ∙ sym e ∙ from_is)) signed ok1,
        execute_transfer-payable t s w payee (record {
          from_known = subst (λ k. N.map_get s.wallets k ≡ some w) (sym from_is) found;
          to_known = subst (λ k. N.map_get s.wallets k ≡ some payee) (sym to_is) known;
          up_to_date =
              subst (λ n. add_u64 w.last_send_index 1 ≤ n) (sym len_is)
                (up_to_date L s v st.verifying_key w found room);
          balance = w.balance;
          referenced =
              subst
                (λ n. N.sparse_get (s.past_balances w.public_key) (sub_u64 n 1) ≡ some w.balance)
                (sym len_is) (last_cached L s v st.verifying_key w found room);
          proved =
              subst (λ c. verify_stateful t c ≡ true) (sym (corresponds_balance LS st w follows))
                ok2;
        }),
      )
