-- ===== src/Secrets/Follow.antt =====
-- The secret state follows the wallet: src/secrets.rs against the updates of src/storage.rs.
use private_currency.Crypto.Commitment
use private_currency.Crypto.Commitment.{Commitment}
use private_currency.Crypto.Enc.{Box}
use private_currency.Crypto.Laws.{
  from_opening-add, from_opening-sub, eq_iff_true, verify-from_opening,
}
use private_currency.Crypto.Opening
use private_currency.Crypto.Opening.{Opening}
use private_currency.Crypto.Suite.{Suite, IsLawful}
use mathlib.Core.Option.{some-injective}
use private_currency.Prelude.{
  ℕ, ◌+◌, ◌-◌, ◌≤◌, ◌<◌, ==_refl, ne→==, le→leb, lt→ltb, u64_mod, add_u64, ◌≡◌, ◌≢◌, refl, sym, ap,
  true, Option, none, some, ◌==◌, arith,
}
use private_currency.Secrets.{
  SecretState, transfer, rollback, corresponds_to, own_opening, received_opening, with_balance,
}
use private_currency.Storage.Wallet.{Wallet, WalletInfo, info, subtract_balance, add_balance}
use private_currency.Transactions.Messages.{Transfer}

module _ {S : Suite} {B : Box} (L : IsLawful S) (s s' : SecretState S B) (t : Transfer S)
    (w : Wallet S) (root : ℕ) (follows : corresponds_to s (info w) ≡ true) (o : Opening S)
    (opens : t.amount ≡ Commitment.from_opening o) where
  same_key : (w.public_key == s.verifying_key) ≡ true
  unfolding corresponds_to info
  same_key = ground arith

  committed : w.balance ≡ Commitment.from_opening s.balance_opening
  unfolding corresponds_to info Commitment.verify
  committed =
      eq_iff_true L w.balance (Commitment.from_opening s.balance_opening)
        (let e = follows in ground arith)

  -- A state with a new balance follows a wallet with the same key and the balance that it opens.
  moved :
      (next : Option (Opening S)) (new : WalletInfo S)
      → with_balance s next ≡ some s'
      → new.public_key ≡ w.public_key
      → ((c : Opening S) → next ≡ some c → new.balance ≡ Commitment.from_opening c)
      → corresponds_to s' new ≡ true
  unfolding with_balance corresponds_to
  moved none new run key opened = ground arith
  moved (some c) new run key opened =
      let owner = same_key in
      let same : s.verifying_key ≡ s'.verifying_key =
        ap (λ x. x.verifying_key) (some-injective _ _ run) in
      let balance : c ≡ s'.balance_opening =
        ap (λ (x : SecretState S B). x.balance_opening) (some-injective _ _ run) in
      rw (key, ← same, owner, opened c refl, ← balance) (verify-from_opening L c)

  sent_balance :
      (c : Opening S)
      → Opening.sub s.balance_opening o ≡ some c
      → Commitment.sub w.balance t.amount ≡ Commitment.from_opening c
  sent_balance c e = rw (committed, opens) (sym (from_opening-sub L s.balance_opening o c e))

  credited_balance :
      (c : Opening S)
      → Opening.add s.balance_opening o ≡ some c
      → Commitment.add w.balance t.amount ≡ Commitment.from_opening c
  credited_balance c e = rw (committed, opens) (sym (from_opening-add L s.balance_opening o c e))

  transfer-sent :
      t.from ≡ s.verifying_key
      → own_opening s t ≡ some o
      → transfer s t ≡ some s'
      → corresponds_to s' (info (subtract_balance w t.amount root)) ≡ true
  unfolding transfer info subtract_balance
  transfer-sent from own run =
      moved (Opening.sub s.balance_opening o) (info (subtract_balance w t.amount root))
        (ground (arith, run)) refl sent_balance

  transfer-received :
      t.from ≢ s.verifying_key
      → received_opening s t ≡ some o
      → transfer s t ≡ some s'
      → corresponds_to s' (info (add_balance w t.amount root)) ≡ true
  unfolding transfer info add_balance
  transfer-received other received run =
      moved (Opening.add s.balance_opening o) (info (add_balance w t.amount root))
        (ground (arith, run)) refl credited_balance

  rollback-refunded :
      own_opening s t ≡ some o
      → rollback s t ≡ some s'
      → corresponds_to s' (info (add_balance w t.amount root)) ≡ true
  unfolding rollback info add_balance
  rollback-refunded own run =
      moved (Opening.add s.balance_opening o) (info (add_balance w t.amount root))
        (ground (arith, run)) refl credited_balance

module _ {S : Suite} {B : Box} (s : SecretState S B) (t : Transfer S) (o : Opening S) where
  abbrev pub debited : SecretState S B
  debited = record s {
    balance_opening =
        Opening.new (s.balance_opening.value - o.value)
          (S.scalar_sub s.balance_opening.blinding o.blinding);
    history_len = add_u64 s.history_len 1;
  }

  abbrev pub credited : SecretState S B
  credited = record s {
    balance_opening =
        Opening.new (s.balance_opening.value + o.value)
          (S.scalar_add s.balance_opening.blinding o.blinding);
    history_len = add_u64 s.history_len 1;
  }

  -- What the updates come to where they do not panic.
  pub transfer-debited :
      t.from ≡ s.verifying_key
      → own_opening s t ≡ some o
      → o.value ≤ s.balance_opening.value
      → transfer s t ≡ some debited
  unfolding transfer with_balance Opening.sub
  transfer-debited from own enough =
      rw (from, ==_refl s.verifying_key, own, le→leb o.value s.balance_opening.value enough) refl

  pub transfer-credited :
      t.from ≢ s.verifying_key
      → t.to ≡ s.verifying_key
      → received_opening s t ≡ some o
      → s.balance_opening.value + o.value < u64_mod
      → transfer s t ≡ some credited
  unfolding transfer with_balance Opening.add
  transfer-credited other to received room =
      rw
        (
          ne→== s.verifying_key t.from (λ e. other (sym e)),
          to,
          ==_refl s.verifying_key,
          received,
          lt→ltb (s.balance_opening.value + o.value) u64_mod room,
        )
        refl

  pub rollback-credited :
      t.from ≡ s.verifying_key
      → own_opening s t ≡ some o
      → s.balance_opening.value + o.value < u64_mod
      → rollback s t ≡ some credited
  unfolding rollback with_balance Opening.add
  rollback-credited from own room =
      rw
        (
          from,
          ==_refl s.verifying_key,
          own,
          lt→ltb (s.balance_opening.value + o.value) u64_mod room,
        )
        refl

module _ {S : Suite} {B : Box} (L : IsLawful S) (s : SecretState S B) (t : Transfer S)
    (w : Wallet S) (root : ℕ) (follows : corresponds_to s (info w) ≡ true) (o : Opening S)
    (opens : t.amount ≡ Commitment.from_opening o) where
  -- A secret state that corresponds to a wallet still does after both were updated by a transfer
  -- from it, where its opening decrypts, opens the amount and does not exceed the balance; the
  -- update of the state does not panic.
  pub transfer-corresponds_sent :
      t.from ≡ s.verifying_key
      → own_opening s t ≡ some o
      → o.value ≤ s.balance_opening.value
      → (s' : SecretState S B) × (transfer s t ≡ some s')
        × (corresponds_to s' (info (subtract_balance w t.amount root)) ≡ true)
  transfer-corresponds_sent from own enough =
      let run = transfer-debited s t o from own enough in
      (debited s t o, run, transfer-sent L s (debited s t o) t w root follows o opens from own run)

  -- A secret state that corresponds to a wallet still does after both were updated by an accepted
  -- transfer to it from another key, where its opening decrypts, opens the amount and does not
  -- overflow the balance; the update of the state does not panic.
  pub transfer-corresponds_received :
      t.from ≢ s.verifying_key
      → t.to ≡ s.verifying_key
      → received_opening s t ≡ some o
      → s.balance_opening.value + o.value < u64_mod
      → (s' : SecretState S B) × (transfer s t ≡ some s')
        × (corresponds_to s' (info (add_balance w t.amount root)) ≡ true)
  transfer-corresponds_received other to received room =
      let run = transfer-credited s t o other to received room in
      (
        credited s t o,
        run,
        transfer-received L s (credited s t o) t w root follows o opens other received run,
      )

  -- A secret state that corresponds to a wallet still does after both were updated by the refund
  -- of a transfer from it, where its opening decrypts, opens the amount and does not overflow the
  -- balance; the update of the state does not panic.
  pub rollback-corresponds :
      t.from ≡ s.verifying_key
      → own_opening s t ≡ some o
      → s.balance_opening.value + o.value < u64_mod
      → (s' : SecretState S B) × (rollback s t ≡ some s')
        × (corresponds_to s' (info (add_balance w t.amount root)) ≡ true)
  rollback-corresponds from own room =
      let run = rollback-credited s t o from own room in
      (credited s t o, run, rollback-refunded L s (credited s t o) t w root follows o opens own run)
