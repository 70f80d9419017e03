-- ===== src/Consistency/Handlers.antt =====
-- How the executions of an acceptance and of the creation of a wallet end: `Accept::execute` and
-- `CreateWallet::execute` of src/transactions.rs.
use private_currency.Consistency.Accept.{w', accepted}
use private_currency.Consistency.Create.{created, create_wallet-absent, create_wallet-present}
use private_currency.Consistency.Outcome.{
  execute_accept-loaded, execute_accept-unauthorized, execute_accept-missing,
}
use private_currency.Consistency.Settlement.{accept_payment-cases}
use private_currency.Consistency.Tables.{Due, Inv, update-ne}
use private_currency.Consistency.Settle.{Due-unique}
use private_currency.Crypto.Commitment
use private_currency.Crypto.Suite.{Suite}
use private_currency.Exonum.{Node, IsLawful}
use private_currency.Prelude.{
  ℕ, ◌+◌, ◌<◌, ◌≡◌, ◌≢◌, ◌∙◌, ◌⊎◌, inl, inr, true, is_some, add_u64, Bool-cases, false, none, some,
  Option-cases, ==_cases, ap, subst, refl, ==_refl, ne→==, [], ◌∷◌, ◌++◌, u64_mod,
}
use private_currency.Storage.State.{State, maybe_transfer}
use private_currency.Storage.Wallet.{
  Wallet, Event, transfer_event, add_balance, set_unaccepted_transfers_hash, initialize,
  initial_balance, create_wallet_event,
}
use private_currency.Transactions.Errors.{
  Error, ok, err, unknown_transfer, unauthorized_accept, wallet_exists,
}
use private_currency.Transactions.Execute.{execute_accept, execute_create_wallet}
use private_currency.Transactions.Messages.{Accept, CreateWallet, Transfer, CryptoTransactions}

module _ {S : Suite} {N : Node S} (a : Accept) (s : State N) where
  -- Why an acceptance fails, with the error that tells so.
  pub data IsRefused : Error → Type 0 where
    not_stored : maybe_transfer s a.transfer_id ≡ none → IsRefused unknown_transfer
    not_own :
        (t : Transfer S)
        → maybe_transfer s a.transfer_id ≡ some t
        → t.to ≢ a.receiver
        → IsRefused unauthorized_accept
    not_waiting :
        (t : Transfer S)
        → maybe_transfer s a.transfer_id ≡ some t
        → t.to ≡ a.receiver
        → N.map_contains (s.unaccepted_transfers t.to) a.transfer_id ≡ false
        → IsRefused unknown_transfer

-- The tables after an acceptance of a transfer that waited, compared with those before: the wallet
-- `w` is credited, and nothing else changes than what belongs to it and to the transfer.
pub record IsCredited {S : Suite} {N : Node S} (a : Accept) (s : State N) (t : Transfer S)
    (w : Wallet S) (s' : State N) : Type 0 where
  pub waited : N.map_contains (s.unaccepted_transfers a.receiver) a.transfer_id ≡ true
  pub credited : Wallet S
  pub found : N.map_get s'.wallets a.receiver ≡ some credited
  pub balance : credited.balance ≡ Commitment.add w.balance t.amount
  pub counted : credited.history_len ≡ add_u64 w.history_len 1
  pub sent : credited.last_send_index ≡ w.last_send_index
  pub shown : credited.unaccepted_transfers_hash ≡ N.map_root (s'.unaccepted_transfers a.receiver)
  pub events :
      N.log_items (s'.history a.receiver)
      ≡ N.log_items (s.history a.receiver) ++ transfer_event a.transfer_id ∷ []
  pub others :
      (k : ℕ)
      → a.receiver ≢ k
      → (N.map_get s'.wallets k ≡ N.map_get s.wallets k) × (s'.history k ≡ s.history k)
  pub settled : N.map_contains (s'.unaccepted_transfers a.receiver) a.transfer_id ≡ false
  pub undue : (d : ℕ) → N.set_contains (s'.rollback d) a.transfer_id ≡ false

module _ {S : Suite} {N : Node S} (L : IsLawful N) (a : Accept) (s : State N) where
  -- Where the transfer is due, it is no more after the acceptance, at no height.
  accepted-undue :
      (t : Transfer S) (w : Wallet S) (d : ℕ)
      → Inv s
      → Due s d a.transfer_id t
      → (e : ℕ)
      → N.set_contains ((accepted L t a.transfer_id s w d).rollback e) a.transfer_id ≡ false
  accepted-undue t w d v r e = elim (==_cases d e) [
    | inl (_, test) ↦ rw test (
        L.contains-remove (s.rollback d) a.transfer_id a.transfer_id
        ∙ rw (==_refl a.transfer_id) refl)
    | inr (apart, test) ↦ rw test (elim (Bool-cases (N.set_contains (s.rollback e) a.transfer_id)) [
      | inr not_listed ↦ not_listed
      | inl listed ↦
          let (_, r') = v.due e a.transfer_id listed in absurd (apart (Due-unique r r').0)
    ])
  ]

  -- What an acceptance writes.
  accepted-IsCredited :
      (t : Transfer S) (w : Wallet S) (d : ℕ)
      → Inv s
      → Due s d a.transfer_id t
      → t.to ≡ a.receiver
      → IsCredited a s t w (accepted L t a.transfer_id s w d)
  unfolding add_balance set_unaccepted_transfers_hash
  accepted-IsCredited t w d v r own =
      let payments = N.map_remove (s.unaccepted_transfers t.to) a.transfer_id in
      let log = N.log_push (s.history t.to) (transfer_event a.transfer_id) in
      subst (λ k. IsCredited (record a { receiver = k }) s t w (accepted L t a.transfer_id s w d))
        own
        record {
          waited = r.waits;
          credited = w' L t a.transfer_id s w;
          found = L.get-put s.wallets t.to (w' L t a.transfer_id s w) t.to ∙ rw (==_refl t.to) refl;
          balance = refl;
          counted = refl;
          sent = refl;
          shown = rw (==_refl t.to) refl;
          events = rw (==_refl t.to) (L.items-push (s.history t.to) (transfer_event a.transfer_id));
          others = λ k apart. (
            L.get-put s.wallets t.to (w' L t a.transfer_id s w) k ∙ rw (ne→== t.to k apart) refl,
            update-ne s.history t.to log k apart,
          );
          settled = rw (==_refl t.to) (
              L.contains-get payments a.transfer_id
              ∙ ap is_some (L.get-remove (s.unaccepted_transfers t.to) a.transfer_id a.transfer_id)
              ∙ rw (==_refl a.transfer_id) refl);
          undue = accepted-undue t w d v r;
        }

  -- On consistent tables with room in the height, the execution of an acceptance either succeeds,
  -- where the transfer is stored, is for the key of the acceptance and waits: the balance of the
  -- wallet of that key then is the old one plus the amount, the event of the transfer is appended
  -- to its history, its hash of the waiting transfers is that of the new set, the transfer waits
  -- no longer and is due at no height, and all other wallets and histories are as they were. Or it
  -- ends with unknown_transfer, where the transfer is not stored or does not wait, or with
  -- unauthorized_accept, where it is for another key. It does not panic.
  pub execute_accept-outcome :
      s.height + 1_002 < u64_mod
      → Inv s
      → ((t : Transfer S) × (w : Wallet S) × (s' : State N) × (maybe_transfer s a.transfer_id
            ≡ some t)
          × (t.to ≡ a.receiver)
          × (N.map_get s.wallets a.receiver ≡ some w)
          × (execute_accept a s ≡ (ok tt, s'))
          × IsCredited a s t w s')
        ⊎ ((e : Error) × IsRefused a s e × ((execute_accept a s).0 ≡ err e))
  execute_accept-outcome room v = elim (Option-cases (maybe_transfer s a.transfer_id)) [
    | inl missing ↦
        inr (
          unknown_transfer,
          not_stored missing,
          ap (λ r. r.0) (execute_accept-missing L a s missing),
        )
    | inr (t, loads) ↦ elim (==_cases t.to a.receiver) [
      | inr (foreign, test) ↦ inr (
        unauthorized_accept,
        not_own t loads foreign,
        ap (λ r. r.0) (execute_accept-unauthorized L a s t loads test),
      )
      | inl (own, test) ↦
          let run = execute_accept-loaded L a s t loads test in
          elim (accept_payment-cases L t a.transfer_id s loads room v) [
            | inl (absent, failed) ↦
                inr (unknown_transfer, not_waiting t loads own absent, ap (λ r. r.0) run ∙ failed)
            | inr (w, d, r, found, done) ↦ inl (
              t,
              w,
              accepted L t a.transfer_id s w d,
              loads,
              own,
              subst (λ k. N.map_get s.wallets k ≡ some w) own found,
              run ∙ done,
              accepted-IsCredited t w d v r own,
            )
          ]
    ]
  ]

module _ {S : Suite} {N : Node S} (L : IsLawful N) (c : CreateWallet) (s : State N) where
  abbrev event : Event
  event = create_wallet_event (N.tx_hash (CryptoTransactions.create_wallet c))

  -- The tables with the new wallet.
  pub record IsOpened (s' : State N) : Type 0 where
    pub opened : Wallet S
    pub found : N.map_get s'.wallets c.key ≡ some opened
    pub owner : opened.public_key ≡ c.key
    pub balance : opened.balance ≡ initial_balance
    pub first : N.log_items (s'.history c.key) ≡ event ∷ []
    pub others :
        (k : ℕ)
        → c.key ≢ k
        → (N.map_get s'.wallets k ≡ N.map_get s.wallets k) × (s'.history k ≡ s.history k)

  created-IsOpened : N.map_get s.wallets c.key ≡ none → Inv s → IsOpened (created L c.key c s)
  unfolding initialize
  created-IsOpened absent v =
      let log = N.log_push (s.history c.key) event in
      let w = initialize c.key (N.log_root log) in
      record {
        opened = w;
        found = L.get-put s.wallets c.key w c.key ∙ rw (==_refl c.key) refl;
        owner = refl;
        balance = refl;
        first = rw (==_refl c.key) (
            L.items-push (s.history c.key) event
            ∙ ap (λ l. N.log_items l ++ event ∷ []) (v.unopened c.key absent).0
            ∙ ap (λ es. es ++ event ∷ []) L.items-empty);
        others = λ k apart. (
          L.get-put s.wallets c.key w k ∙ rw (ne→== c.key k apart) refl,
          update-ne s.history c.key log k apart,
        );
      }

  -- On consistent tables, the execution of the creation of a wallet either succeeds, where the key
  -- has none, and gives it a wallet with the initial balance and the creation as its only event,
  -- with all other wallets and histories as they were; or it ends with wallet_exists and writes
  -- nothing.
  pub execute_create_wallet-outcome :
      Inv s
      → ((s' : State N) × (N.map_get s.wallets c.key ≡ none)
          × (execute_create_wallet c s ≡ (ok tt, s'))
          × IsOpened s')
        ⊎ ((w : Wallet S) × (N.map_get s.wallets c.key ≡ some w)
            × (execute_create_wallet c s ≡ (err wallet_exists, s)))
  unfolding execute_create_wallet
  execute_create_wallet-outcome v = elim (Option-cases (N.map_get s.wallets c.key)) [
    | inl absent ↦ inl (
      created L c.key c s,
      absent,
      create_wallet-absent L c.key c s absent,
      created-IsOpened absent v,
    )
    | inr (w, present) ↦ inr (w, present, create_wallet-present L c.key c s w present)
  ]
