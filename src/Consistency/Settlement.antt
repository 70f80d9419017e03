-- ===== src/Consistency/Settlement.antt =====
-- A transfer is settled once: `Accept::execute` of src/transactions.rs and `do_rollback` of
-- src/storage.rs exclude each other.
use private_currency.Consistency.Accept.{accept_payment-accepted, accept_payment-unknown, accepted}
use private_currency.Consistency.Expiry.{do_rollback-Inv, is_some-some}
use private_currency.Consistency.Tables.{Inv, Due}
use private_currency.Crypto.Suite.{Suite}
use private_currency.Exonum.{Node, IsLawful}
use private_currency.Prelude.{
  ℕ, ◌+◌, ◌<◌, ◌≡◌, ◌∙◌, ◌⊎◌, refl, sym, ap, subst, inl, inr, true, false, some, arith, Bool-cases,
  ==_refl, u64_mod,
}
use mathlib.Core.Option.{some-injective}
use private_currency.Service.Chain.{HasRoom}
use private_currency.Storage.Rollback.{do_rollback}
use private_currency.Storage.Schema.{accept_payment}
use private_currency.Storage.State.{State, maybe_transfer}
use private_currency.Storage.Wallet.{Wallet}
use private_currency.Transactions.Errors.{ok, err, unknown_transfer}
use private_currency.Transactions.Messages.{Transfer}

-- A transfer is due at the same height wherever its message and its location are the same.
same-Due :
    {S : Suite} {N : Node S} (s s' : State N) (id : ℕ) (t u : Transfer S) {d d' : ℕ}
    → (s'.height ≡ s.height)
      × (s'.transactions ≡ s.transactions)
      × (s'.transactions_locations ≡ s.transactions_locations)
    → Due s d id t
    → Due s' d' id u
    → d' ≡ d
unfolding maybe_transfer
same-Due {N = N} s s' id t u {d} {d'} same r r' =
    let loads : maybe_transfer s' id ≡ maybe_transfer s id = rw (same.1, same.2) refl in
    let t_u : u ≡ t = some-injective _ _ (sym r'.loads ∙ loads ∙ r.loads) in
    let block : r'.block ≡ r.block =
      some-injective _ _ (sym r'.located ∙ ap (λ m. N.map_get m id) same.2 ∙ r.located) in
    let delay : u.rollback_delay ≡ t.rollback_delay = ap (λ x. x.rollback_delay) t_u in
    omega (arith, r.due_at, r'.due_at, block, delay)

module _ {S : Suite} {N : Node S} (L : IsLawful N) (t : Transfer S) (id : ℕ) (s : State N) where
  module _ (loads : maybe_transfer s id ≡ some t) (height_room : s.height + 1_002 < u64_mod)
      (v : Inv s) where
    -- On consistent tables with room in the height, accepting a stored transfer either fails with
    -- unknown_transfer, where it was not waiting, or succeeds with its receiver credited; no
    -- assertion fails.
    pub accept_payment-cases :
        ((N.map_contains (s.unaccepted_transfers t.to) id ≡ false)
          × ((accept_payment t id s).0 ≡ err unknown_transfer))
        ⊎ ((w : Wallet S) × (d : ℕ) × Due s d id t
            × (N.map_get s.wallets t.to ≡ some w)
            × (accept_payment t id s ≡ (ok tt, accepted L t id s w d)))
    accept_payment-cases = elim (Bool-cases (N.map_contains (s.unaccepted_transfers t.to) id)) [
      | inr unknown ↦ inl (unknown, accept_payment-unknown L t id s unknown)
      | inl waits ↦
          let (u, d, _, r') = v.waiting t.to id waits in
          let r : Due s d id t =
            subst (Due s d id) (some-injective _ _ (sym r'.loads ∙ loads)) r' in
          let (w, found) = is_some-some _ r.receiver in
          inr (w, d, r, found, accept_payment-accepted L t id s w d r found height_room)
    ]

    -- On consistent tables with room in the height, accepting a stored transfer that was accepted
    -- just before fails with unknown_transfer.
    pub accept_payment-again :
        (s' : State N)
        → accept_payment t id s ≡ (ok tt, s')
        → (accept_payment t id s').0 ≡ err unknown_transfer
    accept_payment-again s' run = elim accept_payment-cases [
      | inl (_, failed) ↦ let e = sym (ap (λ r. r.0) run) ∙ failed in absurd cc
      | inr (w, d, _, _, run') ↦ accept_payment-unknown L t id s' (
          subst (λ x. N.map_contains (x.unaccepted_transfers t.to) id ≡ false)
            (ap (λ r. r.1) (sym run' ∙ run))
            (ground (
              arith,
              ==_refl t.to,
              ==_refl id,
              L.contains-get (N.map_remove (s.unaccepted_transfers t.to) id) id,
              L.get-remove (s.unaccepted_transfers t.to) id id,
            )))
    ]

  -- On consistent tables with room, after the refunds at a height, accepting a transfer that was
  -- due then fails with unknown_transfer.
  pub accept_payment-refunded :
      HasRoom s
      → Inv s
      → Due s s.height id t
      → (accept_payment t id (do_rollback s).1).0 ≡ err unknown_transfer
  accept_payment-refunded room v r =
      let (s', run, v', empty, same) = do_rollback-Inv L s room v in
      let end : (do_rollback s).1 ≡ s' = ap (λ x. x.1) run in
      subst (λ x. (accept_payment t id x).0 ≡ err unknown_transfer) (sym end)
        (elim (Bool-cases (N.map_contains (s'.unaccepted_transfers t.to) id)) [
          | inr unknown ↦ accept_payment-unknown L t id s' unknown
          | inl waits ↦
              let (u, d, _, r') = v'.waiting t.to id waits in
              let at_height : d ≡ s.height = same-Due s s' id t u (same.0, same.1, same.2) r r' in
              let listed : N.set_contains (s'.rollback s.height) id ≡ true =
                subst (λ i. N.set_contains (s'.rollback i) id ≡ true) at_height r'.listed in
              absurd (let e = empty id in cc)
        ])
