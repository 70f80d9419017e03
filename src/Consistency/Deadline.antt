-- ===== src/Consistency/Deadline.antt =====
-- How long a transfer waits for its acceptance: the rollback delays of src/transactions.rs and the index
-- of rollbacks of src/storage.rs, in every state of the chain.
use mathlib.Core.Option.{some-injective}
use private_currency.Config.{config}
use private_currency.Consistency.Chain.{Reachable-Inv}
use private_currency.Crypto.Suite.{Suite}
use private_currency.Exonum.{Node, IsLawful}
use private_currency.Prelude.{
  ℕ, ◌+◌, ◌≤◌, ◌<◌, ◌≡◌, ◌∙◌, sym, ap, inl, inr, true, false, some, Bool-cases, arith,
}
use private_currency.Service.Chain.{Reachable}
use private_currency.Storage.State.{State, maybe_transfer}
use private_currency.Transactions.Messages.{Transfer}

module _ {S : Suite} {N : Node S} (L : IsLawful N) where
  -- In a reachable state a transfer that waits is listed for its refund at a height that is not
  -- below the current one, and above it by at most one more than 999, the largest delay that is
  -- accepted.
  pub waiting-bounds :
      {s : State N}
      → Reachable N s
      → (key h : ℕ) → N.map_contains (s.unaccepted_transfers key) h ≡ true
      → (due : ℕ) × (N.set_contains (s.rollback due) h ≡ true)
        × (s.height ≤ due)
        × (due ≤ s.height + config.rollback_delay_end)
  waiting-bounds {s} r key h waits =
      let (t, due, to, d) = (Reachable-Inv L r).waiting key h waits in
      (due, d.listed, d.not_late, omega (arith, d.due_at, d.delay, d.recent))

  -- In a reachable state whose height is above the height at which a transfer was committed plus
  -- its delay, the transfer does not wait for anybody any more.
  pub waiting-settled :
      {s : State N}
      → Reachable N s
      → (h block key : ℕ) (t : Transfer S) → maybe_transfer s h ≡ some t
      → N.map_get s.transactions_locations h ≡ some block
      → block + t.rollback_delay < s.height
      → N.map_contains (s.unaccepted_transfers key) h ≡ false
  waiting-settled {s} r h block key t loads located late =
      elim (Bool-cases (N.map_contains (s.unaccepted_transfers key) h)) [
        | inr settled ↦ settled
        | inl waits ↦
            let (u, due, to, d) = (Reachable-Inv L r).waiting key h waits in
            let same_block : block ≡ d.block =
              some-injective block d.block (sym located ∙ d.located) in
            let same : t ≡ u = some-injective t u (sym loads ∙ d.loads) in
            let delay : t.rollback_delay ≡ u.rollback_delay = ap (λ x. x.rollback_delay) same in
            absurd (omega (arith, same_block, delay, d.due_at, d.not_late, late))
      ]
