-- ===== src/Debug/Probe.antt =====
-- The debugger's probe: `DebuggerProbe` of src/debug.rs and the part of `Schema` that it calls.
-- `is_shutdown` holds once the channel to the debugger was found closed.
use private_currency.Crypto.Suite.{Suite}
use private_currency.Exonum.{Node, IsLawful}
use private_currency.Prelude.{
  ℕ, ◌≡◌, refl, Bool, false, ◌||◌, List, [], ◌∷◌, elem, if◌then◌else◌, arith,
}
use private_currency.Storage.Exec.{Exec, ◌>>=◌, ◌>>◌, pure, gets, modify}
use private_currency.Storage.State.{State, rollback_transfers}

pub record DebuggerOptions : Type 0 where
  pub check_invariants : Bool

pub record DebuggerProbe : Type 0 where
  pub is_shutdown : Bool
  pub options : DebuggerOptions

module _ {S : Suite} (N : Node S) where
  unfoldable pub insert_all : List ℕ → N.KeySet → N.KeySet
  insert_all [] set = set
  insert_all (id ∷ ids) set = insert_all ids (N.set_insert set id)

module _ {S : Suite} {N : Node S} where
  unfoldable pub copy_rolled_back_transfers : Exec N (Unit {0})
  copy_rolled_back_transfers = do
    height ← gets (λ s. s.height)
    transfer_ids ← gets (λ s. rollback_transfers s height)
    modify (λ s. record s { rolled_back = N.set_clear s.rolled_back })
    modify (λ s. record s { rolled_back = insert_all N transfer_ids s.rolled_back })

  unfoldable pub on_before_commit : DebuggerProbe → Exec N (Unit {0})
  unfolding copy_rolled_back_transfers
  on_before_commit probe = if probe.is_shutdown then pure tt else copy_rolled_back_transfers

module _ {S : Suite} {N : Node S} (L : IsLawful N) where
  contains-insert_all :
      (ids : List ℕ) (set : N.KeySet) (h : ℕ)
      → N.set_contains (insert_all N ids set) h ≡ (elem h ids || N.set_contains set h)
  unfolding insert_all
  contains-insert_all [] set h = refl
  contains-insert_all (id ∷ ids) set h =
      ground (arith, contains-insert_all ids (N.set_insert set id) h, L.contains-insert set id h)

  -- While the debugger runs, its table holds exactly the transfers that are due at the height
  -- after its probe ran before a commit.
  pub contains-rolled_back :
      (probe : DebuggerProbe) (s : State N) (h : ℕ)
      → probe.is_shutdown ≡ false
      → N.set_contains (on_before_commit probe s).1.rolled_back h
        ≡ N.set_contains (s.rollback s.height) h
  unfolding on_before_commit rollback_transfers
  contains-rolled_back probe s h running = ground (
    arith,
    contains-insert_all (N.set_items (s.rollback s.height)) (N.set_clear s.rolled_back) h,
    L.elem-items (s.rollback s.height) h,
    L.contains-clear s.rolled_back h,
  )
