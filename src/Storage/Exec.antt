-- ===== src/Storage/Exec.antt =====
-- Operations on a fork: they end with a value, a service error or a panic, and what they wrote
-- before that stays written. It is Exonum that discards the changes of a failed transaction.
use private_currency.Crypto.Suite.{Suite}
use private_currency.Exonum.{Node}
use private_currency.Prelude.{◌≡◌, ap, Bool, true, false, Option, none, some}
use private_currency.Storage.State.{State}
use private_currency.Transactions.Errors.{Error, Outcome, ok, err, panic}

module _ {S : Suite} (N : Node S) where
  abbrev pub Exec : Type 0 → Type 0
  Exec A = State N → Outcome A × State N

module _ {S : Suite} {N : Node S} where
  infixl 5 ◌>>=◌ ◌>>◌
  abbrev pub ◌>>=◌ : {A B : Type 0} → Exec N A → (A → Exec N B) → Exec N B
  ◌>>=◌ m f s =
      let (r, s') = m s in elim r [ ok a ↦ f a s' | err e ↦ (err e, s') | panic ↦ (panic, s') ]

  abbrev pub ◌>>◌ : {B : Type 0} → Exec N (Unit {0}) → Exec N B → Exec N B
  m >> k = m >>= λ _. k

  abbrev pub pure : {A : Type 0} → A → Exec N A
  pure a s = (ok a, s)

  abbrev pub gets : {A : Type 0} → (State N → A) → Exec N A
  gets f s = (ok (f s), s)

  abbrev pub modify : (State N → State N) → Exec N (Unit {0})
  modify f s = (ok tt, f s)

  -- `o.ok_or(e)?`, `o.expect(..)`, `if !c { return Err(e) }` and `assert!(c)`.
  abbrev pub ok_or : {A : Type 0} → Option A → Error → Exec N A
  ok_or none e s = (err e, s)
  ok_or (some a) e s = (ok a, s)

  abbrev pub expect : {A : Type 0} → Option A → Exec N A
  expect none s = (panic, s)
  expect (some a) s = (ok a, s)

  abbrev pub ensure : Bool → Error → Exec N (Unit {0})
  ensure true e s = (ok tt, s)
  ensure false e s = (err e, s)

  abbrev pub check : Bool → Exec N (Unit {0})
  check true s = (ok tt, s)
  check false s = (panic, s)

  -- A step that succeeds is followed by the rest.
  pub >>=-ok :
      {A B : Type 0} (m : Exec N A) (f : A → Exec N B) (s : State N) {a : A} {s' : State N}
      → m s ≡ (ok a, s')
      → (m >>= f) s ≡ f a s'
  >>=-ok m f s {a} {s'} e = rw (◌>>=◌, e) (ap (λ r. f a r.1) e)
