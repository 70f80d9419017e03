-- ===== src/Prelude/Result.antt =====
-- Results: the `?` of Rust on `Result` and `Option`, and what a check that succeeds went through.
use mathlib.Core.Sum.{inr-injective}
use mathlib.Core.Path.{◌≡◌, refl, ap}
use mathlib.Core.Logic.{◌⊎◌, inl, inr}
use mathlib.Core.Bool.{Bool, true, false}
use mathlib.Core.Option.{Option, none, some}

-- `result.map_err(..)?`, `option.ok_or(..)?` and `if !test { return Err(..) }`.
module _ {E : Type 0} where
  infixl 5 ◌>>=◌ ◌>>◌
  abbrev pub ◌>>=◌ : {A B : Type 0} → E ⊎ A → (A → E ⊎ B) → E ⊎ B
  inl e >>= f = inl e
  inr a >>= f = f a

  abbrev pub ◌>>◌ : {B : Type 0} → E ⊎ Unit {0} → E ⊎ B → E ⊎ B
  m >> k = m >>= λ _. k

  abbrev pub map_err : {D A : Type 0} → (D → E) → D ⊎ A → E ⊎ A
  map_err f (inl d) = inl (f d)
  map_err f (inr a) = inr a

  abbrev pub ok_or : {A : Type 0} → Option A → E → E ⊎ A
  ok_or none e = inl e
  ok_or (some a) e = inr a

  abbrev pub ensure : Bool → E → E ⊎ Unit {0}
  ensure true e = inr tt
  ensure false e = inl e

  -- What a check that succeeds went through.
  pub >>=-inr :
      {A B : Type 0} (m : E ⊎ A) (f : A → E ⊎ B) {b : B}
      → (m >>= f) ≡ inr b
      → (a : A) × (m ≡ inr a) × (f a ≡ inr b)
  >>=-inr (inl e) f h = cc
  >>=-inr (inr a) f h = (a, refl, h)

  pub map_err-inr : {D A : Type 0} (f : D → E) (m : D ⊎ A) {a : A} → map_err f m ≡ inr a → m ≡ inr a
  map_err-inr f (inl d) h = absurd (cc h)
  map_err-inr f (inr b) {a} h = ap inr (inr-injective b a h)

  pub ok_or-inr : {A : Type 0} (o : Option A) (e : E) {a : A} → ok_or o e ≡ inr a → o ≡ some a
  ok_or-inr none e h = absurd (cc h)
  ok_or-inr (some b) e {a} h = ap some (inr-injective b a h)

  pub ensure-inr : (b : Bool) (e : E) {u : Unit {0}} → ensure b e ≡ inr u → b ≡ true
  ensure-inr true e h = refl
  ensure-inr false e h = absurd (cc h)

  -- A check goes on to succeed with `g` where it did with `f`.
  pub >>=-also :
      {A B C : Type 0} (m : E ⊎ A) (f : A → E ⊎ B) (g : A → E ⊎ C) {b : B} {c : C}
      → ((a : A) → f a ≡ inr b → g a ≡ inr c)
      → (m >>= f) ≡ inr b
      → (m >>= g) ≡ inr c
  >>=-also (inl e) f g also h = absurd (cc h)
  >>=-also (inr a) f g also h = also a h
