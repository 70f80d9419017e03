-- ===== src/Crypto/Opening.antt =====
-- Openings of commitments: `Opening` of src/crypto/proofs.rs. A panic (`expect`) is `none`.
use mathlib.Core.Option
use private_currency.Prelude.{
  ℕ, ◌+◌, ◌-◌, Option, none, some, List, ◌++◌, length, take, drop, if◌then◌else◌, ◌==◌, ltb, leb,
  u64_mod, not, Bool, true, false, [], ◌∷◌, ◌&&◌, ◌≡◌, refl, arith, ==_refl,
}
use private_currency.Crypto.Suite.{Suite}

pub record Opening (S : Suite) : Type 0 where
  pub value : ℕ
  pub blinding : S.Scalar

-- `Opening::BYTE_SIZE`.
abbrev pub byte_size : ℕ
byte_size = 40

-- Whether two slices have the same bytes.
unfoldable pub same_bytes : List ℕ → List ℕ → Bool
same_bytes [] [] = true
same_bytes [] (y ∷ ys) = false
same_bytes (x ∷ xs) [] = false
same_bytes (x ∷ xs) (y ∷ ys) = x == y && same_bytes xs ys

same_bytes_refl : (xs : List ℕ) → same_bytes xs xs ≡ true
unfolding same_bytes
same_bytes_refl [] = refl
same_bytes_refl (x ∷ xs) = ground (arith, ==_refl x, same_bytes_refl xs)

module _ {S : Suite} where
  open S use {Scalar}

  abbrev pub new : ℕ → Scalar → Opening S
  new value blinding = record { value = value; blinding = blinding }

  abbrev pub with_no_blinding : ℕ → Opening S
  with_no_blinding value = new value S.scalar_zero

  -- `PartialEq`; scalars compare by their bytes.
  unfoldable pub equals : Opening S → Opening S → Bool
  unfolding same_bytes
  equals a b = a.value == b.value && same_bytes (S.as_bytes a.blinding) (S.as_bytes b.blinding)

  pub equals_refl : (a : Opening S) → equals a a ≡ true
  unfolding equals
  equals_refl a = ground (arith, ==_refl a.value, same_bytes_refl (S.as_bytes a.blinding))

  unfoldable pub from_slice : List ℕ → Option (Opening S)
  from_slice slice =
      if not (length slice == byte_size)
      then none
      else Option.map (λ b. new (S.read_u64 (take 8 slice)) b)
          (S.from_canonical_bytes (drop 8 slice))

  unfoldable pub to_bytes : Opening S → List ℕ
  to_bytes o = S.write_u64 o.value ++ S.as_bytes o.blinding

  -- `checked_add(..).expect("integer overflow")`, in `Add` and in `AddAssign`.
  unfoldable pub add : Opening S → Opening S → Option (Opening S)
  add a b =
      if ltb (a.value + b.value) u64_mod
      then some (new (a.value + b.value) (S.scalar_add a.blinding b.blinding))
      else none

  -- `checked_sub(..).expect("integer underflow")`, in the three forms of `Sub` and `SubAssign`.
  unfoldable pub sub : Opening S → Opening S → Option (Opening S)
  sub a b =
      if leb b.value a.value
      then some (new (a.value - b.value) (S.scalar_sub a.blinding b.blinding))
      else none
