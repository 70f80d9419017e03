-- ===== src/Crypto/Commitment.antt =====
-- Pedersen commitments: `Commitment` of src/crypto/proofs.rs.
use mathlib.Core.Option
use private_currency.Prelude.{ℕ, Bool, Option, none, List, length, if◌then◌else◌, ◌==◌, not}
use private_currency.Crypto.Opening
use private_currency.Crypto.Opening.{Opening}
use private_currency.Crypto.Suite.{Suite}

pub record Commitment (S : Suite) : Type 0 where
  pub inner : S.Point

-- `Commitment::BYTE_LEN`.
abbrev pub byte_len : ℕ
byte_len = 32

module _ {S : Suite} where
  unfoldable pub from_opening : Opening S → Commitment S
  from_opening o = record { inner = S.commit (S.scalar_from o.value) o.blinding }

  -- The blinding that `Commitment::new` draws is its second argument.
  unfoldable pub new : ℕ → S.Scalar → Commitment S × Opening S
  new value blinding = let opening = Opening.new value blinding in (from_opening opening, opening)

  abbrev pub with_no_blinding : ℕ → Commitment S
  with_no_blinding value = from_opening (Opening.with_no_blinding value)

  unfoldable pub from_slice : List ℕ → Option (Commitment S)
  from_slice slice =
      if not (length slice == byte_len)
      then none
      else Option.map (λ p. record { inner = p }) (S.decompress slice)

  unfoldable pub to_bytes : Commitment S → List ℕ
  to_bytes c = S.compress c.inner

  -- `PartialEq`, which compares the points.
  unfoldable pub eq : Commitment S → Commitment S → Bool
  eq a b = S.point_eq a.inner b.inner

  unfoldable pub verify : Commitment S → Opening S → Bool
  unfolding eq
  verify c o = eq c (from_opening o)

  unfoldable pub add : Commitment S → Commitment S → Commitment S
  add a b = record { inner = S.point_add a.inner b.inner }

  unfoldable pub sub : Commitment S → Commitment S → Commitment S
  sub a b = record { inner = S.point_sub a.inner b.inner }
