-- ===== src/Crypto/RangeProof.antt =====
-- Range proofs: `SimpleRangeProof` of src/crypto/proofs.rs.
use mathlib.Core.Option
use private_currency.Prelude.{ℕ, ◌+◌, ◌*◌, Bool, Option, List}
use private_currency.Crypto.Commitment.{Commitment}
use private_currency.Crypto.Opening.{Opening}
use private_currency.Crypto.Suite.{Suite}

pub record SimpleRangeProof (S : Suite) : Type 0 where
  pub inner : S.RangeProof

-- `SimpleRangeProof::BITS` and `ELEMENTS_SIZE`.
abbrev pub bits : ℕ
bits = 64

abbrev pub elements_size : ℕ
elements_size = 9 + 2 * 6

module _ {S : Suite} where
  abbrev pub of_inner : S.RangeProof → SimpleRangeProof S
  of_inner p = record { inner = p }

  -- The first argument is the randomness that the prover draws.
  unfoldable pub prove : ℕ → Opening S → Option (SimpleRangeProof S)
  prove seed o = Option.map of_inner (S.prove_single seed o.value o.blinding bits)

  unfoldable pub from_slice : List ℕ → Option (SimpleRangeProof S)
  from_slice slice = Option.map of_inner (S.proof_from_bytes slice)

  unfoldable pub verify : SimpleRangeProof S → Commitment S → Bool
  verify p c = S.verify_single p.inner (S.compress c.inner) bits

  unfoldable pub to_bytes : SimpleRangeProof S → List ℕ
  to_bytes p = S.proof_to_bytes p.inner
