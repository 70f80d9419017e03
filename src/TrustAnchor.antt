-- ===== src/TrustAnchor.antt =====
-- Verification of block proofs: `TrustAnchor` of src/utils.rs. Exonum's `Precommit` is a parameter,
-- with the number of its validator and the check of its signature.
pub mod Quorum
pub mod Overlap
use private_currency.Prelude.{
  ℕ, ◌+◌, ◌*◌, ◌⊎◌, inl, inr, Bool, true, not, ◌&&◌, ◌/◌, Option, none, some, List, [], ◌∷◌, length,
  elem, get_elem?, ltb, ◌==◌, if◌then◌else◌,
}

pub data BlockVerifyError : Type 0 where
  invalid_validator_id duplicate_validators no_quorum invalid_signature : BlockVerifyError

-- `collect::<HashSet<_>>()`: each key once.
unfoldable pub to_set : List ℕ → List ℕ
to_set [] = []
to_set (k ∷ ks) = let rest = to_set ks in if elem k rest then rest else k ∷ rest

module _ (Precommit : Type 0) (validator : Precommit → ℕ)
    (verify_signature : Precommit → ℕ → Bool) where
  -- `.map(|ValidatorId(id)| self.validators.get(id).ok_or(..)).collect()`.
  unfoldable pub collect_keys : List ℕ → List Precommit → Option (List ℕ)
  collect_keys validators [] = some []
  collect_keys validators (p ∷ ps) =
      let rest = collect_keys validators ps in
      elim (get_elem? validators (validator p)) [
        | none ↦ none
        | some key ↦ elim rest [ none ↦ none | some keys ↦ some (key ∷ keys) ]
      ]

  -- `.iter().zip(validators).all(..)`.
  unfoldable pub all_verify : List Precommit → List ℕ → Bool
  all_verify [] keys = true
  all_verify (p ∷ ps) [] = true
  all_verify (p ∷ ps) (key ∷ keys) = verify_signature p key && all_verify ps keys

  unfoldable pub verify_block_proof : List ℕ → List Precommit → BlockVerifyError ⊎ Unit {0}
  verify_block_proof validators precommits = elim (collect_keys validators precommits) [
    | none ↦ inl invalid_validator_id
    | some keys ↦
        if not (length (to_set keys) == length keys)
        then inl duplicate_validators
        else (if ltb (length keys) (2 * length validators / 3 + 1)
            then inl no_quorum
            else (if not (all_verify precommits keys) then inl invalid_signature else inr tt))
  ]
