-- ===== src/Tests/Blocks.antt =====
-- Two blocks that three of four validators each have signed: src/utils.rs.
use private_currency.Prelude.{ℕ, ◌*◌, ◌<◌, ◌≡◌, refl, Bool, true, inr, List, [], ◌∷◌}
use private_currency.TrustAnchor.{verify_block_proof, collect_keys, to_set, all_verify}
use private_currency.TrustAnchor.Overlap.{count_both, verify_block_proof-overlap}
use private_currency.TrustAnchor.Quorum.{Signed}

abbrev validators : List ℕ
validators = 11 ∷ 12 ∷ 13 ∷ 14 ∷ []

-- A precommit is the number of its validator, and its signature is valid.
abbrev number : ℕ → ℕ
number p = p

abbrev valid : ℕ → ℕ → Bool
valid p key = true

abbrev first : List ℕ
first = 0 ∷ 1 ∷ 2 ∷ []

abbrev second : List ℕ
second = 3 ∷ 2 ∷ 1 ∷ []

first_accepted : verify_block_proof ℕ number valid validators first ≡ inr tt
unfolding verify_block_proof collect_keys to_set all_verify
first_accepted = refl

second_accepted : verify_block_proof ℕ number valid validators second ≡ inr tt
unfolding verify_block_proof collect_keys to_set all_verify
second_accepted = refl

verify_block_proof-overlap_example :
    (keys : List ℕ) × (keys' : List ℕ) × Signed ℕ number valid validators first keys
    × Signed ℕ number valid validators second keys'
    × (4 < 3 * count_both keys keys' validators)
verify_block_proof-overlap_example =
    verify_block_proof-overlap ℕ number valid validators first second first_accepted second_accepted
