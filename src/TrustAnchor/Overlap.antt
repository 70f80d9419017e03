-- ===== src/TrustAnchor/Overlap.antt =====
-- Two block proofs that the same validators accept: `TrustAnchor::verify_block_proof` of src/utils.rs.
use private_currency.Prelude.{
  ℕ, zero, suc, Bool, ◌+◌, ◌*◌, ◌<◌, ◌≤◌, ◌≡◌, refl, inr, true, false, some, List, [], ◌∷◌, length,
  elem, IsDistinct, get_elem?, arith, ◌&&◌, if◌then◌else◌, ==_refl,
}
use private_currency.TrustAnchor.{verify_block_proof}
use private_currency.TrustAnchor.Quorum.{Signed, verify_block_proof-IsCommitted}

-- How many of the validators are among the keys, and among both lists of keys.
abbrev pub count : List ℕ → List ℕ → ℕ
count keys [] = 0
count keys (v ∷ vs) = (if elem v keys then 1 else 0) + count keys vs

abbrev pub count_both : List ℕ → List ℕ → List ℕ → ℕ
count_both ks js [] = 0
count_both ks js (v ∷ vs) = (if elem v ks && elem v js then 1 else 0) + count_both ks js vs

overlap : (ks js vs : List ℕ) → count ks vs + count js vs ≤ length vs + count_both ks js vs
overlap ks js [] = omega arith
overlap ks js (v ∷ vs) = ground (arith, overlap ks js vs)

-- A further key only adds to the count, and adds one where it is a validator and new.
count-cons_le : (k : ℕ) (ks vs : List ℕ) → count ks vs ≤ count (k ∷ ks) vs
count-cons_le k ks [] = omega arith
count-cons_le k ks (v ∷ vs) = ground (arith, count-cons_le k ks vs)

count-cons :
    (k : ℕ) (ks vs : List ℕ)
    → elem k ks ≡ false
    → elem k vs ≡ true
    → count ks vs + 1 ≤ count (k ∷ ks) vs
count-cons k ks [] new member = absurd (cc member)
count-cons k ks (v ∷ vs) new member = ground (arith, count-cons_le k ks vs, count-cons k ks vs new)

length-count :
    (ks vs : List ℕ)
    → IsDistinct ks
    → ((k : ℕ) → elem k ks ≡ true → elem k vs ≡ true)
    → length ks ≤ count ks vs
length-count [] vs distinct members = omega arith
length-count (k ∷ ks) vs distinct members = omega (
  arith,
  length-count ks vs distinct.1 (λ j e. members j (ground (arith, e))),
  count-cons k ks vs distinct.0 (members k (rw (==_refl k) refl)),
)

get_elem?-elem : (vs : List ℕ) (i k : ℕ) → get_elem? vs i ≡ some k → elem k vs ≡ true
get_elem?-elem [] i k e = absurd (cc e)
get_elem?-elem (v ∷ vs) zero k e = ground (arith, e)
get_elem?-elem (v ∷ vs) (suc i) k e = ground (arith, get_elem?-elem vs i k e)

module _ (Precommit : Type 0) (validator : Precommit → ℕ) (verify_signature : Precommit → ℕ → Bool)
    (validators : List ℕ) where
  Signed-elem :
      (ps : List Precommit) (keys : List ℕ)
      → Signed Precommit validator verify_signature validators ps keys
      → (k : ℕ) → elem k keys ≡ true
      → elem k validators ≡ true
  Signed-elem [] [] signed k e = absurd (cc e)
  Signed-elem [] (key ∷ keys) signed k e = absurd signed
  Signed-elem (p ∷ ps) [] signed k e = absurd signed
  Signed-elem (p ∷ ps) (key ∷ keys) signed k e = ground (
    arith,
    e,
    get_elem?-elem validators (validator p) key signed.0,
    Signed-elem ps keys signed.2 k,
  )

  -- Two block proofs that are accepted with the same validators are both signed by more than a
  -- third of these.
  pub verify_block_proof-overlap :
      (ps qs : List Precommit)
      → verify_block_proof Precommit validator verify_signature validators ps ≡ inr tt
      → verify_block_proof Precommit validator verify_signature validators qs ≡ inr tt
      → (keys : List ℕ) × (keys' : List ℕ) × Signed Precommit validator verify_signature validators
          ps keys
        × Signed Precommit validator verify_signature validators qs keys'
        × (length validators < 3 * count_both keys keys' validators)
  verify_block_proof-overlap ps qs accepted accepted' =
      let description =
        verify_block_proof-IsCommitted Precommit validator verify_signature validators in
      let c = (description ps).0 accepted in
      let d = (description qs).0 accepted' in
      (
        c.keys,
        d.keys,
        c.signed,
        d.signed,
        omega (
          arith,
          c.quorum,
          d.quorum,
          overlap c.keys d.keys validators,
          length-count c.keys validators c.distinct (Signed-elem ps c.keys c.signed),
          length-count d.keys validators d.distinct (Signed-elem qs d.keys d.signed),
        ),
      )
