-- ===== src/TrustAnchor/Quorum.antt =====
-- What an accepted block proof shows: `TrustAnchor::verify_block_proof` of src/utils.rs against a
-- description of a quorum that does not follow the code.
use private_currency.Prelude.{
  ℕ, ◌+◌, ◌*◌, ◌<◌, ◌≤◌, ◌≡◌, ◌↔◌, inl, inr, refl, Bool, true, false, ◌/◌, some, List, [], ◌∷◌,
  length, elem, IsDistinct, get_elem?, ltb, arith, Option-cases,
}
use private_currency.TrustAnchor.{to_set, collect_keys, all_verify, verify_block_proof}

elem-to_set : (k : ℕ) (ks : List ℕ) → elem k (to_set ks) ≡ elem k ks
unfolding to_set
elem-to_set k [] = refl
elem-to_set k (x ∷ ks) = ground (arith, elem-to_set k ks, elem-to_set x ks)

length-to_set : (ks : List ℕ) → length (to_set ks) ≤ length ks
unfolding to_set
length-to_set [] = omega arith
length-to_set (k ∷ ks) = ground (arith, length-to_set ks)

-- A set of keys is as long as their list exactly if no key is repeated.
to_set-IsDistinct : (ks : List ℕ) → length (to_set ks) ≡ length ks → IsDistinct ks
unfolding to_set
to_set-IsDistinct [] e = tt
to_set-IsDistinct (k ∷ ks) e =
    ground (arith, elem-to_set k ks, length-to_set ks, to_set-IsDistinct ks)

IsDistinct-to_set : (ks : List ℕ) → IsDistinct ks → length (to_set ks) ≡ length ks
unfolding to_set
IsDistinct-to_set [] h = refl
IsDistinct-to_set (k ∷ ks) h = ground (arith, elem-to_set k ks, IsDistinct-to_set ks h.1)

quorum_iff : (n m : ℕ) → (ltb m (2 * n / 3 + 1) ≡ false) ↔ (2 * n < 3 * m)
quorum_iff n m = ground arith

module _ (Precommit : Type 0) (validator : Precommit → ℕ) (verify_signature : Precommit → ℕ → Bool)
    (validators : List ℕ) where
  -- The keys of the precommits, each signed by its validator.
  abbrev pub Signed : List Precommit → List ℕ → Type 0
  Signed [] [] = Unit {0}
  Signed [] (key ∷ keys) = ⊥
  Signed (p ∷ ps) [] = ⊥
  Signed (p ∷ ps) (key ∷ keys) =
      (get_elem? validators (validator p) ≡ some key)
      × (verify_signature p key ≡ true)
      × Signed ps keys

  -- More than two thirds of the validators signed, each at most once.
  pub record IsCommitted (precommits : List Precommit) : Type 0 where
    pub keys : List ℕ
    pub signed : Signed precommits keys
    pub distinct : IsDistinct keys
    pub quorum : 2 * length validators < 3 * length keys

  collected-Signed :
      (ps : List Precommit) (keys : List ℕ)
      → collect_keys Precommit validator verify_signature validators ps ≡ some keys
      → all_verify Precommit validator verify_signature ps keys ≡ true
      → Signed ps keys
  unfolding collect_keys all_verify
  collected-Signed [] [] e v = tt
  collected-Signed [] (key ∷ keys) e v = ground arith
  collected-Signed (p ∷ ps) [] e v = ground arith
  collected-Signed (p ∷ ps) (key ∷ keys) e v = ground (arith, collected-Signed ps keys)

  Signed-collected :
      (ps : List Precommit) (keys : List ℕ)
      → Signed ps keys
      → (collect_keys Precommit validator verify_signature validators ps ≡ some keys)
        × (all_verify Precommit validator verify_signature ps keys ≡ true)
  unfolding collect_keys all_verify
  Signed-collected [] [] h = (refl, refl)
  Signed-collected [] (key ∷ keys) h = absurd h
  Signed-collected (p ∷ ps) [] h = absurd h
  Signed-collected (p ∷ ps) (key ∷ keys) h = ground (arith, Signed-collected ps keys h.2)

  accepted_parts :
      (ps : List Precommit) (keys : List ℕ)
      → collect_keys Precommit validator verify_signature validators ps ≡ some keys
      → verify_block_proof Precommit validator verify_signature validators ps ≡ inr tt
      → (length (to_set keys) ≡ length keys)
        × (ltb (length keys) (2 * length validators / 3 + 1) ≡ false)
        × (all_verify Precommit validator verify_signature ps keys ≡ true)
  unfolding verify_block_proof
  accepted_parts ps keys found e = ground arith

  -- A block proof is accepted exactly if more than two thirds of the validators are named in it,
  -- none of them twice, each with a valid signature.
  pub verify_block_proof-IsCommitted :
      (precommits : List Precommit)
      → (verify_block_proof Precommit validator verify_signature validators precommits ≡ inr tt)
        ↔ IsCommitted precommits
  unfolding verify_block_proof
  verify_block_proof-IsCommitted precommits = (
    λ e.
        elim (Option-cases
          (collect_keys Precommit validator verify_signature validators precommits)) [
            | inl missing ↦ ground arith
            | inr (keys, found) ↦
                let (distinct, quorum, signed) = accepted_parts precommits keys found e in
                record {
                  keys = keys;
                  signed = collected-Signed precommits keys found signed;
                  distinct = to_set-IsDistinct keys distinct;
                  quorum = (quorum_iff (length validators) (length keys)).0 quorum;
                }
          ],
    λ c.
        let (found, signed) = Signed-collected precommits c.keys c.signed in
        let distinct = IsDistinct-to_set c.keys c.distinct in
        let quorum = (quorum_iff (length validators) (length c.keys)).1 c.quorum in ground arith,
  )
