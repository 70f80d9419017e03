-- ===== src/Api/Merkle.antt =====
-- The Merkle proofs of Exonum as src/api.rs uses them: proofs of maps and lists, the table of the
-- services' state, and proofs of blocks. They are a parameter of the development.
use private_currency.Crypto.Suite.{Suite}
use private_currency.Exonum.{Node}
use private_currency.Prelude.{
  ℕ, ◌+◌, ◌<◌, ◌≡◌, ◌&&◌, Bool, Option, some, none, ◌⊎◌, inr, List, [], ◌∷◌, drop, elem, All,
  is_some, get_elem?, ◌==◌, if◌then◌else◌,
}
use private_currency.Storage.State.{State, state_hash}

pub record Merkle {S : Suite} (N : Node S) : Type 1 where
  -- `MapProof` with 32-byte keys, `MapProof::check` and `CheckedMapProof`.
  pub MapProof : Type 0 → Type 0
  pub CheckedMapProof : Type 0 → Type 0
  pub MapProofError : Type 0
  pub check_map : {V : Type 0} → MapProof V → MapProofError ⊎ CheckedMapProof V
  pub merkle_root : {V : Type 0} → CheckedMapProof V → ℕ
  pub all_entries : {V : Type 0} → CheckedMapProof V → List (ℕ × Option V)
  pub entries : {V : Type 0} → CheckedMapProof V → List (ℕ × V)
  pub get_proof : {V : Type 0} → N.Map V → ℕ → MapProof V
  pub get_multiproof : {V : Type 0} → N.Map V → List ℕ → MapProof V
  -- `ListProof`, whose `validate` gives the entries with their indices.
  pub ListProof : Type 0 → Type 0
  pub ListProofError : Type 0
  pub validate : {V : Type 0} → ListProof V → ℕ → ℕ → ListProofError ⊎ List (ℕ × V)
  pub get_range_proof : {V : Type 0} → N.Log V → ℕ → ℕ → ListProof V
  -- `BlockProof`: a header and the precommits for it.
  pub Block : Type 0
  pub block_state_hash : Block → ℕ
  pub Precommit : Type 0
  pub validator : Precommit → ℕ
  pub verify_signature : Precommit → ℕ → Bool
  -- `Blockchain::service_table_unique_key` and the core schema's proofs.
  pub service_table_unique_key : ℕ → ℕ → ℕ
  pub block_and_precommits : State N → ℕ → Option (Block × List Precommit)
  pub get_proof_to_service_table : State N → ℕ → ℕ → MapProof ℕ

-- The entries of a list from an index on, with their indices.
abbrev pub indexed {ℓ} : {A : Type ℓ} → ℕ → List A → List (ℕ × A)
indexed i [] = []
indexed i (x ∷ xs) = (i, x) ∷ indexed (i + 1) xs

-- The first entry of a key: `.into_iter().find(|&(k, _)| k == key)`, without the key.
abbrev pub find {ℓ} : {A : Type ℓ} → ℕ → List (ℕ × A) → Option A
find key [] = none
find key ((k, v) ∷ rest) = if k == key then some v else find key rest

-- `entries().map(|(&hash, _)| hash)`.
abbrev pub keys_of {ℓ} : {A : Type ℓ} → List (ℕ × A) → List ℕ
keys_of [] = []
keys_of ((k, v) ∷ rest) = k ∷ keys_of rest

-- Proofs made from an index check, against its root, to what is in it.
pub record IsLawful {S : Suite} {N : Node S} (M : Merkle N) : Type 1 where
  pub check-get_proof :
      {V : Type 0} (m : N.Map V) (k : ℕ)
      → (c : M.CheckedMapProof V) × (M.check_map (M.get_proof m k) ≡ inr c)
        × (M.merkle_root c ≡ N.map_root m)
        × (M.all_entries c ≡ (k, N.map_get m k) ∷ [])
  pub check-get_multiproof :
      {V : Type 0} (m : N.Map V) (ks : List ℕ)
      → (c : M.CheckedMapProof V) × (M.check_map (M.get_multiproof m ks) ≡ inr c)
        × (M.merkle_root c ≡ N.map_root m)
        × ((h : ℕ) → elem h (keys_of (M.entries c)) ≡ (elem h ks && is_some (N.map_get m h)))
  pub validate-get_range_proof :
      {V : Type 0} (l : N.Log V) (from : ℕ)
      → from < N.log_len l
      → M.validate (M.get_range_proof l from (N.log_len l)) (N.log_root l) (N.log_len l)
        ≡ inr (indexed from (drop from (N.log_items l)))

module _ {S : Suite} {N : Node S} (M : Merkle N) where
  -- A proof that is not forged for the root of an index: what it shows is in the index. The hash
  -- function makes other proofs infeasible.
  abbrev pub MapBinding : {V : Type 0} → M.MapProof V → N.Map V → Type 0
  MapBinding {V} p m =
      (c : M.CheckedMapProof V)
      → M.check_map p ≡ inr c
      → M.merkle_root c ≡ N.map_root m
      → ((k : ℕ) (o : Option V) → find k (M.all_entries c) ≡ some o → N.map_get m k ≡ o)
        × ((h : ℕ)
            → elem h (keys_of (M.entries c)) ≡ Bool.true
            → is_some (N.map_get m h) ≡ Bool.true)

  abbrev pub ListBinding : {V : Type 0} → M.ListProof V → N.Log V → Type 0
  ListBinding {V} p l =
      (es : List (ℕ × V))
      → M.validate p (N.log_root l) (N.log_len l) ≡ inr es
      → All (λ e. get_elem? (N.log_items l) e.0 ≡ some e.1) es

  -- The same for a proof of the services' tables and the state of this service, whose only table is
  -- that of the wallets.
  abbrev pub TableBinding : M.MapProof ℕ → ℕ → ℕ → State N → Type 0
  TableBinding p root key s =
      (c : M.CheckedMapProof ℕ)
      → M.check_map p ≡ inr c
      → M.merkle_root c ≡ root
      → (h : ℕ) → find key (M.all_entries c) ≡ some (some h)
      → state_hash s ≡ h ∷ []

  -- The block holds the state of the service at the key, and the node proves it.
  abbrev pub IsPublished : M.Block → ℕ → ℕ → State N → Type 0
  IsPublished block id key s =
      (h : ℕ) × (state_hash s ≡ h ∷ [])
      × (c : M.CheckedMapProof ℕ) × (M.check_map (M.get_proof_to_service_table s id 0) ≡ inr c)
      × (M.merkle_root c ≡ M.block_state_hash block)
      × (find key (M.all_entries c) ≡ some (some h))
