-- ===== src/Crypto/Serialization/RoundTrip.antt =====
-- JSON round trips of src/crypto/serialization.rs.
use private_currency.Crypto.Commitment
use private_currency.Crypto.Commitment.{Commitment}
use private_currency.Crypto.RangeProof
use private_currency.Crypto.RangeProof.{SimpleRangeProof, elements_size}
use private_currency.Crypto.Serialization
use private_currency.Crypto.Serialization.{
  chunks, Json, JsonError, from_hex, deserialize_commitment, serialize_commitment, element_bytes,
  proof_bytes, deserialize_proof, serialize_proof,
}
use private_currency.Crypto.Suite
use private_currency.Crypto.Suite.{Suite}
use private_currency.Prelude.{
  ℕ, zero, suc, ◌*◌, ◌≤◌, ◌≡◌, refl, ap, ◌∙◌, inr, some, List, [], ◌∷◌, ◌++◌, map, All, length,
  take, drop, take-drop, length-take, length-drop, arith,
}

-- All pieces, one after the other.
abbrev join : List (List ℕ) → List ℕ
join [] = []
join (c ∷ cs) = c ++ join cs

-- A list of 32-byte elements is cut into them.
record IsCut (n : ℕ) (bytes : List ℕ) (cs : List (List ℕ)) : Type 0 where
  whole : join cs ≡ bytes
  count : length cs ≡ n
  sizes : All (λ c. length c ≡ 32) cs

chunks-IsCut :
    (n fuel : ℕ) (bytes : List ℕ)
    → length bytes ≡ 32 * n
    → n ≤ fuel
    → IsCut n bytes (chunks fuel 32 bytes)
unfolding chunks
chunks-IsCut zero zero [] size enough = record { whole = refl; count = refl; sizes = tt }
chunks-IsCut zero (suc fuel) [] size enough = record { whole = refl; count = refl; sizes = tt }
chunks-IsCut zero fuel (b ∷ bytes) size enough = absurd (omega (arith, size))
chunks-IsCut (suc n) zero bytes size enough = elim enough [ ]
chunks-IsCut (suc n) (suc fuel) [] size enough = absurd (omega (arith, size))
chunks-IsCut (suc n) (suc fuel) (b ∷ bytes) size enough =
    let all = b ∷ bytes in
    let rest =
      chunks-IsCut n fuel (drop 32 all) (omega (arith, length-drop 32 all, size)) (omega arith) in
    record {
      whole = ap (λ xs. take 32 all ++ xs) rest.whole ∙ take-drop 32 all;
      count = ap suc rest.count;
      sizes = (omega (arith, length-take 32 all, size), rest.sizes);
    }

length-map : {A B : Type 0} (f : A → B) (xs : List A) → length (map f xs) ≡ length xs
length-map f [] = refl
length-map f (x ∷ xs) = ap suc (length-map f xs)

module _ {S : Suite} (L : Suite.IsLawful S) (J : Json) (LJ : Serialization.IsLawful J) where
  -- A commitment that was serialized to JSON is deserialized to itself.
  pub deserialize_commitment-serialize :
      (c : Commitment S) → deserialize_commitment J (serialize_commitment J c) ≡ inr c
  unfolding deserialize_commitment serialize_commitment from_hex Commitment.to_bytes
      Commitment.from_slice
  deserialize_commitment-serialize c =
      rw (LJ.as_str-string, LJ.decode_hex-encode_hex, L.length-compress, L.decompress-compress) refl

  element_bytes-map :
      (cs : List (List ℕ))
      → All (λ c. length c ≡ 32) cs
      → element_bytes J (map (λ c. J.string (J.encode_hex c)) cs) ≡ inr (join cs)
  unfolding element_bytes
  element_bytes-map [] sizes = refl
  element_bytes-map (c ∷ cs) sizes =
      rw (LJ.as_str-string, LJ.decode_hex-encode_hex, sizes.0, element_bytes-map cs sizes.1) refl

  -- A range proof of 672 bytes is serialized to JSON and deserialized to itself, both without a
  -- panic.
  pub deserialize_proof-serialize :
      (p : SimpleRangeProof S)
      → length (RangeProof.to_bytes p) ≡ 672
      → (v : J.Value) × (serialize_proof J p ≡ some v) × (deserialize_proof J v ≡ some (inr p))
  unfolding deserialize_proof proof_bytes serialize_proof RangeProof.to_bytes RangeProof.from_slice
  deserialize_proof-serialize p size =
      let bytes = S.proof_to_bytes p.inner in
      let cut = chunks-IsCut 21 (length bytes) bytes size (omega (arith, size)) in
      let strings = map (λ c. J.string (J.encode_hex c)) (chunks (length bytes) 32 bytes) in
      let count : length strings ≡ 21 = length-map _ (chunks (length bytes) 32 bytes) ∙ cut.count in
      (
        J.array strings,
        rw (serialize_proof, count) refl,
        rw
            (
              deserialize_proof,
              LJ.as_array-array,
              count,
              element_bytes-map (chunks (length bytes) 32 bytes) cut.sizes,
              cut.whole,
              size,
              L.proof_from_bytes-to_bytes p.inner,
            )
            refl,
      )
