-- ===== src/Crypto/Serialization.antt =====
-- The serialization of commitments and range proofs, into the buffers of messages and into JSON:
-- src/crypto/serialization.rs. JSON values and hexadecimal strings are a parameter. A panic is
-- `none`; the offsets in a buffer are 32-bit numbers.
pub mod Buffers
pub mod RoundTrip
use private_currency.Crypto.Commitment
use private_currency.Crypto.Commitment.{Commitment}
use private_currency.Crypto.RangeProof
use private_currency.Crypto.RangeProof.{SimpleRangeProof, elements_size}
use private_currency.Crypto.Suite.{Suite}
use private_currency.Prelude.Result.{◌>>=◌, ◌>>◌, map_err, ok_or, ensure}
use private_currency.Prelude.{
  ℕ, zero, suc, ◌+◌, ◌-◌, ◌*◌, ◌%◌, ◌^◌, ◌≡◌, ◌⊎◌, inl, inr, Bool, not, ◌&&◌, Option, none, some,
  List, [], ◌∷◌, ◌++◌, map, length, take, drop, leb, ltb, ◌==◌, if◌then◌else◌,
}

-- `&buffer[from..to]` and `buffer[from..to].copy_from_slice(bytes)`.
unfoldable pub slice : List ℕ → ℕ → ℕ → Option (List ℕ)
slice buffer from to =
    if leb from to && leb to (length buffer)
    then some (take (to - from) (drop from buffer))
    else none

unfoldable pub copy_into : List ℕ → ℕ → ℕ → List ℕ → Option (List ℕ)
copy_into buffer from to bytes =
    if leb from to && leb to (length buffer) && length bytes == to - from
    then some (take from buffer ++ (bytes ++ drop to buffer))
    else none

-- `slice.chunks(size)`, for at most as many chunks as the first argument.
unfoldable pub chunks : ℕ → ℕ → List ℕ → List (List ℕ)
chunks zero size bytes = []
chunks (suc fuel) size [] = []
chunks (suc fuel) size (b ∷ bytes) =
    take size (b ∷ bytes) ∷ chunks fuel size (drop size (b ∷ bytes))

-- JSON values and the hexadecimal strings of `exonum::encoding::serialize`.
pub record Json : Type 1 where
  pub Str : Type 0
  pub Value : Type 0
  pub HexError : Type 0
  pub string : Str → Value
  pub array : List Value → Value
  pub as_str : Value → Option Str
  pub as_array : Value → Option (List Value)
  pub encode_hex : List ℕ → Str
  pub decode_hex : Str → HexError ⊎ List ℕ

pub record IsLawful (J : Json) : Type 0 where
  pub as_str-string : (s : J.Str) → J.as_str (J.string s) ≡ some s
  pub as_array-array : (vs : List J.Value) → J.as_array (J.array vs) ≡ some vs
  pub decode_hex-encode_hex : (bytes : List ℕ) → J.decode_hex (J.encode_hex bytes) ≡ inr bytes

-- Why a JSON value is refused.
pub data JsonError (J : Json) : Type 0 where
  bad_hex : J.HexError → JsonError J
  invalid_length expected_string not_canonical expected_array : JsonError J
  wrong_count invalid_element_size invalid_proof : JsonError J

-- Why a buffer is refused; the last is an offset beyond 32 bits.
pub data CheckError : Type 0 where
  non_canonical incorrect_size undersized incorrect offset_overflow : CheckError

-- `Field for Commitment`.
abbrev pub field_size : ℕ
field_size = Commitment.byte_len

-- `SegmentField for SimpleRangeProof`.
abbrev pub item_size : ℕ
item_size = 32

-- The product and the sum of two offsets, which may not exceed 32 bits.
abbrev pub checked : ℕ → CheckError ⊎ ℕ
checked offset = if ltb offset (2 ^ 32) then inr offset else inl offset_overflow

module _ {S : Suite} where
  unfoldable pub read : List ℕ → ℕ → ℕ → Option (Commitment S)
  unfolding slice
  read buffer from to = elim (slice buffer from to) [
    | none ↦ none
    | some bytes ↦ Commitment.from_slice bytes
  ]

  unfoldable pub write : Commitment S → List ℕ → ℕ → ℕ → Option (List ℕ)
  unfolding copy_into
  write c buffer from to = copy_into buffer from to (Commitment.to_bytes c)

  -- `StorageValue` and `CryptoHash` for `Commitment`.
  unfoldable pub from_bytes : List ℕ → Option (Commitment S)
  from_bytes value = Commitment.from_slice value

  unfoldable pub hash_of : (List ℕ → ℕ) → Commitment S → ℕ
  hash_of hash c = hash (Commitment.to_bytes c)

  unfoldable pub from_buffer : List ℕ → ℕ → ℕ → Option (SimpleRangeProof S)
  unfolding slice
  from_buffer buffer from count =
      if count == elements_size
      then elim (slice buffer from ((from + item_size * count) % 2 ^ 32)) [
        | none ↦ none
        | some bytes ↦ RangeProof.from_slice bytes
      ]
      else none

  unfoldable pub extend_buffer : SimpleRangeProof S → List ℕ → List ℕ
  extend_buffer p buffer = buffer ++ RangeProof.to_bytes p

module _ (S : Suite) where
  unfoldable pub check : List ℕ → ℕ → ℕ → ℕ → Option (CheckError ⊎ ℕ)
  unfolding slice
  check buffer from to latest_segment =
      if leb from to && (to - from) % 2 ^ 32 == field_size
      then elim (slice buffer from to) [
        | none ↦ none
        | some bytes ↦ elim (Commitment.from_slice {S = S} bytes) [
          | none ↦ some (inl non_canonical)
          | some c ↦ some (inr latest_segment)
        ]
      ]
      else none

  unfoldable pub check_bytes : ℕ → ℕ → List ℕ → CheckError ⊎ ℕ
  check_bytes size latest_segment bytes =
      if not (length bytes == size)
      then inl undersized
      else elim (RangeProof.from_slice {S = S} bytes) [
        | none ↦ inl incorrect
        | some p ↦ inr latest_segment
      ]

  unfoldable pub check_data : List ℕ → ℕ → ℕ → ℕ → Option (CheckError ⊎ ℕ)
  unfolding slice check_bytes
  check_data buffer from count latest_segment =
      if not (count == elements_size)
      then some (inl incorrect_size)
      else elim (checked (count * item_size)) [
        | inl e ↦ some (inl e)
        | inr size ↦ elim (checked (from + size)) [
          | inl e ↦ some (inl e)
          | inr to ↦ elim (slice buffer from to) [
            | none ↦ none
            | some bytes ↦ some (check_bytes size latest_segment bytes)
          ]
        ]
      ]

module _ (J : Json) where
  -- The loop over the elements of a proof.
  unfoldable pub element_bytes : List J.Value → JsonError J ⊎ List ℕ
  element_bytes [] = inr []
  element_bytes (element ∷ elements) = ok_or (J.as_str element) expected_string >>= λ s.
      map_err bad_hex (J.decode_hex s) >>= λ bytes.
      ensure (length bytes == 32) invalid_element_size
      >> (element_bytes elements >>= λ more. inr (bytes ++ more))

  -- The bytes of a proof, up to the loop over its elements.
  unfoldable pub proof_bytes : J.Value → JsonError J ⊎ List ℕ
  unfolding element_bytes
  proof_bytes value = do
    elements ← ok_or (J.as_array value) expected_array
    ensure (length elements == elements_size) wrong_count
    element_bytes elements

module _ {S : Suite} (J : Json) where
  unfoldable pub from_hex : J.Str → JsonError J ⊎ Commitment S
  from_hex hex = do
    bytes ← map_err bad_hex (J.decode_hex hex)
    ensure (length bytes == Commitment.byte_len) invalid_length
    ok_or (Commitment.from_slice bytes) not_canonical

  -- `deserialize_field` gives what it writes to the buffer.
  unfoldable pub deserialize_commitment : J.Value → JsonError J ⊎ Commitment S
  unfolding from_hex
  deserialize_commitment value = do s ← ok_or (J.as_str value) expected_string; from_hex s

  unfoldable pub serialize_commitment : Commitment S → J.Value
  serialize_commitment c = J.string (J.encode_hex (Commitment.to_bytes c))

  unfoldable pub deserialize_proof : J.Value → Option (JsonError J ⊎ SimpleRangeProof S)
  unfolding proof_bytes
  deserialize_proof value = elim (proof_bytes J value) [
    | inl e ↦ some (inl e)
    | inr bytes ↦
        if length bytes == 32 * elements_size
        then some (ok_or (RangeProof.from_slice bytes) invalid_proof)
        else none
  ]

  unfoldable pub serialize_proof : SimpleRangeProof S → Option J.Value
  unfolding chunks
  serialize_proof p =
      let bytes = RangeProof.to_bytes p in
      let strings = map (λ c. J.string (J.encode_hex c)) (chunks (length bytes) 32 bytes) in
      if length strings == elements_size then some (J.array strings) else none
