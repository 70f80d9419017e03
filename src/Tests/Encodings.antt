-- ===== src/Tests/Encodings.antt =====
-- The theorems on serialization, at a commitment and a range proof of the sample suite, with JSON
-- values whose arrays are chains.
use private_currency.Crypto.Commitment
use private_currency.Crypto.Commitment.{Commitment}
use private_currency.Crypto.RangeProof
use private_currency.Crypto.RangeProof.{SimpleRangeProof, of_inner, elements_size}
use private_currency.Crypto.Sample.{suite, suite-IsLawful}
use private_currency.Crypto.Serialization
use private_currency.Crypto.Serialization.{
  slice, Json, read, write, check, from_buffer, extend_buffer, check_data, serialize_commitment,
  deserialize_commitment, serialize_proof, deserialize_proof,
}
use private_currency.Crypto.Serialization.Buffers.{
  read-write, from_buffer-extend_buffer, check_data-from_buffer,
}
use private_currency.Crypto.Serialization.RoundTrip.{deserialize_proof-serialize}
use private_currency.Prelude.Int.{pos}
use private_currency.Prelude.{
  ℕ, ◌≡◌, refl, ap, inr, Option, none, some, List, [], ◌∷◌, ◌++◌, length, arith,
}

abbrev committed : Commitment suite
committed = record { inner = (pos 300, pos 4) }

abbrev proof : SimpleRangeProof suite
proof = of_inner 299

abbrev segment : ℕ
segment = 99

-- 40 bytes.
abbrev buffer : List ℕ
buffer = suite.compress (pos 7, pos 0) ++ suite.write_u64 9

read-write_example :
    (buffer' : List ℕ) × (write committed buffer 4 36 ≡ some buffer')
    × (length buffer' ≡ length buffer)
    × (check suite buffer' 4 36 segment ≡ some (inr segment))
    × (read buffer' 4 36 ≡ some committed)
read-write_example = read-write suite-IsLawful committed buffer 4 36 segment refl (omega arith)

from_buffer-extend_buffer_example :
    (check_data suite (extend_buffer proof (5 ∷ 6 ∷ [])) 2 elements_size segment
      ≡ some (inr segment))
    × (from_buffer (extend_buffer proof (5 ∷ 6 ∷ [])) 2 elements_size ≡ some proof)
unfolding RangeProof.to_bytes
from_buffer-extend_buffer_example =
    from_buffer-extend_buffer suite-IsLawful proof (5 ∷ 6 ∷ []) segment refl (omega arith)

passes : check suite buffer 0 32 segment ≡ some (inr segment)
unfolding check slice Commitment.from_slice
passes = refl

check_data-from_buffer_example :
    (segment ≡ segment)
    × (p : SimpleRangeProof suite) × (from_buffer (extend_buffer proof (5 ∷ 6 ∷ [])) 2 elements_size
        ≡ some p)
check_data-from_buffer_example =
    check_data-from_buffer (extend_buffer proof (5 ∷ 6 ∷ [])) 2 elements_size segment segment
      from_buffer-extend_buffer_example.0

data Value : Type 0 where
  text : List ℕ → Value
  nil : Value
  link : Value → Value → Value

abbrev array : List Value → Value
array [] = nil
array (v ∷ vs) = link v (array vs)

abbrev as_str : Value → Option (List ℕ)
as_str (text s) = some s
as_str nil = none
as_str (link v vs) = none

abbrev with_head : Value → Option (List Value) → Option (List Value)
with_head v none = none
with_head v (some vs) = some (v ∷ vs)

abbrev as_array : Value → Option (List Value)
as_array (text s) = none
as_array nil = some []
as_array (link v vs) = with_head v (as_array vs)

abbrev json : Json
json = record {
  Str = List ℕ;
  Value = Value;
  HexError = Unit {0};
  string = text;
  array = array;
  as_str = as_str;
  as_array = as_array;
  encode_hex = λ bytes. bytes;
  decode_hex = λ s. inr s;
}

as_array-array : (vs : List Value) → as_array (array vs) ≡ some vs
as_array-array [] = refl
as_array-array (v ∷ vs) = ap (with_head v) (as_array-array vs)

json-IsLawful : Serialization.IsLawful json
json-IsLawful = record {
  as_str-string = λ s. refl;
  as_array-array = as_array-array;
  decode_hex-encode_hex = λ bytes. refl;
}

deserialize_proof-serialize_example :
    (v : Value) × (serialize_proof json proof ≡ some v)
    × (deserialize_proof json v ≡ some (inr proof))
unfolding RangeProof.to_bytes
deserialize_proof-serialize_example =
    deserialize_proof-serialize suite-IsLawful json json-IsLawful proof refl
