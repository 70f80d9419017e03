-- ===== src/Crypto/Sample.antt =====
-- A suite over the integers that meets the laws: a point is the pair of a value and a blinding, and
-- a range proof is the value itself. It serves the tests and the examples.
use private_currency.Crypto.Suite.{Suite, IsLawful}
use private_currency.Prelude.Int.{ℤ, pos, negsuc, pos_part, neg_part, sub_ℕ, ◌+ℤ◌, ◌-ℤ◌, int_laws}
use private_currency.Prelude.{
  ℕ, zero, suc, ◌+◌, ◌≡◌, ◌↔◌, refl, Bool, true, false, ◌&&◌, Option, none, some, List, [], ◌∷◌,
  arith, length, ◌==◌, ltb, u64_mod, if◌then◌else◌,
}

-- An integer in 32 numbers, its two parts first.
abbrev encode : ℤ → List ℕ
encode a =
    pos_part a
    ∷ neg_part a
    ∷ 0
    ∷ 0
    ∷ 0
    ∷ 0
    ∷ 0
    ∷ 0
    ∷ 0
    ∷ 0
    ∷ 0
    ∷ 0
    ∷ 0
    ∷ 0
    ∷ 0
    ∷ 0
    ∷ 0
    ∷ 0
    ∷ 0
    ∷ 0
    ∷ 0
    ∷ 0
    ∷ 0
    ∷ 0
    ∷ 0
    ∷ 0
    ∷ 0
    ∷ 0
    ∷ 0
    ∷ 0
    ∷ 0
    ∷ 0
    ∷ []

abbrev decode : List ℕ → Option ℤ
decode (p ∷ n ∷ rest) = some (sub_ℕ p n)
decode (p ∷ []) = none
decode [] = none

decode-encode : (a : ℤ) → decode (encode a) ≡ some a
decode-encode a = ground arith

abbrev Point : Type 0
Point = ℤ × ℤ

-- The blinding's two parts stand where `encode` puts zeros.
abbrev encode_point : Point → List ℕ
encode_point (v, r) =
    pos_part v
    ∷ neg_part v
    ∷ pos_part r
    ∷ neg_part r
    ∷ 0
    ∷ 0
    ∷ 0
    ∷ 0
    ∷ 0
    ∷ 0
    ∷ 0
    ∷ 0
    ∷ 0
    ∷ 0
    ∷ 0
    ∷ 0
    ∷ 0
    ∷ 0
    ∷ 0
    ∷ 0
    ∷ 0
    ∷ 0
    ∷ 0
    ∷ 0
    ∷ 0
    ∷ 0
    ∷ 0
    ∷ 0
    ∷ 0
    ∷ 0
    ∷ 0
    ∷ 0
    ∷ []

abbrev decode_point : List ℕ → Option Point
decode_point (p ∷ n ∷ q ∷ m ∷ rest) = some (sub_ℕ p n, sub_ℕ q m)
decode_point (p ∷ n ∷ q ∷ []) = none
decode_point (p ∷ n ∷ []) = none
decode_point (p ∷ []) = none
decode_point [] = none

decode_point-encode_point : (x : Point) → decode_point (encode_point x) ≡ some x
decode_point-encode_point (v, r) = ground arith

abbrev eq_ℤ : ℤ → ℤ → Bool
eq_ℤ (pos a) (pos b) = a == b
eq_ℤ (negsuc a) (negsuc b) = a == b
eq_ℤ _ _ = false

eq_ℤ_iff : (a b : ℤ) → (eq_ℤ a b ≡ true) ↔ (a ≡ b)
eq_ℤ_iff a b = ground arith

abbrev zeros : ℕ → List ℕ
zeros zero = []
zeros (suc n) = 0 ∷ zeros n

length-zeros : (n : ℕ) → length (zeros n) ≡ n
length-zeros zero = refl
length-zeros (suc n) = omega (arith, length-zeros n)

-- The proof of a value is the value, kept in 672 numbers; it verifies for the points of that value.
abbrev prove : ℕ → ℕ → ℤ → ℕ → Option ℕ
prove seed v r bits = if ltb v u64_mod then some v else none

abbrev verify : ℕ → List ℕ → ℕ → Bool
verify v (p ∷ n ∷ rest) bits = v == p && n == 0 && ltb v u64_mod
verify v (p ∷ []) bits = false
verify v [] bits = false

abbrev read_first : List ℕ → Option ℕ
read_first [] = none
read_first (v ∷ rest) = some v

abbrev read_u64 : List ℕ → ℕ
read_u64 [] = 0
read_u64 (v ∷ rest) = v

abbrev pub suite : Suite
suite = record {
  Scalar = ℤ;
  scalar_zero = pos 0;
  scalar_add = ◌+ℤ◌;
  scalar_sub = ◌-ℤ◌;
  scalar_from = pos;
  as_bytes = encode;
  from_canonical_bytes = decode;
  Point = Point;
  identity = (pos 0, pos 0);
  point_add = λ x y. (x.0 +ℤ y.0, x.1 +ℤ y.1);
  point_sub = λ x y. (x.0 -ℤ y.0, x.1 -ℤ y.1);
  point_eq = λ x y. eq_ℤ x.0 y.0 && eq_ℤ x.1 y.1;
  compress = encode_point;
  decompress = decode_point;
  commit = λ v r. (v, r);
  RangeProof = ℕ;
  prove_single = prove;
  verify_single = verify;
  proof_to_bytes = λ v. v ∷ zeros 671;
  proof_from_bytes = read_first;
  write_u64 = λ v. v ∷ zeros 7;
  read_u64 = read_u64;
}

add_pair_assoc :
    (x y z : Point)
    → suite.point_add (suite.point_add x y) z ≡ suite.point_add x (suite.point_add y z)
add_pair_assoc (a, b) (c, d) (e, f) = λ i. (assoc a c e i, assoc b d f i)
  where
    assoc : (a b c : ℤ) → a +ℤ b +ℤ c ≡ a +ℤ (b +ℤ c)
    assoc a b c = omega int_laws

scalar_from-add : (a b : ℕ) → pos (a + b) ≡ pos a +ℤ pos b
scalar_from-add a b = omega int_laws

cancel : (a b : ℤ) → a +ℤ b -ℤ b ≡ a
cancel a b = omega int_laws

restore : (a b : ℤ) → a -ℤ b +ℤ b ≡ a
restore a b = omega int_laws

swap : (a b : ℤ) → a +ℤ b ≡ b +ℤ a
swap a b = omega int_laws

right_zero : (a : ℤ) → a +ℤ pos 0 ≡ a
right_zero a = omega int_laws

pub suite-IsLawful : IsLawful suite
suite-IsLawful = record {
  add_assoc = add_pair_assoc;
  add_comm = λ x y i. (swap x.0 y.0 i, swap x.1 y.1 i);
  add-identity = λ x i. (right_zero x.0 i, right_zero x.1 i);
  add-sub = λ x y i. (cancel x.0 y.0 i, cancel x.1 y.1 i);
  sub-add = λ x y i. (restore x.0 y.0 i, restore x.1 y.1 i);
  point_eq_iff = λ x y. ground (arith, eq_ℤ_iff x.0 y.0, eq_ℤ_iff x.1 y.1);
  scalar_add-sub = restore;
  scalar_from-add = scalar_from-add;
  commit-add = λ v w r s. refl;
  decompress-compress = decode_point-encode_point;
  length-compress = λ x. refl;
  length-as_bytes = λ a. refl;
  from_canonical_bytes-as_bytes = decode-encode;
  length-write_u64 = λ v. refl;
  read_u64-write_u64 = λ v h. refl;
  verify-prove = λ seed v r e. ground arith;
  prove_single-total = λ seed v r h. (v, ground arith);
  length-proof_to_bytes = λ seed v r e. refl;
  proof_from_bytes-to_bytes = λ p. refl;
}
