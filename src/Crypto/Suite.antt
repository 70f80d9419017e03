-- ===== src/Crypto/Suite.antt =====
-- The third-party crates that src/crypto/proofs.rs calls: `curve25519-dalek` (scalars and Ristretto
-- points), `bulletproofs` (generators and range proofs) and `byteorder`. Their operations are a
-- parameter of the development, and `IsLawful` states what the code relies on.
use private_currency.Prelude.{
  ℕ, ◌+◌, ◌<◌, ◌≡◌, ◌↔◌, Bool, true, Option, some, List, length, u64_mod,
}

pub record Suite : Type 1 where
  -- `curve25519::scalar::Scalar`.
  pub Scalar : Type 0
  pub scalar_zero : Scalar
  pub scalar_add : Scalar → Scalar → Scalar
  pub scalar_sub : Scalar → Scalar → Scalar
  -- `Scalar::from(u64)`.
  pub scalar_from : ℕ → Scalar
  pub as_bytes : Scalar → List ℕ
  pub from_canonical_bytes : List ℕ → Option Scalar
  -- `curve25519::ristretto::RistrettoPoint`.
  pub Point : Type 0
  pub identity : Point
  pub point_add : Point → Point → Point
  pub point_sub : Point → Point → Point
  pub point_eq : Point → Point → Bool
  pub compress : Point → List ℕ
  pub decompress : List ℕ → Option Point
  -- `PedersenGens::commit(value, blinding)` for the default generators.
  pub commit : Scalar → Scalar → Point
  -- `bulletproofs::RangeProof`; the first argument of `prove_single` is the randomness it draws.
  pub RangeProof : Type 0
  pub prove_single : ℕ → ℕ → Scalar → ℕ → Option RangeProof
  pub verify_single : RangeProof → List ℕ → ℕ → Bool
  pub proof_to_bytes : RangeProof → List ℕ
  pub proof_from_bytes : List ℕ → Option RangeProof
  -- `byteorder::LittleEndian`.
  pub write_u64 : ℕ → List ℕ
  pub read_u64 : List ℕ → ℕ

-- Points form an abelian group, a Pedersen commitment is additive in both arguments, encodings
-- round trip, and an honest range proof verifies for the commitment it was made for.
pub record IsLawful (S : Suite) : Type 0 where
  pub add_assoc :
      (x y z : S.Point) → S.point_add (S.point_add x y) z ≡ S.point_add x (S.point_add y z)
  pub add_comm : (x y : S.Point) → S.point_add x y ≡ S.point_add y x
  pub add-identity : (x : S.Point) → S.point_add x S.identity ≡ x
  pub add-sub : (x y : S.Point) → S.point_sub (S.point_add x y) y ≡ x
  pub sub-add : (x y : S.Point) → S.point_add (S.point_sub x y) y ≡ x
  pub point_eq_iff : (x y : S.Point) → (S.point_eq x y ≡ true) ↔ (x ≡ y)
  pub scalar_add-sub : (a b : S.Scalar) → S.scalar_add (S.scalar_sub a b) b ≡ a
  pub scalar_from-add :
      (a b : ℕ) → S.scalar_from (a + b) ≡ S.scalar_add (S.scalar_from a) (S.scalar_from b)
  pub commit-add :
      (v w r s : S.Scalar)
      → S.commit (S.scalar_add v w) (S.scalar_add r s) ≡ S.point_add (S.commit v r) (S.commit w s)
  pub decompress-compress : (x : S.Point) → S.decompress (S.compress x) ≡ some x
  pub length-compress : (x : S.Point) → length (S.compress x) ≡ 32
  pub length-as_bytes : (a : S.Scalar) → length (S.as_bytes a) ≡ 32
  pub from_canonical_bytes-as_bytes :
      (a : S.Scalar) → S.from_canonical_bytes (S.as_bytes a) ≡ some a
  pub length-write_u64 : (v : ℕ) → length (S.write_u64 v) ≡ 8
  pub read_u64-write_u64 : (v : ℕ) → v < u64_mod → S.read_u64 (S.write_u64 v) ≡ v
  pub verify-prove :
      (seed v : ℕ) (r : S.Scalar) {p : S.RangeProof}
      → S.prove_single seed v r 64 ≡ some p
      → S.verify_single p (S.compress (S.commit (S.scalar_from v) r)) 64 ≡ true
  pub prove_single-total :
      (seed v : ℕ) (r : S.Scalar)
      → v < u64_mod
      → (p : S.RangeProof) × (S.prove_single seed v r 64 ≡ some p)
  pub length-proof_to_bytes :
      (seed v : ℕ) (r : S.Scalar) {p : S.RangeProof}
      → S.prove_single seed v r 64 ≡ some p
      → length (S.proof_to_bytes p) ≡ 672
  pub proof_from_bytes-to_bytes :
      (p : S.RangeProof) → S.proof_from_bytes (S.proof_to_bytes p) ≡ some p
