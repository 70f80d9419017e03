-- ===== src/Crypto/Laws.antt =====
-- What the rest of the service relies on in src/crypto/proofs.rs: commitments are an abelian group,
-- openings follow their commitments, encodings round trip, honest proofs verify.
use private_currency.Crypto.Commitment
use private_currency.Crypto.Commitment.{Commitment}
use private_currency.Crypto.Opening
use private_currency.Crypto.Opening.{Opening}
use private_currency.Crypto.Suite.{Suite, IsLawful}
use private_currency.Prelude.{
  ◌<◌, ◌≡◌, refl, true, some, arith, length-append, take-append, drop-append, u64_mod,
}

module _ {S : Suite} (L : IsLawful S) where
  pub add_assoc :
      (a b c : Commitment S)
      → Commitment.add (Commitment.add a b) c ≡ Commitment.add a (Commitment.add b c)
  unfolding Commitment.add
  add_assoc a b c i = record { inner = L.add_assoc a.inner b.inner c.inner i }

  pub add_comm : (a b : Commitment S) → Commitment.add a b ≡ Commitment.add b a
  unfolding Commitment.add
  add_comm a b i = record { inner = L.add_comm a.inner b.inner i }

  pub add-sub : (a b : Commitment S) → Commitment.sub (Commitment.add a b) b ≡ a
  unfolding Commitment.add Commitment.sub
  add-sub a b i = record { inner = L.add-sub a.inner b.inner i }

  pub sub-add : (a b : Commitment S) → Commitment.add (Commitment.sub a b) b ≡ a
  unfolding Commitment.add Commitment.sub
  sub-add a b i = record { inner = L.sub-add a.inner b.inner i }

  pub eq_iff_true : (a b : Commitment S) → Commitment.eq a b ≡ true → a ≡ b
  unfolding Commitment.eq
  eq_iff_true a b h i = record { inner = (L.point_eq_iff a.inner b.inner).0 h i }

  pub eq_refl : (a : Commitment S) → Commitment.eq a a ≡ true
  unfolding Commitment.eq
  eq_refl a = (L.point_eq_iff a.inner a.inner).1 refl

  pub verify-from_opening : (o : Opening S) → Commitment.verify (Commitment.from_opening o) o ≡ true
  unfolding Commitment.verify
  verify-from_opening o = eq_refl (Commitment.from_opening o)

  pub verify_sound :
      (c : Commitment S) (o : Opening S)
      → Commitment.verify c o ≡ true
      → c ≡ Commitment.from_opening o
  unfolding Commitment.verify
  verify_sound c o h = eq_iff_true c (Commitment.from_opening o) h

  -- Where the sum of two openings does not overflow, it opens the sum of their commitments.
  pub from_opening-add :
      (a b c : Opening S)
      → Opening.add a b ≡ some c
      → Commitment.from_opening c
        ≡ Commitment.add (Commitment.from_opening a) (Commitment.from_opening b)
  unfolding Commitment.from_opening Commitment.add Opening.add
  from_opening-add a b c e = ground (
    arith,
    L.scalar_from-add a.value b.value,
    L.commit-add (S.scalar_from a.value) (S.scalar_from b.value) a.blinding b.blinding,
  )

  -- Where the difference of two openings does not underflow, it opens the difference of their
  -- commitments.
  pub from_opening-sub :
      (a b c : Opening S)
      → Opening.sub a b ≡ some c
      → Commitment.from_opening c
        ≡ Commitment.sub (Commitment.from_opening a) (Commitment.from_opening b)
  unfolding Commitment.from_opening Commitment.sub Opening.sub
  from_opening-sub a b c e = ground (
    arith,
    L.scalar_from-add c.value b.value,
    L.scalar_add-sub a.blinding b.blinding,
    L.commit-add (S.scalar_from c.value) (S.scalar_from b.value) c.blinding b.blinding,
    L.add-sub (S.commit (S.scalar_from c.value) c.blinding)
        (S.commit (S.scalar_from b.value) b.blinding),
  )

  -- An opening whose value fits in 64 bits is read back from its bytes.
  pub from_slice-to_bytes :
      (o : Opening S) → o.value < u64_mod → Opening.from_slice (Opening.to_bytes o) ≡ some o
  unfolding Opening.from_slice Opening.to_bytes
  from_slice-to_bytes o h =
      let v = S.write_u64 o.value in
      let b = S.as_bytes o.blinding in
      rw (length-append v b, L.length-write_u64, L.length-as_bytes)
        (rw
          (← L.length-write_u64 o.value, take-append, drop-append, L.from_canonical_bytes-as_bytes)
          rw (L.read_u64-write_u64 o.value h))
