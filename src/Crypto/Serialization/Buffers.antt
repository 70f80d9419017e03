-- ===== src/Crypto/Serialization/Buffers.antt =====
-- What is written to a buffer by src/crypto/serialization.rs is read back, and what passes its checks
-- is read without a panic.
use private_currency.Crypto.Commitment
use private_currency.Crypto.Commitment.{Commitment}
use private_currency.Crypto.RangeProof
use private_currency.Crypto.RangeProof.{SimpleRangeProof, elements_size}
use private_currency.Crypto.Serialization.{
  slice, copy_into, read, write, check, from_buffer, extend_buffer, check_bytes, check_data,
}
use private_currency.Crypto.Suite.{Suite, IsLawful}
use private_currency.Prelude.{
  ℕ, zero, suc, ◌+◌, ◌-◌, ◌%◌, ◌^◌, ◌≤◌, ◌<◌, ◌≡◌, refl, sym, ap, ◌∙◌, inl, inr, some, List, [],
  ◌∷◌, ◌++◌, length, take, drop, leb, true, ltb, le→leb, lt→ltb, ltb→lt, subst, ==_cases, ==_refl,
  length-append, length-take, length-drop, drop-append, take-append, take-all, arith, Option-cases,
  Bool-cases,
}

-- The part that was copied into a buffer.
drop-take_append :
    (from : ℕ) (buffer rest : List ℕ)
    → from ≤ length buffer
    → drop from (take from buffer ++ rest) ≡ rest
drop-take_append zero buffer rest h = refl
drop-take_append (suc from) [] rest h = elim h [ ]
drop-take_append (suc from) (b ∷ buffer) rest h = drop-take_append from buffer rest (omega arith)

take-append_length :
    (n : ℕ) (bytes rest : List ℕ) → length bytes ≡ n → take n (bytes ++ rest) ≡ bytes
take-append_length n bytes rest h =
    ap (λ k. take k (bytes ++ rest)) (sym h) ∙ take-append bytes rest

slice-copy_into :
    (buffer bytes : List ℕ) (from to : ℕ)
    → from ≤ to
    → to ≤ length buffer
    → length bytes ≡ to - from
    → (buffer' : List ℕ) × (copy_into buffer from to bytes ≡ some buffer')
      × (length buffer' ≡ length buffer)
      × (slice buffer' from to ≡ some bytes)
unfolding slice copy_into
slice-copy_into buffer bytes from to order inside size =
    let buffer' = take from buffer ++ (bytes ++ drop to buffer) in
    let len : length buffer' ≡ length buffer = omega (
      arith,
      length-append (take from buffer) (bytes ++ drop to buffer),
      length-append bytes (drop to buffer),
      length-take from buffer,
      length-drop to buffer,
      size,
    ) in
    (
      buffer',
      rw (le→leb from to order, le→leb to (length buffer) inside, size, ==_refl (to - from)) refl,
      len,
      rw
          (
            le→leb from to order,
            len,
            le→leb to (length buffer) inside,
            drop-take_append from buffer (bytes ++ drop to buffer) (omega arith),
            take-append_length (to - from) bytes (drop to buffer) size,
          )
          refl,
    )

-- The check of 32 bytes that a commitment is parsed from passes.
check-sliced :
    {S : Suite} (c : Commitment S) (buffer bytes : List ℕ) (from to latest : ℕ)
    → to ≡ from + 32
    → slice buffer from to ≡ some bytes
    → Commitment.from_slice {S = S} bytes ≡ some c
    → check S buffer from to latest ≡ some (inr latest)
unfolding check
check-sliced c buffer bytes from to latest width sliced parsed =
    let fits : (to - from) % 2 ^ 32 ≡ 32 = omega (arith, width) in
    let order : leb from to ≡ true = le→leb from to (omega (arith, width)) in
    ground (arith, order, fits, sliced, parsed)

module _ {S : Suite} (L : IsLawful S) where
  -- A commitment that is written to 32 bytes of a buffer passes the check there and is read back.
  pub read-write :
      (c : Commitment S) (buffer : List ℕ) (from to latest : ℕ)
      → to ≡ from + 32
      → to ≤ length buffer
      → (buffer' : List ℕ) × (write c buffer from to ≡ some buffer')
        × (length buffer' ≡ length buffer)
        × (check S buffer' from to latest ≡ some (inr latest))
        × (read buffer' from to ≡ some c)
  unfolding write check read Commitment.to_bytes Commitment.from_slice
  read-write c buffer from to latest width inside =
      let (buffer', written, len, sliced) =
        slice-copy_into buffer (S.compress c.inner) from to (omega arith) inside
          (omega (arith, L.length-compress c.inner, width)) in
      (
        buffer',
        written,
        len,
        check-sliced c buffer' (S.compress c.inner) from to latest width sliced
            (rw (L.length-compress c.inner, L.decompress-compress c.inner) refl),
        rw (read, sliced, L.length-compress c.inner, L.decompress-compress c.inner) refl,
      )

  -- A range proof of 672 bytes that is appended to a buffer, which stays below 2^32 bytes, passes
  -- the check there and is read back.
  pub from_buffer-extend_buffer :
      (p : SimpleRangeProof S) (buffer : List ℕ) (latest : ℕ)
      → length (RangeProof.to_bytes p) ≡ 672
      → length buffer + 672 < 2 ^ 32
      → (check_data S (extend_buffer p buffer) (length buffer) elements_size latest
          ≡ some (inr latest))
        × (from_buffer (extend_buffer p buffer) (length buffer) elements_size ≡ some p)
  unfolding extend_buffer RangeProof.to_bytes RangeProof.from_slice slice check_data from_buffer
      check_bytes
  from_buffer-extend_buffer p buffer latest size room =
      let bytes = S.proof_to_bytes p.inner in
      let to : (length buffer + 672) % 2 ^ 32 ≡ length buffer + 672 = omega arith in
      let whole : length (buffer ++ bytes) ≡ length buffer + 672 =
        omega (arith, length-append buffer bytes, size) in
      let sliced : slice (buffer ++ bytes) (length buffer) (length buffer + 672) ≡ some bytes =
        rw
          (
            slice,
            whole,
            le→leb (length buffer) (length buffer + 672) (omega arith),
            le→leb (length buffer + 672) (length buffer + 672) (omega arith),
            drop-append buffer bytes,
            take-all (length buffer + 672 - length buffer) bytes (omega (arith, size)),
          )
          refl in
      let parsed : RangeProof.from_slice bytes ≡ some p =
        rw (RangeProof.from_slice, L.proof_from_bytes-to_bytes p.inner) refl in
      (
        rw
            (
              check_data,
              lt→ltb (length buffer + 672) (2 ^ 32) room,
              sliced,
              check_bytes,
              size,
              parsed,
            )
            refl,
        rw (from_buffer, to, sliced, parsed) refl,
      )

module _ {S : Suite} where
  -- Where the check of a buffer for a commitment passes, reading a commitment there does not
  -- panic.
  pub check-read :
      (buffer : List ℕ) (from to latest segment : ℕ)
      → check S buffer from to latest ≡ some (inr segment)
      → (segment ≡ latest) × (c : Commitment S) × (read buffer from to ≡ some c)
  unfolding check read
  check-read buffer from to latest segment passes = elim (Option-cases (slice buffer from to)) [
    | inl bad ↦ absurd (ground (arith, passes, bad))
    | inr (bytes, sliced) ↦ elim (Option-cases (Commitment.from_slice {S = S} bytes)) [
      | inl bad ↦ absurd (ground (arith, passes, sliced, bad))
      | inr (c, parsed) ↦
          (ground (arith, passes, sliced, parsed), c, ground (arith, sliced, parsed))
    ]
  ]

  -- With the right count, the checked offset is the one that is read up to.
  check_data-counted :
      (buffer : List ℕ) (from latest segment : ℕ)
      → check_data S buffer from elements_size latest ≡ some (inr segment)
      → (segment ≡ latest)
        × (p : SimpleRangeProof S) × (from_buffer buffer from elements_size ≡ some p)
  unfolding check_data check_bytes from_buffer
  check_data-counted buffer from latest segment passes =
      elim (Bool-cases (ltb (from + 672) (2 ^ 32))) [
        | inr far ↦ absurd (ground (arith, passes, far))
        | inl near ↦ elim (Option-cases (slice buffer from (from + 672))) [
          | inl bad ↦ absurd (ground (arith, passes, near, bad))
          | inr (bytes, sliced) ↦ elim (Option-cases (RangeProof.from_slice {S = S} bytes)) [
            | inl bad ↦ absurd (ground (arith, passes, near, sliced, bad))
            | inr (p, parsed) ↦
                let to : (from + 672) % 2 ^ 32 ≡ from + 672 =
                  omega (arith, ltb→lt (from + 672) (2 ^ 32) near) in
                (
                  ground (arith, passes, near, sliced, parsed),
                  p,
                  rw (from_buffer, to, sliced, parsed) refl,
                )
          ]
        ]
      ]

  -- Where the check of a buffer for a range proof passes, reading a proof there does not panic.
  pub check_data-from_buffer :
      (buffer : List ℕ) (from count latest segment : ℕ)
      → check_data S buffer from count latest ≡ some (inr segment)
      → (segment ≡ latest) × (p : SimpleRangeProof S) × (from_buffer buffer from count ≡ some p)
  unfolding check_data
  check_data-from_buffer buffer from count latest segment passes =
      elim (==_cases count elements_size) [
        | inl (same, _) ↦
            subst
              (λ n.
                check_data S buffer from n latest ≡ some (inr segment)
                → (segment ≡ latest)
                  × (p : SimpleRangeProof S) × (from_buffer buffer from n ≡ some p))
              (sym same) (check_data-counted buffer from latest segment) passes
        | inr (differ, test) ↦ absurd (ground (arith, passes, test))
      ]
