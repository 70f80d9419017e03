-- ===== src/Secrets/Create.antt =====
-- Transfers that `Transfer::create` of src/secrets.rs makes pass the checks of src/transactions.rs.

use private_currency.Crypto.Commitment
use private_currency.Crypto.Commitment.{Commitment}
use private_currency.Crypto.Enc
use private_currency.Crypto.Enc.{Box, pk_from_ed25519, keypair_from_ed25519}
use private_currency.Crypto.Laws.{from_opening-sub, from_slice-to_bytes}
use private_currency.Crypto.Opening
use private_currency.Crypto.Opening.{Opening}
use private_currency.Crypto.RangeProof
use private_currency.Crypto.RangeProof.{SimpleRangeProof}
use private_currency.Crypto.Suite.{Suite, IsLawful}
use private_currency.Prelude.{
  ℕ, ◌-◌, ◌≤◌, ◌<◌, ◌≡◌, ◌∙◌, refl, ap, subst, true, some, le→leb, arith, u64_mod,
}
use private_currency.Secrets.{
  SecretState, min_transfer_opening, seal, own_opening, received_opening, open_data, open_as_sender,
}
use private_currency.Secrets.Sign.{may_create, create, signed_transfer}
use private_currency.Transactions.Execute.{verify_stateless, verify_stateful}
use private_currency.Transactions.Messages.{Transfer, CryptoTransactions}

module _ {S : Suite} (L : IsLawful S) where
  -- The prover succeeds on every value of 64 bits, and its proof verifies for the commitment.
  pub prove-verify :
      (seed : ℕ) (o : Opening S)
      → o.value < u64_mod
      → (p : SimpleRangeProof S) × (RangeProof.prove seed o ≡ some p)
        × (RangeProof.verify p (Commitment.from_opening o) ≡ true)
  unfolding RangeProof.prove RangeProof.verify Commitment.from_opening
  prove-verify seed o fits =
      let (p, made) = L.prove_single-total seed o.value o.blinding fits in
      (RangeProof.of_inner p, rw made refl, L.verify-prove seed o.value o.blinding made)

  sub-fits :
      (a b : Opening S)
      → b.value ≤ a.value
      → (c : Opening S) × (Opening.sub a b ≡ some c) × (c.value ≤ a.value)
  unfolding Opening.sub
  sub-fits a b le = (
    Opening.new (a.value - b.value) (S.scalar_sub a.blinding b.blinding),
    rw (le→leb b.value a.value le) refl,
    omega arith,
  )

module _ {S : Suite} {B : Box} (L : IsLawful S) (sign : B.SigningKey → CryptoTransactions S → ℕ)
    (amount receiver rollback_delay : ℕ) (s : SecretState S B) (blinding : S.Scalar)
    (seed1 seed2 : ℕ) (nonce : B.Nonce) where
  -- The transfer that is created, field by field.
  pub created_transfer :
      (pk : B.PublicKey)
      → pk_from_ed25519 B receiver ≡ some pk
      → may_create sign amount receiver rollback_delay s ≡ true
      → s.balance_opening.value < u64_mod
      → (t : Transfer S) × (create sign amount receiver rollback_delay s blinding seed1 seed2 nonce
          ≡ some (some t))
        × (verify_stateless t ≡ true)
        × (verify_stateful t (Commitment.from_opening s.balance_opening) ≡ true)
        × ((p1 : SimpleRangeProof S) × (p2 : SimpleRangeProof S) × (t
              ≡ signed_transfer sign s receiver rollback_delay
                  (Commitment.from_opening (Opening.new {S = S} amount blinding))
                  p1
                  p2
                  (seal B
                    (Opening.to_bytes (Opening.new {S = S} amount blinding))
                    nonce
                    pk
                    s.encryption_sk)))
  unfolding create may_create verify_stateless verify_stateful Commitment.new
  created_transfer pk converted allowed fits =
      let opening : Opening S = Opening.new amount blinding in
      let min : 1 ≤ amount = ground arith in
      let enough : amount ≤ s.balance_opening.value = ground arith in
      let (above, sub1, small1) = sub-fits L opening min_transfer_opening min in
      let (left, sub2, small2) = sub-fits L s.balance_opening opening enough in
      let (p1, made1, ok1) = prove-verify L seed1 above (omega (arith, small1)) in
      let (p2, made2, ok2) = prove-verify L seed2 left (omega (arith, small2)) in
      let checked1 =
        subst (λ c. RangeProof.verify p1 c ≡ true)
          (from_opening-sub L opening min_transfer_opening above sub1) ok1 in
      let checked2 =
        subst (λ c. RangeProof.verify p2 c ≡ true)
          (from_opening-sub L s.balance_opening opening left sub2) ok2 in
      let sealed = seal B (Opening.to_bytes opening) nonce pk s.encryption_sk in
      (
        signed_transfer sign s receiver rollback_delay (Commitment.from_opening opening) p1 p2
            sealed,
        rw (allowed, sub1, made1, sub2, made2, converted) refl,
        checked1,
        checked2,
        (p1, p2, refl),
      )

  -- Where the assertions of the creation hold, the receiver is a valid key and the balance fits in
  -- 64 bits, a transfer is created that passes the check of its amount and, against the commitment
  -- to the balance of its creator, the check of that balance.
  pub create-verifies :
      (pk : B.PublicKey)
      → pk_from_ed25519 B receiver ≡ some pk
      → may_create sign amount receiver rollback_delay s ≡ true
      → s.balance_opening.value < u64_mod
      → (t : Transfer S) × (create sign amount receiver rollback_delay s blinding seed1 seed2 nonce
          ≡ some (some t))
        × (verify_stateless t ≡ true)
        × (verify_stateful t (Commitment.from_opening s.balance_opening) ≡ true)
  create-verifies pk converted allowed fits =
      let (t, made, ok1, ok2, _) = created_transfer pk converted allowed fits in (t, made, ok1, ok2)

-- The keys of a state belong together.
pub record HasKeys {S : Suite} {B : Box} (s : SecretState S B) : Type 0 where
  pub public : B.PublicKey
  pub is_keypair : B.IsKeypair s.verifying_key s.signing_key
  pub derived :
      keypair_from_ed25519 B s.verifying_key s.signing_key ≡ some (public, s.encryption_sk)
  pub converted : pk_from_ed25519 B s.verifying_key ≡ some public

-- What both sides read from the sealed opening.
own-sealed :
    {S : Suite} {B : Box} (E : Enc.IsLawful B) (s : SecretState S B) (pk : B.PublicKey)
    (o : Opening S) (nonce : B.Nonce) (t : Transfer S)
    → t.encrypted_data ≡ seal B (Opening.to_bytes o) nonce pk s.encryption_sk
    → pk_from_ed25519 B t.to ≡ some pk
    → B.open_precomputed
        (B.seal (Opening.to_bytes o) nonce pk s.encryption_sk)
        nonce
        (B.precompute pk s.encryption_sk)
      ≡ some (Opening.to_bytes o)
    → Opening.from_slice (Opening.to_bytes o) ≡ some o
    → own_opening s t ≡ some o
unfolding own_opening seal open_as_sender
own-sealed E s pk o nonce t sealed converted opened read =
    rw (own_opening, converted, open_as_sender, sealed, E.nonce_round nonce, sealed, opened) read

received-sealed :
    {S : Suite} {B : Box} (E : Enc.IsLawful B) (s r : SecretState S B) (pk from : B.PublicKey)
    (o : Opening S) (nonce : B.Nonce) (t : Transfer S)
    → t.encrypted_data ≡ seal B (Opening.to_bytes o) nonce pk s.encryption_sk
    → pk_from_ed25519 B t.from ≡ some from
    → B.open_box (B.seal (Opening.to_bytes o) nonce pk s.encryption_sk) nonce from r.encryption_sk
      ≡ some (Opening.to_bytes o)
    → Opening.from_slice (Opening.to_bytes o) ≡ some o
    → received_opening r t ≡ some o
unfolding received_opening seal open_data
received-sealed E s r pk from o nonce t sealed converted opened read =
    rw (received_opening, converted, open_data, sealed, E.nonce_round nonce, sealed, opened) read

module _ {S : Suite} {B : Box} (L : IsLawful S) (E : Enc.IsLawful B)
    (sign : B.SigningKey → CryptoTransactions S → ℕ) (amount rollback_delay : ℕ)
    (s r : SecretState S B) (blinding : S.Scalar) (seed1 seed2 : ℕ) (nonce : B.Nonce) where
  -- Where the assertions of the creation hold, both owners have the keys of a pair and the balance
  -- fits in 64 bits, a transfer is created from which its sender and its receiver decrypt the same
  -- opening, which has the amount as its value and opens the committed amount.
  pub create-opens :
      HasKeys s
      → HasKeys r
      → may_create sign amount r.verifying_key rollback_delay s ≡ true
      → s.balance_opening.value < u64_mod
      → (t : Transfer S) × (o : Opening S) × (create sign amount r.verifying_key rollback_delay s
            blinding seed1 seed2 nonce
          ≡ some (some t))
        × (o.value ≡ amount)
        × (t.amount ≡ Commitment.from_opening o)
        × (own_opening s t ≡ some o)
        × (received_opening r t ≡ some o)
  unfolding may_create
  create-opens ks kr allowed fits =
      let o : Opening S = Opening.new amount blinding in
      let (t, made, _, _, (p1, p2, same)) =
        created_transfer L sign amount r.verifying_key rollback_delay s blinding seed1 seed2 nonce
          kr.public kr.converted allowed fits in
      let (received, own) =
        E.open-seal s.verifying_key r.verifying_key s.signing_key r.signing_key ks.public kr.public
          s.encryption_sk r.encryption_sk (Opening.to_bytes o) nonce ks.is_keypair kr.is_keypair
          ks.derived kr.derived in
      let enough : amount ≤ s.balance_opening.value = ground arith in
      let bytes = from_slice-to_bytes L o (omega (arith, enough)) in
      (
        t,
        o,
        made,
        refl,
        ap (λ (x : Transfer S). x.amount) same,
        own-sealed E s kr.public o nonce t (ap (λ (x : Transfer S). x.encrypted_data) same)
            (ap (λ (x : Transfer S). pk_from_ed25519 B x.to) same ∙ kr.converted) own bytes,
        received-sealed E s r kr.public ks.public o nonce t
            (ap (λ (x : Transfer S). x.encrypted_data) same)
            (ap (λ (x : Transfer S). pk_from_ed25519 B x.from) same ∙ ks.converted) received bytes,
      )
