-- ===== src/Crypto/Enc.antt =====
-- Public-key encryption: src/crypto/enc.rs. The `box` routines of `sodiumoxide` and Exonum's conversion
-- of keys are a parameter; the second argument of `seal` is the nonce.
use private_currency.Prelude.{ℕ, ◌≡◌, Option, none, some, List}

pub record Box : Type 1 where
  pub SigningKey : Type 0
  pub PublicKey : Type 0
  pub SecretKey : Type 0
  pub PrecomputedKey : Type 0
  pub Nonce : Type 0
  -- `x25519::into_x25519_keypair` and `into_x25519_public_key`.
  pub into_x25519_keypair : ℕ → SigningKey → Option (List ℕ × List ℕ)
  pub into_x25519_public_key : ℕ → List ℕ
  pub public_key_from_slice : List ℕ → Option PublicKey
  pub secret_key_from_slice : List ℕ → Option SecretKey
  pub nonce_bytes : Nonce → List ℕ
  pub nonce_from_slice : List ℕ → Option Nonce
  pub seal : List ℕ → Nonce → PublicKey → SecretKey → List ℕ
  pub open_box : List ℕ → Nonce → PublicKey → SecretKey → Option (List ℕ)
  pub precompute : PublicKey → SecretKey → PrecomputedKey
  pub open_precomputed : List ℕ → Nonce → PrecomputedKey → Option (List ℕ)
  -- A pair that `gen_keypair` gives.
  pub IsKeypair : ℕ → SigningKey → Type 0

module _ (B : Box) where
  -- Both conversions panic (`none`) on what is no key.
  unfoldable pub keypair_from_ed25519 : ℕ → B.SigningKey → Option (B.PublicKey × B.SecretKey)
  keypair_from_ed25519 pk sk = elim (B.into_x25519_keypair pk sk) [
    | none ↦ none
    | some (pk', sk') ↦ elim (B.public_key_from_slice pk') [
      | none ↦ none
      | some public ↦ elim (B.secret_key_from_slice sk') [
        | none ↦ none
        | some secret ↦ some (public, secret)
      ]
    ]
  ]

  unfoldable pub pk_from_ed25519 : ℕ → Option B.PublicKey
  pk_from_ed25519 pk = B.public_key_from_slice (B.into_x25519_public_key pk)

-- What is sealed for a key pair is opened with it, by the receiver and by the sender.
pub record IsLawful (B : Box) : Type 0 where
  pub keypair_total :
      (pk : ℕ) (sk : B.SigningKey)
      → B.IsKeypair pk sk
      → (public : B.PublicKey) × (secret : B.SecretKey) × (keypair_from_ed25519 B pk sk
          ≡ some (public, secret))
        × (pk_from_ed25519 B pk ≡ some public)
  pub nonce_round : (n : B.Nonce) → B.nonce_from_slice (B.nonce_bytes n) ≡ some n
  pub open-seal :
      (a b : ℕ) (sa sb : B.SigningKey) (pa pb : B.PublicKey) (ka kb : B.SecretKey)
      (message : List ℕ) (n : B.Nonce)
      → B.IsKeypair a sa
      → B.IsKeypair b sb
      → keypair_from_ed25519 B a sa ≡ some (pa, ka)
      → keypair_from_ed25519 B b sb ≡ some (pb, kb)
      → (B.open_box (B.seal message n pb ka) n pa kb ≡ some message)
        × (B.open_precomputed (B.seal message n pb ka) n (B.precompute pb ka) ≡ some message)
