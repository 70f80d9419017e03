-- ===== src/Crypto/EncSample.antt =====
-- Boxes that meet the laws, for the tests and the examples: a key pair is a number twice, and a sealed
-- message carries the sum of the two keys.
use private_currency.Crypto.Enc.{Box, IsLawful, keypair_from_ed25519, pk_from_ed25519}
use private_currency.Prelude.{
  ℕ, ◌+◌, ◌≡◌, refl, Option, none, some, List, [], ◌∷◌, ◌==◌, if◌then◌else◌, arith,
}

abbrev head : List ℕ → Option ℕ
head [] = none
head (x ∷ xs) = some x

abbrev open_with : List ℕ → ℕ → ℕ → Option (List ℕ)
open_with [] nonce key = none
open_with (x ∷ message) nonce key = if x == key + nonce then some message else none

abbrev pub box : Box
box = record {
  SigningKey = ℕ;
  PublicKey = ℕ;
  SecretKey = ℕ;
  PrecomputedKey = ℕ;
  Nonce = ℕ;
  into_x25519_keypair = λ pk sk. some (pk ∷ [], sk ∷ []);
  into_x25519_public_key = λ pk. pk ∷ [];
  public_key_from_slice = head;
  secret_key_from_slice = head;
  nonce_bytes = λ n. n ∷ [];
  nonce_from_slice = head;
  seal = λ message nonce pk sk. (pk + sk + nonce) ∷ message;
  open_box = λ sealed nonce pk sk. open_with sealed nonce (pk + sk);
  precompute = λ pk sk. pk + sk;
  open_precomputed = open_with;
  IsKeypair = λ pk sk. pk ≡ sk;
}

pub box-IsLawful : IsLawful box
unfolding keypair_from_ed25519 pk_from_ed25519
box-IsLawful = record {
  keypair_total = λ pk sk e. (pk, sk, refl, refl);
  nonce_round = λ n. refl;
  open-seal = λ a b sa sb pa pb ka kb message n ea eb da db. ground arith;
}
