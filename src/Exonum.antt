-- ===== src/Exonum.antt =====
-- The Exonum framework as the service sees it. Its messages, indexes and hashes are a parameter;
-- `IsLawful` states the documented behaviour that the service relies on.
pub mod Sample
use private_currency.Crypto.Suite.{Suite}
use private_currency.Prelude.{
  ℕ, zero, suc, ◌+◌, ◌-◌, ◌≤◌, ◌<◌, ◌≡◌, ◌↔◌, ◌||◌, ◌&&◌, not, refl, Bool, true, false, Option,
  none, some, List, [], ◌∷◌, ◌++◌, length, elem, IsDistinct, is_some, if◌then◌else◌, ◌==◌, leb, ltb,
}
use private_currency.Transactions.Messages.{CryptoTransactions, CreateWallet, Transfer}
use private_currency.Transactions.Messages.{create_wallet, transfer, accept, Accept}

pub record Node (S : Suite) : Type 1 where
  -- Messages: hashes, signatures and their raw form.
  pub RawMessage : Type 0
  pub to_raw : CryptoTransactions S → RawMessage
  pub create_wallet_from_raw : RawMessage → Option CreateWallet
  pub transfer_from_raw : RawMessage → Option (Transfer S)
  pub tx_hash : CryptoTransactions S → ℕ
  pub verify_signature : CryptoTransactions S → ℕ → Bool
  -- `ProofMapIndex` and `MapIndex`, with 32-byte keys.
  pub Map : Type 0 → Type 0
  pub map_empty : {V : Type 0} → Map V
  pub map_get : {V : Type 0} → Map V → ℕ → Option V
  pub map_contains : {V : Type 0} → Map V → ℕ → Bool
  pub map_put : {V : Type 0} → Map V → ℕ → V → Map V
  pub map_remove : {V : Type 0} → Map V → ℕ → Map V
  pub map_keys : {V : Type 0} → Map V → List ℕ
  pub map_root : {V : Type 0} → Map V → ℕ
  -- `ProofListIndex`.
  pub Log : Type 0 → Type 0
  pub log_empty : {V : Type 0} → Log V
  pub log_push : {V : Type 0} → Log V → V → Log V
  pub log_items : {V : Type 0} → Log V → List V
  pub log_len : {V : Type 0} → Log V → ℕ
  pub log_root : {V : Type 0} → Log V → ℕ
  -- `KeySetIndex` of hashes.
  pub KeySet : Type 0
  pub set_empty : KeySet
  pub set_insert : KeySet → ℕ → KeySet
  pub set_remove : KeySet → ℕ → KeySet
  pub set_contains : KeySet → ℕ → Bool
  pub set_items : KeySet → List ℕ
  pub set_clear : KeySet → KeySet
  -- `SparseListIndex`.
  pub Sparse : Type 0 → Type 0
  pub sparse_empty : {V : Type 0} → Sparse V
  pub sparse_get : {V : Type 0} → Sparse V → ℕ → Option V
  pub sparse_set : {V : Type 0} → Sparse V → ℕ → V → Sparse V
  pub sparse_push : {V : Type 0} → Sparse V → V → Sparse V
  pub sparse_remove : {V : Type 0} → Sparse V → ℕ → Sparse V
  pub sparse_indices : {V : Type 0} → Sparse V → List ℕ
  pub sparse_capacity : {V : Type 0} → Sparse V → ℕ

pub record IsLawful {S : Suite} (N : Node S) : Type 1 where
  -- A raw message parses as the kind of transaction that it was made from.
  pub transfer_from_raw-to_raw :
      (t : Transfer S) → N.transfer_from_raw (N.to_raw (transfer t)) ≡ some t
  pub transfer_from_raw-create :
      (c : CreateWallet) → N.transfer_from_raw (N.to_raw (create_wallet c)) ≡ none
  pub transfer_from_raw-accept : (a : Accept) → N.transfer_from_raw (N.to_raw (accept a)) ≡ none
  pub create_wallet_from_raw-to_raw :
      (c : CreateWallet) → N.create_wallet_from_raw (N.to_raw (create_wallet c)) ≡ some c
  pub create_wallet_from_raw-transfer :
      (t : Transfer S) → N.create_wallet_from_raw (N.to_raw (transfer t)) ≡ none
  pub create_wallet_from_raw-accept :
      (a : Accept) → N.create_wallet_from_raw (N.to_raw (accept a)) ≡ none
  -- Maps.
  pub get-empty : {V : Type 0} (k : ℕ) → N.map_get (N.map_empty {V = V}) k ≡ none
  pub contains-get :
      {V : Type 0} (m : N.Map V) (k : ℕ) → N.map_contains m k ≡ is_some (N.map_get m k)
  pub get-put :
      {V : Type 0} (m : N.Map V) (k : ℕ) (v : V) (j : ℕ)
      → N.map_get (N.map_put m k v) j ≡ (if k == j then some v else N.map_get m j)
  pub get-remove :
      {V : Type 0} (m : N.Map V) (k j : ℕ)
      → N.map_get (N.map_remove m k) j ≡ (if k == j then none else N.map_get m j)
  pub elem-keys :
      {V : Type 0} (m : N.Map V) (k : ℕ) → elem k (N.map_keys m) ≡ is_some (N.map_get m k)
  pub keys-IsDistinct : {V : Type 0} (m : N.Map V) → IsDistinct (N.map_keys m)
  -- `merkle_root` of an empty map is `Hash::zero()`.
  pub root-empty : {V : Type 0} → N.map_root (N.map_empty {V = V}) ≡ 0
  -- Lists.
  pub items-empty : {V : Type 0} → N.log_items (N.log_empty {V = V}) ≡ []
  pub items-push :
      {V : Type 0} (l : N.Log V) (v : V) → N.log_items (N.log_push l v) ≡ N.log_items l ++ v ∷ []
  pub len-items : {V : Type 0} (l : N.Log V) → N.log_len l ≡ length (N.log_items l)
  -- Sets.
  pub contains-set_empty : (h : ℕ) → N.set_contains N.set_empty h ≡ false
  pub contains-insert :
      (s : N.KeySet) (h j : ℕ)
      → N.set_contains (N.set_insert s h) j ≡ (if h == j then true else N.set_contains s j)
  pub contains-remove :
      (s : N.KeySet) (h j : ℕ)
      → N.set_contains (N.set_remove s h) j ≡ (if h == j then false else N.set_contains s j)
  pub contains-clear : (s : N.KeySet) (h : ℕ) → N.set_contains (N.set_clear s) h ≡ false
  pub elem-items : (s : N.KeySet) (h : ℕ) → elem h (N.set_items s) ≡ N.set_contains s h
  pub items-IsDistinct : (s : N.KeySet) → IsDistinct (N.set_items s)
  -- Sparse lists: `push` writes at the capacity, and removing an item keeps the capacity.
  pub get-sparse_empty : {V : Type 0} (i : ℕ) → N.sparse_get (N.sparse_empty {V = V}) i ≡ none
  pub get-set :
      {V : Type 0} (l : N.Sparse V) (i : ℕ) (v : V) (j : ℕ)
      → N.sparse_get (N.sparse_set l i v) j ≡ (if i == j then some v else N.sparse_get l j)
  pub get-sparse_push :
      {V : Type 0} (l : N.Sparse V) (v : V) (j : ℕ)
      → N.sparse_get (N.sparse_push l v) j
        ≡ (if N.sparse_capacity l == j then some v else N.sparse_get l j)
  pub get-sparse_remove :
      {V : Type 0} (l : N.Sparse V) (i j : ℕ)
      → N.sparse_get (N.sparse_remove l i) j ≡ (if i == j then none else N.sparse_get l j)
  pub elem-indices :
      {V : Type 0} (l : N.Sparse V) (i : ℕ)
      → elem i (N.sparse_indices l) ≡ is_some (N.sparse_get l i)
  pub capacity-empty : {V : Type 0} → N.sparse_capacity (N.sparse_empty {V = V}) ≡ 0
  pub capacity-set :
      {V : Type 0} (l : N.Sparse V) (i : ℕ) (v : V)
      → N.sparse_capacity (N.sparse_set l i v)
        ≡ (if ltb i (N.sparse_capacity l) then N.sparse_capacity l else suc i)
  pub capacity-push :
      {V : Type 0} (l : N.Sparse V) (v : V)
      → N.sparse_capacity (N.sparse_push l v) ≡ suc (N.sparse_capacity l)
  pub capacity-remove :
      {V : Type 0} (l : N.Sparse V) (i : ℕ)
      → N.sparse_capacity (N.sparse_remove l i) ≡ N.sparse_capacity l
