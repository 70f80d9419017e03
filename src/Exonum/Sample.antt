-- ===== src/Exonum/Sample.antt =====
-- A framework over plain lists that meets the laws, for the tests and the examples. A message's
-- hash is the number in its signature, and every signature but 0 verifies.
use private_currency.Crypto.Sample.{suite}
use private_currency.Exonum.{Node, IsLawful}
use private_currency.Prelude.{
  ℕ, suc, ◌+◌, ◌≡◌, refl, not, false, Option, none, some, List, [], ◌∷◌, ◌++◌, length, elem,
  IsDistinct, is_some, if◌then◌else◌, ◌==◌, ltb, arith,
}
use private_currency.Transactions.Messages.{
  CryptoTransactions, create_wallet, transfer, accept, CreateWallet, Transfer,
}

abbrev Tx : Type 0
Tx = CryptoTransactions suite

abbrev signature_of : Tx → ℕ
signature_of (create_wallet tx) = tx.signature
signature_of (transfer tx) = tx.signature
signature_of (accept tx) = tx.signature

abbrev as_create_wallet : Tx → Option CreateWallet
as_create_wallet (create_wallet tx) = some tx
as_create_wallet _ = none

abbrev as_transfer : Tx → Option (Transfer suite)
as_transfer (transfer tx) = some tx
as_transfer _ = none

module _ {V : Type 0} where
  abbrev get : List (ℕ × V) → ℕ → Option V
  get [] k = none
  get ((j, v) ∷ m) k = if j == k then some v else get m k

  abbrev remove : List (ℕ × V) → ℕ → List (ℕ × V)
  remove [] k = []
  remove (e ∷ m) k = if e.0 == k then remove m k else e ∷ remove m k

  abbrev keys : List (ℕ × V) → List ℕ
  keys [] = []
  keys ((j, v) ∷ m) = if elem j (keys m) then keys m else j ∷ keys m

  abbrev root : List (ℕ × V) → ℕ
  root [] = 0
  root ((j, v) ∷ m) = j + 1 + root m

  get-remove :
      (m : List (ℕ × V)) (k j : ℕ) → get (remove m k) j ≡ (if k == j then none else get m j)
  get-remove [] k j = ground arith
  get-remove (e ∷ m) k j = ground (arith, get-remove m k j)

  elem-keys : (m : List (ℕ × V)) (k : ℕ) → elem k (keys m) ≡ is_some (get m k)
  elem-keys [] k = refl
  elem-keys ((j, v) ∷ m) k = ground (arith, elem-keys m k)

  keys-IsDistinct : (m : List (ℕ × V)) → IsDistinct (keys m)
  keys-IsDistinct [] = tt
  keys-IsDistinct ((j, v) ∷ m) = ground (arith, keys-IsDistinct m)

abbrev drop_hash : List ℕ → ℕ → List ℕ
drop_hash [] h = []
drop_hash (x ∷ xs) h = if x == h then drop_hash xs h else x ∷ drop_hash xs h

abbrev distinct : List ℕ → List ℕ
distinct [] = []
distinct (x ∷ xs) = if elem x (distinct xs) then distinct xs else x ∷ distinct xs

elem-drop_hash :
    (xs : List ℕ) (h j : ℕ) → elem j (drop_hash xs h) ≡ (if h == j then false else elem j xs)
elem-drop_hash [] h j = ground arith
elem-drop_hash (x ∷ xs) h j = ground (arith, elem-drop_hash xs h j)

elem-distinct : (xs : List ℕ) (h : ℕ) → elem h (distinct xs) ≡ elem h xs
elem-distinct [] h = refl
elem-distinct (x ∷ xs) h = ground (arith, elem-distinct xs h)

distinct-IsDistinct : (xs : List ℕ) → IsDistinct (distinct xs)
distinct-IsDistinct [] = tt
distinct-IsDistinct (x ∷ xs) = ground (arith, distinct-IsDistinct xs)

abbrev pub node : Node suite
node = record {
  RawMessage = Tx;
  to_raw = λ tx. tx;
  create_wallet_from_raw = as_create_wallet;
  transfer_from_raw = as_transfer;
  tx_hash = signature_of;
  verify_signature = λ tx key. not (signature_of tx == 0);
  Map = λ V. List (ℕ × V);
  map_empty = [];
  map_get = get;
  map_contains = λ m k. is_some (get m k);
  map_put = λ m k v. (k, v) ∷ remove m k;
  map_remove = remove;
  map_keys = keys;
  map_root = root;
  Log = λ V. List V;
  log_empty = [];
  log_push = λ l v. l ++ v ∷ [];
  log_items = λ l. l;
  log_len = length;
  log_root = length;
  KeySet = List ℕ;
  set_empty = [];
  set_insert = λ s h. h ∷ s;
  set_remove = drop_hash;
  set_contains = λ s h. elem h s;
  set_items = distinct;
  set_clear = λ s. [];
  Sparse = λ V. ℕ × List (ℕ × V);
  sparse_empty = (0, []);
  sparse_get = λ l i. get l.1 i;
  sparse_set = λ l i v. (if ltb i l.0 then l.0 else suc i, (i, v) ∷ remove l.1 i);
  sparse_push = λ l v. (suc l.0, (l.0, v) ∷ remove l.1 l.0);
  sparse_remove = λ l i. (l.0, remove l.1 i);
  sparse_indices = λ l. keys l.1;
  sparse_capacity = λ l. l.0;
}

pub node-IsLawful : IsLawful node
node-IsLawful = record {
  transfer_from_raw-to_raw = λ t. refl;
  transfer_from_raw-create = λ c. refl;
  transfer_from_raw-accept = λ a. refl;
  create_wallet_from_raw-to_raw = λ c. refl;
  create_wallet_from_raw-transfer = λ t. refl;
  create_wallet_from_raw-accept = λ a. refl;
  get-empty = λ k. refl;
  contains-get = λ m k. refl;
  get-put = λ m k v j. ground (arith, get-remove m k j);
  get-remove = get-remove;
  elem-keys = elem-keys;
  keys-IsDistinct = keys-IsDistinct;
  root-empty = refl;
  items-empty = refl;
  items-push = λ l v. refl;
  len-items = λ l. refl;
  contains-set_empty = λ h. refl;
  contains-insert = λ s h j. ground arith;
  contains-remove = elem-drop_hash;
  contains-clear = λ s h. refl;
  elem-items = elem-distinct;
  items-IsDistinct = distinct-IsDistinct;
  get-sparse_empty = λ i. refl;
  get-set = λ l i v j. ground (arith, get-remove l.1 i j);
  get-sparse_push = λ l v j. ground (arith, get-remove l.1 l.0 j);
  get-sparse_remove = λ l i j. get-remove l.1 i j;
  elem-indices = λ l i. elem-keys l.1 i;
  capacity-empty = refl;
  capacity-set = λ l i v. refl;
  capacity-push = λ l v. refl;
  capacity-remove = λ l i. refl;
}
