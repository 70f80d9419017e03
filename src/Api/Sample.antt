-- ===== src/Api/Sample.antt =====
-- Merkle proofs over the sample framework that show the entries themselves, for the tests and the
-- examples.
use mathlib.Core.Option.{some-injective}
use mathlib.Core.Sum.{inr-injective}
use private_currency.Api.Merkle
use private_currency.Api.Merkle.{
  Merkle, MapBinding, ListBinding, TableBinding, indexed, find, keys_of,
}
use private_currency.Exonum.Sample.{node}
use private_currency.Prelude.{
  ℕ, ◌+◌, ◌≡◌, refl, sym, ap, ◌∙◌, subst, Bool, true, ◌&&◌, ◌||◌, false, ◌⊎◌, inl, inr, Option,
  none, some, List, [], ◌∷◌, drop, elem, is_some, arith, ◌==◌, ==_refl, ==_cases, if◌then◌else◌,
}
use private_currency.Storage.State.{State, state_hash}

absorb : (a b c : Bool) → ((a && b) || (c && b)) ≡ ((a || c) && b)
absorb true true c = refl
absorb true false true = refl
absorb true false false = refl
absorb false b c = refl

-- All entries, the present ones, and the root.
abbrev Shown : Type 0 → Type 0
Shown V = List (ℕ × Option V) × List (ℕ × V) × ℕ

module _ {V : Type 0} (m : List (ℕ × V)) where
  abbrev looked_up : List ℕ → List (ℕ × Option V)
  looked_up [] = []
  looked_up (k ∷ ks) = (k, node.map_get m k) ∷ looked_up ks

  abbrev with_entry : ℕ → Option V → List (ℕ × V) → List (ℕ × V)
  with_entry k none rest = rest
  with_entry k (some v) rest = (k, v) ∷ rest

  abbrev present : List ℕ → List (ℕ × V)
  present [] = []
  present (k ∷ ks) = with_entry k (node.map_get m k) (present ks)

  abbrev shown : List ℕ → Shown V
  shown ks = (looked_up ks, present ks, node.map_root m)

  find-looked_up :
      (ks : List ℕ) (k : ℕ) (o : Option V) → find k (looked_up ks) ≡ some o → node.map_get m k ≡ o
  find-looked_up [] k o e = absurd (cc e)
  find-looked_up (j ∷ ks) k o e = elim (==_cases j k) [
    | inl (same, test) ↦
        subst (λ i. node.map_get m i ≡ o) same
          (let e' : some (node.map_get m j) ≡ some o = ground (arith, e, test) in cc e')
    | inr (differ, test) ↦ find-looked_up ks k o (ground (arith, e, test))
  ]

  elem-with_entry :
      (k : ℕ) (o : Option V) (rest : List (ℕ × V)) (h : ℕ)
      → elem h (keys_of (with_entry k o rest)) ≡ (((k == h) && is_some o) || elem h (keys_of rest))
  elem-with_entry k none rest h = ground arith
  elem-with_entry k (some v) rest h = ground arith

  elem-present :
      (ks : List ℕ) (h : ℕ)
      → elem h (keys_of (present ks)) ≡ (elem h ks && is_some (node.map_get m h))
  elem-present [] h = refl
  elem-present (k ∷ ks) h =
      elem-with_entry k (node.map_get m k) (present ks) h
      ∙ rw (elem-present ks h) (elim (==_cases k h) [
        | inl (same, test) ↦
            subst
              (λ i.
                (((k == i) && is_some (node.map_get m k))
                  || (elem i ks && is_some (node.map_get m i)))
                ≡ (((k == i) || elem i ks) && is_some (node.map_get m i)))
              same (absorb (k == k) (is_some (node.map_get m k)) (elem k ks))
        | inr (differ, test) ↦ rw test refl
      ])

abbrev validated : {V : Type 0} → ℕ × List (ℕ × V) → ℕ → ℕ → Unit {0} ⊎ List (ℕ × V)
validated p root len = if p.0 == root then inr p.1 else inl tt

abbrev pub merkle : Merkle node
merkle = record {
  MapProof = Shown;
  CheckedMapProof = Shown;
  MapProofError = Unit {0};
  check_map = λ p. inr p;
  merkle_root = λ c. c.2;
  all_entries = λ c. c.0;
  entries = λ c. c.1;
  get_proof = λ m k. shown m (k ∷ []);
  get_multiproof = shown;
  ListProof = λ V. ℕ × List (ℕ × V);
  ListProofError = Unit {0};
  validate = validated;
  get_range_proof = λ l from to. (node.log_root l, indexed from (drop from l));
  Block = ℕ;
  block_state_hash = λ b. b;
  Precommit = ℕ;
  validator = λ p. p;
  verify_signature = λ p key. true;
  service_table_unique_key = λ id i. id + i;
  block_and_precommits = λ s h. some (node.map_root s.wallets, 0 ∷ []);
  get_proof_to_service_table =
      λ s id i. ((id + i, some (node.map_root s.wallets)) ∷ [], [], node.map_root s.wallets);
}

pub merkle-IsLawful : Merkle.IsLawful merkle
merkle-IsLawful = record {
  check-get_proof = λ m k. (shown m (k ∷ []), refl, refl, refl);
  check-get_multiproof = λ m ks. (shown m ks, refl, refl, elem-present m ks);
  validate-get_range_proof = λ l from inside. rw (==_refl (node.log_root l)) refl;
}

pub shown-MapBinding :
    {A : Type 0} (m : List (ℕ × A)) (ks : List ℕ) → MapBinding merkle (shown m ks) m
shown-MapBinding {A = A} m ks c e root =
    subst
      (λ c.
        ((k : ℕ) (o : Option A) → find k c.0 ≡ some o → node.map_get m k ≡ o)
        × ((h : ℕ) → elem h (keys_of c.1) ≡ true → is_some (node.map_get m h) ≡ true))
      (inr-injective (shown m ks) c e)
      (find-looked_up m ks, λ h listed. ground (arith, elem-present m ks h, listed))

pub table-TableBinding :
    (s : State node) (id : ℕ)
    → TableBinding merkle
        (merkle.get_proof_to_service_table s id 0)
        (node.map_root s.wallets)
        (merkle.service_table_unique_key id 0)
        s
unfolding state_hash
table-TableBinding s id c e root h at =
    let shows : find (id + 0) (merkle.get_proof_to_service_table s id 0).0 ≡ some (some h) =
      subst (λ x. find (id + 0) x.0 ≡ some (some h)) (sym (inr-injective _ c e)) at in
    let same : some (some (node.map_root s.wallets)) ≡ some (some h) = ground (arith, shows) in
    ap (λ x. x ∷ []) (some-injective _ h (some-injective _ (some h) same))
