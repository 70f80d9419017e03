-- ===== src/Crypto/Sums.antt =====
-- Sums of commitments (src/crypto/proofs.rs) over lists of keys: the order of the keys has no
-- bearing, and one term is exchanged for another.
use private_currency.Crypto.Commitment
use private_currency.Crypto.Commitment.{Commitment}
use private_currency.Crypto.Laws.{add_assoc, add_comm, add-sub}
use private_currency.Crypto.Suite.{Suite, IsLawful}
use private_currency.Prelude.{
  ℕ, ◌≡◌, ◌≢◌, ◌∙◌, refl, sym, ap, inl, inr, true, false, List, [], length, zero, suc, ◌∷◌, elem,
  IsDistinct, arith, ◌==◌, ◌&&◌, not, if◌then◌else◌, ==_cases,
}

abbrev pub zero_sum : {S : Suite} → Commitment S
zero_sum {S} = record { inner = S.identity }

unfoldable pub sum : {S : Suite} → (ℕ → Commitment S) → List ℕ → Commitment S
sum f [] = zero_sum
sum f (k ∷ ks) = Commitment.add (f k) (sum f ks)

-- A commitment, added as often as a number says.
unfoldable pub times : {S : Suite} → ℕ → Commitment S → Commitment S
times zero c = zero_sum
times (suc n) c = Commitment.add c (times n c)

pub sum_const : {S : Suite} (c : Commitment S) (ks : List ℕ) → sum (λ k. c) ks ≡ times (length ks) c
unfolding sum times
sum_const c [] = refl
sum_const c (k ∷ ks) = ap (Commitment.add c) (sum_const c ks)

-- The list without a key.
unfoldable pub delete : ℕ → List ℕ → List ℕ
delete k [] = []
delete k (j ∷ js) = if j == k then js else j ∷ delete k js

elem-delete :
    (k : ℕ) (js : List ℕ)
    → IsDistinct js
    → (j : ℕ) → elem j (delete k js) ≡ (not (k == j) && elem j js)
unfolding delete
elem-delete k [] h j = ground arith
elem-delete k (i ∷ js) h j = ground (arith, elem-delete k js h.1 j)

delete-IsDistinct : (k : ℕ) (js : List ℕ) → IsDistinct js → IsDistinct (delete k js)
unfolding delete
delete-IsDistinct k [] h = tt
delete-IsDistinct k (i ∷ js) h = ground (arith, delete-IsDistinct k js h.1, elem-delete k js h.1 i)

pub no_elem : (js : List ℕ) → ((j : ℕ) → elem j js ≡ false) → js ≡ []
no_elem [] h = refl
no_elem (j ∷ js) h = absurd (ground (arith, h j))

module _ {S : Suite} (L : IsLawful S) where
  pub add_left_comm :
      (a b c : Commitment S)
      → Commitment.add a (Commitment.add b c) ≡ Commitment.add b (Commitment.add a c)
  add_left_comm a b c =
      sym (add_assoc L a b c) ∙ ap (λ x. Commitment.add x c) (add_comm L a b) ∙ add_assoc L b a c

  pub add_right_comm :
      (a b c : Commitment S)
      → Commitment.add (Commitment.add a b) c ≡ Commitment.add (Commitment.add a c) b
  add_right_comm a b c = simp (add_assoc L, add_comm L)

  pub add-zero_sum : (a : Commitment S) → Commitment.add a zero_sum ≡ a
  unfolding Commitment.add
  add-zero_sum a i = record { inner = L.add-identity a.inner i }

  pub cancel : (a b c : Commitment S) → Commitment.add a c ≡ Commitment.add b c → a ≡ b
  cancel a b c e = sym (add-sub L a c) ∙ ap (λ x. Commitment.sub x c) e ∙ add-sub L b c

  pub sum_cong :
      (f g : ℕ → Commitment S) (ks : List ℕ)
      → ((k : ℕ) → elem k ks ≡ true → f k ≡ g k)
      → sum f ks ≡ sum g ks
  unfolding sum
  sum_cong f g [] h = refl
  sum_cong f g (k ∷ ks) h =
      rw (h k (ground arith))
        (ap (Commitment.add (g k)) (sum_cong f g ks (λ j e. h j (ground (arith, e)))))

  module _ (f : ℕ → Commitment S) where
    pub sum-delete :
        (k : ℕ) (js : List ℕ)
        → elem k js ≡ true
        → sum f js ≡ Commitment.add (f k) (sum f (delete k js))
    unfolding sum delete
    sum-delete k [] e = cc
    sum-delete k (j ∷ js) e = elim (==_cases j k) [
      | inl (same, test) ↦ rw test (ap (λ i. Commitment.add (f i) (sum f js)) same)
      | inr (_, test) ↦ rw test (
          ap (Commitment.add (f j)) (sum-delete k js (ground (arith, e)))
          ∙ add_left_comm (f j) (f k) (sum f (delete k js)))
    ]

    -- Two lists of the same keys have the same sum.
    pub sum-same :
        (ks js : List ℕ)
        → IsDistinct ks
        → IsDistinct js
        → ((k : ℕ) → elem k ks ≡ elem k js)
        → sum f ks ≡ sum f js
    unfolding sum
    sum-same [] js d d' same = rw (no_elem js (λ j. sym (same j))) refl
    sum-same (k ∷ ks) js d d' same =
        ap (Commitment.add (f k)) (
          sum-same ks (delete k js) d.1 (delete-IsDistinct k js d')
            (λ j. ground (arith, same j, elem-delete k js d' j, d.0)))
        ∙ sym (sum-delete k js (sym (same k) ∙ ground arith))

  -- Where the functions agree but at one key, the sums differ by that term.
  pub sum_exchange :
      (f g : ℕ → Commitment S) (k : ℕ) (ks : List ℕ)
      → IsDistinct ks
      → elem k ks ≡ true
      → ((j : ℕ) → k ≢ j → g j ≡ f j)
      → Commitment.add (sum g ks) (f k) ≡ Commitment.add (sum f ks) (g k)
  sum_exchange f g k ks d e others =
      let rest : sum g (delete k ks) ≡ sum f (delete k ks) =
        sum_cong g f (delete k ks)
          (λ j h. others j (λ same. ground (arith, h, elem-delete k ks d j))) in
      rw (sum-delete f k ks e, sum-delete g k ks e, rest)
        (simp (add_assoc L, add_comm L, add_left_comm))
