-- ===== src/Client/Peers.antt =====
-- The peers of the example client: `ClientEnv::random_peer` of examples/clients/client.rs.
use private_currency.Client.Env.{add, first_other, random_peer}
use private_currency.Prelude.{
  ℕ, ◌<◌, ◌≤◌, ◌≡◌, ◌≢◌, refl, ◌⊎◌, inl, inr, true, none, some, List, [], ◌∷◌, length, elem,
  IsDistinct, leb, arith, ==_cases, ==_refl, Bool-cases,
}

pub add-IsDistinct : (key : ℕ) (keys : List ℕ) → IsDistinct keys → IsDistinct (add key keys)
unfolding add
add-IsDistinct key keys distinct = ground (arith, distinct)

-- The loop ends at the first sample that differs.
first_other-found :
    (key other : ℕ) (samples : List ℕ)
    → elem other samples ≡ true
    → other ≢ key
    → (peer : ℕ) × (first_other key samples ≡ some peer) × (peer ≢ key) × (elem peer samples ≡ true)
unfolding first_other
first_other-found key other [] drawn differs = absurd (cc drawn)
first_other-found key other (x ∷ xs) drawn differs = elim (==_cases x key) [
  | inl (same, test) ↦
      let drawn' : elem other xs ≡ true = ground (arith, drawn, same, differs) in
      let (peer, found, apart, member) = first_other-found key other xs drawn' differs in
      (peer, rw (test, found) refl, apart, ground (arith, member))
  | inr (apart, test) ↦ (x, rw test refl, apart, rw (==_refl x) refl)
]

-- Of two different keys one is another than a given one.
another :
    (key : ℕ) (keys : List ℕ)
    → IsDistinct keys
    → 1 < length keys
    → (other : ℕ) × (elem other keys ≡ true) × (other ≢ key)
another key [] distinct many = absurd (omega (arith, many))
another key (x ∷ []) distinct many = absurd (omega (arith, many))
another key (x ∷ y ∷ rest) distinct many = elim (==_cases x key) [
  | inl (same, test) ↦ (y, ground (arith, ==_refl y), λ e. ground (arith, distinct.0, same, e))
  | inr (apart, test) ↦ (x, rw (==_refl x) refl, apart)
]

-- Where every known key is drawn at some time, the choice of a peer ends: without a peer if at
-- most one key is known, and else with a drawn one that differs from the own key.
pub random_peer-cases :
    (keys : List ℕ) (key : ℕ) (samples : List ℕ)
    → IsDistinct keys
    → ((k : ℕ) → elem k keys ≡ true → elem k samples ≡ true)
    → ((length keys ≤ 1) × (random_peer keys key samples ≡ some none))
      ⊎ ((peer : ℕ) × (random_peer keys key samples ≡ some (some peer))
          × (peer ≢ key)
          × (elem peer samples ≡ true))
unfolding random_peer
random_peer-cases keys key samples distinct drawn = elim (Bool-cases (leb (length keys) 1)) [
  | inl few ↦ inl (ground (arith, few), rw few refl)
  | inr many ↦
      let (other, member, differs) = another key keys distinct (ground (arith, many)) in
      let (peer, found, apart, sampled) =
        first_other-found key other samples (drawn other member) differs in
      inr (peer, rw (many, found) refl, apart, sampled)
]

first_other-apart :
    (key peer : ℕ) (samples : List ℕ) → first_other key samples ≡ some peer → peer ≢ key
unfolding first_other
first_other-apart key peer [] e = absurd (cc e)
first_other-apart key peer (x ∷ xs) e = ground (arith, e, first_other-apart key peer xs)

-- A peer that is chosen is another client.
pub random_peer-apart :
    (keys : List ℕ) (key : ℕ) (samples : List ℕ) (peer : ℕ)
    → random_peer keys key samples ≡ some (some peer)
    → peer ≢ key
unfolding random_peer
random_peer-apart keys key samples peer e = ground (arith, e, first_other-apart key peer samples)

first_other-drawn :
    (key peer : ℕ) (samples : List ℕ)
    → first_other key samples ≡ some peer
    → elem peer samples ≡ true
unfolding first_other
first_other-drawn key peer [] e = absurd (cc e)
first_other-drawn key peer (x ∷ xs) e = elim (==_cases x key) [
  | inl (same, test) ↦ ground (arith, e, test, first_other-drawn key peer xs)
  | inr (apart, test) ↦ ground (arith, e, test, ==_refl x)
]

-- A peer that is chosen was drawn.
pub random_peer-drawn :
    (keys : List ℕ) (key : ℕ) (samples : List ℕ) (peer : ℕ)
    → random_peer keys key samples ≡ some (some peer)
    → elem peer samples ≡ true
unfolding random_peer
random_peer-drawn keys key samples peer e = ground (arith, e, first_other-drawn key peer samples)
