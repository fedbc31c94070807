-- ===== src/Sleeper/Ids.antt =====
-- The ids in the lists of the sleepers.
use cynthia.Base.{
  ℕ, ◌+◌, ◌<◌, ◌≡◌, refl, Bool, if◌then◌else◌, ◌==◌, none, some, List, [], ◌∷◌, length, arith,
  Option-cases, inl, inr,
}
use cynthia.Sleeper.{occurs, ids, erase, remove_from, update_from}

pub occurs-erase :
    (id k : ℕ) (l : List ℕ)
    → 0 < occurs id l
    → occurs k (erase id l) + (if id == k then 1 else 0) ≡ occurs k l
occurs-erase id k [] h = ground arith
occurs-erase id k (x ∷ rest) h = grind (arith, occurs-erase id k rest)

pub length-erase : (id : ℕ) (l : List ℕ) → 0 < occurs id l → length (erase id l) + 1 ≡ length l
length-erase id [] h = ground arith
length-erase id (x ∷ rest) h = grind (arith, length-erase id rest)

-- What the loop of `remove` leaves of the entries.
pub record Removed (id : ℕ) (l l' : List (ℕ × ℕ)) : Type 0 where
  pub shorter : length l' + 1 ≡ length l
  pub counts : (k : ℕ) → occurs k (ids l') + (if id == k then 1 else 0) ≡ occurs k (ids l)

pub remove_from-Removed :
    (id : ℕ) (l : List (ℕ × ℕ)) {l' : List (ℕ × ℕ)} → remove_from id l ≡ some l' → Removed id l l'
unfolding remove_from
remove_from-Removed id [] e = ground arith
remove_from-Removed id (x ∷ rest) e = elim (Option-cases (remove_from id rest)) [
  | inl missing ↦ record { shorter = ground arith; counts = λ k. ground arith }
  | inr (r, found) ↦
      let v = remove_from-Removed id rest found in
      record { shorter = ground (arith, v.shorter); counts = λ k. ground (arith, v.counts k) }
]

pub remove_from-none : (id : ℕ) (l : List (ℕ × ℕ)) → remove_from id l ≡ none → occurs id (ids l) ≡ 0
unfolding remove_from
remove_from-none id [] e = refl
remove_from-none id (x ∷ rest) e = elim (Option-cases (remove_from id rest)) [
  | inl missing ↦ ground (arith, remove_from-none id rest missing)
  | inr (r, found) ↦ ground (arith, found)
]

module _ (will_wake : ℕ → ℕ → Bool) where
  -- The loop of `update` changes no id.
  pub update_from-ids :
      (id waker : ℕ) (l : List (ℕ × ℕ)) {l' : List (ℕ × ℕ)}
      → update_from will_wake id waker l ≡ some l'
      → (ids l' ≡ ids l) × (length l' ≡ length l)
  unfolding update_from
  update_from-ids id waker [] e = ground arith
  update_from-ids id waker (x ∷ rest) e =
      elim (Option-cases (update_from will_wake id waker rest)) [
        | inl missing ↦ (ground arith, ground arith)
        | inr (r, found) ↦
            let (same, len) = update_from-ids id waker rest found in
            (ground (arith, same), ground (arith, len))
      ]

  pub update_from-none :
      (id waker : ℕ) (l : List (ℕ × ℕ))
      → update_from will_wake id waker l ≡ none
      → occurs id (ids l) ≡ 0
  unfolding update_from
  update_from-none id waker [] e = refl
  update_from-none id waker (x ∷ rest) e =
      elim (Option-cases (update_from will_wake id waker rest)) [
        | inl missing ↦ ground (arith, update_from-none id waker rest missing)
        | inr (r, found) ↦ ground (arith, found)
      ]
