-- ===== src/Colo/Loops.antt =====
-- `retain` and the iterators of a slab.
use cynthia.Base.{
  ℕ, zero, suc, ◌+◌, ◌<◌, ◌≡◌, refl, ◌∙◌, Bool, ◌&&◌, Option, none, some, List, [], ◌∷◌, arith,
  length, get_elem?, ◌==◌, ltb, leb, if◌then◌else◌, tally, inl, inr, Bool-cases, ℕ_discrete, dec_lt,
  ==_iff, get_elem?-none,
}
use cynthia.Colo.{
  Colo, Slot, vacant, occupied, object, get, retain_round, retain_from, retain, iter_from, iter,
}
use cynthia.Colo.Free.{occupied_weight}
use cynthia.Colo.Inv.{Inv, remove-Inv, object_cases}
use cynthia.Colo.Laws.{remove_lem}

module _ {ℓ} {A : Type ℓ} where
  abbrev pub keep : (ℕ → A → Bool) → ℕ → Option A → Option A
  keep f j none = none
  keep f j (some a) = if f j a then some a else none

  module _ (f : ℕ → A → Bool) where
    retain_round-Inv : (i : ℕ) {c : Colo A} → Inv c → Inv (retain_round f i c)
    unfolding retain_round
    retain_round-Inv i {c} v = elim (object_cases (get_elem? c.slots i)) [
      | inl e ↦ rw (e, retain_round) v
      | inr (a, e) ↦
          rw (e, retain_round)
            (elim (Bool-cases (f i a)) [
              | inl kept ↦ rw kept v
              | inr dropped ↦ rw dropped (remove-Inv i v)
            ])
    ]

    round-reads :
        (i j : ℕ) {c : Colo A}
        → Inv c
        → get (retain_round f i c) j ≡ (if j == i then keep f j (get c j) else get c j)
    unfolding get retain_round
    round-reads i j {c} v = elim (object_cases (get_elem? c.slots i)) [
      | inl e ↦ rw (e, retain_round) (ground (arith, e))
      | inr (a, e) ↦
          rw (e, retain_round)
            (elim (Bool-cases (f i a)) [
              | inl kept ↦ rw kept (elim (ℕ_discrete j i) [
                | yes same ↦ rw (same, e, kept, (==_iff i i).1 refl)
                | no ne ↦ ground arith
              ])
              | inr dropped ↦ rw dropped (elim (ℕ_discrete j i) [
                | yes same ↦ ground (arith, e, same, (remove_lem i v).1 j)
                | no ne ↦ ground (arith, (remove_lem i v).1 j)
              ])
            ])
    ]

    retain_from-reads :
        (rounds i j : ℕ) {c : Colo A}
        → Inv c
        → get (retain_from f rounds i c) j
          ≡ (if leb i j && ltb j (i + rounds) then keep f j (get c j) else get c j)
    unfolding retain_from
    retain_from-reads zero i j v = ground arith
    retain_from-reads (suc rounds) i j {c} v =
        ground (arith, retain_from-reads rounds (i + 1) j (retain_round-Inv i v), round-reads i j v)

    retain_from-Inv : (rounds i : ℕ) {c : Colo A} → Inv c → Inv (retain_from f rounds i c)
    unfolding retain_from
    retain_from-Inv zero i v = v
    retain_from-Inv (suc rounds) i v = retain_from-Inv rounds (i + 1) (retain_round-Inv i v)

    -- `retain` keeps the invariant, and leaves at each index just the object that was there and
    -- that the predicate accepts.
    pub retain_lem :
        {c : Colo A}
        → Inv c
        → Inv (retain f c) × ((j : ℕ) → get (retain f c) j ≡ keep f j (get c j))
    unfolding retain get
    retain_lem {c} v = (
      retain_from-Inv (length c.slots) 0 v,
      λ j. elim (dec_lt j (length c.slots)) [
        | yes lt ↦ ground (arith, retain_from-reads (length c.slots) 0 j v)
        | no ge ↦ ground (
          arith,
          retain_from-reads (length c.slots) 0 j v,
          get_elem?-none c.slots j (omega arith),
        )
      ],
    )

  -- The object that an iterator gives with an index.
  abbrev pub found_at : ℕ → List (ℕ × A) → Option A
  found_at j [] = none
  found_at j ((i, a) ∷ rest) = if i == j then some a else found_at j rest

  iter_from-above :
      (k i : ℕ) (slots : List (Slot A)) → k < i → found_at k (iter_from i slots) ≡ none
  unfolding iter_from
  iter_from-above k i [] h = refl
  iter_from-above k i (vacant n ∷ slots) h = iter_from-above k (i + 1) slots (omega arith)
  iter_from-above k i (occupied a ∷ slots) h = ground (arith, iter_from-above k (i + 1) slots)

  iter_from-found :
      (i j : ℕ) (slots : List (Slot A))
      → found_at (i + j) (iter_from i slots) ≡ object (get_elem? slots j)
  unfolding iter_from
  iter_from-found i j [] = refl
  iter_from-found i zero (vacant n ∷ slots) = iter_from-above (i + 0) (i + 1) slots (omega arith)
  iter_from-found i zero (occupied a ∷ slots) = ground arith
  iter_from-found i (suc j) (vacant n ∷ slots) = ground (arith, iter_from-found (i + 1) j slots)
  iter_from-found i (suc j) (occupied a ∷ slots) = ground (arith, iter_from-found (i + 1) j slots)

  iter_from-length :
      (i : ℕ) (slots : List (Slot A)) → length (iter_from i slots) ≡ tally occupied_weight slots
  unfolding iter_from
  iter_from-length i [] = refl
  iter_from-length i (vacant n ∷ slots) = omega (arith, iter_from-length (i + 1) slots)
  iter_from-length i (occupied a ∷ slots) = omega (arith, iter_from-length (i + 1) slots)

  -- The iterator of a valid slab gives each index the object that `get` finds there, and as many
  -- pairs as `len` says.
  pub iter_lem :
      {c : Colo A} → Inv c → ((j : ℕ) → found_at j (iter c) ≡ get c j) × (length (iter c) ≡ c.len)
  unfolding iter get
  iter_lem {c} v =
      ((λ j. ground (arith, iter_from-found 0 j c.slots)), iter_from-length 0 c.slots ∙ v.occupancy)
