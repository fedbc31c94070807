-- ===== src/Rander/Shuffle.antt =====
-- cynthia/src/utils/rander.rs: `shuffle`.
use cynthia.Base.{
  ℕ, zero, suc, ◌+◌, ◌-◌, ◌^◌, ◌≤◌, ◌<◌, ◌≡◌, ◌≢◌, ◌∙◌, ◌==◌, ==_iff, Bool-cases, inl, inr, refl,
  sym, ap, some_eq, false, Option, none, some, List, [], ◌∷◌, length, length-set, get_elem?, set,
  get_elem?-set_self, get_elem?-set_ne, tally, tally-set, arith,
}
use native.Mathlib.Nat.{mod-lt}
use cynthia.Rander.{gen_u32, gen_u64, included, unbounded, rand_integer}
use cynthia.Rander.Empty.{rand_integer-panics, rand_integer-in_range}

gen_u32-lt : (s : ℕ) → (gen_u32 s).0 < 2 ^ 32
unfolding gen_u32
gen_u32-lt s = mod-lt _ (omega arith)

gen_u64-lt : (s : ℕ) → (gen_u64 s).0 < 2 ^ 64
unfolding gen_u64
gen_u64-lt s = omega (arith, gen_u32-lt s, gen_u32-lt (gen_u32 s).1)

-- `self.usize(..=i)`
abbrev pub index : ℕ → ℕ → ℕ → Option (Option (ℕ × ℕ))
index fuel i s = rand_integer 64 false gen_u64 64 fuel unbounded (included i) s

index-total : (fuel i s : ℕ) → i < 2 ^ 64 → index fuel i s ≢ none
index-total fuel i s h panics =
    let nothing =
      (rand_integer-panics 64 64 gen_u64 fuel s unbounded (included i) (omega arith) h).0 panics in
    nothing 0 (omega arith) (omega arith)

module _ {A : Type 0} where
  -- `slice.swap(i, j)`; `none` is an index out of bounds.
  abbrev pub swap_with : List A → ℕ → ℕ → Option A → Option A → Option (List A)
  swap_with l i j none b = none
  swap_with l i j (some a) none = none
  swap_with l i j (some a) (some b) = some (set (set l i b) j a)

  unfoldable pub swap : List A → ℕ → ℕ → Option (List A)
  swap l i j = swap_with l i j (get_elem? l i) (get_elem? l j)

  -- In what follows `none` is a panic, `some none` a draw that takes more fuel.
  abbrev pub after_swap :
      Option (List A) → (List A → Option (Option (List A))) → Option (Option (List A))
  after_swap none next = none
  after_swap (some l) next = next l

  abbrev pub after_index :
      Option (Option (ℕ × ℕ)) → (ℕ → ℕ → Option (Option (List A))) → Option (Option (List A))
  after_index none next = none
  after_index (some none) next = some none
  after_index (some (some (j, s))) next = next j s

  -- The rounds from `i` on.
  unfoldable pub shuffle_rounds : ℕ → ℕ → ℕ → ℕ → List A → Option (Option (List A))
  unfolding swap
  shuffle_rounds fuel zero i s l = some (some l)
  shuffle_rounds fuel (suc rounds) i s l =
      after_index (index fuel i s)
        (λ j s'. after_swap (swap l i j) (λ l'. shuffle_rounds fuel rounds (i + 1) s' l'))

  unfoldable pub shuffle : ℕ → ℕ → List A → Option (Option (List A))
  unfolding shuffle_rounds
  shuffle fuel s l = shuffle_rounds fuel (length l - 1) 1 s l

  get-some : (l : List A) (i : ℕ) → i < length l → (a : A) × (get_elem? l i ≡ some a)
  get-some [] i h = absurd (omega (arith, h))
  get-some (a ∷ l) zero h = (a, refl)
  get-some (a ∷ l) (suc i) h = get-some l i (omega (arith, h))

  -- A swap within bounds keeps the length and every sum over the elements.
  pub swap-keeps :
      (l : List A) (i j : ℕ)
      → i < length l
      → j < length l
      → (l' : List A) × (swap l i j ≡ some l')
        × (length l' ≡ length l)
        × ((weight : A → ℕ) → tally weight l' ≡ tally weight l)
  unfolding swap
  swap-keeps l i j h h' =
      let (a, at_i) = get-some l i h in
      let (b, at_j) = get-some l j h' in
      (
        set (set l i b) j a,
        rw (at_i, at_j),
        length-set (set l i b) j a ∙ length-set l i b,
        λ weight.
            let given = tally-set weight l i b at_i in
            let taken = tally-set weight (set l i b) j a (moved l i j a b h at_j) in
            omega (arith, given, taken),
      )
    where
      moved :
          (l : List A) (i j : ℕ) (a b : A)
          → i < length l
          → get_elem? l j ≡ some b
          → get_elem? (set l i b) j ≡ some b
      moved l i j a b h at_j = elim (Bool-cases (i == j)) [
        | inl same ↦
            let e = (==_iff i j).0 same in
            ap (get_elem? (set l i b)) (sym e) ∙ get_elem?-set_self l i b h
        | inr apart ↦ get_elem?-set_ne l b (ground (arith, apart)) ∙ at_j
      ]

  -- What is true of every end of a shuffle of `l`.
  abbrev pub Keeps : List A → Option (Option (List A)) → Type 0
  Keeps l q =
      (q ≢ none)
      × ((l' : List A) → q ≡ some (some l') → (weight : A → ℕ) → tally weight l' ≡ tally weight l)

  Keeps-index :
      (l : List A) (q : Option (Option (ℕ × ℕ))) (next : ℕ → ℕ → Option (Option (List A)))
      → q ≢ none
      → ((j s' : ℕ) → q ≡ some (some (j, s')) → Keeps l (next j s'))
      → Keeps l (after_index q next)
  Keeps-index l none next h keeps = absurd (h refl)
  Keeps-index l (some none) next h keeps = (λ e. cc e, λ l' e. absurd (cc (some_eq e)))
  Keeps-index l (some (some (j, s'))) next h keeps = keeps j s' refl

  Keeps-rounds :
      (fuel rounds i s : ℕ) (l : List A)
      → i + rounds ≤ length l
      → length l < 2 ^ 64
      → Keeps l (shuffle_rounds fuel rounds i s l)
  unfolding shuffle_rounds
  Keeps-rounds fuel zero i s l h short =
      (λ e. cc e, λ l' e weight. ap (tally weight) (sym (some_eq (some_eq e))))
  Keeps-rounds fuel (suc rounds) i s l h short =
      Keeps-index l (index fuel i s) _ (index-total fuel i s (omega (arith, h, short)))
        λ j s' drawn.
          let le =
            (rand_integer-in_range 64 64 gen_u64 fuel s unbounded (included i) (omega arith)
              (omega (arith, h, short)) gen_u64-lt j s' drawn).1 in
          let (l1, swapped, same_length, same) =
            swap-keeps l i j (omega (arith, h)) (omega (arith, h, le)) in
          let (total, keeps) =
            Keeps-rounds fuel rounds (i + 1) s' l1 (omega (arith, h, same_length))
              (omega (arith, short, same_length)) in
          rw swapped (total, λ l' e weight. keeps l' e weight ∙ same weight)

  -- `shuffle` of a slice with fewer than `2 ^ 64` elements never panics, and what it returns has
  -- the same elements: every sum over them is the same.
  pub shuffle-Keeps : (fuel s : ℕ) (l : List A) → length l < 2 ^ 64 → Keeps l (shuffle fuel s l)
  unfolding shuffle shuffle_rounds
  shuffle-Keeps fuel s [] short =
      (λ e. cc e, λ l' e weight. ap (tally weight) (sym (some_eq (some_eq e))))
  shuffle-Keeps fuel s (a ∷ l) short =
      Keeps-rounds fuel (length (a ∷ l) - 1) 1 s (a ∷ l) (omega arith) short
