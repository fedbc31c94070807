-- ===== src/Rander/Empty.antt =====
-- cynthia/src/utils/rander.rs: when a range of an unsigned type is empty, and what is drawn from one
-- that is not.
use cynthia.Base.{
  ℕ, ◌+◌, ◌-◌, ◌%◌, ◌^◌, ◌≤◌, ◌<◌, ◌≡◌, ◌⊎◌, ◌↔◌, ◌∙◌, refl, ap, some_eq, false, ltb, ◌==◌, ==_iff,
  none, some, Bool-cases, inl, inr, arith,
}
use native.Mathlib.Nat.{mod-eq_of_lt, add-mod_right}
use cynthia.Rander.{Bound, included, excluded, unbounded, low_of, high_of, rand_integer}
use cynthia.Rander.Ranges.{between-in}

module _ (b : ℕ) where
  -- The bounds of the type, and the numbers that a bound admits.
  abbrev pub Fits : Bound → Type 0
  Fits (included x) = x < 2 ^ b
  Fits (excluded x) = x < 2 ^ b
  Fits unbounded = 0 < 2 ^ b

  abbrev pub After : Bound → ℕ → Type 0
  After (included x) v = x ≤ v
  After (excluded x) v = x < v
  After unbounded v = 0 ≤ v

  abbrev pub Before : Bound → ℕ → Type 0
  Before (included x) v = v ≤ x
  Before (excluded x) v = v < x
  Before unbounded v = v < 2 ^ b

  low-cases :
      (start : Bound)
      → Fits start
      → ((low_of b false start ≡ none) × ((v : ℕ) → v < 2 ^ b → ¬ After start v))
        ⊎ ((low : ℕ) × (low_of b false start ≡ some low) × ((v : ℕ) → (low ≤ v) ↔ After start v))
  unfolding low_of
  low-cases unbounded h = inr (0, refl, λ v. (λ l. l, λ l. l))
  low-cases (included x) h = inr (x, refl, λ v. (λ l. l, λ l. l))
  low-cases (excluded x) h = elim (Bool-cases (x == 2 ^ b - 1)) [
    | inl top ↦
        let e = (==_iff x (2 ^ b - 1)).0 top in
        inl (rw top, λ v inside after. absurd (omega (arith, e, inside, after)))
    | inr below ↦
        let room : x + 1 < 2 ^ b = ground (arith, h) in
        inr (
          x + 1,
          rw below (ap some (mod-eq_of_lt room)),
          λ v. (λ l. omega (arith, l), λ l. omega (arith, l)),
        )
  ]

  high-cases :
      (end : Bound)
      → Fits end
      → ((high_of b false end ≡ none) × ((v : ℕ) → ¬ Before end v))
        ⊎ ((high : ℕ) × (high_of b false end ≡ some high)
            × (high < 2 ^ b)
            × ((v : ℕ) → (v ≤ high) ↔ Before end v))
  unfolding high_of
  high-cases unbounded h =
      inr
        (2 ^ b - 1, refl, omega (arith, h), λ v. (λ l. omega (arith, h, l), λ l. omega (arith, l)))
  high-cases (included x) h = inr (x, refl, h, λ v. (λ l. l, λ l. l))
  high-cases (excluded x) h = elim (Bool-cases (x == 0)) [
    | inl bottom ↦
        let e = (==_iff x 0).0 bottom in
        inl (rw bottom, λ v before. absurd (omega (arith, e, before)))
    | inr above ↦
        let pos : 0 < x = ground arith in
        let e : x + 2 ^ b - 1 ≡ x - 1 + 2 ^ b = omega (arith, pos) in
        let m = add-mod_right (x - 1) (2 ^ b) ∙ mod-eq_of_lt (omega (arith, h)) in
        inr (
          x - 1,
          rw above (ap some (ap (λ y. y % 2 ^ b) e ∙ m)),
          omega (arith, h),
          λ v. (λ l. omega (arith, l, pos), λ l. omega (arith, l)),
        )
  ]

  Before-lt : (end : Bound) (v : ℕ) → Fits end → Before end v → v < 2 ^ b
  Before-lt unbounded v h before = before
  Before-lt (included x) v h before = omega (arith, h, before)
  Before-lt (excluded x) v h before = omega (arith, h, before)

  module _ (w : ℕ) (draw : ℕ → ℕ × ℕ) (fuel s : ℕ) (start end : Bound) (h : Fits start)
      (h' : Fits end) where
    -- A call panics exactly if no number of the type lies between the bounds.
    pub rand_integer-panics :
        (rand_integer b false draw w fuel start end s ≡ none)
        ↔ ((v : ℕ) → After start v → ¬ Before end v)
    unfolding rand_integer
    rand_integer-panics = elim (low-cases start h) [
      | inl (e, nothing) ↦
          (λ _ v after before. nothing v (Before-lt end v h' before) after, λ _. rw e)
      | inr (low, e, lows) ↦ elim (high-cases end h') [
        | inl (e', nothing) ↦ (λ _ v after before. nothing v before, λ _. rw (e, e'))
        | inr (high, e', inside, highs) ↦ elim (Bool-cases (ltb high low)) [
          | inl crossed ↦ (
            λ _ v after before.
                let from = (lows v).1 after in
                let upto = (highs v).1 before in absurd (ground (arith, crossed, from, upto)),
            λ _. rw (e, e', crossed),
          )
          | inr open_ ↦ (
            λ panics. absurd (cc (rw (e, e', open_) at panics)),
            λ nothing.
                let from = (lows low).0 (omega arith) in
                let upto = (highs low).0 (ground (arith, open_)) in absurd (nothing low from upto),
          )
        ]
      ]
    ]

    -- A number that a call returns lies between the bounds.
    pub rand_integer-in_range :
        ((q : ℕ) → (draw q).0 < 2 ^ w)
        → (v s' : ℕ) → rand_integer b false draw w fuel start end s ≡ some (some (v, s'))
        → After start v × Before end v
    unfolding rand_integer
    rand_integer-in_range draws v s' result = elim (low-cases start h) [
      | inl (e, nothing) ↦ absurd (cc (rw e at result))
      | inr (low, e, lows) ↦ elim (high-cases end h') [
        | inl (e', nothing) ↦ absurd (cc (rw (e, e') at result))
        | inr (high, e', inside, highs) ↦ elim (Bool-cases (ltb high low)) [
          | inl crossed ↦ absurd (cc (rw (e, e', crossed) at result))
          | inr open_ ↦
              let drawn = some_eq (rw (e, e', open_) at result) in
              let (from, upto) =
                between-in b w draw draws fuel low high s v s' (ground (arith, open_)) inside
                  drawn in
              ((lows v).0 from, (highs v).0 upto)
        ]
      ]
    ]
