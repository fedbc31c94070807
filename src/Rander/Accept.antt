-- ===== src/Rander/Accept.antt =====
-- cynthia/src/utils/rander.rs: the loop returns with the first draw that it accepts.
use cynthia.Base.{
  ℕ, zero, suc, ◌-◌, ◌%◌, ◌^◌, ◌≤◌, ◌<◌, ◌≡◌, refl, true, false, ltb, some, Bool-cases, inl, inr,
  arith,
}
use native.Mathlib.Nat.{mod-lt}
use cynthia.Rander.{lo, mul_high, threshold, redraw, gen_mod}

-- The draw after `i` others.
abbrev pub nth_draw : (ℕ → ℕ × ℕ) → ℕ → ℕ → ℕ × ℕ
nth_draw draw zero s = draw s
nth_draw draw (suc i) s = nth_draw draw i (draw s).1

module _ (draw : ℕ → ℕ × ℕ) (w n : ℕ) where
  redraw-first :
      (fuel i s : ℕ)
      → i ≤ fuel
      → ((j : ℕ) → j < i → lo w (nth_draw draw j s).0 n < threshold w n)
      → threshold w n ≤ lo w (nth_draw draw i s).0 n
      → redraw draw w fuel n (threshold w n) (draw s)
        ≡ some (mul_high w (nth_draw draw i s).0 n, (nth_draw draw i s).1)
  unfolding redraw
  redraw-first zero (suc i) s le refused accepted = absurd (omega (arith, le))
  redraw-first zero zero s le refused accepted =
      let stops : ltb (lo w (draw s).0 n) (threshold w n) ≡ false = ground (arith, accepted) in
      rw stops
  redraw-first (suc fuel) zero s le refused accepted =
      let stops : ltb (lo w (draw s).0 n) (threshold w n) ≡ false = ground (arith, accepted) in
      rw stops
  redraw-first (suc fuel) (suc i) s le refused accepted =
      let goes_on : ltb (lo w (draw s).0 n) (threshold w n) ≡ true =
        ground (arith, refused 0 (omega arith)) in
      rw goes_on (
        redraw-first fuel i (draw s).1 (omega (arith, le))
          (λ j lt. refused (suc j) (omega (arith, lt))) accepted)

  -- If the draw after `i` others is the first that is not below the threshold, `gen_mod` returns
  -- its high part, given fuel for `i` draws more.
  pub gen_mod-first :
      (fuel i s : ℕ)
      → 0 < n
      → i ≤ fuel
      → ((j : ℕ) → j < i → lo w (nth_draw draw j s).0 n < threshold w n)
      → threshold w n ≤ lo w (nth_draw draw i s).0 n
      → gen_mod draw w fuel n s ≡ some (mul_high w (nth_draw draw i s).0 n, (nth_draw draw i s).1)
  unfolding gen_mod
  gen_mod-first fuel i s h le refused accepted = elim (Bool-cases (ltb (lo w (draw s).0 n) n)) [
    | inl low ↦ rw low (redraw-first fuel i s le refused accepted)
    | inr high ↦
        let (values, states) = at_once (ground (arith, high)) i refused in rw (high, values, states)
  ]
    where
      at_once :
          n ≤ lo w (draw s).0 n
          → (i : ℕ) → ((j : ℕ) → j < i → lo w (nth_draw draw j s).0 n < threshold w n)
          → (mul_high w (draw s).0 n ≡ mul_high w (nth_draw draw i s).0 n)
            × ((draw s).1 ≡ (nth_draw draw i s).1)
      at_once high_enough zero refused = (refl, refl)
      at_once high_enough (suc i) refused =
          let low = refused 0 (omega arith) in
          let below = mod-lt ((2 ^ w - n) % 2 ^ w) h in
          absurd (omega (arith, low, below, high_enough))
