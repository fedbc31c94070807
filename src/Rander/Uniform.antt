-- ===== src/Rander/Uniform.antt =====
-- cynthia/src/utils/rander.rs: what `gen_mod` gives is as likely for each number.
use cynthia.Base.{ℕ, ◌+◌, ◌^◌, ◌≤◌, ◌<◌, ◌≡◌, ◌↔◌, ap, sym, ◌∙◌, some, some_eq}
use cynthia.Rander.{lo, threshold, gen_mod}
use cynthia.Rander.Draws.{uniform, first_of, share, first_of-fits}
use cynthia.Rander.Accept.{nth_draw, gen_mod-first}

module _ (draw : ℕ → ℕ × ℕ) (w n : ℕ) where
  -- Let `n` be above 0 and below `2 ^ w`. `gen_mod` draws until the low part of a draw is not below the
  -- threshold: if the draw after `i` others is the first of these, then given fuel for `i` draws more
  -- it returns `k`, with the generator as that draw leaves it, exactly if this draw is one of the
  -- `2 ^ w / n` numbers from `first_of w n k` on. For `k` below `n`
  -- these numbers have `w` bits, so that each `k` is given by as many draws as any other.
  pub gen_mod-uniform :
      (fuel i s k : ℕ)
      → 0 < n
      → n < 2 ^ w
      → i ≤ fuel
      → ((j : ℕ) → j < i → lo w (nth_draw draw j s).0 n < threshold w n)
      → threshold w n ≤ lo w (nth_draw draw i s).0 n
      → ((gen_mod draw w fuel n s ≡ some (k, (nth_draw draw i s).1)) ↔ (
          first_of w n k ≤ (nth_draw draw i s).0
          × ((nth_draw draw i s).0 < first_of w n k + share w n)))
        × (k < n → first_of w n k + share w n ≤ 2 ^ w)
  gen_mod-uniform fuel i s k h h' enough refused accepted =
      let result = gen_mod-first draw w n fuel i s h enough refused accepted in
      let range = uniform w n k (nth_draw draw i s).0 h h' in
      (
        (
          λ e. range.0 (accepted, ap (λ q. q.0) (some_eq (sym result ∙ e))),
          λ inside. result ∙ ap (λ m. some (m, (nth_draw draw i s).1)) (range.1 inside).1,
        ),
        first_of-fits w n k h h',
      )
