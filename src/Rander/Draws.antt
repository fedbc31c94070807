-- ===== src/Rander/Draws.antt =====
-- cynthia/src/utils/rander.rs: the numbers below `n`, drawn from those of `w` bits.
use cynthia.Base.{
  ℕ, zero, suc, ◌+◌, ◌-◌, ◌*◌, ◌/◌, ◌%◌, ◌^◌, ◌≤◌, ◌<◌, ◌≡◌, ◌↔◌, ◌∙◌, sym, ap, subst, some_eq, ltb,
  some, dec_lt, Bool-cases, inl, inr, arith,
}
use native.Mathlib.Nat.{
  mod-eq_of_lt, mod-eq-sub-mod, div-mul-le_self, div-eq_of_lt-le, mul-le-mul_right,
  div-lt_iff_lt-mul, div-add-mod, mul_comm, mul-lt-mul_of_pos_right, mod-lt, add-mul,
}
use cynthia.Rander.{lo, mul_high, threshold, redraw, gen_mod}

-- A product with a number below `2 ^ w` has a high part below the other factor.
pub mul_high-lt : (w r n : ℕ) → 0 < n → r < 2 ^ w → mul_high w r n < n
unfolding mul_high
mul_high-lt w r n h h' =
    (div-lt_iff_lt-mul (omega (arith, h'))).1
      (let product = mul-lt-mul_of_pos_right h' h in omega (arith, product, mul_comm n (2 ^ w)))

-- The numbers below `2 ^ w` from which `n` numbers are drawn, `share` for each.
abbrev pub share : ℕ → ℕ → ℕ
share w n = 2 ^ w / n

-- The least draw that gives `k`.
abbrev pub first_of : ℕ → ℕ → ℕ → ℕ
first_of w n k = (k * 2 ^ w + 2 ^ w % n + (n - 1)) / n

threshold_lem : (w n : ℕ) → 0 < n → n < 2 ^ w → threshold w n ≡ 2 ^ w % n
threshold_lem w n h h' =
    ap (λ m. m % n) (mod-eq_of_lt {n = 2 ^ w - n} {m = 2 ^ w} (omega arith))
    ∙ sym (mod-eq-sub-mod (omega arith))

-- A draw is at least the first one for `k` if its product is high enough.
first_of-le : (w n k r : ℕ) → 0 < n → (first_of w n k ≤ r) ↔ (k * 2 ^ w + 2 ^ w % n ≤ r * n)
first_of-le w n k r h =
    let sum = k * 2 ^ w + 2 ^ w % n + (n - 1) in
    let galois : (sum / n < r + 1) ↔ (sum < (r + 1) * n) = div-lt_iff_lt-mul h in
    let next = add-mul r 1 n in
    (
      λ le. let below = galois.0 (omega (arith, le)) in omega (arith, next, below),
      λ le. let below = galois.1 (omega (arith, next, le)) in omega (arith, below),
    )

-- An accepted draw that gives `k`, by its product.
accepted-product :
    (w n k r : ℕ)
    → 0 < n
    → n < 2 ^ w
    → (threshold w n ≤ lo w r n × (mul_high w r n ≡ k))
      ↔ (k * 2 ^ w + 2 ^ w % n ≤ r * n × (r * n < k * 2 ^ w + 2 ^ w))
unfolding mul_high
accepted-product w n k r h h' =
    let parts = div-add-mod (r * n) (2 ^ w) in
    let t = threshold_lem w n h h' in
    let swapped = mul_comm k (2 ^ w) in
    (
      λ (accepted, gives_k).
          let at_k = ap (λ q. 2 ^ w * q) gives_k in
          let below = mod-lt (r * n) {m = 2 ^ w} (omega arith) in
          (
            omega (arith, at_k, parts, t, accepted, swapped),
            omega (arith, at_k, parts, below, swapped),
          ),
      λ (high_enough, not_too_high).
          let next = add-mul k 1 (2 ^ w) in
          let gives_k : r * n / 2 ^ w ≡ k =
            div-eq_of_lt-le (2 ^ w) (omega (arith, high_enough))
              (omega (arith, next, not_too_high)) in
          let at_k = ap (λ q. 2 ^ w * q) gives_k in
          (omega (arith, at_k, parts, t, high_enough, swapped), gives_k),
    )

-- The draws for `k` end `share` after the first one.
last_of : (w n k r : ℕ) → 0 < n → (r < first_of w n k + share w n) ↔ (r * n < k * 2 ^ w + 2 ^ w)
last_of w n k r h =
    let first = first_of w n k in
    let word = div-add-mod (2 ^ w) n in
    let swapped = mul_comm (share w n) n in
    let far = add-mul first (share w n) n in
    let from_first = (first_of-le w n k first h).0 (omega arith) in
    let first_low = div-mul-le_self (k * 2 ^ w + 2 ^ w % n + (n - 1)) n in
    (
      λ lt.
          let products = mul-le-mul_right n lt in
          let next = add-mul r 1 n in
          omega (arith, products, next, far, swapped, word, first_low, h),
      λ lt. elim (dec_lt r (first + share w n)) [
        | yes inside ↦ inside
        | no outside ↦
            let products =
              mul-le-mul_right {m = first + share w n} {n = r} n (omega (arith, outside)) in
            absurd (omega (arith, products, far, swapped, word, from_first, lt))
      ],
    )

-- The draws for a number below `n` have `w` bits.
pub first_of-fits : (w n k : ℕ) → 0 < n → n < 2 ^ w → k < n → first_of w n k + share w n ≤ 2 ^ w
first_of-fits w n k h h' below =
    let first = first_of w n k in
    let parts = div-add-mod (2 ^ w) n in
    let rest = mod-lt (2 ^ w) {m = n} h in
    let some_draw : 0 < share w n = elim (dec_lt 0 (share w n)) [
      | yes p ↦ p
      | no p ↦
          let none_ : share w n ≡ 0 = omega (arith, p) in
          let zero_ = ap (λ q. n * q) none_ in absurd (omega (arith, parts, rest, zero_, h'))
    ] in
    let last = (last_of w n k (first + share w n - 1) h).0 (omega (arith, some_draw)) in
    let rows = mul-le-mul_right {m = k + 1} {n = n} (2 ^ w) (omega (arith, below)) in
    let next = add-mul k 1 (2 ^ w) in
    elim (dec_lt (2 ^ w) (first + share w n)) [
      | no inside ↦ omega (arith, inside)
      | yes outside ↦
          let high =
            mul-le-mul_right {m = 2 ^ w} {n = first + share w n - 1} n (omega (arith, outside)) in
          absurd (omega (arith, high, last, rows, next, mul_comm n (2 ^ w)))
    ]

-- Each number below `n` is given by `2 ^ w / n` accepted draws, those from its first one on.
pub uniform :
    (w n k r : ℕ)
    → 0 < n
    → n < 2 ^ w
    → (threshold w n ≤ lo w r n × (mul_high w r n ≡ k))
      ↔ (first_of w n k ≤ r × (r < first_of w n k + share w n))
uniform w n k r h h' =
    let products = accepted-product w n k r h h' in
    let first = first_of-le w n k r h in
    let last = last_of w n k r h in
    (
      λ draw. let (low, high) = products.0 draw in (first.1 low, last.1 high),
      λ (from, upto). products.1 (first.0 from, last.0 upto),
    )

-- A loop that returns, returns a number below `n`.
redraw-lt :
    (draw : ℕ → ℕ × ℕ) (w fuel n t r s : ℕ)
    → 0 < n
    → ((q : ℕ) → (draw q).0 < 2 ^ w)
    → r < 2 ^ w
    → (v s' : ℕ) → redraw draw w fuel n t (r, s) ≡ some (v, s')
    → v < n
unfolding redraw
redraw-lt draw w zero n t r s h draws inside v s' e = elim (Bool-cases (ltb (lo w r n) t)) [
  | inl low ↦ absurd (cc (rw low at e))
  | inr high ↦
      let same = ap (λ q. q.0) (some_eq (rw high at e)) in
      subst (λ m. m < n) same (mul_high-lt w r n h inside)
]
redraw-lt draw w (suc fuel) n t r s h draws inside v s' e = elim (Bool-cases (ltb (lo w r n) t)) [
  | inl low ↦ redraw-lt draw w fuel n t (draw s).0 (draw s).1 h draws (draws s) v s' (rw low at e)
  | inr high ↦
      let same = ap (λ q. q.0) (some_eq (rw high at e)) in
      subst (λ m. m < n) same (mul_high-lt w r n h inside)
]

module _ (draw : ℕ → ℕ × ℕ) (w : ℕ) (draws : (q : ℕ) → (draw q).0 < 2 ^ w) where
  pub gen_mod-lt : (fuel n s v s' : ℕ) → 0 < n → gen_mod draw w fuel n s ≡ some (v, s') → v < n
  unfolding gen_mod
  gen_mod-lt fuel n s v s' h e = elim (Bool-cases (ltb (lo w (draw s).0 n) n)) [
    | inl low ↦
        redraw-lt draw w fuel n (threshold w n) (draw s).0 (draw s).1 h draws (draws s) v s'
          (rw low at e)
    | inr high ↦
        let same = ap (λ q. q.0) (some_eq (rw high at e)) in
        subst (λ m. m < n) same (mul_high-lt w (draw s).0 n h (draws s))
  ]
