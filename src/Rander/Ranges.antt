-- ===== src/Rander/Ranges.antt =====
-- cynthia/src/utils/rander.rs: random integers of an unsigned type lie in their range.
use cynthia.Base.{
  ℕ, ◌+◌, ◌-◌, ◌%◌, ◌^◌, ◌≤◌, ◌<◌, ◌≡◌, ◌∙◌, sym, ap, some_eq, false, ◌&&◌, ◌==◌, Option, none,
  some, Bool-cases, inl, inr, arith,
}
use native.Mathlib.Nat.{mod-eq_of_lt, mod-lt, add-mod_right}
use cynthia.Rander.{gen_mod, len_of, between, offset}
use cynthia.Rander.Draws.{gen_mod-lt}

len_of_lem :
    (b low high : ℕ)
    → low ≤ high
    → high - low + 1 < 2 ^ b
    → len_of b false low high ≡ high - low + 1
len_of_lem b low high h h' =
    let e : high + 2 ^ b - low ≡ high - low + 2 ^ b = omega arith in
    let m : (high - low + 2 ^ b) % 2 ^ b ≡ high - low =
      add-mod_right (high - low) (2 ^ b) ∙ mod-eq_of_lt (omega arith) in
    ap (λ l. (l % 2 ^ b + 1) % 2 ^ b) e ∙ ap (λ l. (l + 1) % 2 ^ b) m ∙ mod-eq_of_lt h'

offset-some :
    (b low : ℕ) (draw : ℕ → ℕ × ℕ) (w : ℕ) (q : Option (ℕ × ℕ)) (v s' : ℕ)
    → offset b false draw w low q ≡ some (v, s')
    → (m : ℕ) × (q ≡ some (m, s')) × ((low + m % 2 ^ b) % 2 ^ b ≡ v)
offset-some b low draw w none v s' e = absurd (cc e)
offset-some b low draw w (some (m, s)) v s' e =
    let pair = some_eq e in (m, ap (λ t. some (m, t)) (ap (λ q. q.1) pair), ap (λ q. q.0) pair)

module _ (b w : ℕ) (draw : ℕ → ℕ × ℕ) (draws : (q : ℕ) → (draw q).0 < 2 ^ w) where
  pub between-in :
      (fuel low high s v s' : ℕ)
      → low ≤ high
      → high < 2 ^ b
      → between b false draw w fuel low high s ≡ some (v, s')
      → low ≤ v × (v ≤ high)
  unfolding between
  between-in fuel low high s v s' h h' e = elim (Bool-cases ((low == 0) && (high == 2 ^ b - 1))) [
    | inl full ↦
        let same : (draw s).0 % 2 ^ b ≡ v = ap (λ q. q.0) (some_eq (rw full at e)) in
        let below = mod-lt (draw s).0 {m = 2 ^ b} (omega (arith, h')) in
        let ends : (low ≡ 0) × (high ≡ 2 ^ b - 1) = ground arith in
        (omega (arith, ends.0), omega (arith, ends.1, below, same))
    | inr part ↦
        let (m, drawn, same) =
          offset-some b low draw w (gen_mod draw w fuel (len_of b false low high) s) v s'
            (rw part at e) in
        let short : high - low + 1 < 2 ^ b = ground (arith, h, h') in
        let len = len_of_lem b low high h short in
        let below : m < high - low + 1 =
          gen_mod-lt draw w draws fuel (high - low + 1) s m s' (omega arith)
            (ap (λ l. gen_mod draw w fuel l s) (sym len) ∙ drawn) in
        let inner : m % 2 ^ b ≡ m = mod-eq_of_lt (omega (arith, below, short)) in
        let outer : (low + m) % 2 ^ b ≡ low + m = mod-eq_of_lt (omega (arith, below, h, h')) in
        let value = sym same ∙ ap (λ k. (low + k) % 2 ^ b) inner ∙ outer in
        (omega (arith, value), omega (arith, value, below, h))
  ]
