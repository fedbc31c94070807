-- ===== src/Blocking/Pipe/Window.antt =====
-- The bytes between two positions of the ring.
use cynthia.Base.{
  ℕ, zero, suc, ◌+◌, ◌-◌, ◌*◌, ◌≤◌, ◌<◌, ◌≡◌, refl, sym, ap, ◌∙◌, if◌then◌else◌, ltb, List, [], ◌∷◌,
  ◌++◌, arith,
}
use cynthia.Base.Memory.{slice}
use cynthia.Blocking.Pipe.{real_index, advance}

module _ (cap : ℕ) where
  -- `n` bytes from the position `i` on, round the ring.
  unfoldable pub window : (ℕ → ℕ) → ℕ → ℕ → List ℕ
  window memory i zero = []
  window memory i (suc n) = memory (real_index cap i) ∷ window memory (advance cap i 1) n

  -- The position `k` bytes after the position `i`, and its address.
  unfoldable pub after : ℕ → ℕ → ℕ
  after i k = if ltb (i + k) (2 * cap) then i + k else i + k - 2 * cap

  unfoldable pub address : ℕ → ℕ → ℕ
  unfolding after
  address i k = real_index cap (after i k)

  address-zero : (i : ℕ) → i < 2 * cap → real_index cap i ≡ address i 0
  unfolding address after real_index
  address-zero i h = ground arith

  address-suc :
      (i k : ℕ) → i < 2 * cap → suc k < cap → address (advance cap i 1) k ≡ address i (suc k)
  unfolding address after real_index advance
  address-suc i k h fits = ground arith

  advance-lt : (i : ℕ) → i < 2 * cap → advance cap i 1 < 2 * cap
  unfolding advance
  advance-lt i h = ground arith

  pub window-same :
      (n : ℕ) {i : ℕ} (m m' : ℕ → ℕ)
      → i < 2 * cap
      → n ≤ cap
      → ((k : ℕ) → k < n → m (address i k) ≡ m' (address i k))
      → window m i n ≡ window m' i n
  unfolding window
  window-same zero m m' h fits same = refl
  window-same (suc n) {i} m m' h fits same =
      let at : m (real_index cap i) ≡ m' (real_index cap i) =
        rw (address-zero i h) (same 0 (omega arith)) in
      let rest = window-same n m m' (advance-lt i h) (omega (arith, fits)) (λ k below.
        rw (address-suc i k h (omega (arith, fits, below)))
          (same (suc k) (omega (arith, below)))) in
      rw (at, rest)

  next_real :
      (i : ℕ)
      → i < 2 * cap
      → real_index cap i + 1 < cap
      → real_index cap (advance cap i 1) ≡ real_index cap i + 1
  unfolding real_index advance
  next_real i h fits = ground arith

  pub window-slice :
      (memory : ℕ → ℕ) (n : ℕ) {i : ℕ}
      → i < 2 * cap
      → real_index cap i + n ≤ cap
      → slice memory (real_index cap i) n ≡ window memory i n
  unfolding window slice
  window-slice memory zero h fits = refl
  window-slice memory (suc zero) h fits = refl
  window-slice memory (suc (suc n)) {i} h fits =
      let next = next_real i h (omega (arith, fits)) in
      let rest = window-slice memory (suc n) (advance-lt i h) (omega (arith, next, fits)) in
      ap (λ l. memory (real_index cap i) ∷ l) (rw (sym next) rest)

  after-more : (i a : ℕ) → i < 2 * cap → suc a ≤ cap → after (advance cap i 1) a ≡ after i (suc a)
  unfolding advance after
  after-more i a h fits = ground arith

  after-zero : (i : ℕ) → i < 2 * cap → after i 0 ≡ i
  unfolding after
  after-zero i h = ground arith

  zero_plus : (b : ℕ) → 0 + b ≡ b
  zero_plus b = omega arith

  suc_plus : (a b : ℕ) → suc a + b ≡ suc (a + b)
  suc_plus a b = omega arith

  pub window-split :
      (memory : ℕ → ℕ) (a b : ℕ) {i : ℕ}
      → i < 2 * cap
      → a ≤ cap
      → window memory i (a + b) ≡ window memory i a ++ window memory (after i a) b
  unfolding window
  window-split memory zero b {i} h fits = rw (after-zero i h, zero_plus b)
  window-split memory (suc a) b {i} h fits =
      let rest = window-split memory a b (advance-lt i h) (omega (arith, fits)) in
      rw (suc_plus a b)
        (ap (λ l. memory (real_index cap i) ∷ l) (rest ∙ rw (after-more i a h fits)))
