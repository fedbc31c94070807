-- ===== src/Queue/Bounded/Position.antt =====
-- cynthia/src/platform/queue/bounded.rs: the words that stand for positions. The k-th push, and the
-- k-th pop, use the index k % cap in lap k / cap; the word has the lap times `one_lap`, and the index.
use cynthia.Base.{
  ℕ, suc, ◌+◌, ◌*◌, ◌/◌, ◌%◌, ◌^◌, ◌≤◌, ◌<◌, ◌≡◌, ◌≢◌, inl, inr, sym, ap, ◌∙◌, true, false, ltb,
  ◌==◌, if_holds, Bool-cases, arith,
}
use cynthia.Base.Word.{wrapping_add}
use cynthia.Queue.Bounded.{one_lap, index_of, lap_of, is_marked, advance}

div_add_mul : (n q r : ℕ) → r < n → (q * n + r) / n ≡ q
div_add_mul n q r h = grind arith

mod_add_mul : (n q r : ℕ) → r < n → (q * n + r) % n ≡ r
mod_add_mul n q r h = grind arith

div_mod : (n k : ℕ) → 0 < n → k / n * n + k % n ≡ k
div_mod n k h = grind arith

pub mod_lt : (n k : ℕ) → 0 < n → k % n < n
mod_lt n k h = grind arith

pub mod_add : (n k : ℕ) → 0 < n → (k + n) % n ≡ k % n
mod_add n k h = grind arith

div_add : (n k : ℕ) → 0 < n → (k + n) / n ≡ suc (k / n)
div_add n k h = grind arith

next_same : (n k : ℕ) → 0 < n → k % n + 1 < n → ((k + 1) / n ≡ k / n) × ((k + 1) % n ≡ k % n + 1)
next_same n k p h = grind arith

next_lap : (n k : ℕ) → 0 < n → n ≤ k % n + 1 → ((k + 1) / n ≡ suc (k / n)) × ((k + 1) % n ≡ 0)
next_lap n k p h = grind arith

pub same_residue : (n a b : ℕ) → a % n ≡ b % n → a ≤ b → b < a + n → a ≡ b
same_residue n a b e h g = grind arith

div_mono : (n a b : ℕ) → 0 < n → a ≤ b → a / n ≤ b / n
div_mono n a b p h = grind arith

later_row : (m q r q' r' : ℕ) → q < q' → r < m → q * (m * 2) + r ≤ q' * (m * 2) + r'
later_row m q r q' r' l h = grind arith

pub mod_first : (n k : ℕ) → k < n → k % n ≡ k
mod_first n k h = grind arith

div_first : (n k : ℕ) → k < n → k / n ≡ 0
div_first n k h = grind arith

plus_zero : (n : ℕ) → n + 0 ≡ n
plus_zero n = omega arith

fits_word : (n : ℕ) → n < 2 ^ 64 → n % 2 ^ 64 ≡ n
fits_word n h = omega arith

row_major :
    (c m q r q' r' : ℕ)
    → r < c
    → c < m
    → q ≤ q'
    → q * c + r ≤ q' * c + r'
    → q * (m * 2) + r ≤ q' * (m * 2) + r'
row_major c m q r q' r' h f l g = elim (Bool-cases (ltb q q')) [
  | inl e ↦ later_row m q r q' r' (ground (arith, e)) (omega (arith, h, f))
  | inr e ↦
      let same : q' ≡ q = ground (arith, e, l) in
      let below : r ≤ r' = omega (arith, g, ap (λ n. n * c) same) in
      omega (arith, below, ap (λ n. n * (m * 2)) same)
]

module _ (cap mark : ℕ) where
  -- The word of the k-th push or pop.
  unfoldable pub encode : ℕ → ℕ
  encode k = k / cap * one_lap cap mark + k % cap

  unfoldable pub decode : ℕ → ℕ
  decode p = lap_of cap mark p / one_lap cap mark * cap + index_of cap mark p

  module _ (positive : 0 < cap) (fits : cap < mark) where
    pub encode_first : (k : ℕ) → k < cap → encode k ≡ k
    unfolding encode
    encode_first k h = rw (div_first cap k h, mod_first cap k h) (omega arith)

    low : (q i : ℕ) → i < mark → (q * one_lap cap mark + i) % mark ≡ i
    low q i h =
        let e : q * (mark * 2) + i ≡ q * 2 * mark + i = grind arith in
        ap (λ n. n % mark) e ∙ mod_add_mul mark (q * 2) i h

    half : (q i : ℕ) → i < mark → (q * one_lap cap mark + i) / mark ≡ q * 2
    half q i h =
        let e : q * (mark * 2) + i ≡ q * 2 * mark + i = grind arith in
        ap (λ n. n / mark) e ∙ div_add_mul mark (q * 2) i h

    half_marked : (q i : ℕ) → i < mark → (q * one_lap cap mark + i + mark) / mark ≡ q * 2 + 1
    half_marked q i h =
        let e : q * (mark * 2) + i + mark ≡ (q * 2 + 1) * mark + i = grind arith in
        ap (λ n. n / mark) e ∙ div_add_mul mark (q * 2 + 1) i h

    high : (q i : ℕ) → i < mark → (q * one_lap cap mark + i) / one_lap cap mark ≡ q
    high q i h = div_add_mul (mark * 2) q i (omega (arith, h))

    pub index_of-encode : (k : ℕ) → index_of cap mark (encode k) ≡ k % cap
    unfolding index_of encode
    index_of-encode k = low (k / cap) (k % cap) (omega (arith, mod_lt cap k positive, fits))

    pub index_of-marked : (k : ℕ) → index_of cap mark (encode k + mark) ≡ k % cap
    unfolding index_of encode
    index_of-marked k =
        let e : k / cap * (mark * 2) + k % cap + mark ≡ (k / cap * 2 + 1) * mark + k % cap =
          grind arith in
        ap (λ n. n % mark) e
        ∙ mod_add_mul mark (k / cap * 2 + 1) (k % cap) (omega (arith, mod_lt cap k positive, fits))

    -- The stamp of a slot that holds a value is the word of none of its positions.
    pub full_stamp : (a b : ℕ) → a % cap ≡ b % cap → encode a + 1 ≢ encode b
    unfolding encode
    full_stamp a b r e =
        let i = mod_lt cap a positive in
        let j = mod_lt cap b positive in
        let next = low (a / cap) (a % cap + 1) (omega (arith, i, fits)) in
        let same = low (b / cap) (b % cap) (omega (arith, j, fits)) in
        let shift : a / cap * one_lap cap mark + (a % cap + 1)
            ≡ b / cap * one_lap cap mark + b % cap =
          omega (arith, e) in
        absurd (omega (arith, r, sym next ∙ ap (λ n. n % mark) shift ∙ same))

    pub lap_of-encode : (k : ℕ) → lap_of cap mark (encode k) ≡ k / cap * one_lap cap mark
    unfolding lap_of encode
    lap_of-encode k =
        ap (λ q. q * (mark * 2))
          (high (k / cap) (k % cap) (omega (arith, mod_lt cap k positive, fits)))

    pub is_marked-encode : (k : ℕ) → is_marked cap mark (encode k) ≡ false
    unfolding is_marked encode
    is_marked-encode k =
        let e = half (k / cap) (k % cap) (omega (arith, mod_lt cap k positive, fits)) in
        ap (λ n. n % 2 == 1) e ∙ ground arith

    pub is_marked-marked : (k : ℕ) → is_marked cap mark (encode k + mark) ≡ true
    unfolding is_marked encode
    is_marked-marked k =
        let e = half_marked (k / cap) (k % cap) (omega (arith, mod_lt cap k positive, fits)) in
        ap (λ n. n % 2 == 1) e ∙ ground arith

    -- The word of a position gives back the position.
    pub decode-encode : (k : ℕ) → decode (encode k) ≡ k
    unfolding decode
    decode-encode k =
        let l : k / cap * (mark * 2) / (mark * 2) ≡ k / cap =
          ap (λ n. n / (mark * 2)) (sym (plus_zero (k / cap * (mark * 2))))
          ∙ div_add_mul (mark * 2) (k / cap) 0 (omega (arith, fits)) in
        let lap = ap (λ n. n / (mark * 2)) (lap_of-encode k) ∙ l in
        ap (λ n. n * cap + index_of cap mark (encode k)) lap
        ∙ ap (λ n. k / cap * cap + n) (index_of-encode k)
        ∙ div_mod cap k positive

    pub encode_injective : (a b : ℕ) → encode a ≡ encode b → a ≡ b
    encode_injective a b e = sym (decode-encode a) ∙ ap decode e ∙ decode-encode b

    pub encode_lap : (k : ℕ) → encode (k + cap) ≡ encode k + one_lap cap mark
    unfolding encode
    encode_lap k =
        let q = div_add cap k positive in let r = mod_add cap k positive in rw (q, r) (grind arith)

    pub encode_mono : (a b : ℕ) → a ≤ b → encode a ≤ encode b
    unfolding encode
    encode_mono a b h =
        let ra = mod_lt cap a positive in
        let rb = mod_lt cap b positive in
        let da = div_mod cap a positive in
        let db = div_mod cap b positive in
        let q = div_mono cap a b positive h in
        row_major cap mark (a / cap) (a % cap) (b / cap) (b % cap) ra fits q
          (omega (arith, da, db, h))

    stays : (k : ℕ) → k % cap + 1 < cap → encode k + 1 ≡ encode (k + 1)
    unfolding encode
    stays k h = let (q, r) = next_same cap k positive h in rw (q, r) (omega arith)

    wraps :
        (k : ℕ)
        → encode k + one_lap cap mark < 2 ^ 64
        → cap ≤ k % cap + 1
        → wrapping_add (lap_of cap mark (encode k)) (one_lap cap mark) ≡ encode (k + 1)
    unfolding encode
    wraps k b h =
        let (q, r) = next_lap cap k positive h in
        let l = lap_of-encode k in
        let small = fits_word (k / cap * (mark * 2) + mark * 2) (omega (arith, b)) in
        ap (λ n. wrapping_add n (one_lap cap mark)) l ∙ small ∙ rw (q, r) (grind arith)

    pub advance-encode :
        (k : ℕ)
        → encode k + one_lap cap mark < 2 ^ 64
        → advance cap mark (encode k) ≡ encode (k + 1)
    unfolding advance
    advance-encode k h =
        let i = index_of-encode k in
        if_holds (λ w. w ≡ encode (k + 1)) (ltb (index_of cap mark (encode k) + 1) cap)
          (λ e. stays k (ground (arith, e, i))) (λ e. wraps k h (ground (arith, e, i)))
