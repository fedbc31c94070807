-- ===== src/Queue/Bounded/Words.antt =====
-- cynthia/src/platform/queue/bounded.rs: the words that `head` and `tail` go through.
use cynthia.Base.{
  ℕ, zero, suc, ◌+◌, ◌*◌, ◌/◌, ◌%◌, ◌^◌, ◌<◌, ◌≡◌, sym, ap, ◌∙◌, true, false, ◌-◌, if◌then◌else◌,
  arith,
}
use cynthia.Queue.Bounded.{one_lap, index_of, lap_of, is_marked, unmarked, advance}
use cynthia.Queue.Bounded.Position.{
  encode, decode, decode-encode, encode_first, encode_mono, advance-encode, index_of-encode,
  index_of-marked, lap_of-encode, is_marked-encode, is_marked-marked,
}

module _ (cap mark : ℕ) where
  -- The value of `head` after `k` pops, and of `tail` after `k` pushes into an open queue.
  abbrev pub word_after : ℕ → ℕ
  word_after zero = 0
  word_after (suc k) = advance cap mark (word_after k)

  module _ (positive : 0 < cap) (fits : cap < mark) where
    word_after-encode :
        (k : ℕ) → encode cap mark k + one_lap cap mark < 2 ^ 64 → word_after k ≡ encode cap mark k
    word_after-encode zero small = sym (encode_first cap mark positive fits 0 positive)
    word_after-encode (suc k) small =
        let next : encode cap mark (suc k) ≡ encode cap mark (k + 1) =
          ap (encode cap mark) (omega arith) in
        let before : encode cap mark k + one_lap cap mark < 2 ^ 64 =
          omega (arith, small, encode_mono cap mark positive fits k (k + 1) (omega arith), next) in
        ap (advance cap mark) (word_after-encode k before)
        ∙ advance-encode cap mark positive fits k before
        ∙ sym next

    -- From 0 on, before a word wraps round, the word that has been advanced `k` times has the index
    -- `k % cap` and `k / cap` laps, from which `k` is found again, and is not marked. When `close` has
    -- added the mark to it, it is marked and has the same index, and without the mark it is what it was.
    pub word_after_lem :
        (k : ℕ)
        → encode cap mark k + one_lap cap mark < 2 ^ 64
        → (index_of cap mark (word_after k) ≡ k % cap)
          × (lap_of cap mark (word_after k) ≡ k / cap * one_lap cap mark)
          × (decode cap mark (word_after k) ≡ k)
          × (is_marked cap mark (word_after k) ≡ false)
          × (is_marked cap mark (word_after k + mark) ≡ true)
          × (index_of cap mark (word_after k + mark) ≡ k % cap)
          × (unmarked cap mark (word_after k + mark) ≡ word_after k)
    unfolding unmarked
    word_after_lem k small =
        let e = word_after-encode k small in
        let marked = ap (λ p. p + mark) e in
        let m = ap (is_marked cap mark) marked ∙ is_marked-marked cap mark positive fits k in
        (
          ap (index_of cap mark) e ∙ index_of-encode cap mark positive fits k,
          ap (lap_of cap mark) e ∙ lap_of-encode cap mark positive fits k,
          ap (decode cap mark) e ∙ decode-encode cap mark positive fits k,
          ap (is_marked cap mark) e ∙ is_marked-encode cap mark positive fits k,
          m,
          ap (index_of cap mark) marked ∙ index_of-marked cap mark positive fits k,
          ap (λ b. if b then word_after k + mark - mark else word_after k + mark) m ∙ omega arith,
        )
