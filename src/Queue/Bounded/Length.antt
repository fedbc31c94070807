-- ===== src/Queue/Bounded/Length.antt =====
-- cynthia/src/platform/queue/bounded.rs: `len`, `is_empty`, `is_full`, and the destructor.
use cynthia.Base.{
  ℕ, ◌+◌, ◌-◌, ◌%◌, ◌≤◌, ◌<◌, ◌≡◌, ◌≢◌, inl, inr, sym, ap, ◌∙◌, true, some, length, get_elem?, ltb,
  ◌==◌, if_holds, Bool-cases, if◌then◌else◌, arith,
}
use cynthia.Base.Word.{wrapping_add}
use cynthia.Base.Machine.{Reach}
use cynthia.Queue.Bounded.{
  nobody, Bounded, machine, one_lap, index_of, unmarked, len, is_empty, is_full, drop_index,
}
use cynthia.Queue.Bounded.Position.{
  encode, index_of-encode, index_of-marked, encode_injective, encode_lap, encode_mono, mod_lt,
  same_residue,
}
use cynthia.Queue.Bounded.Inv.{free, writing, full, reading, Inv, Small}
use cynthia.Queue.Bounded.Finds.{unmarked-tail}
use cynthia.Queue.Bounded.Safety.{Reach-Inv}

ahead : (n h t : ℕ) → 0 < n → h ≤ t → t ≤ h + n → h % n < t % n → t % n - h % n ≡ t - h
ahead n h t p l u g = grind arith

behind : (n h t : ℕ) → 0 < n → h ≤ t → t ≤ h + n → t % n < h % n → n - h % n + t % n ≡ t - h
behind n h t p l u g = grind arith

level : (n h t : ℕ) → 0 < n → h ≤ t → t ≤ h + n → t ≢ h → h % n ≡ t % n → n ≡ t - h
level n h t p l u d g = grind arith

wrapped : (n h i : ℕ) → 0 < n → i < n → n ≤ h % n + i → (h + i) % n ≡ h % n + i - n
wrapped n h i p l g = grind arith

unwrapped : (n h i : ℕ) → 0 < n → h % n + i < n → (h + i) % n ≡ h % n + i
unwrapped n h i p g = grind arith

near_residue : (n a b : ℕ) → a % n ≡ b % n → a < b + n → b < a + n → a ≡ b
near_residue n a b e l u = grind arith

-- Two tests of equalities that follow from each other.
agree : (a b c d : ℕ) → (a ≡ b → c ≡ d) → (c ≡ d → a ≡ b) → (a == b) ≡ (c == d)
agree a b c d f g = elim (Bool-cases (a == b)) [
  | inl e ↦ e ∙ sym (to_test c d (f (of_test a b e)))
  | inr e ↦ elim (Bool-cases (c == d)) [
    | inl h ↦ absurd (ground (arith, e, g (of_test c d h)))
    | inr h ↦ e ∙ sym h
  ]
]
  where
    of_test : (a b : ℕ) → (a == b) ≡ true → a ≡ b
    of_test a b e = ground (arith, e)

    to_test : (a b : ℕ) → a ≡ b → (a == b) ≡ true
    to_test a b e = ground (arith, e)

module _ (cap mark : ℕ) (positive : 0 < cap) (fits : cap < mark) (x : Bounded)
    (r : Reach (machine cap mark) x) (small : Small cap mark x) where
  v : Inv cap mark x
  v = Reach-Inv cap mark positive fits r small

  hix : index_of cap mark x.head ≡ x.pops % cap
  hix = ap (index_of cap mark) v.head ∙ index_of-encode cap mark positive fits x.pops

  tix : index_of cap mark x.tail ≡ length x.accepted % cap
  tix = elim v.tail [
    | inl e ↦ ap (index_of cap mark) e ∙ index_of-encode cap mark positive fits (length x.accepted)
    | inr e ↦ ap (index_of cap mark) e ∙ index_of-marked cap mark positive fits (length x.accepted)
  ]

  tail_word : unmarked cap mark x.tail ≡ encode cap mark (length x.accepted)
  tail_word = unmarked-tail cap mark positive fits x v small

  at_head : unmarked cap mark x.tail ≡ x.head → length x.accepted ≡ x.pops
  at_head e =
      encode_injective cap mark positive fits (length x.accepted) x.pops
        (sym tail_word ∙ e ∙ v.head)

  len_level :
      x.pops % cap ≡ length x.accepted % cap
      → (if unmarked cap mark x.tail == x.head then 0 else cap) ≡ length x.accepted - x.pops
  len_level e =
      if_holds (λ n. n ≡ length x.accepted - x.pops) (unmarked cap mark x.tail == x.head)
        (λ q. omega (arith, at_head (ground (arith, q))))
        (λ q.
          level cap x.pops (length x.accepted) positive v.lower v.upper
            (λ z. absurd (ground (arith, q, tail_word ∙ ap (encode cap mark) z ∙ sym v.head))) e)

  -- In every reachable state before a word wraps round, `len` is the number of values pushed and not
  -- popped.
  pub len_lem : len cap mark x ≡ length x.accepted - x.pops
  unfolding len
  len_lem =
      if_holds (λ n. n ≡ length x.accepted - x.pops)
        (ltb (index_of cap mark x.head) (index_of cap mark x.tail))
        (λ p.
          rw (hix, tix)
            (ahead cap x.pops (length x.accepted) positive v.lower v.upper
              (ground (arith, p, hix, tix))))
        (λ p.
          if_holds (λ n. n ≡ length x.accepted - x.pops)
            (ltb (index_of cap mark x.tail) (index_of cap mark x.head))
            (λ q.
              rw (hix, tix)
                (behind cap x.pops (length x.accepted) positive v.lower v.upper
                  (ground (arith, q, hix, tix))))
            (λ q. len_level (ground (arith, p, q, hix, tix))))

  full_at : wrapping_add x.head (one_lap cap mark) ≡ encode cap mark (x.pops + cap)
  full_at = omega (
    arith,
    v.head,
    encode_lap cap mark positive fits x.pops,
    small,
    encode_mono cap mark positive fits x.pops (length x.accepted) v.lower,
  )

  -- In every reachable state before a word wraps round, `is_empty` says whether as many values were
  -- popped as pushed, and `is_full` whether the capacity is used up.
  pub is_empty-is_full :
      (is_empty cap mark x ≡ (length x.accepted == x.pops))
      × (is_full cap mark x ≡ (x.pops + cap == length x.accepted))
  unfolding is_empty is_full
  is_empty-is_full = (
    agree (unmarked cap mark x.tail) x.head (length x.accepted) x.pops at_head
        (λ e. tail_word ∙ ap (encode cap mark) e ∙ sym v.head),
    agree (wrapping_add x.head (one_lap cap mark)) (unmarked cap mark x.tail) (x.pops + cap)
        (length x.accepted)
        (λ e.
          encode_injective cap mark positive fits (x.pops + cap) (length x.accepted)
            (sym full_at ∙ e ∙ tail_word))
        (λ e. full_at ∙ ap (encode cap mark) e ∙ sym tail_word),
  )

  dropped : (i : ℕ) → i < cap → drop_index cap mark x i ≡ (x.pops + i) % cap
  unfolding drop_index
  dropped i l =
      if_holds (λ n. n ≡ (x.pops + i) % cap) (ltb (index_of cap mark x.head + i) cap)
        (λ p. rw hix (sym (unwrapped cap x.pops i positive (ground (arith, p, hix)))))
        (λ p. rw hix (sym (wrapped cap x.pops i positive l (ground (arith, p, hix)))))

  drops :
      ((j : ℕ) → j < cap → (x.buffer j).owner ≡ nobody)
      → (i : ℕ) → i < len cap mark x
      → (m : ℕ) × ((x.buffer (drop_index cap mark x i)).value ≡ some m)
        × (get_elem? x.accepted (x.pops + i) ≡ some m)
  drops quiet i l =
      let short : i < length x.accepted - x.pops = omega (arith, l, len_lem) in
      let near : i < cap = omega (arith, short, v.upper) in
      let spot : drop_index cap mark x i ≡ (x.pops + i) % cap = dropped i near in
      let inside : drop_index cap mark x i < cap =
        omega (arith, spot, mod_lt cap (x.pops + i) positive) in
      let (k, q, st) = v.slots (drop_index cap mark x i) inside in
      let still = quiet (drop_index cap mark x i) inside in
      elim st [
        | free o w z lo hi ↦ absurd (
            omega (
              arith,
              short,
              lo,
              same_residue cap (x.pops + i) k (sym (q ∙ spot)) (omega (arith, short, lo))
                  (omega (arith, hi)),
            ))
        | writing m o w lo hi g ↦ cc (sym o ∙ still)
        | full m o w z lo hi g ↦
            let same : k ≡ x.pops + i =
              near_residue cap k (x.pops + i) (q ∙ spot) (omega (arith, hi, v.upper))
                (omega (arith, lo, near)) in
            (m, z, ap (get_elem? x.accepted) (sym same) ∙ g)
        | reading m o w z lo hi g ↦ cc (sym o ∙ still)
      ]

  -- In every reachable state before a word wraps round in which no thread is inside a push or a pop,
  -- the destructor makes as many rounds as there are values pushed and not popped, and drops in its
  -- round `i` the `i`-th of these, so that it drops each of them and no slot without a value.
  pub drop_index-value :
      ((j : ℕ) → j < cap → (x.buffer j).owner ≡ nobody)
      → (len cap mark x ≡ length x.accepted - x.pops)
        × ((i : ℕ)
            → i < len cap mark x
            → (m : ℕ) × ((x.buffer (drop_index cap mark x i)).value ≡ some m)
              × (get_elem? x.accepted (x.pops + i) ≡ some m))
  drop_index-value quiet = (len_lem, λ i l. drops quiet i l)
