-- ===== src/Queue/Bounded/Loads.antt =====
-- cynthia/src/platform/queue/bounded.rs: rounds whose loads are made one after another, while other
-- threads go on. A round that goes round, or whose exchange fails, changes nothing of the queue.
use cynthia.Base.{ℕ, ◌+◌, ◌≤◌, ◌<◌, ◌≡◌, inl, inr, sym, ap, ◌∙◌, true, false, length, arith}
use cynthia.Base.Word.{wrapping_add}
use cynthia.Base.Machine.{Reach}
use cynthia.Queue.Bounded.{
  Bounded, machine, one_lap, index_of, is_marked, unmarked, push_claims, push_closed, push_full,
  pop_claims, pop_closed, pop_empty, push_round, pop_round, push_at, pop_at,
}
use cynthia.Queue.Bounded.Position.{
  encode, encode_lap, encode_mono, encode_injective, index_of-encode, is_marked-marked, mod_lt,
}
use cynthia.Queue.Bounded.Inv.{Inv, Small}
use cynthia.Queue.Bounded.Rounds.{round_claims, pop_round_claims}
use cynthia.Queue.Bounded.Finds.{unmarked-tail}
use cynthia.Queue.Bounded.Safety.{Reach-Inv}
use cynthia.Queue.Bounded.Later.{Later}
use cynthia.Queue.Bounded.Onward.{since, since-Later}
use cynthia.Queue.Bounded.Ends.{free_end, full_front}

module _ (cap mark : ℕ) where
  -- What the answers say of the words that were loaded.
  push_said :
      (head tail stamp : ℕ)
      → (push_round cap mark head tail stamp ≡ push_closed → is_marked cap mark tail ≡ true)
        × (push_round cap mark head tail stamp ≡ push_full
            → (is_marked cap mark tail ≡ false) × (wrapping_add head (one_lap cap mark) ≡ tail))
        × (push_round cap mark head tail stamp ≡ push_claims
            → (is_marked cap mark tail ≡ false) × (tail ≡ stamp))
  unfolding push_round
  push_said head tail stamp = ground arith

  pop_said :
      (head tail stamp : ℕ)
      → (pop_round cap mark head tail stamp ≡ pop_claims → head + 1 ≡ stamp)
        × (pop_round cap mark head tail stamp ≡ pop_empty
            → (unmarked cap mark tail ≡ head) × (is_marked cap mark tail ≡ false))
        × (pop_round cap mark head tail stamp ≡ pop_closed
            → (unmarked cap mark tail ≡ head) × (is_marked cap mark tail ≡ true))
  unfolding pop_round
  pop_said head tail stamp = ground arith

  -- A thread has loaded a word in the state `x`, a stamp in the state `y` and comes in the state `z` to
  -- its next load, or to its exchange.
  module _ (positive : 0 < cap) (fits : cap < mark) {x y z : Bounded}
      (r : Reach (machine cap mark) x) (to_stamp : Reach (since cap mark x) y)
      (to_end : Reach (since cap mark y) z) (small : Small cap mark z) where
    at_y : Reach (machine cap mark) y × (Small cap mark y → Later cap mark x y)
    at_y = since-Later cap mark positive fits r to_stamp

    at_z : Reach (machine cap mark) z × (Small cap mark z → Later cap mark y z)
    at_z = since-Later cap mark positive fits at_y.0 to_end

    v : Inv cap mark z
    v = Reach-Inv cap mark positive fits at_z.0 small

    from_y : Later cap mark y z
    from_y = at_z.1 small

    before_wrap : Small cap mark y
    before_wrap =
        let more =
          encode_mono cap mark positive fits (length y.accepted) (length z.accepted)
            from_y.pushed in
        omega (arith, small, more)

    from_x : Later cap mark x y
    from_x = at_y.1 before_wrap

    w : Inv cap mark x
    w =
        let more =
          encode_mono cap mark positive fits (length x.accepted) (length y.accepted)
            from_x.pushed in
        Reach-Inv cap mark positive fits r (omega (arith, before_wrap, more))

    -- The tail of an open queue is the word of the next push.
    open_tail :
        (q : Bounded)
        → Inv cap mark q
        → is_marked cap mark q.tail ≡ false
        → q.tail ≡ encode cap mark (length q.accepted)
    open_tail q inv open_ = elim inv.tail [
      | inl e ↦ e
      | inr e ↦ cc (
          sym open_
          ∙ ap (is_marked cap mark) e
          ∙ is_marked-marked cap mark positive fits (length q.accepted))
    ]

    -- Before a word wraps round, let a round of a push use a `tail` loaded in one state, a stamp loaded
    -- in a later one, and in a third, later still, the `head` it loads or the exchange of `tail`. Pushes
    -- are never behind pops, nor more than the capacity ahead. A round that answers Closed does so of a
    -- closed queue, one that answers Full of a queue that has no room in its last state; and if it goes
    -- on to the exchange and that finds the `tail` that was loaded, the queue has room there and a round
    -- with all its loads in that state would claim the slot too.
    pub push_loads :
        (z.pops ≤ length z.accepted)
        × (length z.accepted ≤ z.pops + cap)
        × (push_round cap mark z.head x.tail (y.buffer (index_of cap mark x.tail)).stamp
              ≡ push_closed
            → is_marked cap mark z.tail ≡ true)
        × (push_round cap mark z.head x.tail (y.buffer (index_of cap mark x.tail)).stamp ≡ push_full
            → length z.accepted ≡ z.pops + cap)
        × (push_round cap mark z.head x.tail (y.buffer (index_of cap mark x.tail)).stamp
              ≡ push_claims
            → z.tail ≡ x.tail
            → (push_at cap mark z ≡ push_claims) × (length z.accepted < z.pops + cap))
    unfolding push_at
    push_loads =
        let (closed, full_, claims) =
          push_said z.head x.tail (y.buffer (index_of cap mark x.tail)).stamp in
        (
          v.lower,
          v.upper,
          λ e. from_y.marked (from_x.marked (closed e)),
          λ e. no_room_left (full_ e),
          λ e same. claimed (claims e) same,
        )
      where
        no_room_left :
            (is_marked cap mark x.tail ≡ false) × (wrapping_add z.head (one_lap cap mark) ≡ x.tail)
            → length z.accepted ≡ z.pops + cap
        no_room_left (open_, e) =
            let lap : wrapping_add z.head (one_lap cap mark) ≡ encode cap mark (z.pops + cap) =
              omega (
                arith,
                v.head,
                encode_lap cap mark positive fits z.pops,
                small,
                encode_mono cap mark positive fits z.pops (length z.accepted) v.lower,
              ) in
            let here : z.pops + cap ≡ length x.accepted =
              encode_injective cap mark positive fits (z.pops + cap) (length x.accepted)
                (sym lap ∙ e ∙ open_tail x w open_) in
            omega (arith, here, v.upper, from_x.pushed, from_y.pushed)

        claimed :
            (is_marked cap mark x.tail ≡ false)
              × (x.tail ≡ (y.buffer (index_of cap mark x.tail)).stamp)
            → z.tail ≡ x.tail
            → (push_at cap mark z ≡ push_claims) × (length z.accepted < z.pops + cap)
        claimed (open_, e) same =
            let at_x = open_tail x w open_ in
            let open_z = ap (is_marked cap mark) same ∙ open_ in
            let i =
              ap (index_of cap mark) at_x
              ∙ index_of-encode cap mark positive fits (length x.accepted) in
            let inside : index_of cap mark x.tail < cap =
              omega (arith, i, mod_lt cap (length x.accepted) positive) in
            let stamp = ap (λ j. (z.buffer (index_of cap mark j)).stamp) same in
            let far : z.tail ≤ (z.buffer (index_of cap mark z.tail)).stamp =
              omega (arith, same, e, stamp, from_y.stamps (index_of cap mark x.tail) inside) in
            let (free_, less) =
              free_end cap mark positive fits z v small (open_tail z v open_z) far in
            (round_claims cap mark z.head z.tail _ open_z free_, less)

    -- The same of a round of a pop, with the `head` loaded in one state, the stamp in a later one, and in
    -- the third the `tail` it loads or the exchange of `head`: it answers Empty or Closed only if no
    -- value is left in the last state, Closed only if the queue is closed then, and Empty only if it is
    -- open; and if it goes on to the exchange and that finds the `head` that was loaded, a value is left
    -- there and a round with all its loads in that state would claim the slot too.
    pub pop_loads :
        (pop_round cap mark x.head z.tail (y.buffer (index_of cap mark x.head)).stamp ≡ pop_empty
          → (length z.accepted ≡ z.pops) × (is_marked cap mark z.tail ≡ false))
        × (pop_round cap mark x.head z.tail (y.buffer (index_of cap mark x.head)).stamp ≡ pop_closed
            → (length z.accepted ≡ z.pops) × (is_marked cap mark z.tail ≡ true))
        × (pop_round cap mark x.head z.tail (y.buffer (index_of cap mark x.head)).stamp ≡ pop_claims
            → z.head ≡ x.head
            → (pop_at cap mark z ≡ pop_claims) × (z.pops < length z.accepted))
    unfolding pop_at
    pop_loads =
        let (claims, empty, closed) =
          pop_said x.head z.tail (y.buffer (index_of cap mark x.head)).stamp in
        (
          λ e. let (at_front, open_) = empty e in (none_left at_front, open_),
          λ e. let (at_front, shut) = closed e in (none_left at_front, shut),
          λ e same. claimed (claims e) same,
        )
      where
        none_left : unmarked cap mark z.tail ≡ x.head → length z.accepted ≡ z.pops
        none_left e =
            let here : length z.accepted ≡ x.pops =
              encode_injective cap mark positive fits (length z.accepted) x.pops
                (sym (unmarked-tail cap mark positive fits z v small) ∙ e ∙ w.head) in
            omega (arith, here, v.lower, from_x.popped, from_y.popped)

        claimed :
            x.head + 1 ≡ (y.buffer (index_of cap mark x.head)).stamp
            → z.head ≡ x.head
            → (pop_at cap mark z ≡ pop_claims) × (z.pops < length z.accepted)
        claimed e same =
            let i = ap (index_of cap mark) w.head ∙ index_of-encode cap mark positive fits x.pops in
            let inside : index_of cap mark x.head < cap =
              omega (arith, i, mod_lt cap x.pops positive) in
            let stamp = ap (λ j. (z.buffer (index_of cap mark j)).stamp) same in
            let far : z.head + 1 ≤ (z.buffer (index_of cap mark z.head)).stamp =
              omega (arith, same, e, stamp, from_y.stamps (index_of cap mark x.head) inside) in
            let (full_, less) = full_front cap mark positive fits z v small far in
            (pop_round_claims cap mark z.head z.tail _ full_, less)
