-- ===== src/Queue/Bounded/Rounds.antt =====
-- cynthia/src/platform/queue/bounded.rs: what a round of `push` or `pop` finds.
use cynthia.Base.{ℕ, ◌+◌, ◌<◌, ◌≡◌, ◌≢◌, false, none, some, length, get_elem?, if◌then◌else◌, arith}
use cynthia.Base.Word.{wrapping_add}
use cynthia.Queue.Bounded.{
  nobody, Bounded, one_lap, index_of, is_marked, unmarked, push_round, pop_round, push_claims,
  push_full, push_retries, pop_claims, pop_closed, pop_empty, pop_retries, push_at, pop_at,
}
use cynthia.Queue.Bounded.Position.{encode}

module _ (cap mark : ℕ) where
  -- The rounds, by the tests that they make.
  module _ (head tail stamp : ℕ) (open_ : is_marked cap mark tail ≡ false) where
    pub round_claims : tail ≡ stamp → push_round cap mark head tail stamp ≡ push_claims
    unfolding push_round
    round_claims e = ground (arith, open_, e)

    pub round_full :
        tail ≢ stamp
        → wrapping_add stamp (one_lap cap mark) ≡ tail + 1
        → wrapping_add head (one_lap cap mark) ≡ tail
        → push_round cap mark head tail stamp ≡ push_full
    unfolding push_round
    round_full n e f = ground (arith, open_, n, e, f)

    pub round_behind :
        tail ≢ stamp
        → wrapping_add stamp (one_lap cap mark) ≡ tail + 1
        → wrapping_add head (one_lap cap mark) ≢ tail
        → push_round cap mark head tail stamp ≡ push_retries
    unfolding push_round
    round_behind n e f = ground (arith, open_, n, e, f)

    pub round_busy :
        tail ≢ stamp
        → wrapping_add stamp (one_lap cap mark) ≢ tail + 1
        → push_round cap mark head tail stamp ≡ push_retries
    unfolding push_round
    round_busy n e = ground (arith, open_, n, e)

  module _ (head tail stamp : ℕ) where
    pub pop_round_claims : head + 1 ≡ stamp → pop_round cap mark head tail stamp ≡ pop_claims
    unfolding pop_round
    pop_round_claims e = ground (arith, e)

    pub pop_round_empty :
        head + 1 ≢ stamp
        → stamp ≡ head
        → unmarked cap mark tail ≡ head
        → pop_round cap mark head tail stamp
          ≡ (if is_marked cap mark tail then pop_closed else pop_empty)
    unfolding pop_round
    pop_round_empty n e f = ground (arith, n, e, f)

    pub pop_round_behind :
        head + 1 ≢ stamp
        → stamp ≡ head
        → unmarked cap mark tail ≢ head
        → pop_round cap mark head tail stamp ≡ pop_retries
    unfolding pop_round
    pop_round_behind n e f = ground (arith, n, e, f)

    pub pop_round_busy :
        head + 1 ≢ stamp → stamp ≢ head → pop_round cap mark head tail stamp ≡ pop_retries
    unfolding pop_round
    pop_round_busy n e = ground (arith, n, e)

  -- What a push finds at the end of the queue.
  pub data PushFinds (x : Bounded) : Type 0 where
    room :
        push_at cap mark x ≡ push_claims
        → (x.buffer (index_of cap mark x.tail)).owner ≡ nobody
        → (x.buffer (index_of cap mark x.tail)).stamp ≡ encode cap mark (length x.accepted)
        → (x.buffer (index_of cap mark x.tail)).value ≡ none
        → length x.accepted < x.pops + cap
        → PushFinds x
    no_room : push_at cap mark x ≡ push_full → length x.accepted ≡ x.pops + cap → PushFinds x
    push_busy :
        push_at cap mark x ≡ push_retries
        → (x.buffer (index_of cap mark x.tail)).owner ≢ nobody
        → PushFinds x

  -- What a pop finds at the front.
  pub data PopFinds (x : Bounded) : Type 0 where
    message :
        (v : ℕ)
        → pop_at cap mark x ≡ pop_claims
        → (x.buffer (index_of cap mark x.head)).owner ≡ nobody
        → (x.buffer (index_of cap mark x.head)).stamp ≡ encode cap mark x.pops + 1
        → (x.buffer (index_of cap mark x.head)).value ≡ some v
        → x.pops < length x.accepted
        → get_elem? x.accepted x.pops ≡ some v
        → PopFinds x
    no_message :
        pop_at cap mark x ≡ (if is_marked cap mark x.tail then pop_closed else pop_empty)
        → length x.accepted ≡ x.pops
        → PopFinds x
    pop_busy :
        pop_at cap mark x ≡ pop_retries
        → (x.buffer (index_of cap mark x.head)).owner ≢ nobody
        → PopFinds x
