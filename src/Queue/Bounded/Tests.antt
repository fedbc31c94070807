-- ===== src/Queue/Bounded/Tests.antt =====
-- Runs of a queue of capacity 2, whose `mark_bit` is 4.
use cynthia.Base.{
  ℕ, zero, suc, ◌+◌, ◌-◌, ◌<◌, ◌≤◌, ◌≡◌, ◌≢◌, ◌⊎◌, refl, true, false, none, some, List, [], ◌∷◌,
  length, get_elem?, arith,
}
use cynthia.Base.Machine.{Reach, start, run, run-Reach, after}
use cynthia.Queue.Bounded.{
  Bounded, Action, pushes, pops, writes, reads, nobody, reader, new, can, act, machine, push_at,
  push_round, pop_at, pop_round, after_push, claim_push, after_pop, claim_pop, finish_push,
  finish_pop, read_value, close, index_of, lap_of, is_marked, unmarked, advance, len, drop_index,
  push_claims, push_closed, push_full, push_retries, pop_retries, pop_claims, pop_empty, pop_closed,
}
use cynthia.Queue.Bounded.Position.{encode, decode}
use cynthia.Queue.Bounded.Inv.{Small}
use cynthia.Queue.Bounded.Safety.{never_faults, pops_in_order}
use cynthia.Queue.Bounded.Onward.{since}
use cynthia.Queue.Bounded.Loads.{push_loads, pop_loads}
use cynthia.Queue.Fifo
use cynthia.Queue.Bounded.Refine.{content, push_answer, pop_answer, rounds-Fifo}
use cynthia.Queue.Bounded.Words.{word_after, word_after_lem}
use cynthia.Queue.Bounded.Length.{len_lem, drop_index-value}

word_after_lem_example :
    (index_of 2 4 (word_after 2 4 5) ≡ 1)
    × (lap_of 2 4 (word_after 2 4 5) ≡ 16)
    × (decode 2 4 (word_after 2 4 5) ≡ 5)
    × (is_marked 2 4 (word_after 2 4 5) ≡ false)
    × (is_marked 2 4 (word_after 2 4 5 + 4) ≡ true)
    × (index_of 2 4 (word_after 2 4 5 + 4) ≡ 1)
    × (unmarked 2 4 (word_after 2 4 5 + 4) ≡ word_after 2 4 5)
unfolding encode
word_after_lem_example = word_after_lem 2 4 (omega arith) (omega arith) 5 (omega arith)

-- Two values are pushed, and a pop is reading the first.
abbrev reading_steps : List Action
reading_steps = pushes 5 ∷ writes 0 ∷ pushes 6 ∷ writes 1 ∷ pops ∷ []

abbrev reading_one : Bounded
reading_one = after (machine 2 4) reading_steps

reading_one-Reach : Reach (machine 2 4) reading_one
unfolding run can act new push_at push_round pop_at pop_round after_push claim_push after_pop
    claim_pop finish_push finish_pop read_value close index_of lap_of is_marked unmarked advance len
    encode
reading_one-Reach = run-Reach (machine 2 4) reading_steps start refl

reading_one-Small : Small 2 4 reading_one
unfolding run can act new push_at push_round pop_at pop_round after_push claim_push after_pop
    claim_pop finish_push finish_pop read_value close index_of lap_of is_marked unmarked advance len
    encode
reading_one-Small = omega arith

never_faults_example : act 2 4 (reads 0) reading_one ≢ none
unfolding run can act new push_at push_round pop_at pop_round after_push claim_push after_pop
    claim_pop finish_push finish_pop read_value close index_of lap_of is_marked unmarked advance len
    encode
never_faults_example =
    never_faults 2 4 (omega arith) (omega arith) reading_one-Reach reading_one-Small (reads 0) refl

pops_in_order_example :
    (reading_one.head ≡ encode 2 4 reading_one.pops)
    × ((j p : ℕ)
        → j < 2
        → (reading_one.buffer j).owner ≡ reader p
        → (v : ℕ) × ((reading_one.buffer j).value ≡ some v)
          × (get_elem? reading_one.accepted (decode 2 4 p) ≡ some v))
pops_in_order_example =
    pops_in_order 2 4 (omega arith) (omega arith) reading_one-Reach reading_one-Small

-- The first value is popped, and the second is left.
abbrev one_left_steps : List Action
one_left_steps = pushes 5 ∷ writes 0 ∷ pushes 6 ∷ writes 1 ∷ pops ∷ reads 0 ∷ []

abbrev one_left : Bounded
one_left = after (machine 2 4) one_left_steps

one_left-Reach : Reach (machine 2 4) one_left
unfolding run can act new push_at push_round pop_at pop_round after_push claim_push after_pop
    claim_pop finish_push finish_pop read_value close index_of lap_of is_marked unmarked advance len
    encode
one_left-Reach = run-Reach (machine 2 4) one_left_steps start refl

one_left-Small : Small 2 4 one_left
unfolding run can act new push_at push_round pop_at pop_round after_push claim_push after_pop
    claim_pop finish_push finish_pop read_value close index_of lap_of is_marked unmarked advance len
    encode
one_left-Small = omega arith

len_lem_example : len 2 4 one_left ≡ length one_left.accepted - one_left.pops
len_lem_example = len_lem 2 4 (omega arith) (omega arith) one_left one_left-Reach one_left-Small

one_left_quiet : (j : ℕ) → j < 2 → (one_left.buffer j).owner ≡ nobody
unfolding run can act new push_at push_round pop_at pop_round after_push claim_push after_pop
    claim_pop finish_push finish_pop read_value close index_of lap_of is_marked unmarked advance len
    encode
one_left_quiet zero p = refl
one_left_quiet (suc zero) p = refl
one_left_quiet (suc (suc j)) p = absurd (omega (arith, p))

drop_index-value_example :
    (len 2 4 one_left ≡ length one_left.accepted - one_left.pops)
    × ((i : ℕ)
        → i < len 2 4 one_left
        → (m : ℕ) × ((one_left.buffer (drop_index 2 4 one_left i)).value ≡ some m)
          × (get_elem? one_left.accepted (one_left.pops + i) ≡ some m))
unfolding run can act new push_at push_round pop_at pop_round after_push claim_push after_pop
    claim_pop finish_push finish_pop read_value close index_of lap_of is_marked unmarked advance len
    encode
drop_index-value_example =
    drop_index-value 2 4 (omega arith) (omega arith) one_left one_left-Reach one_left-Small
      one_left_quiet

-- The queue is filled.
abbrev filled_steps : List Action
filled_steps = pushes 5 ∷ writes 0 ∷ pushes 6 ∷ writes 1 ∷ []

abbrev filled : Bounded
filled = after (machine 2 4) filled_steps

filled-Reach : Reach (machine 2 4) filled
unfolding run can act new push_at push_round pop_at pop_round after_push claim_push after_pop
    claim_pop finish_push finish_pop read_value close index_of lap_of is_marked unmarked advance len
    encode
filled-Reach = run-Reach (machine 2 4) filled_steps start refl

-- A push loads its `tail` and its stamp in that state; then a pop takes the first value and gives its
-- slot back.
then_popped : Reach (since 2 4 filled) one_left
unfolding run can act new push_at push_round pop_at pop_round after_push claim_push after_pop
    claim_pop finish_push finish_pop read_value close index_of lap_of is_marked unmarked advance len
    encode
then_popped = run-Reach (since 2 4 filled) (pops ∷ reads 0 ∷ []) start refl

push_loads_example :
    (one_left.pops ≤ length one_left.accepted)
    × (length one_left.accepted ≤ one_left.pops + 2)
    × (push_round 2 4 one_left.head filled.tail (filled.buffer (index_of 2 4 filled.tail)).stamp
          ≡ push_closed
        → is_marked 2 4 one_left.tail ≡ true)
    × (push_round 2 4 one_left.head filled.tail (filled.buffer (index_of 2 4 filled.tail)).stamp
          ≡ push_full
        → length one_left.accepted ≡ one_left.pops + 2)
    × (push_round 2 4 one_left.head filled.tail (filled.buffer (index_of 2 4 filled.tail)).stamp
          ≡ push_claims
        → one_left.tail ≡ filled.tail
        → (push_at 2 4 one_left ≡ push_claims) × (length one_left.accepted < one_left.pops + 2))
push_loads_example =
    push_loads 2 4 (omega arith) (omega arith) filled-Reach start then_popped one_left-Small

pop_loads_example :
    (pop_round 2 4 filled.head one_left.tail (filled.buffer (index_of 2 4 filled.head)).stamp
        ≡ pop_empty
      → (length one_left.accepted ≡ one_left.pops) × (is_marked 2 4 one_left.tail ≡ false))
    × (pop_round 2 4 filled.head one_left.tail (filled.buffer (index_of 2 4 filled.head)).stamp
          ≡ pop_closed
        → (length one_left.accepted ≡ one_left.pops) × (is_marked 2 4 one_left.tail ≡ true))
    × (pop_round 2 4 filled.head one_left.tail (filled.buffer (index_of 2 4 filled.head)).stamp
          ≡ pop_claims
        → one_left.head ≡ filled.head
        → (pop_at 2 4 one_left ≡ pop_claims) × (one_left.pops < length one_left.accepted))
pop_loads_example =
    pop_loads 2 4 (omega arith) (omega arith) filled-Reach start then_popped one_left-Small

rounds-Fifo_example :
    ((m : ℕ)
      → (push_answer 2 4 (push_at 2 4 one_left) m one_left
          ≡ some (Fifo.push m (content 2 4 one_left)))
        ⊎ ((push_at 2 4 one_left ≡ push_retries)
            × ((one_left.buffer (index_of 2 4 one_left.tail)).owner ≢ nobody)))
    × ((pop_answer 2 4 (pop_at 2 4 one_left) one_left ≡ some (Fifo.pop (content 2 4 one_left)))
        ⊎ ((pop_at 2 4 one_left ≡ pop_retries)
            × ((one_left.buffer (index_of 2 4 one_left.head)).owner ≢ nobody)))
rounds-Fifo_example = rounds-Fifo 2 4 (omega arith) (omega arith) one_left-Reach one_left-Small
