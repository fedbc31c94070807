-- ===== src/Queue/Tests.antt =====
-- Runs of the queue of one slot.
use cynthia.Base.{◌+◌, ◌<◌, ◌≡◌, ◌⊎◌, refl, true, false, not, some, List, [], ◌∷◌, ◌++◌}
use cynthia.Base.Machine.{Reach, start, run, run-Reach, after}
use cynthia.Queue.{full}
use cynthia.Queue.Fifo
use cynthia.Queue.Fifo.{unpushed}
use cynthia.Queue.Single.{
  Single, Word, word, Action, pushes, writes, ends_push, pops, closes, new, can, act, machine,
  push_try, pop_try, close, begin_push, after_push, write_slot, end_push, begin_pop, after_pop,
  read_slot, end_pop, again,
}
use cynthia.Queue.Single.Safety.{accepted-held, held}
use cynthia.Queue.Single.Refine.{push_answer, pop_answer, content, push_answer-push, pop_answer-pop}

abbrev taking_steps : List Action
taking_steps = pushes 5 ∷ writes ∷ ends_push ∷ pops false ∷ []

abbrev taking : Single
taking = after machine taking_steps

taking-Reach : Reach machine taking
unfolding run can act new push_try pop_try close begin_push after_push write_slot end_push begin_pop
    after_pop read_slot end_pop
taking-Reach = run-Reach machine taking_steps start refl

accepted-held_example : taking.accepted ≡ taking.taken ++ held taking
accepted-held_example = accepted-held taking-Reach

push_answer-push_example :
    (push_answer (push_try 6 taking.state) 6 taking ≡ Fifo.push 6 (content taking))
    ⊎ ((push_answer (push_try 6 taking.state) 6 taking ≡ unpushed (full 6))
        × (0 < taking.readers + taking.left))
push_answer-push_example = push_answer-push taking-Reach 6

abbrev full_closed_steps : List Action
full_closed_steps = pushes 5 ∷ writes ∷ ends_push ∷ closes ∷ []

abbrev full_closed : Single
full_closed = after machine full_closed_steps

full_closed-Reach : Reach machine full_closed
unfolding run can act new push_try pop_try close begin_push after_push write_slot end_push begin_pop
    after_pop read_slot end_pop
full_closed-Reach = run-Reach machine full_closed_steps start refl

pop_answer-pop_example :
    (pop_answer (pop_try (word false true true) full_closed.state) true full_closed
      ≡ some (Fifo.pop (content full_closed)))
    ⊎ ((w : Word) × (pop_try (word false true true) full_closed.state ≡ again w)
        × ((full_closed.state.is_locked ≡ true) ⊎ (full_closed.state.is_closed ≡ not true)))
pop_answer-pop_example = pop_answer-pop full_closed-Reach true
