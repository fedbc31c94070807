-- ===== src/Task/Tests.antt =====
-- Runs of one task, step by step.
use cynthia.Base.{
  ℕ, ◌+◌, ◌<◌, ◌≡◌, ◌⊎◌, refl, Bool, true, false, not, ◌&&◌, ◌==◌, Option, some, List, [], ◌∷◌,
  ◌++◌,
}
use cynthia.Base.Machine.{Machine, Reach, start, run, run-Reach, after}
use cynthia.Task.Cell.{Cell, Runner, is_absent}
use cynthia.Task.Raw.{
  allocate, drop_ref, poll_pending, wake_by_ref, wake, close_end, drop_runnable, clone_waker,
  drop_waker, poll_ready, run_begin, complete,
}
use cynthia.Task.Word.{is_overflow}
use cynthia.Task.Handle.{drop_task, detach_round, set_canceled}
use cynthia.Task.System.{Action, can, act, touch, machine}
use cynthia.Task.Inv.{tokens}
use cynthia.Task.Safety.{no_fault, reference_counted, wakeup_kept, WillRun}
use cynthia.Task.Detach.{drop_task-total}

-- Wakers by their numbers.
abbrev same : ℕ → ℕ → Bool
same a b = a == b

abbrev life : Machine
life = machine same

-- Opens all that a run of the machine computes with.
runs : List Action → Option Cell
unfolding can act touch run allocate clone_waker is_overflow drop_waker wake wake_by_ref drop_ref
    run_begin close_end poll_ready complete poll_pending drop_runnable set_canceled detach_round
runs steps = run life steps allocate

-- A waker is cloned, the task polled once, and no waker called.
abbrev parked : List Action
parked = Action.clones ∷ Action.begins_run ∷ Action.polls_pending ∷ Action.leaves ∷ []

-- A detached task whose only poll keeps no waker, before and after the end of its run.
abbrev forgotten : List Action
forgotten = Action.detaches ∷ Action.begins_run ∷ Action.polls_pending ∷ []

abbrev finished : List Action
finished = Action.begins_run ∷ Action.polls_ready ∷ Action.completes ∷ Action.leaves ∷ []

parked-Reach : Reach life (after life parked)
unfolding runs
parked-Reach = run-Reach life parked start refl

forgotten-Reach : Reach life (after life forgotten)
unfolding runs
forgotten-Reach = run-Reach life forgotten start refl

freed-Reach : Reach life (after life (forgotten ++ Action.leaves ∷ []))
unfolding runs
freed-Reach = run-Reach life (forgotten ++ Action.leaves ∷ []) start refl

finished-Reach : Reach life (after life finished)
unfolding runs
finished-Reach = run-Reach life finished start refl

no_fault_example : (after life finished).fault ≡ false
no_fault_example = no_fault same finished-Reach

reference_counted_example :
    ((after life parked).word.reference
      ≡ (after life parked).wakers
        + tokens (after life parked).runner
        + (after life parked).leaving)
    × ((after life parked).freed ≡ (
        ((after life parked).wakers
            + tokens (after life parked).runner
            + (after life parked).leaving
          == 0)
        && not (after life parked).handle))
reference_counted_example = reference_counted same parked-Reach

-- The waker is called while the task is polled.
abbrev polled : List Action
polled = Action.clones ∷ Action.begins_run ∷ []

polled-Reach : Reach life (after life polled)
unfolding runs
polled-Reach = run-Reach life polled start refl

wakeup_kept_example :
    ((after life polled).word.scheduled ≡ true → is_absent (after life polled).runner ≡ false)
    × (0 < (after life polled).wakers → WillRun same (wake (after life polled)))
    × ((c' : Cell) → wake_by_ref (after life polled) ≡ some c' → WillRun same c')
unfolding runs
wakeup_kept_example = wakeup_kept same polled-Reach refl

drop_task-total_example :
    (c' : Cell) × (drop_task same (after life parked) ≡ some c')
    × (c'.handle ≡ false)
    × (c'.fault ≡ false)
    × (c'.word.closed ≡ true)
    × ((c'.future ≡ false)
        ⊎ ((c'.runner ≡ Runner.queued)
            × ((run_begin c').future ≡ false)
            × ((run_begin c').runner ≡ Runner.closing))
        ⊎ ((c'.runner ≡ Runner.polling) × ((poll_pending same c').future ≡ false)))
unfolding runs
drop_task-total_example = drop_task-total same parked-Reach refl
