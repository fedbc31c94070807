-- ===== src/Task/Safety.antt =====
-- What the life of a task guarantees, whatever the order of the threads' steps.
use cynthia.Base.{
  ℕ, ◌+◌, ◌<◌, ◌≡◌, ◌⊎◌, refl, Bool, true, false, ◌&&◌, ◌||◌, not, ◌==◌, some, arith,
}
use cynthia.Base.Machine.{Reach}
use cynthia.Task.Cell.{Cell, Runner, absent, queued, polling, finished, closing, is_absent}
use cynthia.Task.Raw.{drop_waker, sub_reference, drop_ref, poll_pending, wake, wake_by_ref}
use cynthia.Task.System.{Action, can, machine, is_polling}
use cynthia.Task.Inv.{tokens, can-not-freed}
use cynthia.Task.Inv.Steps.{Reach-Inv}

-- Nothing keeps the task from being run (again).
module _ (will_wake : ℕ → ℕ → Bool) where
  abbrev pub WillRun : Cell → Type 0
  WillRun c =
      (c.word.scheduled ≡ true)
      × (is_absent c.runner ≡ false)
      × ((is_polling c.runner ≡ false) ⊎ ((poll_pending will_wake c).runner ≡ queued))

module _ (will_wake : ℕ → ℕ → Bool) {c : Cell} (r : Reach (machine will_wake) c) where
  -- No reachable state has gone through an undefined access: no step of any thread touched freed
  -- memory, dropped or polled a future that was gone, read or dropped an output that was not
  -- there, freed the task twice, made a second `Runnable` beside the first, or took the reference
  -- count below zero.
  pub no_fault : c.fault ≡ false
  no_fault = (Reach-Inv will_wake r).sound

  -- Whoever can take a step finds the memory of the task still there.
  pub no_use_after_free : (a : Action) → can a c ≡ true → c.freed ≡ false
  no_use_after_free a h = can-not-freed (Reach-Inv will_wake r) a h

  -- The reference count is the number of wakers, plus one for a `Runnable`, plus one for each
  -- thread that leaves a run; and the memory is free exactly when that number is 0 and the handle
  -- is gone.
  pub reference_counted :
      (c.word.reference ≡ c.wakers + tokens c.runner + c.leaving)
      × (c.freed ≡ ((c.wakers + tokens c.runner + c.leaving == 0) && not c.handle))
  reference_counted = ground (arith, Reach-Inv will_wake r)

  -- When the memory is freed no output is left in it, and the future is left in it exactly if the
  -- task had neither completed nor been closed.
  pub freed-contents :
      c.freed ≡ true → (c.output ≡ false) × (c.future ≡ not (c.word.completed || c.word.closed))
  freed-contents h = ground (arith, Reach-Inv will_wake r)

  by_value : (c.word.completed || c.word.closed) ≡ false → 0 < c.wakers → WillRun will_wake (wake c)
  unfolding wake drop_waker poll_pending sub_reference
  by_value h held = at_runner c.runner refl
    where
      at_runner : (q : Runner) → c.runner ≡ q → WillRun will_wake (wake c)
      at_runner absent q = ground (arith, Reach-Inv will_wake r)
      at_runner queued q = ground (arith, Reach-Inv will_wake r)
      at_runner polling q = ground (arith, Reach-Inv will_wake r)
      at_runner finished q = ground (arith, Reach-Inv will_wake r)
      at_runner closing q = ground (arith, Reach-Inv will_wake r)

  by_reference :
      (c' : Cell)
      → wake_by_ref c ≡ some c'
      → (c.word.completed || c.word.closed) ≡ false
      → WillRun will_wake c'
  unfolding wake_by_ref poll_pending
  by_reference c' e h = ground (arith, Reach-Inv will_wake r)

  -- A task that is to be run (SCHEDULED) has a `Runnable`. And a waker called on a task that is
  -- neither completed nor closed, by value or by reference, whatever the task is doing, leaves it
  -- to be run: SCHEDULED, with a `Runnable`; and if that was being polled when the waker was called,
  -- it is queued again when `poll` returns `Pending`.
  pub wakeup_kept :
      (c.word.completed || c.word.closed) ≡ false
      → (c.word.scheduled ≡ true → is_absent c.runner ≡ false)
        × (0 < c.wakers → WillRun will_wake (wake c))
        × ((c' : Cell) → wake_by_ref c ≡ some c' → WillRun will_wake c')
  wakeup_kept h =
      (λ s. ground (arith, Reach-Inv will_wake r), by_value h, λ c' e. by_reference c' e h)

  -- A waker called by reference on a task that is neither completed nor closed leaves it
  -- SCHEDULED, with a `Runnable`; if there was none, the new one is queued with a reference of its
  -- own.
  pub wake_by_ref-schedules :
      {c' : Cell}
      → wake_by_ref c ≡ some c'
      → (c.word.completed || c.word.closed) ≡ false
      → (c'.word.scheduled ≡ true)
        × (is_absent c'.runner ≡ false)
        × (is_absent c.runner ≡ true
            → (c'.runner ≡ queued) × (c'.word.reference ≡ c.word.reference + 1))
  unfolding wake_by_ref
  wake_by_ref-schedules e h = ground (arith, Reach-Inv will_wake r)

  -- The last reference of a run whose task is detached, open and wanted by no waker frees the
  -- memory with the future still in it: its destructor never runs.
  pub drop_ref-leaks :
      c.word.reference ≡ 1
      → c.handle ≡ false
      → (c.word.completed || c.word.closed) ≡ false
      → can Action.leaves c ≡ true
      → ((drop_ref c).freed ≡ true) × ((drop_ref c).future ≡ true)
  unfolding can drop_ref
  drop_ref-leaks one gone unclosed h = ground (arith, Reach-Inv will_wake r)
