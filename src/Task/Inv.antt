-- ===== src/Task/Inv.antt =====
-- What holds of a task between any two steps.
pub mod Wakers
pub mod Runs
pub mod Handles
pub mod Steps
use cynthia.Base.{
  ℕ, ◌+◌, ◌-◌, ◌≡◌, ◌<◌, ◌≤◌, ◌∙◌, Bool, true, false, ◌&&◌, ◌||◌, not, ◌==◌, ltb, ltb→lt, Option,
  none, some, some_kept, if_holds, arith, if◌then◌else◌,
}
use cynthia.Task.Cell.{
  Cell, Runner, absent, queued, polling, finished, closing, is_absent, take, notify, register,
  register_begin, register_end,
}
use cynthia.Task.Raw.{
  allocate, schedule, destroy, drop_output, sub_reference, closing_word, clone_waker, drop_waker,
  wake, wake_by_ref, drop_ref, run_begin, close_end, poll_ready, complete, poll_pending, poll_panic,
  drop_runnable, notify_if,
}
use cynthia.Task.System.{Action, can, act, touch, machine}

abbrev pub tokens : Runner → ℕ
tokens absent = 0
tokens _ = 1

abbrev in_run : Runner → Bool
in_run polling = true
in_run finished = true
in_run _ = false

-- Nothing is said of SCHEDULED in a run, where wakers may set it.
abbrev scheduled_at : Runner → Bool → Bool
scheduled_at absent b = false
scheduled_at queued b = true
scheduled_at closing b = true
scheduled_at _ b = b

abbrev future_at : Runner → Bool → Bool
future_at absent over = not over
future_at queued over = true
future_at polling over = true
future_at _ over = false

abbrev output_at : Runner → Bool → Bool
output_at finished unread = true
output_at _ unread = unread

abbrev is_closing_open : Runner → Bool → Bool
is_closing_open closing closed = not closed
is_closing_open _ _ = false

pub record Inv (c : Cell) : Type 0 where
  pub counted : c.word.reference ≡ c.wakers + tokens c.runner + c.leaving
  pub handled : c.word.task ≡ c.handle
  pub running : c.word.running ≡ in_run c.runner
  pub scheduled : c.word.scheduled ≡ scheduled_at c.runner c.word.scheduled
  pub closed : is_closing_open c.runner c.word.closed ≡ false
  pub incomplete : (not (is_absent c.runner) && c.word.completed) ≡ false
  pub owned : (c.word.completed && not c.word.closed && not c.word.task) ≡ false
  pub future : c.future ≡ future_at c.runner (c.word.completed || c.word.closed)
  pub output : c.output ≡ output_at c.runner (c.word.completed && not c.word.closed)
  pub freed : c.freed ≡ ((c.word.reference == 0) && not c.word.task)
  pub sound : c.fault ≡ false

pub allocate-Inv : Inv allocate
unfolding allocate
allocate-Inv = ground arith

-- A thread that can take a step finds the memory there.
pub can-not-freed : {c : Cell} → Inv c → (a : Action) → can a c ≡ true → c.freed ≡ false
unfolding can
can-not-freed v Action.clones h = ground arith
can-not-freed v a h = ground arith

pub touch_lem : (c : Cell) → c.freed ≡ false → touch c ≡ c
unfolding touch
touch_lem c h = ground arith
