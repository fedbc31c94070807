-- ===== src/Task/System.antt =====
-- The steps of every thread that holds a part of one task, interleaved in any order.
use cynthia.Base.{ℕ, Bool, true, false, ◌&&◌, ◌||◌, not, ltb, Option, some}
use cynthia.Base.Machine.{Machine}
use cynthia.Task.Cell.{
  Cell, Runner, queued, polling, finished, closing, is_absent, register_begin, register_end,
}
use cynthia.Task.Raw.{
  allocate, clone_waker, drop_waker, wake, wake_by_ref, drop_ref, run_begin, close_end, poll_ready,
  complete, poll_pending, poll_panic, drop_runnable,
}
use cynthia.Task.Handle.{set_canceled, detach_round, poll_closed, poll_completed, poll_task}

-- The atomic steps: by who holds a waker, by who holds the `Runnable`, by a thread that leaves a
-- run, and by the owner of the handle.
pub data Action : Type 0 where
  clones drops_waker wakes wakes_by_ref : Action
  begins_run drops_runnable ends_close : Action
  polls_ready completes polls_pending polls_panic : Action
  leaves : Action
  cancels detaches registers_end : Action
  registers polls_closed polls_completed polls : ℕ → Action

abbrev is_queued : Runner → Bool
is_queued queued = true
is_queued _ = false

abbrev pub is_polling : Runner → Bool
is_polling polling = true
is_polling _ = false

abbrev is_finished : Runner → Bool
is_finished finished = true
is_finished _ = false

abbrev is_closing : Runner → Bool
is_closing closing = true
is_closing _ = false

-- Whether some thread holds what the step needs, and stands where the step is next.
unfoldable pub can : Action → Cell → Bool
can clones c = ltb 0 c.wakers || not (is_absent c.runner)
can drops_waker c = ltb 0 c.wakers
can wakes c = ltb 0 c.wakers
can wakes_by_ref c = ltb 0 c.wakers || is_polling c.runner
can begins_run c = is_queued c.runner
can drops_runnable c = is_queued c.runner
can ends_close c = is_closing c.runner
can polls_ready c = is_polling c.runner
can completes c = is_finished c.runner
can polls_pending c = is_polling c.runner
can polls_panic c = is_polling c.runner
can leaves c = ltb 0 c.leaving
can cancels c = c.handle
can detaches c = c.handle
can (registers w) c = c.handle
can registers_end c = c.handle && c.word.registering
can (polls_closed w) c = c.handle && c.word.closed
can (polls_completed w) c = c.handle && c.word.completed && not c.word.closed
can (polls w) c = c.handle

-- Any step on a memory that is gone is a fault.
unfoldable pub touch : Cell → Cell
touch c = record c { fault = c.fault || c.freed }

module _ (will_wake : ℕ → ℕ → Bool) where
  unfoldable pub act : Action → Cell → Option Cell
  act clones c = clone_waker c
  act drops_waker c = some (drop_waker c)
  act wakes c = some (wake c)
  act wakes_by_ref c = wake_by_ref c
  act begins_run c = some (run_begin c)
  act drops_runnable c = some (drop_runnable c)
  act ends_close c = some (close_end will_wake c)
  act polls_ready c = some (poll_ready c)
  act completes c = some (complete will_wake c)
  act polls_pending c = some (poll_pending will_wake c)
  act polls_panic c = some (poll_panic will_wake c)
  act leaves c = some (drop_ref c)
  act cancels c = some (set_canceled will_wake c)
  act detaches c = some (detach_round c).0
  act (registers w) c = some (register_begin w c).0
  act registers_end c = some (register_end c)
  act (polls_closed w) c = some (poll_closed will_wake w c).0
  act (polls_completed w) c = some (poll_completed will_wake w c).0
  act (polls w) c = some (poll_task will_wake w c).0

  abbrev pub machine : Machine
  machine = record {
    State = Cell;
    Action = Action;
    first = allocate;
    can = can;
    act = λ a c. act a (touch c);
  }
