-- ===== src/Task/Inv/Runs.antt =====
-- The steps of the `Runnable`, and of the threads that run it, keep the invariant of a task.
use cynthia.Base.{ℕ, ◌≡◌, Bool, true, arith}
use cynthia.Task.Cell.{Cell}
use cynthia.Task.Raw.{
  drop_ref, run_begin, close_end, poll_ready, complete, poll_pending, poll_panic, drop_runnable,
}
use cynthia.Task.System.{Action, can}
use cynthia.Task.Inv.{Inv}

module _ {c : Cell} (v : Inv c) where
  pub run_begin-Inv : can Action.begins_run c ≡ true → Inv (run_begin c)
  unfolding run_begin can
  run_begin-Inv h = ground arith

  pub drop_runnable-Inv : can Action.drops_runnable c ≡ true → Inv (drop_runnable c)
  unfolding drop_runnable can
  drop_runnable-Inv h = ground arith

  pub poll_ready-Inv : can Action.polls_ready c ≡ true → Inv (poll_ready c)
  unfolding poll_ready can
  poll_ready-Inv h = ground arith

  pub drop_ref-Inv : can Action.leaves c ≡ true → Inv (drop_ref c)
  unfolding drop_ref can
  drop_ref-Inv h = ground arith

module _ (will_wake : ℕ → ℕ → Bool) {c : Cell} (v : Inv c) where
  pub close_end-Inv : can Action.ends_close c ≡ true → Inv (close_end will_wake c)
  unfolding close_end can
  close_end-Inv h = ground arith

  pub complete-Inv : can Action.completes c ≡ true → Inv (complete will_wake c)
  unfolding complete can
  complete-Inv h = ground arith

  pub poll_pending-Inv : can Action.polls_pending c ≡ true → Inv (poll_pending will_wake c)
  unfolding poll_pending can
  poll_pending-Inv h = ground arith

  pub poll_panic-Inv : can Action.polls_panic c ≡ true → Inv (poll_panic will_wake c)
  unfolding poll_panic can
  poll_panic-Inv h = ground arith
