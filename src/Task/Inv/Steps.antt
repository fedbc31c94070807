-- ===== src/Task/Inv/Steps.antt =====
-- Every step of a task keeps its invariant.
use cynthia.Base.{ℕ, ◌≡◌, Bool, true, false, ltb→lt, some, some_kept, arith}
use cynthia.Task.Cell.{Cell}
use cynthia.Task.System.{Action, can, act, touch, machine}
use cynthia.Task.Inv.{Inv, can-not-freed, touch_lem, allocate-Inv}
use cynthia.Task.Inv.Wakers.{clone_waker-Inv, wake_by_ref-Inv, drop_waker-Inv, wake-Inv}
use cynthia.Task.Inv.Runs.{
  run_begin-Inv, drop_runnable-Inv, poll_ready-Inv, drop_ref-Inv, close_end-Inv, complete-Inv,
  poll_pending-Inv, poll_panic-Inv,
}
use cynthia.Task.Inv.Handles.{
  set_canceled-Inv, detach_round-Inv, register_begin-Inv, register_end-Inv, poll_closed-Inv,
  poll_completed-Inv, poll_task-Inv,
}
use cynthia.Base.Machine.{Reach, Reach-Keeps}

can_complete :
    (w : ℕ) (c : Cell)
    → can (Action.polls_completed w) c ≡ true
    → (c.handle ≡ true) × (c.word.completed ≡ true) × (c.word.closed ≡ false)
unfolding can
can_complete w c h = ground arith

open_step :
    (will_wake : ℕ → ℕ → Bool) (a : Action) {c c' : Cell}
    → Inv c
    → can a c ≡ true
    → act will_wake a c ≡ some c'
    → Inv c'
unfolding act can
open_step s Action.clones v h e = clone_waker-Inv v h e
open_step s Action.wakes_by_ref v h e = wake_by_ref-Inv v h e
open_step s Action.drops_waker v h e = some_kept Inv _ e (drop_waker-Inv v (ltb→lt _ _ h))
open_step s Action.wakes v h e = some_kept Inv _ e (wake-Inv v (ltb→lt _ _ h))
open_step s Action.begins_run v h e = some_kept Inv _ e (run_begin-Inv v h)
open_step s Action.drops_runnable v h e = some_kept Inv _ e (drop_runnable-Inv v h)
open_step s Action.ends_close v h e = some_kept Inv _ e (close_end-Inv s v h)
open_step s Action.polls_ready v h e = some_kept Inv _ e (poll_ready-Inv v h)
open_step s Action.completes v h e = some_kept Inv _ e (complete-Inv s v h)
open_step s Action.polls_pending v h e = some_kept Inv _ e (poll_pending-Inv s v h)
open_step s Action.polls_panic v h e = some_kept Inv _ e (poll_panic-Inv s v h)
open_step s Action.leaves v h e = some_kept Inv _ e (drop_ref-Inv v h)
open_step s Action.cancels v h e = some_kept Inv _ e (set_canceled-Inv s v h)
open_step s Action.detaches v h e = some_kept Inv _ e (detach_round-Inv v h)
open_step s (Action.registers w) v h e = some_kept Inv _ e (register_begin-Inv v w)
open_step s Action.registers_end v h e = some_kept Inv _ e (register_end-Inv v)
open_step s (Action.polls_closed w) v h e = some_kept Inv _ e (poll_closed-Inv s v w)
open_step s (Action.polls_completed w) {c} v h e =
    let (held, done, unread) = can_complete w c h in
    some_kept Inv _ e (poll_completed-Inv s v w held done unread)
open_step s (Action.polls w) v h e = some_kept Inv _ e (poll_task-Inv s w v h)

-- The memory is there, so that touching it changes nothing.
act-Inv :
    (will_wake : ℕ → ℕ → Bool) (a : Action) {c c' : Cell}
    → Inv c
    → can a c ≡ true
    → act will_wake a (touch c) ≡ some c'
    → Inv c'
act-Inv s a {c} v h e = open_step s a v h (rw (touch_lem c (can-not-freed v a h)) at e)

pub Reach-Inv : (will_wake : ℕ → ℕ → Bool) {c : Cell} → Reach (machine will_wake) c → Inv c
Reach-Inv will_wake =
    Reach-Keeps (machine will_wake) Inv
      (record { at_first = allocate-Inv; at_step = λ a c c' v h e. act-Inv will_wake a v h e })
