-- ===== src/Event/Tests.antt =====
-- Two listeners, one of which is notified.
use cynthia.Base.{ℕ, ◌≡◌, refl, Bool, ◌==◌, List, [], ◌∷◌}
use cynthia.Base.Machine.{Machine, Reach, start, run, run-Reach, after}
use cynthia.Event.{
  Listeners, new, insert, notify, notify_rounds, event_notify, drop_listener, remove, poll, hand_on,
  poll_state,
}
use cynthia.Event.Inv.{Inv}
use cynthia.Event.System.{Action, can, act, machine, Reach-Inv}

abbrev same : ℕ → ℕ → Bool
same a b = a == b

abbrev event : Machine
event = machine same

abbrev first_told : List Action
first_told =
    Action.listens ∷ Action.listens ∷ Action.polls 1 7 ∷ Action.polls 0 8 ∷ Action.notifies 1 ∷ []

abbrev state : Listeners
state = after event first_told

state-Reach : Reach event state
unfolding run can act new insert notify notify_rounds event_notify poll poll_state remove
state-Reach = run-Reach event first_told start refl

-- The older listener is woken, and its notification goes to the other one when it is dropped.
dropped : (drop_listener 0 state).woken ≡ 8 ∷ 7 ∷ []
unfolding run can act new insert notify notify_rounds event_notify poll poll_state remove
    drop_listener hand_on
dropped = refl

Reach-Inv_example : Inv state
Reach-Inv_example = Reach-Inv same state-Reach
