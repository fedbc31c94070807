-- ===== src/Event/System.antt =====
-- cynthia/src/platform/event/listener.rs: any number of listeners and notifications, in any order.
use cynthia.Base.{
  ℕ, Bool, true, false, ◌&&◌, not, if◌then◌else◌, ◌≡◌, refl, ap, subst, Option, some, some_eq, [],
  arith,
}
use mathlib.Core.Option
use cynthia.Base.Machine.{Machine, Reach, Reach-Keeps}
use cynthia.Event.{
  State, created, notified, polling, waiting, is_notified, Listeners, new, insert, remove,
  notify_additional, event_notify, event_notify_additional, drop_listener, poll, poll_state,
  state_of, set_state, has,
}
use cynthia.Event.Inv.{Inv}
use cynthia.Event.Steps.{insert-Inv, notify-Inv, notify_rounds-Inv}
use cynthia.Event.Places.{remove-Inv, drop-Inv, set-Inv}

-- `waits i t` is the start of `wait_internal`, `wakes i` a round of its loop, and `gives_up i` the
-- deadline.
pub data Action : Type 0 where
  listens : Action
  notifies notifies_additional drops discards wakes gives_up : ℕ → Action
  polls waits : ℕ → ℕ → Action

abbrev pub is_waiting : State → Bool
is_waiting (waiting t) = true
is_waiting _ = false

unfoldable pub can : Action → Listeners → Bool
can listens x = true
can (notifies n) x = true
can (notifies_additional n) x = true
can (drops i) x = has i x.entries
can (discards i) x = has i x.entries
can (wakes i) x = has i x.entries
can (gives_up i) x = has i x.entries
can (polls i waker) x = has i x.entries && not (is_waiting (state_of i x.entries))
can (waits i t) x = has i x.entries

unfoldable pub wait_begin : ℕ → ℕ → Listeners → Listeners
unfolding remove
wait_begin i t x =
    if is_notified (state_of i x.entries)
    then (remove i x).1
    else record x { entries = set_state i (waiting t) x.entries }

unfoldable pub wait_round : ℕ → Listeners → Listeners
unfolding remove
wait_round i x = if is_notified (state_of i x.entries) then (remove i x).1 else x

if-Inv :
    (c : Bool) {x y : Listeners}
    → (c ≡ true → Inv x)
    → (c ≡ false → Inv y)
    → Inv (if c then x else y)
if-Inv true v w = v refl
if-Inv false v w = w refl

module _ (will_wake : ℕ → ℕ → Bool) where
  unfoldable pub act : Action → Listeners → Option Listeners
  unfolding wait_begin wait_round
  act listens x = some (insert x)
  act (notifies n) x = some (event_notify n x)
  act (notifies_additional n) x = some (event_notify_additional n x)
  act (drops i) x = some (drop_listener i x)
  act (discards i) x = some (remove i x).1
  act (wakes i) x = some (wait_round i x)
  act (gives_up i) x = some (remove i x).1
  act (polls i waker) x = Option.map (λ r. r.1) (poll will_wake i waker x)
  act (waits i t) x = some (wait_begin i t x)

  abbrev pub machine : Machine
  machine = record { State = Listeners; Action = Action; first = new; can = can; act = act }

  new-Inv : Inv new
  unfolding new
  new-Inv = record {
    done = [];
    waits = [];
    same = refl;
    all_notified = tt;
    none_notified = tt;
    ascends = omega arith;
  }

  poll-Inv :
      (i waker : ℕ) {x x' : Listeners} (st : State)
      → Inv x
      → has i x.entries ≡ true
      → state_of i x.entries ≡ st
      → Option.map (λ r. r.1) (poll_state will_wake i waker x st) ≡ some x'
      → Inv x'
  unfolding poll_state
  poll-Inv i waker (notified additional) v h s e = subst Inv (some_eq e) (remove-Inv i v h)
  poll-Inv i waker created v h s e =
      subst Inv (some_eq e) (set-Inv i (polling waker) refl v h (ap is_notified s))
  poll-Inv i waker (polling w) v h s e =
      subst Inv (some_eq e) (set-Inv i (polling _) refl v h (ap is_notified s))
  poll-Inv i waker (waiting t) v h s e = absurd (cc e)

  act-Inv : (a : Action) (x x' : Listeners) → Inv x → can a x ≡ true → act a x ≡ some x' → Inv x'
  unfolding act can wait_begin wait_round event_notify event_notify_additional notify_additional
      poll
  act-Inv listens x x' v h e = subst Inv (some_eq e) (insert-Inv v)
  act-Inv (notifies n) x x' v h e = subst Inv (some_eq e) (if-Inv _ (λ _. notify-Inv n v) (λ _. v))
  act-Inv (notifies_additional n) x x' v h e =
      subst Inv (some_eq e) (if-Inv _ (λ _. notify_rounds-Inv true n v) (λ _. v))
  act-Inv (drops i) x x' v h e = subst Inv (some_eq e) (drop-Inv i v h)
  act-Inv (discards i) x x' v h e = subst Inv (some_eq e) (remove-Inv i v h)
  act-Inv (gives_up i) x x' v h e = subst Inv (some_eq e) (remove-Inv i v h)
  act-Inv (wakes i) x x' v h e = subst Inv (some_eq e) (if-Inv _ (λ _. remove-Inv i v h) (λ _. v))
  act-Inv (polls i waker) x x' v h e =
      poll-Inv i waker (state_of i x.entries) v (ground (arith, h)) refl e
  act-Inv (waits i t) x x' v h e =
      subst Inv (some_eq e)
        (if-Inv _ (λ _. remove-Inv i v h) (λ is. set-Inv i (waiting t) refl v h is))

  -- In every reachable state the list is in order: the notified listeners are those that came
  -- first, `start` stands at the first of the others, and the counts are right.
  pub Reach-Inv : {x : Listeners} → Reach machine x → Inv x
  Reach-Inv = Reach-Keeps machine Inv (record { at_first = new-Inv; at_step = act-Inv })
