-- ===== src/Event.antt =====
-- cynthia/src/platform/event/listener.rs: the listeners of an event, in the order of their arrival.
pub mod Inv
pub mod Rounds
pub mod Steps
pub mod Places
pub mod System
pub mod Safety
mod Tests
use cynthia.Base.{
  ℕ, zero, suc, ◌+◌, ◌-◌, ◌^◌, Bool, true, false, ◌||◌, if◌then◌else◌, ltb, leb, ◌==◌, Option, none,
  some, List, [], ◌∷◌, ◌++◌,
}
use cynthia.Base.Word.{usize_max}

pub data State : Type 0 where
  created : State
  notified : Bool → State
  polling waiting : ℕ → State

abbrev pub is_notified : State → Bool
is_notified (notified additional) = true
is_notified _ = false

-- An entry of the linked list; `id` is its address.
pub record Entry : Type 0 where
  pub id : ℕ
  pub state : State

-- The list under its lock; `entries` from `head` along the `next` pointers. Each new entry has a
-- greater `id` than those before it. `woken` are the tasks and threads woken so far.
pub record Listeners : Type 0 where
  pub entries : List Entry
  pub start : Option ℕ
  pub len : ℕ
  pub notified : ℕ
  pub next_id : ℕ
  pub woken : List ℕ

unfoldable pub new : Listeners
new = record { entries = []; start = none; len = 0; notified = 0; next_id = 0; woken = [] }

abbrev pub first_id : List Entry → Option ℕ
first_id [] = none
first_id (e ∷ l) = some e.id

-- The `next` pointer of an entry.
abbrev pub next_of : ℕ → List Entry → Option ℕ
next_of i [] = none
next_of i (e ∷ l) = if e.id == i then first_id l else next_of i l

abbrev pub state_of : ℕ → List Entry → State
state_of i [] = created
state_of i (e ∷ l) = if e.id == i then e.state else state_of i l

abbrev pub has : ℕ → List Entry → Bool
has i [] = false
has i (e ∷ l) = e.id == i || has i l

abbrev pub set_state : ℕ → State → List Entry → List Entry
set_state i st [] = []
set_state i st (e ∷ l) = if e.id == i then record e { state = st } ∷ l else e ∷ set_state i st l

abbrev pub unlink : ℕ → List Entry → List Entry
unlink i [] = []
unlink i (e ∷ l) = if e.id == i then l else e ∷ unlink i l

-- `List::insert`; the new entry is `next_id`.
unfoldable pub insert : Listeners → Listeners
insert x = record {
  entries = x.entries ++ record { id = x.next_id; state = created } ∷ [];
  start = elim x.start [ none ↦ some x.next_id | some e ↦ some e ];
  len = x.len + 1;
  notified = x.notified;
  next_id = x.next_id + 1;
  woken = x.woken;
}

abbrev pub starts_at : ℕ → Option ℕ → Bool
starts_at i none = false
starts_at i (some e) = e == i

-- `List::remove`, which also gives the state.
unfoldable pub remove : ℕ → Listeners → State × Listeners
remove i x =
    let st = state_of i x.entries in
    (
      st,
      record x {
        entries = unlink i x.entries;
        start = if starts_at i x.start then next_of i x.entries else x.start;
        len = x.len - 1;
        notified = if is_notified st then x.notified - 1 else x.notified;
      },
    )

abbrev pub wake : State → List ℕ → List ℕ
wake created l = l
wake (notified additional) l = l
wake (polling w) l = l ++ w ∷ []
wake (waiting t) l = l ++ t ∷ []

-- A round of the loops of `notify` and `notify_additional`, at the entry `e`.
abbrev pub notify_entry : Bool → ℕ → Listeners → Listeners
notify_entry additional e x = record x {
  entries = set_state e (notified additional) x.entries;
  start = next_of e x.entries;
  notified = x.notified + 1;
  woken = wake (state_of e x.entries) x.woken;
}

abbrev pub at_start : Option ℕ → Listeners → (ℕ → Listeners) → Listeners
at_start none x next = x
at_start (some e) x next = next e

unfoldable pub notify_rounds : Bool → ℕ → Listeners → Listeners
notify_rounds additional zero x = x
notify_rounds additional (suc n) x =
    at_start x.start x (λ e. notify_rounds additional n (notify_entry additional e x))

unfoldable pub notify : ℕ → Listeners → Listeners
unfolding notify_rounds
notify n x = if leb n x.notified then x else notify_rounds false (n - x.notified) x

unfoldable pub notify_additional : ℕ → Listeners → Listeners
unfolding notify_rounds
notify_additional n x = notify_rounds true n x

-- What the guard of the lock stores for `Event::notify` to look at, and those functions of `Event`.
abbrev pub notified_hint : Listeners → ℕ
notified_hint x = if ltb x.notified x.len then x.notified else usize_max

unfoldable pub event_notify : ℕ → Listeners → Listeners
unfolding notify
event_notify n x = if ltb (notified_hint x) n then notify n x else x

unfoldable pub event_notify_additional : ℕ → Listeners → Listeners
unfolding notify_additional
event_notify_additional n x = if ltb (notified_hint x) usize_max then notify_additional n x else x

-- The destructor of a listener hands its notification on.
abbrev pub hand_on : State × Listeners → Listeners
unfolding notify notify_additional
hand_on (notified additional, x) = if additional then notify_additional 1 x else notify 1 x
hand_on (created, x) = x
hand_on (polling w, x) = x
hand_on (waiting t, x) = x

unfoldable pub drop_listener : ℕ → Listeners → Listeners
unfolding remove hand_on notify notify_additional
drop_listener i x = hand_on (remove i x)

-- `EventListener::discard`
unfoldable pub discard : ℕ → Listeners → Bool × Listeners
unfolding remove
discard i x = let (st, x') = remove i x in (is_notified st, x')

module _ (will_wake : ℕ → ℕ → Bool) where
  -- `EventListener::poll`; `none` is the `unreachable!` of a listener that a thread waits on.
  abbrev pub poll_state : ℕ → ℕ → Listeners → State → Option (Bool × Listeners)
  unfolding remove
  poll_state i waker x (notified additional) = some (true, (remove i x).1)
  poll_state i waker x created =
      some (false, record x { entries = set_state i (polling waker) x.entries })
  poll_state i waker x (polling w) = some (
    false,
    record x { entries = set_state i (polling (if will_wake w waker then w else waker)) x.entries },
  )
  poll_state i waker x (waiting t) = none

  unfoldable pub poll : ℕ → ℕ → Listeners → Option (Bool × Listeners)
  unfolding poll_state remove
  poll i waker x = poll_state i waker x (state_of i x.entries)
