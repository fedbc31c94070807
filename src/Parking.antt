-- ===== src/Parking.antt =====
-- cynthia/src/platform/parking/parking.rs: a thread that parks, and any number that unpark it.
pub mod Safety
mod Tests
use cynthia.Base.{
  ℕ, ◌+◌, ◌-◌, ◌<◌, ◌≡◌, ◌≢◌, refl, Bool, true, false, ◌&&◌, ◌||◌, not, if◌then◌else◌, ltb, ◌==◌,
  Option, none, some, some_kept, arith,
}
use cynthia.Base.Machine.{Machine, Reach, Keeps, Reach-Keeps}

abbrev pub empty_state : ℕ
empty_state = 0

abbrev pub parked_state : ℕ
parked_state = 1

abbrev pub notified_state : ℕ
notified_state = 2

-- Where the parking thread stands: outside `park`; before it locks; with the lock, before its second
-- exchange; with the lock, before it waits; in the wait; with the lock again after the wait. `timed`
-- says whether the call has a timeout.
pub data Phase : Type 0 where
  outside entering locked parked waiting woken : Phase

-- `signalled` says that the condition variable was notified since the wait began; `notifying` counts
-- the unparkers that found the thread parked and have yet to notify.
pub record Parker : Type 0 where
  pub state : ℕ
  pub phase : Phase
  pub timed : Bool
  pub signalled : Bool
  pub notifying : ℕ

unfoldable pub new : Parker
new = record {
  state = empty_state;
  phase = outside;
  timed = false;
  signalled = false;
  notifying = 0;
}

-- The first exchange of `park`, and the return of a call whose timeout is 0.
unfoldable pub park_begin : Bool → Bool → Parker → Parker
park_begin timed at_once x =
    if x.state == notified_state
    then record x { state = empty_state }
    else (if timed && at_once then x else record x { phase = entering; timed = timed })

-- The second exchange; `none` is the panic at any other state.
unfoldable pub park_locked : Parker → Option Parker
park_locked x =
    if x.state == empty_state
    then some (record x { state = parked_state; phase = parked })
    else (if x.state == notified_state
        then some (record x { state = empty_state; phase = outside })
        else none)

unfoldable pub begin_wait : Parker → Parker
begin_wait x = record x { phase = waiting; signalled = false }

-- After the wait.
unfoldable pub park_woken : Parker → Option Parker
park_woken x =
    if x.timed
    then (if x.state == notified_state || x.state == parked_state
        then some (record x { state = empty_state; phase = outside })
        else none)
    else (if x.state == notified_state
        then some (record x { state = empty_state; phase = outside })
        else some (record x { phase = waiting; signalled = false }))

-- `unpark`: its exchange, and the notification if the thread was parked.
unfoldable pub unpark : Parker → Option Parker
unpark x =
    if x.state == empty_state || x.state == notified_state
    then some (record x { state = notified_state })
    else (if x.state == parked_state
        then some (record x { state = notified_state; notifying = x.notifying + 1 })
        else none)

unfoldable pub notify_one : Parker → Parker
notify_one x = record x { notifying = x.notifying - 1; signalled = true }

pub data Action : Type 0 where
  begins : Bool → Bool → Action
  locks exchanges waits wakes returns unparks notifies : Action

abbrev pub is_at : Phase → Phase → Bool
is_at outside outside = true
is_at entering entering = true
is_at locked locked = true
is_at parked parked = true
is_at waiting waiting = true
is_at woken woken = true
is_at _ _ = false

abbrev pub holds_lock : Phase → Bool
holds_lock p = is_at locked p || is_at parked p || is_at woken p

-- A wait may end at any time.
unfoldable pub can : Action → Parker → Bool
can (begins timed at_once) x = is_at outside x.phase
can locks x = is_at entering x.phase
can exchanges x = is_at locked x.phase
can waits x = is_at parked x.phase
can wakes x = is_at waiting x.phase
can returns x = is_at woken x.phase
can unparks x = true
can notifies x = ltb 0 x.notifying && not (holds_lock x.phase)

unfoldable pub act : Action → Parker → Option Parker
act (begins timed at_once) x = some (park_begin timed at_once x)
act locks x = some (record x { phase = locked })
act exchanges x = park_locked x
act waits x = some (begin_wait x)
act wakes x = some (record x { phase = woken })
act returns x = park_woken x
act unparks x = unpark x
act notifies x = some (notify_one x)

abbrev pub machine : Machine
machine = record { State = Parker; Action = Action; first = new; can = can; act = act }
