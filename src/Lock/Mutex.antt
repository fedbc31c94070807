-- ===== src/Lock/Mutex.antt =====
-- cynthia/src/platform/lock/mutex.rs: the asynchronous mutex. Its word is odd while it is held, and
-- counts by twos the tasks that have waited too long.
use cynthia.Base.{
  ℕ, ◌+◌, ◌-◌, ◌*◌, ◌/◌, ◌%◌, ◌≤◌, ◌<◌, ◌≡◌, Bool, true, false, if◌then◌else◌, ltb, ◌==◌, Option,
  none, some, arith,
}
use cynthia.Base.Word.{usize_max, wrapping_add, wrapping_sub}
use cynthia.Base.Machine.{Machine, Reach, Reach-Keeps}

-- `holders` and `starving` count the tasks that are past an acquiring exchange, or past the
-- `fetch_add(2)` of `acquire_slow`; `notified` counts the calls of `lock_ops.notify(1)`.
pub record Mutex : Type 0 where
  pub state : ℕ
  pub holders : ℕ
  pub starving : ℕ
  pub notified : ℕ

unfoldable pub new : Mutex
new = record { state = 0; holders = 0; starving = 0; notified = 0 }

abbrev pub notify : Mutex → Mutex
notify m = record m { notified = m.notified + 1 }

-- `try_lock`, and the first exchange of each round of `acquire_slow`'s first loop.
unfoldable pub try_lock : Mutex → Mutex × Bool
try_lock m =
    if m.state == 0 then (record m { state = 1; holders = m.holders + 1 }, true) else (m, false)

-- The exchange after a notification: a word that is neither 0 nor 1 hands the notification on.
unfoldable pub relock : Mutex → Mutex × Bool
unfolding try_lock
relock m =
    if m.state == 0 then try_lock m else if m.state == 1 then (m, false) else (notify m, false)

-- `fetch_add(2)` when the task has waited for too long. `none` is the abort on overflow.
unfoldable pub starve : Mutex → Option Mutex
starve m =
    if ltb (usize_max / 2) m.state
    then none
    else some (record m { state = wrapping_add m.state 2; starving = m.starving + 1 })

-- The rounds of the second loop: an exchange before waiting, a `fetch_or(1)` after it.
unfoldable pub lock_starving : Mutex → Mutex × Bool
lock_starving m =
    if m.state == 2
    then (record m { state = 3; holders = m.holders + 1 }, true)
    else if m.state % 2 == 1
    then (m, false)
    else (notify m, false)

unfoldable pub grab : Mutex → Mutex × Bool
grab m =
    if m.state % 2 == 0
    then (record m { state = m.state + 1; holders = m.holders + 1 }, true)
    else (m, false)

-- `CallOnDrop` at the end of `acquire_slow`, or when its future is dropped.
unfoldable pub unstarve : Mutex → Mutex
unstarve m = record m { state = wrapping_sub m.state 2; starving = m.starving - 1 }

-- The destructor of a guard.
unfoldable pub unlock : Mutex → Mutex
unlock m = notify (record m { state = wrapping_sub m.state 1; holders = m.holders - 1 })

pub data Action : Type 0 where
  tries relocks starves locks_starving grabs unstarves unlocks : Action

unfoldable pub can : Action → Mutex → Bool
can tries m = true
can relocks m = true
can starves m = true
can locks_starving m = ltb 0 m.starving
can grabs m = ltb 0 m.starving
can unstarves m = ltb 0 m.starving
can unlocks m = ltb 0 m.holders

unfoldable pub act : Action → Mutex → Option Mutex
unfolding try_lock relock starve lock_starving grab unstarve unlock
act tries m = some (try_lock m).0
act relocks m = some (relock m).0
act starves m = starve m
act locks_starving m = some (lock_starving m).0
act grabs m = some (grab m).0
act unstarves m = some (unstarve m)
act unlocks m = some (unlock m)

abbrev pub machine : Machine
machine = record { State = Mutex; Action = Action; first = new; can = can; act = act }

pub record Inv (m : Mutex) : Type 0 where
  pub word : m.state ≡ m.holders + 2 * m.starving
  pub single : m.holders ≤ 1
  pub fits : m.state ≤ usize_max / 2 + 2

new-Inv : Inv new
unfolding new
new-Inv = ground arith

pub act-Inv : (a : Action) (m m' : Mutex) → Inv m → can a m ≡ true → act a m ≡ some m' → Inv m'
unfolding can act
act-Inv tries m m' v h e = ground arith
act-Inv a m m' v h e = ground arith

pub unlock-Inv : {m : Mutex} → Inv m → 0 < m.holders → Inv (unlock m)
unfolding unlock
unlock-Inv v h = ground arith

abbrev pub is_unlock : Action → Bool
is_unlock unlocks = true
is_unlock _ = false

-- Only an unlock takes a holder away.
pub act_acquires :
    (a : Action) (m m' : Mutex) → act a m ≡ some m' → is_unlock a ≡ false → m.holders ≤ m'.holders
unfolding act
act_acquires tries m m' e h = ground arith
act_acquires a m m' e h = ground arith

pub Reach-Inv : {m : Mutex} → Reach machine m → Inv m
Reach-Inv = Reach-Keeps machine Inv (record { at_first = new-Inv; at_step = act-Inv })

module _ {m : Mutex} (r : Reach machine m) where
  -- At most one task holds the mutex, and the word is the number of holders plus twice the number
  -- of starving tasks.
  pub mutual_exclusion : (m.holders ≤ 1) × (m.state ≡ m.holders + 2 * m.starving)
  mutual_exclusion = ((Reach-Inv r).single, (Reach-Inv r).word)

  -- `try_lock` succeeds exactly if nobody holds the mutex and nobody starves, and then the caller
  -- is the only holder.
  pub try_lock_lem :
      ((try_lock m).1 ≡ (m.holders + m.starving == 0))
      × ((try_lock m).1 ≡ true → (try_lock m).0.holders ≡ 1)
  unfolding try_lock
  try_lock_lem = ground (arith, Reach-Inv r)

  -- After an unlock a starving task that grabs gets the mutex, while a newcomer is refused: the
  -- exchange from 0 fails, and hands a notification it took on.
  pub starving_first :
      can Action.unlocks m ≡ true
      → 0 < m.starving
      → ((grab (unlock m)).1 ≡ true)
        × ((try_lock (unlock m)).1 ≡ false)
        × ((relock (unlock m)).0.notified ≡ m.notified + 2)
  unfolding can grab unlock try_lock relock
  starving_first h s = ground (arith, Reach-Inv r)
