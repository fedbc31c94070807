-- ===== src/Executor.antt =====
-- cynthia/src/runtime/executor.rs: the executor's queue, its sleeping tickers and the flag that saves
-- needless wake-ups.
pub mod Inv
pub mod Moves
pub mod Steps
pub mod Safety
mod Tests
use cynthia.Base.{
  ℕ, ◌+◌, ◌-◌, Bool, true, false, ◌&&◌, ◌||◌, not, if◌then◌else◌, ltb, ◌==◌, Option, none, some,
  List, [], ◌∷◌, ◌++◌, get_elem?, set,
}
use mathlib.Core.Option
use cynthia.Base.Machine.{Machine}
use cynthia.Sleeper
use cynthia.Sleeper.{Sleeper}

-- Where a ticker stands: its future is not being polled (`parked`), or its poll is before the search
-- of the queue, or has found nothing and is before `sleep`, or has found a `Runnable` and is before
-- `wake`; or the ticker was dropped.
pub data Phase : Type 0 where
  parked searching missed found gone : Phase

pub record Ticker : Type 0 where
  pub sleeping : ℕ
  pub phase : Phase

-- `pending` counts the calls of `notify` before their exchange, `waking` those whose exchange
-- succeeded and that have yet to lock the sleepers.
pub record Executor : Type 0 where
  pub queue : List ℕ
  pub notified : Bool
  pub sleepers : Sleeper
  pub tickers : List Ticker
  pub pending : ℕ
  pub waking : ℕ

unfoldable pub new : Executor
new = record {
  queue = [];
  notified = true;
  sleepers = Sleeper.new;
  tickers = [];
  pending = 0;
  waking = 0;
}

-- The schedule function of a task: a push, and a call of `notify`.
unfoldable pub schedule : ℕ → Executor → Executor
schedule r x = record x { queue = x.queue ++ (r ∷ []); pending = x.pending + 1 }

-- `State::notify` up to its exchange, and the rest of it.
unfoldable pub notify : Executor → Executor
notify x =
    if x.notified
    then record x { pending = x.pending - 1 }
    else record x { notified = true; pending = x.pending - 1; waking = x.waking + 1 }

unfoldable pub wake_one : Executor → Executor
wake_one x = record x { sleepers = (Sleeper.notify x.sleepers).1; waking = x.waking - 1 }

-- What `sleep`, `wake` and the destructor of a ticker do while they hold the sleepers' lock.
unfoldable pub with_sleepers : Sleeper → Executor → Executor
with_sleepers s x = record x { sleepers = s; notified = Sleeper.is_notified s }

abbrev pub at_ticker : ℕ → Ticker → Executor → Executor
at_ticker i t x = record x { tickers = set x.tickers i t }

-- `queue.pop()`.
unfoldable pub search : ℕ → Ticker → Executor → Executor
search i t x = elim x.queue [
  | [] ↦ at_ticker i (record t { phase = missed }) x
  | r ∷ rest ↦ at_ticker i (record t { phase = found }) (record x { queue = rest })
]

module _ (will_wake : ℕ → ℕ → Bool) where
  -- `Ticker::sleep`; after `true` the poll searches once more, after `false` it is `Pending`.
  unfoldable pub sleep : ℕ → ℕ → Ticker → Executor → Executor
  unfolding with_sleepers
  sleep waker i t x =
      if t.sleeping == 0
      then (let (id, s) = Sleeper.insert waker x.sleepers in
          at_ticker i (record { sleeping = id; phase = searching }) (with_sleepers s x))
      else (let (was_notified, s) = Sleeper.update will_wake t.sleeping waker x.sleepers in
          if was_notified
          then at_ticker i (record t { phase = searching }) (with_sleepers s x)
          else at_ticker i (record t { phase = parked }) (record x { sleepers = s }))

-- `Ticker::wake`, and the call of `notify` after it.
unfoldable pub wake : ℕ → Ticker → Executor → Executor
unfolding with_sleepers
wake i t x =
    let x' =
      if t.sleeping == 0 then x else with_sleepers (Sleeper.remove t.sleeping x.sleepers).1 x in
    at_ticker i (record { sleeping = 0; phase = parked }) (record x' { pending = x.pending + 1 })

-- `Drop for Ticker`.
unfoldable pub drop_ticker : ℕ → Ticker → Executor → Executor
unfolding with_sleepers
drop_ticker i t x =
    if t.sleeping == 0
    then at_ticker i (record { sleeping = 0; phase = gone }) x
    else (let (was_notified, s) = Sleeper.remove t.sleeping x.sleepers in
        let x' = with_sleepers s x in
        at_ticker i (record { sleeping = 0; phase = gone })
          (if was_notified then record x' { pending = x.pending + 1 } else x'))

-- `Executor::try_tick`.
unfoldable pub try_tick : Executor → Executor
try_tick x = elim x.queue [ [] ↦ x | r ∷ rest ↦ record x { queue = rest; pending = x.pending + 1 } ]

pub data Action : Type 0 where
  schedules : ℕ → Action
  notifies wakes_one makes_ticker try_ticks : Action
  polls searches wakes drops : ℕ → Action
  sleeps : ℕ → ℕ → Action

abbrev pub same_phase : Phase → Phase → Bool
same_phase parked parked = true
same_phase searching searching = true
same_phase missed missed = true
same_phase found found = true
same_phase gone gone = true
same_phase _ _ = false

abbrev pub is_at : Phase → Option Ticker → Bool
is_at p none = false
is_at p (some t) = same_phase p t.phase

unfoldable pub can : Action → Executor → Bool
can (schedules r) x = true
can notifies x = ltb 0 x.pending
can wakes_one x = ltb 0 x.waking
can makes_ticker x = true
can try_ticks x = true
can (polls i) x = is_at parked (get_elem? x.tickers i)
can (searches i) x = is_at searching (get_elem? x.tickers i)
can (sleeps waker i) x = is_at missed (get_elem? x.tickers i)
can (wakes i) x = is_at found (get_elem? x.tickers i)
can (drops i) x = is_at parked (get_elem? x.tickers i)

module _ (will_wake : ℕ → ℕ → Bool) where
  unfoldable pub act : Action → Executor → Option Executor
  act (schedules r) x = some (schedule r x)
  act notifies x = some (notify x)
  act wakes_one x = some (wake_one x)
  act makes_ticker x =
      some (record x { tickers = x.tickers ++ (record { sleeping = 0; phase = parked } ∷ []) })
  act try_ticks x = some (try_tick x)
  act (polls i) x =
      Option.map (λ t. at_ticker i (record t { phase = searching }) x) (get_elem? x.tickers i)
  act (searches i) x = Option.map (λ t. search i t x) (get_elem? x.tickers i)
  act (sleeps waker i) x = Option.map (λ t. sleep will_wake waker i t x) (get_elem? x.tickers i)
  act (wakes i) x = Option.map (λ t. wake i t x) (get_elem? x.tickers i)
  act (drops i) x = Option.map (λ t. drop_ticker i t x) (get_elem? x.tickers i)

  abbrev pub machine : Machine
  machine = record { State = Executor; Action = Action; first = new; can = can; act = act }
