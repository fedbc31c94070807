-- ===== src/Executor/Safety.antt =====
-- What the executor promises, whatever the order of its threads' steps.
use cynthia.Base.{ℕ, ◌<◌, ◌≤◌, ◌≡◌, Bool, true, false, none, length, tally, arith}
use cynthia.Base.Machine.{Reach}
use cynthia.Sleeper
use cynthia.Sleeper.{is_notified}
use cynthia.Executor.{Executor, machine}
use cynthia.Executor.Inv.{is_nil, busy, sleeps_as}
use cynthia.Executor.Steps.{Reach-Inv}

notified-none : (s : Sleeper.Sleeper) → is_notified s ≡ true → (Sleeper.notify s).0 ≡ none
unfolding is_notified Sleeper.notify
notified-none s h = ground arith

module _ (will_wake : ℕ → ℕ → Bool) {x : Executor} (r : Reach (machine will_wake) x) where
  -- No wake-up is lost: if the queue is not empty, no call of `notify` is under way and no ticker is
  -- in a search or before its own call of `notify`, then either no ticker sleeps with its waker
  -- registered, or a ticker was notified that has not come back yet.
  pub no_lost_wakeup :
      is_nil x.queue ≡ false
      → busy x ≡ 0
      → 0 < length x.sleepers.wakers
      → 0 < length x.sleepers.notified
  unfolding is_notified
  no_lost_wakeup some_work quiet asleep =
      let v = Reach-Inv will_wake r in ground (arith, v.awake, v.sleepers.counted)

  -- The flag saves only needless locks: when it is set and no other call of `notify` is between its
  -- exchange and the lock, there is no sleeper to be notified.
  pub flag_saves : x.notified ≡ true → x.waking ≡ 0 → (Sleeper.notify x.sleepers).0 ≡ none
  flag_saves h none_waking =
      let v = Reach-Inv will_wake r in notified-none x.sleepers (ground (arith, v.flag))

  -- No two tickers sleep under one id.
  pub ids_apart : (k : ℕ) → 0 < k → tally (sleeps_as k) x.tickers ≤ 1
  ids_apart k h = let v = Reach-Inv will_wake r in ground (arith, v.owned k h, v.sleepers.once k)
