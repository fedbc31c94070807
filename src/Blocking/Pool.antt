-- ===== src/Blocking/Pool.antt =====
-- The thread pool of blocking.rs. Its counts and its queue are behind one mutex, so that what a
-- thread does between taking the lock and giving it up is one step.
pub mod Growth
pub mod Inv
use cynthia.Base.{
  ℕ, zero, suc, ◌+◌, ◌-◌, ◌*◌, ◌≤◌, ◌<◌, ◌≡◌, ◌⊎◌, refl, sym, ap, ◌∙◌, Bool, true, false, ◌&&◌,
  if◌then◌else◌, ltb, ◌==◌, Option, none, some, some_kept, if_holds, List, [], ◌∷◌, ◌++◌, length,
  length-append, arith,
}
use mathlib.Core.List.{append_assoc}
use cynthia.Base.Machine.{Machine, Reach, Reach-Keeps}

-- A `Runnable` is a number. `asleep` counts the threads that were just spawned or wait on the
-- condition variable, `busy` those that run a `Runnable`; `scheduled` and `started` have all the
-- Runnables ever queued, and all that a thread has taken to run.
pub record Pool : Type 0 where
  pub idle_count : ℕ
  pub thread_count : ℕ
  pub queue : List ℕ
  pub asleep : ℕ
  pub busy : ℕ
  pub scheduled : List ℕ
  pub started : List ℕ

unfoldable pub new : Pool
new = record {
  idle_count = 0;
  thread_count = 0;
  queue = [];
  asleep = 0;
  busy = 0;
  scheduled = [];
  started = [];
}

abbrev pub must_grow : Pool → Bool
must_grow p = ltb (p.idle_count * 5) (length p.queue) && ltb p.thread_count 500

-- A round of `grow_pool`.
unfoldable pub spawn : Pool → Pool
spawn p = record p {
  idle_count = p.idle_count + 1;
  thread_count = p.thread_count + 1;
  asleep = p.asleep + 1;
}

unfoldable pub grow_rounds : ℕ → Pool → Pool
unfolding spawn
grow_rounds zero p = p
grow_rounds (suc n) p = let rest = grow_rounds n (spawn p) in if must_grow p then rest else p

-- The loop ends at the latest with the thread 500.
unfoldable pub grow_pool : Pool → Pool
unfolding grow_rounds
grow_pool p = grow_rounds (500 - p.thread_count) p

unfoldable pub schedule : ℕ → Pool → Pool
unfolding grow_pool
schedule r p =
    grow_pool (record p { queue = p.queue ++ (r ∷ []); scheduled = p.scheduled ++ (r ∷ []) })

-- The thread's inner loop, entered with the lock held and the thread not counted as idle: it takes
-- a `Runnable` and grows the pool, or counts itself idle and waits.
unfoldable pub look : Pool → List ℕ → Pool
unfolding grow_pool
look p [] = record p { idle_count = p.idle_count + 1; asleep = p.asleep + 1 }
look p (r ∷ rest) =
    grow_pool (record p { queue = rest; busy = p.busy + 1; started = p.started ++ (r ∷ []) })

-- `cycle_entry` from its start, or after a wait that does not end the thread.
unfoldable pub wake_up : Pool → Pool
unfolding look
wake_up p = look (record p { idle_count = p.idle_count - 1; asleep = p.asleep - 1 }) p.queue

-- After a `Runnable` has run.
unfoldable pub finish : Pool → Pool
unfolding look
finish p = look (record p { busy = p.busy - 1 }) p.queue

-- A wait that has timed out ends the thread if there is nothing to do.
unfoldable pub time_out : Pool → Pool
unfolding wake_up
time_out p =
    if length p.queue == 0
    then record p {
      idle_count = p.idle_count - 1;
      thread_count = p.thread_count - 1;
      asleep = p.asleep - 1;
    }
    else wake_up p

pub data Action : Type 0 where
  schedules : ℕ → Action
  wakes_up finishes times_out : Action

unfoldable pub can : Action → Pool → Bool
can (schedules r) p = true
can wakes_up p = ltb 0 p.asleep
can finishes p = ltb 0 p.busy
can times_out p = ltb 0 p.asleep

unfoldable pub act : Action → Pool → Option Pool
unfolding schedule wake_up finish time_out
act (schedules r) p = some (schedule r p)
act wakes_up p = some (wake_up p)
act finishes p = some (finish p)
act times_out p = some (time_out p)

abbrev pub machine : Machine
machine = record { State = Pool; Action = Action; first = new; can = can; act = act }
