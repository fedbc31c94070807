-- ===== src/Lock/Semaphore.antt =====
-- cynthia/src/platform/lock/semaphore.rs: a counter of permits.
use cynthia.Base.{
  ℕ, ◌+◌, ◌-◌, ◌≤◌, ◌<◌, ◌≡◌, Bool, true, false, if◌then◌else◌, ltb, ◌==◌, Option, some, arith,
}
use cynthia.Base.Word.{usize_max, wrapping_add}
use cynthia.Base.Machine.{Machine, Reach, Reach-Keeps}

-- `guards` counts the permits given out, `notified` the calls of `event.notify(1)`.
pub record Semaphore : Type 0 where
  pub count : ℕ
  pub guards : ℕ
  pub notified : ℕ

unfoldable pub new : ℕ → Semaphore
new n = record { count = n; guards = 0; notified = 0 }

-- `try_acquire` and `try_acquire_arc`: the exchange that ends the loop.
unfoldable pub try_acquire : Semaphore → Semaphore × Bool
try_acquire s =
    if s.count == 0
    then (s, false)
    else (record s { count = s.count - 1; guards = s.guards + 1 }, true)

-- The destructor of a guard.
unfoldable pub release : Semaphore → Semaphore
release s = record s {
  count = wrapping_add s.count 1;
  guards = s.guards - 1;
  notified = s.notified + 1;
}

pub data Action : Type 0 where
  acquires releases : Action

unfoldable pub can : Action → Semaphore → Bool
can acquires s = true
can releases s = ltb 0 s.guards

unfoldable pub act : Action → Semaphore → Option Semaphore
unfolding try_acquire release
act acquires s = some (try_acquire s).0
act releases s = some (release s)

module _ (n : ℕ) where
  abbrev pub machine : Machine
  machine = record { State = Semaphore; Action = Action; first = new n; can = can; act = act }

  pub record Inv (s : Semaphore) : Type 0 where
    pub fits : n ≤ usize_max
    pub permits : s.count + s.guards ≡ n

  new-Inv : n ≤ usize_max → Inv (new n)
  unfolding new
  new-Inv h = ground arith

  act-Inv : (a : Action) (s s' : Semaphore) → Inv s → can a s ≡ true → act a s ≡ some s' → Inv s'
  unfolding can act
  act-Inv acquires s s' v h e = ground arith
  act-Inv releases s s' v h e = ground arith

  pub Reach-Inv : n ≤ usize_max → {s : Semaphore} → Reach machine s → Inv s
  Reach-Inv h = Reach-Keeps machine Inv (record { at_first = new-Inv h; at_step = act-Inv })

  module _ (fits : n ≤ usize_max) {s : Semaphore} (r : Reach machine s) where
    -- Of a semaphore of `n` permits, permits given out and permits left always make `n`; another one
    -- is given exactly if fewer than `n` are out; and a guard that is dropped makes one available and
    -- notifies one waiter.
    pub permits_bound :
        (s.count + s.guards ≡ n)
        × ((try_acquire s).1 ≡ ltb s.guards n)
        × (0 < s.guards
            → ((try_acquire (release s)).1 ≡ true) × ((release s).notified ≡ s.notified + 1))
    unfolding try_acquire release
    permits_bound = (
      (Reach-Inv fits r).permits,
      ground (arith, Reach-Inv fits r),
      λ h. ground (arith, Reach-Inv fits r),
    )
