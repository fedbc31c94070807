-- ===== src/Lock/RwLock.antt =====
-- cynthia/src/platform/lock/rwlock.rs: the readers-writer lock. Its word is odd while a writer holds
-- or awaits the lock, and counts by twos the readers, the upgradable one included.
pub mod Inv
pub mod Safety
use cynthia.Base.{
  ℕ, ◌+◌, ◌-◌, ◌%◌, ◌<◌, Bool, true, false, ◌&&◌, not, if◌then◌else◌, ltb, ◌==◌, Option, none, some,
}
use mathlib.Core.Option
use cynthia.Base.Word.{isize_max, wrapping_add, wrapping_sub}
use cynthia.Base.Machine.{Machine}
use cynthia.Lock.Mutex
use cynthia.Lock.Mutex.{Mutex}

-- The counts are of the tasks that hold a guard of each kind, or stand before one: `claims` hold the
-- mutex alone, `checked` have passed the overflow test of an upgradable read, `waiting` have set
-- the writer's bit and wait for the readers to leave. The last two count notifications.
pub record RwLock : Type 0 where
  pub mutex : Mutex
  pub state : ℕ
  pub claims : ℕ
  pub checked : ℕ
  pub readers : ℕ
  pub upgradable : ℕ
  pub waiting : ℕ
  pub writers : ℕ
  pub no_readers : ℕ
  pub no_writer : ℕ

unfoldable pub new : RwLock
unfolding Mutex.new
new = record {
  mutex = Mutex.new;
  state = 0;
  claims = 0;
  checked = 0;
  readers = 0;
  upgradable = 0;
  waiting = 0;
  writers = 0;
  no_readers = 0;
  no_writer = 0;
}

abbrev pub has_writer : ℕ → Bool
has_writer state = state % 2 == 1

-- `try_read`, and a round of `read`. `none` is the abort on overflow.
unfoldable pub try_read : RwLock → Option (RwLock × Bool)
try_read l =
    if has_writer l.state
    then some (l, false)
    else if ltb isize_max l.state
    then none
    else some (record l { state = l.state + 2; readers = l.readers + 1 }, true)

-- A reader that was notified notifies the next one.
unfoldable pub pass_on : RwLock → RwLock
pass_on l = record l { no_writer = l.no_writer + 1 }

-- The mutex's own steps; whoever acquires it has a claim.
unfoldable pub use_mutex : Mutex.Action → RwLock → Option RwLock
use_mutex a l =
    Option.map (λ m. record l { mutex = m; claims = l.claims + (m.holders - l.mutex.holders) })
      (Mutex.act a l.mutex)

unfoldable pub unlock : RwLock → RwLock
unlock l = record l { mutex = Mutex.unlock l.mutex; claims = l.claims - 1 }

-- `try_upgradable_read` and `upgradable_read`, from the load of the word on.
unfoldable pub check_upgradable : RwLock → Option RwLock
check_upgradable l =
    if ltb isize_max l.state
    then none
    else some (record l { claims = l.claims - 1; checked = l.checked + 1 })

unfoldable pub upgradable_read : RwLock → RwLock
upgradable_read l = record l {
  state = l.state + 2;
  checked = l.checked - 1;
  upgradable = l.upgradable + 1;
}

-- `try_write`, after its `try_lock`; refused, the claim is given up by `unlock`.
unfoldable pub try_write : RwLock → RwLock × Bool
try_write l =
    if l.state == 0
    then (record l { state = 1; claims = l.claims - 1; writers = l.writers + 1 }, true)
    else (l, false)

-- `write`: the `fetch_or`, and the loop's test when it ends the loop.
unfoldable pub write : RwLock → RwLock
write l = record l {
  state = l.state - l.state % 2 + 1;
  claims = l.claims - 1;
  waiting = l.waiting + 1;
}

unfoldable pub grant : RwLock → RwLock × Bool
grant l =
    if l.state == 1
    then (record l { waiting = l.waiting - 1; writers = l.writers + 1 }, true)
    else (l, false)

-- `Drop for RwLockReadGuard`.
unfoldable pub drop_reader : RwLock → RwLock
drop_reader l = record l {
  state = wrapping_sub l.state 2;
  no_readers = l.no_readers + (if l.state - l.state % 2 == 2 then 1 else 0);
}

unfoldable pub drop_read : RwLock → RwLock
unfolding drop_reader
drop_read l = drop_reader (record l { readers = l.readers - 1 })

-- The fields of an upgradable guard: the reader, then the mutex's guard.
unfoldable pub drop_upgradable : RwLock → RwLock
unfolding drop_reader
drop_upgradable l = drop_reader (record l { upgradable = l.upgradable - 1; claims = l.claims + 1 })

-- `Drop for RwLockWriteGuardInner`, of a writer or of one that still waits.
unfoldable pub drop_writer : RwLock → RwLock
drop_writer l = record l { state = l.state - l.state % 2; no_writer = l.no_writer + 1 }

unfoldable pub drop_write : RwLock → RwLock
unfolding drop_writer
drop_write l = drop_writer (record l { writers = l.writers - 1; claims = l.claims + 1 })

unfoldable pub drop_waiting : RwLock → RwLock
unfolding drop_writer
drop_waiting l = drop_writer (record l { waiting = l.waiting - 1; claims = l.claims + 1 })

-- `RwLockUpgradableReadGuard`.
unfoldable pub downgrade_upgradable : RwLock → RwLock
downgrade_upgradable l = record l {
  upgradable = l.upgradable - 1;
  readers = l.readers + 1;
  claims = l.claims + 1;
}

unfoldable pub try_upgrade : RwLock → RwLock × Bool
try_upgrade l =
    if l.state == 2
    then (record l { state = 1; upgradable = l.upgradable - 1; writers = l.writers + 1 }, true)
    else (l, false)

unfoldable pub upgrade : RwLock → RwLock
upgrade l = record l {
  state = wrapping_sub l.state 1;
  upgradable = l.upgradable - 1;
  waiting = l.waiting + 1;
}

-- `RwLockWriteGuard`.
unfoldable pub downgrade : RwLock → RwLock
downgrade l = record l {
  state = wrapping_add l.state 1;
  no_writer = l.no_writer + 1;
  writers = l.writers - 1;
  readers = l.readers + 1;
  claims = l.claims + 1;
}

unfoldable pub downgrade_to_upgradable : RwLock → RwLock
downgrade_to_upgradable l = record l {
  state = wrapping_add l.state 1;
  writers = l.writers - 1;
  upgradable = l.upgradable + 1;
}
