-- ===== src/Lock/RwLock/Safety.antt =====
-- What the readers-writer lock guarantees, whatever the order of the tasks' accesses.
use cynthia.Base.{◌+◌, ◌≤◌, ◌<◌, ◌≡◌, true, false, ◌==◌, none, some, arith, if◌then◌else◌}
use cynthia.Base.Word.{isize_max}
use cynthia.Base.Machine.{Reach}
use cynthia.Lock.RwLock.{
  RwLock, has_writer, try_read, try_write, grant, drop_read, try_upgrade, downgrade_to_upgradable,
  drop_write, downgrade,
}
use cynthia.Lock.RwLock.Inv.{machine, Reach-Inv}

module _ {l : RwLock} (r : Reach machine l) where
  -- There is at most one writer and at most one upgradable reader, and while there is a writer
  -- there is no reader, no upgradable reader and no other task that waits for the readers to leave.
  pub exclusion :
      (l.writers + l.waiting + l.upgradable ≤ 1) × (0 < l.writers → l.readers + l.upgradable ≡ 0)
  exclusion =
      let v = Reach-Inv r in
      (omega (arith, v.held, v.lock.single), λ h. omega (arith, v.held, v.lock.single, v.alone h))

  -- A read is refused exactly while a writer holds the lock or waits for the readers to leave.
  pub try_read_lem :
      l.state ≤ isize_max
      → (elim (try_read l) [ none ↦ false | some a ↦ a.1 ]) ≡ (l.writers + l.waiting == 0)
  unfolding try_read
  try_read_lem h = ground (arith, Reach-Inv r)

  -- With the mutex claimed, `try_write` succeeds exactly if there is no reader; and `try_upgrade` of
  -- an upgradable reader exactly if there is no other reader.
  pub try_write_lem :
      (0 < l.claims → (try_write l).1 ≡ (l.readers == 0))
      × (0 < l.upgradable → (try_upgrade l).1 ≡ (l.readers == 0))
  unfolding try_write try_upgrade
  try_write_lem = (λ h. ground (arith, Reach-Inv r), λ h. ground (arith, Reach-Inv r))

  -- When a reader leaves while a task waits to write, that task is granted the lock exactly if it
  -- was the last reader, and exactly then it is notified.
  pub drop_read-grants :
      0 < l.readers
      → 0 < l.waiting
      → ((grant (drop_read l)).1 ≡ (l.readers == 1))
        × ((drop_read l).no_readers ≡ l.no_readers + (if l.readers == 1 then 1 else 0))
  unfolding grant drop_read
  drop_read-grants h w = ground (arith, Reach-Inv r)

  -- A writer that becomes an upgradable reader lets readers in again, but notifies none of those
  -- that wait: the count of notifications stays as it is, where giving the lock up or downgrading
  -- to a reader adds one.
  pub downgrade_to_upgradable-silent :
      0 < l.writers
      → let l' = downgrade_to_upgradable l in
        (has_writer l.state ≡ true)
        × (has_writer l'.state ≡ false)
        × (l'.no_writer ≡ l.no_writer)
        × ((downgrade l).no_writer ≡ l.no_writer + 1)
        × ((drop_write l).no_writer ≡ l.no_writer + 1)
  unfolding downgrade_to_upgradable downgrade drop_write
  downgrade_to_upgradable-silent h = ground (arith, Reach-Inv r)
