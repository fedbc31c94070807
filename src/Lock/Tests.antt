-- ===== src/Lock/Tests.antt =====
-- Short runs of each lock.
use cynthia.Base.{◌+◌, ◌*◌, ◌≡◌, ◌≤◌, ◌<◌, refl, List, [], ◌∷◌}
use cynthia.Base.Machine.{Reach, start, run, run-Reach, after}
use cynthia.Lock.Mutex
use cynthia.Lock.RwLock
use cynthia.Lock.RwLock.{has_writer}
use cynthia.Lock.RwLock.Inv
use cynthia.Lock.RwLock.Safety
use cynthia.Lock.Semaphore
use cynthia.Lock.Barrier

-- One task holds the mutex while another starves.
abbrev contended : List Mutex.Action
contended = Mutex.Action.tries ∷ Mutex.Action.starves ∷ []

contended-Reach : Reach Mutex.machine (after Mutex.machine contended)
unfolding run Mutex.can Mutex.act Mutex.new Mutex.try_lock Mutex.starve
contended-Reach = run-Reach Mutex.machine contended start refl

mutual_exclusion_example :
    ((after Mutex.machine contended).holders ≤ 1)
    × ((after Mutex.machine contended).state
        ≡ (after Mutex.machine contended).holders + 2 * (after Mutex.machine contended).starving)
mutual_exclusion_example = Mutex.mutual_exclusion contended-Reach

-- A reader, and a task that waits for it to leave.
abbrev one_reader : List Inv.Action
one_reader =
    Inv.Action.tries_read ∷ Inv.Action.uses_mutex Mutex.Action.tries ∷ Inv.Action.writes ∷ []

-- A writer.
abbrev one_writer : List Inv.Action
one_writer = Inv.Action.uses_mutex Mutex.Action.tries ∷ Inv.Action.tries_write ∷ []

-- A task with an upgradable guard.
abbrev one_upgradable : List Inv.Action
one_upgradable =
    Inv.Action.uses_mutex Mutex.Action.tries ∷ Inv.Action.checks ∷ Inv.Action.reads_upgradable ∷ []

one_reader-Reach : Reach Inv.machine (after Inv.machine one_reader)
unfolding run Inv.can Inv.act RwLock.new RwLock.try_read RwLock.use_mutex RwLock.write Mutex.new
    Mutex.can Mutex.act Mutex.try_lock
one_reader-Reach = run-Reach Inv.machine one_reader start refl

one_writer-Reach : Reach Inv.machine (after Inv.machine one_writer)
unfolding run Inv.can Inv.act RwLock.new RwLock.try_write RwLock.use_mutex Mutex.new Mutex.can
    Mutex.act Mutex.try_lock
one_writer-Reach = run-Reach Inv.machine one_writer start refl

one_upgradable-Reach : Reach Inv.machine (after Inv.machine one_upgradable)
unfolding run Inv.can Inv.act RwLock.new RwLock.check_upgradable RwLock.upgradable_read
    RwLock.use_mutex Mutex.new Mutex.can Mutex.act Mutex.try_lock
one_upgradable-Reach = run-Reach Inv.machine one_upgradable start refl

exclusion_example :
    let l = after Inv.machine one_writer in
    (l.writers + l.waiting + l.upgradable ≤ 1) × (0 < l.writers → l.readers + l.upgradable ≡ 0)
exclusion_example = Safety.exclusion one_writer-Reach

-- One of two permits is out.
abbrev one_out : List Semaphore.Action
one_out = Semaphore.Action.acquires ∷ []

one_out-Reach : Reach (Semaphore.machine 2) (after (Semaphore.machine 2) one_out)
unfolding run Semaphore.can Semaphore.act Semaphore.new Semaphore.try_acquire
one_out-Reach = run-Reach (Semaphore.machine 2) one_out start refl

-- Three tasks arrive at a barrier for two.
abbrev three_arrivals : List Barrier.Action
three_arrivals = Barrier.Action.arrives ∷ Barrier.Action.arrives ∷ Barrier.Action.arrives ∷ []

three-Reach : Reach (Barrier.machine 2) (after (Barrier.machine 2) three_arrivals)
unfolding run Barrier.arrive Barrier.new
three-Reach = run-Reach (Barrier.machine 2) three_arrivals start refl
