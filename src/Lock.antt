-- ===== src/Lock.antt =====
-- cynthia/src/platform/lock: the asynchronous locks. A lock is a machine whose actions are the
-- atomic accesses of the tasks that use it, in any order.
pub mod Mutex
pub mod RwLock
pub mod Semaphore
pub mod Barrier
mod Tests
