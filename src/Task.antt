-- ===== src/Task.antt =====
-- cynthia/src/runtime/task: one task, shared by its handle, its wakers and the executor.
pub mod Word
pub mod Cell
pub mod Raw
pub mod Handle
pub mod System
pub mod Inv
pub mod Safety
pub mod Detach
mod Tests
