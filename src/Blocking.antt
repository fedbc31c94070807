-- ===== src/Blocking.antt =====
-- cynthia/src/runtime/blocking/blocking.rs: what runs blocking code beside the asynchronous tasks.
pub mod Pipe
pub mod Pool
mod Tests
