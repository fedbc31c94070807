-- ===== src/Queue.antt =====
-- cynthia/src/platform/queue/mod.rs: the errors of a queue.
pub mod Fifo
pub mod Bounded
pub mod Single
mod Tests
use cynthia.Base.{Bool, true, false}

-- `PushError` holds the value that was not pushed.
pub data PushError {ℓ} (A : Type ℓ) : Type ℓ where
  full closed : A → PushError A

pub data PopError : Type 0 where
  empty closed : PopError

unfoldable pub pop_empty : PopError → Bool
pop_empty empty = true
pop_empty closed = false

unfoldable pub pop_closed : PopError → Bool
pop_closed empty = false
pop_closed closed = true

module _ {ℓ} {A : Type ℓ} where
  unfoldable pub into_inner : PushError A → A
  into_inner (full v) = v
  into_inner (closed v) = v

  unfoldable pub push_full : PushError A → Bool
  push_full (full v) = true
  push_full (closed v) = false

  unfoldable pub push_closed : PushError A → Bool
  push_closed (full v) = false
  push_closed (closed v) = true
