-- ===== src/Queue/Fifo.antt =====
-- cynthia/src/platform/queue/mod.rs: what a ConcurrentQueue promises its clients, whichever of its
-- three forms it has: a list of values, with a capacity or none, that can be closed.
use cynthia.Base.{
  ℕ, Bool, true, false, not, if◌then◌else◌, leb, Option, none, some, List, [], ◌∷◌, ◌++◌, length,
}
use cynthia.Queue.{PushError, PopError, full, closed, empty}

pub record Fifo : Type 0 where
  pub items : List ℕ
  pub capacity : Option ℕ
  pub is_closed : Bool

pub data Pushed : Type 0 where
  pushed : Fifo → Pushed
  unpushed : PushError ℕ → Pushed

pub data Popped : Type 0 where
  popped : ℕ → Fifo → Popped
  unpopped : PopError → Popped

unfoldable pub is_full : Fifo → Bool
is_full q = elim q.capacity [ none ↦ false | some n ↦ leb n (length q.items) ]

unfoldable pub push : ℕ → Fifo → Pushed
push v q =
    if q.is_closed
    then unpushed (closed v)
    else (if is_full q then unpushed (full v) else pushed (record q { items = q.items ++ v ∷ [] }))

unfoldable pub pop_items : Fifo → List ℕ → Popped
pop_items q [] = unpopped (if q.is_closed then closed else empty)
pop_items q (v ∷ rest) = popped v (record q { items = rest })

unfoldable pub pop : Fifo → Popped
pop q = pop_items q q.items

-- Whether this call closed it, and the queue after.
unfoldable pub close : Fifo → Bool × Fifo
close q = (not q.is_closed, record q { is_closed = true })
