-- ===== src/Steal.antt =====
-- cynthia/src/runtime/executor.rs: where a runner finds its next `Runnable`. The queues are taken as
-- lists that only this runner uses meanwhile; `none` is the failed assertion of `steal`.
pub mod Laws
pub mod Visit
pub mod Search
mod Tests
use cynthia.Base.{
  ℕ, zero, suc, ◌+◌, ◌-◌, ◌/◌, ◌%◌, Bool, true, false, ◌&&◌, if◌then◌else◌, ltb, ◌==◌, min, Option,
  none, some, List, [], ◌∷◌, ◌++◌, length, get_elem?, set,
}

-- The capacity of a local queue.
abbrev pub local_cap : ℕ
local_cap = 512

-- The loop of `steal`: `count` rounds of a pop and a push.
unfoldable pub steal_rounds {ℓ} : {A : Type ℓ} → ℕ → ℕ → List A → List A → Option (List A × List A)
steal_rounds cap zero src dest = some (src, dest)
steal_rounds cap (suc count) [] dest = some ([], dest)
steal_rounds cap (suc count) (t ∷ src) dest =
    let rest = steal_rounds cap count src (dest ++ (t ∷ [])) in
    if ltb (length dest) cap then rest else none

unfoldable pub steal {ℓ} : {A : Type ℓ} → ℕ → List A → List A → Option (List A × List A)
unfolding steal_rounds
steal cap src dest =
    let count = (length src + 1) / 2 in
    if ltb 0 count
    then steal_rounds cap (min count (cap - length dest)) src dest
    else some (src, dest)

-- The shared queue and the runners' local queues.
pub record Queues : Type 0 where
  pub global : List ℕ
  pub locals : List (List ℕ)

abbrev pub local : ℕ → Queues → List ℕ
local i q = elim (get_elem? q.locals i) [ none ↦ [] | some l ↦ l ]

-- What a search gives: a `Runnable`, if it finds one, and the queues after it.
abbrev pub Found : Type 0
Found = Option ℕ × Queues

abbrev pub pop_local : ℕ → Queues → Found
pop_local me q = elim (local me q) [
  | [] ↦ (none, q)
  | r ∷ rest ↦ (some r, record q { locals = set q.locals me rest })
]

abbrev pub after_steal : ℕ → ℕ → Queues → Option (List ℕ × List ℕ) → Option Found
after_steal other me q none = none
after_steal other me q (some (src, dest)) =
    some (pop_local me (record q { locals = set (set q.locals other src) me dest }))

-- `steal(local, &self.local)`, and the `pop` after it.
unfoldable pub steal_from : ℕ → ℕ → Queues → Option Found
unfolding steal
steal_from other me q = after_steal other me q (steal local_cap (local other q) (local me q))

abbrev pub after_steal_from : Option Found → (Queues → Option Found) → Option Found
after_steal_from none next = none
after_steal_from (some (none, q)) next = next q
after_steal_from (some (some r, q)) next = some (some r, q)

-- The loop over the other runners' queues, in the order of the list.
unfoldable pub visit : List ℕ → ℕ → Queues → Option Found
unfolding steal_from
visit [] me q = some (none, q)
visit (other ∷ rest) me q =
    if other == me
    then visit rest me q
    else after_steal_from (steal_from other me q) (λ q'. visit rest me q')

-- `iter().chain(iter()).skip(start).take(n)`, as indices.
unfoldable pub rotation : ℕ → ℕ → ℕ → List ℕ
rotation n start zero = []
rotation n start (suc left) = (start % n) ∷ rotation n (start + 1) left

abbrev pub take_global : ℕ → Queues → ℕ → Option (List ℕ × List ℕ) → Option Found
take_global me q r none = none
take_global me q r (some (src, dest)) =
    some (some r, record { global = src; locals = set q.locals me dest })

abbrev pub from_global : ℕ → Queues → List ℕ → Option Found → Option Found
from_global me q [] others = others
from_global me q (r ∷ rest) others = take_global me q r (steal local_cap rest [])

abbrev pub from_local : ℕ → Queues → List ℕ → Option Found → Option Found
from_local me q [] others = others
from_local me q (r ∷ rest) others = some (some r, record q { locals = set q.locals me rest })

abbrev pub from_others : ℕ → ℕ → Queues → Option Found
from_others start me q = visit (rotation (length q.locals) start (length q.locals)) me q

-- The closure that `Runner::runnable` searches with; `start` is the random number.
unfoldable pub search : ℕ → ℕ → Queues → Option Found
unfolding steal visit rotation
search start me q =
    from_local me q (local me q) (from_global me q q.global (from_others start me q))
