-- ===== src/Steal/Tests.antt =====
-- Two runners, one of which has nothing to do.
use cynthia.Base.{ℕ, ◌≡◌, ◌<◌, refl, some, [], ◌∷◌, arith, length}
use cynthia.Steal.{Queues, steal, steal_rounds, steal_from, visit, rotation, search, local}
use cynthia.Steal.Search.{search-conserves_work}

abbrev busy_and_idle : Queues
busy_and_idle = record { global = []; locals = (5 ∷ 6 ∷ 7 ∷ []) ∷ [] ∷ [] }

abbrev idle : Queues
idle = record { global = []; locals = [] ∷ [] ∷ [] }

-- The idle runner finds the first `Runnable` of the other one, and keeps the second.
search_run :
    search 1 1 busy_and_idle
    ≡ some (some 5, record { global = []; locals = (7 ∷ []) ∷ (6 ∷ []) ∷ [] })
unfolding search visit steal_from steal steal_rounds rotation
search_run = refl

search-conserves_work_example :
    (idle.global ≡ []) × ((i : ℕ) → i < length idle.locals → local i idle ≡ [])
unfolding search visit steal_from steal steal_rounds rotation
search-conserves_work_example = search-conserves_work 1 1 idle (omega arith) (omega arith) idle refl
