-- ===== src/Sleeper/Tests.antt =====
-- Two sleepers, the second of which is notified.
use cynthia.Base.{ℕ, ◌+◌, ◌≡◌, refl, Bool, ◌==◌, List, [], ◌∷◌}
use cynthia.Base.Machine.{Machine, Reach, start, run, run-Reach, after}
use cynthia.Sleeper.{Action, can, act, machine, new, occurs, ids, insert, insert_by, notify}
use cynthia.Sleeper.Safety.{insert-fresh}

abbrev same : ℕ → ℕ → Bool
same a b = a == b

abbrev sleepers : Machine
sleepers = machine same

abbrev steps : List Action
steps = Action.inserts 10 ∷ Action.inserts 20 ∷ Action.notifies ∷ []

steps-Reach : Reach sleepers (after sleepers steps)
unfolding run can act new insert insert_by notify
steps-Reach = run-Reach sleepers steps start refl

insert-fresh_example :
    let s = after sleepers steps in
    occurs (insert 30 s).0 (ids s.wakers) + occurs (insert 30 s).0 s.notified ≡ 0
insert-fresh_example = insert-fresh same steps-Reach 30
