-- ===== src/Executor/Tests.antt =====
-- One ticker that goes to sleep, and a task that is scheduled.
use cynthia.Base.{ℕ, ◌<◌, refl, Bool, ◌==◌, List, [], ◌∷◌, ◌++◌, arith, length}
use cynthia.Base.Machine.{Machine, Reach, start, run, run-Reach, after}
use cynthia.Sleeper
use cynthia.Executor.{
  Action, can, act, machine, new, schedule, notify, wake_one, search, sleep, with_sleepers,
}
use cynthia.Executor.Safety.{no_lost_wakeup}

abbrev same : ℕ → ℕ → Bool
same a b = a == b

abbrev executor : Machine
executor = machine same

abbrev asleep : List Action
asleep =
    Action.makes_ticker
    ∷ Action.polls 0
    ∷ Action.searches 0
    ∷ Action.sleeps 7 0
    ∷ Action.searches 0
    ∷ Action.sleeps 7 0
    ∷ Action.makes_ticker
    ∷ Action.polls 1
    ∷ Action.searches 1
    ∷ Action.sleeps 8 1
    ∷ Action.searches 1
    ∷ Action.sleeps 8 1
    ∷ []

abbrev woken : List Action
woken = asleep ++ Action.schedules 5 ∷ Action.notifies ∷ Action.wakes_one ∷ []

woken-Reach : Reach executor (after executor woken)
unfolding run can act new schedule notify wake_one search sleep with_sleepers Sleeper.new
    Sleeper.insert Sleeper.insert_by Sleeper.update Sleeper.update_by Sleeper.update_from
    Sleeper.is_notified Sleeper.notify
woken-Reach = run-Reach executor woken start refl

no_lost_wakeup_example : 0 < length (after executor woken).sleepers.notified
unfolding run can act new schedule notify wake_one search sleep with_sleepers Sleeper.new
    Sleeper.insert Sleeper.insert_by Sleeper.update Sleeper.update_by Sleeper.update_from
    Sleeper.is_notified Sleeper.notify
no_lost_wakeup_example = no_lost_wakeup same woken-Reach refl refl (omega arith)
