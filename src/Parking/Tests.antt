-- ===== src/Parking/Tests.antt =====
-- A thread that waits, and an unparker before its notification.
use cynthia.Base.{◌<◌, ◌≡◌, ◌⊎◌, refl, true, false, List, [], ◌∷◌}
use cynthia.Base.Machine.{Reach, start, run, run-Reach, after}
use cynthia.Parking.{
  Parker, Action, new, can, act, machine, park_begin, park_locked, begin_wait, unpark,
}
use cynthia.Parking.Safety.{no_lost_unpark}

abbrev steps : List Action
steps =
    Action.begins false false ∷ Action.locks ∷ Action.exchanges ∷ Action.waits ∷ Action.unparks ∷ []

abbrev told : Parker
told = after machine steps

told-Reach : Reach machine told
unfolding run can act new park_begin park_locked begin_wait unpark
told-Reach = run-Reach machine steps start refl

no_lost_unpark_example : (told.signalled ≡ true) ⊎ (0 < told.notifying)
unfolding run can act new park_begin park_locked begin_wait unpark
no_lost_unpark_example = no_lost_unpark told-Reach refl refl
