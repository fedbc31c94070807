-- ===== src/ReadBuf/Tests.antt =====
-- A buffer of four bytes.
use cynthia.Base.{ℕ, ◌≡◌, ◌≤◌, ◌<◌, refl, true, Option, none, some, List, [], ◌∷◌}
use cynthia.Base.Memory.{slice, write_bytes}
use cynthia.Base.Machine.{Machine, Reach, start, run, run-Reach, after}
use cynthia.ReadBuf.{
  Action, act, machine, uninit, remaining, filled, initialize_unfilled_to, set_filled, advance, put,
  put_slice,
}
use cynthia.ReadBuf.Safety.{is_some, shows_written}

abbrev unknown : ℕ → Option ℕ
unknown i = none

abbrev four : Machine
four = machine (uninit unknown 4)

abbrev steps : List Action
steps = Action.puts (5 ∷ 6 ∷ []) ∷ Action.initializes 2 ∷ Action.advances 1 ∷ []

steps-Reach : Reach four (after four steps)
unfolding run act uninit put_slice put initialize_unfilled_to advance set_filled remaining
steps-Reach = run-Reach four steps start refl

three_filled : filled (after four steps) ≡ some 5 ∷ some 6 ∷ some 0 ∷ []
unfolding run act uninit put_slice put initialize_unfilled_to advance set_filled remaining filled
    slice write_bytes
three_filled = refl

shows_written_example :
    let b = after four steps in
    (b.filled_until ≤ b.initialized_until)
    × (b.initialized_until ≤ b.capacity)
    × ((i : ℕ) → i < b.initialized_until → is_some (b.buf i) ≡ true)
shows_written_example = shows_written unknown 4 steps-Reach

abbrev two : List ℕ
two = 5 ∷ 6 ∷ []
