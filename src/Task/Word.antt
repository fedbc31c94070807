-- ===== src/Task/Word.antt =====
-- cynthia/src/runtime/task/state.rs: the state word of a task. A word is kept as its eight flags
-- and the reference count above them; `encode` gives back the `usize`.
use cynthia.Base.{ℕ, ◌+◌, ◌-◌, ◌*◌, ◌^◌, Bool, ◌&&◌, not, if◌then◌else◌, ltb, ◌==◌}

abbrev pub scheduled_bit : ℕ
scheduled_bit = 2 ^ 0

abbrev pub running_bit : ℕ
running_bit = 2 ^ 1

abbrev pub completed_bit : ℕ
completed_bit = 2 ^ 2

abbrev pub closed_bit : ℕ
closed_bit = 2 ^ 3

abbrev pub task_bit : ℕ
task_bit = 2 ^ 4

abbrev pub awaiter_bit : ℕ
awaiter_bit = 2 ^ 5

abbrev pub registering_bit : ℕ
registering_bit = 2 ^ 6

abbrev pub notifying_bit : ℕ
notifying_bit = 2 ^ 7

abbrev pub reference_bit : ℕ
reference_bit = 2 ^ 8

pub record Word : Type 0 where
  pub scheduled : Bool
  pub running : Bool
  pub completed : Bool
  pub closed : Bool
  pub task : Bool
  pub awaiter : Bool
  pub registering : Bool
  pub notifying : Bool
  pub reference : ℕ

abbrev pub bit : Bool → ℕ → ℕ
bit b n = if b then n else 0

-- The `usize` that the word stands for.
unfoldable pub encode : Word → ℕ
encode w =
    bit w.scheduled scheduled_bit
    + bit w.running running_bit
    + bit w.completed completed_bit
    + bit w.closed closed_bit
    + bit w.task task_bit
    + bit w.awaiter awaiter_bit
    + bit w.registering registering_bit
    + bit w.notifying notifying_bit
    + w.reference * reference_bit

-- `isize::max_value()`: `clone_waker` and `wake_by_ref` abort above it.
abbrev pub isize_max : ℕ
isize_max = 2 ^ 63 - 1

unfoldable pub is_overflow : Word → Bool
unfolding encode
is_overflow w = ltb isize_max (encode w)

-- Equality with the word that has just `SCHEDULED` and `TASK` set, and one reference.
unfoldable pub is_fresh : Word → Bool
is_fresh w =
    w.scheduled
    && not w.running
    && not w.completed
    && not w.closed
    && w.task
    && not w.awaiter
    && not w.registering
    && not w.notifying
    && (w.reference == 1)
