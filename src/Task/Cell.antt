-- ===== src/Task/Cell.antt =====
-- cynthia/src/runtime/task/header.rs, and what a task owns: its future, its output, its place in
-- memory and the references to it.
use cynthia.Base.{ℕ, Bool, true, false, ◌||◌, if◌then◌else◌, Option, none, some, List, ◌∷◌}
use cynthia.Task.Word.{Word}

-- Where the `Runnable` of the task is: there is none, one waits to be run, or one is being run.
pub data Runner : Type 0 where
  absent : Runner
  queued : Runner
  polling : Runner  -- `run`, from the exchange that sets RUNNING to the return of `poll`
  finished : Runner  -- `run`, the output written, before the exchange that sets COMPLETED
  closing : Runner  -- the future of a closed task dropped, before `fetch_and(!SCHEDULED)`

abbrev pub is_absent : Runner → Bool
is_absent absent = true
is_absent _ = false

-- `future` and `output` say whether the memory holds one. `leaving` counts the threads that have
-- ended a run and still hold its reference. `fault` records an access that Rust leaves undefined.
pub record Cell : Type 0 where
  pub word : Word
  pub waiter : Option ℕ  -- `awaiter`, a waker by its number
  pub woken : List ℕ  -- the wakers called, the last one first
  pub future : Bool
  pub output : Bool
  pub runner : Runner
  pub leaving : ℕ
  pub handle : Bool
  pub wakers : ℕ
  pub freed : Bool
  pub fault : Bool

-- `Header::take`'s choice: the waker taken, unless it wakes the current task.
abbrev pub unless_current : (ℕ → ℕ → Bool) → Option ℕ → Option ℕ → Option ℕ
unless_current will_wake current none = none
unless_current will_wake none (some w) = some w
unless_current will_wake (some c) (some w) = if will_wake w c then none else some w

abbrev pub wake_opt : Option ℕ → Cell → Cell
wake_opt none c = c
wake_opt (some w) c = record c { woken = w ∷ c.woken }

module _ (will_wake : ℕ → ℕ → Bool) where
  unfoldable pub take : Option ℕ → Cell → Option ℕ × Cell
  take current c =
      if c.word.notifying || c.word.registering
      then (none, record c { word = record (c.word) { notifying = true } })
      else (
        unless_current will_wake current c.waiter,
        record c { word = record (c.word) { notifying = false; awaiter = false }; waiter = none },
      )

  unfoldable pub notify : Option ℕ → Cell → Cell
  notify current c = let (w, c') = take current c in wake_opt w c'

-- `Header::register` up to its first exchange, which takes the right to write `awaiter`.
unfoldable pub register_begin : ℕ → Cell → Cell × Bool
register_begin w c =
    if c.word.notifying
    then (record c { woken = w ∷ c.woken }, false)
    else (record c { word = record (c.word) { registering = true }; waiter = some w }, true)

-- The rest of it: a notification that came in between is answered here.
unfoldable pub register_end : Cell → Cell
register_end c =
    if c.word.notifying
    then wake_opt c.waiter (record c {
      word = record (c.word) {
        notifying = false;
        registering = false;
        awaiter = elim c.waiter [ none ↦ true | some _ ↦ false ];
      };
      waiter = none;
    })
    else record c {
      word = record (c.word) { notifying = false; registering = false; awaiter = true };
    }

unfoldable pub register : ℕ → Cell → Cell
register w c = let (c', go_on) = register_begin w c in if go_on then register_end c' else c'
