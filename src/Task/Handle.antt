-- ===== src/Task/Handle.antt =====
-- cynthia/src/runtime/task/task.rs: the operations of the `Task` handle.
use cynthia.Base.{
  ℕ, ◌+◌, Bool, true, false, ◌&&◌, ◌||◌, not, if◌then◌else◌, ◌==◌, Option, none, some, zero, suc,
}
use cynthia.Task.Word.{is_fresh}
use cynthia.Task.Cell.{Cell, take, notify, register, register_begin, register_end}
use cynthia.Task.Raw.{schedule, destroy, drop_output, closing_word, notify_if}

-- What `poll_task` answers; the value of the output is not modelled.
pub data Poll : Type 0 where
  pending : Poll
  ready : (has_output : Bool) → Poll

module _ (will_wake : ℕ → ℕ → Bool) where
  unfoldable pub set_canceled : Cell → Cell
  unfolding schedule notify take
  set_canceled c =
      if c.word.completed || c.word.closed
      then c
      else if c.word.scheduled || c.word.running
      then notify_if will_wake c.word.awaiter
          (record c { word = record (c.word) { closed = true } })
      else notify_if will_wake c.word.awaiter (
          schedule (record c {
            word = record (c.word) {
              scheduled = true;
              closed = true;
              reference = c.word.reference + 1;
            };
          }))

-- One round of `set_detached` whose exchange succeeds: a finished output is read and the loop goes
-- on (`false`), or the handle is given up (`true`).
unfoldable pub detach_round : Cell → Cell × Bool
unfolding schedule destroy drop_output is_fresh
detach_round c =
    if is_fresh c.word
    then (record c { word = record (c.word) { task = false }; handle = false }, true)
    else if c.word.completed && not c.word.closed
    then (drop_output (record c { word = record (c.word) { closed = true } }), false)
    else if c.word.reference == 0
    then (if c.word.closed
        then (destroy (record c { word = record (c.word) { task = false }; handle = false }), true)
        else (schedule (record c { word = closing_word; handle = false }), true))
    else (record c { word = record (c.word) { task = false }; handle = false }, true)

-- The loop of `set_detached`, by one thread; `none` means that the rounds given did not end it.
unfoldable pub set_detached : ℕ → Cell → Option Cell
unfolding detach_round
set_detached zero c = none
set_detached (suc rounds) c =
    let (c', done) = detach_round c in
    let rest = set_detached rounds c' in if done then some c' else rest

-- `Drop for Task`.
unfoldable pub drop_task : (ℕ → ℕ → Bool) → Cell → Option Cell
unfolding set_canceled set_detached
drop_task will_wake c = set_detached 2 (set_canceled will_wake c)

module _ (will_wake : ℕ → ℕ → Bool) where
  -- A pass through `poll_task`'s loop that ends it, by a task that the waker `w` wakes. When it
  -- registers it does so first, and decides on the word that it loads afterwards.
  unfoldable pub poll_closed : ℕ → Cell → Cell × Poll
  unfolding notify take register register_begin register_end
  poll_closed w c =
      if c.word.scheduled || c.word.running
      then (let c' = register w c in
          if c'.word.scheduled || c'.word.running
          then (c', pending)
          else (notify will_wake (some w) c', ready false))
      else (notify will_wake (some w) c, ready false)

  unfoldable pub poll_completed : ℕ → Cell → Cell × Poll
  unfolding notify take drop_output
  poll_completed w c =
      let c' = record c { word = record (c.word) { closed = true } } in
      let c'' = if c.word.awaiter then notify will_wake (some w) c' else c' in
      (drop_output c'', ready true)

  unfoldable pub poll_task : ℕ → Cell → Cell × Poll
  unfolding poll_closed poll_completed register register_begin register_end
  poll_task w c =
      if c.word.closed
      then poll_closed w c
      else if c.word.completed
      then poll_completed w c
      else (let c' = register w c in
          if c'.word.closed
          then poll_closed w c'
          else if c'.word.completed
          then poll_completed w c'
          else (c', pending))
