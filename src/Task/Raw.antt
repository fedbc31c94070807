-- ===== src/Task/Raw.antt =====
-- cynthia/src/runtime/task/raw.rs and runnable.rs: the operations of wakers and of the `Runnable`.
-- A loop around `compare_exchange_weak` is its last round, on the word that the exchange finds: the
-- rounds before it change nothing.
use cynthia.Base.{
  ℕ, ◌+◌, ◌-◌, Bool, true, false, ◌&&◌, ◌||◌, not, if◌then◌else◌, ◌==◌, Option, none, some, List,
}
use cynthia.Task.Word.{Word, is_overflow}
use cynthia.Task.Cell.{Cell, absent, queued, polling, finished, closing, is_absent, take, notify}

-- Two `Runnable`s of one task would poll it at the same time. The waker that is cloned before a schedule
-- function with data is called, and dropped after it, is left out: steps of their own clone and drop one.
unfoldable pub schedule : Cell → Cell
schedule c = record c { runner = queued; fault = c.fault || not (is_absent c.runner) }

-- Dropping a future twice, or a memory that is gone, is a fault.
unfoldable pub drop_future : Cell → Cell
drop_future c = record c { future = false; fault = c.fault || not c.future }

unfoldable pub drop_output : Cell → Cell
drop_output c = record c { output = false; fault = c.fault || not c.output }

unfoldable pub destroy : Cell → Cell
destroy c = record c { freed = true; fault = c.fault || c.freed }

-- `fetch_sub(REFERENCE)`: below zero the count would wrap.
unfoldable pub sub_reference : Cell → Cell
sub_reference c = record c {
  word = record (c.word) { reference = c.word.reference - 1 };
  fault = c.fault || (c.word.reference == 0);
}

-- What a new task starts as: `Runnable` and `Task` are made with it.
unfoldable pub allocate : Cell
allocate = record {
  word = record {
    scheduled = true;
    running = false;
    completed = false;
    closed = false;
    task = true;
    awaiter = false;
    registering = false;
    notifying = false;
    reference = 1;
  };
  waiter = none;
  woken = List.[];
  future = true;
  output = false;
  runner = queued;
  leaving = 0;
  handle = true;
  wakers = 0;
  freed = false;
  fault = false;
}

-- Wakers. `none` is an abort of the process.
unfoldable pub clone_waker : Cell → Option Cell
clone_waker c =
    if is_overflow c.word
    then none
    else some (record c {
      word = record (c.word) { reference = c.word.reference + 1 };
      wakers = c.wakers + 1;
    })

-- The word that the last reference of a task with no handle leaves behind: one run that closes it.
abbrev pub closing_word : Word
closing_word = record {
  scheduled = true;
  running = false;
  completed = false;
  closed = true;
  task = false;
  awaiter = false;
  registering = false;
  notifying = false;
  reference = 1;
}

unfoldable pub drop_waker : Cell → Cell
unfolding sub_reference schedule destroy
drop_waker c =
    let c' = sub_reference (record c { wakers = c.wakers - 1 }) in
    if (c'.word.reference == 0) && not c'.word.task
    then (if c'.word.completed || c'.word.closed
        then destroy c'
        else schedule (record c' { word = closing_word }))
    else c'

-- `wake` of a schedule function without data: the waker's reference goes over to the `Runnable`.
unfoldable pub wake : Cell → Cell
unfolding drop_waker schedule
wake c =
    if c.word.completed || c.word.closed
    then drop_waker c
    else if c.word.scheduled
    then drop_waker c
    else if c.word.running
    then drop_waker (record c { word = record (c.word) { scheduled = true } })
    else schedule (record c { word = record (c.word) { scheduled = true }; wakers = c.wakers - 1 })

unfoldable pub wake_by_ref : Cell → Option Cell
unfolding schedule
wake_by_ref c =
    if c.word.completed || c.word.closed
    then some c
    else if c.word.scheduled
    then some c
    else if c.word.running
    then some (record c { word = record (c.word) { scheduled = true } })
    else if is_overflow c.word
    then none
    else some (
        schedule (record c {
          word = record (c.word) { scheduled = true; reference = c.word.reference + 1 };
        }))

-- `drop_ref`, by a thread whose run has ended.
unfoldable pub drop_ref : Cell → Cell
unfolding sub_reference destroy
drop_ref c =
    let c' = sub_reference (record c { leaving = c.leaving - 1 }) in
    if (c'.word.reference == 0) && not c'.word.task then destroy c' else c'

abbrev pub leave : Cell → Cell
leave c = record c { runner = absent; leaving = c.leaving + 1 }

-- Up to the call of `poll`, or to the drop of a closed task's future.
unfoldable pub run_begin : Cell → Cell
unfolding drop_future
run_begin c = if c.word.closed then record (drop_future c) { runner = closing } else record c {
  word = record (c.word) { scheduled = false; running = true };
  runner = polling;
  fault = c.fault || not c.future;
}

-- `poll` returned `Ready`: the output takes the future's place.
unfoldable pub poll_ready : Cell → Cell
unfolding drop_future
poll_ready c = record (drop_future c) { output = true; runner = finished }

-- Steps of one `run`. The awaiter that `take` hands out is woken at once.
module _ (will_wake : ℕ → ℕ → Bool) where
  abbrev pub notify_if : Bool → Cell → Cell
  notify_if b c = if b then notify will_wake none c else c

  -- After the drop of a closed task's future, in `run` and in `Runnable::drop`.
  unfoldable pub close_end : Cell → Cell
  unfolding notify take
  close_end c =
      leave (notify_if c.word.awaiter (record c { word = record (c.word) { scheduled = false } }))

  -- The exchange that ends a run whose output is written.
  unfoldable pub complete : Cell → Cell
  unfolding drop_output notify take
  complete c =
      let c' = record c {
        word = record (c.word) {
          running = false;
          scheduled = false;
          completed = true;
          closed = c.word.closed || not c.word.task;
        };
      } in
      let c'' = if not c.word.task || c.word.closed then drop_output c' else c' in
      leave (notify_if c.word.awaiter c'')

  -- `poll` returned `Pending`.
  unfoldable pub poll_pending : Cell → Cell
  unfolding drop_future notify take
  poll_pending c =
      if c.word.closed
      then leave (
          notify_if c.word.awaiter (record (drop_future c) {
            word = record (c.word) { running = false; scheduled = false };
          }))
      else if c.word.scheduled
      then record c { word = record (c.word) { running = false }; runner = queued }
      else leave (record c { word = record (c.word) { running = false } })

  -- `poll` panicked: what the guard's destructor does.
  unfoldable pub poll_panic : Cell → Cell
  unfolding drop_future notify take
  poll_panic c = leave (
      notify_if c.word.awaiter (record (drop_future c) {
        word = record (c.word) { running = false; scheduled = false; closed = true };
      }))

-- `Runnable::drop`, up to the drop of the future.
unfoldable pub drop_runnable : Cell → Cell
unfolding drop_future
drop_runnable c =
    record (drop_future (record c {
      word = record (c.word) { closed = if c.word.completed then c.word.closed else true };
    })) { runner = closing }
