-- ===== src/Channel.antt =====
-- cynthia/src/platform/channel/channel.rs: a channel between the tasks that send and those that
-- receive. The queue is what platform/queue promises, and an event what platform/event does:
-- `notify(1)` notifies a listener unless one is notified already. `stream_ops`, which only a
-- polled stream listens to, is left out.
pub mod Side
pub mod Moves
pub mod Alert
pub mod Counts
pub mod Inv
pub mod Attempts
pub mod Tries
pub mod Flow
pub mod Promises
pub mod Safety
mod Tests
use cynthia.Base.{
  ℕ, ◌+◌, ◌-◌, ◌/◌, Bool, true, false, if◌then◌else◌, ltb, ◌==◌, Option, none, some, List, [], ◌∷◌,
  ◌++◌, get_elem?,
}
use cynthia.Base.Word.{usize_max}
use cynthia.Base.Machine.{Machine}
use cynthia.Queue.{full, closed, empty}
use cynthia.Queue.Fifo.{Fifo, Pushed, Popped, pushed, unpushed, popped, unpopped, push, pop, close}
use cynthia.Channel.Side.{
  Phase, Task, Outcome, succeeded, blocked, shut, trying, absent, modify, after_try, after_tell,
  after_pass, after_leave, after_cancel, listen, wake, notify_one, notify_all, can_notify, was_told,
  is_trying, is_taking, is_passing,
}

-- `tell_senders` and `tell_receivers` count the calls of `close` that have yet to notify `send_ops`,
-- and then `recv_ops`. `sent` and `received` are the messages pushed and popped so far.
pub record Channel : Type 0 where
  pub queue : Fifo
  pub senders : List Task
  pub receivers : List Task
  pub sender_count : ℕ
  pub receiver_count : ℕ
  pub tell_senders : ℕ
  pub tell_receivers : ℕ
  pub sent : List ℕ
  pub received : List ℕ

-- `bounded`, and `unbounded` for `none`.
unfoldable pub new : Option ℕ → Channel
new capacity = record {
  queue = record { items = []; capacity = capacity; is_closed = false };
  senders = [];
  receivers = [];
  sender_count = 1;
  receiver_count = 1;
  tell_senders = 0;
  tell_receivers = 0;
  sent = [];
  received = [];
}

-- `try_send`, called by the task `i`, up to the notification of a receiver. The queue is a Fifo: the Full
-- that a queue of one slot may answer while a pop is taking its value out is left out.
unfoldable pub after_push : ℕ → ℕ → Pushed → Channel → Channel
after_push i v (pushed q) c = record c {
  queue = q;
  senders = modify (after_try succeeded) i c.senders;
  sent = c.sent ++ v ∷ [];
}
after_push i v (unpushed (full m)) c = record c { senders = modify (after_try blocked) i c.senders }
after_push i v (unpushed (closed m)) c = record c { senders = modify (after_try shut) i c.senders }

unfoldable pub send_as : ℕ → Channel → Option Task → Channel
send_as i c none = c
send_as i c (some t) = if is_trying t.phase then after_push i t.msg (push t.msg c.queue) c else c

unfoldable pub try_send : ℕ → Channel → Channel
try_send i c = send_as i c (get_elem? c.senders i)

-- `try_recv`, called by the task `i`, up to the notification of a sender.
unfoldable pub after_pop : ℕ → Popped → Channel → Channel
after_pop i (popped v q) c = record c {
  queue = q;
  receivers = modify (after_try succeeded) i c.receivers;
  received = c.received ++ v ∷ [];
}
after_pop i (unpopped empty) c = record c { receivers = modify (after_try blocked) i c.receivers }
after_pop i (unpopped closed) c = record c { receivers = modify (after_try shut) i c.receivers }

unfoldable pub recv_as : ℕ → Channel → Option Task → Channel
recv_as i c none = c
recv_as i c (some t) = if is_trying t.phase then after_pop i (pop c.queue) c else c

unfoldable pub try_recv : ℕ → Channel → Channel
try_recv i c = recv_as i c (get_elem? c.receivers i)

-- The notification at the end of `try_send`, of the listener `j` of `recv_ops`, and of `try_recv`.
unfoldable pub tell_receiver : ℕ → ℕ → Channel → Channel
tell_receiver i j c =
    if is_taking i c.senders
    then record c { senders = modify after_tell i c.senders; receivers = notify_one j c.receivers }
    else c

unfoldable pub tell_sender : ℕ → ℕ → Channel → Channel
tell_sender i j c =
    if is_taking i c.receivers
    then record c { receivers = modify after_tell i c.receivers; senders = notify_one j c.senders }
    else c

-- After a success, `send` and `recv` notify another task of their own side, unless the capacity is 1.
unfoldable pub passes_on : Option ℕ → Bool
passes_on none = true
passes_on (some n) = if n == 1 then false else true

unfoldable pub pass_on : Bool → ℕ → ℕ → List Task → List Task
pass_on on i j ts =
    if is_passing i ts then modify after_pass i (if on then notify_one j ts else ts) else ts

-- A call that returns, or a future that is dropped, drops its listener, which passes on a
-- notification it was sent.
unfoldable pub leave : ℕ → ℕ → List Task → List Task
leave i j ts =
    if was_told i ts then notify_one j (modify after_leave i ts) else modify after_leave i ts

-- `Channel::close`: the queue, and then the events.
unfoldable pub close_queue : Channel → Channel
close_queue c =
    let (first, q) = close c.queue in
    if first
    then record c { queue = q; tell_senders = c.tell_senders + 1 }
    else record c { queue = q }

unfoldable pub close_senders : Channel → Channel
close_senders c = record c {
  senders = notify_all c.senders;
  tell_senders = c.tell_senders - 1;
  tell_receivers = c.tell_receivers + 1;
}

unfoldable pub close_receivers : Channel → Channel
close_receivers c = record c {
  receivers = notify_all c.receivers;
  tell_receivers = c.tell_receivers - 1;
}

-- `Clone` and `Drop` of a Sender and of a Receiver; `none` is the abort.
unfoldable pub clone_sender : Channel → Option Channel
clone_sender c =
    if ltb (usize_max / 2) c.sender_count
    then none
    else some (record c { sender_count = c.sender_count + 1 })

unfoldable pub clone_receiver : Channel → Option Channel
clone_receiver c =
    if ltb (usize_max / 2) c.receiver_count
    then none
    else some (record c { receiver_count = c.receiver_count + 1 })

unfoldable pub drop_sender : Channel → Channel
drop_sender c =
    let less = record c { sender_count = c.sender_count - 1 } in
    if c.sender_count == 1 then close_queue less else less

unfoldable pub drop_receiver : Channel → Channel
drop_receiver c =
    let less = record c { receiver_count = c.receiver_count - 1 } in
    if c.receiver_count == 1 then close_queue less else less

-- The steps that one task takes on its own side, `j` being the listener that it notifies if it does.
pub data Own : Type 0 where
  listens wakes cancels : Own
  passes leaves : ℕ → Own

unfoldable pub own : Bool → Own → ℕ → List Task → List Task
own on listens i ts = modify listen i ts
own on wakes i ts = modify wake i ts
own on cancels i ts = modify after_cancel i ts
own on (passes j) i ts = pass_on on i j ts
own on (leaves j) i ts = leave i j ts

unfoldable pub can_own : Bool → Own → ℕ → List Task → Bool
can_own on (passes j) i ts = if on then can_notify j ts else true
can_own on (leaves j) i ts = can_notify j (modify after_leave i ts)
can_own on _ i ts = true

pub data Action : Type 0 where
  sends : ℕ → Action
  receives : Action
  try_sends try_recvs : ℕ → Action
  tells_receiver tells_sender : ℕ → ℕ → Action
  sender receiver : Own → ℕ → Action
  closes tells_senders tells_receivers : Action
  clones_sender clones_receiver drops_sender drops_receiver : Action

-- A step of a task that is elsewhere in its code changes nothing.
unfoldable pub can : Action → Channel → Bool
can (tells_receiver i j) c = can_notify j c.receivers
can (tells_sender i j) c = can_notify j c.senders
can (sender o i) c = can_own (passes_on c.queue.capacity) o i c.senders
can (receiver o i) c = can_own (passes_on c.queue.capacity) o i c.receivers
can tells_senders c = ltb 0 c.tell_senders
can tells_receivers c = ltb 0 c.tell_receivers
can clones_sender c = ltb 0 c.sender_count
can clones_receiver c = ltb 0 c.receiver_count
can drops_sender c = ltb 0 c.sender_count
can drops_receiver c = ltb 0 c.receiver_count
can _ c = true

abbrev pub newcomer : ℕ → Task
newcomer v = record { phase = trying absent; msg = v }

unfoldable pub act : Action → Channel → Option Channel
act (sends v) c = some (record c { senders = c.senders ++ newcomer v ∷ [] })
act receives c = some (record c { receivers = c.receivers ++ newcomer 0 ∷ [] })
act (try_sends i) c = some (try_send i c)
act (try_recvs i) c = some (try_recv i c)
act (tells_receiver i j) c = some (tell_receiver i j c)
act (tells_sender i j) c = some (tell_sender i j c)
act (sender o i) c = some (record c { senders = own (passes_on c.queue.capacity) o i c.senders })
act (receiver o i) c =
    some (record c { receivers = own (passes_on c.queue.capacity) o i c.receivers })
act closes c = some (close_queue c)
act tells_senders c = some (close_senders c)
act tells_receivers c = some (close_receivers c)
act clones_sender c = clone_sender c
act clones_receiver c = clone_receiver c
act drops_sender c = some (drop_sender c)
act drops_receiver c = some (drop_receiver c)

abbrev pub machine : Option ℕ → Machine
machine capacity = record {
  State = Channel;
  Action = Action;
  first = new capacity;
  can = can;
  act = act;
}
