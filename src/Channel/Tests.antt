-- ===== src/Channel/Tests.antt =====
-- Runs of a channel.
use cynthia.Base.{
  ℕ, ◌≡◌, refl, true, Option, some, List, [], ◌∷◌, ◌++◌, ◌<◌, ◌≤◌, ◌+◌, length, arith,
}
use cynthia.Base.Machine.{Reach, run, run-Reach, start, after}
use cynthia.Channel.{
  Channel, Action, sends, receives, try_sends, try_recvs, tells_receiver, sender, receiver, closes,
  tells_senders, tells_receivers, drops_sender, listens, machine, new, can, act, can_own, own,
  try_send, send_as, after_push, try_recv, recv_as, after_pop, tell_receiver, tell_sender,
  close_queue, close_senders, close_receivers, drop_sender, pass_on, leave, passes_on,
}
use cynthia.Queue.Fifo.{push, pop, pop_items, is_full, close}
use cynthia.Channel.Side.{
  count, modify, changed, after_try, listen, wake, after_tell, after_pass, after_leave,
  after_cancel, tell, notify_one, notify_all, can_notify,
}
use cynthia.Channel.Flow.{Move, view}
use cynthia.Channel.Safety.{no_lost_message, no_lost_room, close-wakes}
use cynthia.Channel.Promises.{act-Move, sent_in_order}
use cynthia.Channel.Moves.{deaf, awake, taking_weight}

abbrev two : Option ℕ
two = some 2

-- A receiver sleeps, and a sender has pushed a message and not yet notified.
abbrev one_asleep : List Action
one_asleep =
    receives
    ∷ try_recvs 0
    ∷ receiver listens 0
    ∷ try_recvs 0
    ∷ receiver listens 0
    ∷ sends 7
    ∷ try_sends 0
    ∷ []

abbrev asleep : Channel
asleep = after (machine two) one_asleep

asleep-Reach : Reach (machine two) asleep
unfolding run can act new can_own own try_send send_as after_push push is_full try_recv recv_as
    after_pop pop pop_items tell_receiver tell_sender close_queue close close_senders
    close_receivers drop_sender pass_on leave passes_on modify changed after_try listen wake
    after_tell after_pass after_leave after_cancel tell notify_one notify_all can_notify
asleep-Reach = run-Reach (machine two) one_asleep start refl

no_lost_message_example :
    0 < count (awake (passes_on two)) asleep.receivers + count taking_weight asleep.senders
unfolding run can act new can_own own try_send send_as after_push push is_full try_recv recv_as
    after_pop pop pop_items tell_receiver tell_sender close_queue close close_senders
    close_receivers drop_sender pass_on leave passes_on modify changed after_try listen wake
    after_tell after_pass after_leave after_cancel tell notify_one notify_all can_notify
no_lost_message_example = no_lost_message two asleep-Reach (omega arith) (omega arith)

-- A third message finds no room; then one is received.
abbrev sender_asleep : List Action
sender_asleep =
    sends 7
    ∷ try_sends 0
    ∷ tells_receiver 0 0
    ∷ sends 8
    ∷ try_sends 1
    ∷ tells_receiver 1 0
    ∷ sends 9
    ∷ try_sends 2
    ∷ sender listens 2
    ∷ try_sends 2
    ∷ sender listens 2
    ∷ receives
    ∷ try_recvs 0
    ∷ []

abbrev freed : Channel
freed = after (machine two) sender_asleep

freed-Reach : Reach (machine two) freed
unfolding run can act new can_own own try_send send_as after_push push is_full try_recv recv_as
    after_pop pop pop_items tell_receiver tell_sender close_queue close close_senders
    close_receivers drop_sender pass_on leave passes_on modify changed after_try listen wake
    after_tell after_pass after_leave after_cancel tell notify_one notify_all can_notify
freed-Reach = run-Reach (machine two) sender_asleep start refl

no_lost_room_example :
    0 < count (awake (passes_on two)) freed.senders + count taking_weight freed.receivers
unfolding run can act new can_own own try_send send_as after_push push is_full try_recv recv_as
    after_pop pop pop_items tell_receiver tell_sender close_queue close close_senders
    close_receivers drop_sender pass_on leave passes_on modify changed after_try listen wake
    after_tell after_pass after_leave after_cancel tell notify_one notify_all can_notify
no_lost_room_example = no_lost_room two freed-Reach refl refl (omega arith)

act-Move_example : Move two (view freed) (view (drop_sender freed))
unfolding run can act new can_own own try_send send_as after_push push is_full try_recv recv_as
    after_pop pop pop_items tell_receiver tell_sender close_queue close close_senders
    close_receivers drop_sender pass_on leave passes_on modify changed after_try listen wake
    after_tell after_pass after_leave after_cancel tell notify_one notify_all can_notify
act-Move_example = act-Move two {c' = drop_sender freed} drops_sender freed-Reach refl refl

sent_in_order_example :
    (freed.sent ≡ freed.received ++ freed.queue.items)
    × ((n : ℕ) → two ≡ some n → length freed.queue.items ≤ n)
    × (freed.sender_count ≡ 0 → freed.queue.is_closed ≡ true)
    × (freed.receiver_count ≡ 0 → freed.queue.is_closed ≡ true)
sent_in_order_example = sent_in_order two freed-Reach

abbrev closing : List Action
closing = one_asleep ++ closes ∷ tells_senders ∷ tells_receivers ∷ []

abbrev ended : Channel
ended = after (machine two) closing

ended-Reach : Reach (machine two) ended
unfolding run can act new can_own own try_send send_as after_push push is_full try_recv recv_as
    after_pop pop pop_items tell_receiver tell_sender close_queue close close_senders
    close_receivers drop_sender pass_on leave passes_on modify changed after_try listen wake
    after_tell after_pass after_leave after_cancel tell notify_one notify_all can_notify
ended-Reach = run-Reach (machine two) closing start refl

close-wakes_example : (count deaf ended.senders ≡ 0) × (count deaf ended.receivers ≡ 0)
unfolding run can act new can_own own try_send send_as after_push push is_full try_recv recv_as
    after_pop pop pop_items tell_receiver tell_sender close_queue close close_senders
    close_receivers drop_sender pass_on leave passes_on modify changed after_try listen wake
    after_tell after_pass after_leave after_cancel tell notify_one notify_all can_notify
close-wakes_example = close-wakes two ended-Reach refl refl refl
