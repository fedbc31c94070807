-- ===== src/Channel/Flow.antt =====
-- cynthia/src/platform/channel/channel.rs: the messages and the handles of a channel, without its
-- tasks.
use cynthia.Base.{
  ℕ, ◌+◌, ◌-◌, ◌/◌, ◌<◌, ◌≡◌, refl, subst, Bool, true, false, not, if_holds, ltb, leb, ◌==◌, Option,
  none, some, some_kept, kept_unless, List, [], ◌∷◌, ◌++◌, length, arith, tests, get_elem?,
}
use cynthia.Base.Word.{usize_max}
use cynthia.Queue.Fifo.{Fifo, unpopped, push, pop, pop_items, close, is_full}
use cynthia.Channel
use cynthia.Channel.{
  Channel, Action, sends, receives, try_sends, try_recvs, tells_receiver, tells_sender, sender,
  receiver, closes, tells_senders, tells_receivers, clones_sender, clones_receiver, drops_sender,
  drops_receiver, can, act, machine, new, clone_sender, clone_receiver, drop_sender, drop_receiver,
  close_queue, send_as, try_send, after_push, recv_as, try_recv, after_pop, tell_receiver,
  tell_sender,
}
use cynthia.Channel.Side.{Task, is_trying, is_taking}

-- What the users of a channel see of it.
pub record View : Type 0 where
  pub items : List ℕ
  pub is_closed : Bool
  pub sent : List ℕ
  pub received : List ℕ
  pub sender_count : ℕ
  pub receiver_count : ℕ

abbrev pub view : Channel → View
view c = record {
  items = c.queue.items;
  is_closed = c.queue.is_closed;
  sent = c.sent;
  received = c.received;
  sender_count = c.sender_count;
  receiver_count = c.receiver_count;
}

abbrev pub has_room : Option ℕ → List ℕ → Bool
has_room none l = true
has_room (some n) l = ltb (length l) n

abbrev pub shut_view : View → View
shut_view w = record w { is_closed = true }

-- What may happen to a channel of the capacity `cap`.
pub data Move (cap : Option ℕ) : View → View → Type 0 where
  rests : {w : View} → Move cap w w
  sends_one :
      {w : View} (m : ℕ)
      → w.is_closed ≡ false
      → has_room cap w.items ≡ true
      → Move cap w (record w { items = w.items ++ m ∷ []; sent = w.sent ++ m ∷ [] })
  receives_one :
      {w : View} (m : ℕ) (rest : List ℕ)
      → w.items ≡ m ∷ rest
      → Move cap w (record w { items = rest; received = w.received ++ m ∷ [] })
  shuts : {w : View} → Move cap w (shut_view w)
  adds_sender :
      {w : View} → 0 < w.sender_count → Move cap w (record w { sender_count = w.sender_count + 1 })
  adds_receiver :
      {w : View}
      → 0 < w.receiver_count
      → Move cap w (record w { receiver_count = w.receiver_count + 1 })
  loses_sender :
      {w : View} → 1 < w.sender_count → Move cap w (record w { sender_count = w.sender_count - 1 })
  loses_receiver :
      {w : View}
      → 1 < w.receiver_count
      → Move cap w (record w { receiver_count = w.receiver_count - 1 })
  loses_last_sender :
      {w : View}
      → w.sender_count ≡ 1
      → Move cap w (shut_view (record w { sender_count = w.sender_count - 1 }))
  loses_last_receiver :
      {w : View}
      → w.receiver_count ≡ 1
      → Move cap w (shut_view (record w { receiver_count = w.receiver_count - 1 }))

room_of : (q : Fifo) → is_full q ≡ false → has_room q.capacity q.items ≡ true
unfolding is_full
room_of q h = at_cap q.capacity h
  where
    at_cap :
        (cap : Option ℕ)
        → (elim cap [ none ↦ false | some n ↦ leb n (length q.items) ]) ≡ false
        → has_room cap q.items ≡ true
    at_cap none h = refl
    at_cap (some n) h = ground (arith, h)

module _ (cap : Option ℕ) where
  -- One step, which keeps the capacity.
  abbrev Goes : Channel → Channel → Type 0
  Goes c c' = (c'.queue.capacity ≡ cap) × Move cap (view c) (view c')

  close_queue-Goes :
      (c d : Channel)
      → d.queue.capacity ≡ cap
      → Move cap (view c) (shut_view (view d))
      → Goes c (close_queue d)
  unfolding close_queue close
  close_queue-Goes c d k f = if_holds (Goes c) (not d.queue.is_closed) (λ _. (k, f)) (λ _. (k, f))

  send_as-Goes :
      (i : ℕ) (c : Channel) (o : Option Task) → c.queue.capacity ≡ cap → Goes c (send_as i c o)
  unfolding send_as push after_push
  send_as-Goes i c none k = (k, rests)
  send_as-Goes i c (some t) k =
      if_holds (Goes c) (is_trying t.phase)
        (λ _.
          if_holds (λ r. Goes c (after_push i t.msg r c)) c.queue.is_closed (λ _. (k, rests))
            (λ o.
              if_holds (λ r. Goes c (after_push i t.msg r c)) (is_full c.queue) (λ _. (k, rests))
                (λ f. (
                  k,
                  sends_one t.msg o
                      (subst (λ b. has_room b c.queue.items ≡ true) k (room_of c.queue f)),
                ))))
        (λ _. (k, rests))

  pop_items-Goes :
      (i : ℕ) (c : Channel) (l : List ℕ)
      → c.queue.items ≡ l
      → c.queue.capacity ≡ cap
      → Goes c (after_pop i (pop_items c.queue l) c)
  unfolding pop_items after_pop
  pop_items-Goes i c [] e k =
      if_holds (λ r. Goes c (after_pop i (unpopped r) c)) c.queue.is_closed (λ _. (k, rests))
        (λ _. (k, rests))
  pop_items-Goes i c (m ∷ rest) e k = (k, receives_one m rest e)

  recv_as-Goes :
      (i : ℕ) (c : Channel) (o : Option Task) → c.queue.capacity ≡ cap → Goes c (recv_as i c o)
  unfolding recv_as pop
  recv_as-Goes i c none k = (k, rests)
  recv_as-Goes i c (some t) k =
      if_holds (Goes c) (is_trying t.phase) (λ _. pop_items-Goes i c c.queue.items refl k)
        (λ _. (k, rests))

  last_sender : (c : Channel) → c.queue.capacity ≡ cap → 0 < c.sender_count → Goes c (drop_sender c)
  unfolding drop_sender
  last_sender c k p =
      if_holds (Goes c) (c.sender_count == 1)
        (λ e.
          close_queue-Goes c (record c { sender_count = c.sender_count - 1 }) k
            (loses_last_sender (ground (arith, e))))
        (λ e. (k, loses_sender (ground (arith, e, p))))

  last_receiver :
      (c : Channel) → c.queue.capacity ≡ cap → 0 < c.receiver_count → Goes c (drop_receiver c)
  unfolding drop_receiver
  last_receiver c k p =
      if_holds (Goes c) (c.receiver_count == 1)
        (λ e.
          close_queue-Goes c (record c { receiver_count = c.receiver_count - 1 }) k
            (loses_last_receiver (ground (arith, e))))
        (λ e. (k, loses_receiver (ground (arith, e, p))))

  pub act-Goes :
      (a : Action) (c c' : Channel)
      → c.queue.capacity ≡ cap
      → can a c ≡ true
      → act a c ≡ some c'
      → Goes c c'
  unfolding can act clone_sender clone_receiver try_send try_recv tell_receiver tell_sender
      Channel.close_senders Channel.close_receivers
  act-Goes (sends m) c c' k h e = some_kept (Goes c) _ e (k, rests)
  act-Goes receives c c' k h e = some_kept (Goes c) _ e (k, rests)
  act-Goes (try_sends i) c c' k h e =
      some_kept (Goes c) _ e (send_as-Goes i c (get_elem? c.senders i) k)
  act-Goes (try_recvs i) c c' k h e =
      some_kept (Goes c) _ e (recv_as-Goes i c (get_elem? c.receivers i) k)
  act-Goes (tells_receiver i j) c c' k h e =
      some_kept (Goes c) _ e
        (if_holds (Goes c) (is_taking i c.senders) (λ _. (k, rests)) (λ _. (k, rests)))
  act-Goes (tells_sender i j) c c' k h e =
      some_kept (Goes c) _ e
        (if_holds (Goes c) (is_taking i c.receivers) (λ _. (k, rests)) (λ _. (k, rests)))
  act-Goes (sender o i) c c' k h e = some_kept (Goes c) _ e (k, rests)
  act-Goes (receiver o i) c c' k h e = some_kept (Goes c) _ e (k, rests)
  act-Goes closes c c' k h e = some_kept (Goes c) _ e (close_queue-Goes c c k shuts)
  act-Goes tells_senders c c' k h e = some_kept (Goes c) _ e (k, rests)
  act-Goes tells_receivers c c' k h e = some_kept (Goes c) _ e (k, rests)
  act-Goes clones_sender c c' k h e =
      kept_unless (Goes c) (ltb (usize_max / 2) c.sender_count) e
        (k, adds_sender (omega (tests, h)))
  act-Goes clones_receiver c c' k h e =
      kept_unless (Goes c) (ltb (usize_max / 2) c.receiver_count) e
        (k, adds_receiver (omega (tests, h)))
  act-Goes drops_sender c c' k h e = some_kept (Goes c) _ e (last_sender c k (omega (tests, h)))
  act-Goes drops_receiver c c' k h e = some_kept (Goes c) _ e (last_receiver c k (omega (tests, h)))
