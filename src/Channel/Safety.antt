-- ===== src/Channel/Safety.antt =====
-- cynthia/src/platform/channel/channel.rs: no task sleeps while it could send or receive.
use cynthia.Base.{
  ℕ, zero, suc, ◌+◌, ◌-◌, ◌/◌, ◌<◌, ◌≡◌, refl, sym, subst, ◌∷◌, ◌++◌, true, false, if_holds, ltb,
  ◌==◌, Option, some, some_kept, kept_unless, [], length, arith,
}
use cynthia.Base.Word.{usize_max}
use cynthia.Base.Machine.{Reach, Reach-Keeps}
use cynthia.Queue.Fifo.{is_full}
use cynthia.Channel.{
  Channel, Action, sends, receives, try_sends, try_recvs, tells_receiver, tells_sender, sender,
  receiver, closes, tells_senders, tells_receivers, clones_sender, clones_receiver, drops_sender,
  drops_receiver, can, act, machine, new, own, can_own, Own, passes_on, clone_sender,
  clone_receiver, drop_sender, drop_receiver, newcomer,
}
use cynthia.Channel.Side.{count}
use cynthia.Channel.Moves.{deaf, awake, taking_weight}
use cynthia.Channel.Alert.{Alert-own}
use cynthia.Channel.Counts.{own-deaf, own-taking, Alert-begins, begins-deaf, begins-taking}
use cynthia.Channel.Inv.{
  Inv, senders-Inv, receivers-Inv, close_queue-Inv, tells_senders-Inv, tells_receivers-Inv,
  tell_receiver-Inv, tell_sender-Inv,
}
use cynthia.Channel.Tries.{try_send-Inv, try_recv-Inv}

none_left : (n : ℕ) → (0 < n → 0 < 0) → n ≡ 0
none_left zero f = refl
none_left (suc n) f = absurd (omega (arith, f (omega arith)))

module _ (cap : Option ℕ) where
  -- The counts of handles are of no matter here.
  counts-Inv :
      (c : Channel) (m n : ℕ)
      → Inv cap c
      → Inv cap (record c { sender_count = m; receiver_count = n })
  counts-Inv c m n v = record {
    same_cap = v.same_cap;
    room = v.room;
    items = v.items;
    single = v.single;
    closed_senders = v.closed_senders;
    closed_receivers = v.closed_receivers;
  }

  own_sender-Inv :
      (o : Own) (i : ℕ) (c : Channel)
      → can (sender o i) c ≡ true
      → Inv cap c
      → Inv cap (record c { senders = own (passes_on c.queue.capacity) o i c.senders })
  unfolding can
  own_sender-Inv o i c h v =
      subst
        (λ k.
          can_own (passes_on k) o i c.senders ≡ true
          → Inv cap (record c { senders = own (passes_on k) o i c.senders }))
        (sym v.same_cap)
        (λ g.
          senders-Inv cap c (own (passes_on cap) o i c.senders) v
            (λ n a. Alert-own (passes_on cap) o i c.senders n g a)
            (own-deaf (passes_on cap) o i c.senders) (own-taking (passes_on cap) o i c.senders))
        h

  own_receiver-Inv :
      (o : Own) (i : ℕ) (c : Channel)
      → can (receiver o i) c ≡ true
      → Inv cap c
      → Inv cap (record c { receivers = own (passes_on c.queue.capacity) o i c.receivers })
  unfolding can
  own_receiver-Inv o i c h v =
      subst
        (λ k.
          can_own (passes_on k) o i c.receivers ≡ true
          → Inv cap (record c { receivers = own (passes_on k) o i c.receivers }))
        (sym v.same_cap)
        (λ g.
          receivers-Inv cap c (own (passes_on cap) o i c.receivers) v
            (λ n a. Alert-own (passes_on cap) o i c.receivers n g a)
            (own-deaf (passes_on cap) o i c.receivers) (own-taking (passes_on cap) o i c.receivers))
        h

  act-Inv :
      (a : Action) (c c' : Channel) → Inv cap c → can a c ≡ true → act a c ≡ some c' → Inv cap c'
  unfolding can act clone_sender clone_receiver drop_sender drop_receiver
  act-Inv (sends m) c c' v h e = some_kept (Inv cap) _ e (
      senders-Inv cap c (c.senders ++ newcomer m ∷ []) v (Alert-begins (passes_on cap) c.senders m)
        (begins-deaf c.senders m) (begins-taking c.senders m))
  act-Inv receives c c' v h e = some_kept (Inv cap) _ e (
      receivers-Inv cap c (c.receivers ++ newcomer 0 ∷ []) v
        (Alert-begins (passes_on cap) c.receivers 0) (begins-deaf c.receivers 0)
        (begins-taking c.receivers 0))
  act-Inv (try_sends i) c c' v h e = some_kept (Inv cap) _ e (try_send-Inv cap i c v)
  act-Inv (try_recvs i) c c' v h e = some_kept (Inv cap) _ e (try_recv-Inv cap i c v)
  act-Inv (tells_receiver i j) c c' v h e =
      some_kept (Inv cap) _ e (tell_receiver-Inv cap i j c h v)
  act-Inv (tells_sender i j) c c' v h e = some_kept (Inv cap) _ e (tell_sender-Inv cap i j c h v)
  act-Inv (sender o i) c c' v h e = some_kept (Inv cap) _ e (own_sender-Inv o i c h v)
  act-Inv (receiver o i) c c' v h e = some_kept (Inv cap) _ e (own_receiver-Inv o i c h v)
  act-Inv closes c c' v h e = some_kept (Inv cap) _ e (close_queue-Inv cap c v)
  act-Inv tells_senders c c' v h e = some_kept (Inv cap) _ e (tells_senders-Inv cap c h v)
  act-Inv tells_receivers c c' v h e = some_kept (Inv cap) _ e (tells_receivers-Inv cap c v)
  act-Inv clones_sender c c' v h e =
      kept_unless (Inv cap) (ltb (usize_max / 2) c.sender_count) e
        (counts-Inv c (c.sender_count + 1) c.receiver_count v)
  act-Inv clones_receiver c c' v h e =
      kept_unless (Inv cap) (ltb (usize_max / 2) c.receiver_count) e
        (counts-Inv c c.sender_count (c.receiver_count + 1) v)
  act-Inv drops_sender c c' v h e =
      let less = counts-Inv c (c.sender_count - 1) c.receiver_count v in
      some_kept (Inv cap) _ e
        (if_holds (Inv cap) (c.sender_count == 1) (λ _. close_queue-Inv cap _ less) (λ _. less))
  act-Inv drops_receiver c c' v h e =
      let less = counts-Inv c c.sender_count (c.receiver_count - 1) v in
      some_kept (Inv cap) _ e
        (if_holds (Inv cap) (c.receiver_count == 1) (λ _. close_queue-Inv cap _ less) (λ _. less))

  new-Inv : Inv cap (new cap)
  unfolding new
  new-Inv = record {
    same_cap = refl;
    room = λ _ _ d. elim d [ ];
    items = λ p. elim p [ ];
    single = λ _. omega arith;
    closed_senders = λ _ d. elim d [ ];
    closed_receivers = λ _ d. elim d [ ];
  }

  Reach-Inv : {c : Channel} → Reach (machine cap) c → Inv cap c
  Reach-Inv = Reach-Keeps (machine cap) (Inv cap) (record { at_first = new-Inv; at_step = act-Inv })

  module _ {c : Channel} (r : Reach (machine cap) c) where
    -- In every reachable state of a channel: if there is a message and a receiver sleeps without a
    -- notification, then another receiver is awake that will try again or notify one (a success
    -- notifies unless the capacity is 1), or a sender is about to notify one.
    pub no_lost_message :
        0 < length c.queue.items
        → 0 < count deaf c.receivers
        → 0 < count (awake (passes_on cap)) c.receivers + count taking_weight c.senders
    no_lost_message = (Reach-Inv r).items

    -- In every reachable state of a channel that is open and not full: if a sender sleeps without a
    -- notification, then another sender is awake that will try again or notify one, or a receiver is
    -- about to notify one.
    pub no_lost_room :
        c.queue.is_closed ≡ false
        → is_full c.queue ≡ false
        → 0 < count deaf c.senders
        → 0 < count (awake (passes_on cap)) c.senders + count taking_weight c.receivers
    no_lost_room = (Reach-Inv r).room

    -- In every reachable state of a closed channel in which every call of `close` has made its
    -- notifications, no sender and no receiver sleeps without a notification.
    pub close-wakes :
        c.queue.is_closed ≡ true
        → c.tell_senders ≡ 0
        → c.tell_receivers ≡ 0
        → (count deaf c.senders ≡ 0) × (count deaf c.receivers ≡ 0)
    close-wakes e s t = (
      none_left (count deaf c.senders) (λ d. omega (arith, s, (Reach-Inv r).closed_senders e d)),
      none_left (count deaf c.receivers)
          (λ d. omega (arith, s, t, (Reach-Inv r).closed_receivers e d)),
    )
