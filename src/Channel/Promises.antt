-- ===== src/Channel/Promises.antt =====
-- cynthia/src/platform/channel/channel.rs: what a channel promises those who use it.
use cynthia.Base.{
  ℕ, ◌≤◌, ◌≡◌, refl, ap, sym, ◌∙◌, true, Option, some, [], ◌∷◌, ◌++◌, length, length-append, arith,
  tests,
}
use mathlib.Core.List.{append_assoc}
use cynthia.Base.Machine.{Reach, Reach-Keeps}
use cynthia.Channel.{Channel, Action, can, act, machine, new}
use cynthia.Channel.Flow.{
  View, view, Move, rests, sends_one, receives_one, shuts, adds_sender, adds_receiver, loses_sender,
  loses_receiver, loses_last_sender, loses_last_receiver, has_room, act-Goes,
}

module _ (cap : Option ℕ) where
  record Fair (w : View) : Type 0 where
    order : w.sent ≡ w.received ++ w.items
    bound : (n : ℕ) → cap ≡ some n → length w.items ≤ n
    senders : w.sender_count ≡ 0 → w.is_closed ≡ true
    receivers : w.receiver_count ≡ 0 → w.is_closed ≡ true

  fits :
      (w : View) (m n : ℕ)
      → has_room cap w.items ≡ true
      → cap ≡ some n
      → length (w.items ++ m ∷ []) ≤ n
  fits w m n h e =
      let room = sym (ap (λ k. has_room k w.items) e) ∙ h in
      omega (tests, room, length-append w.items (m ∷ []))

  Move-Fair : {w w' : View} → Move cap w w' → Fair w → Fair w'
  Move-Fair rests f = f
  Move-Fair {w} (sends_one m o h) f = record {
    order = ap (λ l. l ++ m ∷ []) f.order ∙ append_assoc w.received w.items (m ∷ []);
    bound = λ n e. fits w m n h e;
    senders = f.senders;
    receivers = f.receivers;
  }
  Move-Fair {w} (receives_one m rest q) f = record {
    order = f.order ∙ ap (λ l. w.received ++ l) q ∙ sym (append_assoc w.received (m ∷ []) rest);
    bound = λ n e. omega (arith, f.bound n e, ap length q);
    senders = f.senders;
    receivers = f.receivers;
  }
  Move-Fair shuts f = record {
    order = f.order;
    bound = f.bound;
    senders = λ _. refl;
    receivers = λ _. refl;
  }
  Move-Fair (adds_sender p) f = record {
    order = f.order;
    bound = f.bound;
    senders = λ e. absurd (omega (arith, e));
    receivers = f.receivers;
  }
  Move-Fair (adds_receiver p) f = record {
    order = f.order;
    bound = f.bound;
    senders = f.senders;
    receivers = λ e. absurd (omega (arith, e));
  }
  Move-Fair (loses_sender p) f = record {
    order = f.order;
    bound = f.bound;
    senders = λ e. absurd (omega (arith, e, p));
    receivers = f.receivers;
  }
  Move-Fair (loses_receiver p) f = record {
    order = f.order;
    bound = f.bound;
    senders = f.senders;
    receivers = λ e. absurd (omega (arith, e, p));
  }
  Move-Fair (loses_last_sender p) f = record {
    order = f.order;
    bound = f.bound;
    senders = λ _. refl;
    receivers = λ _. refl;
  }
  Move-Fair (loses_last_receiver p) f = record {
    order = f.order;
    bound = f.bound;
    senders = λ _. refl;
    receivers = λ _. refl;
  }

  new-Fair : Fair (view (new cap))
  unfolding new
  new-Fair = record {
    order = refl;
    bound = λ n e. omega arith;
    senders = λ e. absurd (omega (arith, e));
    receivers = λ e. absurd (omega (arith, e));
  }

  record Kept (c : Channel) : Type 0 where
    same_cap : c.queue.capacity ≡ cap
    fair : Fair (view c)

  act-Kept : (a : Action) (c c' : Channel) → Kept c → can a c ≡ true → act a c ≡ some c' → Kept c'
  act-Kept a c c' v h e =
      let (k, moves) = act-Goes cap a c c' v.same_cap h e in
      record { same_cap = k; fair = Move-Fair moves v.fair }

  new-Kept : Kept (new cap)
  unfolding new
  new-Kept = record { same_cap = refl; fair = new-Fair }

  Reach-Kept : {c : Channel} → Reach (machine cap) c → Kept c
  Reach-Kept = Reach-Keeps (machine cap) Kept (record { at_first = new-Kept; at_step = act-Kept })

  -- Every step from a reachable state of a channel is one of the moves of a bounded queue with
  -- handles: to change nothing that users see, to send a message into an open queue with room, to
  -- receive the oldest message, to close, to add a handle to one that is there, or to drop one,
  -- which closes the channel if it is the last of its kind.
  pub act-Move :
      {c c' : Channel} (a : Action)
      → Reach (machine cap) c
      → can a c ≡ true
      → act a c ≡ some c'
      → Move cap (view c) (view c')
  act-Move {c} {c'} a r h e = (act-Goes cap a c c' (Reach-Kept r).same_cap h e).1

  module _ {c : Channel} (r : Reach (machine cap) c) where
    -- In every reachable state of a channel the messages sent are those received and then those in
    -- the queue, in this order; a channel of capacity `n` holds at most `n`; and it is closed if no
    -- sender is left or no receiver.
    pub sent_in_order :
        (c.sent ≡ c.received ++ c.queue.items)
        × ((n : ℕ) → cap ≡ some n → length c.queue.items ≤ n)
        × (c.sender_count ≡ 0 → c.queue.is_closed ≡ true)
        × (c.receiver_count ≡ 0 → c.queue.is_closed ≡ true)
    sent_in_order = let f = (Reach-Kept r).fair in (f.order, f.bound, f.senders, f.receivers)
