-- ===== src/Channel/Inv.antt =====
-- cynthia/src/platform/channel/channel.rs: what holds of every state of a channel.
use cynthia.Base.{
  ℕ, ◌+◌, ◌≤◌, ◌<◌, ◌≡◌, refl, Bool, true, false, not, if_holds, ltb, Option, List, length, arith,
  tests,
}
use cynthia.Queue.Fifo.{close, is_full}
use cynthia.Channel
use cynthia.Channel.{
  Channel, Action, passes_on, try_send, after_push, try_recv, after_pop, tell_receiver, tell_sender,
  close_queue, newcomer, own, can_own,
}
use cynthia.Channel.Side.{Task, modify, after_tell, count, is_taking, notify_one, can_notify}
use cynthia.Channel.Moves.{deaf, taking_weight, count-modify_le, count-notify_all}
use cynthia.Channel.Alert.{
  Alert, Alert-more, Alert-Benign, Alert-notify, Alert-all, tell-Benign, notify_one-deaf,
  notify_one-taking,
}
use cynthia.Channel.Counts.{notify_all-taking}

pub record Inv (cap : Option ℕ) (c : Channel) : Type 0 where
  pub same_cap : c.queue.capacity ≡ cap
  pub room :
      c.queue.is_closed ≡ false
      → is_full c.queue ≡ false
      → Alert (passes_on cap) c.senders (count taking_weight c.receivers)
  pub items :
      0 < length c.queue.items → Alert (passes_on cap) c.receivers (count taking_weight c.senders)
  pub single : passes_on cap ≡ false → length c.queue.items ≤ 1
  pub closed_senders : c.queue.is_closed ≡ true → 0 < count deaf c.senders → 0 < c.tell_senders
  pub closed_receivers :
      c.queue.is_closed ≡ true → 0 < count deaf c.receivers → 0 < c.tell_senders + c.tell_receivers

not-false : (b : Bool) → not b ≡ false → b ≡ true
not-false true e = refl
not-false false e = cc e

module _ (cap : Option ℕ) where
  -- A step of the senders alone that puts none to sleep.
  pub senders-Inv :
      (c : Channel) (ts : List Task)
      → Inv cap c
      → ((n : ℕ) → Alert (passes_on cap) c.senders n → Alert (passes_on cap) ts n)
      → count deaf ts ≤ count deaf c.senders
      → count taking_weight c.senders ≤ count taking_weight ts
      → Inv cap (record c { senders = ts })
  senders-Inv c ts v a d t = record {
    same_cap = v.same_cap;
    room = λ open_ free. a (count taking_weight c.receivers) (v.room open_ free);
    items = λ some_. Alert-more (passes_on cap) c.receivers t (v.items some_);
    single = v.single;
    closed_senders = λ e more. v.closed_senders e (omega (arith, d, more));
    closed_receivers = v.closed_receivers;
  }

  pub receivers-Inv :
      (c : Channel) (ts : List Task)
      → Inv cap c
      → ((n : ℕ) → Alert (passes_on cap) c.receivers n → Alert (passes_on cap) ts n)
      → count deaf ts ≤ count deaf c.receivers
      → count taking_weight c.receivers ≤ count taking_weight ts
      → Inv cap (record c { receivers = ts })
  receivers-Inv c ts v a d t = record {
    same_cap = v.same_cap;
    room = λ open_ free. Alert-more (passes_on cap) c.senders t (v.room open_ free);
    items = λ some_. a (count taking_weight c.senders) (v.items some_);
    single = v.single;
    closed_senders = v.closed_senders;
    closed_receivers = λ e more. v.closed_receivers e (omega (arith, d, more));
  }

  pub close_queue-Inv : (c : Channel) → Inv cap c → Inv cap (close_queue c)
  unfolding close_queue close
  close_queue-Inv c v =
      if_holds (Inv cap) (not c.queue.is_closed)
        (λ _. record {
          same_cap = v.same_cap;
          room = λ open_ free d. cc open_;
          items = v.items;
          single = v.single;
          closed_senders = λ _ _. omega arith;
          closed_receivers = λ _ _. omega arith;
        })
        (λ e. record {
          same_cap = v.same_cap;
          room = λ open_ free d. cc open_;
          items = v.items;
          single = v.single;
          closed_senders = λ _. v.closed_senders (not-false c.queue.is_closed e);
          closed_receivers = λ _. v.closed_receivers (not-false c.queue.is_closed e);
        })

  pub tells_senders-Inv :
      (c : Channel) → ltb 0 c.tell_senders ≡ true → Inv cap c → Inv cap (Channel.close_senders c)
  unfolding Channel.close_senders
  tells_senders-Inv c h v = record {
    same_cap = v.same_cap;
    room = λ _ _. Alert-all (passes_on cap) c.senders (count taking_weight c.receivers);
    items = λ some_.
        Alert-more (passes_on cap) c.receivers (notify_all-taking c.senders) (v.items some_);
    single = v.single;
    closed_senders = λ _ d. absurd (omega (arith, d, count-notify_all c.senders));
    closed_receivers = λ e d. omega (tests, h, v.closed_receivers e d);
  }

  pub tells_receivers-Inv : (c : Channel) → Inv cap c → Inv cap (Channel.close_receivers c)
  unfolding Channel.close_receivers
  tells_receivers-Inv c v = record {
    same_cap = v.same_cap;
    room = λ open_ free.
        Alert-more (passes_on cap) c.senders (notify_all-taking c.receivers) (v.room open_ free);
    items = λ some_. Alert-all (passes_on cap) c.receivers (count taking_weight c.senders);
    single = v.single;
    closed_senders = v.closed_senders;
    closed_receivers = λ _ d. absurd (omega (arith, d, count-notify_all c.receivers));
  }

  -- `Sender` notifies a receiver, and a receiver a sender.
  pub tell_receiver-Inv :
      (i j : ℕ) (c : Channel)
      → can_notify j c.receivers ≡ true
      → Inv cap c
      → Inv cap (tell_receiver i j c)
  unfolding tell_receiver after_tell
  tell_receiver-Inv i j c h v =
      if_holds (Inv cap) (is_taking i c.senders)
        (λ e. record {
          same_cap = v.same_cap;
          room = λ open_ free.
              Alert-Benign (passes_on cap) i c.senders
                (count taking_weight (notify_one j c.receivers)) (tell-Benign (passes_on cap))
                (Alert-more (passes_on cap) c.senders (notify_one-taking j c.receivers)
                  (v.room open_ free));
          items = λ some_.
              Alert-notify (passes_on cap) j c.receivers
                (count taking_weight (modify after_tell i c.senders)) h;
          single = v.single;
          closed_senders = λ e d. v.closed_senders e (
              omega
                (arith, d, count-modify_le after_tell i c.senders deaf (tell-Benign true).sleeps));
          closed_receivers =
              λ e d. v.closed_receivers e (omega (arith, d, notify_one-deaf j c.receivers));
        })
        (λ e. v)

  pub tell_sender-Inv :
      (i j : ℕ) (c : Channel)
      → can_notify j c.senders ≡ true
      → Inv cap c
      → Inv cap (tell_sender i j c)
  unfolding tell_sender after_tell
  tell_sender-Inv i j c h v =
      if_holds (Inv cap) (is_taking i c.receivers)
        (λ e. record {
          same_cap = v.same_cap;
          room = λ open_ free.
              Alert-notify (passes_on cap) j c.senders
                (count taking_weight (modify after_tell i c.receivers)) h;
          items = λ some_.
              Alert-Benign (passes_on cap) i c.receivers
                (count taking_weight (notify_one j c.senders)) (tell-Benign (passes_on cap))
                (Alert-more (passes_on cap) c.receivers (notify_one-taking j c.senders)
                  (v.items some_));
          single = v.single;
          closed_senders =
              λ e d. v.closed_senders e (omega (arith, d, notify_one-deaf j c.senders));
          closed_receivers = λ e d. v.closed_receivers e (
              omega (
                arith,
                d,
                count-modify_le after_tell i c.receivers deaf (tell-Benign true).sleeps,
              ));
        })
        (λ e. v)
