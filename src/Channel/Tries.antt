-- ===== src/Channel/Tries.antt =====
-- cynthia/src/platform/channel/channel.rs: `try_send` and `try_recv` keep what holds of a channel.
use cynthia.Base.{
  ℕ, ◌≡◌, refl, ap, sym, subst, ◌∙◌, true, false, if_holds, Option, none, some, List, [], ◌∷◌, ◌++◌,
  length, length-append, get_elem?, arith,
}
use cynthia.Queue.Fifo.{pushed, popped, unpopped, push, pop, is_full, pop_items}
use cynthia.Channel.{
  Channel, passes_on, send_as, recv_as, try_send, after_push, try_recv, after_pop,
}
use cynthia.Channel.Side.{Task, succeeded, blocked, shut, modify, after_try, count, is_trying}
use cynthia.Channel.Moves.{taking_weight}
use cynthia.Channel.Alert.{Alert, Alert-more, Alert-Benign, succeeded-Benign}
use cynthia.Channel.Inv.{Inv}
use cynthia.Channel.Attempts.{
  try-taking, succeeded-deaf, shut-deaf, succeeded-taking, one_at_most, by_passing,
}

module _ (cap : Option ℕ) where
  module _ (i : ℕ) (c : Channel) (v : Inv cap c) where
    shut_send :
        c.queue.is_closed ≡ true
        → Inv cap (record c { senders = modify (after_try shut) i c.senders })
    shut_send e = record {
      same_cap = v.same_cap;
      room = λ open_ free d. cc (sym e ∙ open_);
      items = λ some_.
          Alert-more (passes_on cap) c.receivers (try-taking shut i c.senders) (v.items some_);
      single = v.single;
      closed_senders = λ e d. v.closed_senders e (omega (arith, d, shut-deaf i c.senders));
      closed_receivers = v.closed_receivers;
    }

    blocked_send :
        c.queue.is_closed ≡ false
        → is_full c.queue ≡ true
        → Inv cap (record c { senders = modify (after_try blocked) i c.senders })
    blocked_send o f = record {
      same_cap = v.same_cap;
      room = λ open_ free d. cc (sym f ∙ free);
      items = λ some_.
          Alert-more (passes_on cap) c.receivers (try-taking blocked i c.senders) (v.items some_);
      single = v.single;
      closed_senders = λ e d. cc (sym o ∙ e);
      closed_receivers = v.closed_receivers;
    }

    sent_ :
        (m : ℕ) {t : Task}
        → get_elem? c.senders i ≡ some t
        → is_trying t.phase ≡ true
        → c.queue.is_closed ≡ false
        → is_full c.queue ≡ false
        → Inv cap (after_push i m (pushed (record c.queue { items = c.queue.items ++ m ∷ [] })) c)
    unfolding after_push
    sent_ m e h o f = record {
      same_cap = v.same_cap;
      room = λ _ free.
          by_passing
            (λ on.
              Alert on (modify (after_try succeeded) i c.senders) (count taking_weight c.receivers))
            (passes_on cap)
            (λ on.
              Alert-Benign true i c.senders (count taking_weight c.receivers) succeeded-Benign
                (subst (λ b. Alert b c.senders (count taking_weight c.receivers)) on (v.room o f)))
            (λ off d. absurd (
              ground (
                arith,
                one_at_most (record c.queue { items = c.queue.items ++ m ∷ [] })
                    (ap passes_on v.same_cap ∙ off) free,
                length-append c.queue.items (m ∷ []),
              )));
      items = λ some_ d. omega (arith, succeeded-taking i c.senders e h);
      single = λ off. omega (
        arith,
        length-append c.queue.items (m ∷ []),
        one_at_most c.queue (ap passes_on v.same_cap ∙ off) f,
      );
      closed_senders = λ e d. cc (sym o ∙ e);
      closed_receivers = λ e d. cc (sym o ∙ e);
    }

  send_as-Inv :
      (i : ℕ) (c : Channel) (o : Option Task)
      → get_elem? c.senders i ≡ o
      → Inv cap c
      → Inv cap (send_as i c o)
  unfolding send_as push after_push
  send_as-Inv i c none e v = v
  send_as-Inv i c (some t) e v =
      if_holds (Inv cap) (is_trying t.phase)
        (λ h.
          if_holds (λ r. Inv cap (after_push i t.msg r c)) c.queue.is_closed (shut_send i c v)
            (λ o.
              if_holds (λ r. Inv cap (after_push i t.msg r c)) (is_full c.queue)
                (blocked_send i c v o) (sent_ i c v t.msg e h o)))
        (λ _. v)

  pub try_send-Inv : (i : ℕ) (c : Channel) → Inv cap c → Inv cap (try_send i c)
  unfolding try_send
  try_send-Inv i c v = send_as-Inv i c (get_elem? c.senders i) refl v

  module _ (i : ℕ) (c : Channel) (v : Inv cap c) where
    received_ :
        (m : ℕ) (rest : List ℕ) {t : Task}
        → get_elem? c.receivers i ≡ some t
        → is_trying t.phase ≡ true
        → c.queue.items ≡ m ∷ rest
        → Inv cap (after_pop i (popped m (record c.queue { items = rest })) c)
    unfolding after_pop is_full
    received_ m rest e h q = record {
      same_cap = v.same_cap;
      room = λ _ _ d. omega (arith, succeeded-taking i c.receivers e h);
      items = λ some_.
          by_passing
            (λ on.
              Alert on (modify (after_try succeeded) i c.receivers) (count taking_weight c.senders))
            (passes_on cap)
            (λ on.
              Alert-Benign true i c.receivers (count taking_weight c.senders) succeeded-Benign (
                subst (λ b. Alert b c.receivers (count taking_weight c.senders)) on
                  (v.items (omega (arith, ap length q)))))
            (λ off d. absurd (omega (arith, some_, ap length q, v.single off)));
      single = λ off. omega (arith, ap length q, v.single off);
      closed_senders = v.closed_senders;
      closed_receivers =
          λ e d. v.closed_receivers e (omega (arith, d, succeeded-deaf i c.receivers));
    }

    shut_recv :
        c.queue.items ≡ []
        → c.queue.is_closed ≡ true
        → Inv cap (record c { receivers = modify (after_try shut) i c.receivers })
    shut_recv q e = record {
      same_cap = v.same_cap;
      room = λ open_ free d. cc (sym e ∙ open_);
      items = λ some_ d. absurd (omega (arith, some_, ap length q));
      single = v.single;
      closed_senders = v.closed_senders;
      closed_receivers = λ e d. v.closed_receivers e (omega (arith, d, shut-deaf i c.receivers));
    }

    blocked_recv :
        c.queue.items ≡ []
        → c.queue.is_closed ≡ false
        → Inv cap (record c { receivers = modify (after_try blocked) i c.receivers })
    blocked_recv q o = record {
      same_cap = v.same_cap;
      room = λ open_ free.
          Alert-more (passes_on cap) c.senders (try-taking blocked i c.receivers)
            (v.room open_ free);
      items = λ some_ d. absurd (omega (arith, some_, ap length q));
      single = v.single;
      closed_senders = v.closed_senders;
      closed_receivers = λ e d. cc (sym o ∙ e);
    }

    pop_items-Inv :
        (l : List ℕ) {t : Task}
        → get_elem? c.receivers i ≡ some t
        → is_trying t.phase ≡ true
        → c.queue.items ≡ l
        → Inv cap (after_pop i (pop_items c.queue l) c)
    unfolding pop_items after_pop
    pop_items-Inv [] e h q =
        if_holds (λ r. Inv cap (after_pop i (unpopped r) c)) c.queue.is_closed (shut_recv q)
          (blocked_recv q)
    pop_items-Inv (m ∷ rest) e h q = received_ m rest e h q

    recv_as-Inv : (o : Option Task) → get_elem? c.receivers i ≡ o → Inv cap (recv_as i c o)
    unfolding recv_as pop
    recv_as-Inv none e = v
    recv_as-Inv (some t) e =
        if_holds (Inv cap) (is_trying t.phase) (λ h. pop_items-Inv c.queue.items e h refl) (λ _. v)

  pub try_recv-Inv : (i : ℕ) (c : Channel) → Inv cap c → Inv cap (try_recv i c)
  unfolding try_recv
  try_recv-Inv i c v = recv_as-Inv i c v (get_elem? c.receivers i) refl
