-- ===== src/Blocking/Pool/Inv.antt =====
-- What every step of the thread pool keeps, and what follows.
use cynthia.Base.{
  ℕ, suc, ◌+◌, ◌-◌, ◌*◌, ◌≤◌, ◌<◌, ◌≡◌, refl, sym, ap, ◌∙◌, true, ◌==◌, some, some_kept, if_holds,
  ltb→lt, List, [], ◌∷◌, ◌++◌, length, arith,
}
use mathlib.Core.List.{append_assoc}
use cynthia.Base.Machine.{Reach, Reach-Keeps}
use cynthia.Blocking.Pool.{
  Pool, new, schedule, look, wake_up, finish, time_out, Action, can, act, machine,
}
use cynthia.Blocking.Pool.Growth.{Inv, grow_pool-Inv}

-- A thread that looks for work is none of those that sleep or run.
pub record Looking (p : Pool) : Type 0 where
  pub idle : p.idle_count ≡ p.asleep
  pub threads : p.thread_count ≡ suc (p.asleep + p.busy)
  pub most : p.thread_count ≤ 500
  pub order : p.scheduled ≡ p.started ++ p.queue

look-Inv : {p : Pool} (queue : List ℕ) → Looking p → p.queue ≡ queue → Inv (look p queue)
unfolding look
look-Inv {p} [] v e = record {
  counts = record {
    idle = ap (λ n. n + 1) v.idle;
    threads = omega (arith, v.threads);
    most = v.most;
    order = v.order;
  };
  grown = rw e (ground arith);
}
look-Inv {p} (r ∷ rest) v e = grow_pool-Inv (record {
  idle = v.idle;
  threads = omega (arith, v.threads);
  most = v.most;
  order = v.order ∙ ap (λ q. p.started ++ q) e ∙ sym (append_assoc p.started (r ∷ []) rest);
})

schedule-Inv : (r : ℕ) {p : Pool} → Inv p → Inv (schedule r p)
unfolding schedule
schedule-Inv r {p} v = grow_pool-Inv (record {
  idle = v.counts.idle;
  threads = v.counts.threads;
  most = v.counts.most;
  order = ap (λ l. l ++ (r ∷ [])) v.counts.order ∙ append_assoc p.started p.queue (r ∷ []);
})

wake_up-Inv : {p : Pool} → Inv p → 0 < p.asleep → Inv (wake_up p)
unfolding wake_up
wake_up-Inv {p} v h =
    look-Inv p.queue
      (record {
        idle = ap (λ n. n - 1) v.counts.idle;
        threads = omega (arith, v.counts.threads, h);
        most = v.counts.most;
        order = v.counts.order;
      })
      refl

finish-Inv : {p : Pool} → Inv p → 0 < p.busy → Inv (finish p)
unfolding finish
finish-Inv {p} v h =
    look-Inv p.queue
      (record {
        idle = v.counts.idle;
        threads = omega (arith, v.counts.threads, h);
        most = v.counts.most;
        order = v.counts.order;
      })
      refl

time_out-Inv : {p : Pool} → Inv p → 0 < p.asleep → Inv (time_out p)
unfolding time_out
time_out-Inv {p} v h =
    if_holds Inv (length p.queue == 0)
      (λ nothing. record {
        counts = record {
          idle = ap (λ n. n - 1) v.counts.idle;
          threads = omega (arith, v.counts.threads, h);
          most = omega (arith, v.counts.most);
          order = v.counts.order;
        };
        grown = ground arith;
      })
      (λ _. wake_up-Inv v h)

step-Inv : (a : Action) (p p' : Pool) → Inv p → can a p ≡ true → act a p ≡ some p' → Inv p'
unfolding can act
step-Inv (Action.schedules r) p p' v h e = some_kept Inv _ e (schedule-Inv r v)
step-Inv Action.wakes_up p p' v h e = some_kept Inv _ e (wake_up-Inv v (ltb→lt _ _ h))
step-Inv Action.finishes p p' v h e = some_kept Inv _ e (finish-Inv v (ltb→lt _ _ h))
step-Inv Action.times_out p p' v h e = some_kept Inv _ e (time_out-Inv v (ltb→lt _ _ h))

new-Inv : Inv new
unfolding new
new-Inv = record {
  counts = record { idle = refl; threads = refl; most = omega arith; order = refl };
  grown = refl;
}

Reach-Inv : {p : Pool} → Reach machine p → Inv p
Reach-Inv = Reach-Keeps machine Inv (record { at_first = new-Inv; at_step = step-Inv })

module _ {p : Pool} (r : Reach machine p) where
  -- In every reachable state there are at most 500 threads, each of which is asleep or busy, and
  -- the idle ones that the pool counts are those asleep.
  pub threads_counted :
      (p.thread_count ≤ 500) × (p.thread_count ≡ p.asleep + p.busy) × (p.idle_count ≡ p.asleep)
  threads_counted = let v = (Reach-Inv r).counts in (v.most, v.threads, v.idle)

  -- A queue that is not empty has a thread to serve it: while there are fewer than 500 threads,
  -- some thread is asleep, and no more than five Runnables wait for each such thread.
  pub queue_served :
      0 < length p.queue → p.thread_count < 500 → (0 < p.asleep) × (length p.queue ≤ 5 * p.asleep)
  queue_served h few = let v = Reach-Inv r in ground (arith, v.counts.idle, v.grown)

  -- Runnables are started in the order in which they were scheduled, each once; the rest of them
  -- is the queue.
  pub started_in_order : p.scheduled ≡ p.started ++ p.queue
  started_in_order = (Reach-Inv r).counts.order
