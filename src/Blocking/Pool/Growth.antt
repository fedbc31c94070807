-- ===== src/Blocking/Pool/Growth.antt =====
-- Growing the pool.
use cynthia.Base.{ℕ, zero, suc, ◌+◌, ◌-◌, ◌≤◌, ◌≡◌, ap, true, false, if_holds, ◌++◌, arith}
use cynthia.Blocking.Pool.{Pool, must_grow, spawn, grow_rounds, grow_pool}

-- What holds even while the pool has yet to grow.
pub record Counts (p : Pool) : Type 0 where
  pub idle : p.idle_count ≡ p.asleep
  pub threads : p.thread_count ≡ p.asleep + p.busy
  pub most : p.thread_count ≤ 500
  pub order : p.scheduled ≡ p.started ++ p.queue

pub record Inv (p : Pool) : Type 0 where
  pub counts : Counts p
  pub grown : must_grow p ≡ false

spawn-Counts : {p : Pool} → Counts p → must_grow p ≡ true → Counts (spawn p)
unfolding spawn
spawn-Counts v h = record {
  idle = ap (λ n. n + 1) v.idle;
  threads = omega (arith, v.threads);
  most = ground (arith, h);
  order = v.order;
}

grow_rounds-Inv : (n : ℕ) {p : Pool} → Counts p → 500 ≤ p.thread_count + n → Inv (grow_rounds n p)
unfolding grow_rounds
grow_rounds-Inv zero v h = record { counts = v; grown = ground arith }
grow_rounds-Inv (suc n) {p} v h =
    if_holds Inv (must_grow p) (λ more. grow_rounds-Inv n (spawn-Counts v more) (omega (arith, h)))
      (λ grown. record { counts = v; grown = grown })

pub grow_pool-Inv : {p : Pool} → Counts p → Inv (grow_pool p)
unfolding grow_pool
grow_pool-Inv {p} v = grow_rounds-Inv (500 - p.thread_count) v (omega arith)

-- `grow_pool` ends in at most as many rounds as there are threads left up to 500: then the queue
-- has at most five Runnables for each idle thread, or there are 500 threads.
pub grow_pool-total : {p : Pool} → Counts p → must_grow (grow_pool p) ≡ false
grow_pool-total v = (grow_pool-Inv v).grown
