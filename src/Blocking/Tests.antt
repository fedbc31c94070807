-- ===== src/Blocking/Tests.antt =====
-- A pipe of two bytes, and a pool with a little work.
use cynthia.Base.{ℕ, ◌*◌, ◌≡◌, ◌≤◌, ◌<◌, refl, List, [], ◌∷◌, ◌++◌, length, arith}
use cynthia.Base.Machine.{Machine, Reach, start, run, run-Reach, after}
use cynthia.Blocking.Pipe
use cynthia.Blocking.Pipe.{
  Pipe, Action, pending, ready, distance, drain_begin, drain_max, fill_begin, fill_max, fill_round,
  drain_answer, close,
}
use cynthia.Blocking.Pipe.Content.{unread}
use cynthia.Blocking.Pipe.Fifo
use cynthia.Blocking.Pool
use cynthia.Blocking.Pool.{Pool, must_grow, grow_pool, new}
use cynthia.Blocking.Pool.Inv

abbrev blank : ℕ → ℕ
blank i = 0

abbrev ring : Machine
ring = Pipe.machine 2 blank

-- Two bytes in, one out, and one more in, round the end of the memory.
abbrev steps : List Action
steps =
    Action.fills (7 ∷ 8 ∷ [])
    ∷ Action.loads_tail
    ∷ Action.drains 1
    ∷ Action.loads_head
    ∷ Action.fills (9 ∷ [])
    ∷ []

steps-Reach : Reach ring (after ring steps)
unfolding run Pipe.can Pipe.act Pipe.empty Pipe.load_tail Pipe.load_head Pipe.drain_round
    Pipe.fill_round Pipe.read_into Pipe.prepare Pipe.publish Pipe.fill_max Pipe.drain_max
    Pipe.distance Pipe.real_index Pipe.advance
steps-Reach = run-Reach ring steps start refl

first_in_first_out_example :
    ((after ring steps).sent ≡ (after ring steps).received ++ unread 2 (after ring steps))
    × (distance 2 (after ring steps).head (after ring steps).tail ≤ 2)
first_in_first_out_example = Fifo.first_in_first_out 2 (omega arith) blank steps-Reach

-- One `Runnable` is scheduled, taken by the new thread, and another one is scheduled meanwhile.
abbrev work : List Pool.Action
work = Pool.Action.schedules 4 ∷ Pool.Action.wakes_up ∷ Pool.Action.schedules 5 ∷ []

work-Reach : Reach Pool.machine (after Pool.machine work)
unfolding run Pool.can Pool.act Pool.new Pool.schedule Pool.wake_up Pool.look Pool.grow_pool
    Pool.grow_rounds Pool.spawn
work-Reach = run-Reach Pool.machine work start refl

queue_served_example :
    let p = after Pool.machine work in (0 < p.asleep) × (length p.queue ≤ 5 * p.asleep)
unfolding run Pool.can Pool.act Pool.new Pool.schedule Pool.wake_up Pool.look Pool.grow_pool
    Pool.grow_rounds Pool.spawn
queue_served_example = Inv.queue_served work-Reach (omega arith) (omega arith)

-- Six Runnables, and no thread yet.
abbrev waiting : Pool
waiting = record {
  idle_count = 0;
  thread_count = 0;
  queue = 1 ∷ 2 ∷ 3 ∷ 4 ∷ 5 ∷ 6 ∷ [];
  asleep = 0;
  busy = 0;
  scheduled = 1 ∷ 2 ∷ 3 ∷ 4 ∷ 5 ∷ 6 ∷ [];
  started = [];
}

two_threads : (grow_pool waiting).thread_count ≡ 2
unfolding grow_pool Pool.grow_rounds Pool.spawn
two_threads = refl
