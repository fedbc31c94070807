-- ===== src/Lock/Barrier.antt =====
-- cynthia/src/platform/lock/barrier.rs: a barrier for `n` tasks. Its state is behind a mutex, so an
-- arrival is one step, and so is a waiter's test.
use native.Mathlib.Nat
use cynthia.Base.{
  sym, ap, ℕ, ◌+◌, ◌*◌, ◌%◌, ◌^◌, ◌≤◌, ◌<◌, ◌≡◌, Bool, true, false, ◌&&◌, if◌then◌else◌, ltb, ◌==◌,
  some, some_kept, arith, Bool-cases, inl, inr, ltb→lt, ◌/◌,
}
use cynthia.Base.Word.{wrapping_add}
use cynthia.Base.Machine.{Machine, Reach, Reach-Keeps}

-- `arrived` and `leaders` count the calls of `wait` that have arrived, and those that lead.
pub record Barrier : Type 0 where
  pub count : ℕ
  pub generation_id : ℕ
  pub arrived : ℕ
  pub leaders : ℕ

unfoldable pub new : Barrier
new = record { count = 0; generation_id = 0; arrived = 0; leaders = 0 }

module _ (n : ℕ) where
  -- `wait` up to its first test. The result says whether the task leads; one that does not waits
  -- for the generation that it has seen to end.
  unfoldable pub arrive : Barrier → Barrier × Bool
  arrive b =
      if ltb (b.count + 1) n
      then (record b { count = b.count + 1; arrived = b.arrived + 1 }, false)
      else (
        record b {
          count = 0;
          generation_id = wrapping_add b.generation_id 1;
          arrived = b.arrived + 1;
          leaders = b.leaders + 1;
        },
        true,
      )

  -- The loop's condition, for a task that saw the generation `local_gen`.
  unfoldable pub must_wait : ℕ → Barrier → Bool
  must_wait local_gen b = (local_gen == b.generation_id) && ltb b.count n

pub data Action : Type 0 where
  arrives : Action

module _ (n : ℕ) where
  abbrev pub machine : Machine
  machine = record {
    State = Barrier;
    Action = Action;
    first = new;
    can = λ a b. true;
    act = λ a b. some (arrive n b).0;
  }

  pub record Inv (b : Barrier) : Type 0 where
    pub arrivals : b.arrived ≡ b.leaders * n + b.count
    pub below : b.count < n
    pub generation : b.generation_id ≡ b.leaders % 2 ^ 64

  new-Inv : 0 < n → Inv new
  unfolding new
  new-Inv h = ground arith

  arrive-Inv : (b : Barrier) → Inv b → Inv (arrive n b).0
  unfolding arrive
  arrive-Inv b v = elim (Bool-cases (ltb (b.count + 1) n)) [
    | inl more ↦
        rw (more, arrive)
          (record {
            arrivals = omega (arith, v.arrivals);
            below = ltb→lt _ _ more;
            generation = v.generation;
          })
    | inr last ↦
        let full : b.count + 1 ≡ n = ground (arith, v.below) in
        rw (last, arrive)
          (record {
            arrivals = omega (arith, v.arrivals, full);
            below = omega (arith, v.below);
            generation = omega (arith, v.generation);
          })
  ]

  pub Reach-Inv : 0 < n → {b : Barrier} → Reach machine b → Inv b
  Reach-Inv h = Reach-Keeps machine Inv (record {
    at_first = new-Inv h;
    at_step = λ a b b' v p e. some_kept Inv _ e (arrive-Inv b v);
  })

  module _ (positive : 0 < n) {b : Barrier} (r : Reach machine b) where
    -- Of every `n` arrivals exactly the last one leads: after any arrivals the number of leaders
    -- is their number divided by `n`.
    pub leaders_counted : (b.leaders ≡ b.arrived / n) × (b.arrived % n ≡ b.count)
    leaders_counted =
        let v = Reach-Inv positive r in
        let quotient : b.arrived / n ≡ b.leaders =
          Nat.div-eq_of_lt-le n (omega (arith, v.arrivals)) (omega (arith, v.arrivals, v.below)) in
        (
          sym quotient,
          omega (arith, v.arrivals, Nat.div-add-mod b.arrived n, ap (λ q. n * q) quotient),
        )

    -- A task that arrived when there had been `k` leaders is kept waiting just until the next one,
    -- as long as the generation has not wrapped round since.
    pub must_wait_lem :
        (k : ℕ)
        → k ≤ b.leaders
        → b.leaders < k + 2 ^ 64
        → must_wait n (k % 2 ^ 64) b ≡ (b.leaders == k)
    unfolding must_wait
    must_wait_lem k h wrap = ground (arith, Reach-Inv positive r)
