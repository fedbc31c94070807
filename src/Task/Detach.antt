-- ===== src/Task/Detach.antt =====
-- Giving up the handle of a task: `detach`, and the destructor of `Task`.
use cynthia.Base.{ℕ, ◌≡◌, Bool, true, false, ◌||◌, ◌⊎◌, inl, inr, refl, Option, some, arith}
use cynthia.Base.Machine.{Reach}
use cynthia.Task.Cell.{Cell, Runner, absent, queued, polling, finished, closing}
use cynthia.Task.Raw.{run_begin, poll_pending, drop_future}
use cynthia.Task.Handle.{set_canceled, set_detached, detach_round, drop_task}
use cynthia.Task.System.{machine}
use cynthia.Task.Inv.{Inv}
use cynthia.Task.Inv.Handles.{set_canceled-Inv, detach_round-Inv}
use cynthia.Task.Inv.Steps.{Reach-Inv}

abbrev is_over : Cell → Bool
is_over c = c.word.completed || c.word.closed

module _ {c : Cell} (v : Inv c) (held : c.handle ≡ true) where
  -- A round that does not end the loop has closed the task.
  round_cases :
      (((detach_round c).1 ≡ true) × ((detach_round c).0.handle ≡ false))
      ⊎ (((detach_round c).1 ≡ false)
          × ((detach_round c).0.handle ≡ true)
          × ((detach_round c).0.word.closed ≡ true))
  unfolding detach_round
  round_cases = ground (arith, v)

  closed_round :
      c.word.closed ≡ true → ((detach_round c).1 ≡ true) × ((detach_round c).0.handle ≡ false)
  unfolding detach_round
  closed_round h = ground (arith, v)

  over_round : is_over c ≡ true → is_over (detach_round c).0 ≡ true
  unfolding detach_round
  over_round h = ground (arith, v)

  canceled :
      (will_wake : ℕ → ℕ → Bool)
      → Inv (set_canceled will_wake c)
        × ((set_canceled will_wake c).handle ≡ true)
        × (is_over (set_canceled will_wake c) ≡ true)
  unfolding set_canceled
  canceled will_wake = (set_canceled-Inv will_wake v held, ground arith, ground arith)

-- What `set_detached` leaves of the task `c`.
pub record Detached (c : Cell) (o : Option Cell) : Type 0 where
  pub end : Cell
  pub ended : o ≡ some end
  pub valid : Inv end
  pub gone : end.handle ≡ false
  pub over : is_over c ≡ true → is_over end ≡ true

-- By one thread `set_detached` ends after two rounds at most, and the handle is gone.
set_detached-ends : {c : Cell} → Inv c → c.handle ≡ true → Detached c (set_detached 2 c)
unfolding set_detached
set_detached-ends {c} v held = elim (round_cases v held) [
  | inl (done, gone) ↦ record {
    end = (detach_round c).0;
    ended = rw done;
    valid = detach_round-Inv v held;
    gone = gone;
    over = over_round v held;
  }
  | inr (more, kept, closed) ↦
      let v' = detach_round-Inv v held in
      let last = closed_round v' kept closed in
      record {
        end = (detach_round (detach_round c).0).0;
        ended = rw (more, last.0);
        valid = detach_round-Inv v' kept;
        gone = last.1;
        over = λ h. over_round v' kept (over_round v held h);
      }
]

-- What a closed task still does with its future.
Disposed : (ℕ → ℕ → Bool) → Cell → Type 0
Disposed will_wake e =
    (e.future ≡ false)
    ⊎ ((e.runner ≡ queued) × ((run_begin e).future ≡ false) × ((run_begin e).runner ≡ closing))
    ⊎ ((e.runner ≡ polling) × ((poll_pending will_wake e).future ≡ false))

closed-Disposed :
    (will_wake : ℕ → ℕ → Bool) (e : Cell) → Inv e → e.word.closed ≡ true → Disposed will_wake e
unfolding Disposed run_begin poll_pending drop_future
closed-Disposed will_wake e v h = at_runner e.runner refl
  where
    at_runner : (q : Runner) → e.runner ≡ q → Disposed will_wake e
    at_runner absent q = inl (ground (arith, v))
    at_runner queued q = inr (inl (ground arith))
    at_runner polling q = inr (inr (ground arith))
    at_runner finished q = inl (ground (arith, v))
    at_runner closing q = inl (ground (arith, v))

module _ (will_wake : ℕ → ℕ → Bool) {c : Cell} (r : Reach (machine will_wake) c)
    (held : c.handle ≡ true) where
  -- From a reachable state with a handle, `set_detached` run without interruption ends after at
  -- most two rounds, without a fault, and the handle is gone.
  pub set_detached-total :
      (c' : Cell) × (set_detached 2 c ≡ some c') × (c'.handle ≡ false) × (c'.fault ≡ false)
  set_detached-total =
      let d = set_detached-ends (Reach-Inv will_wake r) held in
      (d.end, d.ended, d.gone, d.valid.sound)

  -- So does the destructor of `Task`, which cancels the task first: at its end the task is closed,
  -- and its future is gone, or its `Runnable` is queued and a run of it drops the future and does
  -- not poll it, or it is being polled and is dropped when `poll` returns `Pending`.
  pub drop_task-total :
      (c' : Cell) × (drop_task will_wake c ≡ some c')
      × (c'.handle ≡ false)
      × (c'.fault ≡ false)
      × (c'.word.closed ≡ true)
      × ((c'.future ≡ false)
          ⊎ ((c'.runner ≡ queued)
              × ((run_begin c').future ≡ false)
              × ((run_begin c').runner ≡ closing))
          ⊎ ((c'.runner ≡ polling) × ((poll_pending will_wake c').future ≡ false)))
  unfolding drop_task Disposed
  drop_task-total =
      let (v, still, over) = canceled (Reach-Inv will_wake r) held will_wake in
      let d = set_detached-ends v still in
      let closed = closes d.valid d.gone (d.over over) in
      (
        d.end,
        d.ended,
        d.gone,
        d.valid.sound,
        closed,
        closed-Disposed will_wake d.end d.valid closed,
      )
    where
      closes : {e : Cell} → Inv e → e.handle ≡ false → is_over e ≡ true → e.word.closed ≡ true
      closes v gone h = ground (arith, v)
