-- ===== src/Queue/Single/Refine.antt =====
-- cynthia/src/platform/queue/single.rs: the queue of one slot is a queue of capacity 1. The exchange
-- of a push or of a pop is where it takes effect.
use cynthia.Base.{
  ℕ, ◌+◌, ◌<◌, ◌≡◌, ◌⊎◌, inl, inr, refl, Bool, true, false, not, if◌then◌else◌, Option, none, some,
  List, [], arith,
}
use cynthia.Base.Machine.{Reach}
use cynthia.Queue.{full}
use cynthia.Queue.Fifo
use cynthia.Queue.Fifo.{
  Fifo, Pushed, Popped, pushed, unpushed, popped, unpopped, is_full, pop_items,
}
use cynthia.Queue.Single.{
  Single, Word, word, machine, PushTry, PopTry, stores, refused, takes, fails, again, push_try,
  pop_try, begin_push, after_push, begin_pop, after_pop,
}
use cynthia.Queue.Single.Safety.{held}
use cynthia.Queue.Single.Stage.{
  Stage, vacant, writing, stored, holding, reading, leaving, shape, by_stage,
}

-- The value that is pushed and that no pop has claimed.
abbrev pub content : Single → Fifo
content x = record {
  items = if x.state.is_pushed then held x else [];
  capacity = some 1;
  is_closed = x.state.is_closed;
}

-- What a push of `v` answers, and the queue then.
unfoldable pub push_answer : PushTry → ℕ → Single → Pushed
push_answer (stores w) v x = pushed (content (begin_push v x))
push_answer (refused e) v x = unpushed e

-- What a round of a pop answers: `none` if it goes round again.
unfoldable pub pop_answer : PopTry → Bool → Single → Option Popped
pop_answer (takes w) d x = elim x.slot [
  | none ↦ none
  | some v ↦ some (popped v (content (begin_pop (word false true d) x)))
]
pop_answer (fails e) d x = some (unpopped e)
pop_answer (again w) d x = none

abbrev Pushes : Single → Type 0
Pushes x =
    (v : ℕ)
    → (push_answer (push_try v x.state) v x ≡ Fifo.push v (content x))
      ⊎ ((push_answer (push_try v x.state) v x ≡ unpushed (full v)) × (0 < x.readers + x.left))

shape-Pushes : (st : Stage) (c : Bool) (h : List ℕ) → Pushes (shape st c h)
unfolding push_answer push_try begin_push after_push Fifo.push is_full
shape-Pushes vacant false h v = inl refl
shape-Pushes vacant true h v = inl refl
shape-Pushes (writing u) false h v = inl refl
shape-Pushes (writing u) true h v = inl refl
shape-Pushes (stored u) false h v = inl refl
shape-Pushes (stored u) true h v = inl refl
shape-Pushes (holding u) false h v = inl refl
shape-Pushes (holding u) true h v = inl refl
shape-Pushes (reading u) false h v = inr (refl, omega arith)
shape-Pushes (reading u) true h v = inl refl
shape-Pushes leaving false h v = inr (refl, omega arith)
shape-Pushes leaving true h v = inl refl

-- From every reachable state, a push answers and does what a push on the queue of capacity 1 does; or
-- it answers Full while a pop is taking the value out.
pub push_answer-push :
    {x : Single}
    → Reach machine x
    → (v : ℕ)
    → (push_answer (push_try v x.state) v x ≡ Fifo.push v (content x))
      ⊎ ((push_answer (push_try v x.state) v x ≡ unpushed (full v)) × (0 < x.readers + x.left))
push_answer-push = by_stage Pushes shape-Pushes

abbrev Pops : Single → Type 0
Pops x =
    (d : Bool)
    → (pop_answer (pop_try (word false true d) x.state) d x ≡ some (Fifo.pop (content x)))
      ⊎ ((w : Word) × (pop_try (word false true d) x.state ≡ again w)
          × ((x.state.is_locked ≡ true) ⊎ (x.state.is_closed ≡ not d)))

shape-Pops : (st : Stage) (c : Bool) (h : List ℕ) → Pops (shape st c h)
unfolding pop_answer pop_try begin_pop after_pop Fifo.pop pop_items
shape-Pops vacant false h false = inl refl
shape-Pops vacant false h true = inl refl
shape-Pops vacant true h false = inl refl
shape-Pops vacant true h true = inl refl
shape-Pops (writing u) false h false = inr (word false true false, refl, inl refl)
shape-Pops (writing u) false h true = inr (word false true false, refl, inl refl)
shape-Pops (writing u) true h false = inr (word false true true, refl, inl refl)
shape-Pops (writing u) true h true = inr (word false true true, refl, inl refl)
shape-Pops (stored u) false h false = inr (word false true false, refl, inl refl)
shape-Pops (stored u) false h true = inr (word false true false, refl, inl refl)
shape-Pops (stored u) true h false = inr (word false true true, refl, inl refl)
shape-Pops (stored u) true h true = inr (word false true true, refl, inl refl)
shape-Pops (holding u) false h false = inl refl
shape-Pops (holding u) false h true = inr (word false true false, refl, inr refl)
shape-Pops (holding u) true h false = inr (word false true true, refl, inr refl)
shape-Pops (holding u) true h true = inl refl
shape-Pops (reading u) false h false = inl refl
shape-Pops (reading u) false h true = inl refl
shape-Pops (reading u) true h false = inl refl
shape-Pops (reading u) true h true = inl refl
shape-Pops leaving false h false = inl refl
shape-Pops leaving false h true = inl refl
shape-Pops leaving true h false = inl refl
shape-Pops leaving true h true = inl refl

-- From every reachable state, a round of a pop answers and does what a pop on the queue of capacity 1
-- does, or goes round again, because the word is locked or its variable has the wrong CLOSED bit.
pub pop_answer-pop :
    {x : Single}
    → Reach machine x
    → (d : Bool)
    → (pop_answer (pop_try (word false true d) x.state) d x ≡ some (Fifo.pop (content x)))
      ⊎ ((w : Word) × (pop_try (word false true d) x.state ≡ again w)
          × ((x.state.is_locked ≡ true) ⊎ (x.state.is_closed ≡ not d)))
pop_answer-pop = by_stage Pops shape-Pops
