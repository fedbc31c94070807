-- ===== src/Queue/Single/Safety.antt =====
-- cynthia/src/platform/queue/single.rs: the slot is never read before it is written, nor written
-- over, and values come out in the order they went in.
use cynthia.Base.{
  arith, ℕ, ◌<◌, ◌≡◌, ◌≢◌, refl, ap, sym, Bool, true, false, none, some, List, [], ◌∷◌, ◌++◌,
  length,
}
use mathlib.Core.List.{append-nil}
use cynthia.Base.Machine.{Reach}
use cynthia.Queue.{PopError, empty, pop_closed}
use cynthia.Queue.Single.{
  Single, word, machine, pop_try, PopTry, read_slot, drop_slot, takes, fails, again,
}
use cynthia.Queue.Single.Stage.{
  Stage, vacant, writing, stored, holding, reading, leaving, shape, by_stage,
}

-- What is in the slot, or about to be.
abbrev pub held : Single → List ℕ
held x = elim x.slot [ none ↦ x.writers | some v ↦ v ∷ x.writers ]

shape-held :
    (st : Stage) (c : Bool) (h : List ℕ)
    → (shape st c h).accepted ≡ (shape st c h).taken ++ held (shape st c h)
shape-held vacant c h = sym (append-nil h)
shape-held (writing u) c h = refl
shape-held (stored u) c h = refl
shape-held (holding u) c h = refl
shape-held (reading u) c h = refl
shape-held leaving c h = sym (append-nil h)

-- In every reachable state the values pushed are those popped and then the one that the slot holds or
-- is about to, in the order of the exchanges of the pushes.
pub accepted-held : {x : Single} → Reach machine x → x.accepted ≡ x.taken ++ held x
accepted-held = by_stage (λ x. x.accepted ≡ x.taken ++ held x) shape-held

abbrev Sound : Single → Type 0
Sound x = (0 < length x.writers → x.slot ≡ none) × (0 < x.readers → read_slot x ≢ none)

shape-Sound : (st : Stage) (c : Bool) (h : List ℕ) → Sound (shape st c h)
unfolding read_slot
shape-Sound vacant c h = (λ _. refl, λ p. ground arith)
shape-Sound (writing u) c h = (λ _. refl, λ p. ground arith)
shape-Sound (stored u) c h = (λ p. ground arith, λ p. ground arith)
shape-Sound (holding u) c h = (λ p. ground arith, λ p. ground arith)
shape-Sound (reading u) c h = (λ p. ground arith, λ p e. cc e)
shape-Sound leaving c h = (λ _. refl, λ p. ground arith)

-- In every reachable state, a pusher that is about to write finds the slot without a value, and a
-- popper that is about to read finds a value.
pub no_bad_access :
    {x : Single}
    → Reach machine x
    → (0 < length x.writers → x.slot ≡ none) × (0 < x.readers → read_slot x ≢ none)
no_bad_access = by_stage Sound shape-Sound

abbrev Quiet : Single → Type 0
Quiet x = (x.writers ≡ []) × (x.written ≡ 0) × (x.readers ≡ 0) × (x.left ≡ 0)

abbrev Drops : Single → Type 0
Drops x = Quiet x → drop_slot x ≡ some x.slot

shape-Drops : (st : Stage) (c : Bool) (h : List ℕ) → Drops (shape st c h)
unfolding drop_slot
shape-Drops vacant c h q = refl
shape-Drops (writing u) c h (q, _, _, _) = cc q
shape-Drops (stored u) c h (_, q, _, _) = ground (arith, q)
shape-Drops (holding u) c h q = refl
shape-Drops (reading u) c h (_, _, q, _) = ground (arith, q)
shape-Drops leaving c h (_, _, _, q) = ground (arith, q)

-- In every reachable state in which no thread is inside a push or a pop, the destructor drops the
-- value of the slot if there is one, and reads no slot without a value.
pub drop_slot-slot :
    {x : Single}
    → Reach machine x
    → x.writers ≡ []
    → x.written ≡ 0
    → x.readers ≡ 0
    → x.left ≡ 0
    → drop_slot x ≡ some x.slot
drop_slot-slot {x} r a b c d = by_stage Drops shape-Drops r (a, b, c, d)

-- An attempt to pop that fails, and one to push.
Fails : Single → Type 0
Fails x =
    (d : Bool) (e : PopError)
    → pop_try (word false true d) x.state ≡ fails e
    → (length (held x) ≡ x.readers) × (x.state.is_closed ≡ pop_closed e)

abbrev error_of : PopTry → PopError → PopError
error_of (takes w) d = d
error_of (fails e) d = e
error_of (again w) d = d

shape-Fails : (st : Stage) (c : Bool) (h : List ℕ) → Fails (shape st c h)
unfolding Fails pop_try pop_closed
shape-Fails vacant false h false e q = (refl, ap (λ t. pop_closed (error_of t empty)) q)
shape-Fails vacant false h true e q = (refl, ap (λ t. pop_closed (error_of t empty)) q)
shape-Fails vacant true h false e q = (refl, ap (λ t. pop_closed (error_of t empty)) q)
shape-Fails vacant true h true e q = (refl, ap (λ t. pop_closed (error_of t empty)) q)
shape-Fails (writing u) false h false e q = cc q
shape-Fails (writing u) false h true e q = cc q
shape-Fails (writing u) true h false e q = cc q
shape-Fails (writing u) true h true e q = cc q
shape-Fails (stored u) false h false e q = cc q
shape-Fails (stored u) false h true e q = cc q
shape-Fails (stored u) true h false e q = cc q
shape-Fails (stored u) true h true e q = cc q
shape-Fails (holding u) false h false e q = cc q
shape-Fails (holding u) false h true e q = cc q
shape-Fails (holding u) true h false e q = cc q
shape-Fails (holding u) true h true e q = cc q
shape-Fails (reading u) false h false e q = (refl, ap (λ t. pop_closed (error_of t empty)) q)
shape-Fails (reading u) false h true e q = (refl, ap (λ t. pop_closed (error_of t empty)) q)
shape-Fails (reading u) true h false e q = (refl, ap (λ t. pop_closed (error_of t empty)) q)
shape-Fails (reading u) true h true e q = (refl, ap (λ t. pop_closed (error_of t empty)) q)
shape-Fails leaving false h false e q = (refl, ap (λ t. pop_closed (error_of t empty)) q)
shape-Fails leaving false h true e q = (refl, ap (λ t. pop_closed (error_of t empty)) q)
shape-Fails leaving true h false e q = (refl, ap (λ t. pop_closed (error_of t empty)) q)
shape-Fails leaving true h true e q = (refl, ap (λ t. pop_closed (error_of t empty)) q)

-- In every reachable state, a pop that fails finds no value but those that other pops are reading,
-- and answers Closed exactly if the queue is closed, Empty otherwise.
pub fails_lem :
    {x : Single}
    → Reach machine x
    → (d : Bool) (e : PopError) → pop_try (word false true d) x.state ≡ fails e
    → (length (held x) ≡ x.readers) × (x.state.is_closed ≡ pop_closed e)
unfolding Fails
fails_lem = by_stage Fails shape-Fails
