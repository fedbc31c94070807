-- ===== src/Queue/Single/Stage.antt =====
-- cynthia/src/platform/queue/single.rs: where the threads inside a queue of one slot may stand.
use cynthia.Base.{
  ℕ, ◌≡◌, refl, ap, sym, subst, ◌∙◌, Bool, true, false, none, some, some_kept, List, [], ◌∷◌, ◌++◌,
}
use cynthia.Base.Machine.{Reach, Reach-Keeps}
use cynthia.Queue.Single.{
  Single, word, Action, pushes, writes, ends_push, pops, reads, ends_pop, closes, new, can, act,
  machine, push_try, pop_try, close, begin_push, after_push, write_slot, end_push, begin_pop,
  after_pop, read_slot, end_pop,
}

-- Where the one thread stands that may use the slot, if there is one.
pub data Stage : Type 0 where
  vacant : Stage
  writing stored holding reading : ℕ → Stage
  leaving : Stage

-- The state at a stage, with the values taken so far.
abbrev pub shape : Stage → Bool → List ℕ → Single
shape vacant c h = record {
  state = word false false c;
  slot = none;
  writers = [];
  written = 0;
  readers = 0;
  left = 0;
  accepted = h;
  taken = h;
}
shape (writing v) c h = record {
  state = word true true c;
  slot = none;
  writers = v ∷ [];
  written = 0;
  readers = 0;
  left = 0;
  accepted = h ++ v ∷ [];
  taken = h;
}
shape (stored v) c h = record {
  state = word true true c;
  slot = some v;
  writers = [];
  written = 1;
  readers = 0;
  left = 0;
  accepted = h ++ v ∷ [];
  taken = h;
}
shape (holding v) c h = record {
  state = word false true c;
  slot = some v;
  writers = [];
  written = 0;
  readers = 0;
  left = 0;
  accepted = h ++ v ∷ [];
  taken = h;
}
shape (reading v) c h = record {
  state = word true false c;
  slot = some v;
  writers = [];
  written = 0;
  readers = 1;
  left = 0;
  accepted = h ++ v ∷ [];
  taken = h;
}
shape leaving c h = record {
  state = word true false c;
  slot = none;
  writers = [];
  written = 0;
  readers = 0;
  left = 1;
  accepted = h;
  taken = h;
}

abbrev Inv : Single → Type 0
Inv x = (st : Stage) × (c : Bool) × (h : List ℕ) × (x ≡ shape st c h)

at : {x : Single} (st : Stage) (c : Bool) (h : List ℕ) → some (shape st c h) ≡ some x → Inv x
at st c h e = some_kept Inv (shape st c h) e (st, c, h, refl)

-- What an action leads to from a stage.
Leads : Action → Stage → Bool → Type 0
Leads a st c = (h : List ℕ) (x : Single) → act a (shape st c h) ≡ some x → Inv x

pushes-Leads : (v : ℕ) (st : Stage) (c : Bool) → Leads (pushes v) st c
unfolding Leads act push_try begin_push after_push
pushes-Leads v vacant false h x e = at (writing v) false h e
pushes-Leads v vacant true h x e = at vacant true h e
pushes-Leads v (writing u) false h x e = at (writing u) false h e
pushes-Leads v (writing u) true h x e = at (writing u) true h e
pushes-Leads v (stored u) false h x e = at (stored u) false h e
pushes-Leads v (stored u) true h x e = at (stored u) true h e
pushes-Leads v (holding u) false h x e = at (holding u) false h e
pushes-Leads v (holding u) true h x e = at (holding u) true h e
pushes-Leads v (reading u) false h x e = at (reading u) false h e
pushes-Leads v (reading u) true h x e = at (reading u) true h e
pushes-Leads v leaving false h x e = at leaving false h e
pushes-Leads v leaving true h x e = at leaving true h e

pops-Leads : (d : Bool) (st : Stage) (c : Bool) → Leads (pops d) st c
unfolding Leads act pop_try begin_pop after_pop
pops-Leads false vacant false h x e = at vacant false h e
pops-Leads true vacant false h x e = at vacant false h e
pops-Leads false vacant true h x e = at vacant true h e
pops-Leads true vacant true h x e = at vacant true h e
pops-Leads false (writing u) false h x e = at (writing u) false h e
pops-Leads true (writing u) false h x e = at (writing u) false h e
pops-Leads false (writing u) true h x e = at (writing u) true h e
pops-Leads true (writing u) true h x e = at (writing u) true h e
pops-Leads false (stored u) false h x e = at (stored u) false h e
pops-Leads true (stored u) false h x e = at (stored u) false h e
pops-Leads false (stored u) true h x e = at (stored u) true h e
pops-Leads true (stored u) true h x e = at (stored u) true h e
pops-Leads false (holding u) false h x e = at (reading u) false h e
pops-Leads true (holding u) false h x e = at (holding u) false h e
pops-Leads false (holding u) true h x e = at (holding u) true h e
pops-Leads true (holding u) true h x e = at (reading u) true h e
pops-Leads false (reading u) false h x e = at (reading u) false h e
pops-Leads true (reading u) false h x e = at (reading u) false h e
pops-Leads false (reading u) true h x e = at (reading u) true h e
pops-Leads true (reading u) true h x e = at (reading u) true h e
pops-Leads false leaving false h x e = at leaving false h e
pops-Leads true leaving false h x e = at leaving false h e
pops-Leads false leaving true h x e = at leaving true h e
pops-Leads true leaving true h x e = at leaving true h e

closes-Leads : (st : Stage) (c : Bool) → Leads closes st c
unfolding Leads act close
closes-Leads vacant c h x e = at vacant true h e
closes-Leads (writing u) c h x e = at (writing u) true h e
closes-Leads (stored u) c h x e = at (stored u) true h e
closes-Leads (holding u) c h x e = at (holding u) true h e
closes-Leads (reading u) c h x e = at (reading u) true h e
closes-Leads leaving c h x e = at leaving true h e

act-shape :
    (a : Action) (st : Stage) (c : Bool) (h : List ℕ) (x : Single)
    → can a (shape st c h) ≡ true
    → act a (shape st c h) ≡ some x
    → Inv x
unfolding Leads can act write_slot end_push read_slot end_pop
act-shape (pushes v) st c h x g e = pushes-Leads v st c h x e
act-shape (pops d) st c h x g e = pops-Leads d st c h x e
act-shape closes st c h x g e = closes-Leads st c h x e
act-shape writes (writing u) c h x g e = at (stored u) c h e
act-shape ends_push (stored u) c h x g e = at (holding u) c h e
act-shape reads (reading u) c h x g e = at leaving c (h ++ u ∷ []) e
act-shape ends_pop leaving c h x g e = at vacant c h e
act-shape writes vacant c h x g e = cc g
act-shape writes (stored u) c h x g e = cc g
act-shape writes (holding u) c h x g e = cc g
act-shape writes (reading u) c h x g e = cc g
act-shape writes leaving c h x g e = cc g
act-shape ends_push vacant c h x g e = cc g
act-shape ends_push (writing u) c h x g e = cc g
act-shape ends_push (holding u) c h x g e = cc g
act-shape ends_push (reading u) c h x g e = cc g
act-shape ends_push leaving c h x g e = cc g
act-shape reads vacant c h x g e = cc g
act-shape reads (writing u) c h x g e = cc g
act-shape reads (stored u) c h x g e = cc g
act-shape reads (holding u) c h x g e = cc g
act-shape reads leaving c h x g e = cc g
act-shape ends_pop vacant c h x g e = cc g
act-shape ends_pop (writing u) c h x g e = cc g
act-shape ends_pop (stored u) c h x g e = cc g
act-shape ends_pop (holding u) c h x g e = cc g
act-shape ends_pop (reading u) c h x g e = cc g

act-Inv : (a : Action) (x x' : Single) → Inv x → can a x ≡ true → act a x ≡ some x' → Inv x'
act-Inv a x x' (st, c, h, e) g r =
    act-shape a st c h x' (ap (can a) (sym e) ∙ g) (ap (act a) (sym e) ∙ r)

new-Inv : Inv new
unfolding new
new-Inv = (vacant, false, [], refl)

Reach-Inv : {x : Single} → Reach machine x → Inv x
Reach-Inv = Reach-Keeps machine Inv (record { at_first = new-Inv; at_step = act-Inv })

-- What holds at every stage holds of every reachable state.
pub by_stage {ℓ} :
    (P : Single → Type ℓ)
    → ((st : Stage) (c : Bool) (h : List ℕ) → P (shape st c h))
    → {x : Single} → Reach machine x
    → P x
by_stage P p {x} r = let (st, c, h, e) = Reach-Inv r in subst P (sym e) (p st c h)
