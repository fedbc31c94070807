-- ===== src/Event/Inv.antt =====
-- cynthia/src/platform/event/listener.rs: the list as two lists, the notified listeners and then those
-- that wait.
use cynthia.Base.{
  ℕ, ◌+◌, ◌≤◌, ◌≡◌, refl, ap, Bool, true, false, ◌==◌, ==_iff, List, [], ◌∷◌, ◌++◌, length, arith,
}
use cynthia.Event.{
  State, is_notified, Entry, Listeners, first_id, next_of, state_of, set_state, unlink,
}

-- Ids that ascend from `lo` and stay below `hi`.
abbrev pub Ascends : ℕ → ℕ → List Entry → Type 0
Ascends lo hi [] = lo ≤ hi
Ascends lo hi (e ∷ l) = lo ≤ e.id × Ascends (e.id + 1) hi l

-- All are notified, or none is.
abbrev pub Each : Bool → List Entry → Type 0
Each v [] = Unit {0}
Each v (e ∷ l) = (is_notified e.state ≡ v) × Each v l

-- The list whose notified entries are `a` and whose waiting ones are `b`.
abbrev pub listeners : List Entry → List Entry → ℕ → List ℕ → Listeners
listeners a b next_id woken = record {
  entries = a ++ b;
  start = first_id b;
  len = length a + length b;
  notified = length a;
  next_id = next_id;
  woken = woken;
}

pub record Inv (x : Listeners) : Type 0 where
  pub done : List Entry
  pub waits : List Entry
  pub same : x ≡ listeners done waits x.next_id x.woken
  pub all_notified : Each true done
  pub none_notified : Each false waits
  pub ascends : Ascends 0 x.next_id (done ++ waits)

pub Ascends-from :
    (a : List Entry) (e : Entry) (b : List Entry) (lo hi : ℕ)
    → Ascends lo hi (a ++ e ∷ b)
    → lo ≤ e.id
Ascends-from [] e b lo hi h = h.0
Ascends-from (f ∷ a) e b lo hi h =
    let later = Ascends-from a e b (f.id + 1) hi h.1 in omega (arith, later, h.0)

-- The first entry of an ascending list is not a later one.
pub before :
    (f : Entry) (a : List Entry) (e : Entry) (b : List Entry) (lo hi : ℕ)
    → Ascends lo hi (f ∷ a ++ e ∷ b)
    → (f.id == e.id) ≡ false
before f a e b lo hi h = let later = Ascends-from a e b (f.id + 1) hi h.1 in ground (arith, later)

-- The pointers and states at an entry of an ascending list.
module _ (e : Entry) (b : List Entry) (hi : ℕ) where
  self : (e.id == e.id) ≡ true
  self = (==_iff e.id e.id).1 refl

  pub next_of-append :
      (a : List Entry) (lo : ℕ)
      → Ascends lo hi (a ++ e ∷ b)
      → next_of e.id (a ++ e ∷ b) ≡ first_id b
  next_of-append [] lo h = rw self
  next_of-append (f ∷ a) lo h = rw (before f a e b lo hi h) (next_of-append a (f.id + 1) h.1)

  pub state_of-append :
      (a : List Entry) (lo : ℕ) → Ascends lo hi (a ++ e ∷ b) → state_of e.id (a ++ e ∷ b) ≡ e.state
  state_of-append [] lo h = rw self
  state_of-append (f ∷ a) lo h = rw (before f a e b lo hi h) (state_of-append a (f.id + 1) h.1)

  pub unlink-append :
      (a : List Entry) (lo : ℕ) → Ascends lo hi (a ++ e ∷ b) → unlink e.id (a ++ e ∷ b) ≡ a ++ b
  unlink-append [] lo h = rw self
  unlink-append (f ∷ a) lo h =
      rw (before f a e b lo hi h) (ap (λ l. f ∷ l) (unlink-append a (f.id + 1) h.1))

  pub set_state-append :
      (st : State) (a : List Entry) (lo : ℕ)
      → Ascends lo hi (a ++ e ∷ b)
      → set_state e.id st (a ++ e ∷ b) ≡ a ++ record { id = e.id; state = st } ∷ b
  set_state-append st [] lo h = rw self
  set_state-append st (f ∷ a) lo h =
      rw (before f a e b lo hi h) (ap (λ l. f ∷ l) (set_state-append st a (f.id + 1) h.1))

  -- A new state changes no id, and an entry that goes leaves the others in order.
  pub Ascends-set :
      (st : State) (a : List Entry) (lo : ℕ)
      → Ascends lo hi (a ++ e ∷ b)
      → Ascends lo hi (a ++ record { id = e.id; state = st } ∷ b)
  Ascends-set st [] lo h = h
  Ascends-set st (f ∷ a) lo h = (h.0, Ascends-set st a (f.id + 1) h.1)

Ascends-weaken : (l : List Entry) (lo lo' hi : ℕ) → lo ≤ lo' → Ascends lo' hi l → Ascends lo hi l
Ascends-weaken [] lo lo' hi h asc = omega (arith, h, asc)
Ascends-weaken (e ∷ l) lo lo' hi h asc = (omega (arith, h, asc.0), asc.1)

pub Ascends-unlink :
    (a : List Entry) (e : Entry) (b : List Entry) (lo hi : ℕ)
    → Ascends lo hi (a ++ e ∷ b)
    → Ascends lo hi (a ++ b)
Ascends-unlink [] e b lo hi h = Ascends-weaken b lo (e.id + 1) hi (omega (arith, h.0)) h.1
Ascends-unlink (f ∷ a) e b lo hi h = (h.0, Ascends-unlink a e b (f.id + 1) hi h.1)

pub Ascends-insert :
    (l : List Entry) (st : State) (lo hi : ℕ)
    → Ascends lo hi l
    → Ascends lo (hi + 1) (l ++ record { id = hi; state = st } ∷ [])
Ascends-insert [] st lo hi h = (h, omega arith)
Ascends-insert (e ∷ l) st lo hi h = (h.0, Ascends-insert l st (e.id + 1) hi h.1)

pub Each-append : (v : Bool) (a b : List Entry) → Each v a → Each v b → Each v (a ++ b)
Each-append v [] b h h' = h'
Each-append v (e ∷ a) b h h' = (h.0, Each-append v a b h.1 h')

pub Each-left : (v : Bool) (a b : List Entry) → Each v (a ++ b) → Each v a
Each-left v [] b h = tt
Each-left v (e ∷ a) b h = (h.0, Each-left v a b h.1)

pub Each-right : (v : Bool) (a b : List Entry) → Each v (a ++ b) → Each v b
Each-right v [] b h = h
Each-right v (e ∷ a) b h = Each-right v a b h.1
