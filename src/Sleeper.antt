-- ===== src/Sleeper.antt =====
-- cynthia/src/platform/waker/sleeper.rs: the workers of the executor that have gone to sleep, and the
-- one that was woken and has not come back yet.
pub mod Ids
pub mod Inv
pub mod Changes
pub mod Safety
mod Tests
use cynthia.Base.{
  ℕ, ◌+◌, ◌-◌, Bool, true, false, ◌&&◌, ◌||◌, if◌then◌else◌, ltb, ◌==◌, Option, none, some, List,
  [], ◌∷◌, length,
}
use cynthia.Base.Machine.{Machine}

-- A `Vec` is written from its last element to its first. `notified` has the ids of the sleepers
-- whose waker was given out or taken; no operation reads it.
pub record Sleeper : Type 0 where
  pub count : ℕ
  pub wakers : List (ℕ × ℕ)
  pub free_ids : List ℕ
  pub notified : List ℕ

unfoldable pub new : Sleeper
new = record { count = 0; wakers = []; free_ids = []; notified = [] }

abbrev pub erase : ℕ → List ℕ → List ℕ
erase id [] = []
erase id (x ∷ rest) = if x == id then rest else x ∷ erase id rest

-- `insert`, by the free ids.
unfoldable pub insert_by : ℕ → Sleeper → List ℕ → ℕ × Sleeper
insert_by waker s [] =
    (s.count + 1, record s { count = s.count + 1; wakers = (s.count + 1, waker) ∷ s.wakers })
insert_by waker s (id ∷ rest) =
    (id, record s { count = s.count + 1; wakers = (id, waker) ∷ s.wakers; free_ids = rest })

unfoldable pub insert : ℕ → Sleeper → ℕ × Sleeper
unfolding insert_by
insert waker s = insert_by waker s s.free_ids

-- The loop of `remove`, from the last entry on.
unfoldable pub remove_from : ℕ → List (ℕ × ℕ) → Option (List (ℕ × ℕ))
remove_from id [] = none
remove_from id (x ∷ rest) =
    let found = remove_from id rest in
    if x.0 == id then some rest else elim found [ none ↦ none | some rest' ↦ some (x ∷ rest') ]

-- The result says whether the sleeper had been notified.
unfoldable pub remove_by : ℕ → Sleeper → Option (List (ℕ × ℕ)) → Bool × Sleeper
remove_by id s (some wakers) =
    (false, record s { count = s.count - 1; free_ids = id ∷ s.free_ids; wakers = wakers })
remove_by id s none = (
  true,
  record s { count = s.count - 1; free_ids = id ∷ s.free_ids; notified = erase id s.notified },
)

unfoldable pub remove : ℕ → Sleeper → Bool × Sleeper
unfolding remove_by remove_from
remove id s = remove_by id s (remove_from id s.wakers)

unfoldable pub is_notified : Sleeper → Bool
is_notified s = (s.count == 0) || ltb (length s.wakers) s.count

unfoldable pub notify : Sleeper → Option ℕ × Sleeper
notify s =
    if length s.wakers == s.count
    then elim s.wakers [
      | [] ↦ (none, s)
      | x ∷ rest ↦ (some x.1, record s { wakers = rest; notified = x.0 ∷ s.notified })
    ]
    else (none, s)

module _ (will_wake : ℕ → ℕ → Bool) where
  -- The loop of `update`, from the first entry on, that is, the end of the list.
  unfoldable pub update_from : ℕ → ℕ → List (ℕ × ℕ) → Option (List (ℕ × ℕ))
  update_from id waker [] = none
  update_from id waker (x ∷ rest) = elim (update_from id waker rest) [
    | some rest' ↦ some (x ∷ rest')
    | none ↦
        if x.0 == id
        then some ((x.0, (if will_wake x.1 waker then x.1 else waker)) ∷ rest)
        else none
  ]

  -- The result says whether the sleeper had been notified.
  unfoldable pub update_by : ℕ → ℕ → Sleeper → Option (List (ℕ × ℕ)) → Bool × Sleeper
  update_by id waker s (some wakers) = (false, record s { wakers = wakers })
  update_by id waker s none =
      (true, record s { wakers = (id, waker) ∷ s.wakers; notified = erase id s.notified })

  unfoldable pub update : ℕ → ℕ → Sleeper → Bool × Sleeper
  unfolding update_from update_by
  update id waker s = update_by id waker s (update_from id waker s.wakers)

-- How often an id is in a list.
abbrev pub occurs : ℕ → List ℕ → ℕ
occurs id [] = 0
occurs id (x ∷ rest) = (if x == id then 1 else 0) + occurs id rest

abbrev pub ids : List (ℕ × ℕ) → List ℕ
ids [] = []
ids (x ∷ rest) = x.0 ∷ ids rest

pub data Action : Type 0 where
  inserts removes : ℕ → Action
  updates : ℕ → ℕ → Action
  notifies : Action

-- A sleeper updates and removes the id that it was given.
unfoldable pub can : Action → Sleeper → Bool
can (inserts waker) s = true
can (updates id waker) s = ltb 0 (occurs id (ids s.wakers) + occurs id s.notified)
can (removes id) s = ltb 0 (occurs id (ids s.wakers) + occurs id s.notified)
can notifies s = true

module _ (will_wake : ℕ → ℕ → Bool) where
  unfoldable pub act : Action → Sleeper → Option Sleeper
  act (inserts waker) s = some (insert waker s).1
  act (updates id waker) s = some (update will_wake id waker s).1
  act (removes id) s = some (remove id s).1
  act notifies s = some (notify s).1

  abbrev pub machine : Machine
  machine = record { State = Sleeper; Action = Action; first = new; can = can; act = act }
