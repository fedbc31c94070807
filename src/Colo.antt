-- ===== src/Colo.antt =====
-- cynthia/src/utils/colo.rs: a slab. Objects live in slots; the vacant slots form a list through
-- the slots themselves. `none` is a panic of the code: an index out of bounds, or `unreachable!`.
pub mod Free
pub mod Inv
pub mod Laws
pub mod Loops
mod Tests
use cynthia.Base.{
  ℕ, zero, suc, ◌+◌, ◌-◌, ◌^◌, Bool, true, false, ◌&&◌, not, if◌then◌else◌, ◌==◌, Option, none,
  some, List, [], ◌∷◌, ◌++◌, length, get_elem?, set,
}

pub data Slot {ℓ} (A : Type ℓ) : Type ℓ where
  vacant : ℕ → Slot A
  occupied : A → Slot A

pub record Colo {ℓ} (A : Type ℓ) : Type ℓ where
  pub slots : List (Slot A)
  pub limited : ℕ
  pub len : ℕ
  pub head : ℕ

-- `!0`: the list of vacant slots ends here.
abbrev pub nil : ℕ
nil = 2 ^ 64 - 1

module _ {ℓ} {A : Type ℓ} where
  abbrev pub is_occupied : Slot A → Bool
  is_occupied (vacant n) = false
  is_occupied (occupied a) = true

  abbrev pub object : Option (Slot A) → Option A
  object none = none
  object (some (vacant n)) = none
  object (some (occupied a)) = some a

  unfoldable pub with_limited : ℕ → Colo A
  with_limited limit = record { slots = []; limited = limit; len = 0; head = nil }

  unfoldable pub new : Colo A
  unfolding with_limited
  new = with_limited 0

  unfoldable pub is_empty : Colo A → Bool
  is_empty c = c.len == 0

  unfoldable pub next_vacant : Colo A → ℕ
  next_vacant c = if c.head == nil then c.len else c.head

  unfoldable pub is_limited : Colo A → Bool
  is_limited c = not (c.limited == 0) && (c.len == c.limited)

  -- At the limit the object is dropped and `usize::MIN` returned.
  unfoldable pub insert : A → Colo A → Option (ℕ × Colo A)
  unfolding is_limited
  insert a c =
      if is_limited c
      then some (0, c)
      else if c.head == nil
      then some (c.len, record c { slots = c.slots ++ (occupied a ∷ []); len = c.len + 1 })
      else elim (get_elem? c.slots c.head) [
        | some (vacant next) ↦ some (
          c.head,
          record c { slots = set c.slots c.head (occupied a); len = c.len + 1; head = next },
        )
        | _ ↦ none
      ]

  unfoldable pub get : Colo A → ℕ → Option A
  get c i = object (get_elem? c.slots i)

  abbrev pub vacate : ℕ → Colo A → Colo A
  vacate i c = record c { slots = set c.slots i (vacant c.head); len = c.len - 1; head = i }

  unfoldable pub remove : ℕ → Colo A → Option A × Colo A
  remove i c = elim (object (get_elem? c.slots i)) [
    | none ↦ (none, c)
    | some a ↦ (some a, vacate i c)
  ]

  unfoldable pub clear : Colo A → Colo A
  clear c = record c { slots = []; len = 0; head = nil }

  -- The round `i` of `retain`; the predicate's own effects are not modelled.
  unfoldable pub retain_round : (ℕ → A → Bool) → ℕ → Colo A → Colo A
  unfolding remove
  retain_round f i c = elim (object (get_elem? c.slots i)) [
    | none ↦ c
    | some a ↦ if f i a then c else (remove i c).1
  ]

  unfoldable pub retain_from : (ℕ → A → Bool) → ℕ → ℕ → Colo A → Colo A
  unfolding retain_round
  retain_from f zero i c = c
  retain_from f (suc rounds) i c = retain_from f rounds (i + 1) (retain_round f i c)

  unfoldable pub retain : (ℕ → A → Bool) → Colo A → Colo A
  unfolding retain_from
  retain f c = retain_from f (length c.slots) 0 c

  -- The two assertions, then the exchange of two slots.
  unfoldable pub swap : ℕ → ℕ → Colo A → Option (Colo A)
  swap i j c = elim (get_elem? c.slots i) [
    | some (occupied a) ↦ elim (get_elem? c.slots j) [
      | some (occupied b) ↦
          if i == j
          then some c
          else some (record c { slots = set (set c.slots i (occupied b)) j (occupied a) })
      | _ ↦ none
    ]
    | _ ↦ none
  ]

  -- `iter`, from the index `i` on.
  unfoldable pub iter_from : ℕ → List (Slot A) → List (ℕ × A)
  iter_from i [] = []
  iter_from i (vacant n ∷ rest) = iter_from (i + 1) rest
  iter_from i (occupied a ∷ rest) = (i, a) ∷ iter_from (i + 1) rest

  unfoldable pub iter : Colo A → List (ℕ × A)
  unfolding iter_from
  iter c = iter_from 0 c.slots

  unfoldable pub from_iter : List A → Colo A → Option (Colo A)
  from_iter [] c = some c
  from_iter (a ∷ rest) c = elim (insert a c) [ none ↦ none | some (i, c') ↦ from_iter rest c' ]
