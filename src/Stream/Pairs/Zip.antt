-- ===== src/Stream/Pairs/Zip.antt =====
-- cynthia/src/future/stream.rs: what `Zip` gives.
use cynthia.Base.{ℕ, ◌+◌, ◌<◌, ◌≤◌, ◌≡◌, sym, ap, ◌∙◌, Option, none, some, List, ◌∷◌, arith}
use mathlib.Core.List.{zip, zip_with}
use cynthia.Stream.{
  pending, ready, Stream, Answer, Answer-cases, items, items-pending, items-end, items-item,
  by_polls, Moves, moves, end-moves,
}
use cynthia.Stream.Items.{items-same}
use cynthia.Stream.Pairs.{Zipped, zip_poll, zip_second}

module _ {ℓ} {X Y A B : Type ℓ} (s : Stream X A) (t : Stream Y B) where
  abbrev pub left : Zipped A X Y → ℕ
  left z = s.left z.first + t.left z.second

  second_moves :
      (m : ℕ) (a : A) (x : X) (y : Y)
      → s.left x + t.left y ≤ m
      → Moves left m (zip_second {A = A} {B = B} s t a x (t.poll_next y))
  second_moves m a x y h = elim (Answer-cases (t.poll_next y)) [
    | Answer.waits y' e ↦
        let moved = t.pending_moves y y' e in rw e (moves left pending _ (omega arith))
    | Answer.ends y' e ↦ rw e (end-moves left _)
    | Answer.gives b y' e ↦
        let moved = t.item_moves y y' b e in rw e (moves left (ready (some (a, b))) _ (omega arith))
  ]

  pub poll_moves :
      (slot : Option A) (x : X) (y : Y)
      → Moves left
          (s.left x + t.left y)
          (zip_poll s t (record { item_slot = slot; first = x; second = y }))
  unfolding zip_poll
  poll_moves (some a) x y = second_moves _ a x y (omega arith)
  poll_moves none x y = elim (Answer-cases (s.poll_next x)) [
    | Answer.waits x' e ↦
        let moved = s.pending_moves x x' e in rw e (moves left pending _ (omega arith))
    | Answer.ends x' e ↦ rw e (end-moves left _)
    | Answer.gives a x' e ↦
        let moved = s.item_moves x x' a e in rw e (second_moves _ a x' y (omega arith))
  ]

  unfoldable pub zipped : Stream (Zipped A X Y) (A × B)
  zipped = record {
    poll_next = zip_poll s t;
    left = left;
    pending_moves = λ z z' e. poll_moves z.item_slot z.first z.second pending z' e (λ c. cc c);
    item_moves =
        λ z z' a e. poll_moves z.item_slot z.first z.second (ready (some a)) z' e (λ c. cc c);
  }

  abbrev pub slot_items : Option A → X → List A
  slot_items none x = items s x
  slot_items (some a) x = a ∷ items s x

  abbrev at : Option A → X → Y → Zipped A X Y
  at slot x y = record { item_slot = slot; first = x; second = y }

  -- With an item in the slot, while the streams with fewer polls left are paired.
  items-slot :
      (a : A) (x : X) (y : Y)
      → ((z : Zipped A X Y)
          → left z < s.left x + t.left y
          → items zipped z ≡ zip (slot_items z.item_slot z.first) (items t z.second))
      → items zipped (at (some a) x y) ≡ zip (a ∷ items s x) (items t y)
  unfolding zipped zip_poll zip zip_with
  items-slot a x y ih = elim (Answer-cases (t.poll_next y)) [
    | Answer.waits y' e ↦
        let moved = t.pending_moves y y' e in
        items-pending zipped {x' = at (some a) x y'} (rw e)
        ∙ ih (at (some a) x y') (omega arith)
        ∙ ap (zip (a ∷ items s x)) (sym (items-pending t e))
    | Answer.ends y' e ↦
        items-end zipped {x' = at none x y'} (rw e) ∙ ap (zip (a ∷ items s x)) (sym (items-end t e))
    | Answer.gives b y' e ↦
        let moved = t.item_moves y y' b e in
        items-item zipped {x' = at none x y'} {a = (a, b)} (rw e)
        ∙ ap (λ l. (a, b) ∷ l) (ih (at none x y') (omega arith))
        ∙ ap (zip (a ∷ items s x)) (sym (items-item t e))
  ]

  items-at :
      (slot : Option A) (x : X) (y : Y)
      → ((z : Zipped A X Y)
          → left z < s.left x + t.left y
          → items zipped z ≡ zip (slot_items z.item_slot z.first) (items t z.second))
      → items zipped (at slot x y) ≡ zip (slot_items slot x) (items t y)
  unfolding zipped zip_poll zip zip_with
  items-at (some a) x y ih = items-slot a x y ih
  items-at none x y ih = elim (Answer-cases (s.poll_next x)) [
    | Answer.waits x' e ↦
        let moved = s.pending_moves x x' e in
        items-pending zipped {x' = at none x' y} (rw e)
        ∙ ih (at none x' y) (omega arith)
        ∙ ap (λ l. zip l (items t y)) (sym (items-pending s e))
    | Answer.ends x' e ↦
        items-end zipped {x' = at none x' y} (rw e)
        ∙ ap (λ l. zip l (items t y)) (sym (items-end s e))
    | Answer.gives a x' e ↦
        let moved = s.item_moves x x' a e in
        items-same zipped {x = at none x y} {y = at (some a) x' y} (rw e)
        ∙ ih (at (some a) x' y) (omega arith)
        ∙ ap (λ l. zip l (items t y)) (sym (items-item s e))
  ]

  -- `Zip` pairs the items in order, and ends with the shorter stream.
  pub items-zipped :
      (z : Zipped A X Y) → items zipped z ≡ zip (slot_items z.item_slot z.first) (items t z.second)
  unfolding zipped
  items-zipped = by_polls zipped (λ z ih. items-at z.item_slot z.first z.second ih)
