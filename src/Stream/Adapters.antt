-- ===== src/Stream/Adapters.antt =====
-- cynthia/src/future/stream.rs: the adapters of one stream, each by what it does with an item.
use cynthia.Base.{ℕ, ◌+◌, ◌-◌, ◌==◌, Bool, if◌then◌else◌, Option, none, some}
use cynthia.Stream.{Stream}
use cynthia.Stream.Loop.{Round, emit, skip, stop, With, adapter}

module _ {ℓ} {A : Type ℓ} where
  abbrev pub filter_round : (A → Bool) → Unit {ℓ} → A → Round (Unit {ℓ}) A
  filter_round predicate u a = if predicate a then emit a u else skip u

  abbrev pub filter_map_round : {B : Type ℓ} → (A → Option B) → Unit {ℓ} → A → Round (Unit {ℓ}) B
  filter_map_round f u a = elim (f a) [ none ↦ skip u | some b ↦ emit b u ]

  abbrev pub take_while_round : (A → Bool) → Unit {ℓ} → A → Round (Unit {ℓ}) A
  take_while_round predicate u a = if predicate a then emit a u else stop u

  -- The state is `predicate`, `none` once an item was let through.
  abbrev pub skip_while_round : Option (A → Bool) → A → Round (Option (A → Bool)) A
  skip_while_round none a = emit a none
  skip_while_round (some p) a = if p a then skip (some p) else emit a none

  module _ {St B : Type ℓ} where
    -- What `f` returns, and the state that it leaves.
    abbrev pub scan_round : (St → A → Option B × St) → St → A → Round St B
    scan_round f st a = let (b?, st') = f st a in elim b? [ none ↦ stop st' | some b ↦ emit b st' ]

module _ {A : Type 0} where
  abbrev pub skip_round : ℕ → A → Round ℕ A
  skip_round n a = if n == 0 then emit a n else skip (n - 1)

  abbrev pub step_round : ℕ → ℕ → A → Round ℕ A
  step_round step i a = if i == 0 then emit a (step - 1) else skip (i - 1)

module _ {ℓ} {X A : Type ℓ} (s : Stream X A) where
  -- `Map`; `Inspect`, `Cloned` and `Copied` are `Map` with a function that gives its argument back.
  unfoldable pub map : {B : Type ℓ} → (A → B) → Stream (With (Unit {ℓ}) X) B
  map f = adapter s (λ u a. emit (f a) u)

  unfoldable pub filter : (A → Bool) → Stream (With (Unit {ℓ}) X) A
  filter predicate = adapter s (filter_round predicate)

  unfoldable pub filter_map : {B : Type ℓ} → (A → Option B) → Stream (With (Unit {ℓ}) X) B
  filter_map f = adapter s (filter_map_round f)

  unfoldable pub take_while : (A → Bool) → Stream (With (Unit {ℓ}) X) A
  take_while predicate = adapter s (take_while_round predicate)

  unfoldable pub skip_while : Stream (With (Option (A → Bool)) X) A
  skip_while = adapter s skip_while_round

  unfoldable pub scan : {St B : Type ℓ} → (St → A → Option B × St) → Stream (With St X) B
  scan f = adapter s (scan_round f)

-- The adapters that count.
module _ {X A : Type 0} (s : Stream X A) where
  unfoldable pub enumerate : Stream (With ℕ X) (ℕ × A)
  enumerate = adapter s (λ i a. emit (i, a) (i + 1))

  unfoldable pub skip_items : Stream (With ℕ X) A
  skip_items = adapter s skip_round

  unfoldable pub step_by : ℕ → Stream (With ℕ X) A
  step_by step = adapter s (step_round step)
