-- ===== src/Stream/Pairs.antt =====
-- cynthia/src/future/stream.rs: the adapters that look at themselves before they poll, and those of
-- two streams.
pub mod Take
pub mod Chain
pub mod Zip
pub mod Race
use cynthia.Base.{ℕ, ◌-◌, ◌==◌, Bool, true, false, ◌&&◌, if◌then◌else◌, Option, none, some}
use cynthia.Stream.{Poll, pending, ready, Stream}

-- `Take`.
pub record Taking {ℓ} (X : Type ℓ) : Type ℓ where
  pub n : ℕ
  pub stream : X

-- `Fuse`.
pub record Fused {ℓ} (X : Type ℓ) : Type ℓ where
  pub stream : X
  pub done : Bool

module _ {ℓ} {X A : Type ℓ} (s : Stream X A) where
  abbrev pub take_answer : ℕ → Poll (Option A) × X → Poll (Option A) × Taking X
  take_answer n (pending, x) = (pending, record { n = n; stream = x })
  take_answer n (ready none, x) = (ready none, record { n = 0; stream = x })
  take_answer n (ready (some a), x) = (ready (some a), record { n = n - 1; stream = x })

  unfoldable pub take_poll : Taking X → Poll (Option A) × Taking X
  take_poll t = if t.n == 0 then (ready none, t) else take_answer t.n (s.poll_next t.stream)

  abbrev pub fuse_answer : Poll (Option A) × X → Poll (Option A) × Fused X
  fuse_answer (pending, x) = (pending, record { stream = x; done = false })
  fuse_answer (ready none, x) = (ready none, record { stream = x; done = true })
  fuse_answer (ready (some a), x) = (ready (some a), record { stream = x; done = false })

  unfoldable pub fuse_poll : Fused X → Poll (Option A) × Fused X
  fuse_poll f = if f.done then (ready none, f) else fuse_answer (s.poll_next f.stream)

-- `Chain`.
pub record Chained {ℓ} (X Y : Type ℓ) : Type ℓ where
  pub first : Fused X
  pub second : Fused Y

-- `Zip`.
pub record Zipped {ℓ} (A X Y : Type ℓ) : Type ℓ where
  pub item_slot : Option A
  pub first : X
  pub second : Y

-- One answer of `Race`: an item, or what `other` does.
abbrev pub race_answer {ℓ κ} :
    {A Z : Type ℓ} {R : Type κ} → Poll (Option A) × Z → (Poll (Option A) → Z → R) → (Z → R) → R
race_answer (ready (some a), z) give other = give (ready (some a)) z
race_answer (ready none, z) give other = other z
race_answer (pending, z) give other = other z

module _ {ℓ} {X Y A : Type ℓ} (s : Stream X A) (t : Stream Y A) where
  -- The end of `Chain::poll_next`, and what comes before it, backwards.
  abbrev pub chain_end : Chained X Y → Poll (Option A) × Chained X Y
  chain_end c = (if c.first.done && c.second.done then ready none else pending, c)

  abbrev pub chain_second_answer :
      Fused X → Poll (Option A) × Fused Y → Poll (Option A) × Chained X Y
  chain_second_answer f (pending, g) = (pending, record { first = f; second = g })
  chain_second_answer f (ready none, g) = chain_end (record { first = f; second = g })
  chain_second_answer f (ready (some a), g) = (ready (some a), record { first = f; second = g })

  abbrev pub chain_second : Fused X → Fused Y → Poll (Option A) × Chained X Y
  chain_second f g =
      if g.done
      then chain_end (record { first = f; second = g })
      else chain_second_answer f (fuse_poll t g)

  abbrev pub chain_first_answer :
      Fused Y → Poll (Option A) × Fused X → Poll (Option A) × Chained X Y
  chain_first_answer g (pending, f) = (pending, record { first = f; second = g })
  chain_first_answer g (ready none, f) = chain_second f g
  chain_first_answer g (ready (some a), f) = (ready (some a), record { first = f; second = g })

  unfoldable pub chain_poll : Chained X Y → Poll (Option A) × Chained X Y
  unfolding fuse_poll
  chain_poll c =
      if c.first.done
      then chain_second c.first c.second
      else chain_first_answer c.second (fuse_poll s c.first)

  -- `Or`, on the two streams.
  abbrev pub or_second : X → Poll (Option A) × Y → Poll (Option A) × (X × Y)
  or_second x (p, y) = (p, (x, y))

  abbrev pub or_first : Y → Poll (Option A) × X → Poll (Option A) × (X × Y)
  or_first y (ready (some a), x) = (ready (some a), (x, y))
  or_first y (ready none, x) = or_second x (t.poll_next y)
  or_first y (pending, x) = or_second x (t.poll_next y)

  unfoldable pub or_poll : X × Y → Poll (Option A) × (X × Y)
  or_poll (x, y) = or_first y (s.poll_next x)

  -- `Race`; `heads` is the random bit.
  unfoldable pub race_poll : Bool → X × Y → Poll (Option A) × (X × Y)
  race_poll heads (x, y) =
      if heads
      then race_answer (s.poll_next x) (λ p x'. (p, (x', y)))
          (λ x'. race_answer (t.poll_next y) (λ p y'. (p, (x', y'))) (λ y'. (pending, (x', y'))))
      else race_answer (t.poll_next y) (λ p y'. (p, (x, y')))
          (λ y'. race_answer (s.poll_next x) (λ p x'. (p, (x', y'))) (λ x'. (pending, (x', y'))))

module _ {ℓ} {X Y A B : Type ℓ} (s : Stream X A) (t : Stream Y B) where
  abbrev pub zip_second : A → X → Poll (Option B) × Y → Poll (Option (A × B)) × Zipped A X Y
  zip_second a x (pending, y) = (pending, record { item_slot = some a; first = x; second = y })
  zip_second a x (ready none, y) = (ready none, record { item_slot = none; first = x; second = y })
  zip_second a x (ready (some b), y) =
      (ready (some (a, b)), record { item_slot = none; first = x; second = y })

  abbrev pub zip_first : Y → Poll (Option A) × X → Poll (Option (A × B)) × Zipped A X Y
  zip_first y (pending, x) = (pending, record { item_slot = none; first = x; second = y })
  zip_first y (ready none, x) = (ready none, record { item_slot = none; first = x; second = y })
  zip_first y (ready (some a), x) = zip_second a x (t.poll_next y)

  abbrev pub zip_slot : Option A → X → Y → Poll (Option (A × B)) × Zipped A X Y
  zip_slot none x y = zip_first y (s.poll_next x)
  zip_slot (some a) x y = zip_second a x (t.poll_next y)

  unfoldable pub zip_poll : Zipped A X Y → Poll (Option (A × B)) × Zipped A X Y
  zip_poll z = zip_slot z.item_slot z.first z.second
