-- ===== src/Blocking/Pipe/Content.antt =====
-- What a pipe holds, and that every step keeps it in order.
use mathlib.Core.List.{append_assoc}
use cynthia.Base.{
  if_holds, ◌||◌, ◌==◌, ℕ, ◌+◌, ◌*◌, ◌≤◌, ◌<◌, ◌≡◌, ◌⊎◌, inl, inr, sym, ap, ◌∙◌, Bool, true,
  if◌then◌else◌, some, some_kept, List, ◌++◌, length, arith, leb→le,
}
use cynthia.Base.Memory.{write_bytes, write_bytes-below, write_bytes-above, slice-write_bytes}
use cynthia.Blocking.Pipe.{
  Pipe, distance, real_index, advance, load_tail, load_head, drain_max, drain_round, fill_max,
  prepare, read_into, publish, fill_round, close, can, act, Action, zero_bytes,
}
use cynthia.Blocking.Pipe.Window.{window, after, address, window-same, window-slice, window-split}
use cynthia.Blocking.Pipe.Fill.{fill_round-Places}
use cynthia.Blocking.Pipe.Inv.{
  Places, load_tail-Places, load_head-Places, close-Places, drain_round-Places, distance-advance,
  distance-advance_right, drain_fits, fill_fits, unread_lem,
}

module _ (cap : ℕ) where
  -- The bytes that wait to be read.
  abbrev pub unread : Pipe → List ℕ
  unread p = window cap p.buffer p.head (distance cap p.head p.tail)

  pub record Inv (p : Pipe) : Type 0 where
    pub places : Places cap p
    pub content : p.sent ≡ p.received ++ unread p

  advance-after :
      (h n : ℕ)
      → h < 2 * cap
      → real_index cap h + n ≤ cap
      → 0 < cap
      → after cap h n ≡ advance cap h n
  unfolding advance after real_index
  advance-after h n below fits room = ground arith

  after-distance : (h t : ℕ) → h < 2 * cap → t < 2 * cap → after cap h (distance cap h t) ≡ t
  unfolding after distance
  after-distance h t below tail_below = ground arith

  drain_round-content :
      {p : Pipe} (n : ℕ)
      → Inv p
      → n ≤ drain_max cap p
      → p.sent ≡ (drain_round cap n p).received ++ unread (drain_round cap n p)
  unfolding drain_round
  drain_round-content {p} n v h =
      let places = v.places in
      let (near, fits) = drain_fits cap p n places.head h in
      let less : n ≤ distance cap p.head p.tail = omega (arith, near, (unread_lem cap places).0) in
      let ahead = distance-advance cap p.head p.tail n places.head places.tail less fits in
      let parts : n + distance cap (advance cap p.head n) p.tail ≡ distance cap p.head p.tail =
        omega (arith, ahead) in
      let split =
        window-split cap p.buffer n (distance cap (advance cap p.head n) p.tail) places.head
          (omega (arith, fits)) in
      v.content
      ∙ ap (λ d. p.received ++ window cap p.buffer p.head d) (sym parts)
      ∙ ap (λ l. p.received ++ l) split
      ∙ rw (
        advance-after p.head n places.head fits places.room,
        window-slice cap p.buffer n places.head fits,
        append_assoc p.received (window cap p.buffer p.head n) (
            window cap p.buffer (advance cap p.head n)
              (distance cap (advance cap p.head n) p.tail)),
      )

  -- The address of an unread byte has been zeroed before, and is none that a round of `fill` zeroes
  -- or writes.
  unread-address :
      (h t z n k : ℕ)
      → 0 < cap
      → h < 2 * cap
      → t < 2 * cap
      → z ≤ cap
      → (z < cap → (h ≤ t) × (t ≤ z))
      → k < distance cap h t
      → distance cap h t + n ≤ cap
      → real_index cap t + n ≤ cap
      → (address cap h k < z)
        × ((address cap h k < real_index cap t) ⊎ (real_index cap t + n ≤ address cap h k))
  unfolding address after real_index distance
  unread-address h t z n k room below tail_below top low near full fits =
      (ground arith, ground arith)

  prepared :
      (fresh : Bool) (z to i : ℕ) (memory : ℕ → ℕ)
      → i < z
      → (if fresh then zero_bytes z to memory else memory) i ≡ memory i
  unfolding zero_bytes
  prepared fresh z to i memory h = ground arith

  beside :
      (bytes : List ℕ) (from i : ℕ) (memory : ℕ → ℕ)
      → (i < from) ⊎ (from + length bytes ≤ i)
      → write_bytes from bytes memory i ≡ memory i
  beside bytes from i memory (inl below) = write_bytes-below bytes from i memory below
  beside bytes from i memory (inr above) = write_bytes-above bytes from i memory above

  pub read_into-keeps :
      {p : Pipe} (bytes : List ℕ)
      → Inv p
      → length bytes ≤ fill_max cap p
      → window cap (read_into cap bytes p).buffer p.head (distance cap p.head p.tail) ≡ unread p
  unfolding read_into prepare publish
  read_into-keeps {p} bytes v h =
      let places = v.places in
      let (near, fits) = fill_fits cap p (length bytes) places.tail places.full h in
      let order = (unread_lem cap places).1 in
      let d = distance cap p.head p.tail in
      let away = λ (k : ℕ) (below : k < d).
        unread-address p.head p.tail p.zeroed_until (length bytes) k places.room places.head
          places.tail places.zeroed places.unzeroed below (omega (arith, order, near)) fits in
      window-same cap d _ p.buffer places.head (omega (arith, order, places.full)) (λ k below.
        beside bytes (real_index cap p.tail) (address cap p.head k) _ (away k below).1
        ∙ prepared _ p.zeroed_until _ (address cap p.head k) p.buffer (away k below).0)

  pub published-content :
      {p : Pipe} (bytes : List ℕ)
      → Inv p
      → length bytes ≤ fill_max cap p
      → let p' = publish cap bytes (read_into cap bytes p) in p'.sent ≡ p'.received ++ unread p'
  unfolding read_into prepare publish
  published-content {p} bytes v h =
      let places = v.places in
      let (near, fits) = fill_fits cap p (length bytes) places.tail places.full h in
      let order = (unread_lem cap places).1 in
      let d = distance cap p.head p.tail in
      let n = length bytes in
      let memory = (read_into cap bytes p).buffer in
      let far =
        distance-advance_right cap p.head p.tail n places.head places.tail
          (omega (arith, order, near)) places.room fits in
      let split = window-split cap memory d n places.head (omega (arith, order, places.full)) in
      let last : window cap memory (after cap p.head d) n ≡ bytes =
        ap (λ i. window cap memory i n) (after-distance p.head p.tail places.head places.tail)
        ∙ sym (window-slice cap memory n places.tail fits)
        ∙ slice-write_bytes bytes (real_index cap p.tail) _ in
      rw (far, split, last, read_into-keeps bytes v h, v.content)
        (append_assoc p.received (unread p) bytes)

  pub fill_round-Inv :
      {p : Pipe} (bytes : List ℕ)
      → Inv p
      → length bytes ≤ fill_max cap p
      → Inv (fill_round cap bytes p)
  unfolding fill_round read_into prepare publish
  fill_round-Inv {p} bytes v h = record {
    places = fill_round-Places cap bytes v.places h;
    content =
        if_holds (λ q. q.sent ≡ q.received ++ unread q) ((length bytes == 0) || p.closed)
          (λ _. v.content ∙ ap (λ l. p.received ++ l) (sym (read_into-keeps bytes v h)))
          (λ _. published-content bytes v h);
  }

  pub step-Inv :
      (a : Action) (p p' : Pipe) → Inv p → can cap a p ≡ true → act cap a p ≡ some p' → Inv p'
  unfolding can act load_tail load_head close drain_round
  step-Inv Action.loads_tail p p' v h e =
      some_kept Inv _ e (record { places = load_tail-Places cap v.places; content = v.content })
  step-Inv Action.loads_head p p' v h e =
      some_kept Inv _ e (record { places = load_head-Places cap v.places; content = v.content })
  step-Inv Action.closes p p' v h e =
      some_kept Inv _ e (record { places = close-Places cap v.places; content = v.content })
  step-Inv (Action.drains n) p p' v h e =
      let fits = leb→le _ _ h in
      some_kept Inv _ e (record {
        places = drain_round-Places cap n v.places fits;
        content = drain_round-content n v fits;
      })
  step-Inv (Action.fills bytes) p p' v h e =
      some_kept Inv _ e (fill_round-Inv bytes v (leb→le _ _ h))
