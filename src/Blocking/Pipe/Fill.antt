-- ===== src/Blocking/Pipe/Fill.antt =====
-- A round of `fill` keeps the positions of a pipe in order.
use cynthia.Base.{
  if_holds, ◌||◌, ℕ, ◌==◌, ◌+◌, ◌*◌, ◌≤◌, ◌<◌, ◌≡◌, if◌then◌else◌, ltb, List, length, arith,
}
use cynthia.Blocking.Pipe.{
  Pipe, real_index, advance, fill_max, prepare, read_into, publish, fill_round,
}
use cynthia.Blocking.Pipe.Inv.{Places, fill_fits, distance-advance_right, advance-lt}

module _ (cap : ℕ) where
  advance-zero : (i : ℕ) → i < 2 * cap → advance cap i 0 ≡ i
  unfolding advance
  advance-zero i h = ground arith

  -- A round of `fill` zeroes up to the end of its slice, and so no further than the memory goes.
  filled :
      (h t z n m : ℕ)
      → 0 < cap
      → t < 2 * cap
      → n ≤ m
      → real_index cap t + m ≤ cap
      → z ≤ cap
      → (z < cap → (h ≤ t) × (t ≤ z))
      → let z' = if ltb z (real_index cap t + m) then real_index cap t + m else z in
        (z' ≤ cap) × (z' < cap → (h ≤ advance cap t n) × (advance cap t n ≤ z'))
  unfolding advance real_index
  filled h t z n m room below less fits top low = (ground arith, λ e. ground arith)

  published-Places :
      {p : Pipe} (bytes : List ℕ)
      → Places cap p
      → length bytes ≤ fill_max cap p
      → Places cap (publish cap bytes (read_into cap bytes p))
  unfolding read_into prepare publish
  published-Places {p} bytes v h =
      let n = length bytes in
      let (near, fits) = fill_fits cap p n v.tail v.full h in
      let (_, fits_max) = fill_fits cap p (fill_max cap p) v.tail v.full (omega arith) in
      let (low, order) =
        filled p.head p.tail p.zeroed_until n (fill_max cap p) v.room v.tail h fits_max v.zeroed
          v.unzeroed in
      let by_writer =
        distance-advance_right cap p.writer_head p.tail n v.writer_head v.tail near v.room fits in
      let by_reader =
        distance-advance_right cap p.reader_tail p.tail n v.reader_tail v.tail
          (omega (arith, v.around, near)) v.room fits in
      record {
        room = v.room;
        writer_head = v.writer_head;
        head = v.head;
        reader_tail = v.reader_tail;
        tail = advance-lt cap p.tail n v.room;
        around = omega (arith, v.around, by_writer, by_reader);
        full = omega (arith, by_writer, near);
        zeroed = low;
        unzeroed = order;
      }

  stopped-Places : {p : Pipe} (bytes : List ℕ) → Places cap p → Places cap (read_into cap bytes p)
  unfolding read_into prepare
  stopped-Places {p} bytes v =
      let (_, fits_max) = fill_fits cap p (fill_max cap p) v.tail v.full (omega arith) in
      let (low, order) =
        filled p.head p.tail p.zeroed_until 0 (fill_max cap p) v.room v.tail (omega arith) fits_max
          v.zeroed v.unzeroed in
      record {
        room = v.room;
        writer_head = v.writer_head;
        head = v.head;
        reader_tail = v.reader_tail;
        tail = v.tail;
        around = v.around;
        full = v.full;
        zeroed = low;
        unzeroed = λ e. rw (advance-zero p.tail v.tail) at (order e);
      }

  pub fill_round-Places :
      {p : Pipe} (bytes : List ℕ)
      → Places cap p
      → length bytes ≤ fill_max cap p
      → Places cap (fill_round cap bytes p)
  unfolding fill_round
  fill_round-Places {p} bytes v h =
      if_holds (Places cap) ((length bytes == 0) || p.closed) (λ _. stopped-Places bytes v)
        (λ _. published-Places bytes v h)
