-- ===== src/Blocking/Pipe/Inv.antt =====
-- Where the positions of a pipe stand to each other, and that every step keeps them there.
use cynthia.Base.{ℕ, ◌+◌, ◌*◌, ◌≤◌, ◌<◌, ◌≡◌, arith}
use cynthia.Blocking.Pipe.{
  Pipe, distance, real_index, advance, load_tail, load_head, drain_max, drain_round, fill_max,
  close, empty,
}

module _ (cap : ℕ) where
  -- Round the ring come the writer's copy of the head, the head, the reader's copy of the tail and
  -- the tail, all within one capacity. Memory that was never zeroed has not been reached yet.
  pub record Places (p : Pipe) : Type 0 where
    pub room : 0 < cap
    pub writer_head : p.writer_head < 2 * cap
    pub head : p.head < 2 * cap
    pub reader_tail : p.reader_tail < 2 * cap
    pub tail : p.tail < 2 * cap
    pub around :
        distance cap p.writer_head p.head
          + distance cap p.head p.reader_tail
          + distance cap p.reader_tail p.tail
        ≡ distance cap p.writer_head p.tail
    pub full : distance cap p.writer_head p.tail ≤ cap
    pub zeroed : p.zeroed_until ≤ cap
    pub unzeroed : p.zeroed_until < cap → (p.head ≤ p.tail) × (p.tail ≤ p.zeroed_until)

  pub empty-Places : 0 < cap → (memory : ℕ → ℕ) → Places (empty memory)
  unfolding empty distance
  empty-Places h memory = ground arith

  pub load_tail-Places : {p : Pipe} → Places p → Places (load_tail p)
  unfolding load_tail distance
  load_tail-Places v = ground arith

  pub load_head-Places : {p : Pipe} → Places p → Places (load_head p)
  unfolding load_head distance
  load_head-Places v = ground arith

  pub close-Places : {p : Pipe} → Places p → Places (close p)
  unfolding close
  close-Places v = ground arith

  -- A position that moves on by `n` comes nearer to what is ahead, and leaves what is behind.
  pub distance-advance :
      (h t n : ℕ)
      → h < 2 * cap
      → t < 2 * cap
      → n ≤ distance cap h t
      → real_index cap h + n ≤ cap
      → distance cap (advance cap h n) t + n ≡ distance cap h t
  unfolding distance advance real_index
  distance-advance h t n below tail_below near fits = ground arith

  pub distance-advance_right :
      (h t n : ℕ)
      → h < 2 * cap
      → t < 2 * cap
      → distance cap h t + n ≤ cap
      → 0 < cap
      → real_index cap t + n ≤ cap
      → distance cap h (advance cap t n) ≡ distance cap h t + n
  unfolding distance advance real_index
  distance-advance_right h t n below tail_below near room fits = ground arith

  pub advance-lt : (h n : ℕ) → 0 < cap → advance cap h n < 2 * cap
  unfolding advance
  advance-lt h n room = ground arith

  pub distance-between :
      (a b c : ℕ)
      → a < 2 * cap
      → b < 2 * cap
      → c < 2 * cap
      → distance cap a b + distance cap b c ≤ cap
      → 0 < cap
      → distance cap a c ≡ distance cap a b + distance cap b c
  unfolding distance
  distance-between a b c ha hb hc near room = ground arith

  -- What a round may take.
  pub drain_fits :
      (p : Pipe) (n : ℕ)
      → p.head < 2 * cap
      → n ≤ drain_max cap p
      → (n ≤ distance cap p.head p.reader_tail) × (real_index cap p.head + n ≤ cap)
  unfolding drain_max real_index
  drain_fits p n below h = ground arith

  pub fill_fits :
      (p : Pipe) (n : ℕ)
      → p.tail < 2 * cap
      → distance cap p.writer_head p.tail ≤ cap
      → n ≤ fill_max cap p
      → (distance cap p.writer_head p.tail + n ≤ cap) × (real_index cap p.tail + n ≤ cap)
  unfolding fill_max real_index
  fill_fits p n below full h = ground arith

  -- A drained byte that lies before the tail: no wrap round before the memory is zeroed.
  advance-le :
      (h t n : ℕ)
      → t < 2 * cap
      → n ≤ distance cap h t
      → h ≤ t
      → t ≤ cap
      → 0 < cap
      → advance cap h n ≤ t
  unfolding distance advance
  advance-le h t n below near order low room = ground arith

  -- The bytes that wait to be read, by the true positions.
  pub unread_lem :
      {p : Pipe}
      → Places p
      → (distance cap p.head p.tail
          ≡ distance cap p.head p.reader_tail + distance cap p.reader_tail p.tail)
        × (distance cap p.writer_head p.head + distance cap p.head p.tail
            ≡ distance cap p.writer_head p.tail)
  unread_lem {p} v =
      let e =
        distance-between p.head p.reader_tail p.tail v.head v.reader_tail v.tail
          (omega (arith, v.around, v.full)) v.room in
      (e, omega (arith, v.around, e))

  pub drain_round-Places :
      {p : Pipe} (n : ℕ) → Places p → n ≤ drain_max cap p → Places (drain_round cap n p)
  unfolding drain_round
  drain_round-Places {p} n v h =
      let (near, fits) = drain_fits p n v.head h in
      let unread = (unread_lem v).0 in
      let ahead = distance-advance p.head p.reader_tail n v.head v.reader_tail near fits in
      let behind =
        distance-advance_right p.writer_head p.head n v.writer_head v.head
          (omega (arith, v.around, v.full, near)) v.room fits in
      record {
        room = v.room;
        writer_head = v.writer_head;
        head = advance-lt p.head n v.room;
        reader_tail = v.reader_tail;
        tail = v.tail;
        around = omega (arith, v.around, ahead, behind);
        full = v.full;
        zeroed = v.zeroed;
        unzeroed = λ low.
            let (order, top) = v.unzeroed low in
            (
              advance-le p.head p.tail n v.tail (omega (arith, near, unread)) order
                  (omega (arith, low, top)) v.room,
              top,
            );
      }
