-- ===== src/Blocking/Pipe.antt =====
-- The pipe of blocking.rs: a ring of bytes between one reader and one writer. Positions run below
-- twice the capacity, so that a full ring differs from an empty one. Each end keeps a copy of the
-- other's position, which may be old.
pub mod Window
pub mod Inv
pub mod Fill
pub mod Answers
pub mod Content
pub mod Fifo
use cynthia.Base.{
  ℕ, zero, suc, ◌+◌, ◌-◌, ◌*◌, ◌^◌, ◌≤◌, ◌<◌, Bool, true, false, ◌&&◌, ◌||◌, if◌then◌else◌, ltb,
  leb, ◌==◌, min, Option, none, some, List, [], ◌∷◌, ◌++◌, length,
}
use cynthia.Base.Memory.{slice, write_bytes}
use cynthia.Base.Machine.{Machine}

-- The ends' copies, the shared positions, and the memory. `sent` has the bytes that the writer has
-- published so far, `received` those that the reader has given out.
pub record Pipe : Type 0 where
  pub reader_tail : ℕ
  pub writer_head : ℕ
  pub head : ℕ
  pub tail : ℕ
  pub zeroed_until : ℕ
  pub closed : Bool
  pub buffer : ℕ → ℕ
  pub sent : List ℕ
  pub received : List ℕ

pub data Poll : Type 0 where
  pending : Poll
  ready : ℕ → Poll

unfoldable pub zero_bytes : ℕ → ℕ → (ℕ → ℕ) → ℕ → ℕ
zero_bytes from to memory i = if leb from i && ltb i to then 0 else memory i

-- What a pipe starts as; the memory's content is whatever was there.
unfoldable pub empty : (ℕ → ℕ) → Pipe
empty memory = record {
  reader_tail = 0;
  writer_head = 0;
  head = 0;
  tail = 0;
  zeroed_until = 0;
  closed = false;
  buffer = memory;
  sent = [];
  received = [];
}

-- The loads of the other end's position.
unfoldable pub load_tail : Pipe → Pipe
load_tail p = record p { reader_tail = p.tail }

unfoldable pub load_head : Pipe → Pipe
load_head p = record p { writer_head = p.head }

module _ (cap : ℕ) where
  unfoldable pub distance : ℕ → ℕ → ℕ
  distance a b = if leb a b then b - a else 2 * cap - (a - b)

  unfoldable pub real_index : ℕ → ℕ
  real_index i = if ltb i cap then i else i - cap

  unfoldable pub advance : ℕ → ℕ → ℕ
  advance i n = if ltb (i + n) (2 * cap) then i + n else 0

  -- `none` is a failed assertion.
  unfoldable pub pipe : (ℕ → ℕ) → Option Pipe
  pipe memory = if ltb 0 cap && ltb (2 * cap) (2 ^ 64) then some (empty memory) else none

  abbrev pub looks_empty : Pipe → Bool
  looks_empty p = distance p.head p.reader_tail == 0

  abbrev pub looks_full : Pipe → Bool
  looks_full p = distance p.writer_head p.tail == cap

  -- Once the tail is loaded `drain` answers if it looks empty; that reads `closed`.
  unfoldable pub drain_answer : Pipe → Option Poll
  drain_answer p = if looks_empty p then some (if p.closed then ready 0 else pending) else none

  -- The start of `drain` when nobody interrupts it: an answer, or the loop.
  unfoldable pub drain_begin : Pipe → Pipe × Option Poll
  unfolding load_tail drain_answer
  drain_begin p = if looks_empty p then (load_tail p, drain_answer (load_tail p)) else (p, none)

  unfoldable pub fill_begin : Pipe → Pipe × Option Poll
  unfolding load_head
  fill_begin p =
      if p.closed
      then (p, some (ready 0))
      else if looks_full p
      then (let p' = load_head p in
          if looks_full p' then (p', some (if p'.closed then ready 0 else pending)) else (p', none))
      else (p, none)

  -- The length of the slice that a round of `drain` offers.
  unfoldable pub drain_max : Pipe → ℕ
  drain_max p = min (min (128 * 1024) (distance p.head p.reader_tail)) (cap - real_index p.head)

  -- A round of `drain`, where `dest` takes `n` bytes of the slice.
  unfoldable pub drain_round : ℕ → Pipe → Pipe
  drain_round n p = record p {
    head = advance p.head n;
    received = p.received ++ slice p.buffer (real_index p.head) n;
  }

  unfoldable pub fill_max : Pipe → ℕ
  fill_max p =
      min (min (min (128 * 1024) (p.zeroed_until * 2 + 4096)) (cap - distance p.writer_head p.tail))
        (cap - real_index p.tail)

  -- The bytes up to the end of the slice that no round has yet reached are zeroed.
  unfoldable pub prepare : Pipe → Pipe
  unfolding fill_max
  prepare p =
      let to = real_index p.tail + fill_max p in
      let fresh = ltb p.zeroed_until to in
      record p {
        buffer = if fresh then zero_bytes p.zeroed_until to p.buffer else p.buffer;
        zeroed_until = if fresh then to else p.zeroed_until;
      }

  -- `src` puts these bytes into the slice.
  unfoldable pub read_into : List ℕ → Pipe → Pipe
  unfolding prepare
  read_into bytes p =
      let p' = prepare p in record p' { buffer = write_bytes (real_index p.tail) bytes p'.buffer }

  unfoldable pub publish : List ℕ → Pipe → Pipe
  publish bytes p = record p { tail = advance p.tail (length bytes); sent = p.sent ++ bytes }

  -- A round of `fill`: with no bytes, or on a closed pipe, nothing is published.
  unfoldable pub fill_round : List ℕ → Pipe → Pipe
  unfolding read_into publish
  fill_round bytes p =
      let p' = read_into bytes p in if (length bytes == 0) || p.closed then p' else publish bytes p'

unfoldable pub close : Pipe → Pipe
close p = record p { closed = true }

pub data Action : Type 0 where
  loads_tail loads_head closes : Action
  drains : ℕ → Action
  fills : List ℕ → Action

module _ (cap : ℕ) where
  -- `dest` takes no more than it is offered, and `src` gives no more than there is room for.
  unfoldable pub can : Action → Pipe → Bool
  can loads_tail p = true
  can loads_head p = true
  can closes p = true
  can (drains n) p = leb n (drain_max cap p)
  can (fills bytes) p = leb (length bytes) (fill_max cap p)

  unfoldable pub act : Action → Pipe → Option Pipe
  act loads_tail p = some (load_tail p)
  act loads_head p = some (load_head p)
  act closes p = some (close p)
  act (drains n) p = some (drain_round cap n p)
  act (fills bytes) p = some (fill_round cap bytes p)

  abbrev pub machine : (ℕ → ℕ) → Machine
  machine memory = record {
    State = Pipe;
    Action = Action;
    first = empty memory;
    can = can;
    act = act;
  }
