-- ===== src/Blocking/Pipe/Fifo.antt =====
-- The bytes of a pipe come out in the order in which they went in.
use mathlib.Core.List.{append_assoc}
use cynthia.Base.{
  if_holds, ◌||◌, ◌==◌, ℕ, ◌≤◌, ◌<◌, ◌≡◌, ap, ◌∙◌, true, false, none, some, List, ◌++◌, length,
  arith,
}
use cynthia.Base.Machine.{Reach, Reach-Keeps}
use cynthia.Blocking.Pipe.{
  Pipe, pending, ready, distance, drain_max, fill_max, prepare, read_into, publish, fill_round,
  close, empty, drain_begin, fill_begin, drain_answer, machine,
}
use cynthia.Blocking.Pipe.Answers.{drain_begin-answers, fill_begin-answers}
use cynthia.Blocking.Pipe.Window.{window}
use cynthia.Blocking.Pipe.Inv.{empty-Places, unread_lem}
use cynthia.Blocking.Pipe.Content.{unread, Inv, read_into-keeps, published-content, step-Inv}

module _ (cap : ℕ) where
  empty_content :
      (memory : ℕ → ℕ) → (empty memory).sent ≡ (empty memory).received ++ unread cap (empty memory)
  unfolding empty distance window
  empty_content memory = ground arith

  module _ (room : 0 < cap) (memory : ℕ → ℕ) {p : Pipe} (r : Reach (machine cap memory) p) where
    Reach-Inv : Inv cap p
    Reach-Inv =
        Reach-Keeps (machine cap memory) (Inv cap)
          (record {
            at_first = record {
              places = empty-Places cap room memory;
              content = empty_content memory;
            };
            at_step = step-Inv cap;
          })
          r

    -- In every reachable state the bytes sent are the bytes received and then the unread ones, in
    -- the same order; and there are no more unread ones than the capacity.
    pub first_in_first_out :
        (p.sent ≡ p.received ++ unread cap p) × (distance cap p.head p.tail ≤ cap)
    first_in_first_out =
        let places = Reach-Inv.places in
        (Reach-Inv.content, omega (arith, (unread_lem cap places).1, places.full))

    fill_round-keeps :
        (bytes : List ℕ)
        → length bytes ≤ fill_max cap p
        → window cap (fill_round cap bytes p).buffer p.head (distance cap p.head p.tail)
          ≡ unread cap p
    unfolding fill_round publish
    fill_round-keeps bytes h =
        if_holds
          (λ (q : Pipe). window cap q.buffer p.head (distance cap p.head p.tail) ≡ unread cap p)
          ((length bytes == 0) || p.closed) (λ _. read_into-keeps cap bytes Reach-Inv h)
          (λ _. read_into-keeps cap bytes Reach-Inv h)

    -- A round of `fill` writes only where no unread byte is, the zeroes included: the unread bytes
    -- stay as they are.
    pub fill_round-beside :
        (bytes : List ℕ)
        → length bytes ≤ fill_max cap p
        → window cap (fill_round cap bytes p).buffer p.head (distance cap p.head p.tail)
          ≡ unread cap p
    fill_round-beside bytes h = fill_round-keeps bytes h

    -- `drain` starts with the answer 0 only if the pipe is closed, and with `Pending` only if it is
    -- open, and in both cases all that was sent has been received; otherwise its first round offers
    -- a byte at least.
    pub drain_begin_lem :
        ((drain_begin cap p).1 ≡ some (ready 0) → (p.closed ≡ true) × (p.head ≡ p.tail))
        × ((drain_begin cap p).1 ≡ some pending → (p.closed ≡ false) × (p.head ≡ p.tail))
        × ((drain_begin cap p).1 ≡ none → 0 < drain_max cap (drain_begin cap p).0)
    drain_begin_lem = drain_begin-answers cap Reach-Inv.places

    -- `fill` starts with the answer 0 only if the pipe is closed, and with `Pending` only if it is
    -- open and full; otherwise its first round has room for a byte at least.
    pub fill_begin_lem :
        ((fill_begin cap p).1 ≡ some (ready 0) → p.closed ≡ true)
        × ((fill_begin cap p).1 ≡ some pending
            → (p.closed ≡ false) × (distance cap p.head p.tail ≡ cap))
        × ((fill_begin cap p).1 ≡ none → 0 < fill_max cap (fill_begin cap p).0)
    fill_begin_lem = fill_begin-answers cap Reach-Inv.places

    -- If the writer publishes and goes between the reader's loads of `tail` and of `closed`, the
    -- reader answers 0, the end of the file, with the bytes just published unread. Here the pipe was
    -- open, and its copy of the tail made it look empty to the reader.
    pub drain_answer-misses :
        (bytes : List ℕ)
        → distance cap p.head p.reader_tail ≡ 0
        → p.closed ≡ false
        → 0 < length bytes
        → length bytes ≤ fill_max cap p
        → let p' = close (fill_round cap bytes p) in
          (drain_answer cap p' ≡ some (ready 0))
          × (p'.sent ≡ p'.received ++ unread cap p')
          × (p'.sent ≡ p.received ++ (unread cap p ++ bytes))
    unfolding close fill_round read_into prepare publish drain_answer
    drain_answer-misses bytes empty_e unclosed some_bytes h =
        let go_on : ((length bytes == 0) || p.closed) ≡ false = ground arith in
        rw go_on (
          rw empty_e,
          published-content cap bytes Reach-Inv h,
          ap (λ l. l ++ bytes) Reach-Inv.content ∙ append_assoc p.received (unread cap p) bytes,
        )
