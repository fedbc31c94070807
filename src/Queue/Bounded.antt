-- ===== src/Queue/Bounded.antt =====
-- cynthia/src/platform/queue/bounded.rs: the queue of fixed capacity, and any number of threads that
-- push and pop. The masks of the code are written as / and % by powers of two: `mark_bit` is the
-- parameter `mark`, and `one_lap` its double. Values are only moved, so a value is any number. A round of a
-- loop, with its loads and its exchange, is one step, and so is the work on the slot after it. In the code
-- the loads of a round come one after another, and an exchange can fail: Loads is about such rounds.
pub mod Position
pub mod Inv
pub mod Rounds
pub mod Finds
pub mod Claims
pub mod Keeps
pub mod Growth
pub mod Safety
pub mod Later
pub mod Onward
pub mod Ends
pub mod Loads
pub mod Words
pub mod Length
pub mod Refine
mod Tests
use cynthia.Base.{
  ℕ, zero, suc, ◌+◌, ◌-◌, ◌*◌, ◌/◌, ◌%◌, Bool, true, false, if◌then◌else◌, ltb, ◌==◌, Option, none,
  some, List, [], ◌∷◌, ◌++◌,
}
use cynthia.Base.Word.{wrapping_add}
use cynthia.Base.Machine.{Machine}

-- Who is between its exchange and its store to the stamp: a push with its value and its variable
-- `tail`, or a pop with its variable `head`.
pub data Owner : Type 0 where
  nobody : Owner
  writer : ℕ → ℕ → Owner
  reader : ℕ → Owner

-- A value that is `none` is not initialised.
pub record Slot : Type 0 where
  pub stamp : ℕ
  pub value : Option ℕ
  pub owner : Owner

-- `accepted` are the values pushed, in the order of the exchanges, and `pops` counts the exchanges of
-- pops.
pub record Bounded : Type 0 where
  pub head : ℕ
  pub tail : ℕ
  pub buffer : ℕ → Slot
  pub accepted : List ℕ
  pub pops : ℕ

unfoldable pub new : Bounded
new = record {
  head = 0;
  tail = 0;
  buffer = λ i. record { stamp = i; value = none; owner = nobody };
  accepted = [];
  pops = 0;
}

pub data PushRound : Type 0 where
  push_claims push_closed push_full push_retries : PushRound

pub data PopRound : Type 0 where
  pop_claims pop_closed pop_empty pop_retries : PopRound

pub data Action : Type 0 where
  pushes : ℕ → Action
  pops closes : Action
  writes reads : ℕ → Action

abbrev pub set_slot : ℕ → Slot → (ℕ → Slot) → ℕ → Slot
set_slot j s buffer i = if i == j then s else buffer i

abbrev pub has_writer : Owner → Bool
has_writer (writer v p) = true
has_writer _ = false

abbrev pub has_reader : Owner → Bool
has_reader (reader p) = true
has_reader _ = false

module _ (cap mark : ℕ) where
  abbrev pub one_lap : ℕ
  one_lap = mark * 2

  -- `p & (mark_bit - 1)`, `p & !(one_lap - 1)`, `p & mark_bit != 0` and `p & !mark_bit`.
  unfoldable pub index_of : ℕ → ℕ
  index_of p = p % mark

  unfoldable pub lap_of : ℕ → ℕ
  lap_of p = p / one_lap * one_lap

  unfoldable pub is_marked : ℕ → Bool
  is_marked p = p / mark % 2 == 1

  unfoldable pub unmarked : ℕ → ℕ
  unmarked p = if is_marked p then p - mark else p

  -- The next value of `head` and of `tail`.
  unfoldable pub advance : ℕ → ℕ
  advance p = if ltb (index_of p + 1) cap then p + 1 else wrapping_add (lap_of p) one_lap

  -- A round of the loop of `push`, by the `head`, the `tail` and the stamp of the slot that it loads,
  -- each at its own moment, and one of `pop`. One that claims makes its exchange next; if that fails, as
  -- it may at any time, the round changes nothing and the loop goes round, as in `push_retries`.
  unfoldable pub push_round : ℕ → ℕ → ℕ → PushRound
  push_round head tail stamp =
      if is_marked tail
      then push_closed
      else (if tail == stamp
          then push_claims
          else (if wrapping_add stamp one_lap == tail + 1
              then (if wrapping_add head one_lap == tail then push_full else push_retries)
              else push_retries))

  unfoldable pub pop_round : ℕ → ℕ → ℕ → PopRound
  pop_round head tail stamp =
      if head + 1 == stamp
      then pop_claims
      else (if stamp == head
          then (if unmarked tail == head
              then (if is_marked tail then pop_closed else pop_empty)
              else pop_retries)
          else pop_retries)

  -- After the exchange of a push of `v`: `none` is a slot that another thread is using.
  unfoldable pub claim_push : ℕ → Bounded → Owner → Option Bounded
  claim_push v x nobody = some (record x {
    tail = advance x.tail;
    buffer =
        set_slot (index_of x.tail) (record (x.buffer (index_of x.tail)) { owner = writer v x.tail })
          x.buffer;
    accepted = x.accepted ++ v ∷ [];
  })
  claim_push v x _ = none

  unfoldable pub after_push : ℕ → Bounded → PushRound → Option Bounded
  after_push v x push_claims = claim_push v x (x.buffer (index_of x.tail)).owner
  after_push v x _ = some x

  unfoldable pub push_at : Bounded → PushRound
  push_at x = push_round x.head x.tail (x.buffer (index_of x.tail)).stamp

  unfoldable pub claim_pop : Bounded → Owner → Option Bounded
  claim_pop x nobody = some (record x {
    head = advance x.head;
    buffer =
        set_slot (index_of x.head) (record (x.buffer (index_of x.head)) { owner = reader x.head })
          x.buffer;
    pops = x.pops + 1;
  })
  claim_pop x _ = none

  unfoldable pub after_pop : Bounded → PopRound → Option Bounded
  after_pop x pop_claims = claim_pop x (x.buffer (index_of x.head)).owner
  after_pop x _ = some x

  unfoldable pub pop_at : Bounded → PopRound
  pop_at x = pop_round x.head x.tail (x.buffer (index_of x.head)).stamp

  -- The write of the value, and the store to the stamp.
  unfoldable pub finish_push : ℕ → Bounded → Owner → Option Bounded
  finish_push j x (writer v p) = some (record x {
    buffer = set_slot j (record { stamp = p + 1; value = some v; owner = nobody }) x.buffer;
  })
  finish_push j x _ = none

  -- The read of the value, which moves it out, and the store to the stamp; `none` is a read of a value
  -- that is not initialised.
  unfoldable pub read_value : ℕ → ℕ → Bounded → Option ℕ → Option Bounded
  read_value j p x none = none
  read_value j p x (some v) = some (record x {
    buffer =
        set_slot j (record { stamp = wrapping_add p one_lap; value = none; owner = nobody })
          x.buffer;
  })

  unfoldable pub finish_pop : ℕ → Bounded → Owner → Option Bounded
  finish_pop j x (reader p) = read_value j p x (x.buffer j).value
  finish_pop j x _ = none

  unfoldable pub close : Bounded → Bounded
  close x = if is_marked x.tail then x else record x { tail = x.tail + mark }

  -- `len`, if `tail` does not change between its two loads.
  unfoldable pub len : Bounded → ℕ
  len x =
      let hix = index_of x.head in
      let tix = index_of x.tail in
      if ltb hix tix
      then tix - hix
      else (if ltb tix hix then cap - hix + tix else (if unmarked x.tail == x.head then 0 else cap))

  -- The index that the destructor drops in its round `i`, of `len` rounds.
  unfoldable pub drop_index : Bounded → ℕ → ℕ
  drop_index x i =
      if ltb (index_of x.head + i) cap then index_of x.head + i else index_of x.head + i - cap

  unfoldable pub is_empty : Bounded → Bool
  is_empty x = unmarked x.tail == x.head

  unfoldable pub is_full : Bounded → Bool
  is_full x = wrapping_add x.head one_lap == unmarked x.tail

  unfoldable pub can : Action → Bounded → Bool
  can (pushes v) x = true
  can pops x = true
  can closes x = true
  can (writes j) x = if ltb j cap then has_writer (x.buffer j).owner else false
  can (reads j) x = if ltb j cap then has_reader (x.buffer j).owner else false

  unfoldable pub act : Action → Bounded → Option Bounded
  act (pushes v) x = after_push v x (push_at x)
  act pops x = after_pop x (pop_at x)
  act closes x = some (close x)
  act (writes j) x = finish_push j x (x.buffer j).owner
  act (reads j) x = finish_pop j x (x.buffer j).owner

  abbrev pub machine : Machine
  machine = record { State = Bounded; Action = Action; first = new; can = can; act = act }
