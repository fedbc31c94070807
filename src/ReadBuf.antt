-- ===== src/ReadBuf.antt =====
-- cynthia/src/utils/read_buf.rs: a buffer that is filled step by step, over memory that need not be
-- initialized. A byte of such memory is an `Option`; `none` as a result is a panic.
pub mod Safety
mod Tests
use cynthia.Base.{
  ℕ, ◌+◌, ◌-◌, ◌^◌, ◌≤◌, Bool, true, false, ◌&&◌, if◌then◌else◌, ltb, leb, min, Option, none, some,
  List, [], ◌∷◌, length, map,
}
use mathlib.Core.Option
use cynthia.Base.Memory.{slice, write_bytes}
use cynthia.Base.Machine.{Machine}

pub record ReadBuf : Type 0 where
  pub buf : ℕ → Option ℕ
  pub capacity : ℕ
  pub filled_until : ℕ
  pub initialized_until : ℕ

-- `new` takes bytes, `uninit` memory with whatever it holds.
unfoldable pub new : (ℕ → ℕ) → ℕ → ReadBuf
new bytes n = record {
  buf = λ i. some (bytes i);
  capacity = n;
  filled_until = 0;
  initialized_until = n;
}

unfoldable pub uninit : (ℕ → Option ℕ) → ℕ → ReadBuf
uninit memory n = record { buf = memory; capacity = n; filled_until = 0; initialized_until = 0 }

unfoldable pub remaining : ReadBuf → ℕ
remaining b = b.capacity - b.filled_until

unfoldable pub filled : ReadBuf → List (Option ℕ)
filled b = slice b.buf 0 b.filled_until

unfoldable pub initialized : ReadBuf → List (Option ℕ)
initialized b = slice b.buf 0 b.initialized_until

-- A buffer over the first bytes that are not filled, all of them taken as uninitialized.
unfoldable pub take : ℕ → ReadBuf → ReadBuf
unfolding uninit remaining
take n b = uninit (λ i. b.buf (b.filled_until + i)) (min (remaining b) n)

unfoldable pub initialize_unfilled_to : ℕ → ReadBuf → Option ReadBuf
unfolding remaining
initialize_unfilled_to n b =
    let end = b.filled_until + n in
    if ltb (remaining b) n
    then none
    else if ltb b.initialized_until end
    then some (record b {
      buf = λ i. if leb b.initialized_until i && ltb i end then some 0 else b.buf i;
      initialized_until = end;
    })
    else some b

unfoldable pub initialize_unfilled : ReadBuf → Option ReadBuf
unfolding initialize_unfilled_to remaining
initialize_unfilled b = initialize_unfilled_to (remaining b) b

unfoldable pub clear : ReadBuf → ReadBuf
clear b = record b { filled_until = 0 }

unfoldable pub set_filled : ℕ → ReadBuf → Option ReadBuf
set_filled n b = if leb n b.initialized_until then some (record b { filled_until = n }) else none

-- The sum is checked.
unfoldable pub advance : ℕ → ReadBuf → Option ReadBuf
unfolding set_filled
advance n b = if ltb (b.filled_until + n) (2 ^ 64) then set_filled (b.filled_until + n) b else none

-- What `put_slice` does once the bytes are known to fit.
unfoldable pub put : List ℕ → ReadBuf → ReadBuf
put bytes b =
    let end = b.filled_until + length bytes in
    record b {
      buf = write_bytes b.filled_until (map some bytes) b.buf;
      initialized_until = if ltb b.initialized_until end then end else b.initialized_until;
      filled_until = end;
    }

unfoldable pub put_slice : List ℕ → ReadBuf → Option ReadBuf
unfolding remaining put
put_slice bytes b = if ltb (remaining b) (length bytes) then none else some (put bytes b)

pub data Action : Type 0 where
  initializes sets advances : ℕ → Action
  initializes_all clears : Action
  puts : List ℕ → Action

-- Every safe operation may be called at any time.
unfoldable pub act : Action → ReadBuf → Option ReadBuf
act (initializes n) b = initialize_unfilled_to n b
act initializes_all b = initialize_unfilled b
act (sets n) b = set_filled n b
act (advances n) b = advance n b
act clears b = some (clear b)
act (puts bytes) b = put_slice bytes b

abbrev pub machine : ReadBuf → Machine
machine b = record { State = ReadBuf; Action = Action; first = b; can = λ a c. true; act = act }
