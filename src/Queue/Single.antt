-- ===== src/Queue/Single.antt =====
-- cynthia/src/platform/queue/single.rs: the queue of one slot, and any number of threads that push
-- and pop. Values are only moved, so a value is any number.
pub mod Stage
pub mod Safety
pub mod Alone
pub mod Refine
use cynthia.Base.{
  ℕ, zero, suc, ◌+◌, ◌-◌, Bool, true, false, ◌&&◌, not, if◌then◌else◌, ltb, Option, none, some,
  List, [], ◌∷◌, ◌++◌, length,
}
use cynthia.Base.Machine.{Machine}
use cynthia.Queue.{PushError, PopError, full, closed, empty}

-- The state word: its bits LOCKED, PUSHED and CLOSED.
pub record Word : Type 0 where
  pub is_locked : Bool
  pub is_pushed : Bool
  pub is_closed : Bool

abbrev pub word : Bool → Bool → Bool → Word
word l p c = record { is_locked = l; is_pushed = p; is_closed = c }

abbrev same_bit : Bool → Bool → Bool
same_bit true b = b
same_bit false b = not b

abbrev pub same_word : Word → Word → Bool
same_word a b =
    same_bit a.is_locked b.is_locked
    && same_bit a.is_pushed b.is_pushed
    && same_bit a.is_closed b.is_closed

-- The exchange of `push`, and what it answers: the new word, or an error.
pub data PushTry : Type 0 where
  stores : Word → PushTry
  refused : PushError ℕ → PushTry

unfoldable pub push_try : ℕ → Word → PushTry
push_try v w =
    if same_word w (word false false false)
    then stores (word true true false)
    else (if w.is_closed then refused (closed v) else refused (full v))

-- One round of the loop of `pop`, whose variable is `state`: the new word, an error, or the variable of
-- the next round.
pub data PopTry : Type 0 where
  takes : Word → PopTry
  fails : PopError → PopTry
  again : Word → PopTry

unfoldable pub pop_try : Word → Word → PopTry
pop_try state prev =
    if same_word prev state
    then takes (record state { is_locked = true; is_pushed = false })
    else (if not prev.is_pushed
        then fails (if not prev.is_closed then empty else closed)
        else (if not prev.is_locked then again prev else again (record prev { is_locked = false })))

-- `fetch_and(!LOCKED)`, `fetch_or(CLOSED)`, and the answer of `close`.
abbrev pub unlock : Word → Word
unlock w = record w { is_locked = false }

unfoldable pub close : Word → Bool × Word
close w = (not w.is_closed, record w { is_closed = true })

unfoldable pub len : Word → ℕ
len w = if not w.is_pushed then 0 else 1

-- A slot that is `none` is not initialised. `writers` are the values of the pushers that have made the
-- exchange and not yet written; `written` counts those that have yet to unlock. `readers` and `left`
-- count the poppers likewise. `accepted` and `taken` are the values pushed and read so far.
pub record Single : Type 0 where
  pub state : Word
  pub slot : Option ℕ
  pub writers : List ℕ
  pub written : ℕ
  pub readers : ℕ
  pub left : ℕ
  pub accepted : List ℕ
  pub taken : List ℕ

unfoldable pub new : Single
new = record {
  state = word false false false;
  slot = none;
  writers = [];
  written = 0;
  readers = 0;
  left = 0;
  accepted = [];
  taken = [];
}

-- The exchange of a push of `v`.
unfoldable pub after_push : ℕ → PushTry → Single → Single
after_push v (stores w) x = record x {
  state = w;
  writers = v ∷ x.writers;
  accepted = x.accepted ++ v ∷ [];
}
after_push v (refused e) x = x

unfoldable pub begin_push : ℕ → Single → Single
begin_push v x = after_push v (push_try v x.state) x

unfoldable pub write_slot : Single → Single
write_slot x = elim x.writers [
  | [] ↦ x
  | v ∷ rest ↦ record x { slot = some v; writers = rest; written = x.written + 1 }
]

unfoldable pub end_push : Single → Single
end_push x = record x { state = unlock x.state; written = x.written - 1 }

-- A round of a pop whose variable is `state`.
unfoldable pub after_pop : PopTry → Single → Single
after_pop (takes w) x = record x { state = w; readers = x.readers + 1 }
after_pop (fails e) x = x
after_pop (again w) x = x

unfoldable pub begin_pop : Word → Single → Single
begin_pop state x = after_pop (pop_try state x.state) x

-- The read moves the value out; `none` is a read of a slot that is not initialised.
unfoldable pub read_slot : Single → Option Single
read_slot x = elim x.slot [
  | none ↦ none
  | some v ↦ some (record x {
    slot = none;
    readers = x.readers - 1;
    left = x.left + 1;
    taken = x.taken ++ v ∷ [];
  })
]

unfoldable pub end_pop : Single → Single
end_pop x = record x { state = unlock x.state; left = x.left - 1 }

-- `Drop`: whether it drops a value; `none` as for `read_slot`.
unfoldable pub drop_slot : Single → Option (Option ℕ)
drop_slot x =
    if x.state.is_pushed then elim x.slot [ none ↦ none | some v ↦ some (some v) ] else some none

-- The variable of a pop is always pushed and not locked (`Alone.keeps_form`); `pops` says whether it is
-- closed.
pub data Action : Type 0 where
  pushes : ℕ → Action
  writes ends_push : Action
  pops : Bool → Action
  reads ends_pop closes : Action

unfoldable pub can : Action → Single → Bool
can (pushes v) x = true
can writes x = ltb 0 (length x.writers)
can ends_push x = ltb 0 x.written
can (pops c) x = true
can reads x = ltb 0 x.readers
can ends_pop x = ltb 0 x.left
can closes x = true

unfoldable pub act : Action → Single → Option Single
act (pushes v) x = some (begin_push v x)
act writes x = some (write_slot x)
act ends_push x = some (end_push x)
act (pops c) x = some (begin_pop (word false true c) x)
act reads x = read_slot x
act ends_pop x = some (end_pop x)
act closes x = let (first, w) = close x.state in some (record x { state = w })

abbrev pub machine : Machine
machine = record { State = Single; Action = Action; first = new; can = can; act = act }
