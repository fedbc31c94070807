-- ===== src/Channel/Side.antt =====
-- cynthia/src/platform/channel/channel.rs: the tasks inside `send`, or inside `recv`, and the event
-- they listen to. The two loops have the same shape.
use cynthia.Base.{
  ℕ, Bool, true, false, ◌||◌, if◌then◌else◌, ltb, ◌==◌, Option, none, some, List, map, get_elem?,
  set, tally,
}

-- The variable `listener` of the loop.
pub data Listener : Type 0 where
  absent quiet told : Listener

-- Before `try_send` or `try_recv`; after it failed; in the wait; after it succeeded, before it
-- notifies the other side; before `notify` of its own side; about to drop the listener and return.
pub data Phase : Type 0 where
  trying failing waiting taking passing leaving : Listener → Phase
  gone : Phase

pub record Task : Type 0 where
  pub phase : Phase
  pub msg : ℕ

pub data Outcome : Type 0 where
  succeeded blocked shut : Outcome

unfoldable pub after_try : Outcome → Phase → Phase
after_try succeeded (trying l) = taking l
after_try blocked (trying l) = failing l
after_try shut (trying l) = leaving l
after_try _ p = p

-- `match listener.take()`, and the wait.
unfoldable pub listen : Phase → Phase
listen (failing absent) = trying quiet
listen (failing quiet) = waiting quiet
listen (failing told) = waiting told
listen p = p

unfoldable pub wake : Phase → Phase
wake (waiting told) = trying absent
wake p = p

unfoldable pub after_tell : Phase → Phase
after_tell (taking l) = passing l
after_tell p = p

unfoldable pub after_pass : Phase → Phase
after_pass (passing l) = leaving l
after_pass p = p

unfoldable pub after_cancel : Phase → Phase
after_cancel (waiting l) = leaving l
after_cancel p = p

unfoldable pub after_leave : Phase → Phase
after_leave (leaving l) = gone
after_leave p = p

unfoldable pub changed : (Phase → Phase) → ℕ → List Task → Option Task → List Task
changed f i ts none = ts
changed f i ts (some t) = set ts i (record t { phase = f t.phase })

-- The task `i` takes a step.
unfoldable pub modify : (Phase → Phase) → ℕ → List Task → List Task
modify f i ts = changed f i ts (get_elem? ts i)

abbrev pub listener : Phase → Listener
listener (trying l) = l
listener (failing l) = l
listener (waiting l) = l
listener (taking l) = l
listener (passing l) = l
listener (leaving l) = l
listener gone = absent

-- A notification sent to a listener.
unfoldable pub tell : Phase → Phase
tell (trying quiet) = trying told
tell (failing quiet) = failing told
tell (waiting quiet) = waiting told
tell (taking quiet) = taking told
tell (passing quiet) = passing told
tell (leaving quiet) = leaving told
tell p = p

abbrev pub one_told : Listener → ℕ
one_told told = 1
one_told _ = 0

abbrev pub one_quiet : Listener → ℕ
one_quiet quiet = 1
one_quiet _ = 0

abbrev pub told_weight : Phase → ℕ
told_weight p = one_told (listener p)

abbrev pub quiet_weight : Phase → ℕ
quiet_weight p = one_quiet (listener p)

abbrev pub count : (Phase → ℕ) → List Task → ℕ
count w ts = tally (λ t. w t.phase) ts

-- `notify(1)`, which reaches the listener `j` if it reaches one.
unfoldable pub notify_one : ℕ → List Task → List Task
notify_one j ts = if ltb 0 (count told_weight ts) then ts else modify tell j ts

abbrev pub is_quiet : Option Task → Bool
is_quiet none = false
is_quiet (some t) = ltb 0 (quiet_weight t.phase)

-- The listener that is reached is one that was not notified, if there is any.
unfoldable pub can_notify : ℕ → List Task → Bool
can_notify j ts = count quiet_weight ts == 0 || is_quiet (get_elem? ts j)

abbrev pub notified : Task → Task
notified t = record t { phase = tell t.phase }

-- `notify(usize::MAX)`.
unfoldable pub notify_all : List Task → List Task
notify_all ts = map notified ts

abbrev pub is_trying : Phase → Bool
is_trying (trying l) = true
is_trying _ = false

abbrev pub phase_taking : Phase → Bool
phase_taking (taking l) = true
phase_taking _ = false

abbrev pub phase_passing : Phase → Bool
phase_passing (passing l) = true
phase_passing _ = false

abbrev pub leaving_told : Phase → Bool
leaving_told (leaving told) = true
leaving_told _ = false

abbrev pub test_at : (Phase → Bool) → Option Task → Bool
test_at f none = false
test_at f (some t) = f t.phase

abbrev pub is_taking : ℕ → List Task → Bool
is_taking i ts = test_at phase_taking (get_elem? ts i)

abbrev pub is_passing : ℕ → List Task → Bool
is_passing i ts = test_at phase_passing (get_elem? ts i)

abbrev pub was_told : ℕ → List Task → Bool
was_told i ts = test_at leaving_told (get_elem? ts i)
