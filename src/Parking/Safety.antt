-- ===== src/Parking/Safety.antt =====
-- cynthia/src/platform/parking/parking.rs: no notification is lost.
use cynthia.Base.{
  ℕ, ◌<◌, ◌≡◌, ◌≢◌, ◌⊎◌, inl, inr, refl, Bool, true, ◌||◌, not, ltb, ◌==◌, none, some, some_kept,
  Bool-cases, arith,
}
use cynthia.Base.Machine.{Reach, Reach-Keeps}
use cynthia.Parking.{
  Parker, Phase, outside, entering, locked, parked, waiting, woken, Action, begins, locks,
  exchanges, waits, wakes, returns, unparks, notifies, new, can, act, machine, notified_state,
  park_begin, park_locked, begin_wait, park_woken, unpark, notify_one,
}

-- The word, by where the thread stands.
abbrev allowed : Phase → ℕ → Bool
allowed outside s = s == 0 || s == 2
allowed entering s = s == 0 || s == 2
allowed locked s = s == 0 || s == 2
allowed parked s = s == 1 || s == 2
allowed waiting s = s == 1 || s == 2
allowed woken s = s == 1 || s == 2

-- A notification that a wait has not seen is under way.
abbrev safe : Phase → ℕ → Bool → ℕ → Bool
safe parked s signalled n = not (s == 2) || ltb 0 n
safe waiting s signalled n = not (s == 2) || signalled || ltb 0 n
safe _ s signalled n = true

record Inv (x : Parker) : Type 0 where
  word : allowed x.phase x.state ≡ true
  told : safe x.phase x.state x.signalled x.notifying ≡ true

act-Inv : (a : Action) (x x' : Parker) → Inv x → can a x ≡ true → act a x ≡ some x' → Inv x'
unfolding can act park_begin park_locked begin_wait park_woken unpark notify_one
act-Inv (begins timed at_once) x x' v h e =
    some_kept Inv _ e
      (record { word = ground (arith, v.word, h); told = ground (arith, v.told, v.word, h) })
act-Inv locks x x' v h e =
    some_kept Inv _ e (record { word = ground (arith, v.word, h); told = refl })
act-Inv exchanges x x' v h e = record {
  word = ground (arith, v.word, h, e);
  told = ground (arith, v.told, v.word, h, e);
}
act-Inv waits x x' v h e =
    some_kept Inv _ e
      (record { word = ground (arith, v.word, h); told = ground (arith, v.told, h) })
act-Inv wakes x x' v h e =
    some_kept Inv _ e (record { word = ground (arith, v.word, h); told = refl })
act-Inv returns x x' v h e = record {
  word = ground (arith, v.word, h, e);
  told = ground (arith, v.told, v.word, h, e);
}
act-Inv unparks x x' v h e = record {
  word = ground (arith, v.word, h, e);
  told = ground (arith, v.told, v.word, h, e);
}
act-Inv notifies x x' v h e =
    some_kept Inv _ e (record { word = v.word; told = ground (arith, v.told, h) })

new-Inv : Inv new
unfolding new
new-Inv = record { word = refl; told = refl }

Reach-Inv : {x : Parker} → Reach machine x → Inv x
Reach-Inv = Reach-Keeps machine Inv (record { at_first = new-Inv; at_step = act-Inv })

act-total : (a : Action) (x : Parker) → Inv x → can a x ≡ true → act a x ≢ none
unfolding can act park_locked park_woken unpark
act-total (begins timed at_once) x v h e = cc e
act-total locks x v h e = cc e
act-total exchanges x v h e = ground (arith, v.word, h, e)
act-total waits x v h e = cc e
act-total wakes x v h e = cc e
act-total returns x v h e = ground (arith, v.word, h, e)
act-total unparks x v h e = ground (arith, v.word, e)
act-total notifies x v h e = cc e

-- In no reachable state a step of `park` or `unpark` panics over an inconsistent state.
pub never_panics : {x : Parker} → Reach machine x → (a : Action) → can a x ≡ true → act a x ≢ none
never_panics {x} r a h = act-total a x (Reach-Inv r) h

-- No notification is lost: if the thread waits although the word says that it was notified, the
-- condition variable was notified since the wait began, or an unparker is about to.
pub no_lost_unpark :
    {x : Parker}
    → Reach machine x
    → x.phase ≡ waiting
    → x.state ≡ notified_state
    → (x.signalled ≡ true) ⊎ (0 < x.notifying)
no_lost_unpark {x} r asleep told = lost x (Reach-Inv r) asleep told
  where
    lost :
        (x : Parker)
        → Inv x
        → x.phase ≡ waiting
        → x.state ≡ notified_state
        → (x.signalled ≡ true) ⊎ (0 < x.notifying)
    lost x v asleep told = elim (Bool-cases x.signalled) [
      | inl yes_ ↦ inl yes_
      | inr none_yet ↦ inr (ground (arith, v.told, asleep, told, none_yet))
    ]
