-- ===== src/Future/Tests.antt =====
-- Futures that count down.
use cynthia.Base.{ℕ, zero, suc, ◌≡◌, refl, Bool, true, false, Option, none, some}
use cynthia.Future.{
  Polled, panicked, pending, ready, Takes, now, later, zip, Result, ok, err, run_race, zip_poll,
  try_zip_poll, ready_poll, yield_poll, poll_once,
}
use cynthia.Future.Pairs.{zip-Takes, race-Takes, race}
use cynthia.Future.Tries.{try_zip-second_fails}

-- Pending as often as the number says; it panics if it is polled after that.
unfoldable countdown : {A : Type 0} → A → Option ℕ → Polled (Option ℕ) A
countdown a none = panicked
countdown a (some zero) = ready a none
countdown a (some (suc n)) = pending (some n)

after_two : {A : Type 0} (a : A) → Takes (countdown a) (some 2) 2 a
unfolding countdown
after_two a = later refl (later refl (now refl))

after_one : {A : Type 0} (a : A) → Takes (countdown a) (some 1) 1 a
unfolding countdown
after_one a = later refl (now refl)

abbrev seven : ℕ
seven = 7

abbrev eight : ℕ
eight = 8

zip-Takes_example :
    Takes (zip_poll (countdown seven) (countdown eight)) (zip (some 2) (some 1)) 2 (seven, eight)
zip-Takes_example =
    zip-Takes (countdown seven) (countdown eight) (after_two seven) (after_one eight)

race-Takes_example :
    Takes (run_race (countdown seven) (countdown eight)) (race (λ _. false) (some 1) (some 1)) 1 8
race-Takes_example =
    race-Takes (countdown seven) (countdown eight) (λ _. false) (after_one seven) (after_one eight)

abbrev good : ℕ → Result ℕ Bool
good n = ok n

abbrev bad : Result ℕ Bool
bad = err true

try_zip-second_fails_example :
    Takes (try_zip_poll (countdown (good 7)) (countdown bad)) (zip (some 2) (some 1)) 1 (err true)
try_zip-second_fails_example =
    try_zip-second_fails (countdown (good 7)) (countdown bad) (after_two (good 7)) (after_one bad)

-- `yield_now` answers Pending once, and wakes the task once.
yields : Takes yield_poll (record { yielded = false; wakes = 0 }) 1 1
unfolding yield_poll
yields = later refl (now refl)

-- `ready` is ready at once, and panics if it is polled again.
ready_once : (ready_poll {A = ℕ} (some 3) ≡ ready 3 none) × (ready_poll {A = ℕ} none ≡ panicked)
unfolding ready_poll
ready_once = (refl, refl)

polls_once :
    (poll_once {S = ℕ} {A = ℕ} (pending 1) ≡ ready none 1)
    × (poll_once {S = ℕ} {A = ℕ} (ready 3 1) ≡ ready (some 3) 1)
unfolding poll_once
polls_once = (refl, refl)
