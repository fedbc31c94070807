-- ===== src/Stream/Tests.antt =====
-- Streams that give a list of answers, and then end.
use cynthia.Base.{
  ℕ, ◌+◌, ◌<◌, ◌≡◌, ◌≢◌, refl, ap, Bool, true, false, ltb, Option, none, some, List, [], ◌∷◌,
  length, arith,
}
use mathlib.Core.List.{zip, zip_with}
use cynthia.Stream.{Poll, pending, ready, Stream, items, run}
use cynthia.Stream.Pairs.{Fused, race_poll}
use cynthia.Stream.Pairs.Chain.{chained, items-chained}
use cynthia.Stream.Pairs.Zip.{zipped, items-zipped}
use cynthia.Stream.Pairs.Race.{race-never_ends}
use cynthia.Stream.Futures.{await_polls, fold, collect, last, count}
use cynthia.Stream.Futures.Results.{whole_stream}

abbrev next : List (Poll ℕ) → Poll (Option ℕ) × List (Poll ℕ)
next [] = (ready none, [])
next (pending ∷ l) = (pending, l)
next (ready a ∷ l) = (ready (some a), l)

pending_moves : (x x' : List (Poll ℕ)) → next x ≡ (pending, x') → length x' < length x
pending_moves [] x' e = absurd (cc (ap (λ q. q.0) e))
pending_moves (pending ∷ l) x' e = let same = ap (λ q. length q.1) e in omega arith
pending_moves (ready a ∷ l) x' e = absurd (cc (ap (λ q. q.0) e))

item_moves : (x x' : List (Poll ℕ)) (a : ℕ) → next x ≡ (ready (some a), x') → length x' < length x
item_moves [] x' a e = absurd (cc (ap (λ q. q.0) e))
item_moves (pending ∷ l) x' a e = absurd (cc (ap (λ q. q.0) e))
item_moves (ready b ∷ l) x' a e = let same = ap (λ q. length q.1) e in omega arith

abbrev answers : Stream (List (Poll ℕ)) ℕ
answers = record {
  poll_next = next;
  left = length;
  pending_moves = pending_moves;
  item_moves = item_moves;
}

abbrev numbers : List (Poll ℕ)
numbers = ready 3 ∷ pending ∷ ready 10 ∷ ready 4 ∷ pending ∷ []

abbrev letters : List (Poll ℕ)
letters = pending ∷ ready 7 ∷ ready 8 ∷ []

abbrev small : ℕ → Bool
small a = ltb a 5

-- Polls that are pending change nothing: the items are 3, 10 and 4.
numbers-items : items answers numbers ≡ 3 ∷ 10 ∷ 4 ∷ []
unfolding items run
numbers-items = refl

abbrev fresh : List (Poll ℕ) → Fused (List (Poll ℕ))
fresh l = record { stream = l; done = false }

items-chained_example :
    items (chained answers answers) (record { first = fresh numbers; second = fresh letters })
    ≡ 3 ∷ 10 ∷ 4 ∷ 7 ∷ 8 ∷ []
unfolding items run
items-chained_example =
    items-chained answers answers (record { first = fresh numbers; second = fresh letters })

items-zipped_example :
    items (zipped answers answers) (record { item_slot = none; first = numbers; second = letters })
    ≡ (3, 7) ∷ (10, 8) ∷ []
unfolding items run zip zip_with
items-zipped_example =
    items-zipped answers answers (record { item_slot = none; first = numbers; second = letters })

whole_stream_example :
    (await_polls answers (fold ◌+◌) 6 (record { state = 100; stream = numbers }) ≡ some 117)
    × (await_polls answers collect 6 (record { state = []; stream = numbers })
        ≡ some (3 ∷ 10 ∷ 4 ∷ []))
    × (await_polls answers count 6 (record { state = 0; stream = numbers }) ≡ some 3)
    × (await_polls answers last 6 (record { state = none; stream = numbers }) ≡ some (some 4))
unfolding items run
whole_stream_example = whole_stream answers numbers 6 (omega arith) ◌+◌ 100

race-never_ends_example : (race_poll answers answers true ([], [])).0 ≢ ready none
race-never_ends_example = race-never_ends answers answers true [] []
