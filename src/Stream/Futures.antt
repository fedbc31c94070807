-- ===== src/Stream/Futures.antt =====
-- cynthia/src/future/stream.rs: the futures over a stream, each by what it does with an item and
-- what it returns at the end.
pub mod Await
pub mod Results
use cynthia.Base.{
  ℕ, zero, suc, ◌+◌, ◌-◌, ◌==◌, Bool, true, false, if◌then◌else◌, Option, none, some, List, [], ◌∷◌,
  ◌++◌,
}
use cynthia.Stream.{Poll, pending, ready, Stream}
use cynthia.Stream.Loop.{Turn, go, return, With}

-- A future: what a round of its loop does, and what it returns when the stream ends.
pub record Future {ℓ} (A St R : Type ℓ) : Type ℓ where
  pub round : St → A → Turn St R
  pub at_end : St → R

module _ {ℓ} {X A St R : Type ℓ} (s : Stream X A) (f : Future A St R) where
  abbrev pub after_turn : St → Turn St R → X → (With St X → Poll R × With St X) → Poll R × With St X
  after_turn old (go st) x again = again (record { state = st; stream = x })
  after_turn old (return r) x again = (ready r, record { state = old; stream = x })

  abbrev pub after_poll :
      St → Poll (Option A) × X → (With St X → Poll R × With St X) → Poll R × With St X
  after_poll st (pending, x) again = (pending, record { state = st; stream = x })
  after_poll st (ready none, x) again = (ready (f.at_end st), record { state = st; stream = x })
  after_poll st (ready (some a), x) again = after_turn st (f.round st a) x again

  -- `n` bounds the rounds; `poll` takes one more than polls are left.
  unfoldable pub future_loop : ℕ → With St X → Poll R × With St X
  future_loop zero w = (pending, w)
  future_loop (suc n) w = after_poll w.state (s.poll_next w.stream) (λ w'. future_loop n w')

  unfoldable pub poll : With St X → Poll R × With St X
  unfolding future_loop
  poll w = future_loop (suc (s.left w.stream)) w

  abbrev pub wait : Poll R × With St X → (With St X → Option R) → Option R
  wait (pending, w) again = again w
  wait (ready r, w) again = some r

  -- Polls until it is ready, `n` times at most.
  unfoldable pub await_polls : ℕ → With St X → Option R
  unfolding poll
  await_polls zero w = none
  await_polls (suc n) w = wait (poll w) (λ w'. await_polls n w')

abbrev pub find_map_turn {ℓ} : {B : Type ℓ} → Unit {ℓ} → Option B → Turn (Unit {ℓ}) (Option B)
find_map_turn u none = go u
find_map_turn u (some b) = return (some b)

module _ {ℓ} {A : Type ℓ} where
  -- `FoldFuture`; the accumulator is there between rounds.
  unfoldable pub fold : {B : Type ℓ} → (B → A → B) → Future A B B
  fold f = record { round = λ acc a. go (f acc a); at_end = λ acc. acc }

  -- `CollectFuture` into a vector; `UnzipFuture` collects two of them.
  unfoldable pub collect : Future A (List A) (List A)
  collect = record { round = λ c a. go (c ++ a ∷ []); at_end = λ c. c }

  unfoldable pub partition : (A → Bool) → Future A (List A × List A) (List A × List A)
  partition predicate = record {
    round = λ r a. if predicate a then go (r.0 ++ a ∷ [], r.1) else go (r.0, r.1 ++ a ∷ []);
    at_end = λ r. r;
  }

  unfoldable pub last : Future A (Option A) (Option A)
  last = record { round = λ l a. go (some a); at_end = λ l. l }

  unfoldable pub find : (A → Bool) → Future A (Unit {ℓ}) (Option A)
  find predicate = record {
    round = λ u a. if predicate a then return (some a) else go u;
    at_end = λ u. none;
  }

  unfoldable pub find_map : {B : Type ℓ} → (A → Option B) → Future A (Unit {ℓ}) (Option B)
  find_map f = record { round = λ u a. find_map_turn u (f a); at_end = λ u. none }

-- The futures that count or answer yes or no.
module _ {A : Type 0} where
  -- `count` is a usize in the code: the same for less than 2 ^ 64 items.
  unfoldable pub count : Future A ℕ ℕ
  count = record { round = λ n a. go (n + 1); at_end = λ n. n }

  unfoldable pub nth : Future A ℕ (Option A)
  nth = record { round = λ n a. if n == 0 then return (some a) else go (n - 1); at_end = λ n. none }

  unfoldable pub position : (A → Bool) → Future A ℕ (Option ℕ)
  position predicate = record {
    round = λ index a. if predicate a then return (some index) else go (index + 1);
    at_end = λ index. none;
  }

  unfoldable pub all : (A → Bool) → Future A (Unit {0}) Bool
  all predicate = record {
    round = λ u a. if predicate a then go u else return false;
    at_end = λ u. true;
  }

  unfoldable pub any : (A → Bool) → Future A (Unit {0}) Bool
  any predicate = record {
    round = λ u a. if predicate a then return true else go u;
    at_end = λ u. false;
  }
