-- ===== src/Stream/Futures/Await.antt =====
-- cynthia/src/future/stream.rs: every future over a stream that ends becomes ready.
use cynthia.Base.{ℕ, zero, suc, ◌<◌, ◌≡◌, refl, sym, ap, ◌∙◌, some, List, [], ◌∷◌, arith}
use cynthia.Stream.{
  ready, Stream, Answer, Answer-cases, items, items-pending, items-end, items-item, by_polls,
}
use cynthia.Stream.Loop.{Turn, go, return, With}
use cynthia.Stream.Futures.{Future, future_loop, poll, wait, await_polls}

module _ {ℓ} {St R : Type ℓ} where
  pub data TurnCases (r : Turn St R) : Type ℓ where
    goes : (st : St) → r ≡ go st → TurnCases r
    returns : (v : R) → r ≡ return v → TurnCases r

  pub Turn-cases : (r : Turn St R) → TurnCases r
  Turn-cases (go st) = TurnCases.goes st refl
  Turn-cases (return v) = TurnCases.returns v refl

module _ {ℓ} {X A St R : Type ℓ} (s : Stream X A) (f : Future A St R) where
  abbrev pub then : Turn St R → (St → R) → R
  then (go st) rest = rest st
  then (return r) rest = r

  -- The loop over a list in place of a stream.
  unfoldable pub conclude : St → List A → R
  conclude st [] = f.at_end st
  conclude st (a ∷ l) = then (f.round st a) (λ st'. conclude st' l)

  loop-enough :
      (n m : ℕ) (w : With St X)
      → s.left w.stream < n
      → s.left w.stream < m
      → future_loop s f n w ≡ future_loop s f m w
  unfolding future_loop
  loop-enough zero m w h h' = absurd (omega arith)
  loop-enough (suc n) zero w h h' = absurd (omega arith)
  loop-enough (suc n) (suc m) w h h' = elim (Answer-cases (s.poll_next w.stream)) [
    | Answer.waits x' e ↦ rw e
    | Answer.ends x' e ↦ rw e
    | Answer.gives a x' e ↦
        let moved = s.item_moves w.stream x' a e in
        elim (Turn-cases (f.round w.state a)) [
          | TurnCases.goes st r ↦
              rw (e, r)
                (loop-enough n m (record { state = st; stream = x' }) (omega arith) (omega arith))
          | TurnCases.returns v r ↦ rw (e, r)
        ]
  ]

  abbrev at : St → X → With St X
  at st x = record { state = st; stream = x }

  -- A poll of a future that goes on with an item is the poll with the next state.
  poll-go :
      (x x' : X) (st st' : St) (a : A)
      → s.poll_next x ≡ (ready (some a), x')
      → f.round st a ≡ go st'
      → poll s f (at st x) ≡ poll s f (at st' x')
  unfolding poll
  poll-go x x' st st' a e r =
      let moved = s.item_moves x x' a e in
      rw (e, r) (loop-enough (s.left x) (suc (s.left x')) (at st' x') (omega arith) (omega arith))

  await_step :
      (x : X) (st : St) (n : ℕ)
      → ((x' : X)
          → s.left x' < s.left x
          → (st' : St) (k : ℕ) → s.left x' < k
          → await_polls s f k (at st' x') ≡ some (conclude st' (items s x')))
      → s.left x < n
      → await_polls s f n (at st x) ≡ some (conclude st (items s x))
  unfolding await_polls poll conclude future_loop
  await_step x st zero ih h = absurd (omega arith)
  await_step x st (suc n) ih h = elim (Answer-cases (s.poll_next x)) [
    | Answer.waits x' e ↦
        let moved = s.pending_moves x x' e in
        rw (items-pending s e, e) (ih x' moved st n (omega arith))
    | Answer.ends x' e ↦ rw (items-end s e, e)
    | Answer.gives a x' e ↦
        let moved = s.item_moves x x' a e in
        elim (Turn-cases (f.round st a)) [
          | TurnCases.goes st' r ↦
              ap (λ q. wait s f q (λ w. await_polls s f n w)) (poll-go x x' st st' a e r)
              ∙ ih x' moved st' (suc n) (omega arith)
              ∙ ap (λ t. some (then t (λ st'. conclude st' (items s x')))) (sym r)
              ∙ ap (λ l. some (conclude st l)) (sym (items-item s e))
          | TurnCases.returns v r ↦ rw (items-item s e, e, r)
        ]
  ]

  -- Enough polls make a future ready, with what its loop makes of the stream's items.
  pub await_polls_lem :
      (x : X) (st : St) (n : ℕ)
      → s.left x < n
      → await_polls s f n (at st x) ≡ some (conclude st (items s x))
  await_polls_lem = by_polls s (λ x ih st n. await_step x st n ih)
