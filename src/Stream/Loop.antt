-- ===== src/Stream/Loop.antt =====
-- cynthia/src/future/stream.rs: the loop that the adapters of one stream and the futures over it
-- share, `loop { match ready!(stream.poll_next(cx)) { Some(v) => …, None => … } }`.
use cynthia.Base.{ℕ, zero, suc, ◌<◌, ◌≡◌, ◌≢◌, refl, sym, ap, ◌∙◌, Option, none, some, arith}
use cynthia.Stream.{Poll, pending, ready, Stream, Answer, Answer-cases, by_polls}

-- What a round of an adapter's loop does with an item: it returns one (`emit`) or the end (`stop`),
-- or goes on (`skip`); each with the new state.
pub data Round {ℓ} (St B : Type ℓ) : Type ℓ where
  emit : B → St → Round St B
  skip stop : St → Round St B

-- What a round of a future's loop does with an item.
pub data Turn {ℓ} (St R : Type ℓ) : Type ℓ where
  go : St → Turn St R
  return : R → Turn St R

-- An adapter, or a future, with the stream inside it.
pub record With {ℓ} (St X : Type ℓ) : Type ℓ where
  pub state : St
  pub stream : X

module _ {ℓ} {X A St B : Type ℓ} (s : Stream X A) (body : St → A → Round St B) where
  abbrev pub after_round :
      Round St B → X → (With St X → Poll (Option B) × With St X) → Poll (Option B) × With St X
  after_round (emit b st) x again = (ready (some b), record { state = st; stream = x })
  after_round (skip st) x again = again (record { state = st; stream = x })
  after_round (stop st) x again = (ready none, record { state = st; stream = x })

  abbrev pub after_poll :
      St
      → Poll (Option A) × X
      → (With St X → Poll (Option B) × With St X)
      → Poll (Option B) × With St X
  after_poll st (pending, x) again = (pending, record { state = st; stream = x })
  after_poll st (ready none, x) again = (ready none, record { state = st; stream = x })
  after_poll st (ready (some a), x) again = after_round (body st a) x again

  -- `n` bounds the rounds; `poll_next` of the adapter takes one more than polls are left.
  unfoldable pub adapter_loop : ℕ → With St X → Poll (Option B) × With St X
  adapter_loop zero w = (pending, w)
  adapter_loop (suc n) w = after_poll w.state (s.poll_next w.stream) (λ w'. adapter_loop n w')

  unfoldable pub adapter_poll : With St X → Poll (Option B) × With St X
  unfolding adapter_loop
  adapter_poll w = adapter_loop (suc (s.left w.stream)) w

  loop-enough :
      (n m : ℕ) (w : With St X)
      → s.left w.stream < n
      → s.left w.stream < m
      → adapter_loop n w ≡ adapter_loop m w
  unfolding adapter_loop
  loop-enough zero m w h h' = absurd (omega arith)
  loop-enough (suc n) zero w h h' = absurd (omega arith)
  loop-enough (suc n) (suc m) w h h' = elim (Answer-cases (s.poll_next w.stream)) [
    | Answer.waits x' e ↦ rw e
    | Answer.ends x' e ↦ rw e
    | Answer.gives a x' e ↦
        let moved = s.item_moves w.stream x' a e in
        rw e (
          again (body w.state a) x' (λ st.
            loop-enough n m (record { state = st; stream = x' }) (omega arith) (omega arith)))
  ]
    where
      again :
          (r : Round St B) (x' : X)
          → ((st : St)
              → adapter_loop n (record { state = st; stream = x' })
                ≡ adapter_loop m (record { state = st; stream = x' }))
          → after_round r x' (λ w'. adapter_loop n w') ≡ after_round r x' (λ w'. adapter_loop m w')
      again (emit b st) x' ih = refl
      again (skip st) x' ih = ih st
      again (stop st) x' ih = refl

  -- A poll, by the stream's answer and by what the round does with an item.
  pub poll-pending :
      (w : With St X) (x' : X)
      → s.poll_next w.stream ≡ (pending, x')
      → adapter_poll w ≡ (pending, record { state = w.state; stream = x' })
  unfolding adapter_poll
  poll-pending w x' e = rw e

  pub poll-end :
      (w : With St X) (x' : X)
      → s.poll_next w.stream ≡ (ready none, x')
      → adapter_poll w ≡ (ready none, record { state = w.state; stream = x' })
  unfolding adapter_poll
  poll-end w x' e = rw e

  pub poll-emit :
      (w : With St X) (x' : X) (a : A) (b : B) (st : St)
      → s.poll_next w.stream ≡ (ready (some a), x')
      → body w.state a ≡ emit b st
      → adapter_poll w ≡ (ready (some b), record { state = st; stream = x' })
  unfolding adapter_poll
  poll-emit w x' a b st e e' = rw (e, e')

  pub poll-stop :
      (w : With St X) (x' : X) (a : A) (st : St)
      → s.poll_next w.stream ≡ (ready (some a), x')
      → body w.state a ≡ stop st
      → adapter_poll w ≡ (ready none, record { state = st; stream = x' })
  unfolding adapter_poll
  poll-stop w x' a st e e' = rw (e, e')

  pub poll-skip :
      (w : With St X) (x' : X) (a : A) (st : St)
      → s.poll_next w.stream ≡ (ready (some a), x')
      → body w.state a ≡ skip st
      → adapter_poll w ≡ adapter_poll (record { state = st; stream = x' })
  unfolding adapter_poll
  poll-skip w x' a st e e' =
      let moved = s.item_moves w.stream x' a e in
      rw (e, e')
        (loop-enough (s.left w.stream) (suc (s.left x')) (record { state = st; stream = x' })
          (omega arith) (omega arith))

  pub data RoundCases (r : Round St B) : Type ℓ where
    emits : (b : B) (st : St) → r ≡ emit b st → RoundCases r
    skips : (st : St) → r ≡ skip st → RoundCases r
    stops : (st : St) → r ≡ stop st → RoundCases r

  pub Round-cases : (r : Round St B) → RoundCases r
  Round-cases (emit b st) = RoundCases.emits b st refl
  Round-cases (skip st) = RoundCases.skips st refl
  Round-cases (stop st) = RoundCases.stops st refl

  left_of :
      (q : Poll (Option B) × With St X) {x' : X} {st' : St} {p p' : Poll (Option B)}
      {w' : With St X}
      → q ≡ (p, record { state = st'; stream = x' })
      → q ≡ (p', w')
      → s.left w'.stream ≡ s.left x'
  left_of q e e' = ap (λ r. s.left (r.1).stream) (sym e' ∙ e)

  pub poll_moves :
      (x : X) (st : St) (w' : With St X) (p : Poll (Option B))
      → adapter_poll (record { state = st; stream = x }) ≡ (p, w')
      → p ≢ ready none
      → s.left w'.stream < s.left x
  poll_moves = by_polls s λ x ih st w' p e open_.
      let w : With St X = record { state = st; stream = x } in
      elim (Answer-cases (s.poll_next x)) [
        | Answer.waits x' a ↦
            let at_x' = left_of (adapter_poll w) (poll-pending w x' a) e in
            let moved = s.pending_moves x x' a in omega arith
        | Answer.ends x' a ↦ absurd (open_ (ap (λ q. q.0) (sym e ∙ poll-end w x' a)))
        | Answer.gives v x' a ↦
            let moved = s.item_moves x x' v a in
            elim (Round-cases (body st v)) [
              | RoundCases.emits b st' r ↦
                  let at_x' = left_of (adapter_poll w) (poll-emit w x' v b st' a r) e in omega arith
              | RoundCases.skips st' r ↦
                  let later = ih x' moved st' w' p (sym (poll-skip w x' v st' a r) ∙ e) open_ in
                  omega arith
              | RoundCases.stops st' r ↦
                  absurd (open_ (ap (λ q. q.0) (sym e ∙ poll-stop w x' v st' a r)))
            ]
      ]

  -- The adapter as a stream.
  unfoldable pub adapter : Stream (With St X) B
  unfolding adapter_poll
  adapter = record {
    poll_next = adapter_poll;
    left = λ w. s.left w.stream;
    pending_moves = λ w w' e. poll_moves w.stream w.state w' pending e (λ c. cc c);
    item_moves = λ w w' b e. poll_moves w.stream w.state w' (ready (some b)) e (λ c. cc c);
  }
