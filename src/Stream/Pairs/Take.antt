-- ===== src/Stream/Pairs/Take.antt =====
-- cynthia/src/future/stream.rs: what `Take` gives.
use cynthia.Base.{==_suc, ℕ, zero, suc, ◌<◌, ◌≡◌, refl, sym, ap, ◌∙◌, none, some, ◌∷◌, take, arith}
use cynthia.Stream.{
  pending, ready, Stream, Answer, Answer-cases, items, items-pending, items-end, items-item,
  by_polls, Moves, moves, end-moves,
}
use cynthia.Stream.Pairs.{Taking, take_poll}

module _ {ℓ} {X A : Type ℓ} (s : Stream X A) where
  abbrev pub left : Taking X → ℕ
  left t = s.left t.stream

  -- A poll of `n` items more, by the stream's answer.
  module _ (n : ℕ) (x x' : X) where
    poll-pending :
        s.poll_next x ≡ (pending, x')
        → take_poll s (record { n = suc n; stream = x })
          ≡ (pending, record { n = suc n; stream = x' })
    unfolding take_poll
    poll-pending e = rw (==_suc n, e)

    poll-end :
        s.poll_next x ≡ (ready none, x')
        → take_poll s (record { n = suc n; stream = x })
          ≡ (ready none, record { n = 0; stream = x' })
    unfolding take_poll
    poll-end e = rw (==_suc n, e)

    poll-item :
        (a : A)
        → s.poll_next x ≡ (ready (some a), x')
        → take_poll s (record { n = suc n; stream = x })
          ≡ (ready (some a), record { n = n; stream = x' })
    unfolding take_poll
    poll-item a e =
        rw (==_suc n, e) (ap (λ k. (ready (some a), record { n = k; stream = x' })) (omega arith))

  pub poll_moves :
      (n : ℕ) (x : X) → Moves left (s.left x) (take_poll s (record { n = n; stream = x }))
  unfolding take_poll
  poll_moves zero x = end-moves left _
  poll_moves (suc n) x = elim (Answer-cases (s.poll_next x)) [
    | Answer.waits x' e ↦ rw (==_suc n, e) (moves left pending _ (s.pending_moves x x' e))
    | Answer.ends x' e ↦ rw (==_suc n, e) (end-moves left _)
    | Answer.gives a x' e ↦ rw (==_suc n, e) (moves left (ready (some a)) _ (s.item_moves x x' a e))
  ]

  unfoldable pub taking : Stream (Taking X) A
  taking = record {
    poll_next = take_poll s;
    left = left;
    pending_moves = λ t t' e. poll_moves t.n t.stream pending t' e (λ c. cc c);
    item_moves = λ t t' a e. poll_moves t.n t.stream (ready (some a)) t' e (λ c. cc c);
  }

  items-at :
      (n : ℕ) (x : X)
      → ((x' : X)
          → s.left x' < s.left x
          → (k : ℕ) → items taking (record { n = k; stream = x' }) ≡ take k (items s x'))
      → items taking (record { n = n; stream = x }) ≡ take n (items s x)
  unfolding taking take_poll
  items-at zero x ih = items-end taking {x' = record { n = 0; stream = x }} refl
  items-at (suc k) x ih = elim (Answer-cases (s.poll_next x)) [
    | Answer.waits x' a ↦
        items-pending taking (poll-pending k x x' a)
        ∙ ih x' (s.pending_moves x x' a) (suc k)
        ∙ ap (take (suc k)) (sym (items-pending s a))
    | Answer.ends x' a ↦
        items-end taking (poll-end k x x' a) ∙ ap (take (suc k)) (sym (items-end s a))
    | Answer.gives v x' a ↦
        items-item taking (poll-item k x x' v a)
        ∙ ap (λ l. v ∷ l) (ih x' (s.item_moves x x' v a) k)
        ∙ ap (take (suc k)) (sym (items-item s a))
  ]

  -- `Take` gives the first `n` items.
  pub items-taking :
      (x : X) (n : ℕ) → items taking (record { n = n; stream = x }) ≡ take n (items s x)
  items-taking = by_polls s (λ x ih n. items-at n x ih)
