-- ===== src/Stream/Items.antt =====
-- cynthia/src/future/stream.rs: what an adapter gives, from the items of its stream.
use cynthia.Base.{◌≡◌, sym, ap, ◌∙◌, List, [], ◌∷◌}
use cynthia.Stream.{
  Stream, Answer, Answer-cases, items, items-pending, items-end, items-item, by_polls,
}
use cynthia.Stream.Loop.{
  Round, emit, skip, stop, With, RoundCases, Round-cases, adapter, poll-pending, poll-end,
  poll-emit, poll-stop, poll-skip,
}

-- Equal answers to the first poll give the same items.
pub items-same {ℓ} :
    {X A : Type ℓ} (s : Stream X A) {x y : X}
    → s.poll_next x ≡ s.poll_next y
    → items s x ≡ items s y
items-same s {x} {y} e = elim (Answer-cases (s.poll_next x)) [
  | Answer.waits x' a ↦ items-pending s a ∙ sym (items-pending s (sym e ∙ a))
  | Answer.ends x' a ↦ items-end s a ∙ sym (items-end s (sym e ∙ a))
  | Answer.gives v x' a ↦ items-item s a ∙ sym (items-item s (sym e ∙ a))
]

module _ {ℓ} {X A St B : Type ℓ} (s : Stream X A) (body : St → A → Round St B) where
  abbrev pub then : Round St B → (St → List B) → List B
  then (emit b st) rest = b ∷ rest st
  then (skip st) rest = rest st
  then (stop st) rest = []

  -- The loop over a list in place of a stream.
  unfoldable pub through : St → List A → List B
  through st [] = []
  through st (v ∷ vs) = then (body st v) (λ st'. through st' vs)

  -- An adapter gives what its loop makes of the stream's items, whatever polls are pending.
  pub items-adapter :
      (x : X) (st : St)
      → items (adapter s body) (record { state = st; stream = x }) ≡ through st (items s x)
  unfolding adapter through
  items-adapter = by_polls s λ x ih st.
      let w : With St X = record { state = st; stream = x } in
      let t = adapter s body in
      elim (Answer-cases (s.poll_next x)) [
        | Answer.waits x' a ↦
            items-pending t (poll-pending s body w x' a)
            ∙ ih x' (s.pending_moves x x' a) st
            ∙ ap (through st) (sym (items-pending s a))
        | Answer.ends x' a ↦
            items-end t (poll-end s body w x' a) ∙ ap (through st) (sym (items-end s a))
        | Answer.gives v x' a ↦
            let rest = ih x' (s.item_moves x x' v a) in
            let by_round : Round St B → List B = λ r. then r (λ st'. through st' (items s x')) in
            elim (Round-cases s body (body st v)) [
              | RoundCases.emits b st' r ↦
                  items-item t (poll-emit s body w x' v b st' a r)
                  ∙ ap (λ l. b ∷ l) (rest st')
                  ∙ ap by_round (sym r)
                  ∙ ap (through st) (sym (items-item s a))
              | RoundCases.skips st' r ↦
                  items-same t (poll-skip s body w x' v st' a r)
                  ∙ rest st'
                  ∙ ap by_round (sym r)
                  ∙ ap (through st) (sym (items-item s a))
              | RoundCases.stops st' r ↦
                  items-end t (poll-stop s body w x' v st' a r)
                  ∙ ap by_round (sym r)
                  ∙ ap (through st) (sym (items-item s a))
            ]
      ]
