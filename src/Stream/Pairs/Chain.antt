-- ===== src/Stream/Pairs/Chain.antt =====
-- cynthia/src/future/stream.rs: what `Chain` gives.
use cynthia.Base.{
  ℕ, ◌+◌, ◌<◌, ◌≤◌, ◌≡◌, refl, sym, ap, ◌∙◌, Bool, true, false, if◌then◌else◌, some, List, [], ◌∷◌,
  ◌++◌, arith,
}
use cynthia.Stream.{
  pending, ready, Stream, Answer, Answer-cases, items, items-pending, items-end, items-item,
  by_polls, Moves, moves, end-moves,
}
use cynthia.Stream.Items.{items-same}
use cynthia.Stream.Pairs.{Fused, Chained, fuse_poll, chain_poll, chain_second}

abbrev pub fused_left {ℓ} : {X A : Type ℓ} → Stream X A → Fused X → ℕ
fused_left s f = if f.done then 0 else s.left f.stream

abbrev pub fused_items {ℓ} : {X A : Type ℓ} → Stream X A → Fused X → List A
fused_items s f = if f.done then [] else items s f.stream

module _ {ℓ} {X Y A : Type ℓ} (s : Stream X A) (t : Stream Y A) where
  abbrev pub left : Chained X Y → ℕ
  left c = fused_left s c.first + fused_left t c.second

  abbrev at : Bool → X → Bool → Y → Chained X Y
  at d x d' y = record {
    first = record { stream = x; done = d };
    second = record { stream = y; done = d' };
  }

  -- A poll once the first stream has ended.
  second_moves :
      (m : ℕ) (x : X) (d : Bool) (y : Y)
      → fused_left t (record { stream = y; done = d }) ≤ m
      → Moves left m
          (chain_second s t (record { stream = x; done = true }) (record { stream = y; done = d }))
  unfolding fuse_poll
  second_moves m x true y h = end-moves left _
  second_moves m x false y h = elim (Answer-cases (t.poll_next y)) [
    | Answer.waits y' e ↦
        let moved = t.pending_moves y y' e in rw e (moves left pending _ (omega arith))
    | Answer.ends y' e ↦ rw e (end-moves left _)
    | Answer.gives a y' e ↦
        let moved = t.item_moves y y' a e in rw e (moves left (ready (some a)) _ (omega arith))
  ]

  pub poll_moves :
      (d : Bool) (x : X) (d' : Bool) (y : Y)
      → Moves left (left (at d x d' y)) (chain_poll s t (at d x d' y))
  unfolding chain_poll fuse_poll
  poll_moves true x d' y = second_moves _ x d' y (omega arith)
  poll_moves false x d' y = elim (Answer-cases (s.poll_next x)) [
    | Answer.waits x' e ↦
        let moved = s.pending_moves x x' e in rw e (moves left pending _ (omega arith))
    | Answer.ends x' e ↦ rw e (second_moves _ x' d' y (omega arith))
    | Answer.gives a x' e ↦
        let moved = s.item_moves x x' a e in rw e (moves left (ready (some a)) _ (omega arith))
  ]

  abbrev poll_moves_all : (c : Chained X Y) → Moves left (left c) (chain_poll s t c)
  poll_moves_all c = poll_moves c.first.done c.first.stream c.second.done c.second.stream

  unfoldable pub chained : Stream (Chained X Y) A
  chained = record {
    poll_next = chain_poll s t;
    left = left;
    pending_moves = λ c c' e. poll_moves_all c pending c' e (λ a. cc a);
    item_moves = λ c c' v e. poll_moves_all c (ready (some v)) c' e (λ a. cc a);
  }

  -- What is left of a chain whose first stream has ended.
  items-ended :
      (x : X) (d : Bool) (y : Y)
      → ((c : Chained X Y)
          → left c < fused_left t (record { stream = y; done = d })
          → items chained c ≡ fused_items s c.first ++ fused_items t c.second)
      → items chained (at true x d y) ≡ fused_items t (record { stream = y; done = d })
  unfolding chained chain_poll fuse_poll
  items-ended x true y ih = items-end chained {x' = at true x true y} refl
  items-ended x false y ih = elim (Answer-cases (t.poll_next y)) [
    | Answer.waits y' e ↦
        let moved = t.pending_moves y y' e in
        items-pending chained {x' = at true x false y'} (rw e)
        ∙ ih (at true x false y') (omega arith)
        ∙ sym (items-pending t e)
    | Answer.ends y' e ↦ items-end chained {x' = at true x true y'} (rw e) ∙ sym (items-end t e)
    | Answer.gives a y' e ↦
        let moved = t.item_moves y y' a e in
        items-item chained {x' = at true x false y'} (rw e)
        ∙ ap (λ l. a ∷ l) (ih (at true x false y') (omega arith))
        ∙ sym (items-item t e)
  ]

  items-at :
      (d : Bool) (x : X) (d' : Bool) (y : Y)
      → ((c : Chained X Y)
          → left c < left (at d x d' y)
          → items chained c ≡ fused_items s c.first ++ fused_items t c.second)
      → items chained (at d x d' y)
        ≡ fused_items s (record { stream = x; done = d })
          ++ fused_items t (record { stream = y; done = d' })
  unfolding chained chain_poll fuse_poll
  items-at true x d' y ih = items-ended x d' y (λ c h. ih c (omega arith))
  items-at false x d' y ih =
      let second : List A = fused_items t (record { stream = y; done = d' }) in
      elim (Answer-cases (s.poll_next x)) [
        | Answer.waits x' e ↦
            let moved = s.pending_moves x x' e in
            items-pending chained {x' = at false x' d' y} (rw e)
            ∙ ih (at false x' d' y) (omega arith)
            ∙ ap (λ l. l ++ second) (sym (items-pending s e))
        | Answer.ends x' e ↦
            items-same chained {x = at false x d' y} {y = at true x' d' y} (rw e)
            ∙ items-ended x' d' y (λ c h. ih c (omega arith))
            ∙ ap (λ l. l ++ second) (sym (items-end s e))
        | Answer.gives a x' e ↦
            let moved = s.item_moves x x' a e in
            items-item chained {x' = at false x' d' y} (rw e)
            ∙ ap (λ l. a ∷ l) (ih (at false x' d' y) (omega arith))
            ∙ ap (λ l. l ++ second) (sym (items-item s e))
      ]

  -- `Chain` gives the items of the first stream and then those of the second.
  pub items-chained :
      (c : Chained X Y) → items chained c ≡ fused_items s c.first ++ fused_items t c.second
  unfolding chained
  items-chained =
      by_polls chained
        (λ c ih. items-at c.first.done c.first.stream c.second.done c.second.stream ih)
