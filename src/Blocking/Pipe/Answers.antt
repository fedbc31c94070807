-- ===== src/Blocking/Pipe/Answers.antt =====
-- What the starts of `drain` and `fill` answer.
use cynthia.Base.{ℕ, ◌*◌, ◌<◌, ◌≡◌, true, false, ◌==◌, Option, none, some, arith, if_holds}
use cynthia.Blocking.Pipe.{
  Pipe, Poll, pending, ready, distance, real_index, load_tail, load_head, drain_max, fill_max,
  drain_answer, drain_begin, fill_begin, looks_empty, looks_full,
}
use cynthia.Blocking.Pipe.Inv.{Places, load_tail-Places, load_head-Places}

module _ (cap : ℕ) where
  drain_max-pos : {p : Pipe} → Places cap p → looks_empty cap p ≡ false → 0 < drain_max cap p
  unfolding drain_max real_index
  drain_max-pos v h = ground arith

  fill_max-pos : {p : Pipe} → Places cap p → looks_full cap p ≡ false → 0 < fill_max cap p
  unfolding fill_max real_index
  fill_max-pos v h = ground arith

  distance-zero : (a b : ℕ) → a < 2 * cap → b < 2 * cap → (distance cap a b == 0) ≡ true → a ≡ b
  unfolding distance
  distance-zero a b ha hb h = ground arith

  -- What the result of the start of `drain` says of the pipe.
  abbrev pub Drains : Pipe → Pipe × Option Poll → Type 0
  Drains p r =
      (r.1 ≡ some (ready 0) → (p.closed ≡ true) × (p.head ≡ p.tail))
      × (r.1 ≡ some pending → (p.closed ≡ false) × (p.head ≡ p.tail))
      × (r.1 ≡ none → 0 < drain_max cap r.0)

  pub drain_begin-answers : {p : Pipe} → Places cap p → Drains p (drain_begin cap p)
  unfolding drain_begin drain_answer load_tail
  drain_begin-answers {p} v =
      if_holds (Drains p) (looks_empty cap p)
        (λ _.
          if_holds (λ o. Drains p (load_tail p, o)) (looks_empty cap (load_tail p))
            (λ none_left.
              let same = distance-zero p.head p.tail v.head v.tail none_left in
              (λ e. (ground arith, same), λ e. (ground arith, same), λ e. ground arith))
            (λ more. (
              λ e. ground arith,
              λ e. ground arith,
              λ e. drain_max-pos (load_tail-Places cap v) more,
            )))
        (λ more. (λ e. ground arith, λ e. ground arith, λ e. drain_max-pos v more))

  abbrev pub Fills : Pipe → Pipe × Option Poll → Type 0
  Fills p r =
      (r.1 ≡ some (ready 0) → p.closed ≡ true)
      × (r.1 ≡ some pending → (p.closed ≡ false) × (distance cap p.head p.tail ≡ cap))
      × (r.1 ≡ none → 0 < fill_max cap r.0)

  pub fill_begin-answers : {p : Pipe} → Places cap p → Fills p (fill_begin cap p)
  unfolding fill_begin load_head
  fill_begin-answers {p} v =
      if_holds (Fills p) (p.closed) (λ over. (λ e. over, λ e. ground arith, λ e. ground arith))
        (λ unclosed.
          if_holds (Fills p) (looks_full cap p)
            (λ _.
              if_holds (Fills p) (looks_full cap (load_head p))
                (λ full. (λ e. ground arith, λ e. (unclosed, ground arith), λ e. ground arith))
                (λ more. (
                  λ e. ground arith,
                  λ e. ground arith,
                  λ e. fill_max-pos (load_head-Places cap v) more,
                )))
            (λ more. (λ e. ground arith, λ e. ground arith, λ e. fill_max-pos v more)))
