-- ===== src/Queue/Bounded/Growth.antt =====
-- cynthia/src/platform/queue/bounded.rs: no step takes back a value that was pushed.
use cynthia.Base.{
  ℕ, ◌≤◌, ◌≡◌, Option, none, some, some_kept, [], ◌∷◌, length, length-append, if_holds, arith,
}
use cynthia.Queue.Bounded.{
  Owner, nobody, writer, reader, Bounded, Action, pushes, pops, closes, writes, reads, act,
  index_of, PushRound, PopRound, push_claims, push_closed, push_full, push_retries, pop_claims,
  pop_closed, pop_empty, pop_retries, after_push, claim_push, after_pop, claim_pop, finish_push,
  finish_pop, read_value, close, push_at, pop_at, is_marked,
}

module _ (cap mark : ℕ) where
  abbrev pub Grows : Bounded → Bounded → Type 0
  Grows x y = length x.accepted ≤ length y.accepted

  claim_push-Grows :
      (m : ℕ) (x y : Bounded) (o : Owner) → claim_push cap mark m x o ≡ some y → Grows x y
  unfolding claim_push
  claim_push-Grows m x y nobody e =
      some_kept (Grows x) _ e (omega (arith, length-append x.accepted (m ∷ [])))
  claim_push-Grows m x y (writer v p) e = cc e
  claim_push-Grows m x y (reader p) e = cc e

  after_push-Grows :
      (m : ℕ) (x y : Bounded) (r : PushRound) → after_push cap mark m x r ≡ some y → Grows x y
  unfolding after_push
  after_push-Grows m x y push_claims e =
      claim_push-Grows m x y (x.buffer (index_of cap mark x.tail)).owner e
  after_push-Grows m x y push_closed e = some_kept (Grows x) x e (omega arith)
  after_push-Grows m x y push_full e = some_kept (Grows x) x e (omega arith)
  after_push-Grows m x y push_retries e = some_kept (Grows x) x e (omega arith)

  claim_pop-Grows : (x y : Bounded) (o : Owner) → claim_pop cap mark x o ≡ some y → Grows x y
  unfolding claim_pop
  claim_pop-Grows x y nobody e = some_kept (Grows x) _ e (omega arith)
  claim_pop-Grows x y (writer v p) e = cc e
  claim_pop-Grows x y (reader p) e = cc e

  after_pop-Grows : (x y : Bounded) (r : PopRound) → after_pop cap mark x r ≡ some y → Grows x y
  unfolding after_pop
  after_pop-Grows x y pop_claims e =
      claim_pop-Grows x y (x.buffer (index_of cap mark x.head)).owner e
  after_pop-Grows x y pop_closed e = some_kept (Grows x) x e (omega arith)
  after_pop-Grows x y pop_empty e = some_kept (Grows x) x e (omega arith)
  after_pop-Grows x y pop_retries e = some_kept (Grows x) x e (omega arith)

  finish_push-Grows :
      (j : ℕ) (x y : Bounded) (o : Owner) → finish_push cap mark j x o ≡ some y → Grows x y
  unfolding finish_push
  finish_push-Grows j x y nobody e = cc e
  finish_push-Grows j x y (writer v p) e = some_kept (Grows x) _ e (omega arith)
  finish_push-Grows j x y (reader p) e = cc e

  read_value-Grows :
      (j p : ℕ) (x y : Bounded) (o : Option ℕ) → read_value cap mark j p x o ≡ some y → Grows x y
  unfolding read_value
  read_value-Grows j p x y none e = cc e
  read_value-Grows j p x y (some m) e = some_kept (Grows x) _ e (omega arith)

  finish_pop-Grows :
      (j : ℕ) (x y : Bounded) (o : Owner) → finish_pop cap mark j x o ≡ some y → Grows x y
  unfolding finish_pop
  finish_pop-Grows j x y nobody e = cc e
  finish_pop-Grows j x y (writer v p) e = cc e
  finish_pop-Grows j x y (reader p) e = read_value-Grows j p x y (x.buffer j).value e

  pub act-Grows : (a : Action) (x y : Bounded) → act cap mark a x ≡ some y → Grows x y
  unfolding act close
  act-Grows (pushes m) x y e = after_push-Grows m x y (push_at cap mark x) e
  act-Grows pops x y e = after_pop-Grows x y (pop_at cap mark x) e
  act-Grows closes x y e =
      some_kept (Grows x) _ e
        (if_holds (Grows x) (is_marked cap mark x.tail) (λ _. omega arith) (λ _. omega arith))
  act-Grows (writes j) x y e = finish_push-Grows j x y (x.buffer j).owner e
  act-Grows (reads j) x y e = finish_pop-Grows j x y (x.buffer j).owner e
