-- ===== src/Queue/Bounded/Refine.antt =====
-- cynthia/src/platform/queue/bounded.rs: the queue of fixed capacity does what Fifo says of a
-- ConcurrentQueue. The exchange of a push or of a pop is where it takes effect.
use cynthia.Base.{
  ℕ, zero, suc, ◌+◌, ◌≤◌, ◌<◌, ◌≡◌, ◌≢◌, ◌⊎◌, inl, inr, leb, some_eq, refl, sym, ap, ◌∙◌, Bool,
  true, false, Option, none, some, List, [], ◌∷◌, ◌++◌, length, get_elem?, drop, if◌then◌else◌,
  arith,
}
use cynthia.Base.Machine.{Reach}
use cynthia.Queue.{full, closed, empty}
use cynthia.Queue.Fifo
use cynthia.Queue.Fifo.{
  Fifo, Pushed, Popped, pushed, unpushed, popped, unpopped, is_full, pop_items,
}
use cynthia.Queue.Bounded.{
  nobody, Bounded, machine, index_of, is_marked, advance, PushRound, PopRound, push_claims,
  push_closed, push_full, push_retries, pop_claims, pop_closed, pop_empty, pop_retries, push_at,
  pop_at, after_push, claim_push, after_pop, claim_pop,
}
use cynthia.Queue.Bounded.Position.{encode, advance-encode, is_marked-encode, is_marked-marked}
use cynthia.Queue.Bounded.Inv.{Inv, Small}
use cynthia.Queue.Bounded.Rounds.{room, no_room, push_busy, message, no_message, pop_busy}
use cynthia.Queue.Bounded.Claims.{closed_round}
use cynthia.Queue.Bounded.Finds.{push_finds, pop_finds}
use cynthia.Queue.Bounded.Safety.{Reach-Inv}

drop-append : {A : Type 0} (n : ℕ) (l k : List A) → n ≤ length l → drop n (l ++ k) ≡ drop n l ++ k
drop-append zero l k h = refl
drop-append (suc n) [] k h = absurd (omega (arith, h))
drop-append (suc n) (a ∷ l) k h = drop-append n l k (omega (arith, h))

drop-get :
    {A : Type 0} (n : ℕ) (l : List A) {a : A}
    → get_elem? l n ≡ some a
    → drop n l ≡ a ∷ drop (n + 1) l
drop-get zero (b ∷ l) e = ap (λ c. c ∷ l) (some_eq e)
drop-get zero [] e = cc e
drop-get (suc n) [] e = cc e
drop-get (suc n) (b ∷ l) {a} e =
    let next : suc (n + 1) ≡ suc n + 1 = omega arith in
    drop-get n l e ∙ ap (λ m. a ∷ drop m (b ∷ l)) next

length-drop : {A : Type 0} (n : ℕ) (l : List A) → n ≤ length l → n + length (drop n l) ≡ length l
length-drop zero l h = omega arith
length-drop (suc n) [] h = absurd (omega (arith, h))
length-drop (suc n) (a ∷ l) h = omega (arith, length-drop n l (omega (arith, h)))

push-open :
    (m : ℕ) (q : Fifo) (b : Bool)
    → q.is_closed ≡ false
    → is_full q ≡ b
    → Fifo.push m q
      ≡ (if b then unpushed (full m) else pushed (record q { items = q.items ++ m ∷ [] }))
unfolding Fifo.push is_full
push-open m q b open_ f = rw (open_, f) refl

push-closed : (m : ℕ) (q : Fifo) → q.is_closed ≡ true → Fifo.push m q ≡ unpushed (closed m)
unfolding Fifo.push
push-closed m q shut = rw shut refl

module _ (cap mark : ℕ) where
  -- The values pushed that no pop has claimed.
  abbrev pub content : Bounded → Fifo
  content x = record {
    items = drop x.pops x.accepted;
    capacity = some cap;
    is_closed = is_marked cap mark x.tail;
  }

  push_claimed : Option Bounded → Option Pushed
  push_claimed none = none
  push_claimed (some y) = some (pushed (content y))

  -- What a round of a push of `v` answers, and the queue then: `none` if it goes round again.
  unfoldable pub push_answer : PushRound → ℕ → Bounded → Option Pushed
  unfolding push_claimed
  push_answer push_claims v x = push_claimed (after_push cap mark v x push_claims)
  push_answer push_closed v x = some (unpushed (closed v))
  push_answer push_full v x = some (unpushed (full v))
  push_answer push_retries v x = none

  pop_claimed : Option ℕ → Option Bounded → Option Popped
  pop_claimed none o = none
  pop_claimed (some v) none = none
  pop_claimed (some v) (some y) = some (popped v (content y))

  unfoldable pub pop_answer : PopRound → Bounded → Option Popped
  unfolding pop_claimed
  pop_answer pop_claims x =
      pop_claimed (x.buffer (index_of cap mark x.head)).value (after_pop cap mark x pop_claims)
  pop_answer pop_closed x = some (unpopped closed)
  pop_answer pop_empty x = some (unpopped empty)
  pop_answer pop_retries x = none

  module _ (positive : 0 < cap) (fits : cap < mark) {x : Bounded} (r : Reach (machine cap mark) x)
      (small : Small cap mark x) where
    v : Inv cap mark x
    v = Reach-Inv cap mark positive fits r small

    load : x.pops + length (drop x.pops x.accepted) ≡ length x.accepted
    load = length-drop x.pops x.accepted v.lower

    claimed_push :
        (m : ℕ)
        → (x.buffer (index_of cap mark x.tail)).owner ≡ nobody
        → is_marked cap mark x.tail ≡ false
        → is_marked cap mark (advance cap mark x.tail) ≡ false
        → push_answer push_claims m x
          ≡ some (pushed (record (content x) { items = drop x.pops x.accepted ++ m ∷ [] }))
    unfolding push_answer push_claimed after_push claim_push
    claimed_push m o open_ next =
        ap (λ w. push_claimed (claim_push cap mark m x w)) o
        ∙ ap
            (λ c. some (
              pushed (record {
                items = drop x.pops (x.accepted ++ m ∷ []);
                capacity = some cap;
                is_closed = c;
              })))
            (next ∙ sym open_)
        ∙ ap (λ l. some (pushed (record (content x) { items = l })))
            (drop-append x.pops x.accepted (m ∷ []) v.lower)

    open_answer :
        (m : ℕ)
        → x.tail ≡ encode cap mark (length x.accepted)
        → (push_answer (push_at cap mark x) m x ≡ some (Fifo.push m (content x)))
          ⊎ ((push_at cap mark x ≡ push_retries)
              × ((x.buffer (index_of cap mark x.tail)).owner ≢ nobody))
    unfolding push_answer is_full
    open_answer m e =
        let open_ =
          ap (is_marked cap mark) e ∙ is_marked-encode cap mark positive fits (length x.accepted) in
        elim (push_finds cap mark positive fits x v small e) [
          | room q o w z lt ↦
              let next =
                ap (λ p. is_marked cap mark (advance cap mark p)) e
                ∙ ap (is_marked cap mark) (
                    advance-encode cap mark positive fits (length x.accepted)
                      (omega (arith, small)))
                ∙ is_marked-encode cap mark positive fits (length x.accepted + 1) in
              let less : leb cap (length (drop x.pops x.accepted)) ≡ false =
                ground (arith, load, lt) in
              inl (
                ap (λ a. push_answer a m x) q
                ∙ claimed_push m o open_ next
                ∙ ap some (sym (push-open m (content x) false open_ less)))
          | no_room q top ↦
              let all : leb cap (length (drop x.pops x.accepted)) ≡ true =
                ground (arith, load, top) in
              inl (
                ap (λ a. push_answer a m x) q
                ∙ ap some (sym (push-open m (content x) true open_ all)))
          | push_busy q o ↦ inr (q, o)
        ]

    push_answer-Fifo :
        (m : ℕ)
        → (push_answer (push_at cap mark x) m x ≡ some (Fifo.push m (content x)))
          ⊎ ((push_at cap mark x ≡ push_retries)
              × ((x.buffer (index_of cap mark x.tail)).owner ≢ nobody))
    unfolding push_answer
    push_answer-Fifo m = elim v.tail [
      | inl e ↦ open_answer m e
      | inr e ↦
          let shut =
            ap (is_marked cap mark) e
            ∙ is_marked-marked cap mark positive fits (length x.accepted) in
          inl (
            ap (λ a. push_answer a m x) (closed_round cap mark positive fits x v small e)
            ∙ ap some (sym (push-closed m (content x) shut)))
    ]

    claimed_pop :
        (m : ℕ)
        → (x.buffer (index_of cap mark x.head)).owner ≡ nobody
        → (x.buffer (index_of cap mark x.head)).value ≡ some m
        → get_elem? x.accepted x.pops ≡ some m
        → pop_answer pop_claims x ≡ some (Fifo.pop (content x))
    unfolding pop_answer pop_claimed after_pop claim_pop Fifo.pop pop_items
    claimed_pop m o z g =
        ap (λ w. pop_claimed (x.buffer (index_of cap mark x.head)).value (claim_pop cap mark x w)) o
        ∙ ap (λ w. pop_claimed w (claim_pop cap mark x nobody)) z
        ∙ ap (λ l. some (pop_items (content x) l)) (sym (drop-get x.pops x.accepted g))

    pop_answer-Fifo :
        (pop_answer (pop_at cap mark x) x ≡ some (Fifo.pop (content x)))
        ⊎ ((pop_at cap mark x ≡ pop_retries)
            × ((x.buffer (index_of cap mark x.head)).owner ≢ nobody))
    unfolding pop_answer Fifo.pop pop_items
    pop_answer-Fifo = elim (pop_finds cap mark positive fits x v small) [
      | message m q o w z lt g ↦ inl (ap (λ a. pop_answer a x) q ∙ claimed_pop m o z g)
      | no_message q none_ ↦ inl (
          ap (λ a. pop_answer a x) q
          ∙ at_mark (is_marked cap mark x.tail)
          ∙ ap (λ l. some (pop_items (content x) l))
              (sym (no_items (drop x.pops x.accepted) (omega (arith, load, none_)))))
      | pop_busy q o ↦ inr (q, o)
    ]
      where
        at_mark :
            (c : Bool)
            → pop_answer (if c then pop_closed else pop_empty) x
              ≡ some (unpopped (if c then closed else empty))
        at_mark true = refl
        at_mark false = refl

        no_items : (l : List ℕ) → length l ≡ 0 → l ≡ []
        no_items [] e = refl
        no_items (a ∷ l) e = absurd (omega (arith, e))

    -- In every reachable state before a word wraps round, a round of a push with all its loads in that
    -- state answers and does what a push on the list of the values pushed and not popped does, with the
    -- capacity and the mark of the queue; or it goes round again while another thread uses the slot. So
    -- does a round of a pop.
    pub rounds-Fifo :
        ((m : ℕ)
          → (push_answer (push_at cap mark x) m x ≡ some (Fifo.push m (content x)))
            ⊎ ((push_at cap mark x ≡ push_retries)
                × ((x.buffer (index_of cap mark x.tail)).owner ≢ nobody)))
        × ((pop_answer (pop_at cap mark x) x ≡ some (Fifo.pop (content x)))
            ⊎ ((pop_at cap mark x ≡ pop_retries)
                × ((x.buffer (index_of cap mark x.head)).owner ≢ nobody)))
    rounds-Fifo = (push_answer-Fifo, pop_answer-Fifo)
