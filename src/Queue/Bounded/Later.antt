-- ===== src/Queue/Bounded/Later.antt =====
-- cynthia/src/platform/queue/bounded.rs: what other threads can have done to the queue between two
-- loads of one thread.
use cynthia.Base.{
  ℕ, ◌+◌, ◌≤◌, ◌<◌, ◌≡◌, refl, sym, ap, ◌∙◌, subst, Bool, true, false, Option, none, some,
  some_kept, [], ◌∷◌, length, length-append, ltb, ◌==◌, if_holds, if◌then◌else◌, arith,
}
use cynthia.Base.Word.{wrapping_add}
use cynthia.Queue.Bounded.{
  Owner, Slot, nobody, writer, reader, has_writer, has_reader, Bounded, Action, pushes, pops,
  closes, writes, reads, can, act, one_lap, index_of, PushRound, PopRound, push_claims, push_closed,
  push_full, push_retries, pop_claims, pop_closed, pop_empty, pop_retries, after_push, claim_push,
  after_pop, claim_pop, finish_push, finish_pop, read_value, close, push_at, push_round, pop_at,
  is_marked, set_slot,
}
use cynthia.Queue.Bounded.Position.{encode_mono}
use cynthia.Queue.Bounded.Inv.{free, writing, full, reading, Inv, Small}
use cynthia.Queue.Bounded.Keeps.{guarded}

set_slot-stamp :
    (buffer : ℕ → Slot) (i j : ℕ) (s : Slot)
    → (buffer i).stamp ≤ s.stamp
    → (buffer j).stamp ≤ (set_slot i s buffer j).stamp
set_slot-stamp buffer i j s h =
    if_holds (λ (t : Slot). (buffer j).stamp ≤ t.stamp) (j == i)
      (λ e.
        let same : j ≡ i = ground (arith, e) in
        subst (λ k. (buffer k).stamp ≤ s.stamp) (sym same) h)
      (λ _. omega arith)

module _ (cap mark : ℕ) where
  -- What no step takes back: pushes, pops, the mark of a closed queue, and the stamps.
  pub record Later (x y : Bounded) : Type 0 where
    pub pushed : length x.accepted ≤ length y.accepted
    pub popped : x.pops ≤ y.pops
    pub marked : is_marked cap mark x.tail ≡ true → is_marked cap mark y.tail ≡ true
    pub stamps : (j : ℕ) → j < cap → (x.buffer j).stamp ≤ (y.buffer j).stamp

  pub Later-refl : (x : Bounded) → Later x x
  Later-refl x = record {
    pushed = omega arith;
    popped = omega arith;
    marked = λ h. h;
    stamps = λ j p. omega arith;
  }

  pub Later-trans : {x y z : Bounded} → Later x y → Later y z → Later x z
  Later-trans a b = record {
    pushed = omega (arith, a.pushed, b.pushed);
    popped = omega (arith, a.popped, b.popped);
    marked = λ h. b.marked (a.marked h);
    stamps = λ j p. omega (arith, a.stamps j p, b.stamps j p);
  }

  claim_push-Later :
      (m : ℕ) (x y : Bounded) (o : Owner)
      → is_marked cap mark x.tail ≡ false
      → claim_push cap mark m x o ≡ some y
      → Later x y
  unfolding claim_push
  claim_push-Later m x y nobody open_ e = some_kept (Later x) _ e (record {
    pushed = omega (arith, length-append x.accepted (m ∷ []));
    popped = omega arith;
    marked = λ h. cc (sym open_ ∙ h);
    stamps = λ j p. set_slot-stamp x.buffer (index_of cap mark x.tail) j _ (omega arith);
  })
  claim_push-Later m x y (writer v p) open_ e = cc e
  claim_push-Later m x y (reader p) open_ e = cc e

  open_claims :
      (head tail stamp : ℕ)
      → push_round cap mark head tail stamp ≡ push_claims
      → is_marked cap mark tail ≡ false
  unfolding push_round
  open_claims head tail stamp e = at_mark (is_marked cap mark tail) _ e
    where
      at_mark :
          (b : Bool) (r : PushRound) → (if b then push_closed else r) ≡ push_claims → b ≡ false
      at_mark true r e = cc e
      at_mark false r e = refl

  after_push-Later :
      (m : ℕ) (x y : Bounded) (r : PushRound)
      → push_at cap mark x ≡ r
      → after_push cap mark m x r ≡ some y
      → Later x y
  unfolding after_push push_at
  after_push-Later m x y push_claims q e =
      claim_push-Later m x y (x.buffer (index_of cap mark x.tail)).owner (open_claims _ _ _ q) e
  after_push-Later m x y push_closed q e = some_kept (Later x) x e (Later-refl x)
  after_push-Later m x y push_full q e = some_kept (Later x) x e (Later-refl x)
  after_push-Later m x y push_retries q e = some_kept (Later x) x e (Later-refl x)

  claim_pop-Later : (x y : Bounded) (o : Owner) → claim_pop cap mark x o ≡ some y → Later x y
  unfolding claim_pop
  claim_pop-Later x y nobody e = some_kept (Later x) _ e (record {
    pushed = omega arith;
    popped = omega arith;
    marked = λ h. h;
    stamps = λ j p. set_slot-stamp x.buffer (index_of cap mark x.head) j _ (omega arith);
  })
  claim_pop-Later x y (writer v p) e = cc e
  claim_pop-Later x y (reader p) e = cc e

  after_pop-Later : (x y : Bounded) (r : PopRound) → after_pop cap mark x r ≡ some y → Later x y
  unfolding after_pop
  after_pop-Later x y pop_claims e =
      claim_pop-Later x y (x.buffer (index_of cap mark x.head)).owner e
  after_pop-Later x y pop_closed e = some_kept (Later x) x e (Later-refl x)
  after_pop-Later x y pop_empty e = some_kept (Later x) x e (Later-refl x)
  after_pop-Later x y pop_retries e = some_kept (Later x) x e (Later-refl x)

  -- A store to the stamp of the slot `i`.
  stored :
      (x : Bounded) (i : ℕ) (s : Slot)
      → (x.buffer i).stamp ≤ s.stamp
      → Later x (record x { buffer = set_slot i s x.buffer })
  stored x i s h = record {
    pushed = omega arith;
    popped = omega arith;
    marked = λ m. m;
    stamps = λ j p. set_slot-stamp x.buffer i j s h;
  }

  position : Owner → ℕ
  position nobody = 0
  position (writer m p) = p
  position (reader p) = p

  module _ (positive : 0 < cap) (fits : cap < mark) (x : Bounded) (v : Inv cap mark x)
      (b : Small cap mark x) where
    written-stamp :
        (j m p : ℕ) → j < cap → (x.buffer j).owner ≡ writer m p → (x.buffer j).stamp ≤ p + 1
    unfolding position
    written-stamp j m p l q =
        let (k, r, st) = v.slots j l in
        elim st [
          | free o s n lo hi ↦ cc (sym o ∙ q)
          | full n o s z lo hi g ↦ cc (sym o ∙ q)
          | reading n o s z lo hi g ↦ cc (sym o ∙ q)
          | writing n o s lo hi g ↦ omega (arith, s, ap position (sym o ∙ q))
        ]

    read-stamp :
        (j p : ℕ)
        → j < cap
        → (x.buffer j).owner ≡ reader p
        → (x.buffer j).stamp ≤ wrapping_add p (one_lap cap mark)
    unfolding position
    read-stamp j p l q =
        let (k, r, st) = v.slots j l in
        elim st [
          | free o s n lo hi ↦ cc (sym o ∙ q)
          | full n o s z lo hi g ↦ cc (sym o ∙ q)
          | writing n o s lo hi g ↦ cc (sym o ∙ q)
          | reading n o s z lo hi g ↦ omega (
            arith,
            s,
            ap position (sym o ∙ q),
            b,
            fits,
            encode_mono cap mark positive fits k (length x.accepted) (omega (arith, lo, v.lower)),
          )
        ]

    finish_push-Later :
        (j : ℕ) (y : Bounded) (o : Owner)
        → j < cap
        → (x.buffer j).owner ≡ o
        → finish_push cap mark j x o ≡ some y
        → Later x y
    unfolding finish_push
    finish_push-Later j y nobody l q e = cc e
    finish_push-Later j y (reader p) l q e = cc e
    finish_push-Later j y (writer m p) l q e =
        some_kept (Later x) _ e (stored x j _ (written-stamp j m p l q))

    read_value-Later :
        (j p : ℕ) (y : Bounded) (o : Option ℕ)
        → j < cap
        → (x.buffer j).owner ≡ reader p
        → read_value cap mark j p x o ≡ some y
        → Later x y
    unfolding read_value
    read_value-Later j p y none l q e = cc e
    read_value-Later j p y (some m) l q e =
        some_kept (Later x) _ e (stored x j _ (read-stamp j p l q))

    finish_pop-Later :
        (j : ℕ) (y : Bounded) (o : Owner)
        → j < cap
        → (x.buffer j).owner ≡ o
        → finish_pop cap mark j x o ≡ some y
        → Later x y
    unfolding finish_pop
    finish_pop-Later j y nobody l q e = cc e
    finish_pop-Later j y (writer m p) l q e = cc e
    finish_pop-Later j y (reader p) l q e = read_value-Later j p y (x.buffer j).value l q e

    close-Later : Later x (close cap mark x)
    unfolding close
    close-Later =
        if_holds (Later x) (is_marked cap mark x.tail) (λ _. Later-refl x)
          (λ open_. record {
            pushed = omega arith;
            popped = omega arith;
            marked = λ h. cc (sym open_ ∙ h);
            stamps = λ j p. omega arith;
          })

    pub act-Later :
        (a : Action) (y : Bounded) → can cap mark a x ≡ true → act cap mark a x ≡ some y → Later x y
    unfolding can act
    act-Later (pushes m) y h e = after_push-Later m x y (push_at cap mark x) refl e
    act-Later pops y h e = after_pop-Later x y (pop_at cap mark x) e
    act-Later closes y h e = some_kept (Later x) _ e close-Later
    act-Later (writes j) y h e =
        let (p, w) =
          guarded cap mark positive fits x v b (ltb j cap) (has_writer (x.buffer j).owner) h in
        finish_push-Later j y (x.buffer j).owner (ground (arith, p)) refl e
    act-Later (reads j) y h e =
        let (p, w) =
          guarded cap mark positive fits x v b (ltb j cap) (has_reader (x.buffer j).owner) h in
        finish_pop-Later j y (x.buffer j).owner (ground (arith, p)) refl e
