-- ===== src/Queue/Bounded/Claims.antt =====
-- cynthia/src/platform/queue/bounded.rs: the exchanges of pushes and pops claim a slot that no other
-- thread uses, and keep what holds of the slots.
use cynthia.Base.{
  ℕ, ◌+◌, ◌%◌, ◌≤◌, ◌<◌, ◌≡◌, ◌≢◌, inl, inr, sym, ap, ◌∙◌, Bool, true, false, Option, some, List,
  [], ◌∷◌, ◌++◌, length, length-append, get_elem?, get_elem?-append_left, get_elem?-append_length,
  ◌==◌, if_holds, if◌then◌else◌, Bool-cases, arith,
}
use cynthia.Queue.Bounded.{
  Slot, writer, reader, Bounded, pushes, pops, act, index_of, is_marked, push_closed, pop_closed,
  pop_empty, push_round, advance, after_push, claim_push, after_pop, claim_pop, set_slot, push_at,
  pop_at,
}
use cynthia.Queue.Bounded.Position.{
  encode, index_of-encode, encode_mono, is_marked-marked, mod_add, advance-encode,
}
use cynthia.Queue.Bounded.Inv.{Stands, free, writing, full, reading, Inv, Small}
use cynthia.Queue.Bounded.Rounds.{room, no_room, push_busy, message, no_message, pop_busy}
use cynthia.Queue.Bounded.Finds.{push_finds, pop_finds}

module _ (cap mark : ℕ) where
  -- A step that goes well.
  abbrev pub Good : Option Bounded → Type 0
  Good o = (y : Bounded) × (o ≡ some y) × Inv cap mark y

  strictly : (a b : ℕ) → a % cap ≢ b % cap → b ≤ a → b < a
  strictly a b n lo = elim (Bool-cases (b == a)) [
    | inl q ↦ absurd (n (ap (λ c. c % cap) (sym (is_same b a q))))
    | inr q ↦ ground (arith, q, lo)
  ]
    where
      is_same : (b a : ℕ) → (b == a) ≡ true → b ≡ a
      is_same b a q = ground (arith, q)

  module _ (positive : 0 < cap) where
    -- What stands for another position than the one claimed still stands.
    Stands-push :
        (h : ℕ) (l : List ℕ) (k : ℕ) (s : Slot) (m : ℕ)
        → h ≤ length l
        → k % cap ≢ length l % cap
        → Stands cap mark (length l) h l k s
        → Stands cap mark (length (l ++ m ∷ [])) h (l ++ m ∷ []) k s
    Stands-push h l k s m below n st =
        let grown = length-append l (m ∷ []) in
        let kept : (v : ℕ)
            → k < length l
            → get_elem? l k ≡ some v
            → get_elem? (l ++ m ∷ []) k ≡ some v =
          λ v i g. get_elem?-append_left l (m ∷ []) k i ∙ g in
        elim st [
          | free o w z lo hi ↦ free o w z (omega (arith, strictly k (length l) n lo, grown)) hi
          | writing v o w lo hi g ↦ writing v o w lo (omega (arith, hi, grown)) (kept v hi g)
          | full v o w z lo hi g ↦ full v o w z lo (omega (arith, hi, grown)) (kept v hi g)
          | reading v o w z lo hi g ↦
              let strict =
                strictly (k + cap) (length l) (λ q. n (sym (mod_add cap k positive) ∙ q)) hi in
              reading v o w z lo (omega (arith, strict, grown))
                (kept v (omega (arith, lo, below)) g)
        ]

    Stands-pop :
        (t h : ℕ) (l : List ℕ) (k : ℕ) (s : Slot)
        → k % cap ≢ h % cap
        → Stands cap mark t h l k s
        → Stands cap mark t (h + 1) l k s
    Stands-pop t h l k s n st = elim st [
      | free o w z lo hi ↦ free o w z lo (omega (arith, hi))
      | writing v o w lo hi g ↦ writing v o w (omega (arith, strictly k h n lo)) hi g
      | full v o w z lo hi g ↦ full v o w z (omega (arith, strictly k h n lo)) hi g
      | reading v o w z lo hi g ↦ reading v o w z (omega (arith, lo)) hi g
    ]

    module _ (fits : cap < mark) (x : Bounded) (v : Inv cap mark x) (b : Small cap mark x) where
      index_tail :
          x.tail ≡ encode cap mark (length x.accepted)
          → index_of cap mark x.tail ≡ length x.accepted % cap
      index_tail e =
          ap (index_of cap mark) e ∙ index_of-encode cap mark positive fits (length x.accepted)

      index_head : index_of cap mark x.head ≡ x.pops % cap
      index_head = ap (index_of cap mark) v.head ∙ index_of-encode cap mark positive fits x.pops

      -- The slots after one of them has changed.
      pub slots_after :
          (t h : ℕ) (l : List ℕ) (j0 : ℕ) (s : Slot)
          → ((j : ℕ) → j ≡ j0 → (k : ℕ) × (k % cap ≡ j) × Stands cap mark t h l k s)
          → ((j : ℕ)
              → j < cap
              → j ≢ j0
              → (k : ℕ) × (k % cap ≡ j) × Stands cap mark t h l k (x.buffer j))
          → (j : ℕ) → j < cap
          → (k : ℕ) × (k % cap ≡ j) × Stands cap mark t h l k (set_slot j0 s x.buffer j)
      slots_after t h l j0 s here others j p =
          if_holds (λ z. (k : ℕ) × (k % cap ≡ j) × Stands cap mark t h l k z) (j == j0)
            (λ e. here j (ground (arith, e))) (λ e. others j p (λ q. absurd (ground (arith, e, q))))

      claimed_push :
          (m : ℕ)
          → x.tail ≡ encode cap mark (length x.accepted)
          → Good (after_push cap mark m x (push_at cap mark x))
      unfolding after_push claim_push
      claimed_push m e = elim (push_finds cap mark positive fits x v b e) [
        | room r o w z lt ↦ (
          record x {
            tail = advance cap mark x.tail;
            buffer =
                set_slot (index_of cap mark x.tail)
                  (record (x.buffer (index_of cap mark x.tail)) { owner = writer m x.tail })
                  x.buffer;
            accepted = x.accepted ++ m ∷ [];
          },
          ap (after_push cap mark m x) r ∙ ap (claim_push cap mark m x) o,
          record {
            head = v.head;
            tail = inl (
                ap (advance cap mark) e
                ∙ advance-encode cap mark positive fits (length x.accepted) (omega (arith, b))
                ∙ ap (encode cap mark) (omega (arith, length-append x.accepted (m ∷ []))));
            lower = omega (arith, v.lower, length-append x.accepted (m ∷ []));
            upper = omega (arith, lt, length-append x.accepted (m ∷ []));
            slots =
                slots_after (length (x.accepted ++ m ∷ [])) x.pops (x.accepted ++ m ∷ [])
                  (index_of cap mark x.tail)
                  (record (x.buffer (index_of cap mark x.tail)) { owner = writer m x.tail })
                  (λ j q. (
                    length x.accepted,
                    sym (index_tail e) ∙ sym q,
                    writing m (ap (writer m) e) w v.lower
                        (omega (arith, length-append x.accepted (m ∷ [])))
                        (get_elem?-append_length x.accepted m),
                  ))
                  (λ j p n.
                    let (k, r', st) = v.slots j p in
                    (
                      k,
                      r',
                      Stands-push x.pops x.accepted k (x.buffer j) m v.lower
                          (λ q. n (sym r' ∙ q ∙ sym (index_tail e))) st,
                    ));
          },
        )
        | no_room r top ↦ (x, ap (after_push cap mark m x) r, v)
        | push_busy r o ↦ (x, ap (after_push cap mark m x) r, v)
      ]

      pub closed_round :
          x.tail ≡ encode cap mark (length x.accepted) + mark → push_at cap mark x ≡ push_closed
      unfolding push_at push_round
      closed_round e =
          let m =
            ap (is_marked cap mark) e
            ∙ is_marked-marked cap mark positive fits (length x.accepted) in
          ground (arith, m)

      pub pushes-Good : (m : ℕ) → Good (act cap mark (pushes m) x)
      unfolding act after_push
      pushes-Good m = elim v.tail [
        | inl e ↦ claimed_push m e
        | inr e ↦ (x, ap (after_push cap mark m x) (closed_round e), v)
      ]

      pub pops-Good : Good (act cap mark pops x)
      unfolding act after_pop claim_pop
      pops-Good = elim (pop_finds cap mark positive fits x v b) [
        | message m r o w z lt g ↦ (
          record x {
            head = advance cap mark x.head;
            buffer =
                set_slot (index_of cap mark x.head)
                  (record (x.buffer (index_of cap mark x.head)) { owner = reader x.head }) x.buffer;
            pops = x.pops + 1;
          },
          ap (after_pop cap mark x) r ∙ ap (claim_pop cap mark x) o,
          record {
            head =
                ap (advance cap mark) v.head
                ∙ advance-encode cap mark positive fits x.pops (
                    omega (
                      arith,
                      b,
                      encode_mono cap mark positive fits x.pops (length x.accepted) v.lower,
                    ));
            tail = v.tail;
            lower = omega (arith, lt);
            upper = omega (arith, v.upper);
            slots =
                slots_after (length x.accepted) (x.pops + 1) x.accepted (index_of cap mark x.head)
                  (record (x.buffer (index_of cap mark x.head)) { owner = reader x.head })
                  (λ j q. (
                    x.pops,
                    sym index_head ∙ sym q,
                    reading m (ap reader v.head) w z (omega arith) v.upper g,
                  ))
                  (λ j p n.
                    let (k, r', st) = v.slots j p in
                    (
                      k,
                      r',
                      Stands-pop (length x.accepted) x.pops x.accepted k (x.buffer j)
                          (λ q. n (sym r' ∙ q ∙ sym index_head)) st,
                    ));
          },
        )
        | no_message r none_ ↦ empty_handed (is_marked cap mark x.tail) r
        | pop_busy r o ↦ (x, ap (after_pop cap mark x) r, v)
      ]
        where
          empty_handed :
              (c : Bool)
              → pop_at cap mark x ≡ (if c then pop_closed else pop_empty)
              → Good (after_pop cap mark x (pop_at cap mark x))
          empty_handed true r = (x, ap (after_pop cap mark x) r, v)
          empty_handed false r = (x, ap (after_pop cap mark x) r, v)
