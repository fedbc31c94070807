-- ===== src/Queue/Bounded/Finds.antt =====
-- cynthia/src/platform/queue/bounded.rs: what the slot at either end of the queue shows to a round.
use cynthia.Base.{
  ℕ, ◌+◌, ◌-◌, ◌%◌, ◌≤◌, ◌<◌, ◌≡◌, ◌≢◌, inl, inr, sym, ap, ◌∙◌, length, get_elem?, subst,
  if◌then◌else◌, arith,
}
use cynthia.Queue.Bounded.{Bounded, one_lap, index_of, is_marked, unmarked, push_at, pop_at}
use cynthia.Queue.Bounded.Position.{
  encode, same_residue, index_of-encode, encode_injective, encode_lap, encode_mono,
  is_marked-encode, is_marked-marked, mod_lt, mod_add, full_stamp,
}
use cynthia.Queue.Bounded.Inv.{free, writing, full, reading, Inv, At, Small}
use cynthia.Queue.Bounded.Rounds.{
  round_claims, round_full, round_behind, round_busy, pop_round_claims, pop_round_empty,
  pop_round_behind, pop_round_busy, PushFinds, room, no_room, push_busy, PopFinds, message,
  no_message, pop_busy,
}

module _ (cap mark : ℕ) where
  module _ (positive : 0 < cap) (fits : cap < mark) (x : Bounded) (v : Inv cap mark x)
      (b : Small cap mark x) where
    abbrev t : ℕ
    t = length x.accepted

    enc : ℕ → ℕ
    enc k = encode cap mark k

    tail_slot : x.tail ≡ encode cap mark t → At cap mark x (index_of cap mark x.tail)
    tail_slot e =
        let i = ap (index_of cap mark) e ∙ index_of-encode cap mark positive fits t in
        subst (At cap mark x) (sym i) (v.slots (t % cap) (mod_lt cap t positive))

    -- A slot of the end of the queue that is in use is in use for the position one lap earlier.
    one_lap_before : (k : ℕ) → k % cap ≡ t % cap → k < t → t ≤ k + cap → t ≡ k + cap
    one_lap_before k r l u =
        same_residue cap t (k + cap) (sym r ∙ sym (mod_add cap k positive)) u (omega (arith, l))

    lap_later : (k : ℕ) → t ≡ k + cap → encode cap mark k + one_lap cap mark ≡ encode cap mark t
    lap_later k e = sym (encode_lap cap mark positive fits k) ∙ ap (encode cap mark) (sym e)

    other_word : (a k : ℕ) → a ≢ k → encode cap mark a ≢ encode cap mark k
    other_word a k n e = n (encode_injective cap mark positive fits a k e)

    pub push_finds : x.tail ≡ encode cap mark t → PushFinds cap mark x
    unfolding push_at
    push_finds e =
        let (k, r, st) = tail_slot e in
        let i = ap (index_of cap mark) e ∙ index_of-encode cap mark positive fits t in
        let open_ = ap (is_marked cap mark) e ∙ is_marked-encode cap mark positive fits t in
        let stamp = (x.buffer (index_of cap mark x.tail)).stamp in
        elim st [
          | free o s n lo hi ↦
              let same = same_residue cap t k (sym (r ∙ i)) lo (omega (arith, hi, v.lower)) in
              let at_ = s ∙ ap (encode cap mark) (sym same) in
              room (round_claims cap mark x.head x.tail stamp open_ (e ∙ sym at_)) o at_ n
                (omega (arith, same, hi))
          | writing m o s lo hi g ↦
              let lap = one_lap_before k (r ∙ i) hi (omega (arith, lo, v.upper)) in
              let later = lap_later k lap in
              push_busy
                (round_busy cap mark x.head x.tail stamp open_
                  (λ q. other_word t k (λ z. absurd (omega (arith, z, hi))) (sym e ∙ q ∙ s))
                  (λ q. absurd (omega (arith, q, s, later, e, b))))
                (λ q. cc (sym o ∙ q))
          | full m o s w lo hi g ↦
              let lap = one_lap_before k (r ∙ i) hi (omega (arith, lo, v.upper)) in
              let later = lap_later k lap in
              let top : t ≡ x.pops + cap = omega (arith, lap, lo, v.upper) in
              let first = lap_later x.pops top in
              no_room
                (round_full cap mark x.head x.tail stamp open_
                  (λ q. full_stamp cap mark positive fits k t (r ∙ i) (sym s ∙ sym q ∙ e))
                  (omega (arith, s, later, e, b)) (omega (arith, first, v.head, e, b)))
                top
          | reading m o s w lo hi g ↦
              let lap = one_lap_before k (r ∙ i) (omega (arith, lo, v.lower)) hi in
              let later = lap_later k lap in
              push_busy
                (round_behind cap mark x.head x.tail stamp open_
                  (λ q. full_stamp cap mark positive fits k t (r ∙ i) (sym s ∙ sym q ∙ e))
                  (omega (arith, s, later, e, b))
                  (λ q.
                    other_word (x.pops + cap) t (λ z. absurd (omega (arith, z, lap, lo)))
                      (omega (
                        arith,
                        q,
                        v.head,
                        encode_lap cap mark positive fits x.pops,
                        e,
                        b,
                        encode_mono cap mark positive fits x.pops t v.lower,
                      ))))
                (λ q. cc (sym o ∙ q))
        ]

    head_slot : At cap mark x (index_of cap mark x.head)
    head_slot =
        let i = ap (index_of cap mark) v.head ∙ index_of-encode cap mark positive fits x.pops in
        subst (At cap mark x) (sym i) (v.slots (x.pops % cap) (mod_lt cap x.pops positive))

    pub unmarked-tail : unmarked cap mark x.tail ≡ encode cap mark t
    unfolding unmarked
    unmarked-tail = elim v.tail [
      | inl e ↦
          let m = ap (is_marked cap mark) e ∙ is_marked-encode cap mark positive fits t in
          ap (λ c. if c then x.tail - mark else x.tail) m ∙ e
      | inr e ↦
          let m = ap (is_marked cap mark) e ∙ is_marked-marked cap mark positive fits t in
          ap (λ c. if c then x.tail - mark else x.tail) m ∙ omega (arith, e)
    ]

    pub pop_finds : PopFinds cap mark x
    unfolding pop_at
    pop_finds =
        let (k, r, st) = head_slot in
        let i = ap (index_of cap mark) v.head ∙ index_of-encode cap mark positive fits x.pops in
        let stamp = (x.buffer (index_of cap mark x.head)).stamp in
        elim st [
          | free o s n lo hi ↦
              let same = same_residue cap x.pops k (sym (r ∙ i)) (omega (arith, lo, v.lower)) hi in
              let none_ : t ≡ x.pops = omega (arith, same, lo, v.lower) in
              let at_ = s ∙ ap (encode cap mark) (sym same) in
              no_message
                (pop_round_empty cap mark x.head x.tail stamp
                  (λ q. absurd (omega (arith, q, at_, v.head))) (at_ ∙ sym v.head)
                  (unmarked-tail ∙ ap (encode cap mark) none_ ∙ sym v.head))
                none_
          | writing m o s lo hi g ↦
              let same = same_residue cap x.pops k (sym (r ∙ i)) lo (omega (arith, hi, v.upper)) in
              let at_ = s ∙ ap (encode cap mark) (sym same) in
              pop_busy
                (pop_round_behind cap mark x.head x.tail stamp
                  (λ q. absurd (omega (arith, q, at_, v.head))) (at_ ∙ sym v.head)
                  (λ q.
                    other_word t x.pops (λ z. absurd (omega (arith, z, hi, same)))
                      (sym unmarked-tail ∙ q ∙ v.head)))
                (λ q. cc (sym o ∙ q))
          | full m o s w lo hi g ↦
              let same = same_residue cap x.pops k (sym (r ∙ i)) lo (omega (arith, hi, v.upper)) in
              let at_ = s ∙ ap (λ n. encode cap mark n + 1) (sym same) in
              message m (pop_round_claims cap mark x.head x.tail stamp (omega (arith, at_, v.head)))
                o at_ w (omega (arith, same, hi)) (ap (get_elem? x.accepted) same ∙ g)
          | reading m o s w lo hi g ↦
              let lap : x.pops ≡ k + cap =
                same_residue cap x.pops (k + cap) (sym (r ∙ i) ∙ sym (mod_add cap k positive))
                  (omega (arith, hi, v.lower)) (omega (arith, lo)) in
              pop_busy
                (pop_round_busy cap mark x.head x.tail stamp
                  (λ q.
                    other_word x.pops k (λ z. absurd (omega (arith, z, lo)))
                      (omega (arith, q, s, v.head)))
                  (λ q. full_stamp cap mark positive fits k x.pops (r ∙ i) (sym s ∙ q ∙ v.head)))
                (λ q. cc (sym o ∙ q))
        ]
