-- ===== src/Queue/Bounded/Ends.antt =====
-- cynthia/src/platform/queue/bounded.rs: what the stamp of the slot at an end of the queue says.
use cynthia.Base.{ℕ, ◌+◌, ◌%◌, ◌≤◌, ◌<◌, ◌≡◌, sym, ap, ◌∙◌, subst, length, dec_lt, arith}
use cynthia.Queue.Bounded.{Bounded, one_lap, index_of}
use cynthia.Queue.Bounded.Position.{
  encode, encode_lap, encode_mono, index_of-encode, mod_lt, same_residue,
}
use cynthia.Queue.Bounded.Inv.{free, writing, full, reading, Inv, At, Small}

module _ (cap mark : ℕ) (positive : 0 < cap) (fits : cap < mark) (x : Bounded) (v : Inv cap mark x)
    (b : Small cap mark x) where
  abbrev t : ℕ
  t = length x.accepted

  slot_of : (p k : ℕ) → p ≡ encode cap mark k → At cap mark x (index_of cap mark p)
  slot_of p k e =
      let i = ap (index_of cap mark) e ∙ index_of-encode cap mark positive fits k in
      subst (At cap mark x) (sym i) (v.slots (k % cap) (mod_lt cap k positive))

  -- A position of the present lap has a word above those of the lap before.
  lap_before :
      (a k : ℕ)
      → k % cap ≡ a % cap
      → k < a
      → encode cap mark k + one_lap cap mark ≤ encode cap mark a
  lap_before a k r l = elim (dec_lt a (k + cap)) [
    | yes near ↦ absurd (omega (arith, l, same_residue cap k a r (omega (arith, l)) near))
    | no far ↦ omega (
      arith,
      encode_lap cap mark positive fits k,
      encode_mono cap mark positive fits (k + cap) a (omega (arith, far)),
    )
  ]

  -- The slot at an open end is free if its stamp has come so far.
  pub free_end :
      x.tail ≡ encode cap mark t
      → x.tail ≤ (x.buffer (index_of cap mark x.tail)).stamp
      → (x.tail ≡ (x.buffer (index_of cap mark x.tail)).stamp) × (t < x.pops + cap)
  free_end e far =
      let (k, r, st) = slot_of x.tail t e in
      let i = ap (index_of cap mark) e ∙ index_of-encode cap mark positive fits t in
      elim st [
        | free o s n lo hi ↦
            let same = same_residue cap t k (sym (r ∙ i)) lo (omega (arith, hi, v.lower)) in
            (e ∙ ap (encode cap mark) same ∙ sym s, omega (arith, same, hi))
        | writing m o s lo hi g ↦ absurd (omega (arith, far, e, s, fits, lap_before t k (r ∙ i) hi))
        | full m o s w lo hi g ↦ absurd (omega (arith, far, e, s, fits, lap_before t k (r ∙ i) hi))
        | reading m o s w lo hi g ↦
            absurd
              (omega (arith, far, e, s, fits, lap_before t k (r ∙ i) (omega (arith, lo, v.lower))))
      ]

  -- The slot at the front holds a value if its stamp has come so far.
  pub full_front :
      x.head + 1 ≤ (x.buffer (index_of cap mark x.head)).stamp
      → (x.head + 1 ≡ (x.buffer (index_of cap mark x.head)).stamp) × (x.pops < t)
  full_front far =
      let h = x.pops in
      let (k, r, st) = slot_of x.head h v.head in
      let i = ap (index_of cap mark) v.head ∙ index_of-encode cap mark positive fits h in
      elim st [
        | free o s n lo hi ↦
            let same = same_residue cap h k (sym (r ∙ i)) (omega (arith, lo, v.lower)) hi in
            absurd (omega (arith, far, v.head, s, ap (encode cap mark) same))
        | writing m o s lo hi g ↦
            let same = same_residue cap h k (sym (r ∙ i)) lo (omega (arith, hi, v.upper)) in
            absurd (omega (arith, far, v.head, s, ap (encode cap mark) same))
        | full m o s w lo hi g ↦
            let same = same_residue cap h k (sym (r ∙ i)) lo (omega (arith, hi, v.upper)) in
            (omega (arith, v.head, s, ap (encode cap mark) same), omega (arith, same, hi))
        | reading m o s w lo hi g ↦
            absurd (omega (arith, far, v.head, s, fits, lap_before h k (r ∙ i) lo))
      ]
