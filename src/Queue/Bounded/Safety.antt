-- ===== src/Queue/Bounded/Safety.antt =====
-- cynthia/src/platform/queue/bounded.rs: no slot is used by two threads, and values come out in the
-- order they went in.
use cynthia.Base.{
  ℕ, ◌<◌, ◌≡◌, ◌≢◌, inl, refl, sym, ap, ◌∙◌, true, none, some, some_kept, length, get_elem?, arith,
}
use cynthia.Base.Machine.{Reach, Reach-Keeps}
use cynthia.Queue.Bounded.{Owner, nobody, writer, reader, Bounded, Action, can, act, machine, new}
use cynthia.Queue.Bounded.Position.{
  encode, decode, decode-encode, encode_mono, mod_first, encode_first,
}
use cynthia.Queue.Bounded.Inv.{free, writing, full, reading, Inv, Small}
use cynthia.Queue.Bounded.Growth.{act-Grows}
use cynthia.Queue.Bounded.Keeps.{act-Good}

module _ (cap mark : ℕ) where
  module _ (positive : 0 < cap) (fits : cap < mark) where
    Kept : Bounded → Type 0
    Kept x = Small cap mark x → Inv cap mark x

    act-Kept :
        (a : Action) (x y : Bounded)
        → Kept x
        → can cap mark a x ≡ true
        → act cap mark a x ≡ some y
        → Kept y
    unfolding Kept
    act-Kept a x y k h e small =
        let more =
          encode_mono cap mark positive fits (length x.accepted) (length y.accepted)
            (act-Grows cap mark a x y e) in
        let b : Small cap mark x = omega (arith, small, more) in
        let (z, q, v) = act-Good cap mark positive fits x (k b) b a h in
        some_kept (Inv cap mark) z (sym q ∙ e) v

    new-Kept : Kept new
    unfolding Kept new
    new-Kept small = record {
      head = sym (encode_first cap mark positive fits 0 positive);
      tail = inl (sym (encode_first cap mark positive fits 0 positive));
      lower = omega arith;
      upper = omega arith;
      slots = λ j p. (
        j,
        mod_first cap j p,
        free refl (sym (encode_first cap mark positive fits j p)) refl (omega arith)
            (omega (arith, p)),
      );
    }

    pub Reach-Inv : {x : Bounded} → Reach (machine cap mark) x → Small cap mark x → Inv cap mark x
    unfolding Kept
    Reach-Inv =
        Reach-Keeps (machine cap mark) Kept (record { at_first = new-Kept; at_step = act-Kept })

    module _ {x : Bounded} (r : Reach (machine cap mark) x) (small : Small cap mark x) where
      -- While no word has wrapped round, every step that may be made goes well: no slot is claimed that
      -- another thread uses, and no value is read that is not initialised.
      pub never_faults : (a : Action) → can cap mark a x ≡ true → act cap mark a x ≢ none
      never_faults a h e =
          let (y, q, w) = act-Good cap mark positive fits x (Reach-Inv r small) small a h in
          cc (sym q ∙ e)

      -- While no word has wrapped round: a pop that claims has the word of its number for its variable,
      -- and the slot that a pop is reading holds the value that was pushed under the number of that
      -- pop.
      pub pops_in_order :
          (x.head ≡ encode cap mark x.pops)
          × ((j p : ℕ)
              → j < cap
              → (x.buffer j).owner ≡ reader p
              → (v : ℕ) × ((x.buffer j).value ≡ some v)
                × (get_elem? x.accepted (decode cap mark p) ≡ some v))
      pops_in_order = ((Reach-Inv r small).head, read_right)
        where
          of_reader : Owner → ℕ
          of_reader nobody = 0
          of_reader (writer v p) = 0
          of_reader (reader p) = p

          read_right :
              (j p : ℕ)
              → j < cap
              → (x.buffer j).owner ≡ reader p
              → (v : ℕ) × ((x.buffer j).value ≡ some v)
                × (get_elem? x.accepted (decode cap mark p) ≡ some v)
          read_right j p l e =
              let (k, q, st) = (Reach-Inv r small).slots j l in
              elim st [
                | free o w z lo hi ↦ cc (sym o ∙ e)
                | writing m o w lo hi g ↦ cc (sym o ∙ e)
                | full m o w z lo hi g ↦ cc (sym o ∙ e)
                | reading m o w z lo hi g ↦
                    let here : p ≡ encode cap mark k = ap of_reader (sym e ∙ o) in
                    (
                      m,
                      z,
                      ap (λ n. get_elem? x.accepted (decode cap mark n)) here
                          ∙ ap (get_elem? x.accepted) (decode-encode cap mark positive fits k)
                          ∙ g,
                    )
              ]
