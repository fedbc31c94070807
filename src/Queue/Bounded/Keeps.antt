-- ===== src/Queue/Bounded/Keeps.antt =====
-- cynthia/src/platform/queue/bounded.rs: every step goes well, and keeps what holds of the slots.
use cynthia.Base.{
  ℕ, ◌+◌, ◌%◌, ◌<◌, ◌≡◌, inl, inr, refl, sym, ap, ◌∙◌, Bool, true, false, none, some, length,
  if◌then◌else◌, ltb, arith,
}
use cynthia.Base.Word.{wrapping_add}
use cynthia.Queue.Bounded.{
  Slot, nobody, Bounded, Action, pushes, pops, closes, writes, reads, can, act, one_lap, is_marked,
  finish_push, finish_pop, read_value, close, set_slot, has_writer, has_reader,
}
use cynthia.Queue.Bounded.Position.{
  encode, encode_lap, encode_mono, is_marked-encode, is_marked-marked, mod_add,
}
use cynthia.Queue.Bounded.Inv.{Stands, free, writing, full, reading, Inv, Small}
use cynthia.Queue.Bounded.Claims.{Good, slots_after, pushes-Good, pops-Good}

module _ (cap mark : ℕ) (positive : 0 < cap) (fits : cap < mark) (x : Bounded) (v : Inv cap mark x)
    (b : Small cap mark x) where
  -- A step that changes one slot only.
  slot_changed :
      (j : ℕ) (s : Slot) (k : ℕ)
      → k % cap ≡ j
      → Stands cap mark (length x.accepted) x.pops x.accepted k s
      → Inv cap mark (record x { buffer = set_slot j s x.buffer })
  slot_changed j s k r st = record {
    head = v.head;
    tail = v.tail;
    lower = v.lower;
    upper = v.upper;
    slots =
        slots_after cap mark positive fits x v b (length x.accepted) x.pops x.accepted j s
          (λ i q. (k, r ∙ sym q, st)) (λ i p n. v.slots i p);
  }

  writes-Good :
      (j : ℕ)
      → j < cap
      → has_writer (x.buffer j).owner ≡ true
      → Good cap mark (finish_push cap mark j x (x.buffer j).owner)
  unfolding finish_push
  writes-Good j p h =
      let (k, r, st) = v.slots j p in
      elim st [
        | free o w z lo hi ↦ cc (sym h ∙ ap has_writer o)
        | writing m o w lo hi g ↦ (
          record x {
            buffer =
                set_slot j
                  (record { stamp = encode cap mark k + 1; value = some m; owner = nobody })
                  x.buffer;
          },
          ap (finish_push cap mark j x) o,
          slot_changed j (record { stamp = encode cap mark k + 1; value = some m; owner = nobody })
              k r (full m refl refl refl lo hi g),
        )
        | full m o w z lo hi g ↦ cc (sym h ∙ ap has_writer o)
        | reading m o w z lo hi g ↦ cc (sym h ∙ ap has_writer o)
      ]

  reads-Good :
      (j : ℕ)
      → j < cap
      → has_reader (x.buffer j).owner ≡ true
      → Good cap mark (finish_pop cap mark j x (x.buffer j).owner)
  unfolding finish_pop read_value
  reads-Good j p h =
      let (k, r, st) = v.slots j p in
      elim st [
        | free o w z lo hi ↦ cc (sym h ∙ ap has_reader o)
        | writing m o w lo hi g ↦ cc (sym h ∙ ap has_reader o)
        | full m o w z lo hi g ↦ cc (sym h ∙ ap has_reader o)
        | reading m o w z lo hi g ↦
            let next : wrapping_add (encode cap mark k) (one_lap cap mark)
                ≡ encode cap mark (k + cap) =
              omega (
                arith,
                encode_lap cap mark positive fits k,
                b,
                encode_mono cap mark positive fits k (length x.accepted)
                    (omega (arith, lo, v.lower)),
              ) in
            (
              record x {
                buffer =
                    set_slot j
                      (record {
                        stamp = wrapping_add (encode cap mark k) (one_lap cap mark);
                        value = none;
                        owner = nobody;
                      })
                      x.buffer;
              },
              ap (finish_pop cap mark j x) o ∙ ap (read_value cap mark j (encode cap mark k) x) z,
              slot_changed j
                  (record {
                    stamp = wrapping_add (encode cap mark k) (one_lap cap mark);
                    value = none;
                    owner = nobody;
                  })
                  (k + cap) (mod_add cap k positive ∙ r)
                  (free refl next refl hi (omega (arith, lo))),
            )
      ]

  closes-Good : Good cap mark (some (close cap mark x))
  unfolding close
  closes-Good = elim v.tail [
    | inl e ↦
        let m =
          ap (is_marked cap mark) e ∙ is_marked-encode cap mark positive fits (length x.accepted) in
        (
          record x { tail = x.tail + mark },
          ap (λ c. some (if c then x else record x { tail = x.tail + mark })) m,
          record {
            head = v.head;
            tail = inr (ap (λ n. n + mark) e);
            lower = v.lower;
            upper = v.upper;
            slots = v.slots;
          },
        )
    | inr e ↦
        let m =
          ap (is_marked cap mark) e ∙ is_marked-marked cap mark positive fits (length x.accepted) in
        (x, ap (λ c. some (if c then x else record x { tail = x.tail + mark })) m, v)
  ]

  pub guarded : (c d : Bool) → (if c then d else false) ≡ true → (c ≡ true) × (d ≡ true)
  guarded true d h = (refl, h)
  guarded false d h = cc h

  -- A step that may be made goes well.
  pub act-Good : (a : Action) → can cap mark a x ≡ true → Good cap mark (act cap mark a x)
  unfolding can act
  act-Good (pushes m) h = pushes-Good cap mark positive fits x v b m
  act-Good pops h = pops-Good cap mark positive fits x v b
  act-Good closes h = closes-Good
  act-Good (writes j) h =
      let (p, w) = guarded (ltb j cap) (has_writer (x.buffer j).owner) h in
      writes-Good j (ground (arith, p)) w
  act-Good (reads j) h =
      let (p, w) = guarded (ltb j cap) (has_reader (x.buffer j).owner) h in
      reads-Good j (ground (arith, p)) w
