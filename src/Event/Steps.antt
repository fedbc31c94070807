-- ===== src/Event/Steps.antt =====
-- cynthia/src/platform/event/listener.rs: what an event does to its list keeps the order.
use cynthia.Base.{
  ℕ, zero, suc, ◌+◌, ◌-◌, ◌≡◌, refl, sym, subst, Bool, true, false, leb, List, [], ◌∷◌, ◌++◌,
  length, length-append, take, drop, Bool-cases, inl, inr, arith,
}
use mathlib.Core.List.{append_assoc, append-nil}
use cynthia.Event.{created, Entry, Listeners, notify_rounds, insert, notify}
use cynthia.Event.Inv.{Ascends, Each, Inv, listeners, Ascends-insert, Each-append}
use cynthia.Event.Rounds.{marks, notify_rounds_lem}

pub make :
    (a b : List Entry) (next_id : ℕ) (woken : List ℕ)
    → Each true a
    → Each false b
    → Ascends 0 next_id (a ++ b)
    → Inv (listeners a b next_id woken)
make a b next_id woken all nobody asc = record {
  done = a;
  waits = b;
  same = refl;
  all_notified = all;
  none_notified = nobody;
  ascends = asc;
}

-- A property of a list in the form that `Inv` gives it.
pub by_lists :
    (P : Listeners → Type 0) {x : Listeners} (v : Inv x)
    → P (listeners v.done v.waits x.next_id x.woken)
    → P x
by_lists P v p = subst P (sym v.same) p

insert-listeners :
    (a b : List Entry) (next_id : ℕ) (woken : List ℕ)
    → insert (listeners a b next_id woken)
      ≡ listeners a (b ++ record { id = next_id; state = created } ∷ []) (next_id + 1) woken
unfolding insert
insert-listeners a [] next_id woken =
    let len : length a + 0 + 1 ≡ length a + 1 = omega arith in rw (append-nil a, len)
insert-listeners a (f ∷ b) next_id woken =
    let e : Entry = record { id = next_id; state = created } in
    let len : length a + length (f ∷ b) + 1 ≡ length a + length (f ∷ b ++ e ∷ []) =
      omega (arith, length-append b (e ∷ [])) in
    rw (append_assoc a (f ∷ b) (e ∷ []), len)

pub insert-Inv : {x : Listeners} → Inv x → Inv (insert x)
insert-Inv {x} v =
    let e : Entry = record { id = x.next_id; state = created } in
    let asc : Ascends 0 (x.next_id + 1) (v.done ++ (v.waits ++ e ∷ [])) =
      subst (Ascends 0 (x.next_id + 1)) (append_assoc v.done v.waits (e ∷ []))
        (Ascends-insert (v.done ++ v.waits) created 0 x.next_id v.ascends) in
    by_lists (λ y. Inv (insert y)) v
      (subst Inv (sym (insert-listeners v.done v.waits x.next_id x.woken)) (
        make v.done (v.waits ++ e ∷ []) (x.next_id + 1) x.woken v.all_notified
          (Each-append false v.waits (e ∷ []) v.none_notified (refl, tt)) asc))

Each-marks : (additional : Bool) (l : List Entry) → Each true (marks additional l)
Each-marks additional [] = tt
Each-marks additional (e ∷ l) = (refl, Each-marks additional l)

Ascends-marks :
    (additional : Bool) (n : ℕ) (a b : List Entry) (lo hi : ℕ)
    → Ascends lo hi (a ++ b)
    → Ascends lo hi ((a ++ marks additional (take n b)) ++ drop n b)
Ascends-marks additional n (f ∷ a) b lo hi h =
    (h.0, Ascends-marks additional n a b (f.id + 1) hi h.1)
Ascends-marks additional zero [] b lo hi h = h
Ascends-marks additional (suc n) [] [] lo hi h = h
Ascends-marks additional (suc n) [] (e ∷ b) lo hi h =
    (h.0, Ascends-marks additional n [] b (e.id + 1) hi h.1)

Each-drop : (v : Bool) (n : ℕ) (b : List Entry) → Each v b → Each v (drop n b)
Each-drop v zero b h = h
Each-drop v (suc n) [] h = h
Each-drop v (suc n) (e ∷ b) h = Each-drop v n b h.1

pub notify_rounds-Inv :
    (additional : Bool) (n : ℕ) {x : Listeners} → Inv x → Inv (notify_rounds additional n x)
notify_rounds-Inv additional n {x} v =
    by_lists (λ y. Inv (notify_rounds additional n y)) v
      (subst Inv (sym (notify_rounds_lem additional n v.done v.waits x.next_id x.woken v.ascends)) (
        make _ _ _ _
          (Each-append true v.done (marks additional (take n v.waits)) v.all_notified
            (Each-marks additional (take n v.waits)))
          (Each-drop false n v.waits v.none_notified)
          (Ascends-marks additional n v.done v.waits 0 x.next_id v.ascends)))

pub notify-Inv : (n : ℕ) {x : Listeners} → Inv x → Inv (notify n x)
unfolding notify
notify-Inv n {x} v = elim (Bool-cases (leb n x.notified)) [
  | inl enough ↦ rw enough v
  | inr more ↦ rw more (notify_rounds-Inv false (n - x.notified) v)
]
