-- ===== src/Event/Safety.antt =====
-- cynthia/src/platform/event/listener.rs: what an event promises.
use cynthia.Base.{
  ℕ, zero, suc, ◌+◌, ◌-◌, ◌≤◌, ◌<◌, ◌≡◌, refl, sym, ap, subst, ◌∙◌, min, Bool, true, false, leb,
  ltb, if◌then◌else◌, none, List, [], ◌∷◌, length, length-append, length-take, take, Bool-cases,
  inl, inr, arith,
}
use cynthia.Base.Word.{usize_max}
use cynthia.Base.Machine.{Reach}
use cynthia.Event.{
  State, notified, state_of, has, remove, hand_on, drop_listener, Entry, Listeners, first_id,
  notify_rounds, notify, notify_additional, event_notify, event_notify_additional,
}
use cynthia.Event.Inv.{Inv}
use cynthia.Event.Rounds.{marks, notify_rounds_lem}
use cynthia.Event.Places.{remove-Inv}
use cynthia.Event.System.{machine, Reach-Inv}

length-marks : (additional : Bool) (l : List Entry) → length (marks additional l) ≡ length l
length-marks additional [] = refl
length-marks additional (e ∷ l) = ap suc (length-marks additional l)

-- The rounds notify as many as there are, up to their number.
rounds-count :
    (additional : Bool) (n : ℕ) {x : Listeners}
    → Inv x
    → (notify_rounds additional n x).notified ≡ min (x.notified + n) x.len
rounds-count additional n {x} v =
    let told = take n v.waits in
    let same =
      ap (λ y. (notify_rounds additional n y).notified) v.same
      ∙ ap (λ y. y.notified)
          (notify_rounds_lem additional n v.done v.waits x.next_id x.woken v.ascends) in
    let count = ap (λ y. y.notified) v.same in
    let len = ap (λ y. y.len) v.same in
    omega (
      arith,
      same,
      count,
      len,
      length-append v.done (marks additional told),
      length-marks additional told,
      length-take n v.waits,
    )

-- What `notify` leaves notified.
notify-min :
    (n : ℕ) {x : Listeners}
    → Inv x
    → (notify n x).notified ≡ (if leb n x.notified then x.notified else min n x.len)
unfolding notify
notify-min n {x} v = elim (Bool-cases (leb n x.notified)) [
  | inl enough ↦ rw enough
  | inr more ↦ rw more (ground (arith, rounds-count false (n - x.notified) v, more))
]

empty : (l : List Entry) → length l ≤ 0 → first_id l ≡ none
empty [] h = refl
empty (e ∷ l) h = absurd (omega (arith, h))

no_start :
    (additional : Bool) (n : ℕ) (x : Listeners) → x.start ≡ none → notify_rounds additional n x ≡ x
unfolding notify_rounds
no_start additional zero x e = refl
no_start additional (suc n) x e = rw e

-- With every listener notified the rounds change nothing.
rounds-full :
    (additional : Bool) (n : ℕ) {x : Listeners}
    → Inv x
    → x.len ≤ x.notified
    → notify_rounds additional n x ≡ x
rounds-full additional n {x} v h =
    let count = ap (λ y. y.notified) v.same in
    let len = ap (λ y. y.len) v.same in
    no_start additional n x
      (ap (λ y. y.start) v.same ∙ empty v.waits (omega (arith, h, count, len)))

fewer : (i : ℕ) (x : Listeners) → 1 < x.len → 0 < ((remove i x).1).len
unfolding remove
fewer i x h = omega (arith, h)

handed :
    (q : State × Listeners) (additional : Bool)
    → Inv q.1
    → q.0 ≡ notified additional
    → 0 < (q.1).len
    → 0 < (hand_on q).notified
unfolding hand_on notify_additional
handed (st, x) true v is h =
    subst (λ s. 0 < (hand_on (s, x)).notified) (sym is) (omega (arith, h, rounds-count true 1 v))
handed (st, x) false v is h =
    subst (λ s. 0 < (hand_on (s, x)).notified) (sym is) (ground (arith, h, notify-min 1 v))

module _ (will_wake : ℕ → ℕ → Bool) {x : Listeners} (r : Reach (machine will_wake) x) where
  -- In every reachable state: after `notify(n)` at least `n` listeners are notified, or all; after
  -- `notify_additional(n)` it is `n` more, or all.
  pub notify-count :
      (n : ℕ)
      → ((notify n x).notified ≡ (if leb n x.notified then x.notified else min n x.len))
        × ((notify_additional n x).notified ≡ min (x.notified + n) x.len)
  unfolding notify_additional
  notify-count n = let v = Reach-Inv will_wake r in (notify-min n v, rounds-count true n v)

  -- The number that the lock's guard leaves for `Event` to read saves only calls that change
  -- nothing, while there are fewer listeners than `usize::MAX`.
  pub hint-saves :
      (n : ℕ)
      → x.len < usize_max
      → n ≤ usize_max
      → (event_notify n x ≡ notify n x) × (event_notify_additional n x ≡ notify_additional n x)
  unfolding event_notify event_notify_additional notify notify_additional notify_rounds
  hint-saves n short h =
      let v = Reach-Inv will_wake r in
      elim (Bool-cases (ltb x.notified x.len)) [
        | inl some_wait ↦
            let room : ltb x.notified usize_max ≡ true = ground (arith, some_wait, short) in
            (
              elim (Bool-cases (ltb x.notified n)) [
                | inl more ↦ rw (some_wait, more)
                | inr enough ↦
                    let le : leb n x.notified ≡ true = ground (arith, enough) in
                    rw (some_wait, enough, le)
              ],
              rw (some_wait, room),
            )
        | inr none_waits ↦
            let full : x.len ≤ x.notified = ground (arith, none_waits) in
            let not_above : ltb usize_max n ≡ false = ground (arith, h) in
            (
              rw (none_waits, not_above)
                  (elim (Bool-cases (leb n x.notified)) [
                    | inl enough ↦ rw enough
                    | inr more ↦ rw more (sym (rounds-full false (n - x.notified) v full))
                  ]),
              rw none_waits (sym (rounds-full true n v full)),
            )
      ]

  -- A notified listener that is dropped hands its notification on: if there is another listener,
  -- one is notified afterwards.
  pub drop-hands_on :
      (i : ℕ) (additional : Bool)
      → has i x.entries ≡ true
      → state_of i x.entries ≡ notified additional
      → 1 < x.len
      → 0 < (drop_listener i x).notified
  unfolding drop_listener
  drop-hands_on i additional h is others =
      let v = remove-Inv i (Reach-Inv will_wake r) h in
      handed (remove i x) additional v is (fewer i x others)
