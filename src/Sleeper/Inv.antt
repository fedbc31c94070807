-- ===== src/Sleeper/Inv.antt =====
-- The ids of the sleepers, and that every operation keeps them apart.
use cynthia.Base.{
  ℕ, ◌+◌, ◌<◌, ◌≡◌, refl, ap, Bool, true, ◌&&◌, if◌then◌else◌, ltb, leb, Option, none, some, List,
  [], ◌∷◌, length, arith, some_kept, ltb→lt,
}
use cynthia.Base.Machine.{Reach, Reach-Keeps}
use cynthia.Sleeper.{
  Sleeper, new, occurs, ids, insert, insert_by, remove, remove_by, remove_from, update, update_by,
  update_from, notify, Action, can, act, machine,
}
use cynthia.Sleeper.Ids.{
  occurs-erase, length-erase, remove_from-Removed, remove_from-none, update_from-ids,
  update_from-none,
}

abbrev pub total : Sleeper → ℕ
total s = length s.wakers + length s.notified + length s.free_ids

abbrev pub held : ℕ → Sleeper → ℕ
held k s = occurs k (ids s.wakers) + occurs k s.notified

-- The ids given out so far are 1, 2, … without a gap: each of them is once among the sleepers or
-- once among the free ones.
pub record Inv (s : Sleeper) : Type 0 where
  pub counted : s.count ≡ length s.wakers + length s.notified
  pub once :
      (k : ℕ) → held k s + occurs k s.free_ids ≡ (if ltb 0 k && leb k (total s) then 1 else 0)

insert_by-Inv :
    (waker : ℕ) {s : Sleeper} (free : List ℕ)
    → Inv s
    → s.free_ids ≡ free
    → Inv (insert_by waker s free).1
unfolding insert_by
insert_by-Inv waker {s} [] v e = record {
  counted = omega (arith, v.counted);
  once = λ k. ground (arith, v.counted, v.once k, e);
}
insert_by-Inv waker {s} (x ∷ rest) v e = record {
  counted = omega (arith, v.counted);
  once = λ k. ground (arith, v.once k, e);
}

pub insert-Inv : (waker : ℕ) {s : Sleeper} → Inv s → Inv (insert waker s).1
unfolding insert
insert-Inv waker {s} v = insert_by-Inv waker s.free_ids v refl

pub insert_by-fresh :
    (waker : ℕ) {s : Sleeper} (free : List ℕ)
    → Inv s
    → s.free_ids ≡ free
    → held (insert_by waker s free).0 s ≡ 0
unfolding insert_by
insert_by-fresh waker {s} [] v e = ground (arith, v.counted, v.once (s.count + 1), e)
insert_by-fresh waker {s} (x ∷ rest) v e = ground (arith, v.once x, e)

pub notify-Inv : {s : Sleeper} → Inv s → Inv (notify s).1
unfolding notify
notify-Inv v = record { counted = ground arith; once = λ k. ground (arith, v.once k) }

remove_by-Inv :
    (id : ℕ) {s : Sleeper} (o : Option (List (ℕ × ℕ)))
    → Inv s
    → 0 < held id s
    → remove_from id s.wakers ≡ o
    → Inv (remove_by id s o).1
unfolding remove_by
remove_by-Inv id {s} none v h missing =
    let here : 0 < occurs id s.notified = omega (arith, remove_from-none id s.wakers missing, h) in
    let len = length-erase id s.notified here in
    record {
      counted = omega (arith, v.counted, len);
      once = λ k. ground (arith, v.once k, occurs-erase id k s.notified here, len);
    }
remove_by-Inv id {s} (some l) v h found =
    let r = remove_from-Removed id s.wakers found in
    record {
      counted = omega (arith, v.counted, r.shorter);
      once = λ k. ground (arith, v.once k, r.counts k, r.shorter);
    }

pub remove-Inv : (id : ℕ) {s : Sleeper} → Inv s → 0 < held id s → Inv (remove id s).1
unfolding remove
remove-Inv id {s} v h = remove_by-Inv id (remove_from id s.wakers) v h refl

module _ (will_wake : ℕ → ℕ → Bool) where
  update_by-Inv :
      (id waker : ℕ) {s : Sleeper} (o : Option (List (ℕ × ℕ)))
      → Inv s
      → 0 < held id s
      → update_from will_wake id waker s.wakers ≡ o
      → Inv (update_by will_wake id waker s o).1
  unfolding update_by
  update_by-Inv id waker {s} none v h missing =
      let here : 0 < occurs id s.notified =
        omega (arith, update_from-none will_wake id waker s.wakers missing, h) in
      let len = length-erase id s.notified here in
      record {
        counted = omega (arith, v.counted, len);
        once = λ k. ground (arith, v.once k, occurs-erase id k s.notified here, len);
      }
  update_by-Inv id waker {s} (some l) v h found =
      let (same, len) = update_from-ids will_wake id waker s.wakers found in
      record {
        counted = omega (arith, v.counted, len);
        once = λ k. ground (arith, v.once k, ap (λ i. occurs k i) same, len);
      }

  pub update-Inv :
      (id waker : ℕ) {s : Sleeper} → Inv s → 0 < held id s → Inv (update will_wake id waker s).1
  unfolding update
  update-Inv id waker {s} v h =
      update_by-Inv id waker (update_from will_wake id waker s.wakers) v h refl

  step-Inv :
      (a : Action) (s s' : Sleeper) → Inv s → can a s ≡ true → act will_wake a s ≡ some s' → Inv s'
  unfolding can act
  step-Inv (Action.inserts waker) s s' v h e = some_kept Inv _ e (insert-Inv waker v)
  step-Inv (Action.removes id) s s' v h e = some_kept Inv _ e (remove-Inv id v (ltb→lt _ _ h))
  step-Inv (Action.updates id waker) s s' v h e =
      some_kept Inv _ e (update-Inv id waker v (ltb→lt _ _ h))
  step-Inv Action.notifies s s' v h e = some_kept Inv _ e (notify-Inv v)

pub new-Inv : Inv new
unfolding new
new-Inv = record { counted = refl; once = λ k. ground arith }

pub Reach-Inv : (will_wake : ℕ → ℕ → Bool) {s : Sleeper} → Reach (machine will_wake) s → Inv s
Reach-Inv will_wake =
    Reach-Keeps (machine will_wake) Inv
      (record { at_first = new-Inv; at_step = step-Inv will_wake })
