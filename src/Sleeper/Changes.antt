-- ===== src/Sleeper/Changes.antt =====
-- How each operation changes who sleeps and who was notified.
use cynthia.Base.{
  ℕ, ◌+◌, ◌<◌, ◌≡◌, refl, ap, Bool, true, false, if◌then◌else◌, ◌==◌, Option, none, some, List, [],
  ◌∷◌, arith,
}
use cynthia.Sleeper.{
  Sleeper, occurs, insert, insert_by, remove, remove_by, remove_from, update, update_by,
  update_from, notify, is_notified,
}
use cynthia.Sleeper.Ids.{
  occurs-erase, remove_from-Removed, remove_from-none, update_from-ids, update_from-none,
}
use cynthia.Sleeper.Inv.{Inv, held}

abbrev pub one_if : ℕ → ℕ → ℕ
one_if id k = if id == k then 1 else 0

insert_by-held :
    (waker : ℕ) (s : Sleeper) (free : List ℕ) (k : ℕ)
    → held k (insert_by waker s free).1 ≡ held k s + one_if (insert_by waker s free).0 k
unfolding insert_by
insert_by-held waker s [] k = ground arith
insert_by-held waker s (x ∷ rest) k = ground arith

pub insert-held :
    (waker : ℕ) (s : Sleeper) (k : ℕ)
    → held k (insert waker s).1 ≡ held k s + one_if (insert waker s).0 k
unfolding insert
insert-held waker s k = insert_by-held waker s s.free_ids k

insert_by-pos :
    (waker : ℕ) {s : Sleeper} (free : List ℕ)
    → Inv s
    → s.free_ids ≡ free
    → 0 < (insert_by waker s free).0
unfolding insert_by
insert_by-pos waker [] v e = omega arith
insert_by-pos waker (x ∷ rest) v e = ground (arith, v.once x, e)

-- Ids are positive: 0 stands for a ticker that does not sleep.
pub insert-pos : (waker : ℕ) {s : Sleeper} → Inv s → 0 < (insert waker s).0
unfolding insert
insert-pos waker {s} v = insert_by-pos waker s.free_ids v refl

pub notify-held : (s : Sleeper) (k : ℕ) → held k (notify s).1 ≡ held k s
unfolding notify
notify-held s k = ground arith

pub notify-is_notified : {s : Sleeper} → Inv s → is_notified (notify s).1 ≡ true
unfolding notify is_notified
notify-is_notified v = ground (arith, v.counted)

module _ (id : ℕ) (s : Sleeper) (here : 0 < held id s) where
  remove_by-held :
      (o : Option (List (ℕ × ℕ))) (k : ℕ)
      → remove_from id s.wakers ≡ o
      → held k (remove_by id s o).1 + one_if id k ≡ held k s
  unfolding remove_by
  remove_by-held none k missing = omega (
    arith,
    occurs-erase id k s.notified (omega (arith, remove_from-none id s.wakers missing, here)),
  )
  remove_by-held (some l) k found = omega (arith, (remove_from-Removed id s.wakers found).counts k)

  pub remove-held : (k : ℕ) → held k (remove id s).1 + one_if id k ≡ held k s
  unfolding remove
  remove-held k = remove_by-held (remove_from id s.wakers) k refl

  remove_by-is_notified :
      (o : Option (List (ℕ × ℕ)))
      → Inv s
      → remove_from id s.wakers ≡ o
      → (remove_by id s o).0 ≡ false
      → is_notified s ≡ true
      → is_notified (remove_by id s o).1 ≡ true
  unfolding remove_by is_notified
  remove_by-is_notified none v missing e h = ground arith
  remove_by-is_notified (some l) v found e h =
      let shorter = (remove_from-Removed id s.wakers found).shorter in
      ground (arith, v.counted, shorter, h)

  -- A sleeper that leaves without having been notified leaves the notified ones.
  pub remove-is_notified :
      Inv s → (remove id s).0 ≡ false → is_notified s ≡ true → is_notified (remove id s).1 ≡ true
  unfolding remove
  remove-is_notified v e h = remove_by-is_notified (remove_from id s.wakers) v refl e h

module _ (will_wake : ℕ → ℕ → Bool) (id waker : ℕ) (s : Sleeper) (here : 0 < held id s) where
  update_by-held :
      (o : Option (List (ℕ × ℕ))) (k : ℕ)
      → update_from will_wake id waker s.wakers ≡ o
      → held k (update_by will_wake id waker s o).1 ≡ held k s
  unfolding update_by
  update_by-held none k missing = omega (
    arith,
    occurs-erase id k s.notified
        (omega (arith, update_from-none will_wake id waker s.wakers missing, here)),
  )
  update_by-held (some l) k found =
      omega (arith, ap (λ i. occurs k i) (update_from-ids will_wake id waker s.wakers found).0)

  pub update-held : (k : ℕ) → held k (update will_wake id waker s).1 ≡ held k s
  unfolding update
  update-held k = update_by-held (update_from will_wake id waker s.wakers) k refl

  update_by-same :
      (o : Option (List (ℕ × ℕ)))
      → update_from will_wake id waker s.wakers ≡ o
      → (update_by will_wake id waker s o).0 ≡ false
      → is_notified (update_by will_wake id waker s o).1 ≡ is_notified s
  unfolding update_by is_notified
  update_by-same none missing e = ground arith
  update_by-same (some l) found e =
      let len = (update_from-ids will_wake id waker s.wakers found).1 in ground (arith, len)

  -- An update of a sleeper that was not notified changes only its waker.
  pub update-same :
      (update will_wake id waker s).0 ≡ false
      → is_notified (update will_wake id waker s).1 ≡ is_notified s
  unfolding update
  update-same e = update_by-same (update_from will_wake id waker s.wakers) refl e
