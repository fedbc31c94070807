-- ===== src/Sleeper/Safety.antt =====
-- What the set of sleepers guarantees.
use cynthia.Base.{ℕ, ◌+◌, ◌≡◌, refl, Bool, true, not, ◌||◌, ◌==◌, none, length, arith}
use cynthia.Base.Machine.{Reach}
use cynthia.Sleeper.{Sleeper, occurs, ids, insert, notify, is_notified, machine}
use cynthia.Sleeper.Inv.{insert_by-fresh, Reach-Inv}

module _ (will_wake : ℕ → ℕ → Bool) {s : Sleeper} (r : Reach (machine will_wake) s) where
  -- In every reachable state `insert` gives the new sleeper an id that no sleeper has.
  pub insert-fresh :
      (waker : ℕ)
      → occurs (insert waker s).0 (ids s.wakers) + occurs (insert waker s).0 s.notified ≡ 0
  unfolding insert
  insert-fresh waker = insert_by-fresh waker s.free_ids (Reach-Inv will_wake r) refl

  -- In every reachable state `notify` gives out a waker exactly if there is a sleeper and none of
  -- them was notified and has not come back; `is_notified` says the opposite, and holds afterwards.
  pub notify-one :
      (is_notified s ≡ ((length s.wakers == 0) || not (length s.notified == 0)))
      × ((notify s).0 ≡ none → is_notified s ≡ true)
      × (is_notified s ≡ true → (notify s).0 ≡ none)
      × (is_notified (notify s).1 ≡ true)
  unfolding is_notified notify
  notify-one =
      let counted = (Reach-Inv will_wake r).counted in
      (ground arith, λ e. ground arith, λ e. ground arith, ground arith)
