-- ===== src/Colo/Tests.antt =====
-- Slabs of a few objects.
use cynthia.Base.{ℕ, ◌≡◌, refl, none, some, [], ◌∷◌, arith}
use cynthia.Colo.{
  Colo, vacant, occupied, nil, is_limited, insert, get, remove, swap, new, from_iter,
}
use cynthia.Colo.Inv.{Inv}
use cynthia.Colo.Laws.{Inserted, insert-Inserted}

-- 10 and 30, with the slot between them vacant.
abbrev gap : Colo ℕ
gap = record { slots = occupied 10 ∷ vacant nil ∷ occupied 30 ∷ []; limited = 0; len = 2; head = 1 }

gap-Inv : Inv gap
gap-Inv = record {
  free = 1 ∷ [];
  chain = (refl, refl, refl);
  distinct = (tt, tt);
  occupancy = refl;
  vacancy = refl;
  within = λ h. omega arith;
  small = omega arith;
}

-- One object, and no room for another.
abbrev full : Colo ℕ
full = record { slots = occupied 10 ∷ []; limited = 1; len = 1; head = nil }

built :
    (elim (from_iter {A = ℕ} (10 ∷ 20 ∷ 30 ∷ []) new) [
      | none ↦ none
      | some c ↦ some (remove 1 c).1
    ])
    ≡ some gap
unfolding from_iter insert remove new
built = refl

swapped : (elim (swap 0 2 gap) [ none ↦ none | some c ↦ get c 0 ]) ≡ some 30
unfolding swap get
swapped = refl

insert-Inserted_example : Inserted 7 gap (insert 7 gap)
unfolding is_limited
insert-Inserted_example = insert-Inserted 7 gap-Inv refl
