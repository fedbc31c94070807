-- ===== src/Colo/Laws.antt =====
-- A slab as a map from indices to objects.
use cynthia.Base.{
  ℕ, ◌+◌, ◌<◌, ◌≡◌, ◌≢◌, refl, sym, ◌∙◌, true, false, Option, none, some, List, [], ◌∷◌, ◌++◌,
  arith, length, get_elem?, set, ◌==◌, if◌then◌else◌, ℕ_discrete, get_elem?-append_left,
  get_elem?-append_length, get_elem?-none, get_elem?-set_self, get_elem?-set_ne, length-append,
  get_elem?-lt, ==_iff, dec_lt, inl, inr, some_kept, tally-set,
}
use cynthia.Colo.{
  Colo, Slot, vacant, occupied, object, is_limited, insert, remove, get, next_vacant,
}
use cynthia.Colo.Free.{occupied_weight, Chain, vacant-lt}
use cynthia.Colo.Inv.{Inv, Inserts, insert-Inserts, pushed, filled, object_cases, insert_limited}

module _ {ℓ} {A : Type ℓ} where
  -- A write as a reader sees it.
  object-set :
      (slots : List (Slot A)) (i j : ℕ) (s : Slot A)
      → i < length slots
      → object (get_elem? (set slots i s) j)
        ≡ (if j == i then object (some s) else object (get_elem? slots j))
  object-set slots i j s h = elim (ℕ_discrete j i) [
    | yes e ↦ rw (e, (==_iff i i).1 refl, get_elem?-set_self slots i s h)
    | no ne ↦
        let differ : i ≢ j = λ e. ne (sym e) in ground (arith, get_elem?-set_ne slots s differ)
  ]

  object-append :
      (slots : List (Slot A)) (j : ℕ) (s : Slot A)
      → object (get_elem? (slots ++ s ∷ []) j)
        ≡ (if j == length slots then object (some s) else object (get_elem? slots j))
  object-append slots j s = elim (ℕ_discrete j (length slots)) [
    | yes e ↦ rw (e, (==_iff (length slots) (length slots)).1 refl, get_elem?-append_length slots s)
    | no ne ↦ elim (dec_lt j (length slots)) [
      | yes lt ↦ ground (arith, get_elem?-append_left slots (s ∷ []) j lt)
      | no ge ↦ ground (
        arith,
        get_elem?-none slots j (omega arith),
        get_elem?-none (slots ++ s ∷ []) j (omega (arith, length-append slots (s ∷ []))),
      )
    ]
  ]

  -- What an `insert` of `a` into `c` gives.
  pub record Inserted (a : A) (c : Colo A) (r : Option (ℕ × Colo A)) : Type ℓ where
    pub result : Colo A
    pub returns : r ≡ some (next_vacant c, result)
    pub fresh : get c (next_vacant c) ≡ none
    pub reads : (j : ℕ) → get result j ≡ (if j == next_vacant c then some a else get c j)
    pub counts : result.len ≡ c.len + 1

  -- An `insert` into a valid slab that is not at its limit does not panic. It returns the index
  -- that `next_vacant` named before, at which there was no object; the object is found there
  -- afterwards and nothing else has changed; and the length has grown by one.
  pub insert-Inserted :
      (a : A) {c : Colo A} → Inv c → is_limited c ≡ false → Inserted a c (insert a c)
  unfolding get next_vacant
  insert-Inserted a {c} v h = by_list v.free v.chain (insert-Inserts a v h)
    where
      by_list :
          (free : List ℕ)
          → Chain c.slots c.head free
          → Inserts a c free (insert a c)
          → Inserted a c (insert a c)
      by_list [] ch (full, e) = record {
        result = pushed a c;
        returns = ground arith;
        fresh = ground (arith, get_elem?-none c.slots c.len (omega arith));
        reads = λ j. ground (arith, object-append c.slots j (occupied a));
        counts = refl;
      }
      by_list (i ∷ free) ch (at, e) =
          let lt = vacant-lt c.slots c.head at in
          record {
            result = filled a c;
            returns = ground (arith, v.small);
            fresh = ground (arith, v.small);
            reads = λ j. ground (arith, v.small, object-set c.slots c.head j (occupied a) lt);
            counts = refl;
          }

  -- `remove` returns what the slab holds at the index; afterwards it holds nothing there and
  -- everything else as before, and the length has dropped by one if there was an object.
  pub remove_lem :
      (i : ℕ) {c : Colo A}
      → Inv c
      → let (o, c') = remove i c in
        (o ≡ get c i)
        × ((j : ℕ) → get c' j ≡ (if j == i then none else get c j))
        × (c.len ≡ (elim o [ none ↦ 0 | some _ ↦ 1 ]) + c'.len)
  unfolding get remove
  remove_lem i {c} v = elim (object_cases (get_elem? c.slots i)) [
    | inl e ↦ rw (e, remove) (refl, (λ j. ground (arith, e)), omega arith)
    | inr (a, e) ↦
        rw (e, remove)
          (
            refl,
            (λ j. object-set c.slots i j (vacant c.head) (get_elem?-lt c.slots i e)),
            omega (arith, tally-set occupied_weight c.slots i (vacant c.head) e, v.occupancy),
          )
  ]

  -- At its limit `insert` returns the index 0 and drops the object: if the slab holds an object at
  -- 0, the index returned names that other object.
  pub insert-limited_aliases :
      (a b : A) (c : Colo A) {c' : Colo A} {i : ℕ}
      → is_limited c ≡ true
      → get c 0 ≡ some b
      → insert a c ≡ some (i, c')
      → get c' i ≡ some b
  unfolding get
  insert-limited_aliases a b c full e ins =
      some_kept (λ r. object (get_elem? (r.1).slots r.0) ≡ some b) (0, c)
        (sym (insert_limited a c full) ∙ ins) e
