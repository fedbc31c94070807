-- ===== src/Colo/Inv.antt =====
-- What holds of a slab between any two of its operations.
use cynthia.Base.{
  ℕ, ◌+◌, ◌-◌, ◌^◌, ◌≤◌, ◌<◌, ◌≡◌, ◌≢◌, refl, ap, sym, subst, some_kept, ◌∙◌, true, false, Option,
  none, some, List, [], ◌∷◌, ◌++◌, arith, length, get_elem?, set, tally, tally-set, tally-append,
  get_elem?-lt, length-append, length-set, get_elem?-set_self, Bool-cases, ◌⊎◌, inl, inr,
}
use cynthia.Colo.{
  Colo, Slot, vacant, occupied, object, is_limited, insert, remove, vacate, with_limited, clear,
}
use cynthia.Colo.Free.{
  vacant_weight, occupied_weight, is_vacant, next_of, Chain, tally-length, vacant-lt, Absent,
  Distinct, Chain-Absent, Chain-set,
}

-- A `Vec` holds less than `isize::MAX` elements of a type that takes room.
abbrev pub max_slots : ℕ
max_slots = 2 ^ 63 - 1

pub record Inv {ℓ} {A : Type ℓ} (c : Colo A) : Type 0 where
  pub free : List ℕ
  pub chain : Chain c.slots c.head free
  pub distinct : Distinct free
  pub occupancy : tally occupied_weight c.slots ≡ c.len
  pub vacancy : tally vacant_weight c.slots ≡ length free
  pub within : c.limited ≢ 0 → c.len ≤ c.limited
  pub small : length c.slots ≤ max_slots

module _ {ℓ} {A : Type ℓ} where
  with_limited-Inv : (limit : ℕ) → Inv (with_limited {A = A} limit)
  unfolding with_limited
  with_limited-Inv limit = record {
    free = [];
    chain = refl;
    distinct = tt;
    occupancy = refl;
    vacancy = refl;
    within = λ h. omega arith;
    small = omega arith;
  }

  clear-Inv : {c : Colo A} → Inv c → Inv (clear c)
  unfolding clear
  clear-Inv v = record {
    free = [];
    chain = refl;
    distinct = tt;
    occupancy = refl;
    vacancy = refl;
    within = λ h. omega arith;
    small = omega arith;
  }

  abbrev pub pushed : A → Colo A → Colo A
  pushed a c = record c { slots = c.slots ++ (occupied a ∷ []); len = c.len + 1 }

  abbrev pub filled : A → Colo A → Colo A
  filled a c = record c {
    slots = set c.slots c.head (occupied a);
    len = c.len + 1;
    head = next_of (get_elem? c.slots c.head);
  }

  -- What `insert` does, by the free list.
  abbrev pub Inserts : A → Colo A → List ℕ → Option (ℕ × Colo A) → Type ℓ
  Inserts a c [] r = (c.len ≡ length c.slots) × (r ≡ some (c.len, pushed a c))
  Inserts a c (i ∷ free) r =
      (is_vacant (get_elem? c.slots c.head) ≡ true) × (r ≡ some (c.head, filled a c))

  pub insert_limited : (a : A) (c : Colo A) → is_limited c ≡ true → insert a c ≡ some (0, c)
  unfolding insert
  insert_limited a c h = ground arith

  insert_by_free :
      (a : A) (c : Colo A) (free : List ℕ)
      → Chain c.slots c.head free
      → tally vacant_weight c.slots ≡ length free
      → tally occupied_weight c.slots ≡ c.len
      → length c.slots ≤ max_slots
      → is_limited c ≡ false
      → Inserts a c free (insert a c)
  unfolding insert
  insert_by_free a c [] ch n m small h = (omega (arith, tally-length c.slots), ground arith)
  insert_by_free a c (i ∷ free) ch n m small h =
      let head_vacant : is_vacant (get_elem? c.slots c.head) ≡ true = rw ch.0 ch.1 in
      (head_vacant, ground (arith, vacant-lt c.slots c.head head_vacant))

  -- An `insert` that is not at the limit does not panic: it takes the first vacant slot, or a new
  -- one if there is none, and that is the slot that `next_vacant` names.
  pub insert-Inserts :
      (a : A) {c : Colo A} (v : Inv c) → is_limited c ≡ false → Inserts a c v.free (insert a c)
  insert-Inserts a {c} v h = insert_by_free a c v.free v.chain v.vacancy v.occupancy v.small h

  pushed-Inv :
      (a : A) {c : Colo A} (v : Inv c)
      → v.free ≡ []
      → is_limited c ≡ false
      → length c.slots < max_slots
      → Inv (pushed a c)
  unfolding is_limited
  pushed-Inv a {c} v e h room = record {
    free = [];
    chain = subst (Chain c.slots c.head) e v.chain;
    distinct = tt;
    occupancy = omega (arith, tally-append occupied_weight c.slots (occupied a ∷ []), v.occupancy);
    vacancy =
        omega (arith, tally-append vacant_weight c.slots (occupied a ∷ []), v.vacancy, ap length e);
    within = λ nz. ground (arith, v.within nz);
    small = omega (arith, length-append c.slots (occupied a ∷ []));
  }

  vacant_slot :
      (slots : List (Slot A)) (i : ℕ)
      → is_vacant (get_elem? slots i) ≡ true
      → get_elem? slots i ≡ some (vacant (next_of (get_elem? slots i)))
  vacant_slot slots i h = ground arith

  filled-Inv :
      (a : A) {c : Colo A} (v : Inv c) (i : ℕ) (rest : List ℕ)
      → v.free ≡ i ∷ rest
      → is_limited c ≡ false
      → Inv (filled a c)
  unfolding is_limited
  filled-Inv a {c} v i rest e h =
      let ch : Chain c.slots c.head (i ∷ rest) = subst (Chain c.slots c.head) e v.chain in
      let d : Distinct (i ∷ rest) = subst Distinct e v.distinct in
      let at : get_elem? c.slots c.head ≡ some (vacant (next_of (get_elem? c.slots c.head))) =
        vacant_slot c.slots c.head (rw ch.0 ch.1) in
      record {
        free = rest;
        chain =
            Chain-set c.slots (next_of (get_elem? c.slots c.head)) c.head (occupied a) rest
              (rw ch.0 d.0) (rw ch.0 ch.2);
        distinct = d.1;
        occupancy =
            omega (arith, tally-set occupied_weight c.slots c.head (occupied a) at, v.occupancy);
        vacancy =
            omega (
              arith,
              tally-set vacant_weight c.slots c.head (occupied a) at,
              v.vacancy,
              ap length e,
            );
        within = λ nz. ground (arith, v.within nz);
        small = omega (arith, length-set c.slots c.head (occupied a), v.small);
      }

  vacate-Inv :
      {a : A} {c : Colo A} (i : ℕ)
      → Inv c
      → get_elem? c.slots i ≡ some (occupied a)
      → Inv (vacate i c)
  vacate-Inv {a} {c} i v e =
      let ab : Absent i v.free = Chain-Absent c.slots c.head i v.free v.chain (rw e refl) in
      let at = get_elem?-set_self c.slots i (vacant c.head) (get_elem?-lt c.slots i e) in
      record {
        free = i ∷ v.free;
        chain = (
          refl,
          rw at refl,
          rw at (Chain-set c.slots c.head i (vacant c.head) v.free ab v.chain),
        );
        distinct = (ab, v.distinct);
        occupancy =
            omega (arith, tally-set occupied_weight c.slots i (vacant c.head) e, v.occupancy);
        vacancy = omega (arith, tally-set vacant_weight c.slots i (vacant c.head) e, v.vacancy);
        within = λ nz. omega (arith, v.within nz);
        small = omega (arith, length-set c.slots i (vacant c.head), v.small);
      }

  -- Every successful insertion keeps the invariant, while there is memory for a slot more.
  pub insert-Inv :
      (a : A) {c c' : Colo A} {i : ℕ}
      → Inv c
      → length c.slots < max_slots
      → insert a c ≡ some (i, c')
      → Inv c'
  insert-Inv a {c} {c'} v room e = elim (Bool-cases (is_limited c)) [
    | inl full ↦ some_kept (λ r. Inv r.1) _ (sym (insert_limited a c full) ∙ e) v
    | inr free ↦ by_list v.free refl (insert-Inserts a v free) free
  ]
    where
      by_list :
          (free : List ℕ)
          → v.free ≡ free
          → Inserts a c free (insert a c)
          → is_limited c ≡ false
          → Inv c'
      by_list [] eq ins nl = some_kept (λ r. Inv r.1) _ (sym ins.1 ∙ e) (pushed-Inv a v eq nl room)
      by_list (j ∷ rest) eq ins nl =
          some_kept (λ r. Inv r.1) _ (sym ins.1 ∙ e) (filled-Inv a v j rest eq nl)

  pub object_cases : (o : Option (Slot A)) → (object o ≡ none) ⊎ ((a : A) × (o ≡ some (occupied a)))
  object_cases none = inl refl
  object_cases (some (vacant n)) = inl refl
  object_cases (some (occupied a)) = inr (a, refl)

  -- So does `remove`, at any index.
  pub remove-Inv : (i : ℕ) {c : Colo A} → Inv c → Inv (remove i c).1
  unfolding remove
  remove-Inv i {c} v = elim (object_cases (get_elem? c.slots i)) [
    | inl e ↦ rw (e, remove) v
    | inr (a, e) ↦ rw (e, remove) (vacate-Inv i v e)
  ]
