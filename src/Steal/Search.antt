-- ===== src/Steal/Search.antt =====
-- A search that finds nothing has seen every queue empty.
use cynthia.Base.{
  ℕ, zero, suc, ◌+◌, ◌-◌, ◌%◌, ◌<◌, ◌≡◌, ◌≢◌, ap, sym, ◌∙◌, none, some, List, [], ◌∷◌, length, take,
  drop, get_elem?, set, arith, inl, inr, dec_lt,
}
use native.Mathlib.Nat.{mod-eq_of_lt, add-mod_right}
use cynthia.Steal.{
  from_others, from_local, from_global, take_global, Queues, local, local_cap, visit, rotation,
  search,
}
use cynthia.Steal.Laws.{loot, steal_lem}
use cynthia.Steal.Visit.{List-cases, visit_empty, visit-total}

-- The rotation holds every index.
rotation-get :
    (n start left j : ℕ) → j < left → get_elem? (rotation n start left) j ≡ some ((start + j) % n)
unfolding rotation
rotation-get n start zero j h = absurd (omega arith)
rotation-get n start (suc left) zero h = ap (λ k. some (k % n)) (omega arith)
rotation-get n start (suc left) (suc j) h =
    rotation-get n (start + 1) left j (omega arith) ∙ ap (λ k. some (k % n)) (omega arith)

rotation-covers :
    (n start i : ℕ) → start < n → i < n → (j : ℕ) × (get_elem? (rotation n start n) j ≡ some i)
rotation-covers n start i h h' = elim (dec_lt i start) [
  | yes before ↦
      let j = i + n - start in
      let e : start + j ≡ i + n = omega arith in
      let m : (i + n) % n ≡ i = add-mod_right i n ∙ mod-eq_of_lt h' in
      (j, rotation-get n start n j (omega arith) ∙ ap (λ k. some (k % n)) e ∙ ap some m)
  | no after ↦
      let j = i - start in
      let e : start + j ≡ i = omega arith in
      (
        j,
        rotation-get n start n j (omega arith)
            ∙ ap (λ k. some (k % n)) e
            ∙ ap some (mod-eq_of_lt h'),
      )
]

-- The three places of a search.
search-own :
    (start me : ℕ) (q : Queues) (r : ℕ) (rest : List ℕ)
    → local me q ≡ r ∷ rest
    → search start me q ≡ some (some r, record q { locals = set q.locals me rest })
unfolding search
search-own start me q r rest e =
    ap (λ l. from_local me q l (from_global me q q.global (from_others start me q))) e

search-global :
    (start me : ℕ) (q : Queues) (r : ℕ) (rest : List ℕ)
    → local me q ≡ []
    → q.global ≡ r ∷ rest
    → search start me q
      ≡ some (
        some r,
        record {
          global = drop (loot local_cap rest []) rest;
          locals = set q.locals me (take (loot local_cap rest []) rest);
        },
      )
unfolding search
search-global start me q r rest h e =
    ap (λ l. from_local me q l (from_global me q q.global (from_others start me q))) h
    ∙ ap (λ l. from_global me q l (from_others start me q)) e
    ∙ ap (take_global me q r) (steal_lem local_cap rest [] (omega arith))

search-others :
    (start me : ℕ) (q : Queues)
    → local me q ≡ []
    → q.global ≡ []
    → search start me q ≡ visit (rotation (length q.locals) start (length q.locals)) me q
unfolding search
search-others start me q h e =
    ap (λ l. from_local me q l (from_global me q q.global (from_others start me q))) h
    ∙ ap (λ l. from_global me q l (from_others start me q)) e

module _ (start me : ℕ) (q : Queues) (inside : me < length q.locals) where
  -- The assertion of `steal` never fails in the search of a runner whose queue is in the list.
  pub search-total : search start me q ≢ none
  search-total failed = elim (List-cases (local me q)) [
    | inr (r, rest, e) ↦ cc (sym (search-own start me q r rest e) ∙ failed)
    | inl h ↦ elim (List-cases q.global) [
      | inr (r, rest, e) ↦ cc (sym (search-global start me q r rest h e) ∙ failed)
      | inl e ↦ visit-total _ me q inside h (sym (search-others start me q h e) ∙ failed)
    ]
  ]

  -- A search that finds nothing, from any index drawn below the number of queues, has found the
  -- shared queue and every runner's queue empty.
  pub search-conserves_work :
      start < length q.locals
      → (q' : Queues) → search start me q ≡ some (none, q')
      → (q.global ≡ []) × ((i : ℕ) → i < length q.locals → local i q ≡ [])
  search-conserves_work drawn q' found = elim (List-cases (local me q)) [
    | inr (r, rest, e) ↦ absurd (cc (sym (search-own start me q r rest e) ∙ found))
    | inl h ↦ elim (List-cases q.global) [
      | inr (r, rest, e) ↦ absurd (cc (sym (search-global start me q r rest h e) ∙ found))
      | inl e ↦ (
        e,
        λ i h'.
            let (j, at_j) = rotation-covers (length q.locals) start i drawn h' in
            visit_empty _ me q inside h q' (sym (search-others start me q h e) ∙ found) j i at_j,
      )
    ]
  ]
