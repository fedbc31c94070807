-- ===== src/Steal/Visit.antt =====
-- A visit of the other runners' queues.
use cynthia.Base.{
  ◌⊎◌, ℕ, zero, suc, ◌-◌, ◌<◌, ◌≡◌, ◌≢◌, refl, ap, sym, ◌∙◌, ◌==◌, none, some, some_eq, List, [],
  ◌∷◌, length, take, drop, get_elem?, set, length-set, get_elem?-set_self, arith, ==_iff, inl, inr,
  Bool-cases,
}
use cynthia.Steal.{steal, after_steal, Queues, local, local_cap, pop_local, steal_from, visit}
use cynthia.Steal.Laws.{loot, steal_lem}

-- The queue at an index of the list.
abbrev pub at : List (List ℕ) → ℕ → List ℕ
at ls i = elim (get_elem? ls i) [ none ↦ [] | some l ↦ l ]

set_nil : (ls : List (List ℕ)) (i : ℕ) → at ls i ≡ [] → set ls i [] ≡ ls
set_nil [] i h = refl
set_nil (l ∷ ls) zero h = ap (λ l'. l' ∷ ls) (sym h)
set_nil (l ∷ ls) (suc i) h = ap (λ ls'. l ∷ ls') (set_nil ls i h)

at-set : (ls : List (List ℕ)) (i : ℕ) (l : List ℕ) → i < length ls → at (set ls i l) i ≡ l
at-set ls i l h = rw (at, get_elem?-set_self ls i l h)

pop_local_cons :
    (q : Queues) (me r : ℕ) (rest : List ℕ)
    → local me q ≡ r ∷ rest
    → pop_local me q ≡ (some r, record q { locals = set q.locals me rest })
pop_local_cons q me r rest e = rw (pop_local, e)

pop_local_nil : (q : Queues) (me : ℕ) → local me q ≡ [] → pop_local me q ≡ (none, q)
pop_local_nil q me e = rw (pop_local, e)

-- What is left and taken of a queue with an element.
steal_cons :
    (t : ℕ) (src : List ℕ)
    → steal local_cap (t ∷ src) []
      ≡ some (
        drop (loot local_cap (t ∷ src) [] - 1) src,
        t ∷ take (loot local_cap (t ∷ src) [] - 1) src,
      )
steal_cons t src =
    let k = loot local_cap (t ∷ src) [] in
    let one_more : k ≡ suc (k - 1) = omega arith in
    steal_lem local_cap (t ∷ src) [] (omega arith)
    ∙ ap (λ n. some (drop n (t ∷ src), take n (t ∷ src))) one_more

-- With nothing of its own a runner that steals from an empty queue finds nothing and changes nothing.
steal_from_nil :
    (other me : ℕ) (q : Queues)
    → local me q ≡ []
    → local other q ≡ []
    → steal_from other me q ≡ some (none, q)
unfolding steal_from
steal_from_nil other me q h e =
    let same : set (set q.locals other []) me [] ≡ q.locals =
      rw (set_nil q.locals other e, set_nil q.locals me h) in
    let nothing : steal local_cap (local other q) (local me q) ≡ some ([], []) =
      ap (λ l. steal local_cap l (local me q)) e ∙ ap (steal local_cap []) h in
    ap (after_steal other me q) nothing
    ∙ ap (λ ls. some (pop_local me (record q { locals = ls }))) same
    ∙ ap some (pop_local_nil q me h)

-- The queues after a steal from `t ∷ src`, and a pop.
abbrev stolen : ℕ → ℕ → Queues → ℕ → List ℕ → Queues
stolen other me q t src =
    let k = loot local_cap (t ∷ src) [] - 1 in
    let ls = set (set q.locals other (drop k src)) me (t ∷ take k src) in
    record q { locals = set ls me (take k src) }

steal_from_cons :
    (other me : ℕ) (q : Queues) (t : ℕ) (src : List ℕ)
    → me < length q.locals
    → local me q ≡ []
    → local other q ≡ t ∷ src
    → steal_from other me q ≡ some (some t, stolen other me q t src)
unfolding steal_from
steal_from_cons other me q t src inside h e =
    let k = loot local_cap (t ∷ src) [] - 1 in
    let ls = set q.locals other (drop k src) in
    let own : at (set ls me (t ∷ take k src)) me ≡ t ∷ take k src =
      at-set ls me (t ∷ take k src) (omega (arith, length-set q.locals other (drop k src))) in
    let some_moved =
      ap (λ l. steal local_cap l (local me q)) e
      ∙ ap (steal local_cap (t ∷ src)) h
      ∙ steal_cons t src in
    ap (after_steal other me q) some_moved
    ∙ ap some
        (pop_local_cons (record q { locals = set ls me (t ∷ take k src) }) me t (take k src) own)

pub List-cases : (l : List ℕ) → (l ≡ []) ⊎ ((t : ℕ) × (src : List ℕ) × (l ≡ t ∷ src))
List-cases [] = inl refl
List-cases (t ∷ src) = inr (t, src, refl)

visit_nil :
    (other : ℕ) (order : List ℕ) (me : ℕ) (q : Queues)
    → local me q ≡ []
    → local other q ≡ []
    → visit (other ∷ order) me q ≡ visit order me q
unfolding visit
visit_nil other order me q h e = elim (Bool-cases (other == me)) [
  | inl same ↦ rw same
  | inr apart ↦ rw (apart, steal_from_nil other me q h e)
]

visit_cons :
    (other : ℕ) (order : List ℕ) (me : ℕ) (q : Queues) (t : ℕ) (src : List ℕ)
    → me < length q.locals
    → local me q ≡ []
    → local other q ≡ t ∷ src
    → visit (other ∷ order) me q ≡ some (some t, stolen other me q t src)
unfolding visit
visit_cons other order me q t src inside h e = elim (Bool-cases (other == me)) [
  | inl same ↦
      let i : other ≡ me = (==_iff other me).0 same in
      let clash : t ∷ src ≡ [] = sym e ∙ ap (λ k. local k q) i ∙ h in absurd (cc clash)
  | inr apart ↦ rw (apart, steal_from_cons other me q t src inside h e)
]

-- A visit that finds nothing found every queue of the list empty.
visit_head :
    (other : ℕ) (order : List ℕ) (me : ℕ) (q : Queues)
    → me < length q.locals
    → local me q ≡ []
    → (q' : Queues) → visit (other ∷ order) me q ≡ some (none, q')
    → (local other q ≡ []) × (visit order me q ≡ some (none, q'))
visit_head other order me q inside h q' e = elim (List-cases (local other q)) [
  | inl nil ↦ (nil, sym (visit_nil other order me q h nil) ∙ e)
  | inr (t, src, more) ↦
      let found = sym (visit_cons other order me q t src inside h more) ∙ e in absurd (cc found)
]

pub visit_empty :
    (order : List ℕ) (me : ℕ) (q : Queues)
    → me < length q.locals
    → local me q ≡ []
    → (q' : Queues) → visit order me q ≡ some (none, q')
    → (j i : ℕ) → get_elem? order j ≡ some i
    → local i q ≡ []
visit_empty [] me q inside h q' e j i at_j = absurd cc
visit_empty (other ∷ order) me q inside h q' e zero i at_j =
    ap (λ k. local k q) (sym (some_eq at_j)) ∙ (visit_head other order me q inside h q' e).0
visit_empty (other ∷ order) me q inside h q' e (suc j) i at_j =
    visit_empty order me q inside h q' (visit_head other order me q inside h q' e).1 j i at_j

pub visit-total :
    (order : List ℕ) (me : ℕ) (q : Queues)
    → me < length q.locals
    → local me q ≡ []
    → visit order me q ≢ none
unfolding visit
visit-total [] me q inside h e = absurd cc
visit-total (other ∷ order) me q inside h e = elim (List-cases (local other q)) [
  | inl nil ↦ visit-total order me q inside h (sym (visit_nil other order me q h nil) ∙ e)
  | inr (t, src, more) ↦ cc (sym (visit_cons other order me q t src inside h more) ∙ e)
]
