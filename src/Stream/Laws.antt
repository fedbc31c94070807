-- ===== src/Stream/Laws.antt =====
-- cynthia/src/future/stream.rs: what the adapters of one stream give.
use cynthia.Base.{
  ℕ, zero, suc, ◌+◌, ◌-◌, ◌*◌, ◌<◌, ◌≡◌, refl, ap, ◌∙◌, ==_suc, Bool, if◌then◌else◌, none, some,
  List, [], ◌∷◌, ◌++◌, drop, take-drop, get_elem?, arith, Bool-cases, inl, inr,
}
use native.Mathlib.Nat.{suc-mul}
use cynthia.Stream.{Stream, items}
use cynthia.Stream.Items.{through, items-adapter}
use cynthia.Stream.Adapters.{
  filter, take_while, skip_while, skip_while_round, skip_items, step_by, filter_round,
  take_while_round, skip_round, step_round,
}
use cynthia.Stream.Pairs.Take.{taking, items-taking}

-- The elements that a test accepts.
abbrev pub keep {ℓ} : {A : Type ℓ} → (A → Bool) → List A → List A
keep p [] = []
keep p (a ∷ l) = if p a then a ∷ keep p l else keep p l

module _ {ℓ} {X A : Type ℓ} (s : Stream X A) (p : A → Bool) where
  kept : (l : List A) → through s (filter_round p) tt l ≡ keep p l
  unfolding through
  kept [] = refl
  kept (a ∷ l) = elim (Bool-cases (p a)) [
    | inl accepts ↦ rw accepts (ap (λ m. a ∷ m) (kept l))
    | inr refuses ↦ rw refuses (kept l)
  ]

  pub items-filter :
      (x : X) → items (filter s p) (record { state = tt; stream = x }) ≡ keep p (items s x)
  unfolding filter
  items-filter x = items-adapter s (filter_round p) x tt ∙ kept (items s x)

  passed : (l : List A) → through s skip_while_round none l ≡ l
  unfolding through
  passed [] = refl
  passed (a ∷ l) = ap (λ m. a ∷ m) (passed l)

  cut :
      (l : List A)
      → through s (take_while_round p) tt l ++ through s skip_while_round (some p) l ≡ l
  unfolding through
  cut [] = refl
  cut (a ∷ l) = elim (Bool-cases (p a)) [
    | inl accepts ↦ rw accepts (ap (λ m. a ∷ m) (cut l))
    | inr refuses ↦ rw refuses (ap (λ m. a ∷ m) (passed l))
  ]

  -- The items up to the first that the predicate refuses, and those from it on, are all the items.
  pub take_while-skip_while :
      (x : X)
      → items (take_while s p) (record { state = tt; stream = x })
          ++ items (skip_while s) (record { state = some p; stream = x })
        ≡ items s x
  unfolding take_while skip_while
  take_while-skip_while x =
      rw (items-adapter s (take_while_round p) x tt, items-adapter s skip_while_round x (some p))
        (cut (items s x))

module _ {X A : Type 0} (s : Stream X A) where
  dropped : (n : ℕ) (l : List A) → through s skip_round n l ≡ drop n l
  unfolding through
  dropped zero [] = refl
  dropped (suc n) [] = refl
  dropped zero (a ∷ l) = ap (λ m. a ∷ m) (dropped zero l)
  dropped (suc n) (a ∷ l) = let e : suc n - 1 ≡ n = omega arith in rw (==_suc n, e) (dropped n l)

  -- What `take(n)` gives and what `skip(n)` gives are together all the items, in order.
  pub take-skip :
      (x : X) (n : ℕ)
      → items (taking s) (record { n = n; stream = x })
          ++ items (skip_items s) (record { state = n; stream = x })
        ≡ items s x
  unfolding skip_items
  take-skip x n =
      rw (items-taking s x n, items-adapter s skip_round x n, dropped n (items s x))
        (take-drop n (items s x))

  stepped :
      (step i j : ℕ) (l : List A)
      → 0 < step
      → get_elem? (through s (step_round step) i l) j ≡ get_elem? l (i + j * step)
  unfolding through
  stepped step i j [] h = refl
  stepped step zero zero (a ∷ l) h = let first : 0 + 0 * step ≡ 0 = omega arith in rw first
  stepped step zero (suc j) (a ∷ l) h =
      let next : 0 + suc j * step ≡ suc (step - 1 + j * step) = omega (arith, suc-mul j step) in
      rw next (stepped step (step - 1) j l h)
  stepped step (suc i) j (a ∷ l) h =
      let next : suc i + j * step ≡ suc (i + j * step) = omega arith in
      let back : suc i - 1 ≡ i = omega arith in rw (==_suc i, back, next) (stepped step i j l h)

  -- `step_by(step)` gives the first item and from there every `step`-th one.
  pub step_by_lem :
      (step : ℕ) (x : X) (j : ℕ)
      → 0 < step
      → get_elem? (items (step_by s step) (record { state = 0; stream = x })) j
        ≡ get_elem? (items s x) (j * step)
  unfolding step_by
  step_by_lem step x j h =
      ap (λ l. get_elem? l j) (items-adapter s (step_round step) x 0)
      ∙ stepped step 0 j (items s x) h
      ∙ ap (get_elem? (items s x)) (omega arith)
