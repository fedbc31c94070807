-- ===== src/Stream/Futures/Results.antt =====
-- cynthia/src/future/stream.rs: what the futures over a stream return.
use cynthia.Base.{
  ℕ, zero, suc, ◌+◌, ◌-◌, ◌<◌, ◌≤◌, ◌≡◌, refl, sym, ap, ◌∙◌, ◌==◌, ==_suc, ltb, Bool, not,
  if◌then◌else◌, Option, none, some, List, [], ◌∷◌, ◌++◌, length, get_elem?, arith, Bool-cases, inl,
  inr,
}
use mathlib.Core.List.{foldl, append_assoc, append-nil}
use mathlib.Core.Option
use cynthia.Stream.{Stream, items}
use cynthia.Stream.Adapters.{filter}
use cynthia.Stream.Laws.{keep, items-filter}
use cynthia.Stream.Futures.{
  await_polls, fold, collect, partition, last, find, count, nth, position, all, any,
}
use cynthia.Stream.Futures.Await.{conclude, await_polls_lem}

-- The index of the first element that a test accepts.
abbrev pub index_of {ℓ} : {A : Type ℓ} → (A → Bool) → List A → Option ℕ
index_of p [] = none
index_of p (a ∷ l) = if p a then some 0 else Option.map suc (index_of p l)

shift :
    (i : ℕ) (o : Option ℕ)
    → Option.map (λ j. i + 1 + j) o ≡ Option.map (λ j. i + j) (Option.map suc o)
shift i none = refl
shift i (some j) = ap some (omega arith)

from_zero : (o : Option ℕ) → Option.map (λ j. 0 + j) o ≡ o
from_zero none = refl
from_zero (some j) = ap some (omega arith)

length-keep {ℓ} : {A : Type ℓ} (p : A → Bool) (l : List A) → length (keep p l) ≤ length l
length-keep p [] = omega arith
length-keep p (a ∷ l) = elim (Bool-cases (p a)) [
  | inl accepts ↦ rw accepts (omega (arith, length-keep p l))
  | inr refuses ↦ rw refuses (omega (arith, length-keep p l))
]

module _ {X A : Type 0} (s : Stream X A) where
  fold_lem :
      {B : Type 0} (f : B → A → B) (b : B) (l : List A) → conclude s (fold f) b l ≡ foldl f b l
  unfolding conclude fold
  fold_lem f b [] = refl
  fold_lem f b (a ∷ l) = fold_lem f (f b a) l

  collect_lem : (c l : List A) → conclude s collect c l ≡ c ++ l
  unfolding conclude collect
  collect_lem c [] = sym (append-nil c)
  collect_lem c (a ∷ l) = collect_lem (c ++ a ∷ []) l ∙ append_assoc c (a ∷ []) l

  count_lem : (n : ℕ) (l : List A) → conclude s count n l ≡ n + length l
  unfolding conclude count
  count_lem n [] = omega arith
  count_lem n (a ∷ l) = omega (arith, count_lem (n + 1) l)

  last-some : (a : A) (l : List A) → conclude s last (some a) l ≡ get_elem? (a ∷ l) (length l)
  unfolding conclude last
  last-some a [] = refl
  last-some a (b ∷ l) = last-some b l

  last_lem : (l : List A) → conclude s last none l ≡ get_elem? l (length l - 1)
  unfolding conclude last
  last_lem [] = refl
  last_lem (a ∷ l) = let e : length (a ∷ l) - 1 ≡ length l = omega arith in rw e (last-some a l)

  partition_lem :
      (p : A → Bool) (yes_ no_ l : List A)
      → conclude s (partition p) (yes_, no_) l ≡ (yes_ ++ keep p l, no_ ++ keep (λ a. not (p a)) l)
  unfolding conclude partition
  partition_lem p yes_ no_ [] = rw (append-nil yes_, append-nil no_)
  partition_lem p yes_ no_ (a ∷ l) = elim (Bool-cases (p a)) [
    | inl accepts ↦ rw accepts (
        partition_lem p (yes_ ++ a ∷ []) no_ l
        ∙ ap (λ m. (m, no_ ++ keep (λ b. not (p b)) l)) (append_assoc yes_ (a ∷ []) (keep p l)))
    | inr refuses ↦ rw refuses (
        partition_lem p yes_ (no_ ++ a ∷ []) l
        ∙ ap (λ m. (yes_ ++ keep p l, m)) (append_assoc no_ (a ∷ []) (keep (λ b. not (p b)) l)))
  ]

  nth_lem : (n : ℕ) (l : List A) → conclude s nth n l ≡ get_elem? l n
  unfolding conclude nth
  nth_lem n [] = refl
  nth_lem zero (a ∷ l) = refl
  nth_lem (suc n) (a ∷ l) = let e : suc n - 1 ≡ n = omega arith in rw (==_suc n, e) (nth_lem n l)

  module _ (p : A → Bool) where
    find_lem : (l : List A) → conclude s (find p) tt l ≡ get_elem? (keep p l) 0
    unfolding conclude find
    find_lem [] = refl
    find_lem (a ∷ l) = elim (Bool-cases (p a)) [
      | inl accepts ↦ rw accepts
      | inr refuses ↦ rw refuses (find_lem l)
    ]

    position_lem :
        (i : ℕ) (l : List A) → conclude s (position p) i l ≡ Option.map (λ j. i + j) (index_of p l)
    unfolding conclude position
    position_lem i [] = refl
    position_lem i (a ∷ l) = elim (Bool-cases (p a)) [
      | inl accepts ↦ rw accepts (ap some (omega arith))
      | inr refuses ↦ rw refuses (position_lem (i + 1) l ∙ shift i (index_of p l))
    ]

    any_lem : (l : List A) → conclude s (any p) tt l ≡ ltb 0 (length (keep p l))
    unfolding conclude any
    any_lem [] = refl
    any_lem (a ∷ l) = elim (Bool-cases (p a)) [
      | inl accepts ↦ rw accepts (ground arith)
      | inr refuses ↦ rw refuses (any_lem l)
    ]

    all_lem : (l : List A) → conclude s (all p) tt l ≡ (length (keep p l) == length l)
    unfolding conclude all
    all_lem [] = refl
    all_lem (a ∷ l) = elim (Bool-cases (p a)) [
      | inl accepts ↦ rw accepts (all_lem l ∙ ground arith)
      | inr refuses ↦ rw refuses (let h = length-keep p l in ground arith)
    ]

  -- Results from a stream with fewer than `n` polls left, awaited for `n` polls.
  module _ (x : X) (n : ℕ) (enough : s.left x < n) where
    -- `fold`, `collect`, `count` and `last` become ready, whatever polls are pending, with the fold
    -- of the items, the items in order, their number and the last of them.
    pub whole_stream :
        {B : Type 0} (f : B → A → B) (b : B)
        → (await_polls s (fold f) n (record { state = b; stream = x })
            ≡ some (foldl f b (items s x)))
          × (await_polls s collect n (record { state = []; stream = x }) ≡ some (items s x))
          × (await_polls s count n (record { state = 0; stream = x }) ≡ some (length (items s x)))
          × (await_polls s last n (record { state = none; stream = x })
              ≡ some (get_elem? (items s x) (length (items s x) - 1)))
    whole_stream f b = (
      await_polls_lem s (fold f) x b n enough ∙ ap some (fold_lem f b (items s x)),
      await_polls_lem s collect x [] n enough ∙ ap some (collect_lem [] (items s x)),
      await_polls_lem s count x 0 n enough ∙ ap some (count_lem 0 (items s x) ∙ omega arith),
      await_polls_lem s last x none n enough ∙ ap some (last_lem (items s x)),
    )

    -- `partition` becomes ready with what `filter` gives for the predicate and for its negation.
    pub partition-filter :
        (p : A → Bool)
        → await_polls s (partition p) n (record { state = ([], []); stream = x })
          ≡ some (
            items (filter s p) (record { state = tt; stream = x }),
            items (filter s (λ a. not (p a))) (record { state = tt; stream = x }),
          )
    partition-filter p =
        rw (items-filter s p x, items-filter s (λ a. not (p a)) x)
          (await_polls_lem s (partition p) x ([], []) n enough
            ∙ ap some (partition_lem p [] [] (items s x)))

    -- `nth(i)` becomes ready with the item at `i`, `find` with the first that `filter` gives,
    -- `position` with its index; `any` is true if `filter` gives something, `all` if it gives as
    -- many as there are.
    pub searches :
        (i : ℕ) (p : A → Bool)
        → let accepted = items (filter s p) (record { state = tt; stream = x }) in
          (await_polls s nth n (record { state = i; stream = x }) ≡ some (get_elem? (items s x) i))
          × (await_polls s (find p) n (record { state = tt; stream = x })
              ≡ some (get_elem? accepted 0))
          × (await_polls s (position p) n (record { state = 0; stream = x })
              ≡ some (index_of p (items s x)))
          × (await_polls s (any p) n (record { state = tt; stream = x })
              ≡ some (ltb 0 (length accepted)))
          × (await_polls s (all p) n (record { state = tt; stream = x })
              ≡ some (length accepted == length (items s x)))
    searches i p =
        let accepted = items-filter s p x in
        (
          await_polls_lem s nth x i n enough ∙ ap some (nth_lem i (items s x)),
          await_polls_lem s (find p) x tt n enough
              ∙ ap some (find_lem p (items s x))
              ∙ ap (λ l. some (get_elem? l 0)) (sym accepted),
          await_polls_lem s (position p) x 0 n enough
              ∙ ap some (position_lem p 0 (items s x) ∙ from_zero (index_of p (items s x))),
          await_polls_lem s (any p) x tt n enough
              ∙ ap some (any_lem p (items s x))
              ∙ ap (λ l. some (ltb 0 (length l))) (sym accepted),
          await_polls_lem s (all p) x tt n enough
              ∙ ap some (all_lem p (items s x))
              ∙ ap (λ l. some (length l == length (items s x))) (sym accepted),
        )
