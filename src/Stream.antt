-- ===== src/Stream.antt =====
-- cynthia/src/future/stream.rs: what is polled, and the items that it gives from poll to poll.
pub mod Loop
pub mod Items
pub mod Adapters
pub mod Futures
pub mod Pairs
pub mod Laws
mod Tests
use cynthia.Base.{
  ℕ, zero, suc, ◌<◌, ◌≡◌, ◌≢◌, refl, sym, ap, ◌∙◌, Option, none, some, List, [], ◌∷◌, ◌⊎◌, inl, inr,
  arith,
}

pub data Poll {ℓ} (A : Type ℓ) : Type ℓ where
  pending : Poll A
  ready : A → Poll A

-- A stream that ends: `left` bounds how often it can be polled before `Ready(None)`.
pub record Stream {ℓ} (X A : Type ℓ) : Type ℓ where
  pub poll_next : X → Poll (Option A) × X
  pub left : X → ℕ
  pub pending_moves : (x x' : X) → poll_next x ≡ (pending, x') → left x' < left x
  pub item_moves : (x x' : X) (a : A) → poll_next x ≡ (ready (some a), x') → left x' < left x

module _ {ℓ} {X A : Type ℓ} where
  abbrev pub gather : Poll (Option A) × X → (X → List A) → List A
  gather (pending, x') rest = rest x'
  gather (ready none, x') rest = []
  gather (ready (some a), x') rest = a ∷ rest x'

  pub data Answer (p : Poll (Option A) × X) : Type ℓ where
    waits : (x' : X) → p ≡ (pending, x') → Answer p
    ends : (x' : X) → p ≡ (ready none, x') → Answer p
    gives : (a : A) (x' : X) → p ≡ (ready (some a), x') → Answer p

  pub Answer-cases : (p : Poll (Option A) × X) → Answer p
  Answer-cases (pending, x') = Answer.waits x' refl
  Answer-cases (ready none, x') = Answer.ends x' refl
  Answer-cases (ready (some a), x') = Answer.gives a x' refl

-- The laws of a stream for one answer: unless it ends, fewer than `m` polls are left after it.
module _ {ℓ} {X A : Type ℓ} (left : X → ℕ) where
  abbrev pub Moves : ℕ → Poll (Option A) × X → Type ℓ
  Moves m q = (p : Poll (Option A)) (x : X) → q ≡ (p, x) → p ≢ ready none → left x < m

  pub moves : {m : ℕ} (p : Poll (Option A)) (x : X) → left x < m → Moves m (p, x)
  moves p x h p' x' e open_ = let same = ap (λ q. left q.1) e in omega arith

  pub end-moves : {m : ℕ} (x : X) → Moves m (ready none, x)
  end-moves x p x' e open_ = absurd (open_ (ap (λ q. q.0) (sym e)))

module _ {ℓ} {X A : Type ℓ} (s : Stream X A) where
  -- The items of at most `n` polls.
  unfoldable pub run : ℕ → X → List A
  run zero x = []
  run (suc n) x = gather (s.poll_next x) (λ x'. run n x')

  unfoldable pub items : X → List A
  unfolding run
  items x = run (suc (s.left x)) x

  run-enough : (n m : ℕ) (x : X) → s.left x < n → s.left x < m → run n x ≡ run m x
  unfolding run
  run-enough zero m x h h' = absurd (omega arith)
  run-enough (suc n) zero x h h' = absurd (omega arith)
  run-enough (suc n) (suc m) x h h' = elim (Answer-cases (s.poll_next x)) [
    | Answer.waits x' e ↦
        let moved = s.pending_moves x x' e in rw e (run-enough n m x' (omega arith) (omega arith))
    | Answer.ends x' e ↦ rw e
    | Answer.gives a x' e ↦
        let moved = s.item_moves x x' a e in
        rw e (ap (λ l. a ∷ l) (run-enough n m x' (omega arith) (omega arith)))
  ]

  -- The items, by the answer to the first poll.
  pub items-pending : {x x' : X} → s.poll_next x ≡ (pending, x') → items x ≡ items x'
  unfolding items
  items-pending {x} {x'} e =
      let moved = s.pending_moves x x' e in
      rw e (run-enough (s.left x) (suc (s.left x')) x' (omega arith) (omega arith))

  pub items-end : {x x' : X} → s.poll_next x ≡ (ready none, x') → items x ≡ []
  unfolding items
  items-end e = rw e

  pub items-item :
      {x x' : X} {a : A} → s.poll_next x ≡ (ready (some a), x') → items x ≡ a ∷ items x'
  unfolding items
  items-item {x} {x'} {a} e =
      let moved = s.item_moves x x' a e in
      rw e
        (ap (λ l. a ∷ l) (run-enough (s.left x) (suc (s.left x')) x' (omega arith) (omega arith)))

  -- What holds of every stream if it holds once it does of all with fewer polls left.
  induction :
      {P : X → Type ℓ}
      → ((x : X) → ((x' : X) → s.left x' < s.left x → P x') → P x)
      → (n : ℕ) → (x : X) → s.left x < n
      → P x
  induction step zero x h = absurd (omega arith)
  induction step (suc n) x h = step x (λ x' h'. induction step n x' (omega arith))

  pub by_polls :
      {P : X → Type ℓ} → ((x : X) → ((x' : X) → s.left x' < s.left x → P x') → P x) → (x : X) → P x
  by_polls step x = induction step (suc (s.left x)) x (omega arith)
