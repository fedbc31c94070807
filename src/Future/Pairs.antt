-- ===== src/Future/Pairs.antt =====
-- cynthia/src/future/future.rs: how long the futures of two take, and what they give.
use cynthia.Base.{ℕ, zero, suc, ◌≡◌, ap, ◌∙◌, Bool, true, false, if◌then◌else◌, Option, none, some}
use cynthia.Future.{
  Polled, pending, ready, Takes, now, later, Pair, or_second, or_first, or_poll, race_last,
  race_other, race_poll, Race, with_coins, run_race, Zip, zip, zip_end, zip_keep1, zip_keep2,
  zip_first, zip_second, zip_poll,
}

abbrev pub max : ℕ → ℕ → ℕ
max zero n = n
max (suc m) zero = suc m
max (suc m) (suc n) = suc (max m n)

module _ {ℓ} {X Y A B : Type ℓ} (f : X → Polled X A) (g : Y → Polled Y B) where
  abbrev halfway : X → Option A → Y → Option B → Zip X Y A B
  halfway x a y b = record { future1 = x; output1 = a; future2 = y; output2 = b }

  -- One of the two is ready already.
  first_done :
      {x : X} {y : Y} {n : ℕ} (a : A) {b : B}
      → Takes g y n b
      → Takes (zip_poll f g) (halfway x (some a) y none) n (a, b)
  unfolding zip_poll zip_first zip_second zip_keep2 zip_end
  first_done {x} {y} a (now e) = now (ap (zip_keep2 f g (halfway x (some a) y none)) e)
  first_done {x} {y} a (later e t) =
      later (ap (zip_keep2 f g (halfway x (some a) y none)) e) (first_done a t)

  second_done :
      {x : X} {y : Y} {n : ℕ} {a : A} (b : B)
      → Takes f x n a
      → Takes (zip_poll f g) (halfway x none y (some b)) n (a, b)
  unfolding zip_poll zip_first zip_second zip_keep1 zip_end
  second_done {x} {y} b (now e) = now (ap (zip_keep1 f g (halfway x none y (some b))) e)
  second_done {x} {y} b (later e t) =
      later (ap (zip_keep1 f g (halfway x none y (some b))) e) (second_done b t)

  -- If the futures are ready after `m` and after `n` polls that answer Pending, their zip is ready after
  -- the larger number of them, with both values; it polls neither after it was ready, and so does not
  -- panic.
  pub zip-Takes :
      {x : X} {y : Y} {m n : ℕ} {a : A} {b : B}
      → Takes f x m a
      → Takes g y n b
      → Takes (zip_poll f g) (zip x y) (max m n) (a, b)
  unfolding zip zip_poll zip_first zip_second zip_keep1 zip_keep2 zip_end
  zip-Takes {x} {y} (now {s'} {a} e) (now e') = now (
      ap (zip_keep1 f g (halfway x none y none)) e
      ∙ ap (zip_keep2 f g (halfway s' (some a) y none)) e')
  zip-Takes {x} {y} (now {s'} {a} e) (later e' t') =
      later
        (ap (zip_keep1 f g (halfway x none y none)) e
          ∙ ap (zip_keep2 f g (halfway s' (some a) y none)) e')
        (first_done a t')
  zip-Takes {x} {y} (later {s'} e t) (now {a = b} e') =
      later
        (ap (zip_keep1 f g (halfway x none y none)) e
          ∙ ap (zip_keep2 f g (halfway s' none y none)) e')
        (second_done b t)
  zip-Takes {x} {y} (later {s'} e t) (later e' t') =
      later
        (ap (zip_keep1 f g (halfway x none y none)) e
          ∙ ap (zip_keep2 f g (halfway s' none y none)) e')
        (zip-Takes t t')

-- The number of polls, and the value, of whichever is ready first; `tie` is given if both are at once.
abbrev pub least : ℕ → ℕ → ℕ
least zero n = zero
least (suc m) zero = zero
least (suc m) (suc n) = suc (least m n)

abbrev pub earliest {ℓ} : {A : Type ℓ} → A → ℕ → ℕ → A → A → A
earliest tie zero zero a b = tie
earliest tie zero (suc n) a b = a
earliest tie (suc m) zero a b = b
earliest tie (suc m) (suc n) a b = earliest tie m n a b

module _ {ℓ} {X Y : Type ℓ} where
  abbrev pub pair : X → Y → Pair X Y
  pair x y = record { future1 = x; future2 = y }

  abbrev pub race : (ℕ → Bool) → X → Y → Race X Y
  race coin x y = record { pair = pair x y; coin = coin }

module _ {ℓ} {X Y A : Type ℓ} (f : X → Polled X A) (g : Y → Polled Y A) where
  -- The first of two futures that is ready ends their `or`, with its value, and the first future wins a
  -- tie.
  pub or-Takes :
      {x : X} {y : Y} {m n : ℕ} {a b : A}
      → Takes f x m a
      → Takes g y n b
      → Takes (or_poll f g) (pair x y) (least m n) (earliest a m n a b)
  unfolding or_poll or_first or_second
  or-Takes {y} (now e) (now e') = now (ap (or_first f g y) e)
  or-Takes {y} (now e) (later e' t') = now (ap (or_first f g y) e)
  or-Takes {y} (later {s'} e t) (now e') = now (ap (or_first f g y) e ∙ ap (or_second f g s') e')
  or-Takes {y} (later {s'} e t) (later e' t') =
      later (ap (or_first f g y) e ∙ ap (or_second f g s') e') (or-Takes t t')

  -- A round of the race in which neither, or one, or both of the futures are ready.
  both_wait :
      (c : Bool) {x x' : X} {y y' : Y}
      → f x ≡ pending x'
      → g y ≡ pending y'
      → race_poll f g c (pair x y) ≡ pending (pair x' y')
  unfolding race_poll or_first or_second race_other race_last
  both_wait true {x' = x'} {y = y} e e' = ap (or_first f g y) e ∙ ap (or_second f g x') e'
  both_wait false {x} {y' = y'} e e' = ap (race_other f g x) e' ∙ ap (race_last f g y') e

  first_ready :
      (c : Bool) {x x' : X} {y y' : Y} {a : A}
      → f x ≡ ready a x'
      → g y ≡ pending y'
      → (s : Pair X Y) × (race_poll f g c (pair x y) ≡ ready a s)
  unfolding race_poll or_first or_second race_other race_last
  first_ready true {y} e e' = (_, ap (or_first f g y) e)
  first_ready false {x} {y' = y'} e e' = (_, ap (race_other f g x) e' ∙ ap (race_last f g y') e)

  second_ready :
      (c : Bool) {x x' : X} {y y' : Y} {b : A}
      → f x ≡ pending x'
      → g y ≡ ready b y'
      → (s : Pair X Y) × (race_poll f g c (pair x y) ≡ ready b s)
  unfolding race_poll or_first or_second race_other race_last
  second_ready true {x' = x'} {y = y} e e' = (_, ap (or_first f g y) e ∙ ap (or_second f g x') e')
  second_ready false {x} e e' = (_, ap (race_other f g x) e')

  both_ready :
      (c : Bool) {x x' : X} {y y' : Y} {a b : A}
      → f x ≡ ready a x'
      → g y ≡ ready b y'
      → (s : Pair X Y) × (race_poll f g c (pair x y) ≡ ready (if c then a else b) s)
  unfolding race_poll or_first or_second race_other race_last
  both_ready true {y} e e' = (_, ap (or_first f g y) e)
  both_ready false {x} e e' = (_, ap (race_other f g x) e')

  -- The first of two futures that is ready ends their race, with its value, whatever the coins; the
  -- coin of that poll decides a tie.
  pub race-Takes :
      (coin : ℕ → Bool) {x : X} {y : Y} {m n : ℕ} {a b : A}
      → Takes f x m a
      → Takes g y n b
      → Takes
          (run_race f g)
          (race coin x y)
          (least m n)
          (earliest (if coin m then a else b) m n a b)
  unfolding run_race with_coins
  race-Takes coin (now e) (now e') =
      now (ap (with_coins (λ k. coin (suc k))) (both_ready (coin 0) e e').1)
  race-Takes coin (now e) (later e' t') =
      now (ap (with_coins (λ k. coin (suc k))) (first_ready (coin 0) e e').1)
  race-Takes coin (later e t) (now e') =
      now (ap (with_coins (λ k. coin (suc k))) (second_ready (coin 0) e e').1)
  race-Takes coin (later e t) (later e' t') =
      later (ap (with_coins (λ k. coin (suc k))) (both_wait (coin 0) e e'))
        (race-Takes (λ k. coin (suc k)) t t')
