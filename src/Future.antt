-- ===== src/Future.antt =====
-- cynthia/src/future/future.rs: futures that are made of futures. A future is its function `poll`.
-- What it does when it is polled after it was ready is not known: it may panic.
pub mod Pairs
pub mod Tries
mod Tests
use cynthia.Base.{ℕ, zero, suc, ◌+◌, ◌≡◌, Bool, true, false, if◌then◌else◌, Option, none, some}

-- What a poll answers, with the state after it.
pub data Polled {ℓ} (S A : Type ℓ) : Type ℓ where
  panicked : Polled S A
  pending : S → Polled S A
  ready : A → S → Polled S A

-- A future that answers Pending as often as the number says and then is ready with the value.
pub data Takes {ℓ} {S A : Type ℓ} (poll : S → Polled S A) : S → ℕ → A → Type ℓ where
  now : {s s' : S} {a : A} → poll s ≡ ready a s' → Takes poll s 0 a
  later :
      {s s' : S} {n : ℕ} {a : A} → poll s ≡ pending s' → Takes poll s' n a → Takes poll s (suc n) a

pub record Pair {ℓ} (X Y : Type ℓ) : Type ℓ where
  pub future1 : X
  pub future2 : Y

module _ {ℓ} {X Y A : Type ℓ} (f : X → Polled X A) (g : Y → Polled Y A) where
  -- Both are polled, the first one first, and the first answer that is ready is given.
  unfoldable pub or_second : X → Polled Y A → Polled (Pair X Y) A
  or_second x panicked = panicked
  or_second x (pending y) = pending (record { future1 = x; future2 = y })
  or_second x (ready b y) = ready b (record { future1 = x; future2 = y })

  unfoldable pub or_first : Y → Polled X A → Polled (Pair X Y) A
  or_first y panicked = panicked
  or_first y (pending x) = or_second x (g y)
  or_first y (ready a x) = ready a (record { future1 = x; future2 = y })

  unfoldable pub or_poll : Pair X Y → Polled (Pair X Y) A
  or_poll s = or_first s.future2 (f s.future1)

  -- `Race` throws a coin for the order; `coin` is what `rander::bool` gives.
  unfoldable pub race_last : Y → Polled X A → Polled (Pair X Y) A
  race_last y panicked = panicked
  race_last y (pending x) = pending (record { future1 = x; future2 = y })
  race_last y (ready a x) = ready a (record { future1 = x; future2 = y })

  unfoldable pub race_other : X → Polled Y A → Polled (Pair X Y) A
  race_other x panicked = panicked
  race_other x (pending y) = race_last y (f x)
  race_other x (ready b y) = ready b (record { future1 = x; future2 = y })

  unfoldable pub race_poll : Bool → Pair X Y → Polled (Pair X Y) A
  race_poll coin s =
      if coin then or_first s.future2 (f s.future1) else race_other s.future1 (g s.future2)

-- A race over the polls, whose coins are `coin 0`, `coin 1` and so on.
pub record Race {ℓ} (X Y : Type ℓ) : Type ℓ where
  pub pair : Pair X Y
  pub coin : ℕ → Bool

module _ {ℓ} {X Y A : Type ℓ} where
  unfoldable pub with_coins : (ℕ → Bool) → Polled (Pair X Y) A → Polled (Race X Y) A
  with_coins coin panicked = panicked
  with_coins coin (pending s) = pending (record { pair = s; coin = coin })
  with_coins coin (ready a s) = ready a (record { pair = s; coin = coin })

  unfoldable pub run_race : (X → Polled X A) → (Y → Polled Y A) → Race X Y → Polled (Race X Y) A
  run_race f g s = with_coins (λ k. s.coin (suc k)) (race_poll f g (s.coin 0) s.pair)

pub record Zip {ℓ} (X Y A B : Type ℓ) : Type ℓ where
  pub future1 : X
  pub output1 : Option A
  pub future2 : Y
  pub output2 : Option B

module _ {ℓ} {X Y A B : Type ℓ} where
  unfoldable pub zip : X → Y → Zip X Y A B
  zip x y = record { future1 = x; output1 = none; future2 = y; output2 = none }

  -- The last test of `poll`.
  unfoldable pub zip_end : Zip X Y A B → Option A → Option B → Polled (Zip X Y A B) (A × B)
  zip_end s (some a) (some b) = ready (a, b) (record s { output1 = none; output2 = none })
  zip_end s _ _ = pending s

  module _ (f : X → Polled X A) (g : Y → Polled Y B) where
    unfoldable pub zip_keep2 : Zip X Y A B → Polled Y B → Polled (Zip X Y A B) (A × B)
    zip_keep2 s panicked = panicked
    zip_keep2 s (pending y) = zip_end (record s { future2 = y }) s.output1 s.output2
    zip_keep2 s (ready b y) =
        zip_end (record s { future2 = y; output2 = some b }) s.output1 (some b)

    unfoldable pub zip_second : Zip X Y A B → Option B → Polled (Zip X Y A B) (A × B)
    zip_second s none = zip_keep2 s (g s.future2)
    zip_second s (some b) = zip_end s s.output1 (some b)

    unfoldable pub zip_keep1 : Zip X Y A B → Polled X A → Polled (Zip X Y A B) (A × B)
    zip_keep1 s panicked = panicked
    zip_keep1 s (pending x) = zip_second (record s { future1 = x }) s.output2
    zip_keep1 s (ready a x) = zip_second (record s { future1 = x; output1 = some a }) s.output2

    unfoldable pub zip_first : Zip X Y A B → Option A → Polled (Zip X Y A B) (A × B)
    zip_first s none = zip_keep1 s (f s.future1)
    zip_first s (some a) = zip_second s s.output2

    unfoldable pub zip_poll : Zip X Y A B → Polled (Zip X Y A B) (A × B)
    zip_poll s = zip_first s s.output1

pub data Result {ℓ} (A E : Type ℓ) : Type ℓ where
  ok : A → Result A E
  err : E → Result A E

-- `TryZip`, whose outputs are results that are `ok`.
abbrev pub TryZip {ℓ} : Type ℓ → Type ℓ → Type ℓ → Type ℓ → Type ℓ → Type ℓ
TryZip X Y A B E = Zip X Y (Result A E) (Result B E)

module _ {ℓ} {X Y A B E : Type ℓ} where
  -- The last test of `poll`; an error that was kept is the panic of `unreachable!`.
  unfoldable pub try_end :
      TryZip X Y A B E
      → Option (Result A E)
      → Option (Result B E)
      → Polled (TryZip X Y A B E) (Result (A × B) E)
  try_end s (some (ok a)) (some (ok b)) =
      ready (ok (a, b)) (record s { output1 = none; output2 = none })
  try_end s (some (err e)) (some r) = panicked
  try_end s (some (ok a)) (some (err e)) = panicked
  try_end s _ _ = pending s

  module _ (f : X → Polled X (Result A E)) (g : Y → Polled Y (Result B E)) where
    unfoldable pub try_keep2 :
        TryZip X Y A B E → Polled Y (Result B E) → Polled (TryZip X Y A B E) (Result (A × B) E)
    try_keep2 s panicked = panicked
    try_keep2 s (pending y) = try_end (record s { future2 = y }) s.output1 s.output2
    try_keep2 s (ready (ok b) y) =
        try_end (record s { future2 = y; output2 = some (ok b) }) s.output1 (some (ok b))
    try_keep2 s (ready (err e) y) = ready (err e) (record s { future2 = y })

    unfoldable pub try_second :
        TryZip X Y A B E → Option (Result B E) → Polled (TryZip X Y A B E) (Result (A × B) E)
    try_second s none = try_keep2 s (g s.future2)
    try_second s (some r) = try_end s s.output1 (some r)

    unfoldable pub try_keep1 :
        TryZip X Y A B E → Polled X (Result A E) → Polled (TryZip X Y A B E) (Result (A × B) E)
    try_keep1 s panicked = panicked
    try_keep1 s (pending x) = try_second (record s { future1 = x }) s.output2
    try_keep1 s (ready (ok a) x) =
        try_second (record s { future1 = x; output1 = some (ok a) }) s.output2
    try_keep1 s (ready (err e) x) = ready (err e) (record s { future1 = x })

    unfoldable pub try_first :
        TryZip X Y A B E → Option (Result A E) → Polled (TryZip X Y A B E) (Result (A × B) E)
    try_first s none = try_keep1 s (f s.future1)
    try_first s (some r) = try_second s s.output2

    unfoldable pub try_zip_poll : TryZip X Y A B E → Polled (TryZip X Y A B E) (Result (A × B) E)
    try_zip_poll s = try_first s s.output1

-- `Ready`: `take` leaves `None`, and `expect` panics on it.
unfoldable pub ready_poll {ℓ} : {A : Type ℓ} → Option A → Polled (Option A) A
ready_poll none = panicked
ready_poll (some a) = ready a none

-- `YieldNow`, with the number of calls of `wake_by_ref`.
pub record YieldNow : Type 0 where
  pub yielded : Bool
  pub wakes : ℕ

unfoldable pub yield_poll : YieldNow → Polled YieldNow ℕ
yield_poll s =
    if s.yielded then ready s.wakes s else pending (record { yielded = true; wakes = s.wakes + 1 })

-- `PollOnce`.
unfoldable pub poll_once {ℓ} : {S A : Type ℓ} → Polled S A → Polled S (Option A)
poll_once panicked = panicked
poll_once (pending s) = ready none s
poll_once (ready a s) = ready (some a) s
