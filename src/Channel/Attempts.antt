-- ===== src/Channel/Attempts.antt =====
-- cynthia/src/platform/channel/channel.rs: how an attempt to send or receive changes the numbers of
-- tasks.
use cynthia.Base.{
  ℕ, ◌+◌, ◌≤◌, ◌<◌, ◌≡◌, refl, ap, sym, ◌∙◌, Bool, true, false, if◌then◌else◌, leb, Option, none,
  some, List, [], ◌∷◌, length, get_elem?, arith,
}
use cynthia.Queue.Fifo.{Fifo, is_full}
use cynthia.Channel.{passes_on}
use cynthia.Channel.Side.{
  Phase, Task, Outcome, succeeded, blocked, shut, modify, after_try, count, is_trying,
}
use cynthia.Channel.Moves.{
  deaf, taking_weight, le_check, count-modify, count-modify_le, count-modify_ge,
}
use cynthia.Channel.Alert.{succeeded-Benign}

-- How an attempt that finds the queue open, or closed, changes the numbers of tasks.
pub try-taking :
    (o : Outcome) (i : ℕ) (ts : List Task)
    → count taking_weight ts ≤ count taking_weight (modify (after_try o) i ts)
unfolding after_try
try-taking succeeded i ts =
    count-modify_ge (after_try succeeded) i ts taking_weight
      (le_check taking_weight (λ p. taking_weight (after_try succeeded p)) refl)
try-taking blocked i ts =
    count-modify_ge (after_try blocked) i ts taking_weight
      (le_check taking_weight (λ p. taking_weight (after_try blocked p)) refl)
try-taking shut i ts =
    count-modify_ge (after_try shut) i ts taking_weight
      (le_check taking_weight (λ p. taking_weight (after_try shut p)) refl)

pub succeeded-deaf :
    (i : ℕ) (ts : List Task) → count deaf (modify (after_try succeeded) i ts) ≤ count deaf ts
succeeded-deaf i ts = count-modify_le (after_try succeeded) i ts deaf succeeded-Benign.sleeps

pub shut-deaf : (i : ℕ) (ts : List Task) → count deaf (modify (after_try shut) i ts) ≤ count deaf ts
unfolding after_try
shut-deaf i ts =
    count-modify_le (after_try shut) i ts deaf (le_check (λ p. deaf (after_try shut p)) deaf refl)

-- The task that succeeds is about to notify the other side.
abbrev trying_weight : Phase → ℕ
trying_weight p = if is_trying p then 1 else 0

gains : (p : Phase) → trying_weight p + taking_weight p ≤ taking_weight (after_try succeeded p)
unfolding after_try
gains =
    le_check (λ p. trying_weight p + taking_weight p) (λ p. taking_weight (after_try succeeded p))
      refl

pub succeeded-taking :
    (i : ℕ) (ts : List Task) {t : Task}
    → get_elem? ts i ≡ some t
    → is_trying t.phase ≡ true
    → 0 < count taking_weight (modify (after_try succeeded) i ts)
succeeded-taking i ts {t} e h =
    let one : trying_weight t.phase ≡ 1 = ap (λ b. if b then 1 else 0) h in
    let exact = count-modify (after_try succeeded) i ts taking_weight e in
    omega (arith, one, exact, gains t.phase)

-- With capacity 1 a queue with a message is full.
full_at :
    (l : List ℕ) (cap : Option ℕ)
    → passes_on cap ≡ false
    → 0 < length l
    → (elim cap [ none ↦ false | some n ↦ leb n (length l) ]) ≡ true
unfolding passes_on
full_at l none h p = cc h
full_at l (some n) h p = ground (arith, h, p)

pub one_at_most : (q : Fifo) → passes_on q.capacity ≡ false → is_full q ≡ false → length q.items ≡ 0
unfolding is_full
one_at_most q h f = none_in q.items (full_at q.items q.capacity h)
  where
    none_in : (l : List ℕ) → (0 < length l → is_full q ≡ true) → length l ≡ 0
    none_in [] g = refl
    none_in (m ∷ l) g = cc (sym f ∙ g (omega arith))

-- What holds whether successes notify or not, each under its equation.
pub by_passing :
    (P : Bool → Type 0) (on : Bool) → (on ≡ true → P true) → (on ≡ false → P false) → P on
by_passing P true t f = t refl
by_passing P false t f = f refl
