-- ===== src/Channel/Counts.antt =====
-- cynthia/src/platform/channel/channel.rs: the steps that put no task to sleep, and those
-- that leave the tasks about to notify the other side.
use cynthia.Base.{ℕ, ◌≤◌, refl, Bool, if_holds, List, [], ◌∷◌, ◌++◌, tally-append, arith}
use cynthia.Channel.{own, pass_on, leave, Own, listens, wakes, cancels, passes, leaves, newcomer}
use cynthia.Channel.Side.{
  Task, modify, listen, wake, after_pass, after_cancel, after_leave, count, notify_one, notify_all,
  is_passing, was_told,
}
use cynthia.Channel.Moves.{
  deaf, awake, taking_weight, le_check, count-modify_le, count-modify_ge, tell-taking,
}
use cynthia.Channel.Alert.{
  Alert, listen-Benign, wake-Benign, cancel-Benign, pass-Benign, left-deaf, notify_one-deaf,
  notify_one-taking,
}

-- Such a step puts no task to sleep, and leaves the tasks that will notify the other side.
pub own-deaf :
    (on : Bool) (o : Own) (i : ℕ) (ts : List Task) → count deaf (own on o i ts) ≤ count deaf ts
unfolding own pass_on leave
own-deaf on listens i ts = count-modify_le listen i ts deaf (listen-Benign on).sleeps
own-deaf on wakes i ts = count-modify_le wake i ts deaf (wake-Benign on).sleeps
own-deaf on cancels i ts = count-modify_le after_cancel i ts deaf (cancel-Benign on).sleeps
own-deaf on (passes j) i ts =
    let kept : (l : List Task) → count deaf (modify after_pass i l) ≤ count deaf l =
      λ l. count-modify_le after_pass i l deaf pass-Benign.sleeps in
    if_holds (λ l. count deaf l ≤ count deaf ts) (is_passing i ts)
      (λ e.
        if_holds (λ l. count deaf (modify after_pass i l) ≤ count deaf ts) on
          (λ _. omega (arith, kept (notify_one j ts), notify_one-deaf j ts)) (λ _. kept ts))
      (λ e. omega arith)
own-deaf on (leaves j) i ts =
    let kept = count-modify_le after_leave i ts deaf left-deaf in
    if_holds (λ l. count deaf l ≤ count deaf ts) (was_told i ts)
      (λ e. omega (arith, kept, notify_one-deaf j (modify after_leave i ts))) (λ e. kept)

pub own-taking :
    (on : Bool) (o : Own) (i : ℕ) (ts : List Task)
    → count taking_weight ts ≤ count taking_weight (own on o i ts)
unfolding own pass_on leave listen wake after_cancel after_pass after_leave
own-taking on listens i ts =
    count-modify_ge listen i ts taking_weight
      (le_check taking_weight (λ p. taking_weight (listen p)) refl)
own-taking on wakes i ts =
    count-modify_ge wake i ts taking_weight
      (le_check taking_weight (λ p. taking_weight (wake p)) refl)
own-taking on cancels i ts =
    count-modify_ge after_cancel i ts taking_weight
      (le_check taking_weight (λ p. taking_weight (after_cancel p)) refl)
own-taking on (passes j) i ts =
    let kept : (l : List Task)
        → count taking_weight l ≤ count taking_weight (modify after_pass i l) =
      λ l.
        count-modify_ge after_pass i l taking_weight
          (le_check taking_weight (λ p. taking_weight (after_pass p)) refl) in
    if_holds (λ l. count taking_weight ts ≤ count taking_weight l) (is_passing i ts)
      (λ e.
        if_holds (λ l. count taking_weight ts ≤ count taking_weight (modify after_pass i l)) on
          (λ _. omega (arith, kept (notify_one j ts), notify_one-taking j ts)) (λ _. kept ts))
      (λ e. omega arith)
own-taking on (leaves j) i ts =
    let kept : count taking_weight ts ≤ count taking_weight (modify after_leave i ts) =
      count-modify_ge after_leave i ts taking_weight
        (le_check taking_weight (λ p. taking_weight (after_leave p)) refl) in
    if_holds (λ l. count taking_weight ts ≤ count taking_weight l) (was_told i ts)
      (λ e. omega (arith, kept, notify_one-taking j (modify after_leave i ts))) (λ e. kept)

pub notify_all-taking :
    (ts : List Task) → count taking_weight ts ≤ count taking_weight (notify_all ts)
unfolding notify_all
notify_all-taking [] = omega arith
notify_all-taking (t ∷ ts) = omega (arith, tell-taking t.phase, notify_all-taking ts)

-- A task that begins is awake.
pub Alert-begins :
    (on : Bool) (ts : List Task) (v n : ℕ) → Alert on ts n → Alert on (ts ++ newcomer v ∷ []) n
Alert-begins on ts v n a d =
    let more = tally-append (λ t. awake on t.phase) ts (newcomer v ∷ []) in omega (arith, more)

pub begins-deaf : (ts : List Task) (v : ℕ) → count deaf (ts ++ newcomer v ∷ []) ≤ count deaf ts
begins-deaf ts v = omega (arith, tally-append (λ t. deaf t.phase) ts (newcomer v ∷ []))

pub begins-taking :
    (ts : List Task) (v : ℕ) → count taking_weight ts ≤ count taking_weight (ts ++ newcomer v ∷ [])
begins-taking ts v = omega (arith, tally-append (λ t. taking_weight t.phase) ts (newcomer v ∷ []))
