-- ===== src/Channel/Alert.antt =====
-- cynthia/src/platform/channel/channel.rs: a side whose sleeping tasks are looked after, and the
-- steps that keep it so.
use cynthia.Base.{
  ℕ, ◌+◌, ◌≤◌, ◌<◌, ◌≡◌, refl, ap, Bool, true, false, if◌then◌else◌, if_holds, ltb, leb, Option,
  none, some, List, get_elem?, arith,
}
use cynthia.Channel.{own, can_own, pass_on, leave, Own, listens, wakes, cancels, passes, leaves}
use cynthia.Channel.Side.{
  Phase, Task, modify, listen, wake, after_try, after_tell, after_pass, after_cancel, after_leave,
  succeeded, tell, count, told_weight, quiet_weight, notify_one, notify_all, can_notify, is_passing,
  was_told, leaving_told, test_at,
}
use cynthia.Channel.Moves.{
  deaf, awake, taking_weight, modify_missing, le_check, passes_all, count_le, count-modify,
  count-modify_le, count-modify_ge, count-notify_all, notify_one_lem, told-awake, deaf-quiet,
  tell-deaf, tell-taking,
}

-- If a task sleeps without a notification, another one of its side is awake, or `n` others will
-- notify.
abbrev pub Alert : Bool → List Task → ℕ → Type 0
Alert on ts n = 0 < count deaf ts → 0 < count (awake on) ts + n

pub Alert-more : (on : Bool) (ts : List Task) {m n : ℕ} → m ≤ n → Alert on ts m → Alert on ts n
Alert-more on ts h a d = omega (arith, h, a d)

pub Alert-modify :
    (on : Bool) (f : Phase → Phase) (i : ℕ) (ts : List Task) (n : ℕ)
    → ((p : Phase) → deaf (f p) ≤ deaf p)
    → ((p : Phase) → awake on p ≤ awake on (f p))
    → Alert on ts n
    → Alert on (modify f i ts) n
Alert-modify on f i ts n d w a more =
    let fewer = count-modify_le f i ts deaf d in
    let kept = count-modify_ge f i ts (awake on) w in
    let before = a (omega (arith, fewer, more)) in omega (arith, before, kept)

-- What `notify(1)` achieves, said of the weights that it changes.
abbrev Told : List Task → Type 0
Told ts = 0 < count quiet_weight ts → 0 < count told_weight ts

Told-Alert : (on : Bool) (ts : List Task) (n : ℕ) → Told ts → Alert on ts n
Told-Alert on ts n t d =
    let q = count_le deaf quiet_weight deaf-quiet ts in
    let w = count_le told_weight (awake on) (told-awake on) ts in
    let one = t (omega (arith, d, q)) in omega (arith, one, w)

pub Alert-notify :
    (on : Bool) (j : ℕ) (ts : List Task) (n : ℕ)
    → can_notify j ts ≡ true
    → Alert on (notify_one j ts) n
Alert-notify on j ts n h = Told-Alert on (notify_one j ts) n (notify_one_lem j ts h)

pub Alert-all : (on : Bool) (ts : List Task) (n : ℕ) → Alert on (notify_all ts) n
Alert-all on ts n d = absurd (omega (arith, d, count-notify_all ts))

pub notify_one-deaf : (j : ℕ) (ts : List Task) → count deaf (notify_one j ts) ≤ count deaf ts
unfolding notify_one
notify_one-deaf j ts =
    if_holds (λ l. count deaf l ≤ count deaf ts) (ltb 0 (count told_weight ts)) (λ e. omega arith)
      (λ e. count-modify_le tell j ts deaf (λ p. omega (arith, tell-deaf p)))

pub notify_one-taking :
    (j : ℕ) (ts : List Task) → count taking_weight ts ≤ count taking_weight (notify_one j ts)
unfolding notify_one
notify_one-taking j ts =
    if_holds (λ l. count taking_weight ts ≤ count taking_weight l) (ltb 0 (count told_weight ts))
      (λ e. omega arith) (λ e. count-modify_ge tell j ts taking_weight tell-taking)

-- A step that raises no number of sleeping tasks, and lowers none of those awake or `taking`.
pub record Benign (on : Bool) (f : Phase → Phase) : Type 0 where
  pub sleeps : (p : Phase) → deaf (f p) ≤ deaf p
  pub wakes : (p : Phase) → awake on p ≤ awake on (f p)

pub Alert-Benign :
    (on : Bool) {f : Phase → Phase} (i : ℕ) (ts : List Task) (n : ℕ)
    → Benign on f
    → Alert on ts n
    → Alert on (modify f i ts) n
Alert-Benign on {f} i ts n b a = Alert-modify on f i ts n b.sleeps b.wakes a

-- It is checked on every phase.
check-Benign :
    (f : Phase → Phase)
    → passes_all (λ p. leb (deaf (f p)) (deaf p)) ≡ true
    → passes_all (λ p. leb (awake true p) (awake true (f p))) ≡ true
    → passes_all (λ p. leb (awake false p) (awake false (f p))) ≡ true
    → (on : Bool) → Benign on f
check-Benign f d t u true = record {
  sleeps = le_check (λ p. deaf (f p)) deaf d;
  wakes = le_check (awake true) (λ p. awake true (f p)) t;
}
check-Benign f d t u false = record {
  sleeps = le_check (λ p. deaf (f p)) deaf d;
  wakes = le_check (awake false) (λ p. awake false (f p)) u;
}

pub listen-Benign : (on : Bool) → Benign on listen
unfolding listen
listen-Benign = check-Benign listen refl refl refl

pub wake-Benign : (on : Bool) → Benign on wake
unfolding wake
wake-Benign = check-Benign wake refl refl refl

pub cancel-Benign : (on : Bool) → Benign on after_cancel
unfolding after_cancel
cancel-Benign = check-Benign after_cancel refl refl refl

pub tell-Benign : (on : Bool) → Benign on after_tell
unfolding after_tell
tell-Benign = check-Benign after_tell refl refl refl

pub succeeded-Benign : Benign true (after_try succeeded)
unfolding after_try
succeeded-Benign = record {
  sleeps = le_check (λ p. deaf (after_try succeeded p)) deaf refl;
  wakes = le_check (awake true) (λ p. awake true (after_try succeeded p)) refl;
}

pub pass-Benign : Benign false after_pass
unfolding after_pass
pass-Benign = record {
  sleeps = le_check (λ p. deaf (after_pass p)) deaf refl;
  wakes = le_check (awake false) (λ p. awake false (after_pass p)) refl;
}

-- A step that changes no listener leaves what `notify(1)` achieved.
Told-pass : (i : ℕ) (ts : List Task) → Told ts → Told (modify after_pass i ts)
unfolding after_pass
Told-pass i ts t q =
    let fewer =
      count-modify_le after_pass i ts quiet_weight
        (le_check (λ p. quiet_weight (after_pass p)) quiet_weight refl) in
    let kept =
      count-modify_ge after_pass i ts told_weight
        (le_check told_weight (λ p. told_weight (after_pass p)) refl) in
    let one = t (omega (arith, q, fewer)) in omega (arith, one, kept)

-- Dropping a listener that was not notified.
still : Phase → ℕ
still p = if leaving_told p then 1 else 0

left-awake : (on : Bool) (p : Phase) → awake on p ≤ awake on (after_leave p) + still p
unfolding after_leave still
left-awake true p = le_check (awake true) (λ p. awake true (after_leave p) + still p) refl p
left-awake false p = le_check (awake false) (λ p. awake false (after_leave p) + still p) refl p

pub left-deaf : (p : Phase) → deaf (after_leave p) ≤ deaf p
unfolding after_leave
left-deaf = le_check (λ p. deaf (after_leave p)) deaf refl

Alert-left :
    (on : Bool) (i : ℕ) (ts : List Task) (n : ℕ) (o : Option Task)
    → get_elem? ts i ≡ o
    → test_at leaving_told o ≡ false
    → Alert on ts n
    → Alert on (modify after_leave i ts) n
unfolding still
Alert-left on i ts n none e h a d =
    let fewer = count-modify_le after_leave i ts deaf left-deaf in
    let same = ap (count (awake on)) (modify_missing after_leave i ts e) in
    let before = a (omega (arith, d, fewer)) in omega (arith, before, same)
Alert-left on i ts n (some t) e h a d =
    let fewer = count-modify_le after_leave i ts deaf left-deaf in
    let exact = count-modify after_leave i ts (awake on) e in
    let kept = left-awake on t.phase in
    let zero_ : still t.phase ≡ 0 = ap (λ b. if b then 1 else 0) h in
    let before = a (omega (arith, d, fewer)) in omega (arith, before, exact, kept, zero_)

-- A task's step on its own side keeps the side alert.
pub Alert-own :
    (on : Bool) (o : Own) (i : ℕ) (ts : List Task) (n : ℕ)
    → can_own on o i ts ≡ true
    → Alert on ts n
    → Alert on (own on o i ts) n
unfolding own can_own pass_on leave
Alert-own on listens i ts n h a = Alert-Benign on i ts n (listen-Benign on) a
Alert-own on wakes i ts n h a = Alert-Benign on i ts n (wake-Benign on) a
Alert-own on cancels i ts n h a = Alert-Benign on i ts n (cancel-Benign on) a
Alert-own true (passes j) i ts n h a =
    if_holds (λ l. Alert true l n) (is_passing i ts)
      (λ e.
        Told-Alert true (modify after_pass i (notify_one j ts)) n
          (Told-pass i (notify_one j ts) (notify_one_lem j ts h)))
      (λ e. a)
Alert-own false (passes j) i ts n h a =
    if_holds (λ l. Alert false l n) (is_passing i ts) (λ e. Alert-Benign false i ts n pass-Benign a)
      (λ e. a)
Alert-own on (leaves j) i ts n h a =
    if_holds (λ l. Alert on l n) (was_told i ts)
      (λ e. Alert-notify on j (modify after_leave i ts) n h)
      (λ e. Alert-left on i ts n (get_elem? ts i) refl e a)
