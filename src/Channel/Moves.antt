-- ===== src/Channel/Moves.antt =====
-- cynthia/src/platform/channel/channel.rs: how a step of one task, and a notification, change the
-- numbers of tasks by where they stand.
use cynthia.Base.{
  ℕ, ◌+◌, ◌≤◌, ◌<◌, ◌≡◌, inl, inr, refl, ap, ◌∙◌, Bool, true, false, ◌||◌, ◌&&◌, if◌then◌else◌, ltb,
  leb, leb→le, ◌==◌, Option, none, some, List, [], ◌∷◌, get_elem?, set, tally-set, Option-cases,
  if_holds, arith, tests,
}
use cynthia.Channel.Side.{
  Phase, Task, Listener, trying, failing, waiting, taking, passing, leaving, gone, absent, quiet,
  told, is_quiet, modify, tell, count, changed, told_weight, quiet_weight, notify_one, notify_all,
  can_notify,
}

-- A wait that no notification has reached, or one about to begin.
abbrev pub deaf : Phase → ℕ
deaf (failing quiet) = 1
deaf (waiting quiet) = 1
deaf _ = 0

-- A task that will try again or notify a task of its side; `on` says whether a success notifies.
abbrev pub awake : Bool → Phase → ℕ
awake on (trying l) = 1
awake on (failing absent) = 1
awake on (failing quiet) = 0
awake on (failing told) = 1
awake on (waiting told) = 1
awake on (waiting _) = 0
awake on (taking told) = 1
awake on (taking _) = if on then 1 else 0
awake on (passing told) = 1
awake on (passing _) = if on then 1 else 0
awake on (leaving told) = 1
awake on (leaving _) = 0
awake on gone = 0

abbrev pub taking_weight : Phase → ℕ
taking_weight (taking l) = 1
taking_weight _ = 0

module _ (f : Phase → Phase) (i : ℕ) (ts : List Task) where
  modify_found :
      {t : Task}
      → get_elem? ts i ≡ some t
      → modify f i ts ≡ set ts i (record t { phase = f t.phase })
  unfolding modify changed
  modify_found {t} e = ap (changed f i ts) e

  pub modify_missing : get_elem? ts i ≡ none → modify f i ts ≡ ts
  unfolding modify changed
  modify_missing e = ap (changed f i ts) e

  pub count-modify :
      (w : Phase → ℕ) {t : Task}
      → get_elem? ts i ≡ some t
      → count w (modify f i ts) + w t.phase ≡ count w ts + w (f t.phase)
  count-modify w {t} e =
      ap (λ l. count w l + w t.phase) (modify_found e) ∙ tally-set (λ u. w u.phase) ts i _ e

  pub count-modify_le :
      (w : Phase → ℕ) → ((p : Phase) → w (f p) ≤ w p) → count w (modify f i ts) ≤ count w ts
  count-modify_le w h = elim (Option-cases (get_elem? ts i)) [
    | inl e ↦ omega (arith, ap (count w) (modify_missing e))
    | inr (t, e) ↦ omega (arith, count-modify w e, h t.phase)
  ]

  pub count-modify_ge :
      (w : Phase → ℕ) → ((p : Phase) → w p ≤ w (f p)) → count w ts ≤ count w (modify f i ts)
  count-modify_ge w h = elim (Option-cases (get_elem? ts i)) [
    | inl e ↦ omega (arith, ap (count w) (modify_missing e))
    | inr (t, e) ↦ omega (arith, count-modify w e, h t.phase)
  ]

pub count_le :
    (w v : Phase → ℕ) → ((p : Phase) → w p ≤ v p) → (ts : List Task) → count w ts ≤ count v ts
count_le w v h [] = omega arith
count_le w v h (t ∷ ts) = omega (arith, h t.phase, count_le w v h ts)

-- A test that every phase passes.
abbrev over : (Listener → Bool) → Bool
over f = f absent && (f quiet && f told)

abbrev pub passes_all : (Phase → Bool) → Bool
passes_all f =
    over (λ l. f (trying l))
    && (over (λ l. f (failing l))
        && (over (λ l. f (waiting l))
            && (over (λ l. f (taking l))
                && (over (λ l. f (passing l)) && (over (λ l. f (leaving l)) && f gone)))))

both : (a b : Bool) → (a && b) ≡ true → (a ≡ true) × (b ≡ true)
both true b h = (refl, h)
both false b h = cc h

over-each : (f : Listener → Bool) → over f ≡ true → (l : Listener) → f l ≡ true
over-each f h absent = (both (f absent) _ h).0
over-each f h quiet = (both (f quiet) _ (both (f absent) _ h).1).0
over-each f h told = (both (f quiet) _ (both (f absent) _ h).1).1

-- What is checked on every phase holds of any.
passes_all-each : (f : Phase → Bool) → passes_all f ≡ true → (p : Phase) → f p ≡ true
passes_all-each f h p =
    let (h1, r1) = both (over (λ l. f (trying l))) _ h in
    let (h2, r2) = both (over (λ l. f (failing l))) _ r1 in
    let (h3, r3) = both (over (λ l. f (waiting l))) _ r2 in
    let (h4, r4) = both (over (λ l. f (taking l))) _ r3 in
    let (h5, r5) = both (over (λ l. f (passing l))) _ r4 in
    let (h6, h7) = both (over (λ l. f (leaving l))) _ r5 in
    elim p as (λ p. f p ≡ true) [
      | trying l ↦ over-each (λ l. f (trying l)) h1 l
      | failing l ↦ over-each (λ l. f (failing l)) h2 l
      | waiting l ↦ over-each (λ l. f (waiting l)) h3 l
      | taking l ↦ over-each (λ l. f (taking l)) h4 l
      | passing l ↦ over-each (λ l. f (passing l)) h5 l
      | leaving l ↦ over-each (λ l. f (leaving l)) h6 l
      | gone ↦ h7
    ]

pub le_check :
    (w v : Phase → ℕ) → passes_all (λ p. leb (w p) (v p)) ≡ true → (p : Phase) → w p ≤ v p
le_check w v h p = leb→le (w p) (v p) (passes_all-each (λ p. leb (w p) (v p)) h p)

pub told-awake : (on : Bool) (p : Phase) → told_weight p ≤ awake on p
told-awake true p = le_check told_weight (awake true) refl p
told-awake false p = le_check told_weight (awake false) refl p

pub deaf-quiet : (p : Phase) → deaf p ≤ quiet_weight p
deaf-quiet p = le_check deaf quiet_weight refl p

pub tell-awake : (on : Bool) (p : Phase) → awake on p ≤ awake on (tell p)
unfolding tell
tell-awake true p = le_check (awake true) (λ p. awake true (tell p)) refl p
tell-awake false p = le_check (awake false) (λ p. awake false (tell p)) refl p

pub tell-deaf : (p : Phase) → deaf (tell p) ≤ 0
unfolding tell
tell-deaf p = le_check (λ p. deaf (tell p)) (λ _. 0) refl p

pub tell-taking : (p : Phase) → taking_weight p ≤ taking_weight (tell p)
unfolding tell
tell-taking p = le_check taking_weight (λ p. taking_weight (tell p)) refl p

tell-quiet : (p : Phase) → quiet_weight p + told_weight p ≤ told_weight (tell p)
unfolding tell
tell-quiet p = le_check (λ p. quiet_weight p + told_weight p) (λ p. told_weight (tell p)) refl p

quiet-tell : (p : Phase) → quiet_weight (tell p) ≤ quiet_weight p
unfolding tell
quiet-tell p = le_check (λ p. quiet_weight (tell p)) quiet_weight refl p

reached :
    (j : ℕ) (ts : List Task) (o : Option Task)
    → get_elem? ts j ≡ o
    → (count quiet_weight ts == 0 || is_quiet o) ≡ true
    → 0 < count quiet_weight (modify tell j ts)
    → 0 < count told_weight (modify tell j ts)
reached j ts none e h q =
    let fewer = count-modify_le tell j ts quiet_weight quiet-tell in
    absurd (ground (arith, h, fewer, q))
reached j ts (some t) e h q =
    let fewer = count-modify_le tell j ts quiet_weight quiet-tell in
    let more = count-modify tell j ts told_weight e in
    let one = tell-quiet t.phase in ground (arith, h, fewer, q, more, one)

-- After `notify(1)` a listener is notified, or none is left that was not.
pub notify_one_lem :
    (j : ℕ) (ts : List Task)
    → can_notify j ts ≡ true
    → 0 < count quiet_weight (notify_one j ts)
    → 0 < count told_weight (notify_one j ts)
unfolding can_notify notify_one
notify_one_lem j ts h =
    if_holds (λ l. 0 < count quiet_weight l → 0 < count told_weight l)
      (ltb 0 (count told_weight ts)) (λ e q. omega (tests, e))
      (λ e q. reached j ts (get_elem? ts j) refl h q)

pub count-notify_all : (ts : List Task) → count deaf (notify_all ts) ≡ 0
unfolding notify_all
count-notify_all [] = refl
count-notify_all (t ∷ ts) = omega (arith, tell-deaf t.phase, count-notify_all ts)
