-- ===== src/Executor/Steps.antt =====
-- Every step of the executor keeps its invariant.
use cynthia.Base.{
  ℕ, ◌+◌, ◌<◌, ◌≡◌, refl, sym, ◌∙◌, Bool, true, Option, none, some, some_kept, if_holds, List, [],
  ◌∷◌, ◌++◌, get_elem?, tally-append, arith, ltb→lt,
}
use mathlib.Core.Option
use cynthia.Base.Machine.{Reach, Reach-Keeps}
use cynthia.Sleeper.Inv.{notify-Inv}
use cynthia.Sleeper.Changes.{notify-held, notify-is_notified}
use cynthia.Executor.{
  Executor, Ticker, Phase, parked, searching, missed, found, same_phase, is_at, schedule, notify,
  wake_one, try_tick, Action, can, act, machine,
}
use cynthia.Executor.Inv.{Inv, sleeps_as, alert, new-Inv}
use cynthia.Executor.Moves.{poll-Inv, search-Inv, sleep-Inv, wake-keeps, drop_ticker-Inv}

schedule-Inv : (r : ℕ) {x : Executor} → Inv x → Inv (schedule r x)
unfolding schedule
schedule-Inv r v = record {
  sleepers = v.sleepers;
  owned = v.owned;
  flag = v.flag;
  awake = ground arith;
}

notify-keeps : {x : Executor} → Inv x → 0 < x.pending → Inv (notify x)
unfolding notify
notify-keeps {x} v h =
    if_holds Inv x.notified
      (λ set_before. record {
        sleepers = v.sleepers;
        owned = v.owned;
        flag = v.flag;
        awake = ground (arith, v.flag);
      })
      (λ unset. record {
        sleepers = v.sleepers;
        owned = v.owned;
        flag = ground arith;
        awake = ground arith;
      })

wake_one-Inv : {x : Executor} → Inv x → Inv (wake_one x)
unfolding wake_one
wake_one-Inv {x} v =
    let after = notify-is_notified v.sleepers in
    record {
      sleepers = notify-Inv v.sleepers;
      owned = λ k h. v.owned k h ∙ sym (notify-held x.sleepers k);
      flag = ground (arith, after);
      awake = ground (arith, after);
    }

try_tick-Inv : {x : Executor} → Inv x → Inv (try_tick x)
unfolding try_tick
try_tick-Inv {x} v = popped x.queue
  where
    popped :
        (q : List ℕ)
        → Inv (elim q [ [] ↦ x | r ∷ rest ↦ record x { queue = rest; pending = x.pending + 1 } ])
    popped [] = v
    popped (r ∷ rest) = record {
      sleepers = v.sleepers;
      owned = v.owned;
      flag = v.flag;
      awake = ground arith;
    }

makes_ticker-Inv :
    {x : Executor}
    → Inv x
    → Inv (record x { tickers = x.tickers ++ (record { sleeping = 0; phase = parked } ∷ []) })
makes_ticker-Inv {x} v =
    let idle : Ticker = record { sleeping = 0; phase = parked } in
    record {
      sleepers = v.sleepers;
      owned = λ k h. ground (arith, v.owned k h, tally-append (sleeps_as k) x.tickers (idle ∷ []));
      flag = v.flag;
      awake = ground (arith, v.awake, tally-append alert x.tickers (idle ∷ []));
    }

-- What holds of each ticker that is there, where the phase is right, holds of the step.
at_some :
    (p : Phase) (f : Ticker → Executor) (o : Option Ticker) {x' : Executor}
    → ((t : Ticker) → o ≡ some t → same_phase p t.phase ≡ true → Inv (f t))
    → is_at p o ≡ true
    → Option.map f o ≡ some x'
    → Inv x'
at_some p f none each h e = cc
at_some p f (some t) each h e = some_kept Inv _ e (each t refl h)

pub step-Inv :
    (will_wake : ℕ → ℕ → Bool) (a : Action) (x x' : Executor)
    → Inv x
    → can a x ≡ true
    → act will_wake a x ≡ some x'
    → Inv x'
unfolding can act
step-Inv s (Action.schedules r) x x' v h e = some_kept Inv _ e (schedule-Inv r v)
step-Inv s Action.notifies x x' v h e = some_kept Inv _ e (notify-keeps v (ltb→lt _ _ h))
step-Inv s Action.wakes_one x x' v h e = some_kept Inv _ e (wake_one-Inv v)
step-Inv s Action.makes_ticker x x' v h e = some_kept Inv _ e (makes_ticker-Inv v)
step-Inv s Action.try_ticks x x' v h e = some_kept Inv _ e (try_tick-Inv v)
step-Inv s (Action.polls i) x x' v h e =
    at_some parked _ (get_elem? x.tickers i) (λ t here at. poll-Inv i v here at) h e
step-Inv s (Action.searches i) x x' v h e =
    at_some searching _ (get_elem? x.tickers i) (λ t here at. search-Inv i v here at) h e
step-Inv s (Action.sleeps waker i) x x' v h e =
    at_some missed _ (get_elem? x.tickers i) (λ t here at. sleep-Inv i v here s waker at) h e
step-Inv s (Action.wakes i) x x' v h e =
    at_some found _ (get_elem? x.tickers i) (λ t here at. wake-keeps i v here) h e
step-Inv s (Action.drops i) x x' v h e =
    at_some parked _ (get_elem? x.tickers i) (λ t here at. drop_ticker-Inv i v here at) h e

pub Reach-Inv : (will_wake : ℕ → ℕ → Bool) {x : Executor} → Reach (machine will_wake) x → Inv x
Reach-Inv s = Reach-Keeps (machine s) Inv (record { at_first = new-Inv; at_step = step-Inv s })
