-- ===== src/Executor/Inv.antt =====
-- What holds of the executor between any two steps.
use cynthia.Base.{
  ℕ, ◌+◌, ◌<◌, ◌≡◌, refl, Bool, true, false, not, ◌||◌, if◌then◌else◌, ltb, ◌==◌, some, List, [],
  ◌∷◌, get_elem?, tally, tally-get, arith,
}
use cynthia.Sleeper
use cynthia.Sleeper.{Sleeper, is_notified}
use cynthia.Sleeper.Inv.{Inv as SleeperInv, held, new-Inv as sleepers_new}
use cynthia.Sleeper.Changes.{one_if}
use cynthia.Executor.{Executor, Ticker, searching, found, same_phase, new}

abbrev pub sleeps_as : ℕ → Ticker → ℕ
sleeps_as k t = one_if t.sleeping k

-- A ticker whose poll will search the queue, or call `notify`, before it can end in `Pending`.
abbrev pub alert : Ticker → ℕ
alert t = if same_phase searching t.phase || same_phase found t.phase then 1 else 0

abbrev pub is_nil : List ℕ → Bool
is_nil [] = true
is_nil (x ∷ rest) = false

-- How many threads are about to look after the queue.
abbrev pub busy : Executor → ℕ
busy x = x.pending + x.waking + tally alert x.tickers

pub record Inv (x : Executor) : Type 0 where
  pub sleepers : SleeperInv x.sleepers
  pub owned : (k : ℕ) → 0 < k → tally (sleeps_as k) x.tickers ≡ held k x.sleepers
  pub flag : (not x.notified || ltb 0 x.waking || is_notified x.sleepers) ≡ true
  pub awake : (is_nil x.queue || ltb 0 (busy x) || is_notified x.sleepers) ≡ true

pub new-Inv : Inv new
unfolding new is_notified Sleeper.new
new-Inv = record { sleepers = sleepers_new; owned = λ k h. refl; flag = refl; awake = refl }

-- A ticker's own id is held.
pub own-held :
    {x : Executor} (i : ℕ) {t : Ticker}
    → Inv x
    → get_elem? x.tickers i ≡ some t
    → (t.sleeping == 0) ≡ false
    → 0 < held t.sleeping x.sleepers
own-held {x} i {t} v here h =
    let pos : 0 < t.sleeping = ground arith in
    let own = tally-get (sleeps_as t.sleeping) x.tickers i here in
    ground (arith, own, v.owned t.sleeping pos)
