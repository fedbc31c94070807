-- ===== src/Executor/Moves.antt =====
-- The steps of a ticker keep the executor's invariant.
use cynthia.Base.{
  ℕ, ◌+◌, ◌<◌, ◌≡◌, refl, sym, ◌∙◌, Bool, true, false, ◌==◌, some, if_holds, List, [], ◌∷◌,
  get_elem?, set, tally, tally-set, arith,
}
use cynthia.Sleeper.{insert, update, remove}
use cynthia.Sleeper.Inv.{held, insert-Inv, remove-Inv, update-Inv}
use cynthia.Sleeper.Changes.{insert-held, remove-held, remove-is_notified, update-held, update-same}
use cynthia.Executor.{
  Executor, Ticker, Phase, parked, searching, missed, found, gone, same_phase, at_ticker,
  with_sleepers, search, sleep, wake, drop_ticker,
}
use cynthia.Executor.Inv.{Inv, sleeps_as, alert, own-held}

module _ (i : ℕ) {x : Executor} {t : Ticker} (v : Inv x)
    (here : get_elem? x.tickers i ≡ some t) where
  -- A ticker that goes on to another phase under the same id.
  moved :
      (p : Phase)
      → (k : ℕ) → 0 < k
      → tally (sleeps_as k) (set x.tickers i (record t { phase = p })) ≡ held k x.sleepers
  moved p k h =
      omega (arith, v.owned k h, tally-set (sleeps_as k) x.tickers i (record t { phase = p }) here)

  pub poll-Inv :
      same_phase parked t.phase ≡ true → Inv (at_ticker i (record t { phase = searching }) x)
  poll-Inv h = record {
    sleepers = v.sleepers;
    owned = moved searching;
    flag = v.flag;
    awake =
        ground (arith, v.awake, tally-set alert x.tickers i (record t { phase = searching }) here);
  }

  pub search-Inv : same_phase searching t.phase ≡ true → Inv (search i t x)
  unfolding search
  search-Inv h = popped x.queue refl
    where
      popped :
          (q : List ℕ)
          → x.queue ≡ q
          → Inv (elim q [
            | [] ↦ at_ticker i (record t { phase = missed }) x
            | r ∷ rest ↦ at_ticker i (record t { phase = found }) (record x { queue = rest })
          ])
      popped [] e = record {
        sleepers = v.sleepers;
        owned = moved missed;
        flag = v.flag;
        awake = rw e refl;
      }
      popped (r ∷ rest) e = record {
        sleepers = v.sleepers;
        owned = moved found;
        flag = v.flag;
        awake = ground (arith, tally-set alert x.tickers i (record t { phase = found }) here);
      }

  -- A ticker that gets a new id while it has none.
  insert-owned :
      (waker : ℕ)
      → (t.sleeping == 0) ≡ true
      → (k : ℕ) → 0 < k
      → let r = insert waker x.sleepers in
        tally (sleeps_as k) (set x.tickers i (record { sleeping = r.0; phase = searching }))
        ≡ held k r.1
  insert-owned waker none_yet k h =
      let id = (insert waker x.sleepers).0 in
      ground (
        arith,
        v.owned k h,
        insert-held waker x.sleepers k,
        tally-set (sleeps_as k) x.tickers i (record { sleeping = id; phase = searching }) here,
      )

  pub sleep-Inv :
      (will_wake : ℕ → ℕ → Bool) (waker : ℕ)
      → same_phase missed t.phase ≡ true
      → Inv (sleep will_wake waker i t x)
  unfolding sleep with_sleepers
  sleep-Inv will_wake waker h =
      if_holds Inv (t.sleeping == 0)
        (λ none_yet.
          let id = (insert waker x.sleepers).0 in
          record {
            sleepers = insert-Inv waker v.sleepers;
            owned = insert-owned waker none_yet;
            flag = ground arith;
            awake = ground (
              arith,
              tally-set alert x.tickers i (record { sleeping = id; phase = searching }) here,
            );
          })
        (λ asleep.
          let own = own-held i v here asleep in
          let s = (update will_wake t.sleeping waker x.sleepers).1 in
          let owned = λ (k : ℕ) (pos : 0 < k) (p : Phase).
            moved p k pos ∙ sym (update-held will_wake t.sleeping waker x.sleepers own k) in
          let valid = update-Inv will_wake t.sleeping waker v.sleepers own in
          if_holds Inv ((update will_wake t.sleeping waker x.sleepers).0)
            (λ was. record {
              sleepers = valid;
              owned = λ k pos. owned k pos searching;
              flag = ground arith;
              awake =
                  ground (arith, tally-set alert x.tickers i (record t { phase = searching }) here);
            })
            (λ was_not.
              let same = update-same will_wake t.sleeping waker x.sleepers own was_not in
              record {
                sleepers = valid;
                owned = λ k pos. owned k pos parked;
                flag = ground (arith, v.flag, same);
                awake = ground (
                  arith,
                  v.awake,
                  same,
                  tally-set alert x.tickers i (record t { phase = parked }) here,
                );
              }))

  -- A ticker that gives its id back, if it has one.
  remove-owned :
      (p : Phase)
      → (t.sleeping == 0) ≡ false
      → (k : ℕ) → 0 < k
      → tally (sleeps_as k) (set x.tickers i (record { sleeping = 0; phase = p }))
        ≡ held k (remove t.sleeping x.sleepers).1
  remove-owned p asleep k h = ground (
    arith,
    v.owned k h,
    remove-held t.sleeping x.sleepers (own-held i v here asleep) k,
    tally-set (sleeps_as k) x.tickers i (record { sleeping = 0; phase = p }) here,
  )

  awake-owned :
      (p : Phase)
      → (t.sleeping == 0) ≡ true
      → (k : ℕ) → 0 < k
      → tally (sleeps_as k) (set x.tickers i (record { sleeping = 0; phase = p }))
        ≡ held k x.sleepers
  awake-owned p none_yet k h = ground (
    arith,
    v.owned k h,
    tally-set (sleeps_as k) x.tickers i (record { sleeping = 0; phase = p }) here,
  )

  pub wake-keeps : Inv (wake i t x)
  unfolding wake with_sleepers
  wake-keeps =
      if_holds
        (λ (y : Executor). Inv (
          at_ticker i (record { sleeping = 0; phase = parked })
            (record y { pending = x.pending + 1 })))
        (t.sleeping == 0)
        (λ none_yet. record {
          sleepers = v.sleepers;
          owned = awake-owned parked none_yet;
          flag = v.flag;
          awake = ground arith;
        })
        (λ asleep. record {
          sleepers = remove-Inv t.sleeping v.sleepers (own-held i v here asleep);
          owned = remove-owned parked asleep;
          flag = ground arith;
          awake = ground arith;
        })

  pub drop_ticker-Inv : same_phase parked t.phase ≡ true → Inv (drop_ticker i t x)
  unfolding drop_ticker with_sleepers
  drop_ticker-Inv h =
      let alerts = tally-set alert x.tickers i (record { sleeping = 0; phase = gone }) here in
      if_holds Inv (t.sleeping == 0)
        (λ none_yet. record {
          sleepers = v.sleepers;
          owned = awake-owned gone none_yet;
          flag = v.flag;
          awake = ground (arith, v.awake, alerts);
        })
        (λ asleep.
          let own = own-held i v here asleep in
          if_holds (λ (y : Executor). Inv (at_ticker i (record { sleeping = 0; phase = gone }) y))
            ((remove t.sleeping x.sleepers).0)
            (λ was. record {
              sleepers = remove-Inv t.sleeping v.sleepers own;
              owned = remove-owned gone asleep;
              flag = ground arith;
              awake = ground arith;
            })
            (λ was_not.
              let kept = remove-is_notified t.sleeping x.sleepers own v.sleepers was_not in
              record {
                sleepers = remove-Inv t.sleeping v.sleepers own;
                owned = remove-owned gone asleep;
                flag = ground arith;
                awake = ground (arith, v.awake, alerts, kept);
              }))
