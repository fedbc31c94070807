-- ===== src/Stream/Pairs/Race.antt =====
-- cynthia/src/future/stream.rs: how `Or` and `Race` end.
use cynthia.Base.{◌≢◌, Bool, true, false, Option, none, some}
use cynthia.Stream.{Poll, pending, ready, Stream}
use cynthia.Stream.Pairs.{race_poll, race_answer}

-- An answer that is an item, or else what `other` answers, is not the end if `other` is not.
answer-open {ℓ} :
    {A Z W : Type ℓ} (q : Poll (Option A) × Z) (give : Z → W) (other : Z → Poll (Option A) × W)
    → ((z : Z) → (other z).0 ≢ ready none)
    → (race_answer q (λ p z. (p, give z)) other).0 ≢ ready none
answer-open (ready (some a), z) give other h e = cc e
answer-open (ready none, z) give other h e = h z e
answer-open (pending, z) give other h e = h z e

module _ {ℓ} {X Y A : Type ℓ} (s : Stream X A) (t : Stream Y A) where
  -- `Race` never returns `Ready(None)`, not even when both streams have ended.
  pub race-never_ends : (heads : Bool) (x : X) (y : Y) → (race_poll s t heads (x, y)).0 ≢ ready none
  unfolding race_poll
  race-never_ends true x y =
      answer-open (s.poll_next x) (λ x'. (x', y))
        (λ x'. race_answer (t.poll_next y) (λ p y'. (p, (x', y'))) (λ y'. (pending, (x', y'))))
        (λ x'.
          answer-open (t.poll_next y) (λ y'. (x', y')) (λ y'. (pending, (x', y'))) (λ y' e. cc e))
  race-never_ends false x y =
      answer-open (t.poll_next y) (λ y'. (x, y'))
        (λ y'. race_answer (s.poll_next x) (λ p x'. (p, (x', y'))) (λ x'. (pending, (x', y'))))
        (λ y'.
          answer-open (s.poll_next x) (λ x'. (x', y')) (λ x'. (pending, (x', y'))) (λ x' e. cc e))
