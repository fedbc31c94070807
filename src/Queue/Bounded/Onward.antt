-- ===== src/Queue/Bounded/Onward.antt =====
-- cynthia/src/platform/queue/bounded.rs: the states reached from a state by further steps.
use cynthia.Base.{ℕ, ◌<◌, ◌≡◌, true, some, length, arith}
use cynthia.Base.Machine.{Machine, Reach, Reach-Keeps, later}
use cynthia.Queue.Bounded.{Bounded, Action, can, act, machine}
use cynthia.Queue.Bounded.Position.{encode_mono}
use cynthia.Queue.Bounded.Inv.{Small}
use cynthia.Queue.Bounded.Growth.{act-Grows}
use cynthia.Queue.Bounded.Safety.{Reach-Inv}
use cynthia.Queue.Bounded.Later.{Later, Later-refl, Later-trans, act-Later}

module _ (cap mark : ℕ) where
  -- The steps that follow on a state.
  abbrev pub since : Bounded → Machine
  since x = record (machine cap mark) { first = x }

  Reached : Bounded → Bounded → Type 0
  Reached x y = Reach (machine cap mark) y × (Small cap mark y → Later cap mark x y)

  act-Reached :
      0 < cap
      → cap < mark
      → (x : Bounded) (a : Action) (y z : Bounded) → Reached x y
      → can cap mark a y ≡ true
      → act cap mark a y ≡ some z
      → Reached x z
  unfolding Reached
  act-Reached positive fits x a y z (r, l) h e = (
    later a r h e,
    λ small.
        let more =
          encode_mono cap mark positive fits (length y.accepted) (length z.accepted)
            (act-Grows cap mark a y z e) in
        let b : Small cap mark y = omega (arith, small, more) in
        Later-trans cap mark (l b)
          (act-Later cap mark positive fits y (Reach-Inv cap mark positive fits r b) b a z h e),
  )

  -- Before a word wraps round, what was so of a state is not taken back in one reached from it.
  pub since-Later :
      0 < cap
      → cap < mark
      → {x y : Bounded} → Reach (machine cap mark) x
      → Reach (since x) y
      → Reach (machine cap mark) y × (Small cap mark y → Later cap mark x y)
  unfolding Reached
  since-Later positive fits {x} r s =
      Reach-Keeps (since x) (Reached x)
        (record {
          at_first = (r, λ _. Later-refl cap mark x);
          at_step = λ a y z. act-Reached positive fits x a y z;
        })
        s
