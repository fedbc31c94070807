-- ===== src/Base/Machine.antt =====
-- Machines: states, actions that may be possible or not, and steps. `none` is an abort.
use mathlib.Core.Path.{◌≡◌, refl}
use mathlib.Core.Bool.{Bool, true, false}
use mathlib.Core.Option
use mathlib.Core.Option.{Option, none, some}
use mathlib.Core.List.{List, [], ◌∷◌}
use cynthia.Base.Tests.{if◌then◌else◌, some_kept}

pub record Machine : Type 1 where
  pub State : Type 0
  pub Action : Type 0
  pub first : State
  pub can : Action → State → Bool
  pub act : Action → State → Option State

module _ (m : Machine) where
  open m use {State, Action, first, can, act}

  -- The states that some sequence of possible actions leads to.
  pub data Reach : State → Type 0 where
    start : Reach first
    later : {s s' : State} (a : Action) → Reach s → can a s ≡ true → act a s ≡ some s' → Reach s'

  pub record Keeps {ℓ} (P : State → Type ℓ) : Type ℓ where
    pub at_first : P first
    pub at_step : (a : Action) (s s' : State) → P s → can a s ≡ true → act a s ≡ some s' → P s'

  -- A property of the first state that every action keeps holds of every reachable state.
  pub Reach-Keeps {ℓ} : (P : State → Type ℓ) {s : State} → Keeps P → Reach s → P s
  Reach-Keeps P k start = k.at_first
  Reach-Keeps P k (later {s} {s'} a r h e) = k.at_step a s s' (Reach-Keeps P k r) h e

  -- The actions in order, as long as each of them is possible.
  unfoldable pub run : List Action → State → Option State
  unfolding Option.bind
  run [] s = some s
  run (a ∷ rest) s = if can a s then Option.bind (act a s) (run rest) else none

  run_next :
      (a : Action) (rest : List Action) {s s' : State} (b : Bool) (o : Option State)
      → can a s ≡ b
      → act a s ≡ o
      → (if b then Option.bind o (run rest) else none) ≡ some s'
      → Reach s
      → ((d : State) → Reach d → run rest d ≡ some s' → Reach s')
      → Reach s'
  unfolding Option.bind
  run_next a rest false o p q e r go_on = cc
  run_next a rest true none p q e r go_on = cc
  run_next a rest true (some d) p q e r go_on = go_on d (later a r p q) e

  pub run-Reach : (steps : List Action) {s s' : State} → Reach s → run steps s ≡ some s' → Reach s'
  unfolding run
  run-Reach [] {s} r e = some_kept Reach s e r
  run-Reach (a ∷ rest) {s} r e =
      run_next a rest (can a s) (act a s) refl refl e r (λ d r' e'. run-Reach rest r' e')

  abbrev pub after : List Action → State
  after steps = Option.get_or (run steps first) first
