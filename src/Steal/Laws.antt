-- ===== src/Steal/Laws.antt =====
-- What a steal moves, and that its assertion cannot fail.
use cynthia.Base.{
  ℕ, zero, suc, ◌+◌, ◌-◌, ◌/◌, ◌≤◌, ◌≡◌, true, ltb, min, some, List, [], ◌∷◌, ◌++◌, length,
  length-append, take, drop, arith,
}
use mathlib.Core.List.{append_assoc, append-nil}
use cynthia.Steal.{steal_rounds, steal}

module _ {ℓ} {A : Type ℓ} where
  steal_rounds_lem :
      (cap n : ℕ) (src dest : List A)
      → n ≤ length src
      → length dest + n ≤ cap
      → steal_rounds cap n src dest ≡ some (drop n src, dest ++ take n src)
  unfolding steal_rounds
  steal_rounds_lem cap zero src dest h h' = rw append-nil
  steal_rounds_lem cap (suc n) [] dest h h' = absurd (omega arith)
  steal_rounds_lem cap (suc n) (t ∷ src) dest h h' =
      let room : ltb (length dest) cap ≡ true = ground arith in
      let ih =
        steal_rounds_lem cap n src (dest ++ t ∷ []) (omega arith)
          (omega (arith, length-append dest (t ∷ []))) in
      rw (room, ih, append_assoc)

  -- The number of elements that a steal moves.
  abbrev pub loot : ℕ → List A → List A → ℕ
  loot cap src dest = min ((length src + 1) / 2) (cap - length dest)

  -- A steal into a queue within its capacity moves the front half of the source, rounded up, or
  -- what the destination has room for, to the end of the destination in the same order.
  pub steal_lem :
      (cap : ℕ) (src dest : List A)
      → length dest ≤ cap
      → steal cap src dest
        ≡ some (drop (loot cap src dest) src, dest ++ take (loot cap src dest) src)
  unfolding steal
  steal_lem cap [] dest h =
      let none_left : loot cap [] dest ≡ 0 = omega arith in rw (none_left, append-nil)
  steal_lem cap (t ∷ src) dest h =
      let some_left : ltb 0 ((length (t ∷ src) + 1) / 2) ≡ true = ground arith in
      rw (
        some_left,
        steal_rounds_lem cap (loot cap (t ∷ src) dest) (t ∷ src) dest (omega arith) (omega arith),
      )
