-- ===== src/Rander.antt =====
-- cynthia/src/utils/rander.rs: the random numbers. A draw takes the generator's state, and gives the
-- number and the next state.
pub mod Draws
pub mod Accept
pub mod Uniform
pub mod High
pub mod Ranges
pub mod Empty
pub mod Shuffle
mod Tests
use Prim.Native.Nat.{bit_xor}
use cynthia.Base.{
  ℕ, zero, suc, ◌+◌, ◌-◌, ◌*◌, ◌/◌, ◌%◌, ◌^◌, Bool, true, false, ◌&&◌, if◌then◌else◌, ltb, leb,
  ◌==◌, Option, none, some, List, [], ◌∷◌, get_elem?, set, length,
}

unfoldable pub gen_u32 : ℕ → ℕ × ℕ
gen_u32 s =
    let x = bit_xor s (s / 2 ^ 18) / 2 ^ 27 % 2 ^ 32 in
    let r = s / 2 ^ 59 in
    (
      -- `rotate_right`
      (x / 2 ^ r + x * 2 ^ (32 - r)) % 2 ^ 32,
      (s * 6364136223846793005 % 2 ^ 64 + 1442695040888963407) % 2 ^ 64,
    )

-- Two halves that share no bit: `|` is their sum.
unfoldable pub gen_u64 : ℕ → ℕ × ℕ
unfolding gen_u32
gen_u64 s = let (a, s') = gen_u32 s in let (b, s'') = gen_u32 s' in (a * 2 ^ 32 + b, s'')

unfoldable pub gen_u128 : ℕ → ℕ × ℕ
unfolding gen_u64
gen_u128 s = let (a, s') = gen_u64 s in let (b, s'') = gen_u64 s' in (a * 2 ^ 64 + b, s'')

unfoldable pub seed : ℕ → ℕ
unfolding gen_u32
seed n = (gen_u32 ((n + 1442695040888963407) % 2 ^ 64)).1

-- `mul_high_u32` and `mul_high_u64`, at their width.
unfoldable pub mul_high : ℕ → ℕ → ℕ → ℕ
mul_high w a b = a * b / 2 ^ w

unfoldable pub mul_high_u128 : ℕ → ℕ → ℕ
mul_high_u128 a b =
    let a_lo = a % 2 ^ 64 in
    let a_hi = a / 2 ^ 64 in
    let b_lo = b % 2 ^ 64 in
    let b_hi = b / 2 ^ 64 in
    let carry = a_lo * b_lo / 2 ^ 64 in
    let carry' = (a_hi * b_lo % 2 ^ 64 + a_lo * b_hi % 2 ^ 64 + carry) / 2 ^ 64 in
    a_hi * b_hi + a_hi * b_lo / 2 ^ 64 + a_lo * b_hi / 2 ^ 64 + carry'

-- `gen_mod_u32` and its kin, at `w` bits.
module _ (w : ℕ) where
  -- `r.wrapping_mul(n)`
  abbrev pub lo : ℕ → ℕ → ℕ
  lo r n = r * n % 2 ^ w

  -- `n.wrapping_neg() % n`
  abbrev pub threshold : ℕ → ℕ
  threshold n = (2 ^ w - n) % 2 ^ w % n

-- Over a generator of `w` bits.
module _ (draw : ℕ → ℕ × ℕ) (w : ℕ) where
  -- `while lo < t`, with the draw that comes before it; at most `fuel` draws more.
  unfoldable pub redraw : ℕ → ℕ → ℕ → ℕ × ℕ → Option (ℕ × ℕ)
  unfolding mul_high
  redraw zero n t (r, s) = if ltb (lo w r n) t then none else some (mul_high w r n, s)
  redraw (suc fuel) n t (r, s) =
      let rest = redraw fuel n t (draw s) in
      if ltb (lo w r n) t then rest else some (mul_high w r n, s)

  unfoldable pub gen_mod : ℕ → ℕ → ℕ → Option (ℕ × ℕ)
  unfolding redraw mul_high
  gen_mod fuel n s =
      let (r, s') = draw s in
      if ltb (lo w r n) n then redraw fuel n (threshold w n) (r, s') else some (mul_high w r n, s')

pub data Bound : Type 0 where
  included excluded : ℕ → Bound
  unbounded : Bound

-- An integer type of `b` bits by its bit patterns, in two's complement if it is `signed`.
module _ (b : ℕ) (signed : Bool) where
  abbrev pub min_value : ℕ
  min_value = if signed then 2 ^ (b - 1) else 0

  abbrev pub max_value : ℕ
  max_value = if signed then 2 ^ (b - 1) - 1 else 2 ^ b - 1

  -- The place of a pattern in the order of the type.
  abbrev pub rank : ℕ → ℕ
  rank x = if signed then (x + 2 ^ (b - 1)) % 2 ^ b else x

  unfoldable pub low_of : Bound → Option ℕ
  low_of unbounded = some min_value
  low_of (included x) = some x
  low_of (excluded x) = if x == max_value then none else some ((x + 1) % 2 ^ b)

  unfoldable pub high_of : Bound → Option ℕ
  high_of unbounded = some max_value
  high_of (included x) = some x
  high_of (excluded x) = if x == min_value then none else some ((x + 2 ^ b - 1) % 2 ^ b)

  -- `high.wrapping_sub(low).wrapping_add(1)`, and `len as _` into `w` bits.
  abbrev pub len_of : ℕ → ℕ → ℕ
  len_of low high = ((high + 2 ^ b - low) % 2 ^ b + 1) % 2 ^ b

  abbrev pub extend : ℕ → ℕ → ℕ
  extend w len = if signed && leb (2 ^ (b - 1)) len then len + 2 ^ w - 2 ^ b else len

  module _ (draw : ℕ → ℕ × ℕ) (w : ℕ) where
    abbrev pub offset : ℕ → Option (ℕ × ℕ) → Option (ℕ × ℕ)
    offset low none = none
    offset low (some (v, s)) = some ((low + v % 2 ^ b) % 2 ^ b, s)

    -- What is drawn between two bounds that are in order.
    unfoldable pub between : ℕ → ℕ → ℕ → ℕ → Option (ℕ × ℕ)
    unfolding gen_mod
    between fuel low high s =
        if low == min_value && high == max_value
        then (let (v, s') = draw s in some (v % 2 ^ b, s'))
        else offset low (gen_mod draw w fuel (extend w (len_of low high)) s)

    -- `none` is the panic of an empty range, `some none` a draw that takes more fuel.
    abbrev pub in_order : ℕ → ℕ → Option ℕ → Option ℕ → Option (Option (ℕ × ℕ))
    in_order fuel s none high = none
    in_order fuel s (some low) none = none
    in_order fuel s (some low) (some high) =
        if ltb (rank high) (rank low) then none else some (between fuel low high s)

    unfoldable pub rand_integer : ℕ → Bound → Bound → ℕ → Option (Option (ℕ × ℕ))
    unfolding between low_of high_of
    rand_integer fuel start end s = in_order fuel s (low_of start) (high_of end)
