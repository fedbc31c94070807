-- ===== src/Rander/High.antt =====
-- cynthia/src/utils/rander.rs: the high half of a product of 128 bits.
use cynthia.Base.{ℕ, ◌+◌, ◌*◌, ◌/◌, ◌%◌, ◌^◌, ◌≡◌, ◌∙◌, sym, ap, arith}
use native.Mathlib.Nat.{add-mul, mul-add, div-add-mod, mul_assoc, mul_left_comm, mul-mul-mul_comm}
use cynthia.Rander.{mul_high, mul_high_u128}

-- A product by the halves of its factors.
product_by_halves :
    (ah al bh bl : ℕ)
    → (2 ^ 64 * ah + al) * (2 ^ 64 * bh + bl)
      ≡ 2 ^ 128 * (ah * bh) + 2 ^ 64 * (ah * bl + al * bh) + al * bl
product_by_halves ah al bh bl =
    let c = 2 ^ 64 in
    let expand = add-mul (c * ah) al (c * bh + bl) in
    let first = mul-add (c * ah) (c * bh) bl in
    let second = mul-add al (c * bh) bl in
    omega (
      arith,
      expand,
      first,
      second,
      mul-mul-mul_comm c ah c bh,
      mul_assoc c ah bl,
      mul_left_comm al c bh,
    )

-- The high half, from the four products of halves.
high_of_sum :
    (hh hl lh ll : ℕ)
    → hh + hl / 2 ^ 64 + lh / 2 ^ 64 + (hl % 2 ^ 64 + lh % 2 ^ 64 + ll / 2 ^ 64) / 2 ^ 64
      ≡ (2 ^ 128 * hh + 2 ^ 64 * (hl + lh) + ll) / 2 ^ 128
high_of_sum hh hl lh ll = omega arith

-- `mul_high_u128` is the high half of the product, though no product of the code has more than 128
-- bits.
pub mul_high_u128_lem : (a b : ℕ) → mul_high_u128 a b ≡ mul_high 128 a b
unfolding mul_high mul_high_u128
mul_high_u128_lem a b =
    let by_halves = product_by_halves (a / 2 ^ 64) (a % 2 ^ 64) (b / 2 ^ 64) (b % 2 ^ 64) in
    high_of_sum (a / 2 ^ 64 * (b / 2 ^ 64)) (a / 2 ^ 64 * (b % 2 ^ 64)) (a % 2 ^ 64 * (b / 2 ^ 64))
      (a % 2 ^ 64 * (b % 2 ^ 64))
    ∙ ap (λ c. c / 2 ^ 128)
        (sym by_halves
          ∙ ap (λ x. x * _) (div-add-mod a (2 ^ 64))
          ∙ ap (λ y. a * y) (div-add-mod b (2 ^ 64)))
