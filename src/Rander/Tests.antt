-- ===== src/Rander/Tests.antt =====
-- Draws of a generator that always gives one number, and of the code's.
use cynthia.Base.{ℕ, ◌+◌, ◌*◌, ◌%◌, ◌≤◌, ◌<◌, ◌≡◌, ◌↔◌, refl, true, false, some, arith}
use cynthia.Rander.{
  mul_high, redraw, gen_mod, included, excluded, low_of, high_of, between, rand_integer,
}
use cynthia.Rander.Draws.{first_of, share}
use cynthia.Rander.Uniform.{gen_mod-uniform}

abbrev constantly : ℕ → ℕ → ℕ × ℕ
constantly r s = (r, s + 1)

-- Between -100 and 100 an `i8` can be 110: the length 201 is a negative `i8`.
i8_escapes :
    rand_integer 8 true (constantly 211) 32 0 (included 156) (included 100) 0 ≡ some (some (110, 1))
unfolding rand_integer low_of high_of between gen_mod redraw mul_high
i8_escapes = refl

u8_draw :
    rand_integer 8 false (constantly 211) 32 0 (included 10) (excluded 20) 0 ≡ some (some (10, 1))
unfolding rand_integer low_of high_of between gen_mod redraw mul_high
u8_draw = refl

-- Of the 16 numbers of 4 bits 5 are drawn for each number below 3. The draw 0 is refused, and the next
-- one, 7, gives 1.
abbrev sevens : ℕ → ℕ × ℕ
sevens s = (s * 7 % 16, s + 1)

gen_mod-uniform_example :
    ((gen_mod sevens 4 2 3 0 ≡ some (1, 2))
      ↔ (first_of 4 3 1 ≤ 7 × (7 < first_of 4 3 1 + share 4 3)))
    × (1 < 3 → first_of 4 3 1 + share 4 3 ≤ 16)
gen_mod-uniform_example =
    gen_mod-uniform sevens 4 3 2 1 0 1 (omega arith) (omega arith) (omega arith)
      (λ j l. let first : j ≡ 0 = omega (arith, l) in rw first (omega arith)) (omega arith)
