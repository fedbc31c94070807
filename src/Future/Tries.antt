-- ===== src/Future/Tries.antt =====
-- cynthia/src/future/future.rs: `try_zip`, which ends at the first error.
use cynthia.Base.{ℕ, ap, ◌∙◌, Option, none, some}
use cynthia.Future.{
  Polled, Takes, now, later, Zip, zip, Result, ok, err, try_end, try_keep1, try_keep2, try_first,
  try_second, try_zip_poll,
}
use cynthia.Future.Pairs.{max}

module _ {ℓ} {X Y A B E : Type ℓ} (f : X → Polled X (Result A E))
    (g : Y → Polled Y (Result B E)) where
  abbrev halfway :
      X → Option (Result A E) → Y → Option (Result B E) → Zip X Y (Result A E) (Result B E)
  halfway x a y b = record { future1 = x; output1 = a; future2 = y; output2 = b }

  first_done :
      {x : X} {y : Y} {n : ℕ} (a : A) {b : B}
      → Takes g y n (ok b)
      → Takes (try_zip_poll f g) (halfway x (some (ok a)) y none) n (ok (a, b))
  unfolding try_zip_poll try_first try_second try_keep2 try_end
  first_done {x} {y} a (now e) = now (ap (try_keep2 f g (halfway x (some (ok a)) y none)) e)
  first_done {x} {y} a (later e t) =
      later (ap (try_keep2 f g (halfway x (some (ok a)) y none)) e) (first_done a t)

  second_done :
      {x : X} {y : Y} {n : ℕ} {a : A} (b : B)
      → Takes f x n (ok a)
      → Takes (try_zip_poll f g) (halfway x none y (some (ok b))) n (ok (a, b))
  unfolding try_zip_poll try_first try_second try_keep1 try_end
  second_done {x} {y} b (now e) = now (ap (try_keep1 f g (halfway x none y (some (ok b)))) e)
  second_done {x} {y} b (later e t) =
      later (ap (try_keep1 f g (halfway x none y (some (ok b)))) e) (second_done b t)

  -- If both futures succeed, their `try_zip` is ready with both values when the later one is.
  pub try_zip-Takes :
      {x : X} {y : Y} {m n : ℕ} {a : A} {b : B}
      → Takes f x m (ok a)
      → Takes g y n (ok b)
      → Takes (try_zip_poll f g) (zip x y) (max m n) (ok (a, b))
  unfolding zip try_zip_poll try_first try_second try_keep1 try_keep2 try_end
  try_zip-Takes {x} {y} {a = a} (now {s'} e) (now e') = now (
      ap (try_keep1 f g (halfway x none y none)) e
      ∙ ap (try_keep2 f g (halfway s' (some (ok a)) y none)) e')
  try_zip-Takes {x} {y} {a = a} (now {s'} e) (later e' t') =
      later
        (ap (try_keep1 f g (halfway x none y none)) e
          ∙ ap (try_keep2 f g (halfway s' (some (ok a)) y none)) e')
        (first_done a t')
  try_zip-Takes {x} {y} {b = b} (later {s'} e t) (now e') =
      later
        (ap (try_keep1 f g (halfway x none y none)) e
          ∙ ap (try_keep2 f g (halfway s' none y none)) e')
        (second_done b t)
  try_zip-Takes {x} {y} (later {s'} e t) (later e' t') =
      later
        (ap (try_keep1 f g (halfway x none y none)) e
          ∙ ap (try_keep2 f g (halfway s' none y none)) e')
        (try_zip-Takes t t')

  late_error :
      {x : X} {y : Y} {n : ℕ} (a : A) {z : E}
      → Takes g y n (err z)
      → Takes (try_zip_poll f g) (halfway x (some (ok a)) y none) n (err z)
  unfolding try_zip_poll try_first try_second try_keep2 try_end
  late_error {x} {y} a (now e) = now (ap (try_keep2 f g (halfway x (some (ok a)) y none)) e)
  late_error {x} {y} a (later e t) =
      later (ap (try_keep2 f g (halfway x (some (ok a)) y none)) e) (late_error a t)

  -- If the first future succeeds and the second fails, their `try_zip` fails with its error as soon as
  -- the second does, whichever of them takes longer.
  pub try_zip-second_fails :
      {x : X} {y : Y} {m n : ℕ} {a : A} {z : E}
      → Takes f x m (ok a)
      → Takes g y n (err z)
      → Takes (try_zip_poll f g) (zip x y) n (err z)
  unfolding zip try_zip_poll try_first try_second try_keep1 try_keep2 try_end
  try_zip-second_fails {x} {y} {a = a} (now {s'} e) (now e') = now (
      ap (try_keep1 f g (halfway x none y none)) e
      ∙ ap (try_keep2 f g (halfway s' (some (ok a)) y none)) e')
  try_zip-second_fails {x} {y} {a = a} (now {s'} e) (later e' t') =
      later
        (ap (try_keep1 f g (halfway x none y none)) e
          ∙ ap (try_keep2 f g (halfway s' (some (ok a)) y none)) e')
        (late_error a t')
  try_zip-second_fails {x} {y} (later {s'} e t) (now e') = now (
      ap (try_keep1 f g (halfway x none y none)) e ∙ ap (try_keep2 f g (halfway s' none y none)) e')
  try_zip-second_fails {x} {y} (later {s'} e t) (later e' t') =
      later
        (ap (try_keep1 f g (halfway x none y none)) e
          ∙ ap (try_keep2 f g (halfway s' none y none)) e')
        (try_zip-second_fails t t')
