-- ===== src/Base/Memory.antt =====
-- Memory as a function of the address: slices of it, and writes to it.
use Prim.Native.Nat.{ℕ, zero, suc, ◌+◌, ◌≤◌, ◌<◌}
use mathlib.Core.Path.{◌≡◌, refl, ap, ◌∙◌}
use mathlib.Core.List.{List, [], ◌∷◌, ◌++◌}
use native.Mathlib.Omega.{arith}
use cynthia.Base.Tests.{◌==◌, if◌then◌else◌}
use cynthia.Base.Lists.{length}

module _ {ℓ} {A : Type ℓ} where
  abbrev pub write_byte : ℕ → A → (ℕ → A) → ℕ → A
  write_byte at byte memory i = if i == at then byte else memory i

  unfoldable pub write_bytes : ℕ → List A → (ℕ → A) → ℕ → A
  write_bytes from [] memory = memory
  write_bytes from (b ∷ rest) memory = write_bytes (from + 1) rest (write_byte from b memory)

  unfoldable pub slice : (ℕ → A) → ℕ → ℕ → List A
  slice memory from zero = []
  slice memory from (suc n) = memory from ∷ slice memory (from + 1) n

  -- Bytes written are found where they were written, and nowhere else.
  pub write_bytes-below :
      (bytes : List A) (from i : ℕ) (memory : ℕ → A)
      → i < from
      → write_bytes from bytes memory i ≡ memory i
  unfolding write_bytes
  write_bytes-below [] from i memory h = refl
  write_bytes-below (b ∷ rest) from i memory h =
      write_bytes-below rest (from + 1) i (write_byte from b memory) (omega (arith, h))
      ∙ ground arith

  pub write_bytes-above :
      (bytes : List A) (from i : ℕ) (memory : ℕ → A)
      → from + length bytes ≤ i
      → write_bytes from bytes memory i ≡ memory i
  unfolding write_bytes
  write_bytes-above [] from i memory h = refl
  write_bytes-above (b ∷ rest) from i memory h =
      write_bytes-above rest (from + 1) i (write_byte from b memory) (omega (arith, h))
      ∙ ground arith

  pub slice-write_bytes :
      (bytes : List A) (from : ℕ) (memory : ℕ → A)
      → slice (write_bytes from bytes memory) from (length bytes) ≡ bytes
  unfolding slice write_bytes
  slice-write_bytes [] from memory = refl
  slice-write_bytes (b ∷ rest) from memory =
      let first : write_bytes (from + 1) rest (write_byte from b memory) from ≡ b =
        write_bytes-below rest (from + 1) from (write_byte from b memory) (omega arith)
        ∙ ground arith in
      rw (first, slice-write_bytes rest (from + 1) (write_byte from b memory))

  pub slice-split :
      (memory : ℕ → A) (from a b : ℕ)
      → slice memory from (a + b) ≡ slice memory from a ++ slice memory (from + a) b
  unfolding slice
  slice-split memory from zero b =
      let same : 0 + b ≡ b = omega arith in
      let start : from + 0 ≡ from = omega arith in rw (same, start)
  slice-split memory from (suc a) b =
      let more : suc a + b ≡ suc (a + b) = omega arith in
      let next : from + suc a ≡ from + 1 + a = omega arith in
      rw (more, next) (ap (λ l. memory from ∷ l) (slice-split memory (from + 1) a b))

  pub slice-same :
      (m m' : ℕ → A) (from n : ℕ)
      → ((i : ℕ) → from ≤ i → i < from + n → m i ≡ m' i)
      → slice m from n ≡ slice m' from n
  unfolding slice
  slice-same m m' from zero same = refl
  slice-same m m' from (suc n) same =
      let rest =
        slice-same m m' (from + 1) n
          (λ i low high. same i (omega (arith, low)) (omega (arith, high))) in
      rw (same from (omega arith) (omega arith), rest)
