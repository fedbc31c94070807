-- ===== src/ReadBuf/Safety.antt =====
-- A buffer never shows memory that is not initialized.
use cynthia.Base.{
  ℕ, suc, ◌+◌, ◌^◌, ◌≤◌, ◌<◌, ◌≡◌, ◌==◌, ◌⊎◌, inl, inr, refl, sym, ap, ◌∙◌, Bool, true, false, ltb,
  Option, none, some, some_kept, List, [], ◌∷◌, ◌++◌, length, map, arith, Bool-cases, ltb→lt,
}
use cynthia.Base.Memory.{
  slice, write_bytes, write_byte, write_bytes-below, write_bytes-above, slice-write_bytes,
  slice-split, slice-same,
}
use cynthia.Base.Machine.{Reach, Reach-Keeps}
use cynthia.ReadBuf.{
  ReadBuf, uninit, remaining, filled, initialize_unfilled_to, initialize_unfilled, clear,
  set_filled, advance, put, put_slice, Action, act, machine,
}

abbrev pub is_some : Option ℕ → Bool
is_some none = false
is_some (some b) = true

pub record Inv (b : ReadBuf) : Type 0 where
  pub order : b.filled_until ≤ b.initialized_until
  pub inside : b.initialized_until ≤ b.capacity
  pub known : (i : ℕ) → i < b.initialized_until → is_some (b.buf i) ≡ true

uninit-Inv : (memory : ℕ → Option ℕ) (n : ℕ) → Inv (uninit memory n)
unfolding uninit
uninit-Inv memory n = record {
  order = omega arith;
  inside = omega arith;
  known = λ i h. ground arith;
}

initialize-Inv : (n : ℕ) {b b' : ReadBuf} → Inv b → initialize_unfilled_to n b ≡ some b' → Inv b'
unfolding initialize_unfilled_to remaining
initialize-Inv n {b} v e = record {
  order = ground arith;
  inside = ground arith;
  known = λ i h. ground (arith, v.known i);
}

set_filled-Inv : (n : ℕ) {b b' : ReadBuf} → Inv b → set_filled n b ≡ some b' → Inv b'
unfolding set_filled
set_filled-Inv n {b} v e = record {
  order = ground arith;
  inside = ground arith;
  known = λ i h. ground (arith, v.known i);
}

map-known :
    (bytes : List ℕ) (from i : ℕ) (memory : ℕ → Option ℕ)
    → from ≤ i
    → i < from + length bytes
    → is_some (write_bytes from (map some bytes) memory i) ≡ true
unfolding write_bytes
map-known [] from i memory low high = ground arith
map-known (x ∷ rest) from i memory low high = elim (Bool-cases (i == from)) [
  | inl here ↦
      let at : i ≡ from = ground arith in
      rw
        (
          at,
          write_bytes-below (map some rest) (from + 1) from (write_byte from (some x) memory)
              (omega arith),
        )
        (ground arith)
  | inr away ↦
      map-known rest (from + 1) i (write_byte from (some x) memory) (ground arith)
        (omega (arith, high))
]

length-map : (bytes : List ℕ) → length (map some bytes) ≡ length bytes
length-map [] = refl
length-map (x ∷ rest) = ap suc (length-map rest)

put-known :
    (bytes : List ℕ) {b : ReadBuf} (i : ℕ)
    → Inv b
    → i < (put bytes b).initialized_until
    → is_some ((put bytes b).buf i) ≡ true
unfolding put
put-known bytes {b} i v h = elim (Bool-cases (ltb i b.filled_until)) [
  | inl old ↦
      rw (write_bytes-below (map some bytes) b.filled_until i b.buf (ltb→lt _ _ old))
        (v.known i (omega (arith, ltb→lt _ _ old, v.order)))
  | inr new ↦ elim (Bool-cases (ltb i (b.filled_until + length bytes))) [
    | inl written ↦
        map-known bytes b.filled_until i b.buf (ground (arith, new)) (ltb→lt _ _ written)
    | inr above ↦
        rw
          (write_bytes-above (map some bytes) b.filled_until i b.buf
            (ground (arith, above, length-map bytes)))
          (v.known i (ground (arith, h, above)))
  ]
]

put_slice-Inv : (bytes : List ℕ) {b b' : ReadBuf} → Inv b → put_slice bytes b ≡ some b' → Inv b'
unfolding put_slice put remaining
put_slice-Inv bytes {b} v e = elim (Bool-cases (ltb (remaining b) (length bytes))) [
  | inl short ↦ ground (arith, short)
  | inr fits ↦ some_kept Inv (put bytes b) (rw fits at e) (record {
    order = ground arith;
    inside = ground (arith, v.order, v.inside, fits);
    known = λ i h. put-known bytes i v h;
  })
]

advance-Inv : (n : ℕ) {b b' : ReadBuf} → Inv b → advance n b ≡ some b' → Inv b'
unfolding advance
advance-Inv n {b} v e = elim (Bool-cases (ltb (b.filled_until + n) (2 ^ 64))) [
  | inl fits ↦ set_filled-Inv (b.filled_until + n) v (rw fits at e)
  | inr over ↦ ground (arith, over)
]

step-Inv : (a : Action) (b b' : ReadBuf) → Inv b → act a b ≡ some b' → Inv b'
unfolding act initialize_unfilled clear
step-Inv (Action.initializes n) b b' v e = initialize-Inv n v e
step-Inv Action.initializes_all b b' v e = initialize-Inv (remaining b) v e
step-Inv (Action.sets n) b b' v e = set_filled-Inv n v e
step-Inv (Action.advances n) b b' v e = advance-Inv n v e
step-Inv Action.clears b b' v e =
    some_kept Inv _ e (record { order = omega arith; inside = v.inside; known = v.known })
step-Inv (Action.puts bytes) b b' v e = put_slice-Inv bytes v e

module _ (memory : ℕ → Option ℕ) (n : ℕ) {b : ReadBuf}
    (r : Reach (machine (uninit memory n)) b) where
  Reach-Inv : Inv b
  Reach-Inv =
      Reach-Keeps (machine (uninit memory n)) Inv
        (record { at_first = uninit-Inv memory n; at_step = λ a c c' v h e. step-Inv a c c' v e }) r

  -- A buffer made over memory that is not initialized never shows a byte that nobody has written:
  -- after any operations every byte that counts as initialized, and so every filled one, has been
  -- written, and lies within the capacity.
  pub shows_written :
      (b.filled_until ≤ b.initialized_until)
      × (b.initialized_until ≤ b.capacity)
      × ((i : ℕ) → i < b.initialized_until → is_some (b.buf i) ≡ true)
  shows_written = (Reach-Inv.order, Reach-Inv.inside, Reach-Inv.known)

put-filled : (bytes : List ℕ) (b : ReadBuf) → filled (put bytes b) ≡ filled b ++ map some bytes
unfolding filled put
put-filled bytes b =
    let memory = (put bytes b).buf in
    let start : 0 + b.filled_until ≡ b.filled_until = omega arith in
    let old : slice memory 0 b.filled_until ≡ slice b.buf 0 b.filled_until =
      slice-same memory b.buf 0 b.filled_until (λ i low high.
        write_bytes-below (map some bytes) b.filled_until i b.buf (omega (arith, high))) in
    let new : slice memory b.filled_until (length bytes) ≡ map some bytes =
      ap (λ n. slice memory b.filled_until n) (sym (length-map bytes))
      ∙ slice-write_bytes (map some bytes) b.filled_until b.buf in
    slice-split memory 0 b.filled_until (length bytes) ∙ rw (start, old, new)

-- `put_slice` panics exactly if the bytes do not fit into the rest; otherwise the filled part is what
-- it was, followed by the bytes.
pub put_slice_lem :
    (bytes : List ℕ) (b : ReadBuf)
    → ((put_slice bytes b ≡ none) × (remaining b < length bytes))
      ⊎ ((put_slice bytes b ≡ some (put bytes b))
          × (length bytes ≤ remaining b)
          × (filled (put bytes b) ≡ filled b ++ map some bytes))
unfolding put_slice
put_slice_lem bytes b = elim (Bool-cases (ltb (remaining b) (length bytes))) [
  | inl short ↦ inl (rw short, ltb→lt _ _ short)
  | inr fits ↦ inr (rw fits, ground (arith, fits), put-filled bytes b)
]
