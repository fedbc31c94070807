-- ===== src/BytePool/Fresh.antt =====
-- cynthia/src/platform/byte_pool/pool.rs: a pool and the buffers that its clients hold.
use cynthia.Base.{
  ℕ, zero, suc, ◌+◌, ◌≤◌, ◌≡◌, ◌≢◌, ◌⊎◌, Bool-cases, ◌++◌, sym, ◌∙◌, inl, inr, refl, ap, Bool, true,
  Option, none, some, some_eq, some_kept, List, [], ◌∷◌, length, get_elem?, set, tally, tally-set,
  ltb, ◌==◌, if_holds, if◌then◌else◌, arith,
}
use cynthia.Base.Machine.{Machine, Reach, Reach-Keeps}
use cynthia.BytePool.{Block, BytePool, new, class_of, bask, alloc, push_raw_block, realloc}
use cynthia.BytePool.Safety.{stock, alloc_lem, push_raw_block_lem, next-set_bask}

-- `used` are the blocks of the ByteBuffers that have not been dropped.
pub record Heap : Type 0 where
  pub pool : BytePool
  pub used : List Block

pub data Action : Type 0 where
  allocs drops : ℕ → Action
  reallocs : ℕ → ℕ → Action

abbrev remove_at : List Block → ℕ → List Block
remove_at [] i = []
remove_at (b ∷ l) zero = l
remove_at (b ∷ l) (suc i) = b ∷ remove_at l i

abbrev dropped : Heap → ℕ → Option Block → Option Heap
dropped h i none = none
dropped h i (some b) = some (record { pool = push_raw_block b h.pool; used = remove_at h.used i })

abbrev resized : Heap → ℕ → Option Block → Option Heap
resized h i none = none
resized h i (some b) = some (record h { used = set h.used i b })

abbrev try_realloc : (ℕ → ℕ → ℕ) → (ℕ → ℕ → ℕ) → ℕ → Option Block → Option Block
try_realloc grow shrink n none = none
try_realloc grow shrink n (some b) = realloc grow shrink n b

module _ (grow shrink : ℕ → ℕ → ℕ) where
  -- Any buffer may be dropped, or reallocated to any size; `none` is the panic of that.
  abbrev can : Action → Heap → Bool
  can (allocs n) h = true
  can (drops i) h = ltb i (length h.used)
  can (reallocs i n) h = ltb i (length h.used)

  abbrev act : Action → Heap → Option Heap
  act (allocs n) h = some (record { pool = (alloc n h.pool).1; used = (alloc n h.pool).0 ∷ h.used })
  act (drops i) h = dropped h i (get_elem? h.used i)
  act (reallocs i n) h = resized h i (try_realloc grow shrink n (get_elem? h.used i))

  abbrev pub machine : Machine
  machine = record {
    State = Heap;
    Action = Action;
    first = record { pool = new; used = [] };
    can = can;
    act = act;
  }

-- Counts the blocks with the number `n`.
abbrev pub numbered : ℕ → Block → ℕ
numbered n b = if b.id == n then 1 else 0

record Apart (h : Heap) : Type 0 where
  once : (n : ℕ) → tally (numbered n) h.used + stock (numbered n) h.pool ≤ 1
  unseen : (n : ℕ) → h.pool.next ≤ n → tally (numbered n) h.used + stock (numbered n) h.pool ≡ 0

tally-remove_at :
    (w : Block → ℕ) (l : List Block) (i : ℕ) {b : Block}
    → get_elem? l i ≡ some b
    → tally w (remove_at l i) + w b ≡ tally w l
tally-remove_at w [] i e = cc e
tally-remove_at w (x ∷ l) zero e = omega (arith, ap w (some_eq e))
tally-remove_at w (x ∷ l) (suc i) e = omega (arith, tally-remove_at w l i e)

numbered_cases :
    (n : ℕ) (b : Block) → ((numbered n b ≡ 1) × (b.id ≡ n)) ⊎ ((numbered n b ≡ 0) × (b.id ≢ n))
numbered_cases n b = elim (Bool-cases (b.id == n)) [
  | inl e ↦ inl (ground (arith, e), ground (arith, e))
  | inr e ↦ inr (ground (arith, e), ground (arith, e))
]

same-numbered : (n : ℕ) (b b' : Block) → b'.id ≡ b.id → numbered n b' ≡ numbered n b
same-numbered n b b' e = ap (λ k. if k == n then 1 else 0) e

allocs-counts :
    (n m : ℕ) (h : Heap)
    → Apart h
    → (numbered m (alloc n h.pool).0
          + tally (numbered m) h.used
          + stock (numbered m) (alloc n h.pool).1
        ≤ 1)
      × ((alloc n h.pool).1.next ≤ m
          → numbered m (alloc n h.pool).0
              + tally (numbered m) h.used
              + stock (numbered m) (alloc n h.pool).1
            ≡ 0)
allocs-counts n m h v = elim (alloc_lem (numbered m) n h.pool).1 [
  | inr (next, same) ↦
      (omega (arith, same, v.once m), λ l. omega (arith, same, v.unseen m (omega (arith, l, next))))
  | inl (id, next, same) ↦ elim (numbered_cases m (alloc n h.pool).0) [
    | inl (one, e) ↦ (
      omega (arith, one, same, v.unseen m (omega (arith, e, id))),
      λ l. absurd (omega (arith, l, next, e, id)),
    )
    | inr (other, e) ↦ (
      omega (arith, other, same, v.once m),
      λ l. omega (arith, other, same, v.unseen m (omega (arith, l, next))),
    )
  ]
]

allocs-Apart :
    (n : ℕ) (h : Heap)
    → Apart h
    → Apart (record { pool = (alloc n h.pool).1; used = (alloc n h.pool).0 ∷ h.used })
allocs-Apart n h v = record {
  once = λ m. (allocs-counts n m h v).0;
  unseen = λ m. (allocs-counts n m h v).1;
}

next-push_raw_block : (b : Block) (p : BytePool) → (push_raw_block b p).next ≡ p.next
unfolding push_raw_block
next-push_raw_block b p = next-set_bask (class_of b.len) (bask (class_of b.len) p ++ b ∷ []) p

drops-Apart :
    (i : ℕ) (h h' : Heap) (o : Option Block)
    → Apart h
    → get_elem? h.used i ≡ o
    → dropped h i o ≡ some h'
    → Apart h'
drops-Apart i h h' none v q e = cc e
drops-Apart i h h' (some b) v q e =
    let moved = λ (m : ℕ). (push_raw_block_lem (numbered m) b h.pool).0 in
    let taken = λ (m : ℕ). tally-remove_at (numbered m) h.used i q in
    some_kept Apart _ e (record {
      once = λ m. omega (arith, moved m, taken m, v.once m);
      unseen = λ m l.
          omega
            (arith, moved m, taken m, v.unseen m (omega (arith, l, next-push_raw_block b h.pool)));
    })

realloc-id :
    (grow shrink : ℕ → ℕ → ℕ) (n : ℕ) (b b' : Block)
    → realloc grow shrink n b ≡ some b'
    → b'.id ≡ b.id
unfolding realloc
realloc-id grow shrink n b b' =
    let Named = λ (o : Option Block). o ≡ some b' → b'.id ≡ b.id in
    let named = λ (c : Block) (same : c.id ≡ b.id) (e : some c ≡ some b').
      ap (λ (d : Block). d.id) (sym (some_eq e)) ∙ same in
    if_holds Named (n == 0) (λ _ e. cc e)
      (λ _.
        if_holds Named (ltb b.room n) (λ _. named _ refl)
          (λ _. if_holds Named (ltb n b.room) (λ _. named _ refl) (λ _. named _ refl)))

reallocs-Apart :
    (grow shrink : ℕ → ℕ → ℕ) (i n : ℕ) (h h' : Heap) (o : Option Block)
    → Apart h
    → get_elem? h.used i ≡ o
    → resized h i (try_realloc grow shrink n o) ≡ some h'
    → Apart h'
reallocs-Apart grow shrink i n h h' none v q e = cc e
reallocs-Apart grow shrink i n h h' (some b) v q e = at_result (realloc grow shrink n b) refl e
  where
    at_result :
        (o : Option Block) → realloc grow shrink n b ≡ o → resized h i o ≡ some h' → Apart h'
    at_result none r e' = cc e'
    at_result (some b') r e' =
        let same = λ (m : ℕ). same-numbered m b b' (realloc-id grow shrink n b b' r) in
        let moved = λ (m : ℕ). tally-set (numbered m) h.used i b' q in
        some_kept Apart _ e' (record {
          once = λ m. omega (arith, same m, moved m, v.once m);
          unseen = λ m l. omega (arith, same m, moved m, v.unseen m l);
        })

module _ (grow shrink : ℕ → ℕ → ℕ) where
  act-Apart :
      (a : Action) (h h' : Heap)
      → Apart h
      → can grow shrink a h ≡ true
      → act grow shrink a h ≡ some h'
      → Apart h'
  act-Apart (allocs n) h h' v p e = some_kept Apart _ e (allocs-Apart n h v)
  act-Apart (drops i) h h' v p e = drops-Apart i h h' (get_elem? h.used i) v refl e
  act-Apart (reallocs i n) h h' v p e =
      reallocs-Apart grow shrink i n h h' (get_elem? h.used i) v refl e

  first-Apart : Apart (machine grow shrink).first
  unfolding new
  first-Apart = record { once = λ n. omega arith; unseen = λ n l. refl }

  -- After any allocations, drops and reallocations, with any of the sizes and buffers: a block that is
  -- allocated has the size that was asked for, and no other block has its number, neither one that a
  -- client holds nor one that is left in the pool. `grow` and `shrink` may be any functions.
  pub alloc-fresh :
      {h : Heap}
      → Reach (machine grow shrink) h
      → (size : ℕ)
      → ((alloc size h.pool).0.len ≡ size)
        × (tally (numbered (alloc size h.pool).0.id) h.used ≡ 0)
        × (stock (numbered (alloc size h.pool).0.id) (alloc size h.pool).1 ≡ 0)
  alloc-fresh {h} r size =
      let v =
        Reach-Keeps (machine grow shrink) Apart
          (record { at_first = first-Apart; at_step = act-Apart }) r in
      let counts = (allocs-counts size (alloc size h.pool).0.id h v).0 in
      elim (numbered_cases (alloc size h.pool).0.id (alloc size h.pool).0) [
        | inl (one, e) ↦ (
          (alloc_lem (numbered 0) size h.pool).0,
          omega (arith, counts, one),
          omega (arith, counts, one),
        )
        | inr (other, e) ↦ absurd (e refl)
      ]
