-- ===== src/BytePool/Safety.antt =====
-- cynthia/src/platform/byte_pool: what is allocated, and from where.
use cynthia.Base.{
  ℕ, ◌+◌, ◌≤◌, ◌<◌, ◌≡◌, ◌⊎◌, inl, inr, refl, ap, ◌∙◌, if_holds, ltb, ◌==◌, some, some_kept, List,
  [], ◌∷◌, ◌++◌, tally, tally-append, arith,
}
use cynthia.BytePool.{
  Block, BytePool, Class, small, medium, large, class_of, bask, set_bask, alloc_block, alloc_from,
  alloc, push_raw_block, realloc,
}

-- The sum of the weights of the blocks in a pool. With the weight that is 1 at one block it says how
-- often the block is there.
abbrev pub stock : (Block → ℕ) → BytePool → ℕ
stock w p = tally w p.small_bask + tally w p.medium_bask + tally w p.large_bask

stock-set_bask :
    (w : Block → ℕ) (c : Class) (l : List Block) (p : BytePool)
    → stock w (set_bask c l p) + tally w (bask c p) ≡ stock w p + tally w l
stock-set_bask w small l p = omega arith
stock-set_bask w medium l p = omega arith
stock-set_bask w large l p = omega arith

pub next-set_bask : (c : Class) (l : List Block) (p : BytePool) → (set_bask c l p).next ≡ p.next
next-set_bask small l p = refl
next-set_bask medium l p = refl
next-set_bask large l p = refl

-- What a block taken from the pool or made afresh leaves of it.
Balanced : (Block → ℕ) → ℕ → BytePool → Block × BytePool → Type 0
Balanced w size p r =
    (r.0.len ≡ size)
    × (((r.0.id ≡ p.next) × (r.1.next ≡ p.next + 1) × (stock w r.1 ≡ stock w p))
        ⊎ ((r.1.next ≡ p.next) × (stock w r.1 + w r.0 ≡ stock w p)))

alloc_from-Balanced :
    (w : Block → ℕ) (c : Class) (size : ℕ) (l : List Block) (p : BytePool)
    → bask c p ≡ l
    → Balanced w size p (alloc_from c size l p)
unfolding Balanced alloc_from alloc_block
alloc_from-Balanced w c size [] p e = (refl, inl (refl, refl, refl))
alloc_from-Balanced w c size (el ∷ rest) p e =
    let held = ap (tally w) e in
    if_holds (Balanced w size p) (el.len == size)
      (λ q.
        let less = stock-set_bask w c rest p in
        (ground (arith, q), inr (next-set_bask c rest p, omega (arith, less, held))))
      (λ q.
        let turned = rest ++ el ∷ [] in
        let same = stock-set_bask w c turned p in
        let sum = tally-append w rest (el ∷ []) in
        let n = next-set_bask c turned p in
        (refl, inl (n, ap (λ k. k + 1) n, omega (arith, same, sum, held))))

-- A block that is allocated has the size that was asked for. It is new, with the next number, and the
-- pool keeps what it has; or it is taken out of the pool. `w` may be any weight of blocks.
pub alloc_lem :
    (w : Block → ℕ) (size : ℕ) (p : BytePool)
    → ((alloc size p).0.len ≡ size)
      × ((((alloc size p).0.id ≡ p.next)
            × ((alloc size p).1.next ≡ p.next + 1)
            × (stock w (alloc size p).1 ≡ stock w p))
          ⊎ (((alloc size p).1.next ≡ p.next)
              × (stock w (alloc size p).1 + w (alloc size p).0 ≡ stock w p)))
unfolding Balanced alloc
alloc_lem w size p = alloc_from-Balanced w (class_of size) size (bask (class_of size) p) p refl

found_first :
    (c : Class) (b : Block) (rest : List Block) (p : BytePool)
    → (alloc_from c b.len (b ∷ rest) p).0 ≡ b
unfolding alloc_from alloc_block
found_first c b rest p =
    if_holds (λ (r : Block × BytePool). r.0 ≡ b) (b.len == b.len) (λ _. refl)
      (λ e. absurd (ground (arith, e)))

found_again :
    (c : Class) (b : Block) (p : BytePool)
    → bask c p ≡ []
    → (alloc_from c b.len
        (bask c (set_bask c (bask c p ++ b ∷ []) p))
        (set_bask c (bask c p ++ b ∷ []) p)).0
      ≡ b
found_again small b p e =
    ap (λ l. (alloc_from small b.len (l ++ b ∷ []) (set_bask small (l ++ b ∷ []) p)).0) e
    ∙ found_first small b [] (set_bask small (b ∷ []) p)
found_again medium b p e =
    ap (λ l. (alloc_from medium b.len (l ++ b ∷ []) (set_bask medium (l ++ b ∷ []) p)).0) e
    ∙ found_first medium b [] (set_bask medium (b ∷ []) p)
found_again large b p e =
    ap (λ l. (alloc_from large b.len (l ++ b ∷ []) (set_bask large (l ++ b ∷ []) p)).0) e
    ∙ found_first large b [] (set_bask large (b ∷ []) p)

-- A buffer that is dropped is in the pool once more than before, and no other block is; asked next for a
-- block of its size, a pool whose list of that size was empty gives it out again.
pub push_raw_block_lem :
    (w : Block → ℕ) (b : Block) (p : BytePool)
    → (stock w (push_raw_block b p) ≡ stock w p + w b)
      × (bask (class_of b.len) p ≡ [] → (alloc b.len (push_raw_block b p)).0 ≡ b)
unfolding push_raw_block alloc
push_raw_block_lem w b p = (
  omega (
    arith,
    stock-set_bask w (class_of b.len) (bask (class_of b.len) p ++ b ∷ []) p,
    tally-append w (bask (class_of b.len) p) (b ∷ []),
  ),
  λ e. found_again (class_of b.len) b p e,
)

Resized : ℕ → Block → Block → Type 0
Resized n b b' = (b.len ≡ b.room → b'.len ≡ n) × (b.len < n → n ≤ b.room → b'.len ≡ b.len)

-- A Vec that is reallocated has the new size if its room was used up; but if it is shorter than the new
-- size and has room for it, it keeps its length. `grow` and `shrink` may be any functions.
pub realloc_lem :
    (grow shrink : ℕ → ℕ → ℕ) (n : ℕ) (b b' : Block)
    → realloc grow shrink n b ≡ some b'
    → (b.len ≡ b.room → b'.len ≡ n) × (b.len < n → n ≤ b.room → b'.len ≡ b.len)
unfolding realloc Resized
realloc_lem grow shrink n b b' =
    if_holds (λ o. o ≡ some b' → Resized n b b') (n == 0) (λ _ e. cc e)
      (λ _.
        if_holds (λ o. o ≡ some b' → Resized n b b') (ltb b.room n)
          (λ q e. some_kept (Resized n b) _ e (λ _. refl, λ _ r. absurd (ground (arith, q, r))))
          (λ q.
            if_holds (λ o. o ≡ some b' → Resized n b b') (ltb n b.room)
              (λ r e.
                some_kept (Resized n b) _ e (λ z. ground (arith, r, z), λ l _. ground (arith, l)))
              (λ r e. some_kept (Resized n b) _ e (λ z. ground (arith, q, r, z), λ _ _. refl))))
