-- ===== src/BytePool.antt =====
-- cynthia/src/platform/byte_pool: pool.rs, the blocks that wait to be used again, by size, and alloc.rs,
-- the blocks, which are Vecs. A SegQueue is a list, popped at its front and pushed at its end. `id` tells
-- two blocks of one size apart; the code has no such number.
pub mod Safety
pub mod Fresh
mod Tests
use cynthia.Base.{
  ℕ, ◌+◌, ◌*◌, Bool, true, false, if◌then◌else◌, ltb, leb, ◌==◌, min, Option, none, some, List, [],
  ◌∷◌, ◌++◌,
}

-- A Vec by its length, which the pool takes for its capacity, and by what `Vec::capacity` says.
pub record Block : Type 0 where
  pub id : ℕ
  pub len : ℕ
  pub room : ℕ

abbrev pub low_line : ℕ
low_line = 2 * 1024

abbrev pub high_line : ℕ
high_line = 64 * 1024

pub data Class : Type 0 where
  small medium large : Class

unfoldable pub class_of : ℕ → Class
class_of size = if leb size low_line then small else (if leb size high_line then medium else large)

-- `next` numbers the blocks.
pub record BytePool : Type 0 where
  pub small_bask : List Block
  pub medium_bask : List Block
  pub large_bask : List Block
  pub next : ℕ

unfoldable pub new : BytePool
new = record { small_bask = []; medium_bask = []; large_bask = []; next = 0 }

abbrev pub bask : Class → BytePool → List Block
bask small p = p.small_bask
bask medium p = p.medium_bask
bask large p = p.large_bask

abbrev pub set_bask : Class → List Block → BytePool → BytePool
set_bask small l p = record p { small_bask = l }
set_bask medium l p = record p { medium_bask = l }
set_bask large l p = record p { large_bask = l }

-- `T::alloc`: `vec![T::default(); size]`.
unfoldable pub alloc_block : ℕ → BytePool → Block × BytePool
alloc_block size p =
    (record { id = p.next; len = size; room = size }, record p { next = p.next + 1 })

-- What `alloc` does with the list of the size: a block of another size goes to its end.
unfoldable pub alloc_from : Class → ℕ → List Block → BytePool → Block × BytePool
alloc_from c size [] p = alloc_block size p
alloc_from c size (el ∷ rest) p =
    if el.len == size
    then (el, set_bask c rest p)
    else alloc_block size (set_bask c (rest ++ el ∷ []) p)

unfoldable pub alloc : ℕ → BytePool → Block × BytePool
alloc size p = alloc_from (class_of size) size (bask (class_of size) p) p

-- `push_raw_block`, which the destructor of a ByteBuffer calls.
unfoldable pub push_raw_block : Block → BytePool → BytePool
push_raw_block b p = set_bask (class_of b.len) (bask (class_of b.len) p ++ b ∷ []) p

-- `realloc`. `self.capacity()` is `Vec::capacity`. What the Vec makes of its capacity when it grows and
-- when it shrinks to fit is a parameter; `none` is the panic of the assertion.
module _ (grow shrink : ℕ → ℕ → ℕ) where
  unfoldable pub realloc : ℕ → Block → Option Block
  realloc new_size b =
      if new_size == 0
      then none
      else (if ltb b.room new_size
          then some (record b { len = new_size; room = grow b.room new_size })
          else (if ltb new_size b.room
              then some
                  (record b { len = min b.len new_size; room = shrink b.room (min b.len new_size) })
              else some b))
