-- ===== src/BytePool/Tests.antt =====
-- A pool with a block that was given back.
use cynthia.Base.{ℕ, ◌≡◌, ◌<◌, ◌≤◌, refl, List, [], ◌∷◌, tally}
use cynthia.Base.Machine.{Reach, start, run, run-Reach, after}
use cynthia.BytePool.{Block, new, class_of, alloc, alloc_from, alloc_block, push_raw_block, realloc}
use cynthia.BytePool.Safety.{stock, realloc_lem}
use cynthia.BytePool.Fresh.{Heap, Action, allocs, drops, machine, numbered, alloc-fresh}

abbrev given_back : List Action
given_back = allocs 4096 ∷ allocs 10 ∷ drops 1 ∷ []

abbrev by_size : ℕ → ℕ → ℕ
by_size room n = n

abbrev with_page : Heap
with_page = after (machine by_size by_size) given_back

with_page-Reach : Reach (machine by_size by_size) with_page
unfolding run new alloc alloc_from alloc_block push_raw_block class_of
with_page-Reach = run-Reach (machine by_size by_size) given_back start refl

alloc-fresh_example :
    ((alloc 4096 with_page.pool).0.len ≡ 4096)
    × (tally (numbered (alloc 4096 with_page.pool).0.id) with_page.used ≡ 0)
    × (stock (numbered (alloc 4096 with_page.pool).0.id) (alloc 4096 with_page.pool).1 ≡ 0)
alloc-fresh_example = alloc-fresh by_size by_size with_page-Reach 4096

-- The block that was given back is given out again.
page_again : (alloc 4096 with_page.pool).0.id ≡ 0
unfolding run new alloc alloc_from alloc_block push_raw_block class_of
page_again = refl

-- Ten bytes in a Vec with room for 20: asked for 15, it stays at ten.
abbrev roomy : Block
roomy = record { id = 0; len = 10; room = 20 }

abbrev shrunk : Block
shrunk = record { id = 0; len = 10; room = 10 }

realloc_lem_example :
    (roomy.len ≡ roomy.room → shrunk.len ≡ 15)
    × (roomy.len < 15 → 15 ≤ roomy.room → shrunk.len ≡ roomy.len)
unfolding realloc
realloc_lem_example = realloc_lem (λ r n. n) (λ r n. n) 15 roomy shrunk refl
