-- ===== src/User/Malloc/Tests.antt =====
-- A table with a hole, a block and five slots, and instances of the theorems on it.
use lambda_os.Prelude.{ℕ, ◌+◌, ◌<◌, ◌≤◌, ◌≡◌, ◌⊎◌, refl, none, some, [], ◌∷◌, arith}
use lambda_os.Prelude.Outcome.{ok}
use lambda_os.Std.Bytes.Copy.{copied}
use lambda_os.Mm.Alloc
use lambda_os.Mm.Alloc.Table
use lambda_os.Mm.Alloc.Table.{Alcent, Block, Allocs, entry}
use lambda_os.Mm.Alloc.Search.{
  find_hole, search_blocks, search_block, consider, no_hole, empty_slots,
}
use lambda_os.Mm.Alloc.Release.{find_addr}
use lambda_os.Mm.Alloc.Cover.{within, cover, held}
use lambda_os.User.Malloc.Init.{lib_alloc_init_lem}
use lambda_os.Mm.Alloc.Exclusive.{Blank}
use lambda_os.Mm.Alloc.Disjoint.{IsDisjoint}
use lambda_os.Mm.Alloc.Sound.{IsSound}
use lambda_os.Mm.Alloc.{Memory, used_entry, free_entry}
use lambda_os.User.Malloc.{lib_alloc_init, malloc, free, Heap, realloc, slots}
use lambda_os.User.Malloc.Refine.{malloc-kamalloc, malloc-IsDisjoint}
use lambda_os.User.Malloc.Resize.{realloc_loses, realloc_copies}

abbrev blank_memory : Memory
blank_memory addr = []

blank_memory-Blank : Blank blank_memory
blank_memory-Blank = record { short = λ addr. omega arith; invalid = λ addr. tt }

abbrev first : Block
first = used_entry 0x2000 32 ∷ free_entry 0x1000 256 ∷ slots 5

abbrev table : Allocs
table = some first ∷ none ∷ []

table-IsSound : IsSound table
table-IsSound = omega arith

table-IsDisjoint : IsDisjoint table
table-IsDisjoint x = ground arith

hole_at : find_hole 16 8 table ≡ 1
unfolding find_hole search_blocks search_block consider
hole_at = refl

malloc-IsDisjoint_example :
    (p : ℕ) × (a' : Allocs) × (malloc blank_memory 16 table ≡ ok (p, a'))
    × ((p ≡ 0) ⊎ (IsDisjoint a' × ((x : ℕ) → held x table + within p 16 x ≤ 1)))
unfolding find_hole empty_slots search_blocks search_block consider
malloc-IsDisjoint_example =
    malloc-IsDisjoint blank_memory 16 table first blank_memory-Blank table-IsSound table-IsDisjoint
      (omega arith) (omega arith) (omega arith) refl (omega arith) (omega arith)

-- The first 16 bytes of the hole are in use.
abbrev after : Allocs
after =
    some (used_entry 0x2000 32 ∷ free_entry 0x1010 240 ∷ used_entry 0x1000 16 ∷ slots 4) ∷ none ∷ []

kamalloc_run : Alloc.kamalloc blank_memory 16 8 table ≡ ok (0x1000, after)
unfolding Alloc.kamalloc Alloc.make_room Alloc.search_and_place Alloc.place Alloc.take_front
    Table.add_alloc find_hole empty_slots search_blocks search_block consider
kamalloc_run = refl

malloc-kamalloc_example : malloc blank_memory 16 table ≡ ok (0x1000, after)
unfolding find_hole empty_slots search_blocks search_block consider
malloc-kamalloc_example =
    malloc-kamalloc blank_memory 16 table after 0x1000 first refl (omega arith) kamalloc_run

abbrev heap : Heap
heap = record { bytes = λ q. q; allocs = table }

block_found : find_addr 0x2000 0 table ≡ some (0, 0, used_entry 0x2000 32)
unfolding find_addr
block_found = refl

no_room : find_hole 300 8 table ≡ no_hole
unfolding find_hole search_blocks search_block consider
no_room = refl

lost_block :
    (h' : Heap) × (realloc blank_memory 0x2000 300 heap ≡ ok (0, h'))
    × (h'.allocs ≡ free 0x2000 table)
    × ((q : ℕ) → h'.bytes q ≡ copied (λ q. q) 0 0x2000 32 q)
lost_block =
    realloc_loses 0x2000 300 0 0 (used_entry 0x2000 32) heap (omega arith) (omega arith) block_found
      blank_memory no_room

realloc_copies_example :
    (p : ℕ) × (h' : Heap) × (realloc blank_memory 0x2000 16 heap ≡ ok (p, h'))
    × ((p ≡ 0) ⊎ ((i : ℕ) → i < 16 → h'.bytes (p + i) ≡ 0x2000 + i))
unfolding find_hole empty_slots search_blocks search_block consider
realloc_copies_example =
    realloc_copies 0x2000 16 0 0 (used_entry 0x2000 32) heap (omega arith) (omega arith) block_found
      blank_memory first refl blank_memory-Blank table-IsSound table-IsDisjoint (omega arith)
      (omega arith) refl (omega arith) (omega arith)

started_heap :
    (a : Allocs) × (lib_alloc_init 0x10000 0x11000 0x12000 ≡ some a)
    × IsSound a
    × IsDisjoint a
    × ((x : ℕ) → cover x a ≡ within 0x12000 32768 x)
    × ((x : ℕ) → held x a ≡ 0)
started_heap =
    lib_alloc_init_lem 0x10000 0x11000 0x12000 (omega arith) (omega arith) (omega arith)
      (omega arith)
