-- ===== src/Mm/Alloc/Tests.antt =====
-- Runs of the allocator on small tables, and instances of its theorems.
use lambda_os.Prelude.{
  ◌≢◌, ℕ, zero, suc, ◌+◌, ◌/◌, ◌%◌, ◌^◌, ◌<◌, ◌≤◌, ◌≡◌, refl, true, false, none, some, [], ◌∷◌,
  arith,
}
use lambda_os.Prelude.Outcome.{ok, panic}
use lambda_os.Mm.Alloc.{
  Memory, kamalloc, make_room, search_and_place, place, take_inside, used_entry, free_entry,
}
use lambda_os.Mm.Alloc.Table.{Alcent, Block, block_at, Allocs, entry, add_alloc}
use lambda_os.Mm.Alloc.Search.{
  no_hole, fits, find_hole, search_blocks, search_block, consider, empty_slots,
}
use lambda_os.Mm.Alloc.Release.{joins, find_addr, kfree}
use lambda_os.Mm.Alloc.Cover.{within, cover, held}
use lambda_os.Mm.Alloc.Found.{find_hole-fits, find_hole-best}
use lambda_os.Mm.Alloc.Sound.{IsSound}
use lambda_os.Mm.Alloc.Exclusive.{Blank, kamalloc_exclusive}
use lambda_os.Mm.Alloc.Disjoint.{IsDisjoint, kamalloc-IsDisjoint}
use lambda_os.Mm.Alloc.Room.{kamalloc_returns}
use lambda_os.Mm.Alloc.Free.{JoinsTruly, Released}
use lambda_os.Mm.Alloc.Kfree.{kfree_releases, kfree_overreaches, kfree_panics}

abbrev slot : Alcent
slot = record { valid = false; used = false; addr = 0; size = 0 }

abbrev blank_memory : Memory
blank_memory addr = []

blank_memory-Blank : Blank blank_memory
blank_memory-Blank = record { short = λ addr. omega arith; invalid = λ addr. tt }

-- One hole of 256 bytes at 0x1001, a used block and five slots.
abbrev table : Allocs
table =
    none
    ∷ some (used_entry 0x2000 32 ∷ free_entry 0x1001 256 ∷ slot ∷ slot ∷ slot ∷ slot ∷ slot ∷ [])
    ∷ none
    ∷ []

abbrev after : Allocs
after =
    none
    ∷ some (
        used_entry 0x2000 32
        ∷ free_entry 0x1001 7
        ∷ free_entry 0x1018 233
        ∷ used_entry 0x1008 16
        ∷ slot
        ∷ slot
        ∷ slot
        ∷ [])
    ∷ none
    ∷ []

table-IsSound : IsSound table
table-IsSound = omega arith

table-IsDisjoint : IsDisjoint table
table-IsDisjoint x = ground arith

runs : kamalloc blank_memory 16 8 table ≡ ok (0x1008, after)
unfolding kamalloc find_hole search_blocks search_block consider make_room empty_slots
    search_and_place place take_inside add_alloc
runs = refl

kamalloc_exclusive_example :
    (0x1008 % 8 ≡ 0)
    × ((x : ℕ) → cover x after ≡ cover x table)
    × ((x : ℕ) → held x table + within 0x1008 16 x ≤ held x after)
    × IsSound after
kamalloc_exclusive_example =
    kamalloc_exclusive blank_memory blank_memory-Blank 16 8 table {a' = after} {p = 0x1008}
      (omega arith) table-IsSound runs (omega arith)

kamalloc-IsDisjoint_example : IsDisjoint after × ((x : ℕ) → held x table + within 0x1008 16 x ≤ 1)
kamalloc-IsDisjoint_example =
    kamalloc-IsDisjoint blank_memory 16 8 table {a' = after} {p = 0x1008} blank_memory-Blank
      (omega arith) table-IsSound table-IsDisjoint runs (omega arith)

table_hole : find_hole 16 8 table ≡ 65537
unfolding find_hole search_blocks search_block consider
table_hole = refl

found_not_missing : find_hole 16 8 table ≢ no_hole
found_not_missing = rw table_hole (omega arith)

hole_fits :
    (e : Alcent) × (entry table (find_hole 16 8 table / 2 ^ 16) (find_hole 16 8 table % 2 ^ 16)
      ≡ some e)
    × (fits 16 8 e ≡ true)
hole_fits = find_hole-fits 16 8 table (omega arith) found_not_missing

abbrev rows : Block
rows = used_entry 0x2000 32 ∷ free_entry 0x1001 256 ∷ slot ∷ slot ∷ slot ∷ slot ∷ slot ∷ []

table-rows : block_at table (find_hole 16 8 table / 2 ^ 16) ≡ some rows
table-rows = rw table_hole refl

rows_room : empty_slots rows ≢ 4
unfolding empty_slots
rows_room = omega arith

kamalloc_returns_example : (p : ℕ) × (a' : Allocs) × (kamalloc blank_memory 16 8 table ≡ ok (p, a'))
kamalloc_returns_example =
    kamalloc_returns blank_memory 16 8 table rows table-IsSound (omega arith) (omega arith)
      found_not_missing table-rows rows_room (omega arith)

smallest :
    (e : Alcent) × (find_hole 16 8 table ≢ no_hole)
    × (entry table (find_hole 16 8 table / 2 ^ 16) (find_hole 16 8 table % 2 ^ 16) ≡ some e)
    × (fits 16 8 e ≡ true)
    × (e.size ≤ 256)
smallest =
    find_hole-best 16 8 table 1 1 {e = free_entry 0x1001 256} (omega arith) (omega arith) refl refl
      (omega arith)

-- A used block with a hole right behind it.
abbrev beside : Allocs
beside = some (used_entry 0x110 16 ∷ free_entry 0x120 64 ∷ slot ∷ []) ∷ []

beside-JoinsTruly : JoinsTruly (used_entry 0x110 16) beside
beside-JoinsTruly zero zero x at fit = ground arith
beside-JoinsTruly zero (suc zero) x at fit = ground arith
beside-JoinsTruly zero (suc (suc zero)) x at fit = ground arith
beside-JoinsTruly zero (suc (suc (suc k))) x at fit = ground arith
beside-JoinsTruly (suc l) k x at fit = ground arith

beside_found : find_addr 0x110 0 beside ≡ some (0, 0, used_entry 0x110 16)
unfolding find_addr
beside_found = refl

kfree_releases_example :
    (a' : Allocs) × (kfree 0x110 beside ≡ ok a') × Released (used_entry 0x110 16) beside a'
kfree_releases_example =
    kfree_releases 0x110 0 0 (used_entry 0x110 16) beside (omega arith) beside_found refl
      (omega arith) (omega arith) beside-JoinsTruly

-- A hole of 16 bytes at 0x100, a used block of 64 bytes behind it, and the block of 80 bytes at 0x150
-- that is freed: 0x100 + 80 is 0x150, so the hole takes the bytes over the head of the block between.
abbrev apart : Allocs
apart = some (free_entry 0x100 16 ∷ used_entry 0x110 64 ∷ used_entry 0x150 80 ∷ []) ∷ []

apart_found : find_addr 0x150 0 apart ≡ some (0, 2, used_entry 0x150 80)
unfolding find_addr
apart_found = refl

apart_short :
    (l k : ℕ) (x : Alcent)
    → entry apart l k ≡ some x
    → joins 0x150 80 x ≡ true
    → (x.addr + 80 ≡ 0x150) × (x.size < 80)
apart_short zero zero x at fit = ground arith
apart_short zero (suc zero) x at fit = ground arith
apart_short zero (suc (suc zero)) x at fit = ground arith
apart_short zero (suc (suc (suc k))) x at fit = ground arith
apart_short (suc l) k x at fit = ground arith

kfree_overreaches_example :
    (a' : Allocs) × (kfree 0x150 apart ≡ ok a')
    × (y : ℕ) × (y < 0x150)
    × (cover y a' ≡ suc (cover y apart))
    × (held y a' ≡ held y apart)
kfree_overreaches_example =
    kfree_overreaches 0x150 0 2 (used_entry 0x150 80) apart (omega arith) apart_found refl
      (omega arith) (omega arith) 0 0 {x = free_entry 0x100 16} refl refl apart_short

absent : (l k : ℕ) (e : Alcent) → entry beside l k ≡ some e → e.valid ≡ true → e.addr ≢ 0x111
absent zero zero e at v = ground arith
absent zero (suc zero) e at v = ground arith
absent zero (suc (suc zero)) e at v = ground arith
absent zero (suc (suc (suc k))) e at v = ground arith
absent (suc l) k e at v = ground arith

free_unknown : kfree 0x111 beside ≡ panic
free_unknown = kfree_panics 0x111 beside absent
