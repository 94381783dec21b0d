-- ===== src/Mm/Alloc.antt =====
-- The kernel's allocator, kernel/src/mm/alloc.c and the struct of kernel/inc/mm/alloc.h.
-- `allocs` is a list of ALLOC_BLOCKS pointers to tables, with `none` for NULL; a table is a list of
-- ALLOC_BLOCK entries. The `lock` and `unlock` calls enclose each operation, which is one step here.
pub mod Table
pub mod Search
pub mod Release
pub mod Tally
pub mod Entries
pub mod Place
pub mod Cover
pub mod Found
pub mod Sound
pub mod Keep
pub mod Exclusive
pub mod Merge
pub mod Free
pub mod Kfree
pub mod Disjoint
pub mod Room
pub mod Stays
mod Tests
use mathlib.Core.Option
use lambda_os.Prelude.{
  ℕ, zero, suc, ◌+◌, ◌-◌, ◌*◌, ◌/◌, ◌%◌, ◌^◌, Bool, true, false, not, ◌&&◌, ◌||◌, Option, none,
  some, List, [], ◌∷◌, ◌==◌, ltb, leb, if◌then◌else◌,
}
use lambda_os.Prelude.Word.{add32, sub32}
use lambda_os.Prelude.Outcome.{Outcome, ok, panic, fault, ◌>>=◌, map_ok}
use lambda_os.Mm.Alloc.Table.{
  Alcent, Block, Allocs, alloc_block, entry, modify, add_alloc, get_free_block, set_block, or_fault,
  block_at,
}
use lambda_os.Mm.Alloc.Search.{find_hole, no_hole, empty_slots}

-- ALLOC_BLOCK * sizeof(struct alcent)
abbrev pub table_size : ℕ
table_size = alloc_block * 12

-- The uses of an entry's bytes. The first is `used = 1`, the second cuts bytes off its front.
abbrev pub claim : Alcent → Alcent
claim e = record e { used = true }

abbrev pub cut_front : ℕ → Alcent → Alcent
cut_front n e = record e { addr = add32 e.addr n; size = sub32 e.size n }

abbrev pub used_entry : ℕ → ℕ → Alcent
used_entry addr size = record { valid = true; used = true; addr = addr; size = size }

abbrev pub free_entry : ℕ → ℕ → Alcent
free_entry addr size = record { valid = true; used = false; addr = addr; size = size }

-- What the fresh bytes of memory at an address read as, taken as a table.
abbrev pub Memory : Type 0
Memory = ℕ → Block

-- `_alloc_new_block` takes the bytes of the new table from the hole `e`.
pub take_table : ℕ → ℕ → Alcent → Allocs → Outcome Allocs
take_table j i e a =
    if e.size == table_size
    then ok (modify claim j i a)
    else add_alloc (used_entry e.addr table_size) (modify (cut_front table_size) j i a)

-- The new table is what the fresh bytes read as: they are not cleared.
pub install_block : Memory → ℕ → ℕ → Alcent → Allocs → Outcome Allocs
install_block mem j i e a = do b ← take_table j i e a; set_block (get_free_block b) (mem e.addr) b

-- `_alloc_new_block`
pub alloc_new_block : Memory → Allocs → Outcome Allocs
alloc_new_block mem a =
    let idx = find_hole table_size 1 a in
    let found : Outcome Allocs = do
      e ← or_fault (entry a (idx / 2 ^ 16) (idx % 2 ^ 16))
      install_block mem (idx / 2 ^ 16) (idx % 2 ^ 16) e a
    in if idx == no_hole then panic else found

-- `kamalloc` with an aligned hole: the block is cut off the front of the hole `e`.
unfoldable pub take_front : ℕ → ℕ → ℕ → Alcent → Allocs → Outcome (ℕ × Allocs)
take_front sz j i e a = do
  a1 ← add_alloc (used_entry e.addr sz) (modify (cut_front sz) j i a)
  ok (e.addr, a1)

abbrev pub correction : ℕ → Alcent → ℕ
correction align e = align - e.addr % align

abbrev pub set_size : ℕ → Alcent → Alcent
set_size n e = record e { size = n }

-- The entry `fe` for the bytes behind the block.
abbrev pub behind : ℕ → ℕ → Alcent → Alcent
behind sz align e =
    let need = add32 sz (correction align e) in free_entry (add32 e.addr need) (sub32 e.size need)

-- `kamalloc` with a hole that is not aligned: it keeps the bytes below the block.
unfoldable pub take_inside : ℕ → ℕ → ℕ → ℕ → Alcent → Allocs → Outcome (ℕ × Allocs)
take_inside sz align j i e a = do
  a1 ← if ltb (add32 sz (correction align e)) e.size then add_alloc (behind sz align e) a else ok a
  let below = modify (set_size (correction align e)) j i a1
  a2 ← add_alloc (used_entry (add32 e.addr (correction align e)) sz) below
  ok (add32 e.addr (correction align e), a2)

-- The rest of `kamalloc` behind the two searches: `sz` bytes are taken from the hole `e`.
unfoldable pub place : ℕ → ℕ → ℕ → ℕ → Alcent → Allocs → Outcome (ℕ × Allocs)
place sz align j i e a =
    if e.size == sz
    then ok (e.addr, modify claim j i a)
    else if e.addr % align == 0
    then take_front sz j i e a
    else take_inside sz align j i e a

-- The second search of `kamalloc`, and the block that it takes.
unfoldable pub search_and_place : ℕ → ℕ → Allocs → Outcome (ℕ × Allocs)
search_and_place sz align a =
    let idx = find_hole sz align a in
    let found : Outcome (ℕ × Allocs) = do
      e ← or_fault (entry a (idx / 2 ^ 16) (idx % 2 ^ 16))
      place sz align (idx / 2 ^ 16) (idx % 2 ^ 16) e a
    in if idx == no_hole then ok (0, a) else found

-- A table with four slots left has a new one beside it first.
unfoldable pub make_room : Memory → ℕ → Allocs → Outcome Allocs
make_room mem j a = do
  b ← or_fault (block_at a j)
  if empty_slots b == 4 then alloc_new_block mem a else ok a

-- `kamalloc`: the address, 0 for NULL, and the table that it leaves.
unfoldable pub kamalloc : Memory → ℕ → ℕ → Allocs → Outcome (ℕ × Allocs)
kamalloc mem sz align a =
    let idx = find_hole sz align a in
    let run : Outcome (ℕ × Allocs) = do
      a1 ← make_room mem (idx / 2 ^ 16) a
      search_and_place sz align a1
    in if align == 0 || sz == 0 then ok (0, a) else if idx == no_hole then ok (0, a) else run

abbrev pub min_align : ℕ
min_align = 4

pub kmalloc : Memory → ℕ → Allocs → Outcome (ℕ × Allocs)
kmalloc mem sz a = kamalloc mem sz min_align a

-- `sz % align` is undefined at 0.
pub kmamalloc : Memory → ℕ → ℕ → Allocs → Outcome (ℕ × Allocs)
kmamalloc mem sz align a =
    let whole = if sz % align == 0 then sz else add32 sz (align - sz % align) in
    if align == 0 then fault else kamalloc mem whole align a

-- `init_alloc` on the table that it finds.
pub init_alloc : ℕ → ℕ → Allocs → Outcome Allocs
init_alloc base size a = add_alloc (free_entry base size) a
