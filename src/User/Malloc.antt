-- ===== src/User/Malloc.antt =====
-- The allocator of user space, user/lib/src/stdlib/alloc.c. It is the kernel's with other sizes, and it
-- ignores what the kernel panics at. `_find_hole`, `_empty_slots`, `_get_free_block`, `_find_addr` and
-- `_rm_alloc` are, word for word, those of kernel/src/mm/alloc.c, which Mm.Alloc models.
pub mod Init
pub mod Refine
pub mod Resize
mod Tests
use mathlib.Core.Option
use lambda_os.Prelude.{
  ℕ, zero, suc, ◌+◌, ◌-◌, ◌*◌, ◌/◌, ◌%◌, ◌^◌, Bool, true, false, not, ◌&&◌, ◌||◌, Option, none,
  some, List, [], ◌∷◌, ◌==◌, ltb, leb, if◌then◌else◌,
}
use lambda_os.Prelude.Word.{add32, sub32}
use lambda_os.Prelude.Outcome.{Outcome, ok, panic, fault, ◌>>=◌}
use lambda_os.Std
use lambda_os.Std.Bytes.{memcpy}
use lambda_os.Mm.Alloc.Table.{
  Alcent, Block, Allocs, add_block, entry, modify, get_free_block, set_block, or_fault, block_at,
}
use lambda_os.Mm.Alloc.Search.{find_hole, no_hole, empty_slots}
use lambda_os.Mm.Alloc.Release.{find_addr, rm_alloc}
use lambda_os.Mm.Alloc.{
  Memory, claim, cut_front, set_size, used_entry, free_entry, correction, behind,
}

abbrev pub page_sz : ℕ
page_sz = 4096

abbrev pub alloc_blocks : ℕ
alloc_blocks = page_sz / 4

abbrev pub min_align : ℕ
min_align = 8

abbrev pub initial_sz : ℕ
initial_sz = page_sz * 8

-- A pointer to a table, and a slot, after memset.
abbrev pub nulls : ℕ → Allocs
nulls zero = []
nulls (suc n) = none ∷ nulls n

abbrev pub slots : ℕ → Block
slots zero = []
slots (suc n) = record { valid = false; used = false; addr = 0; size = 0 } ∷ slots n

-- `__lib_alloc_init` by the three results of mmap: for the pointers, for the first table, and for the
-- memory. `none` is -1.
pub lib_alloc_init : ℕ → ℕ → ℕ → Option Allocs
lib_alloc_init pointers first memory =
    if pointers == 0 || first == 0 || memory == 0
    then none
    else some (some (free_entry memory initial_sz ∷ slots 340) ∷ nulls 1023)

-- `_add_alloc`; `none` is -1.
pub add_alloc : Alcent → Allocs → Option Allocs
add_alloc al [] = none
add_alloc al (none ∷ a) = Option.map (◌∷◌ none) (add_alloc al a)
add_alloc al (some b ∷ a) = elim (add_block al b) [
  | some b' ↦ some (some b' ∷ a)
  | none ↦ Option.map (◌∷◌ (some b)) (add_alloc al a)
]

-- The table after a call of `_add_alloc` whose result is ignored.
abbrev pub added : Alcent → Allocs → Allocs
added al a = elim (add_alloc al a) [ none ↦ a | some a' ↦ a' ]

-- `_alloc_new_block` with the hole `e`, for the new table at `blk`, which is not cleared.
pub take_table : Memory → ℕ → ℕ → ℕ → Alcent → Allocs → Outcome Allocs
unfolding add_alloc
take_table mem blk j i e a =
    if e.size == page_sz
    then set_block blk (mem e.addr) (modify claim j i a)
    else set_block blk (mem e.addr)
        (added (used_entry e.addr page_sz) (modify (cut_front page_sz) j i a))

-- `_alloc_new_block`, with its result ignored.
pub alloc_new_block : Memory → Allocs → Outcome Allocs
unfolding take_table
alloc_new_block mem a =
    let idx = find_hole page_sz min_align a in
    let found : Outcome Allocs = do
      e ← or_fault (entry a (idx / 2 ^ 16) (idx % 2 ^ 16))
      if get_free_block a == alloc_blocks
          then ok a
          else take_table mem (get_free_block a) (idx / 2 ^ 16) (idx % 2 ^ 16) e a
    in if idx == no_hole then ok a else found

-- The end of `_alloc`: `sz` bytes are taken from the hole `e`.
pub place : ℕ → ℕ → ℕ → ℕ → Alcent → Allocs → ℕ × Allocs
unfolding add_alloc
place sz align j i e a =
    let front = added (used_entry e.addr sz) (modify (cut_front sz) j i a) in
    let split =
      if ltb (add32 sz (correction align e)) e.size then added (behind sz align e) a else a in
    let inside =
      added (used_entry (add32 e.addr (correction align e)) sz)
        (modify (set_size (correction align e)) j i split) in
    if e.size == sz
    then (e.addr, modify claim j i a)
    else if e.addr % align == 0
    then (e.addr, front)
    else (add32 e.addr (correction align e), inside)

-- The second search of `_alloc`, and the block that it takes.
pub search_and_place : ℕ → ℕ → Allocs → Outcome (ℕ × Allocs)
unfolding place
search_and_place sz align a =
    let idx = find_hole sz align a in
    let found : Outcome (ℕ × Allocs) = do
      e ← or_fault (entry a (idx / 2 ^ 16) (idx % 2 ^ 16))
      ok (place sz align (idx / 2 ^ 16) (idx % 2 ^ 16) e a)
    in if idx == no_hole then ok (0, a) else found

-- `_alloc`, for an alignment that is a power of 2.
pub alloc : Memory → ℕ → ℕ → Allocs → Outcome (ℕ × Allocs)
unfolding alloc_new_block search_and_place
alloc mem sz align a =
    let idx = find_hole sz align a in
    let run : Outcome (ℕ × Allocs) = do
      b ← or_fault (block_at a (idx / 2 ^ 16))
      a1 ← if empty_slots b == 4 then alloc_new_block mem a else ok a
      search_and_place sz align a1
    in if align == 0 || sz == 0 then ok (0, a) else if idx == no_hole then ok (0, a) else run

pub malloc : Memory → ℕ → Allocs → Outcome (ℕ × Allocs)
unfolding alloc
malloc mem size a = alloc mem size min_align a

pub free : ℕ → Allocs → Allocs
free ptr a = elim (find_addr ptr 0 a) [ none ↦ a | some (j, i, e) ↦ rm_alloc j i e a ]

-- The bytes of memory and the table.
pub record Heap : Type 0 where
  pub bytes : Std.Memory.Memory
  pub allocs : Allocs

-- The part of `realloc` behind the search for the entry at the indices.
pub resize : Memory → ℕ → ℕ → ℕ → ℕ → Heap → Outcome (ℕ × Heap)
unfolding malloc free
resize mem ptr size j i h = do
  (new, a) ← malloc mem size h.allocs
  e ← or_fault (entry a j i)
  ok (
    new,
    record {
      bytes = memcpy h.bytes new ptr (if ltb size e.size then size else e.size);
      allocs = free ptr a;
    },
  )

pub realloc : Memory → ℕ → ℕ → Heap → Outcome (ℕ × Heap)
unfolding resize
realloc mem ptr size h =
    let fresh : Outcome (ℕ × Heap) =
      malloc mem size h.allocs >>= λ r. ok (r.0, record h { allocs = r.1 }) in
    let known : ℕ × ℕ × Alcent → Outcome (ℕ × Heap) = λ r.
      if size == 0
      then ok (0, record h { allocs = free ptr h.allocs })
      else resize mem ptr size r.0 r.1 h in
    if ptr == 0
    then if size == 0 then ok (0, h) else fresh
    else elim (find_addr ptr 0 h.allocs) [ none ↦ ok (0, h) | some r ↦ known r ]
