-- ===== src/Mm/Alloc/Search.antt =====
-- The search for the smallest hole, `_find_hole` and `_empty_slots` of kernel/src/mm/alloc.c.
use lambda_os.Prelude.{
  ℕ, ◌+◌, ◌-◌, ◌*◌, ◌%◌, ◌^◌, Bool, not, ◌&&◌, none, some, [], ◌∷◌, ◌==◌, ltb, leb, if◌then◌else◌,
}
use lambda_os.Prelude.Word.{add32}
use lambda_os.Mm.Alloc.Table.{Alcent, Block, Allocs}

-- What a search for a hole has found: the packed index and the size of the smallest hole.
pub record Hole : Type 0 where
  pub idx : ℕ
  pub size : ℕ

abbrev pub no_hole : ℕ
no_hole = 0xffffffff

-- `align - (addr % align)`, or 0 where that is `align`.
abbrev pub offset : ℕ → ℕ → ℕ
offset align addr = if align - addr % align == align then 0 else align - addr % align

-- Is it valid, unused and big enough for `sz` bytes at the alignment?
abbrev pub fits : ℕ → ℕ → Alcent → Bool
fits sz align e = e.valid && not e.used && leb (add32 sz (offset align e.addr)) e.size

-- `(uint16_t)i | j << 16`
abbrev pub pack : ℕ → ℕ → ℕ
pack j i = i % 2 ^ 16 + j * 2 ^ 16

-- The body of the search for entry `i` of table `j`.
unfoldable pub consider : ℕ → ℕ → ℕ → ℕ → Alcent → Hole → Hole
consider sz align j i e h =
    if fits sz align e && ltb e.size h.size then record { idx = pack j i; size = e.size } else h

unfoldable pub search_block : ℕ → ℕ → ℕ → ℕ → Block → Hole → Hole
search_block sz align j i [] h = h
search_block sz align j i (e ∷ b) h = search_block sz align j (i + 1) b (consider sz align j i e h)

unfoldable pub search_blocks : ℕ → ℕ → ℕ → Allocs → Hole → Hole
search_blocks sz align j [] h = h
search_blocks sz align j (none ∷ bs) h = search_blocks sz align (j + 1) bs h
search_blocks sz align j (some b ∷ bs) h =
    search_blocks sz align (j + 1) bs (search_block sz align j 0 b h)

abbrev start : Hole
start = record { idx = no_hole; size = 0xffffffff }

-- `_find_hole`
unfoldable pub find_hole : ℕ → ℕ → Allocs → ℕ
find_hole sz align a = (search_blocks sz align 0 a start).idx

-- `_empty_slots` of a table.
unfoldable pub empty_slots : Block → ℕ
empty_slots [] = 0
empty_slots (e ∷ b) = (if e.valid then 0 else 1) + empty_slots b
