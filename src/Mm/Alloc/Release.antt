-- ===== src/Mm/Alloc/Release.antt =====
-- How a block is freed, `rm_alloc` and `kfree` of kernel/src/mm/alloc.c, and the two sums over the table.
use mathlib.Core.Option
use lambda_os.Prelude.{
  ℕ, ◌+◌, Bool, false, not, ◌&&◌, ◌||◌, Option, none, some, [], ◌∷◌, ◌==◌, ltb, if◌then◌else◌,
}
use lambda_os.Prelude.Word.{add32}
use lambda_os.Prelude.Outcome.{Outcome, ok, panic}
use lambda_os.Mm.Alloc.Table.{Alcent, Block, Allocs, modify}

-- Is `x` valid, unused and beside the block of `size` bytes at `addr`, by the test of `rm_alloc`?
abbrev pub joins : ℕ → ℕ → Alcent → Bool
joins addr size x =
    x.valid && ((add32 x.addr size == addr) || (x.addr == add32 addr size)) && not x.used

abbrev pub join : ℕ → ℕ → Alcent → Alcent
join addr size x = record x {
  addr = if ltb addr x.addr then addr else x.addr;
  size = add32 x.size size;
}

-- The first entry that joins the block takes its bytes; `none` if no entry does.
unfoldable pub merge_block : ℕ → ℕ → Block → Option Block
merge_block addr size [] = none
merge_block addr size (x ∷ b) =
    if joins addr size x
    then some (join addr size x ∷ b)
    else Option.map (◌∷◌ x) (merge_block addr size b)

unfoldable pub merge : ℕ → ℕ → Allocs → Option Allocs
unfolding merge_block
merge addr size [] = none
merge addr size (none ∷ a) = Option.map (◌∷◌ none) (merge addr size a)
merge addr size (some b ∷ a) = elim (merge_block addr size b) [
  | some b' ↦ some (some b' ∷ a)
  | none ↦ Option.map (◌∷◌ (some b)) (merge addr size a)
]

-- `rm_alloc` of the entry `e` at the indices.
unfoldable pub rm_alloc : ℕ → ℕ → Alcent → Allocs → Allocs
rm_alloc j i e a = elim (merge e.addr e.size a) [
  | some a' ↦ modify (λ x. record x { valid = false }) j i a'
  | none ↦ modify (λ x. record x { used = false }) j i a
]

-- The first valid entry with the address: its indices and itself.
unfoldable pub find_in_block : ℕ → ℕ → ℕ → Block → Option (ℕ × ℕ × Alcent)
find_in_block ptr j i [] = none
find_in_block ptr j i (e ∷ b) =
    if e.valid && e.addr == ptr then some (j, i, e) else find_in_block ptr j (i + 1) b

unfoldable pub find_addr : ℕ → ℕ → Allocs → Option (ℕ × ℕ × Alcent)
unfolding find_in_block
find_addr ptr j [] = none
find_addr ptr j (none ∷ a) = find_addr ptr (j + 1) a
find_addr ptr j (some b ∷ a) = elim (find_in_block ptr j 0 b) [
  | some r ↦ some r
  | none ↦ find_addr ptr (j + 1) a
]

-- `kfree`
unfoldable pub kfree : ℕ → Allocs → Outcome Allocs
kfree ptr a = elim (find_addr ptr 0 a) [ none ↦ panic | some (j, i, e) ↦ ok (rm_alloc j i e a) ]

-- The sums of `alloc_get_used` and `alloc_get_free`, in `size_t`.
unfoldable pub sum_block : (Alcent → Bool) → Block → ℕ → ℕ
sum_block p [] acc = acc
sum_block p (e ∷ b) acc = sum_block p b (if p e then add32 acc e.size else acc)

unfoldable pub sum_blocks : (Alcent → Bool) → Allocs → ℕ → ℕ
unfolding sum_block
sum_blocks p [] acc = acc
sum_blocks p (none ∷ a) acc = sum_blocks p a acc
sum_blocks p (some b ∷ a) acc = sum_blocks p a (sum_block p b acc)

unfoldable pub alloc_get_used : Allocs → ℕ
alloc_get_used a = sum_blocks (λ e. e.valid && e.used) a 0

unfoldable pub alloc_get_free : Allocs → ℕ
alloc_get_free a = sum_blocks (λ e. e.valid && not e.used) a 0
