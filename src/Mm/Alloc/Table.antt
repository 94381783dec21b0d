-- ===== src/Mm/Alloc/Table.antt =====
-- The table of memory blocks: its entries, and how an entry is added.
use mathlib.Core.Option
use lambda_os.Prelude.{
  ℕ, zero, suc, Bool, Option, none, some, List, [], ◌∷◌, if◌then◌else◌, get_elem?,
}
use lambda_os.Prelude.Outcome.{Outcome, ok, panic, fault, map_ok}

-- `struct alcent`
pub record Alcent : Type 0 where
  pub valid : Bool
  pub used : Bool
  pub addr : ℕ
  pub size : ℕ

abbrev pub Block : Type 0
Block = List Alcent

abbrev pub Allocs : Type 0
Allocs = List (Option Block)

abbrev pub alloc_block : ℕ
alloc_block = 1024

abbrev pub alloc_blocks : ℕ
alloc_blocks = 512

-- `allocs[j][i]`
abbrev pub entry : Allocs → ℕ → ℕ → Option Alcent
entry [] j i = none
entry (none ∷ a) zero i = none
entry (some b ∷ a) zero i = get_elem? b i
entry (o ∷ a) (suc j) i = entry a j i

-- `allocs[j]`
abbrev pub block_at : Allocs → ℕ → Option Block
block_at [] j = none
block_at (o ∷ a) zero = o
block_at (o ∷ a) (suc j) = block_at a j

abbrev pub or_fault {ℓ} : {A : Type ℓ} → Option A → Outcome A
or_fault none = fault
or_fault (some x) = ok x

-- A write to the fields of entry `i`.
abbrev pub modify_block : (Alcent → Alcent) → ℕ → Block → Block
modify_block f i [] = []
modify_block f zero (e ∷ b) = f e ∷ b
modify_block f (suc i) (e ∷ b) = e ∷ modify_block f i b

abbrev pub modify : (Alcent → Alcent) → ℕ → ℕ → Allocs → Allocs
modify f j i [] = []
modify f zero i (none ∷ a) = none ∷ a
modify f zero i (some b ∷ a) = some (modify_block f i b) ∷ a
modify f (suc j) i (o ∷ a) = o ∷ modify f j i a

-- The copy of `al` to the first slot of a table that is not valid.
unfoldable pub add_block : Alcent → Block → Option Block
add_block al [] = none
add_block al (e ∷ b) = if e.valid then Option.map (◌∷◌ e) (add_block al b) else some (al ∷ b)

unfoldable pub add_alloc : Alcent → Allocs → Outcome Allocs
unfolding add_block
add_alloc al [] = panic
add_alloc al (none ∷ a) = map_ok (◌∷◌ none) (add_alloc al a)
add_alloc al (some b ∷ a) = elim (add_block al b) [
  | some b' ↦ ok (some b' ∷ a)
  | none ↦ map_ok (◌∷◌ (some b)) (add_alloc al a)
]

-- The index of the first NULL pointer, or one past the last.
unfoldable pub get_free_block : Allocs → ℕ
get_free_block [] = 0
get_free_block (none ∷ a) = 0
get_free_block (some b ∷ a) = suc (get_free_block a)

-- `allocs[k] = b`, undefined past the end.
unfoldable pub set_block : ℕ → Block → Allocs → Outcome Allocs
set_block k b [] = fault
set_block zero b (o ∷ a) = ok (some b ∷ a)
set_block (suc k) b (o ∷ a) = map_ok (◌∷◌ o) (set_block k b a)
