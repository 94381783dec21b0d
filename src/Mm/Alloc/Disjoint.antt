-- ===== src/Mm/Alloc/Disjoint.antt =====
-- No two blocks of memory in the table overlap: what follows for the callers of `kamalloc`.
use lambda_os.Prelude.{◌≢◌, ℕ, ◌+◌, ◌^◌, ◌≤◌, ◌≡◌, none, some, [], ◌∷◌, arith}
use lambda_os.Prelude.Outcome.{ok}
use lambda_os.Mm.Alloc.{Memory, kamalloc}
use lambda_os.Mm.Alloc.Table.{Block, Allocs}
use lambda_os.Mm.Alloc.Tally.{tally_block}
use lambda_os.Mm.Alloc.Cover.{within, covering, holding, cover, held}
use lambda_os.Mm.Alloc.Sound.{IsSound}
use lambda_os.Mm.Alloc.Exclusive.{Blank, kamalloc_exclusive}

-- Each address belongs to one valid entry at most.
abbrev pub IsDisjoint : Allocs → Type 0
IsDisjoint a = (x : ℕ) → cover x a ≤ 1

held_block-le-cover : (x : ℕ) (b : Block) → tally_block (holding x) b ≤ tally_block (covering x) b
held_block-le-cover x [] = omega arith
held_block-le-cover x (e ∷ b) = ground (arith, held_block-le-cover x b)

held-le-cover : (x : ℕ) (a : Allocs) → held x a ≤ cover x a
held-le-cover x [] = omega arith
held-le-cover x (none ∷ a) = held-le-cover x a
held-le-cover x (some b ∷ a) = omega (arith, held_block-le-cover x b, held-le-cover x a)

-- If kamalloc returns an address other than NULL from a well-formed table in which no two valid
-- entries share an address, where fresh memory reads as an empty table and size plus alignment do
-- not pass 2 ^ 32, then no two valid entries share an address afterwards, and no address of the
-- block was held by a used entry before.
pub kamalloc-IsDisjoint :
    (mem : Memory) (sz align : ℕ) (a : Allocs) {a' : Allocs} {p : ℕ}
    → Blank mem
    → sz + align ≤ 2 ^ 32
    → IsSound a
    → IsDisjoint a
    → kamalloc mem sz align a ≡ ok (p, a')
    → p ≢ 0
    → IsDisjoint a' × ((x : ℕ) → held x a + within p sz x ≤ 1)
kamalloc-IsDisjoint mem sz align a {a'} {p} blank small s apart h got =
    let (aligned, same, more, sound) = kamalloc_exclusive mem blank sz align a small s h got in
    (
      λ x. omega (arith, same x, apart x),
      λ x. omega (arith, same x, more x, apart x, held-le-cover x a'),
    )
