-- ===== src/Mm/Alloc/Found.antt =====
-- What the search for a hole finds: a smallest entry that fits, wherever one does.
use lambda_os.Prelude.{
  ℕ, zero, suc, ◌+◌, ◌/◌, ◌%◌, ◌^◌, ◌<◌, ◌≤◌, ◌≡◌, ◌≢◌, refl, ap, ◌⊎◌, true, none, some, [], ◌∷◌,
  ltb, inl, inr, Bool-cases, arith, ◌&&◌, length, get_elem?,
}
use lambda_os.Mm.Alloc.Table.{Alcent, Block, Allocs, entry, alloc_block, alloc_blocks}
use lambda_os.Mm.Alloc.Search.{
  Hole, no_hole, fits, pack, consider, search_block, search_blocks, find_hole,
}

-- Where a search that began with `h` has left off: at `h`, or at entry `k` of the table.
abbrev FoundIn : ℕ → ℕ → ℕ → ℕ → Block → Hole → Hole → Type 0
FoundIn sz align j i b h h' =
    (h' ≡ h)
    ⊎ ((k : ℕ) × (e : Alcent) × (get_elem? b k ≡ some e)
        × (fits sz align e ≡ true)
        × (h'.idx ≡ pack j (i + k))
        × (h'.size ≡ e.size))

search_block-FoundIn :
    (sz align j i : ℕ) (b : Block) (h : Hole)
    → FoundIn sz align j i b h (search_block sz align j i b h)
unfolding search_block consider
search_block-FoundIn sz align j i [] h = inl refl
search_block-FoundIn sz align j i (e ∷ b) h =
    elim (search_block-FoundIn sz align j (i + 1) b (consider sz align j i e h)) [
      | inl same ↦ elim (Bool-cases (fits sz align e && ltb e.size h.size)) [
        | inl better ↦ inr (
          0,
          e,
          refl,
          ground (arith, better),
          ground (arith, same, better),
          ground (arith, same, better),
        )
        | inr other ↦ inl (ground (arith, same, other))
      ]
      | inr (k, e', at, fit, idx, size) ↦ inr (suc k, e', at, fit, ground (arith, idx), size)
    ]

abbrev Found : ℕ → ℕ → ℕ → Allocs → Hole → Hole → Type 0
Found sz align j a h h' =
    (h' ≡ h)
    ⊎ ((l : ℕ) × (k : ℕ) × (e : Alcent) × (entry a l k ≡ some e)
        × (fits sz align e ≡ true)
        × (h'.idx ≡ pack (j + l) k)
        × (h'.size ≡ e.size))

search_blocks-Found :
    (sz align j : ℕ) (a : Allocs) (h : Hole) → Found sz align j a h (search_blocks sz align j a h)
unfolding search_blocks
search_blocks-Found sz align j [] h = inl refl
search_blocks-Found sz align j (none ∷ a) h = elim (search_blocks-Found sz align (j + 1) a h) [
  | inl same ↦ inl same
  | inr (l, k, e, at, fit, idx, size) ↦ inr (suc l, k, e, at, fit, ground (arith, idx), size)
]
search_blocks-Found sz align j (some b ∷ a) h =
    elim (search_blocks-Found sz align (j + 1) a (search_block sz align j 0 b h)) [
      | inl same ↦ elim (search_block-FoundIn sz align j 0 b h) [
        | inl still ↦ inl (ground (arith, same, still))
        | inr (k, e, at, fit, idx, size) ↦
            inr (0, k, e, at, fit, ground (arith, same, idx), ground (arith, same, size))
      ]
      | inr (l, k, e, at, fit, idx, size) ↦ inr (suc l, k, e, at, fit, ground (arith, idx), size)
    ]

-- No table is longer than ALLOC_BLOCK.
abbrev pub TablesFit : Allocs → Type 0
TablesFit [] = Unit
TablesFit (none ∷ a) = TablesFit a
TablesFit (some b ∷ a) = (length b ≤ alloc_block) × TablesFit a

get_elem?-lt : (b : Block) (k : ℕ) {e : Alcent} → get_elem? b k ≡ some e → k < length b
get_elem?-lt [] k h = cc
get_elem?-lt (x ∷ b) zero h = omega arith
get_elem?-lt (x ∷ b) (suc k) h = omega (arith, get_elem?-lt b k h)

entry-lt :
    (a : Allocs) (l k : ℕ) {e : Alcent}
    → TablesFit a
    → entry a l k ≡ some e
    → (l < length a) × (k < alloc_block)
entry-lt [] l k t h = cc
entry-lt (none ∷ a) zero k t h = cc
entry-lt (some b ∷ a) zero k t h = omega (arith, get_elem?-lt b k h)
entry-lt (none ∷ a) (suc l) k t h = omega (arith, entry-lt a l k t h)
entry-lt (some b ∷ a) (suc l) k t h = omega (arith, entry-lt a l k t.1 h)

-- In a table within its bounds, where _find_hole does not return 0xFFFFFFFF, the two halves of its
-- result are the indices of an entry that is valid, unused and big enough at the alignment.
pub find_hole-fits :
    (sz align : ℕ) (a : Allocs)
    → TablesFit a
    → find_hole sz align a ≢ no_hole
    → (e : Alcent) × (entry a (find_hole sz align a / 2 ^ 16) (find_hole sz align a % 2 ^ 16)
        ≡ some e)
      × (fits sz align e ≡ true)
unfolding find_hole
find_hole-fits sz align a t found = elim (search_blocks-Found sz align 0 a _) [
  | inl same ↦ absurd (found (ap (λ (h : Hole). h.idx) same))
  | inr (l, k, e, at, fit, idx, size) ↦
      let small = entry-lt a l k t at in
      let row : find_hole sz align a / 2 ^ 16 ≡ l = omega arith in
      let column : find_hole sz align a % 2 ^ 16 ≡ k = omega arith in (e, rw (row, column) at, fit)
]

-- The search goes to smaller holes only, and past no hole that is smaller than the one it keeps.
search_block-le :
    (sz align j i : ℕ) (b : Block) (h : Hole) → (search_block sz align j i b h).size ≤ h.size
unfolding search_block consider
search_block-le sz align j i [] h = omega arith
search_block-le sz align j i (e ∷ b) h =
    ground (arith, search_block-le sz align j (i + 1) b (consider sz align j i e h))

search_block-best :
    (sz align j i : ℕ) (b : Block) (h : Hole) (k : ℕ) {e : Alcent}
    → get_elem? b k ≡ some e
    → fits sz align e ≡ true
    → (search_block sz align j i b h).size ≤ e.size
unfolding search_block consider
search_block-best sz align j i [] h k at fit = cc
search_block-best sz align j i (x ∷ b) h zero at fit =
    ground (arith, search_block-le sz align j (i + 1) b (consider sz align j i x h))
search_block-best sz align j i (x ∷ b) h (suc k) at fit =
    search_block-best sz align j (i + 1) b (consider sz align j i x h) k at fit

search_blocks-le :
    (sz align j : ℕ) (a : Allocs) (h : Hole) → (search_blocks sz align j a h).size ≤ h.size
unfolding search_blocks
search_blocks-le sz align j [] h = omega arith
search_blocks-le sz align j (none ∷ a) h = search_blocks-le sz align (j + 1) a h
search_blocks-le sz align j (some b ∷ a) h = omega (
  arith,
  search_blocks-le sz align (j + 1) a (search_block sz align j 0 b h),
  search_block-le sz align j 0 b h,
)

search_blocks-best :
    (sz align j : ℕ) (a : Allocs) (h : Hole) (l k : ℕ) {e : Alcent}
    → entry a l k ≡ some e
    → fits sz align e ≡ true
    → (search_blocks sz align j a h).size ≤ e.size
unfolding search_blocks
search_blocks-best sz align j [] h l k at fit = cc
search_blocks-best sz align j (none ∷ a) h zero k at fit = cc
search_blocks-best sz align j (none ∷ a) h (suc l) k at fit =
    search_blocks-best sz align (j + 1) a h l k at fit
search_blocks-best sz align j (some b ∷ a) h zero k at fit = omega (
  arith,
  search_blocks-le sz align (j + 1) a (search_block sz align j 0 b h),
  search_block-best sz align j 0 b h k at fit,
)
search_blocks-best sz align j (some b ∷ a) h (suc l) k at fit =
    search_blocks-best sz align (j + 1) a (search_block sz align j 0 b h) l k at fit

-- In a table within its bounds, if some entry below 0xffffffff bytes fits the request, _find_hole
-- returns the packed index of an entry that fits and that is no larger.
pub find_hole-best :
    (sz align : ℕ) (a : Allocs) (l k : ℕ) {e : Alcent}
    → TablesFit a
    → length a ≤ alloc_blocks
    → entry a l k ≡ some e
    → fits sz align e ≡ true
    → e.size < 0xffffffff
    → (e' : Alcent) × (find_hole sz align a ≢ no_hole)
      × (entry a (find_hole sz align a / 2 ^ 16) (find_hole sz align a % 2 ^ 16) ≡ some e')
      × (fits sz align e' ≡ true)
      × (e'.size ≤ e.size)
unfolding find_hole
find_hole-best sz align a l k {e} t few at fit word =
    let best =
      search_blocks-best sz align 0 a (record { idx = no_hole; size = 0xffffffff }) l k at fit in
    elim (search_blocks-Found sz align 0 a (record { idx = no_hole; size = 0xffffffff })) [
      | inl same ↦ absurd (omega (arith, ap (λ (h : Hole). h.size) same))
      | inr (l', k', e', at', fit', idx, size) ↦
          let small = entry-lt a l' k' t at' in
          let row : find_hole sz align a / 2 ^ 16 ≡ l' = omega arith in
          let column : find_hole sz align a % 2 ^ 16 ≡ k' = omega arith in
          (e', omega arith, rw (row, column) at', fit', omega arith)
    ]
