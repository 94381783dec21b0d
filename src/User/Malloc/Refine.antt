-- ===== src/User/Malloc/Refine.antt =====
-- Where the kernel's allocator succeeds, the one of user space does the same, and grants what it grants.
use lambda_os.Prelude.{
  ℕ, ◌+◌, ◌/◌, ◌%◌, ◌^◌, ◌<◌, ◌≤◌, ◌≡◌, ◌≢◌, none, some, [], ◌∷◌, ◌==◌, ltb, inl, inr, ◌⊎◌,
  Bool-cases, Option-cases, arith,
}
use lambda_os.Prelude.Word.{add32}
use lambda_os.Prelude.Outcome.{Outcome, ok, ◌>>=◌, map_ok, ok_of_bind}
use lambda_os.Mm.Alloc
use lambda_os.Mm.Alloc.Table
use lambda_os.Mm.Alloc.Table.{Alcent, Block, Allocs, add_block, entry, modify, or_fault, block_at}
use lambda_os.Mm.Alloc.Search.{find_hole, no_hole, empty_slots}
use lambda_os.Mm.Alloc.Release.{find_addr, kfree}
use lambda_os.Mm.Alloc.{Memory, cut_front, set_size, used_entry, correction, behind}
use lambda_os.Mm.Alloc.Cover.{within, held}
use lambda_os.Mm.Alloc.Exclusive.{Blank}
use lambda_os.Mm.Alloc.Disjoint.{IsDisjoint, kamalloc-IsDisjoint}
use lambda_os.Mm.Alloc.Sound.{IsSound}
use lambda_os.Mm.Alloc.Room.{free_slots, kamalloc_returns}
use lambda_os.User.Malloc.{add_alloc, place, search_and_place, alloc, malloc, free, min_align}

add_alloc_kernel :
    (al : Alcent) (a a' : Allocs) → Table.add_alloc al a ≡ ok a' → add_alloc al a ≡ some a'
unfolding add_alloc Table.add_alloc
add_alloc_kernel al [] a' h = cc
add_alloc_kernel al (none ∷ a) a' h =
    let (a1, first, same) = ok_of_bind (Table.add_alloc al a) _ h in
    ground (arith, add_alloc_kernel al a a1 first, same)
add_alloc_kernel al (some b ∷ a) a' h = elim (Option-cases (add_block al b)) [
  | inl full ↦
      let h' : map_ok (◌∷◌ (some b)) (Table.add_alloc al a) ≡ ok a' = ground (arith, h, full) in
      let (a1, first, same) = ok_of_bind (Table.add_alloc al a) _ h' in
      ground (arith, add_alloc_kernel al a a1 first, same, full)
  | inr (b', room) ↦ ground (arith, h, room)
]

place_kernel :
    (sz align j i : ℕ) (e : Alcent) (a a' : Allocs) (p : ℕ)
    → Alloc.place sz align j i e a ≡ ok (p, a')
    → place sz align j i e a ≡ (p, a')
unfolding place Alloc.place Alloc.take_front Alloc.take_inside
place_kernel sz align j i e a a' p h = elim (Bool-cases (e.size == sz)) [
  | inl whole ↦ ground (arith, h, whole)
  | inr more ↦ elim (Bool-cases (e.addr % align == 0)) [
    | inl front ↦
        let h' : Alloc.take_front sz j i e a ≡ ok (p, a') = ground (arith, h, more, front) in
        let (a1, first, same) =
          ok_of_bind (Table.add_alloc (used_entry e.addr sz) (modify (cut_front sz) j i a)) _ h' in
        ground (
          arith,
          more,
          front,
          add_alloc_kernel (used_entry e.addr sz) (modify (cut_front sz) j i a) a1 first,
          same,
        )
    | inr inside ↦ elim (Bool-cases (ltb (add32 sz (correction align e)) e.size)) [
      | inl rest ↦
          let add_behind = Table.add_alloc (behind sz align e) a in
          let add_used = λ (b : Allocs).
            Table.add_alloc (used_entry (add32 e.addr (correction align e)) sz)
              (modify (set_size (correction align e)) j i b) in
          let give : Allocs → Outcome (ℕ × Allocs) =
            λ b. ok (add32 e.addr (correction align e), b) in
          let h' : (add_behind >>= λ b. add_used b >>= give) ≡ ok (p, a') =
            ground (arith, h, more, inside, rest) in
          let (a1, first, h1) = ok_of_bind add_behind (λ b. add_used b >>= give) h' in
          let (a2, second, same) = ok_of_bind (add_used a1) give h1 in
          ground (
            arith,
            more,
            inside,
            rest,
            add_alloc_kernel (behind sz align e) a a1 first,
            add_alloc_kernel (used_entry (add32 e.addr (correction align e)) sz)
                (modify (set_size (correction align e)) j i a1) a2 second,
            same,
          )
      | inr exact ↦
          let add_used =
            Table.add_alloc (used_entry (add32 e.addr (correction align e)) sz)
              (modify (set_size (correction align e)) j i a) in
          let give : Allocs → Outcome (ℕ × Allocs) =
            λ b. ok (add32 e.addr (correction align e), b) in
          let h' : (add_used >>= give) ≡ ok (p, a') = ground (arith, h, more, inside, exact) in
          let (a2, second, same) = ok_of_bind add_used give h' in
          ground (
            arith,
            more,
            inside,
            exact,
            add_alloc_kernel (used_entry (add32 e.addr (correction align e)) sz)
                (modify (set_size (correction align e)) j i a) a2 second,
            same,
          )
    ]
  ]
]

search_and_place_kernel :
    (sz align : ℕ) (a a' : Allocs) (p : ℕ)
    → Alloc.search_and_place sz align a ≡ ok (p, a')
    → search_and_place sz align a ≡ ok (p, a')
unfolding search_and_place Alloc.search_and_place
search_and_place_kernel sz align a a' p h = elim (Bool-cases (find_hole sz align a == no_hole)) [
  | inl full ↦ ground (arith, h, full)
  | inr hole ↦
      let j = find_hole sz align a / 2 ^ 16 in
      let i = find_hole sz align a % 2 ^ 16 in
      let h' : (or_fault (entry a j i) >>= λ e. Alloc.place sz align j i e a) ≡ ok (p, a') =
        ground (arith, h, hole) in
      let (e, at, runs) =
        ok_of_bind (or_fault (entry a j i)) (λ e. Alloc.place sz align j i e a) h' in
      ground (arith, hole, at, place_kernel sz align j i e a a' p runs)
]

-- If the table of entries that the search finds the hole in has not exactly four free slots and
-- the kernel's kamalloc returns, at the alignment of user space, malloc returns the same address
-- and leaves the same table.
pub malloc-kamalloc :
    (mem : Memory) (size : ℕ) (a a' : Allocs) (p : ℕ) (b : Block)
    → block_at a (find_hole size min_align a / 2 ^ 16) ≡ some b
    → empty_slots b ≢ 4
    → Alloc.kamalloc mem size min_align a ≡ ok (p, a')
    → malloc mem size a ≡ ok (p, a')
unfolding malloc alloc Alloc.kamalloc Alloc.make_room
malloc-kamalloc mem size a a' p b at four h = elim (Bool-cases (size == 0)) [
  | inl empty ↦ ground (arith, h, empty)
  | inr some_bytes ↦ elim (Bool-cases (find_hole size min_align a == no_hole)) [
    | inl full ↦ ground (arith, h, some_bytes, full)
    | inr hole ↦
        let h' : Alloc.search_and_place size min_align a ≡ ok (p, a') =
          ground (arith, h, some_bytes, hole, at, four) in
        ground (arith, some_bytes, hole, at, four, search_and_place_kernel size min_align a a' p h')
  ]
]

-- Where kfree returns, free leaves the same table.
pub free-kfree : (ptr : ℕ) (a a' : Allocs) → kfree ptr a ≡ ok a' → free ptr a ≡ a'
unfolding free kfree
free-kfree ptr a a' h = elim (Option-cases (find_addr ptr 0 a)) [
  | inl absent ↦ ground (arith, h, absent)
  | inr (r, found) ↦ ground (arith, h, found)
]

-- From a well-formed table in which no two valid entries share an address and some hole fits, in a
-- table of entries that has not exactly four free slots, with two slots free in all, where fresh
-- memory reads as an empty table and the size is above 0 and with the alignment at most 2 ^ 32,
-- malloc returns; unless it returns NULL, no two valid entries share an address afterwards, and no
-- address of the block was held by a used entry before.
pub malloc-IsDisjoint :
    (mem : Memory) (size : ℕ) (a : Allocs) (b : Block)
    → Blank mem
    → IsSound a
    → IsDisjoint a
    → 0 < size
    → size + min_align ≤ 2 ^ 32
    → find_hole size min_align a ≢ no_hole
    → block_at a (find_hole size min_align a / 2 ^ 16) ≡ some b
    → empty_slots b ≢ 4
    → 2 ≤ free_slots a
    → (p : ℕ) × (a' : Allocs) × (malloc mem size a ≡ ok (p, a'))
      × ((p ≡ 0) ⊎ (IsDisjoint a' × ((x : ℕ) → held x a + within p size x ≤ 1)))
malloc-IsDisjoint mem size a b blank sound apart pos small hole at four room =
    let (p, a', runs) =
      kamalloc_returns mem size min_align a b sound pos (omega arith) hole at four room in
    (
      p,
      a',
      malloc-kamalloc mem size a a' p b at four runs,
      elim (Bool-cases (p == 0)) [
        | inl null ↦ inl (ground (arith, null))
        | inr got ↦ inr (
            kamalloc-IsDisjoint mem size min_align a blank small sound apart runs
              (λ z. ground (arith, got, z)))
      ],
    )
