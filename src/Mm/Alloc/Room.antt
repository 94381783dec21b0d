-- ===== src/Mm/Alloc/Room.antt =====
-- Where the table has free slots, an allocation with a hole that fits returns.
use lambda_os.Prelude.{
  ℕ, suc, ◌/◌, ◌%◌, ◌^◌, ◌≡◌, ◌≢◌, ◌<◌, ◌≤◌, refl, ◌⊎◌, true, none, some, [], ◌∷◌, ◌==◌, ltb,
  if◌then◌else◌, inl, inr, Bool-cases, arith,
}
use lambda_os.Prelude.Word.{add32}
use lambda_os.Prelude.Outcome.{ok}
use lambda_os.Mm.Alloc.Table.{Alcent, Block, Allocs, entry, modify, add_block, add_alloc, block_at}
use lambda_os.Mm.Alloc.Search.{find_hole, no_hole, empty_slots}
use lambda_os.Mm.Alloc.Tally.{tally, tally_block, tally-modify}
use lambda_os.Mm.Alloc.Entries.{entry-add}
use lambda_os.Mm.Alloc.Found.{find_hole-fits}
use lambda_os.Mm.Alloc.Sound.{IsSound}
use lambda_os.Mm.Alloc.{
  Memory, claim, cut_front, set_size, correction, behind, used_entry, take_front, take_inside,
  place, search_and_place, make_room, kamalloc,
}

abbrev pub is_empty : Alcent → ℕ
is_empty e = if e.valid then 0 else 1

-- How many slots of the table are free.
abbrev pub free_slots : Allocs → ℕ
free_slots a = tally is_empty a

module _ (al : Alcent) (valid : al.valid ≡ true) where
  add_block-room :
      (b : Block)
      → (add_block al b ≡ none) × (tally_block is_empty b ≡ 0)
        ⊎ ((b' : Block) × (add_block al b ≡ some b')
            × (tally_block is_empty b ≡ suc (tally_block is_empty b')))
  unfolding add_block
  add_block-room [] = inl (refl, refl)
  add_block-room (e ∷ b) = elim (Bool-cases e.valid) [
    | inr slot ↦ inr (al ∷ b, ground (arith, slot), ground (arith, slot, valid))
    | inl taken ↦ elim (add_block-room b) [
      | inl (full, none_free) ↦ inl (ground (arith, taken, full), ground (arith, taken, none_free))
      | inr (b', room, less) ↦
          inr (e ∷ b', ground (arith, taken, room), ground (arith, taken, less))
    ]
  ]

  add_alloc-room :
      (a : Allocs)
      → 0 < free_slots a
      → (a' : Allocs) × (add_alloc al a ≡ ok a') × (free_slots a ≡ suc (free_slots a'))
  unfolding add_alloc
  add_alloc-room [] h = absurd (omega arith)
  add_alloc-room (none ∷ a) h =
      let (a', e, less) = add_alloc-room a h in (none ∷ a', ground (arith, e), less)
  add_alloc-room (some b ∷ a) h = elim (add_block-room b) [
    | inr (b', room, less) ↦ (some b' ∷ a, ground (arith, room), omega (arith, less))
    | inl (full, none_free) ↦
        let (a', e, less) = add_alloc-room a (omega (arith, none_free)) in
        (some b ∷ a', ground (arith, full, e), omega (arith, less))
  ]

module _ (sz align j i : ℕ) (e : Alcent) (valid : e.valid ≡ true) where
  -- A hole shrunk to `f e`, and a new entry.
  shrink-room :
      (f : Alcent → Alcent) (new : Alcent) (a : Allocs)
      → entry a j i ≡ some e
      → (f e).valid ≡ true
      → new.valid ≡ true
      → 0 < free_slots a
      → (a' : Allocs) × (add_alloc new (modify f j i a) ≡ ok a')
  shrink-room f new a at kept nv h =
      let same : free_slots (modify f j i a) ≡ free_slots a =
        ground (arith, tally-modify is_empty f a j i at, valid, kept) in
      let (a', r, _) = add_alloc-room new nv (modify f j i a) (omega (arith, same)) in (a', r)

  place_returns :
      (a : Allocs)
      → entry a j i ≡ some e
      → 2 ≤ free_slots a
      → (p : ℕ) × (a' : Allocs) × (place sz align j i e a ≡ ok (p, a'))
  unfolding place take_front take_inside
  place_returns a at h =
      let c = correction align e in
      let block = used_entry (add32 e.addr c) sz in
      let (cut, cuts) =
        shrink-room (cut_front sz) (used_entry e.addr sz) a at valid refl (omega arith) in
      let (inside, insides) = shrink-room (set_size c) block a at valid refl (omega arith) in
      let (a1, adds, less) = add_alloc-room (behind sz align e) refl a (omega arith) in
      let at1 = entry-add (behind sz align e) a j i adds at valid in
      let (split, splits) =
        shrink-room (set_size c) block a1 at1 valid refl (omega (arith, less)) in
      elim (Bool-cases (e.size == sz)) [
        | inl whole ↦ (e.addr, modify claim j i a, ground (arith, whole))
        | inr part ↦ elim (Bool-cases (e.addr % align == 0)) [
          | inl aligned ↦ (e.addr, cut, ground (arith, part, aligned, cuts))
          | inr crooked ↦ elim (Bool-cases (ltb (add32 sz c) e.size)) [
            | inl more ↦ (add32 e.addr c, split, ground (arith, part, crooked, more, adds, splits))
            | inr exact ↦ (add32 e.addr c, inside, ground (arith, part, crooked, exact, insides))
          ]
        ]
      ]

-- From a well-formed table in which some hole fits, where the table of entries that the search
-- finds it in has not exactly four free slots and at least two slots are free in all, kamalloc of
-- a size and alignment above 0 returns.
pub kamalloc_returns :
    (mem : Memory) (sz align : ℕ) (a : Allocs) (b : Block)
    → IsSound a
    → 0 < sz
    → 0 < align
    → find_hole sz align a ≢ no_hole
    → block_at a (find_hole sz align a / 2 ^ 16) ≡ some b
    → empty_slots b ≢ 4
    → 2 ≤ free_slots a
    → (p : ℕ) × (a' : Allocs) × (kamalloc mem sz align a ≡ ok (p, a'))
unfolding kamalloc make_room search_and_place
kamalloc_returns mem sz align a b sound pos al hole at four room =
    let idx = find_hole sz align a in
    let (e, there, fit) = find_hole-fits sz align a sound.tables hole in
    let valid : e.valid ≡ true = ground (arith, fit) in
    let (p, a', runs) = place_returns sz align (idx / 2 ^ 16) (idx % 2 ^ 16) e valid a there room in
    (p, a', ground (arith, hole, at, four, there, runs, pos, al))
