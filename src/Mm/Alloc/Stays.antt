-- ===== src/Mm/Alloc/Stays.antt =====
-- An allocation leaves the entries in use where they are.
use lambda_os.Prelude.{
  ℕ, zero, suc, ◌/◌, ◌%◌, ◌^◌, ◌<◌, ◌≤◌, ◌≡◌, ◌≢◌, true, false, none, some, [], ◌∷◌, ◌==◌, ltb,
  if◌then◌else◌, inl, inr, Bool-cases, arith, get_elem?,
}
use lambda_os.Prelude.Word.{add32}
use lambda_os.Prelude.Outcome.{Outcome, ok, ok_of_bind, ◌>>=◌}
use lambda_os.Mm.Alloc.Table.{Alcent, Block, Allocs, entry, modify, add_alloc, block_at}
use lambda_os.Mm.Alloc.Search.{find_hole, no_hole, empty_slots}
use lambda_os.Mm.Alloc.Entries.{entry-add}
use lambda_os.Mm.Alloc.Merge.{entry-modify_other}
use lambda_os.Mm.Alloc.Found.{find_hole-fits}
use lambda_os.Mm.Alloc.Sound.{IsSound}
use lambda_os.Mm.Alloc.Tally.{tally_block}
use lambda_os.Mm.Alloc.Cover.{holding, held}
use lambda_os.Mm.Alloc.{
  Memory, claim, cut_front, set_size, used_entry, correction, behind, place, take_front,
  take_inside, search_and_place, make_room, kamalloc,
}

held_block-entry :
    (b : Block) (k : ℕ) {u : Alcent} (x : ℕ)
    → get_elem? b k ≡ some u
    → 1 ≤ holding x u
    → 1 ≤ tally_block (holding x) b
held_block-entry [] k x at in_it = cc
held_block-entry (e ∷ b) zero x at in_it = ground (arith, at, in_it)
held_block-entry (e ∷ b) (suc k) x at in_it = omega (arith, held_block-entry b k x at in_it)

-- An address that an entry holds is held.
pub held-entry :
    (a : Allocs) (l k : ℕ) {u : Alcent} (x : ℕ)
    → entry a l k ≡ some u
    → 1 ≤ holding x u
    → 1 ≤ held x a
held-entry [] l k x at in_it = cc
held-entry (none ∷ a) zero k x at in_it = cc
held-entry (some b ∷ a) zero k x at in_it = omega (arith, held_block-entry b k x at in_it)
held-entry (none ∷ a) (suc l) k x at in_it = held-entry a l k x at in_it
held-entry (some b ∷ a) (suc l) k x at in_it = omega (arith, held-entry a l k x at in_it)

module _ (sz align j i l k : ℕ) (e u : Alcent) (unused : e.used ≡ false) (used : u.used ≡ true)
    (valid : u.valid ≡ true) where
  shrink-entry :
      (f : Alcent → Alcent) (new : Alcent) (a : Allocs) {a' : Allocs}
      → entry a j i ≡ some e
      → entry a l k ≡ some u
      → add_alloc new (modify f j i a) ≡ ok a'
      → entry a' l k ≡ some u
  shrink-entry f new a at there h =
      entry-add new (modify f j i a) l k h (entry-modify_other f a j i l k at there unused used)
        valid

  take_inside-entry :
      (a a' : Allocs) (p : ℕ)
      → e.valid ≡ true
      → entry a j i ≡ some e
      → entry a l k ≡ some u
      → take_inside sz align j i e a ≡ ok (p, a')
      → entry a' l k ≡ some u
  unfolding take_inside
  take_inside-entry a a' p live at there h =
      let c = correction align e in
      let split : Outcome Allocs =
        if ltb (add32 sz c) e.size then add_alloc (behind sz align e) a else ok a in
      let add_used : Allocs → Outcome Allocs =
        λ b. add_alloc (used_entry (add32 e.addr c) sz) (modify (set_size c) j i b) in
      let give : Allocs → Outcome (ℕ × Allocs) = λ b. ok (add32 e.addr c, b) in
      let (a1, first, h1) = ok_of_bind split (λ b. add_used b >>= give) h in
      let (a2, second, same) = ok_of_bind (add_used a1) give h1 in
      let same' : a2 ≡ a' = ground (arith, same) in
      let kept : (entry a1 j i ≡ some e) × (entry a1 l k ≡ some u) =
        elim (Bool-cases (ltb (add32 sz c) e.size)) [
          | inl more ↦
              let adds : add_alloc (behind sz align e) a ≡ ok a1 = ground (arith, first, more) in
              (
                entry-add (behind sz align e) a j i adds at live,
                entry-add (behind sz align e) a l k adds there valid,
              )
          | inr exact ↦
              let same1 : a ≡ a1 = ground (arith, first, exact) in rw (← same1) (at, there)
        ] in
      rw (← same')
        (shrink-entry (set_size c) (used_entry (add32 e.addr c) sz) a1 kept.0 kept.1 second)

  pub place-entry :
      (a a' : Allocs) (p : ℕ)
      → e.valid ≡ true
      → entry a j i ≡ some e
      → entry a l k ≡ some u
      → place sz align j i e a ≡ ok (p, a')
      → entry a' l k ≡ some u
  unfolding place take_front
  place-entry a a' p live at there h = elim (Bool-cases (e.size == sz)) [
    | inl whole ↦ ground (arith, h, whole, entry-modify_other claim a j i l k at there unused used)
    | inr more ↦ elim (Bool-cases (e.addr % align == 0)) [
      | inl front ↦
          let add_used = add_alloc (used_entry e.addr sz) (modify (cut_front sz) j i a) in
          let give : Allocs → Outcome (ℕ × Allocs) = λ b. ok (e.addr, b) in
          let h' : (add_used >>= give) ≡ ok (p, a') = ground (arith, h, more, front) in
          let (a1, first, same) = ok_of_bind add_used give h' in
          ground (arith, same, shrink-entry (cut_front sz) (used_entry e.addr sz) a at there first)
      | inr inside ↦ take_inside-entry a a' p live at there (ground (arith, h, more, inside))
    ]
  ]

-- An allocation that makes no new table leaves the entries in use.
pub kamalloc-entry :
    (mem : Memory) (sz align : ℕ) (a a' : Allocs) (p l k : ℕ) (u : Alcent) (b : Block)
    → IsSound a
    → entry a l k ≡ some u
    → u.used ≡ true
    → u.valid ≡ true
    → find_hole sz align a ≢ no_hole
    → block_at a (find_hole sz align a / 2 ^ 16) ≡ some b
    → empty_slots b ≢ 4
    → 0 < sz
    → 0 < align
    → kamalloc mem sz align a ≡ ok (p, a')
    → entry a' l k ≡ some u
unfolding kamalloc make_room search_and_place
kamalloc-entry mem sz align a a' p l k u b sound there used valid hole at_block four pos al h =
    let j = find_hole sz align a / 2 ^ 16 in
    let i = find_hole sz align a % 2 ^ 16 in
    let (e, at, fit) = find_hole-fits sz align a sound.tables hole in
    let runs : place sz align j i e a ≡ ok (p, a') =
      ground (arith, h, hole, at_block, four, pos, al, at) in
    place-entry sz align j i l k e u (ground (arith, fit)) used valid a a' p (ground (arith, fit))
      at there runs
