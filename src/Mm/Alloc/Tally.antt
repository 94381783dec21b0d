-- ===== src/Mm/Alloc/Tally.antt =====
-- Sums over the entries of the table, and how the writes to the table change them.
use lambda_os.Prelude.{
  inl, inr, Option-cases, ℕ, zero, suc, ◌+◌, ◌≡◌, false, none, some, [], ◌∷◌, arith, get_elem?,
}
use lambda_os.Prelude.Outcome.{ok, ok_of_bind}
use lambda_os.Mm.Alloc.Table.{
  set_block, get_free_block, Alcent, Block, Allocs, entry, modify, modify_block, add_block,
  add_alloc,
}

module _ (m : Alcent → ℕ) where
  abbrev pub tally_block : Block → ℕ
  tally_block [] = 0
  tally_block (e ∷ b) = m e + tally_block b

  abbrev pub tally : Allocs → ℕ
  tally [] = 0
  tally (none ∷ a) = tally a
  tally (some b ∷ a) = tally_block b + tally a

  tally_block-modify :
      (f : Alcent → Alcent) (b : Block) (i : ℕ) (e : Alcent)
      → get_elem? b i ≡ some e
      → tally_block (modify_block f i b) + m e ≡ tally_block b + m (f e)
  tally_block-modify f [] i e h = cc
  tally_block-modify f (x ∷ b) zero e h = let x≡e : x ≡ e = cc in rw x≡e (omega arith)
  tally_block-modify f (x ∷ b) (suc i) e h = omega (arith, tally_block-modify f b i e h)

  -- A write to an entry trades its share for the new one.
  pub tally-modify :
      (f : Alcent → Alcent) (a : Allocs) (j i : ℕ) {e : Alcent}
      → entry a j i ≡ some e
      → tally (modify f j i a) + m e ≡ tally a + m (f e)
  tally-modify f [] j i h = cc
  tally-modify f (none ∷ a) zero i h = cc
  tally-modify f (some b ∷ a) zero i {e} h = omega (arith, tally_block-modify f b i e h)
  tally-modify f (none ∷ a) (suc j) i h = tally-modify f a j i h
  tally-modify f (some b ∷ a) (suc j) i h = omega (arith, tally-modify f a j i h)

  -- Entries that are not valid count for nothing.
  abbrev pub Ignores : Type 0
  Ignores = (e : Alcent) → e.valid ≡ false → m e ≡ 0

  module _ (blank : Ignores) (al : Alcent) where
    tally_block-add :
        (b : Block) {b' : Block} → add_block al b ≡ some b' → tally_block b' ≡ tally_block b + m al
    unfolding add_block
    tally_block-add [] h = cc
    tally_block-add (e ∷ b) h = elim (Option-cases (add_block al b)) [
      | inl full ↦ ground (arith, blank e, full)
      | inr (r, room) ↦ ground (arith, blank e, room, tally_block-add b room)
    ]

    pub tally-add : (a : Allocs) {a' : Allocs} → add_alloc al a ≡ ok a' → tally a' ≡ tally a + m al
    unfolding add_alloc
    tally-add [] h = cc
    tally-add (none ∷ a) h =
        let (r, e, q) = ok_of_bind (add_alloc al a) _ h in ground (arith, q, tally-add a e)
    tally-add (some b ∷ a) {a'} h = elim (Option-cases (add_block al b)) [
      | inr (r, room) ↦ ground (arith, room, tally_block-add b room)
      | inl full ↦
          let (r, e, q) =
            ok_of_bind (add_alloc al a) (λ a. ok (some b ∷ a)) {t = a'} (ground (arith, full)) in
          ground (arith, q, tally-add a e)
    ]

  -- A table put in the place of a NULL pointer adds its entries.
  pub tally-set_block :
      (b : Block) (a : Allocs) {a' : Allocs}
      → set_block (get_free_block a) b a ≡ ok a'
      → tally a' ≡ tally_block b + tally a
  unfolding set_block get_free_block
  tally-set_block b [] h = cc
  tally-set_block b (none ∷ a) h = ground arith
  tally-set_block b (some c ∷ a) h =
      let (r, e, q) = ok_of_bind (set_block (get_free_block a) b a) _ h in
      ground (arith, q, tally-set_block b a e)
