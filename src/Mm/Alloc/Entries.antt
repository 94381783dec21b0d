-- ===== src/Mm/Alloc/Entries.antt =====
-- Which entries the writes to the table leave alone.
use lambda_os.Prelude.{
  ℕ, zero, suc, ◌≡◌, true, none, some, [], ◌∷◌, inl, inr, Option-cases, arith, get_elem?,
}
use lambda_os.Prelude.Outcome.{ok, ok_of_bind}
use lambda_os.Mm.Alloc.Table.{Alcent, Block, Allocs, entry, add_block, add_alloc}

module _ (al : Alcent) where
  get_elem?-add_block :
      (b : Block) {b' : Block} (i : ℕ) {e : Alcent}
      → add_block al b ≡ some b'
      → get_elem? b i ≡ some e
      → e.valid ≡ true
      → get_elem? b' i ≡ some e
  unfolding add_block
  get_elem?-add_block [] i h g v = cc
  get_elem?-add_block (x ∷ b) zero h g v = elim (Option-cases (add_block al b)) [
    | inl full ↦ ground (arith, full)
    | inr (r, room) ↦ ground (arith, room)
  ]
  get_elem?-add_block (x ∷ b) (suc i) h g v = elim (Option-cases (add_block al b)) [
    | inl full ↦ ground (arith, full)
    | inr (r, room) ↦ ground (arith, room, get_elem?-add_block b i room g v)
  ]

  -- A new entry overwrites no valid one.
  pub entry-add :
      (a : Allocs) {a' : Allocs} (j i : ℕ) {e : Alcent}
      → add_alloc al a ≡ ok a'
      → entry a j i ≡ some e
      → e.valid ≡ true
      → entry a' j i ≡ some e
  unfolding add_alloc
  entry-add [] j i h g v = cc
  entry-add (none ∷ a) zero i h g v = cc
  entry-add (none ∷ a) (suc j) i h g v =
      let (r, e, q) = ok_of_bind (add_alloc al a) _ h in ground (arith, q, entry-add a j i e g v)
  entry-add (some b ∷ a) {a'} zero i h g v = elim (Option-cases (add_block al b)) [
    | inr (r, room) ↦ ground (arith, room, get_elem?-add_block b i room g v)
    | inl full ↦
        let (r, e, q) =
          ok_of_bind (add_alloc al a) (λ a. ok (some b ∷ a)) {t = a'} (ground (arith, full)) in
        ground (arith, q)
  ]
  entry-add (some b ∷ a) {a'} (suc j) i h g v = elim (Option-cases (add_block al b)) [
    | inr (r, room) ↦ ground (arith, room)
    | inl full ↦
        let (r, e, q) =
          ok_of_bind (add_alloc al a) (λ a. ok (some b ∷ a)) {t = a'} (ground (arith, full)) in
        ground (arith, q, entry-add a j i e g v)
  ]
