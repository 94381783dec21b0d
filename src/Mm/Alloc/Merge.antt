-- ===== src/Mm/Alloc/Merge.antt =====
-- Which entry takes the bytes of a freed block.
use lambda_os.Prelude.{
  ◌∙◌, ℕ, zero, suc, ◌≡◌, refl, ap, true, false, none, some, [], ◌∷◌, inl, inr, Bool-cases,
  Option-cases, map-eq-some, arith, get_elem?,
}
use lambda_os.Mm.Alloc.Table.{Alcent, Block, Allocs, entry, modify_block, modify}
use lambda_os.Mm.Alloc.Release.{joins, join, merge_block, merge}

module _ (addr size : ℕ) where
  -- The merge is one write, to an entry that joins the block.
  merge_block-modify :
      (b : Block) {b' : Block}
      → merge_block addr size b ≡ some b'
      → (k : ℕ) × (x : Alcent) × (get_elem? b k ≡ some x)
        × (joins addr size x ≡ true)
        × (modify_block (join addr size) k b ≡ b')
  unfolding merge_block
  merge_block-modify [] h = cc
  merge_block-modify (x ∷ b) {b'} h = elim (Bool-cases (joins addr size x)) [
    | inl here ↦ (0, x, refl, here, ground (arith, here))
    | inr there ↦
        let (c, e, q) =
          map-eq-some (merge_block addr size b) (◌∷◌ x) {b = b'} (ground (arith, there)) in
        let (k, y, at, fit, same) = merge_block-modify b e in
        (suc k, y, at, fit, ap (◌∷◌ x) same ∙ q)
  ]

  pub merge-modify :
      (a : Allocs) {a' : Allocs}
      → merge addr size a ≡ some a'
      → (l : ℕ) × (k : ℕ) × (x : Alcent) × (entry a l k ≡ some x)
        × (joins addr size x ≡ true)
        × (modify (join addr size) l k a ≡ a')
  unfolding merge
  merge-modify [] h = cc
  merge-modify (none ∷ a) {a'} h =
      let (c, e, q) = map-eq-some (merge addr size a) (◌∷◌ none) {b = a'} h in
      let (l, k, x, at, fit, same) = merge-modify a e in
      (suc l, k, x, at, fit, ap (◌∷◌ none) same ∙ q)
  merge-modify (some b ∷ a) {a'} h = elim (Option-cases (merge_block addr size b)) [
    | inr (c, e) ↦
        let (k, x, at, fit, same) = merge_block-modify b e in
        (0, k, x, at, fit, ground (arith, e, same))
    | inl clear ↦
        let (c, e, q) =
          map-eq-some (merge addr size a) (◌∷◌ (some b)) {b = a'} (ground (arith, clear)) in
        let (l, k, x, at, fit, same) = merge-modify a e in
        (suc l, k, x, at, fit, ap (◌∷◌ (some b)) same ∙ q)
  ]

  -- Where there is no merge, no entry joins the block.
  merge_block-none :
      (b : Block) (k : ℕ) {x : Alcent}
      → merge_block addr size b ≡ none
      → get_elem? b k ≡ some x
      → joins addr size x ≡ false
  unfolding merge_block
  merge_block-none [] k h at = cc
  merge_block-none (y ∷ b) zero {x} h at = let same : y ≡ x = cc in rw (← same) (ground arith)
  merge_block-none (y ∷ b) (suc k) {x} h at = elim (Option-cases (merge_block addr size b)) [
    | inl clear ↦ merge_block-none b k clear at
    | inr (c, e) ↦ ground (arith, e)
  ]

  merge-none_parts :
      (b : Block) (a : Allocs)
      → merge addr size (some b ∷ a) ≡ none
      → (merge_block addr size b ≡ none) × (merge addr size a ≡ none)
  unfolding merge
  merge-none_parts b a h = elim (Option-cases (merge_block addr size b)) [
    | inr (c, e) ↦ ground (arith, e)
    | inl clear ↦ elim (Option-cases (merge addr size a)) [
      | inr (c, e) ↦ ground (arith, clear, e)
      | inl rest ↦ (clear, rest)
    ]
  ]

  pub merge-none :
      (a : Allocs) (l k : ℕ) {x : Alcent}
      → merge addr size a ≡ none
      → entry a l k ≡ some x
      → joins addr size x ≡ false
  unfolding merge
  merge-none [] l k h at = cc
  merge-none (none ∷ a) zero k h at = cc
  merge-none (none ∷ a) (suc l) k h at = elim (Option-cases (merge addr size a)) [
    | inl clear ↦ merge-none a l k clear at
    | inr (c, e) ↦ ground (arith, e)
  ]
  merge-none (some b ∷ a) zero k h at = merge_block-none b k (merge-none_parts b a h).0 at
  merge-none (some b ∷ a) (suc l) k h at = merge-none a l k (merge-none_parts b a h).1 at

get_elem?-modify_ne :
    (f : Alcent → Alcent) (b : Block) (k i : ℕ) {x e : Alcent}
    → get_elem? b k ≡ some x
    → get_elem? b i ≡ some e
    → x.used ≡ false
    → e.used ≡ true
    → get_elem? (modify_block f k b) i ≡ some e
get_elem?-modify_ne f [] k i at at' u u' = cc
get_elem?-modify_ne f (y ∷ b) zero zero at at' u u' = ground arith
get_elem?-modify_ne f (y ∷ b) zero (suc i) at at' u u' = at'
get_elem?-modify_ne f (y ∷ b) (suc k) zero at at' u u' = at'
get_elem?-modify_ne f (y ∷ b) (suc k) (suc i) at at' u u' = get_elem?-modify_ne f b k i at at' u u'

-- A write to an entry that is not in use leaves those in use alone.
pub entry-modify_other :
    (f : Alcent → Alcent) (a : Allocs) (l k j i : ℕ) {x e : Alcent}
    → entry a l k ≡ some x
    → entry a j i ≡ some e
    → x.used ≡ false
    → e.used ≡ true
    → entry (modify f l k a) j i ≡ some e
entry-modify_other f [] l k j i at at' u u' = cc
entry-modify_other f (none ∷ a) zero k j i at at' u u' = cc
entry-modify_other f (some b ∷ a) zero k zero i at at' u u' =
    get_elem?-modify_ne f b k i at at' u u'
entry-modify_other f (some b ∷ a) zero k (suc j) i at at' u u' = at'
entry-modify_other f (none ∷ a) (suc l) k zero i at at' u u' = cc
entry-modify_other f (some b ∷ a) (suc l) k zero i at at' u u' = at'
entry-modify_other f (none ∷ a) (suc l) k (suc j) i at at' u u' =
    entry-modify_other f a l k j i at at' u u'
entry-modify_other f (some b ∷ a) (suc l) k (suc j) i at at' u u' =
    entry-modify_other f a l k j i at at' u u'
