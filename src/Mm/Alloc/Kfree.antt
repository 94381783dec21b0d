-- ===== src/Mm/Alloc/Kfree.antt =====
-- What `kfree` promises, and where its test of the block before goes wrong.
use lambda_os.Prelude.{
  ◌≢◌, ℕ, suc, ◌+◌, ◌^◌, ◌<◌, ◌≡◌, refl, ap, sym, ◌∙◌, true, false, none, some, [], ◌∷◌, ◌==◌, ◌&&◌,
  inl, inr, Bool-cases, Option-cases, arith, get_elem?,
}
use lambda_os.Prelude.Outcome.{ok, panic}
use lambda_os.Mm.Alloc.Table.{Alcent, Block, Allocs, entry, modify}
use lambda_os.Mm.Alloc.Release.{joins, join, merge, rm_alloc, find_in_block, find_addr, kfree}
use lambda_os.Mm.Alloc.Tally.{Ignores}
use lambda_os.Mm.Alloc.Cover.{covering, holding, cover, held, covering-Ignores, holding-Ignores}
use lambda_os.Mm.Alloc.Sound.{IsSound, Each-entry}
use lambda_os.Mm.Alloc.Merge.{merge-modify, merge-none}
use lambda_os.Mm.Alloc.Free.{
  retire, JoinsTruly, Released, rm_alloc-merged, rm_alloc-Released, merged-tally,
}

find_in_block-entry :
    (ptr j i : ℕ) (b : Block) {r : ℕ × ℕ × Alcent}
    → find_in_block ptr j i b ≡ some r
    → (k : ℕ) × (r.0 ≡ j)
      × (r.1 ≡ i + k)
      × (get_elem? b k ≡ some r.2)
      × (r.2.valid ≡ true)
      × (r.2.addr ≡ ptr)
unfolding find_in_block
find_in_block-entry ptr j i [] h = cc
find_in_block-entry ptr j i (e ∷ b) {r} h = elim (Bool-cases (e.valid && e.addr == ptr)) [
  | inl here ↦
      let same : (j, i, e) ≡ r = ground (arith, here) in
      rw (← same) (0, refl, omega arith, refl, ground arith, ground arith)
  | inr there ↦
      let (k, a, c, at, v, p) =
        find_in_block-entry ptr j (i + 1) b {r = r} (ground (arith, there)) in
      (suc k, a, omega (arith, c), at, v, p)
]

pub find_addr-entry :
    (ptr j : ℕ) (a : Allocs) {r : ℕ × ℕ × Alcent}
    → find_addr ptr j a ≡ some r
    → (l : ℕ) × (r.0 ≡ j + l) × (entry a l r.1 ≡ some r.2) × (r.2.valid ≡ true) × (r.2.addr ≡ ptr)
unfolding find_addr
find_addr-entry ptr j [] h = cc
find_addr-entry ptr j (none ∷ a) h =
    let (l, row, at, v, p) = find_addr-entry ptr (j + 1) a h in
    (suc l, omega (arith, row), at, v, p)
find_addr-entry ptr j (some b ∷ a) {r} h = elim (Option-cases (find_in_block ptr j 0 b)) [
  | inl clear ↦
      let (l, row, at, v, p) = find_addr-entry ptr (j + 1) a {r = r} (ground (arith, clear)) in
      (suc l, omega (arith, row), at, v, p)
  | inr (r', found) ↦
      let same : r' ≡ r = ground (arith, found) in
      let (k, row, column, at, v, p) = find_in_block-entry ptr j 0 b found in
      let k≡ : k ≡ r'.1 = omega (arith, column) in
      rw (← same) (0, omega (arith, row), rw k≡ at at, v, p)
]

-- If no valid entry of the table has the address, kfree panics.
pub kfree_panics :
    (ptr : ℕ) (a : Allocs)
    → ((l k : ℕ) (e : Alcent) → entry a l k ≡ some e → e.valid ≡ true → e.addr ≢ ptr)
    → kfree ptr a ≡ panic
unfolding kfree
kfree_panics ptr a absent = elim (Option-cases (find_addr ptr 0 a)) [
  | inl clear ↦ ground (arith, clear)
  | inr (r, found) ↦
      let (l, row, at, v, p) = find_addr-entry ptr 0 a found in absurd (absent l r.1 r.2 at v p)
]

module _ (ptr j i : ℕ) (e : Alcent) (a : Allocs) (s : IsSound a)
    (found : find_addr ptr 0 a ≡ some (j, i, e)) (used : e.used ≡ true) (low : 0 < ptr)
    (high : ptr + e.size < 2 ^ 32) where
  kfree-ok : kfree ptr a ≡ ok (rm_alloc j i e a)
  unfolding kfree
  kfree-ok = ground (arith, found)

  freed-entry : (entry a j i ≡ some e) × (e.valid ≡ true) × (e.addr ≡ ptr)
  freed-entry =
      let (l, row, at, v, p) = find_addr-entry ptr 0 a found in
      let l≡j : l ≡ j = omega (arith, row) in (rw l≡j at at, v, p)

  -- From a well-formed table in which kfree finds a used entry at the address, not at 0 and not up
  -- to the end of the address space, and in which every entry that passes the neighbour test of
  -- rm_alloc is indeed beside the block, kfree returns; each address is covered as often as
  -- before, exactly the addresses of the block are held once less, and the table stays
  -- well-formed.
  pub kfree_releases : JoinsTruly e a → (a' : Allocs) × (kfree ptr a ≡ ok a') × Released e a a'
  kfree_releases truly =
      let (at, v, p) = freed-entry in
      (
        rm_alloc j i e a,
        kfree-ok,
        rm_alloc-Released j i e v used (omega arith) (omega arith) a s at truly,
      )

  -- From a well-formed table in which kfree finds a used entry at the address, not at 0 and not up
  -- to the end of the address space, if some entry passes the neighbour test of rm_alloc and all
  -- that do lie below the block, are smaller than it, and start at its address less its own size,
  -- then kfree returns and some address below the block is covered by one more valid entry than
  -- before, although as many used entries hold it.
  pub kfree_overreaches :
      (l k : ℕ) {x : Alcent}
      → entry a l k ≡ some x
      → joins e.addr e.size x ≡ true
      → ((l k : ℕ) (x : Alcent)
          → entry a l k ≡ some x
          → joins e.addr e.size x ≡ true
          → (x.addr + e.size ≡ e.addr) × (x.size < e.size))
      → (a' : Allocs) × (kfree ptr a ≡ ok a')
        × (y : ℕ) × (y < ptr)
        × (cover y a' ≡ suc (cover y a))
        × (held y a' ≡ held y a)
  kfree_overreaches l k at fit short =
      let (at', v, p) = freed-entry in
      elim (Option-cases (merge e.addr e.size a)) [
        | inl alone ↦ ground (arith, merge-none e.addr e.size a l k alone at, fit)
        | inr (b, merged) ↦
            let (l', k', x, at1, fit', same) = merge-modify e.addr e.size a merged in
            let (close, less) = short l' k' x at1 fit' in
            let unused : x.used ≡ false = ground (arith, fit') in
            let live : x.valid ≡ true = ground (arith, fit') in
            let low' : 0 < e.addr = omega arith in
            let high' : e.addr + e.size < 2 ^ 32 = omega arith in
            let y = x.addr + x.size in
            let after : rm_alloc j i e a ≡ modify retire j i (modify (join e.addr e.size) l' k' a) =
              rm_alloc-merged j i e v used low' high' a merged
              ∙ ap (modify retire j i) (sym same) in
            let sums = λ (m : Alcent → ℕ) (blank : Ignores m).
              merged-tally j i e v used low' high' m blank a l' k' at1 at' unused in
            let space = Each-entry a l' k' s.each at1 live in
            (
              rm_alloc j i e a,
              kfree-ok,
              y,
              omega arith,
              rw after (ground (arith, sums (covering y) (covering-Ignores y))),
              rw after (ground (arith, sums (holding y) (holding-Ignores y))),
            )
      ]
