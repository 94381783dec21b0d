-- ===== src/User/Malloc/Resize.antt =====
-- What realloc does with the bytes of the block.
use lambda_os.Prelude.{
  ℕ, ◌+◌, ◌/◌, ◌^◌, ◌<◌, ◌≤◌, ◌≡◌, ◌≢◌, refl, true, leb, some, ◌==◌, ltb, if◌then◌else◌, inl, inr,
  ◌⊎◌, Bool-cases, arith,
}
use lambda_os.Prelude.Outcome.{ok}
use lambda_os.Std.Bytes.{memcpy}
use lambda_os.Std.Bytes.Copy.{copied, memcpy-copied, memcpy-at}
use lambda_os.Mm.Alloc.Table.{Alcent, Block, Allocs, entry, block_at}
use lambda_os.Mm.Alloc.Search.{find_hole, no_hole, empty_slots}
use lambda_os.Mm.Alloc.Release.{find_addr}
use lambda_os.Mm.Alloc.Cover.{within, holding, held}
use lambda_os.Mm.Alloc.Exclusive.{Blank}
use lambda_os.Mm.Alloc.Disjoint.{IsDisjoint, kamalloc-IsDisjoint}
use lambda_os.Mm.Alloc.Sound.{IsSound}
use lambda_os.Mm.Alloc.Room.{free_slots, kamalloc_returns}
use lambda_os.Mm.Alloc.Kfree.{find_addr-entry}
use lambda_os.Mm.Alloc.Stays.{held-entry, kamalloc-entry}
use lambda_os.Mm.Alloc.{Memory}
use lambda_os.User.Malloc.{malloc, alloc, free, Heap, resize, realloc, min_align}
use lambda_os.User.Malloc.Refine.{malloc-kamalloc}

-- The number of bytes that both sizes have.
abbrev pub smaller : ℕ → ℕ → ℕ
smaller size old = if ltb size old then size else old

module _ (ptr size j i : ℕ) (e : Alcent) (h : Heap) (got : ptr ≢ 0) (some_bytes : size ≢ 0)
    (found : find_addr ptr 0 h.allocs ≡ some (j, i, e)) where
  located : (entry h.allocs j i ≡ some e) × (e.valid ≡ true) × (e.addr ≡ ptr)
  located =
      let (l, row, at, v, p) = find_addr-entry ptr 0 h.allocs found in
      let l≡j : l ≡ j = omega (arith, row) in (rw l≡j at at, v, p)

  -- realloc by what malloc does.
  realloc-malloc :
      (mem : Memory) (new : ℕ) (a : Allocs)
      → malloc mem size h.allocs ≡ ok (new, a)
      → entry a j i ≡ some e
      → realloc mem ptr size h
        ≡ ok (
          new,
          record { bytes = memcpy h.bytes new ptr (smaller size e.size); allocs = free ptr a },
        )
  unfolding realloc resize
  realloc-malloc mem new a runs at = ground (arith, got, some_bytes, found, runs, at)

  -- If realloc is given a block and a size above 0 for which no hole is found, it returns NULL,
  -- has freed the block, and has copied its bytes to address 0.
  pub realloc_loses :
      (mem : Memory)
      → find_hole size min_align h.allocs ≡ no_hole
      → (h' : Heap) × (realloc mem ptr size h ≡ ok (0, h'))
        × (h'.allocs ≡ free ptr h.allocs)
        × ((q : ℕ) → h'.bytes q ≡ copied h.bytes 0 ptr (smaller size e.size) q)
  unfolding malloc alloc
  realloc_loses mem full =
      let fails : malloc mem size h.allocs ≡ ok (0, h.allocs) = ground (arith, full, some_bytes) in
      (
        record { bytes = memcpy h.bytes 0 ptr (smaller size e.size); allocs = free ptr h.allocs },
        realloc-malloc mem 0 h.allocs fails located.0,
        refl,
        λ q. memcpy-copied h.bytes 0 ptr (smaller size e.size) q (omega arith),
      )

  -- The new block does not begin inside the old one.
  new_block-clear :
      (p : ℕ)
      → e.used ≡ true
      → ((x : ℕ) → held x h.allocs + within p size x ≤ 1)
      → (p ≤ ptr) ⊎ (ptr + smaller size e.size ≤ p)
  new_block-clear p used apart = elim (Bool-cases (leb p ptr)) [
    | inl low ↦ inl (ground (arith, low))
    | inr high ↦ elim (Bool-cases (leb (ptr + smaller size e.size) p)) [
      | inl clear ↦ inr (ground (arith, clear))
      | inr inside ↦
          let starts : 1 ≤ holding p e = ground (arith, used, located.1, located.2, high, inside) in
          let own : within p size p ≡ 1 = ground (arith, some_bytes) in
          absurd (omega (arith, held-entry h.allocs j i p located.0 starts, own, apart p))
    ]
  ]

  -- If realloc is given a used block and a size above 0, under the conditions of malloc on the
  -- table, it returns, and unless it returns NULL the new block begins with the bytes that the old
  -- one had, as many as both have room for.
  pub realloc_copies :
      (mem : Memory) (b : Block)
      → e.used ≡ true
      → Blank mem
      → IsSound h.allocs
      → IsDisjoint h.allocs
      → size + min_align ≤ 2 ^ 32
      → find_hole size min_align h.allocs ≢ no_hole
      → block_at h.allocs (find_hole size min_align h.allocs / 2 ^ 16) ≡ some b
      → empty_slots b ≢ 4
      → 2 ≤ free_slots h.allocs
      → (p : ℕ) × (h' : Heap) × (realloc mem ptr size h ≡ ok (p, h'))
        × ((p ≡ 0) ⊎ ((i : ℕ) → i < smaller size e.size → h'.bytes (p + i) ≡ h.bytes (ptr + i)))
  realloc_copies mem b used blank sound apart small hole at_block four room =
      let n = smaller size e.size in
      let (p, a, runs) =
        kamalloc_returns mem size min_align h.allocs b sound (omega (arith, some_bytes))
          (omega arith) hole at_block four room in
      let at =
        kamalloc-entry mem size min_align h.allocs a p j i e b sound located.0 used located.1 hole
          at_block four (omega (arith, some_bytes)) (omega arith) runs in
      (
        p,
        record { bytes = memcpy h.bytes p ptr n; allocs = free ptr a },
        realloc-malloc mem p a (malloc-kamalloc mem size h.allocs a p b at_block four runs) at,
        elim (Bool-cases (p == 0)) [
          | inl null ↦ inl (ground (arith, null))
          | inr given ↦
              let (_, owned) =
                kamalloc-IsDisjoint mem size min_align h.allocs blank small sound apart runs
                  (λ z. ground (arith, given, z)) in
              inr (λ i lt. memcpy-at h.bytes p ptr n i (new_block-clear p used owned) lt)
        ],
      )
