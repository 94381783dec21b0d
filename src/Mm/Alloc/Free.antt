-- ===== src/Mm/Alloc/Free.antt =====
-- What `rm_alloc` does to the table: the bytes of the block are given back, and no others.
use lambda_os.Prelude.{
  ◌⊎◌, ℕ, ◌+◌, ◌^◌, ◌<◌, ◌≡◌, refl, true, false, none, some, inl, inr, Option-cases, arith,
}
use lambda_os.Mm.Alloc.Table.{Alcent, Allocs, entry, modify}
use lambda_os.Mm.Alloc.Release.{joins, join, merge, rm_alloc}
use lambda_os.Mm.Alloc.Tally.{tally, tally-modify, Ignores}
use lambda_os.Mm.Alloc.Cover.{covering, holding, cover, held, covering-Ignores, holding-Ignores}
use lambda_os.Mm.Alloc.Sound.{InSpace, IsSound, Each-entry, modify-IsSound}
use lambda_os.Mm.Alloc.Merge.{merge-modify, entry-modify_other}

abbrev pub retire : Alcent → Alcent
retire e = record e { valid = false }

abbrev pub disuse : Alcent → Alcent
disuse e = record e { used = false }

-- The entry ends where the block begins, or begins where the block ends.
abbrev pub Beside : Alcent → Alcent → Type 0
Beside e x = (x.addr + x.size ≡ e.addr) ⊎ (x.addr ≡ e.addr + e.size)

-- What passes the test of `rm_alloc` is beside the block.
abbrev pub JoinsTruly : Alcent → Allocs → Type 0
JoinsTruly e a =
    (l k : ℕ) (x : Alcent) → entry a l k ≡ some x → joins e.addr e.size x ≡ true → Beside e x

-- What is used and what is free after the bytes of `e` are given back.
pub record Released (e : Alcent) (a a' : Allocs) : Type 0 where
  pub sound : IsSound a'
  pub same_cover : (x : ℕ) → cover x a' ≡ cover x a
  pub less_held : (x : ℕ) → held x a' + covering x e ≡ held x a

module _ (j i : ℕ) (e : Alcent) (valid : e.valid ≡ true) (used : e.used ≡ true) (low : 0 < e.addr)
    (high : e.addr + e.size < 2 ^ 32) where
  -- The two writes of a merge, in any sum over the entries.
  pub merged-tally :
      (m : Alcent → ℕ)
      → Ignores m
      → (a : Allocs) (l k : ℕ) {x : Alcent} → entry a l k ≡ some x
      → entry a j i ≡ some e
      → x.used ≡ false
      → tally m (modify retire j i (modify (join e.addr e.size) l k a)) + m e + m x
        ≡ tally m a + m (join e.addr e.size x)
  merged-tally m blank a l k {x} at at' unused = omega (
    arith,
    blank (retire e) refl,
    tally-modify m (join e.addr e.size) a l k at,
    tally-modify m retire (modify (join e.addr e.size) l k a) j i
        (entry-modify_other (join e.addr e.size) a l k j i at at' unused used),
  )

  rm_alloc-alone :
      (a : Allocs) → merge e.addr e.size a ≡ none → rm_alloc j i e a ≡ modify disuse j i a
  unfolding rm_alloc
  rm_alloc-alone a alone = ground (arith, alone)

  pub rm_alloc-merged :
      (a : Allocs) {b : Allocs}
      → merge e.addr e.size a ≡ some b
      → rm_alloc j i e a ≡ modify retire j i b
  unfolding rm_alloc
  rm_alloc-merged a merged = ground (arith, merged)

  -- The neighbour that takes the bytes stands for them and its own, if it is beside the block.
  join-covering :
      (x : Alcent) (y : ℕ)
      → InSpace x
      → joins e.addr e.size x ≡ true
      → Beside e x
      → covering y (join e.addr e.size x) ≡ covering y x + covering y e
  join-covering x y space fit truly = ground (arith, space, truly)

  join-InSpace :
      (x : Alcent)
      → InSpace x
      → joins e.addr e.size x ≡ true
      → Beside e x
      → InSpace (join e.addr e.size x)
  join-InSpace x space fit truly v = ground (arith, space, truly)

  pub rm_alloc-Released :
      (a : Allocs)
      → IsSound a
      → entry a j i ≡ some e
      → JoinsTruly e a
      → Released e a (rm_alloc j i e a)
  rm_alloc-Released a s at truly = elim (Option-cases (merge e.addr e.size a)) [
    | inl alone ↦ rw (rm_alloc-alone a alone) (record {
      sound = modify-IsSound disuse a j i s at (λ v. omega arith);
      same_cover = λ x. omega (arith, tally-modify (covering x) disuse a j i at);
      less_held = λ x. ground (arith, tally-modify (holding x) disuse a j i at, used);
    })
    | inr (b, merged) ↦
        let (l, k, x, at', fit, same) = merge-modify e.addr e.size a merged in
        let unused : x.used ≡ false = ground (arith, fit) in
        let space = Each-entry a l k s.each at' in
        let true_size = truly l k x at' fit in
        rw (rm_alloc-merged a merged, ← same)
          (record {
            sound =
                modify-IsSound retire (modify (join e.addr e.size) l k a) j i
                  (modify-IsSound (join e.addr e.size) a l k s at'
                    (join-InSpace x space fit true_size))
                  (entry-modify_other (join e.addr e.size) a l k j i at' at unused used) (λ v. cc);
            same_cover = λ y. omega (
              arith,
              merged-tally (covering y) (covering-Ignores y) a l k at' at unused,
              join-covering x y space fit true_size,
            );
            less_held = λ y. ground (
              arith,
              merged-tally (holding y) (holding-Ignores y) a l k at' at unused,
              unused,
              used,
            );
          })
  ]
