-- ===== src/Mm/Alloc/Place.antt =====
-- What `kamalloc` does to the hole that it takes: the entries that stand for it afterwards.
use lambda_os.Prelude.{
  ℕ, ◌+◌, ◌%◌, ◌≡◌, true, some, [], ◌∷◌, ◌==◌, ltb, if◌then◌else◌, inl, inr, Bool-cases, arith, ap,
}
use lambda_os.Prelude.Outcome.{ok, ok_of_bind}
use lambda_os.Prelude.Word.{add32}
use lambda_os.Mm.Alloc.Entries.{entry-add}
use lambda_os.Mm.Alloc.{
  claim, cut_front, correction, set_size, behind, take_front, take_inside, used_entry, place,
}
use lambda_os.Mm.Alloc.Table.{Alcent, Block, Allocs, entry, add_alloc, modify}
use lambda_os.Mm.Alloc.Tally.{tally, tally_block, Ignores, tally-modify, tally-add}

abbrev pub address : ℕ → ℕ → Alcent → ℕ
address sz align e =
    if e.size == sz
    then e.addr
    else if e.addr % align == 0
    then e.addr
    else add32 e.addr (correction align e)

abbrev pub pieces : ℕ → ℕ → Alcent → Block
pieces sz align e =
    if e.size == sz
    then claim e ∷ []
    else if e.addr % align == 0
    then cut_front sz e ∷ used_entry e.addr sz ∷ []
    else set_size (correction align e) e
      ∷ used_entry (add32 e.addr (correction align e)) sz
      ∷ (if ltb (add32 sz (correction align e)) e.size then behind sz align e ∷ [] else [])

module _ (m : Alcent → ℕ) (blank : Ignores m) (sz align j i : ℕ) {e : Alcent}
    (valid : e.valid ≡ true) where
  -- A hole shrunk to `f e`, and a new entry.
  shrunk-tally :
      (f : Alcent → Alcent) (new : Alcent) (a : Allocs) {a' : Allocs}
      → entry a j i ≡ some e
      → add_alloc new (modify f j i a) ≡ ok a'
      → tally m a' + m e ≡ tally m a + (m (f e) + m new)
  shrunk-tally f new a at h =
      omega (arith, tally-add m blank new (modify f j i a) h, tally-modify m f a j i at)

  take_front-tally :
      (a : Allocs) {a' : Allocs} {p : ℕ}
      → entry a j i ≡ some e
      → take_front sz j i e a ≡ ok (p, a')
      → (tally m a' + m e ≡ tally m a + (m (cut_front sz e) + m (used_entry e.addr sz)))
        × (p ≡ e.addr)
  unfolding take_front
  take_front-tally a at h =
      let (b, s, q) =
        ok_of_bind (add_alloc (used_entry e.addr sz) (modify (cut_front sz) j i a)) _ h in
      ground (arith, q, shrunk-tally (cut_front sz) (used_entry e.addr sz) a at s)

  take_inside-tally :
      (a : Allocs) {a' : Allocs} {p : ℕ}
      → entry a j i ≡ some e
      → take_inside sz align j i e a ≡ ok (p, a')
      → (tally m a' + m e
          ≡ tally m a
            + (m (set_size (correction align e) e)
                + (m (used_entry (add32 e.addr (correction align e)) sz)
                    + (if ltb (add32 sz (correction align e)) e.size
                        then m (behind sz align e)
                        else 0))))
        × (p ≡ add32 e.addr (correction align e))
  unfolding take_inside
  take_inside-tally a at h =
      let (b, s, q) =
        ok_of_bind
          (if ltb (add32 sz (correction align e)) e.size
            then add_alloc (behind sz align e) a
            else ok a)
          _ h in
      let (c, t, r) =
        ok_of_bind
          (add_alloc (used_entry (add32 e.addr (correction align e)) sz)
            (modify (set_size (correction align e)) j i b))
          _ q in
      elim (Bool-cases (ltb (add32 sz (correction align e)) e.size)) [
        | inl room ↦
            let t0 : add_alloc (behind sz align e) a ≡ ok b = ground (arith, s, room) in
            ground (
              arith,
              room,
              r,
              tally-add m blank (behind sz align e) a t0,
              shrunk-tally (set_size (correction align e))
                  (used_entry (add32 e.addr (correction align e)) sz) b
                  (entry-add (behind sz align e) a j i t0 at valid) t,
            )
        | inr full ↦
            let same : a ≡ b = ground (arith, s, full) in
            ground (
              arith,
              full,
              r,
              shrunk-tally (set_size (correction align e))
                  (used_entry (add32 e.addr (correction align e)) sz) b (rw (← same) at) t,
              ap (tally m) same,
            )
      ]

  -- If `place` returns, its address is that of the pieces that the hole is cut into, and a count over
  -- all entries gains the pieces and loses the hole.
  pub place-tally :
      (a : Allocs) {a' : Allocs} {p : ℕ}
      → entry a j i ≡ some e
      → place sz align j i e a ≡ ok (p, a')
      → (tally m a' + m e ≡ tally m a + tally_block m (pieces sz align e))
        × (p ≡ address sz align e)
  unfolding place
  place-tally a {a'} {p} at h = ground (
    arith,
    tally-modify m claim a j i at,
    take_front-tally a {a' = a'} {p = p} at,
    take_inside-tally a {a' = a'} {p = p} at,
  )
