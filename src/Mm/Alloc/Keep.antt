-- ===== src/Mm/Alloc/Keep.antt =====
-- Taking a block from a hole keeps the table well-formed.
use lambda_os.Prelude.{
  ℕ, ◌+◌, ◌%◌, ◌^◌, ◌<◌, ◌≤◌, ◌≡◌, true, false, some, ◌==◌, ltb, if◌then◌else◌, inl, inr,
  Bool-cases, arith,
}
use native.Mathlib.Nat.{mod-lt}
use lambda_os.Prelude.Word.{add32}
use lambda_os.Prelude.Outcome.{ok, ok_of_bind}
use lambda_os.Mm.Alloc.{
  claim, cut_front, used_entry, set_size, correction, behind, take_front, take_inside, place,
}
use lambda_os.Mm.Alloc.Table.{Alcent, Allocs, entry, add_alloc, modify}
use lambda_os.Mm.Alloc.Search.{fits}
use lambda_os.Mm.Alloc.Entries.{entry-add}
use lambda_os.Mm.Alloc.Cover.{IsHole}
use lambda_os.Mm.Alloc.Sound.{InSpace, IsSound, modify-IsSound, add-IsSound}

-- What passes the test of the search is a hole, if the request does not wrap.
pub fits-IsHole :
    (sz align : ℕ) (e : Alcent)
    → 0 < align
    → sz + align ≤ 2 ^ 32
    → InSpace e
    → fits sz align e ≡ true
    → IsHole sz align e
fits-IsHole sz align e pos small space fit = ground (arith, mod-lt e.addr pos)

module _ (sz align j i : ℕ) {e : Alcent} (pos : 0 < align) (some_bytes : 0 < sz)
    (hole : IsHole sz align e) where
  take_front-IsSound :
      (a : Allocs) {a' : Allocs} {p : ℕ}
      → e.addr % align ≡ 0
      → IsSound a
      → entry a j i ≡ some e
      → take_front sz j i e a ≡ ok (p, a')
      → IsSound a'
  unfolding take_front
  take_front-IsSound a {a'} {p} even s at h =
      let (b, t, q) =
        ok_of_bind (add_alloc (used_entry e.addr sz) (modify (cut_front sz) j i a))
          (λ b. ok (e.addr, b)) {t = (p, a')} h in
      let cut = modify-IsSound (cut_front sz) a j i s at (ground arith) in
      let same : b ≡ a' = cc in
      rw (← same)
        (add-IsSound (used_entry e.addr sz) (ground arith) (modify (cut_front sz) j i a) cut t)

  take_inside-IsSound :
      (a : Allocs) {a' : Allocs} {p : ℕ}
      → (e.addr % align == 0) ≡ false
      → IsSound a
      → entry a j i ≡ some e
      → take_inside sz align j i e a ≡ ok (p, a')
      → IsSound a'
  unfolding take_inside
  take_inside-IsSound a {a'} {p} odd s at h =
      let start = add32 e.addr (correction align e) in
      let (b, t, q) =
        ok_of_bind
          (if ltb (add32 sz (correction align e)) e.size
            then add_alloc (behind sz align e) a
            else ok a)
          _ h in
      let (c, u, r) =
        ok_of_bind (add_alloc (used_entry start sz) (modify (set_size (correction align e)) j i b))
          (λ c. ok (start, c)) {t = (p, a')} q in
      let same : c ≡ a' = cc in
      let first : IsSound b × (entry b j i ≡ some e) =
        elim (Bool-cases (ltb (add32 sz (correction align e)) e.size)) [
          | inl room ↦
              let t0 : add_alloc (behind sz align e) a ≡ ok b = ground (arith, t, room) in
              (
                add-IsSound (behind sz align e) (ground (arith, room)) a s t0,
                entry-add (behind sz align e) a j i t0 at hole.valid,
              )
          | inr full ↦ let same : a ≡ b = ground (arith, t, full) in rw (← same) (s, at)
        ] in
      let below =
        modify-IsSound (set_size (correction align e)) b j i first.0 first.1
          (ground (arith, mod-lt e.addr pos)) in
      rw (← same) (
        add-IsSound (used_entry start sz) (ground (arith, mod-lt e.addr pos))
          (modify (set_size (correction align e)) j i b) below u)

  pub place-IsSound :
      (a : Allocs) {a' : Allocs} {p : ℕ}
      → IsSound a
      → entry a j i ≡ some e
      → place sz align j i e a ≡ ok (p, a')
      → IsSound a'
  unfolding place
  place-IsSound a {a'} {p} s at h = elim (Bool-cases (e.size == sz)) [
    | inl exact ↦
        let same : modify claim j i a ≡ a' = ground (arith, exact) in
        rw (← same) (modify-IsSound claim a j i s at (ground arith))
    | inr more ↦ elim (Bool-cases (e.addr % align == 0)) [
      | inl even ↦ take_front-IsSound a {p = p} (ground arith) s at (ground (arith, more, even))
      | inr odd ↦ take_inside-IsSound a {p = p} odd s at (ground (arith, more, odd))
    ]
  ]
