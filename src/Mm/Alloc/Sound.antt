-- ===== src/Mm/Alloc/Sound.antt =====
-- The well-formed tables, and that the writes to a table keep them so.
use lambda_os.Prelude.{
  ℕ, zero, suc, ◌+◌, ◌*◌, ◌^◌, ◌<◌, ◌≤◌, ◌≡◌, refl, ap, true, none, some, [], ◌∷◌, inl, inr,
  Option-cases, Bool-cases, map-eq-some, arith, length, get_elem?, All,
}
use lambda_os.Prelude.Outcome.{ok, ok_of_bind}
use lambda_os.Mm.Alloc.Table.{
  Alcent, Block, Allocs, entry, alloc_block, alloc_blocks, modify_block, modify, add_block,
  add_alloc, set_block,
}
use lambda_os.Mm.Alloc.Found.{TablesFit}

-- A valid entry ends within the 32-bit address space.
abbrev pub InSpace : Alcent → Type 0
InSpace e = e.valid ≡ true → (e.addr + e.size ≤ 2 ^ 32) × (e.size < 2 ^ 32)

abbrev pub Each : Allocs → Type 0
Each [] = Unit
Each (none ∷ a) = Each a
Each (some b ∷ a) = All InSpace b × Each a

-- There are at most twice as many pointers as the kernel has, which is what user space has.
pub record IsSound (a : Allocs) : Type 0 where
  pub tables : TablesFit a
  pub few : length a ≤ 2 * alloc_blocks
  pub each : Each a

All-get : (b : Block) (k : ℕ) {e : Alcent} → All InSpace b → get_elem? b k ≡ some e → InSpace e
All-get [] k p h = cc
All-get (x ∷ b) zero {e} p h = let same : x ≡ e = cc in rw same at p.0
All-get (x ∷ b) (suc k) p h = All-get b k p.1 h

pub Each-entry : (a : Allocs) (l k : ℕ) {e : Alcent} → Each a → entry a l k ≡ some e → InSpace e
Each-entry [] l k p h = cc
Each-entry (none ∷ a) zero k p h = cc
Each-entry (some b ∷ a) zero k p h = All-get b k p.0 h
Each-entry (none ∷ a) (suc l) k p h = Each-entry a l k p h
Each-entry (some b ∷ a) (suc l) k p h = Each-entry a l k p.1 h

module _ (f : Alcent → Alcent) where
  All-modify :
      (b : Block) (k : ℕ) {e : Alcent}
      → All InSpace b
      → get_elem? b k ≡ some e
      → InSpace (f e)
      → All InSpace (modify_block f k b) × (length (modify_block f k b) ≡ length b)
  All-modify [] k p h q = cc
  All-modify (x ∷ b) zero {e} p h q = let same : x ≡ e = cc in ((rw same q, p.1), refl)
  All-modify (x ∷ b) (suc k) p h q = let r = All-modify b k p.1 h q in ((p.0, r.0), ap suc r.1)

  modify-keeps :
      (a : Allocs) (l k : ℕ) {e : Alcent}
      → TablesFit a
      → Each a
      → entry a l k ≡ some e
      → InSpace (f e)
      → TablesFit (modify f l k a) × Each (modify f l k a) × (length (modify f l k a) ≡ length a)
  modify-keeps [] l k t p h q = cc
  modify-keeps (none ∷ a) zero k t p h q = cc
  modify-keeps (some b ∷ a) zero k t p h q =
      let r = All-modify b k p.0 h q in ((omega (arith, r.1), t.1), (r.0, p.1), refl)
  modify-keeps (none ∷ a) (suc l) k t p h q =
      let r = modify-keeps a l k t p h q in (r.0, r.1, ap suc r.2)
  modify-keeps (some b ∷ a) (suc l) k t p h q =
      let r = modify-keeps a l k t.1 p.1 h q in ((t.0, r.0), (p.0, r.1), ap suc r.2)

  pub modify-IsSound :
      (a : Allocs) (l k : ℕ) {e : Alcent}
      → IsSound a
      → entry a l k ≡ some e
      → InSpace (f e)
      → IsSound (modify f l k a)
  modify-IsSound a l k s h q =
      let r = modify-keeps a l k s.tables s.each h q in
      record { tables = r.0; few = omega (arith, r.2, s.few); each = r.1 }

module _ (al : Alcent) (word : InSpace al) where
  All-add :
      (b : Block) {b' : Block}
      → All InSpace b
      → add_block al b ≡ some b'
      → All InSpace b' × (length b' ≡ length b)
  unfolding add_block
  All-add [] p h = cc
  All-add (e ∷ b) {b'} p h = elim (Bool-cases e.valid) [
    | inl taken ↦
        let (c, room, q) = map-eq-some (add_block al b) (◌∷◌ e) {b = b'} (ground (arith, taken)) in
        let r = All-add b p.1 room in rw (← q) ((p.0, r.0), ap suc r.1)
    | inr open_slot ↦
        let here : al ∷ b ≡ b' = ground (arith, open_slot) in rw (← here) ((word, p.1), refl)
  ]

  add-keeps :
      (a : Allocs) {a' : Allocs}
      → TablesFit a
      → Each a
      → add_alloc al a ≡ ok a'
      → TablesFit a' × Each a' × (length a' ≡ length a)
  unfolding add_alloc
  add-keeps [] t p h = cc
  add-keeps (none ∷ a) {a'} t p h =
      let (c, e, q) = ok_of_bind (add_alloc al a) (λ a. ok (none ∷ a)) {t = a'} h in
      let r = add-keeps a t p e in
      let same : none ∷ c ≡ a' = cc in rw (← same) (r.0, r.1, ap suc r.2)
  add-keeps (some b ∷ a) {a'} t p h = elim (Option-cases (add_block al b)) [
    | inr (c, room) ↦
        let same : some c ∷ a ≡ a' = ground (arith, room) in
        let r = All-add b p.0 room in rw (← same) ((omega (arith, r.1, t.0), t.1), (r.0, p.1), refl)
    | inl full ↦
        let (c, e, q) =
          ok_of_bind (add_alloc al a) (λ a. ok (some b ∷ a)) {t = a'} (ground (arith, full)) in
        let r = add-keeps a t.1 p.1 e in
        let same : some b ∷ c ≡ a' = cc in rw (← same) ((t.0, r.0), (p.0, r.1), ap suc r.2)
  ]

  pub add-IsSound : (a : Allocs) {a' : Allocs} → IsSound a → add_alloc al a ≡ ok a' → IsSound a'
  add-IsSound a s h =
      let r = add-keeps a s.tables s.each h in
      record { tables = r.0; few = omega (arith, r.2, s.few); each = r.1 }

module _ (b : Block) (short : length b ≤ alloc_block) (fine : All InSpace b) where
  set_block-keeps :
      (k : ℕ) (a : Allocs) {a' : Allocs}
      → TablesFit a
      → Each a
      → set_block k b a ≡ ok a'
      → TablesFit a' × Each a' × (length a' ≡ length a)
  unfolding set_block
  set_block-keeps k [] t p h = cc
  set_block-keeps zero (none ∷ a) {a'} t p h =
      let same : some b ∷ a ≡ a' = cc in rw (← same) ((short, t), (fine, p), refl)
  set_block-keeps zero (some c ∷ a) {a'} t p h =
      let same : some b ∷ a ≡ a' = cc in rw (← same) ((short, t.1), (fine, p.1), refl)
  set_block-keeps (suc k) (none ∷ a) {a'} t p h =
      let (c, e, q) = ok_of_bind (set_block k b a) (λ a. ok (none ∷ a)) {t = a'} h in
      let r = set_block-keeps k a t p e in
      let same : none ∷ c ≡ a' = cc in rw (← same) (r.0, r.1, ap suc r.2)
  set_block-keeps (suc k) (some d ∷ a) {a'} t p h =
      let (c, e, q) = ok_of_bind (set_block k b a) (λ a. ok (some d ∷ a)) {t = a'} h in
      let r = set_block-keeps k a t.1 p.1 e in
      let same : some d ∷ c ≡ a' = cc in rw (← same) ((t.0, r.0), (p.0, r.1), ap suc r.2)

  pub set_block-IsSound :
      (k : ℕ) (a : Allocs) {a' : Allocs} → IsSound a → set_block k b a ≡ ok a' → IsSound a'
  set_block-IsSound k a s h =
      let r = set_block-keeps k a s.tables s.each h in
      record { tables = r.0; few = omega (arith, r.2, s.few); each = r.1 }
