-- ===== src/Mm/Alloc/Exclusive.antt =====
-- What `kamalloc` promises: the block is aligned, it was free memory that nothing else holds, and
-- no memory is lost or counted twice.
use native.Mathlib.Nat.{mod-one}
use lambda_os.Prelude.{
  ℕ, ◌+◌, ◌/◌, ◌%◌, ◌^◌, ◌<◌, ◌≤◌, ◌≡◌, ◌≢◌, refl, false, some, ◌==◌, ◌||◌, if◌then◌else◌, inl, inr,
  Bool-cases, arith, All, [], ◌∷◌, length,
}
use lambda_os.Prelude.Outcome.{ok, ok_of_bind}
use lambda_os.Mm.Alloc.{
  Memory, cut_front, used_entry, take_front, place, take_table, table_size, install_block,
  alloc_new_block, make_room, search_and_place, kamalloc,
}
use lambda_os.Mm.Alloc.Table.{
  Alcent, Block, Allocs, alloc_block, entry, add_alloc, modify, or_fault, block_at, get_free_block,
}
use lambda_os.Mm.Alloc.Search.{find_hole, no_hole, empty_slots}
use lambda_os.Mm.Alloc.Tally.{tally_block, Ignores, tally-set_block}
use lambda_os.Mm.Alloc.Place.{address, place-tally}
use lambda_os.Mm.Alloc.Cover.{
  within, covering, holding, cover, held, covering-Ignores, holding-Ignores, IsHole,
  pieces-covering, pieces-holding, address-inside,
}
use lambda_os.Mm.Alloc.Found.{find_hole-fits}
use lambda_os.Mm.Alloc.Sound.{InSpace, IsSound, Each-entry, set_block-IsSound}
use lambda_os.Mm.Alloc.Keep.{fits-IsHole, place-IsSound}

-- Fresh memory reads as a table with no valid entry.
pub record Blank (mem : Memory) : Type 0 where
  pub short : (addr : ℕ) → length (mem addr) ≤ alloc_block
  pub invalid : (addr : ℕ) → All (λ (e : Alcent). e.valid ≡ false) (mem addr)

-- The block of `sz` bytes at `p` is new in use, and nothing else has changed hands.
pub record Granted (sz align p : ℕ) (a a' : Allocs) : Type 0 where
  pub sound : IsSound a'
  pub aligned : p % align ≡ 0
  pub same_cover : (x : ℕ) → cover x a' ≡ cover x a
  pub more_held : (x : ℕ) → held x a' ≡ held x a + within p sz x

-- The same memory, with perhaps more of it in use.
pub record Grown (a a' : Allocs) : Type 0 where
  pub sound : IsSound a'
  pub same_cover : (x : ℕ) → cover x a' ≡ cover x a
  pub more_held : (x : ℕ) → held x a ≤ held x a'

module _ (sz align j i : ℕ) {e : Alcent} (pos : 0 < align) (some_bytes : 0 < sz)
    (hole : IsHole sz align e) where
  place-Granted :
      (a : Allocs) {a' : Allocs} {p : ℕ}
      → IsSound a
      → entry a j i ≡ some e
      → place sz align j i e a ≡ ok (p, a')
      → Granted sz align p a a'
  place-Granted a {a'} {p} s at h =
      let spot : p ≡ address sz align e =
        (place-tally (covering 0) (covering-Ignores 0) sz align j i hole.valid a at h).1 in
      record {
        sound = place-IsSound sz align j i pos some_bytes hole a {p = p} s at h;
        aligned = rw spot (address-inside sz align hole pos some_bytes).0;
        same_cover = λ x. omega (
          arith,
          (place-tally (covering x) (covering-Ignores x) sz align j i hole.valid a at h).0,
          pieces-covering sz align hole pos some_bytes x,
        );
        more_held = λ x. rw spot (
            ground (
              arith,
              hole.unused,
              (place-tally (holding x) (holding-Ignores x) sz align j i hole.valid a at h).0,
              pieces-holding sz align hole pos some_bytes x,
            ));
      }

tally_block_blank :
    (m : Alcent → ℕ)
    → Ignores m
    → (b : Block) → All (λ (e : Alcent). e.valid ≡ false) b
    → tally_block m b ≡ 0
tally_block_blank m blank [] h = refl
tally_block_blank m blank (e ∷ b) h = omega (arith, blank e h.0, tally_block_blank m blank b h.1)

All-InSpace : (b : Block) → All (λ (e : Alcent). e.valid ≡ false) b → All InSpace b
All-InSpace [] h = tt
All-InSpace (e ∷ b) h = ((λ v. cc), All-InSpace b h.1)

-- The bytes of a new table are taken from their hole as `kamalloc` takes a block with no alignment.
take_table-place :
    (j i : ℕ) (e : Alcent) (a : Allocs) {b : Allocs}
    → take_table j i e a ≡ ok b
    → place table_size 1 j i e a ≡ ok (e.addr, b)
unfolding place take_front take_table
take_table-place j i e a {b} h = elim (Bool-cases (e.size == table_size)) [
  | inl exact ↦ ground (arith, exact)
  | inr more ↦
      let t : add_alloc (used_entry e.addr table_size) (modify (cut_front table_size) j i a)
          ≡ ok b =
        ground (arith, more) in
      rw (more, mod-one, t)
]

module _ (mem : Memory) (blank : Blank mem) where
  install_block-Grown :
      (j i : ℕ) (a : Allocs) {a' : Allocs} {e : Alcent}
      → IsSound a
      → entry a j i ≡ some e
      → IsHole table_size 1 e
      → install_block mem j i e a ≡ ok a'
      → Grown a a'
  unfolding install_block
  install_block-Grown j i a {a'} {e} s at hole h =
      let (b, t, q) = ok_of_bind (take_table j i e a) _ h in
      let taken =
        place-Granted table_size 1 j i (omega arith) (omega arith) hole a s at
          (take_table-place j i e a t) in
      let none_valid = blank.invalid e.addr in
      record {
        sound =
            set_block-IsSound (mem e.addr) (blank.short e.addr)
              (All-InSpace (mem e.addr) none_valid) (get_free_block b) b taken.sound q;
        same_cover = λ x. omega (
          arith,
          taken.same_cover x,
          tally-set_block (covering x) (mem e.addr) b q,
          tally_block_blank (covering x) (covering-Ignores x) (mem e.addr) none_valid,
        );
        more_held = λ x. omega (
          arith,
          taken.more_held x,
          tally-set_block (holding x) (mem e.addr) b q,
          tally_block_blank (holding x) (holding-Ignores x) (mem e.addr) none_valid,
        );
      }

  -- If `_alloc_new_block` returns from a well-formed table, the table has grown.
  alloc_new_block-Grown :
      (a : Allocs) {a' : Allocs} → IsSound a → alloc_new_block mem a ≡ ok a' → Grown a a'
  unfolding alloc_new_block
  alloc_new_block-Grown a {a'} s h = elim (Bool-cases (find_hole table_size 1 a == no_hole)) [
    | inl nothing ↦ ground (arith, nothing)
    | inr found ↦
        let (e, at, fit) = find_hole-fits table_size 1 a s.tables (ground arith) in
        let hole =
          fits-IsHole table_size 1 e (omega arith) (omega arith) (Each-entry a _ _ s.each at) fit in
        install_block-Grown (find_hole table_size 1 a / 2 ^ 16) (find_hole table_size 1 a % 2 ^ 16)
          a s at hole (ground (arith, found, at))
  ]

  make_room-Grown :
      (j : ℕ) (a : Allocs) {a' : Allocs} → IsSound a → make_room mem j a ≡ ok a' → Grown a a'
  unfolding make_room
  make_room-Grown j a {a'} s h =
      let (b, at, q) =
        ok_of_bind (or_fault (block_at a j))
          (λ b. if empty_slots b == 4 then alloc_new_block mem a else ok a) {t = a'} h in
      elim (Bool-cases (empty_slots b == 4)) [
        | inl short ↦ alloc_new_block-Grown a s (ground (arith, q, short))
        | inr enough ↦
            let same : a ≡ a' = ground (arith, q, enough) in
            rw (← same) (record { sound = s; same_cover = λ x. refl; more_held = λ x. omega arith })
      ]

  search_and_place-Granted :
      (sz align : ℕ) (a : Allocs) {a' : Allocs} {p : ℕ}
      → 0 < align
      → 0 < sz
      → sz + align ≤ 2 ^ 32
      → IsSound a
      → search_and_place sz align a ≡ ok (p, a')
      → p ≢ 0
      → Granted sz align p a a'
  unfolding search_and_place
  search_and_place-Granted sz align a {a'} {p} pos some_bytes small s h got =
      elim (Bool-cases (find_hole sz align a == no_hole)) [
        | inl nothing ↦ absurd (got (ground (arith, nothing)))
        | inr found ↦
            let (e, at, fit) = find_hole-fits sz align a s.tables (ground arith) in
            let hole = fits-IsHole sz align e pos small (Each-entry a _ _ s.each at) fit in
            place-Granted sz align (find_hole sz align a / 2 ^ 16) (find_hole sz align a % 2 ^ 16)
              pos some_bytes hole a s at (ground (arith, found, at))
      ]

  -- If kamalloc returns an address other than NULL from a well-formed table, where fresh memory
  -- reads as an empty table and size plus alignment do not pass 2 ^ 32, then the address is a
  -- multiple of the alignment, each address is covered by as many valid entries as before, at each
  -- address of the block one more used entry holds it than before, nowhere fewer do, and the table
  -- stays well-formed.
  pub kamalloc_exclusive :
      (sz align : ℕ) (a : Allocs) {a' : Allocs} {p : ℕ}
      → sz + align ≤ 2 ^ 32
      → IsSound a
      → kamalloc mem sz align a ≡ ok (p, a')
      → p ≢ 0
      → (p % align ≡ 0)
        × ((x : ℕ) → cover x a' ≡ cover x a)
        × ((x : ℕ) → held x a + within p sz x ≤ held x a')
        × IsSound a'
  unfolding kamalloc
  kamalloc_exclusive sz align a {a'} {p} small s h got = elim (Bool-cases (align == 0 || sz == 0)) [
    | inl empty ↦ absurd (got (ground (arith, empty)))
    | inr request ↦ elim (Bool-cases (find_hole sz align a == no_hole)) [
      | inl nothing ↦ absurd (got (ground (arith, request, nothing)))
      | inr found ↦
          let j = find_hole sz align a / 2 ^ 16 in
          let (b, t, q) =
            ok_of_bind (make_room mem j a) (search_and_place sz align) {t = (p, a')}
              (ground (arith, request, found)) in
          let first = make_room-Grown j a s t in
          let second =
            search_and_place-Granted sz align b (ground (arith, request)) (ground (arith, request))
              small first.sound q got in
          (
            second.aligned,
            (λ x. omega (arith, first.same_cover x, second.same_cover x)),
            (λ x. omega (arith, first.more_held x, second.more_held x)),
            second.sound,
          )
    ]
  ]
