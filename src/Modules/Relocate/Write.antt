-- ===== src/Modules/Relocate/Write.antt =====
-- What a relocation writes.
use lambda_os.Prelude.{
  ℕ, ◌+◌, ◌-◌, ◌*◌, ◌/◌, ◌%◌, ◌^◌, ◌≤◌, ◌<◌, ◌≡◌, ◌≢◌, refl, false, List, ltb, arith,
}
use lambda_os.Prelude.Word.{add32, sub32}
use lambda_os.Std.Memory.{Memory}
use lambda_os.Modules.Relocate.{Rel, Reloc, r_type, translate_addr, load, store_word, do_reloc}
use lambda_os.Modules.Relocate.Entry.{EntryOf, get_reloc-EntryOf}

-- The four bytes from `p` on are mapped to four places.
abbrev pub Separate : (ℕ → ℕ) → ℕ → Type 0
Separate pages p =
    (pages p ≢ pages (p + 1))
    × (pages p ≢ pages (p + 2))
    × (pages p ≢ pages (p + 3))
    × (pages (p + 1) ≢ pages (p + 2))
    × (pages (p + 1) ≢ pages (p + 3))
    × (pages (p + 2) ≢ pages (p + 3))

-- Not one of these places.
abbrev pub Elsewhere : (ℕ → ℕ) → ℕ → ℕ → Type 0
Elsewhere pages p q =
    (q ≢ pages p) × (q ≢ pages (p + 1)) × (q ≢ pages (p + 2)) × (q ≢ pages (p + 3))

four_bytes :
    (w : ℕ)
    → w < 2 ^ 32
    → w % 2 ^ 8
        + w / 2 ^ 8 % 2 ^ 8 * 2 ^ 8
        + w / 2 ^ 16 % 2 ^ 8 * 2 ^ 16
        + w / 2 ^ 24 % 2 ^ 8 * 2 ^ 24
      ≡ w
four_bytes w lt = omega arith

load-store_word :
    (pages : ℕ → ℕ) (m : Memory) (p w : ℕ)
    → Separate pages p
    → w < 2 ^ 32
    → load pages (store_word pages m p w) p ≡ w
load-store_word pages m p w (d01, d02, d03, d12, d13, d23) lt = ground (arith, four_bytes w lt)

store_word-Elsewhere :
    (pages : ℕ → ℕ) (m : Memory) (p w q : ℕ) → Elsewhere pages p q → store_word pages m p w q ≡ m q
store_word-Elsewhere pages m p w q (n0, n1, n2, n3) = ground arith

-- What the i386 ABI has at the place `p` for a relocation: by its type, the symbol's address `s`
-- and the word `a` that is there.
pub data Field (s a p : ℕ) : ℕ → ℕ → Type 0 where
  r_386_32 : Field s a p 1 ((s + a) % 2 ^ 32)
  r_386_pc32 : Field s a p 2 ((s + a + 2 ^ 32 - p) % 2 ^ 32)
  r_386_glob_dat : Field s a p 6 s
  r_386_jmp_slot : Field s a p 7 s

-- The word `w` is at `p`, and the rest of the memory is as it was.
abbrev pub Written : (ℕ → ℕ) → Memory → ℕ → ℕ → Memory → Type 0
Written pages m p w m' = (load pages m' p ≡ w) × ((q : ℕ) → Elsewhere pages p q → m' q ≡ m q)

store_word-Written :
    (pages : ℕ → ℕ) (m : Memory) (p w v : ℕ)
    → Separate pages p
    → w < 2 ^ 32
    → v ≡ w
    → Written pages m p w (store_word pages m p v)
store_word-Written pages m p w v apart lt same =
    rw same (load-store_word pages m p w apart lt, store_word-Elsewhere pages m p w)

module _ (pages : ℕ → ℕ) (relocs : List Reloc) (symaddr : ℕ) (r : Rel) (section : ℕ) (m : Memory)
    (placed : Reloc) (there : EntryOf section relocs placed) where
  target : (o : ℕ) → translate_addr relocs section o ≡ add32 placed.addr_virt o
  unfolding translate_addr
  target o = rw (get_reloc-EntryOf section relocs placed there, translate_addr) refl

  low :
      0x1000 ≤ add32 placed.addr_virt r.r_offset
      → ltb (add32 placed.addr_virt r.r_offset) 0x1000 ≡ false
  low high = ground (arith, high)

  -- What is written for a relocation of a type the ABI has.
  do_reloc_by :
      (type w : ℕ)
      → r_type r.r_info ≡ type
      → 0x1000 ≤ add32 placed.addr_virt r.r_offset
      → symaddr < 2 ^ 32
      → Field symaddr
          (load pages m (add32 placed.addr_virt r.r_offset))
          (add32 placed.addr_virt r.r_offset)
          type
          w
      → (v : ℕ) × (v ≡ w)
        × (w < 2 ^ 32)
        × (do_reloc pages relocs symaddr r section m
            ≡ (0, store_word pages m (add32 placed.addr_virt r.r_offset) v))
  unfolding do_reloc
  do_reloc_by type w is high small r_386_32 =
      let p = add32 placed.addr_virt r.r_offset in
      let a = load pages m p in
      (
        add32 a symaddr,
        omega arith,
        omega arith,
        rw (target r.r_offset, low high, is, do_reloc) refl,
      )
  do_reloc_by type w is high small r_386_pc32 =
      let p = add32 placed.addr_virt r.r_offset in
      let a = load pages m p in
      (
        add32 a (sub32 symaddr p),
        omega arith,
        omega arith,
        rw (target r.r_offset, low high, is, do_reloc) refl,
      )
  do_reloc_by type w is high small r_386_glob_dat =
      let p = add32 placed.addr_virt r.r_offset in
      let a = load pages m p in
      (symaddr, refl, small, rw (target r.r_offset, low high, is, do_reloc) refl)
  do_reloc_by type w is high small r_386_jmp_slot =
      let p = add32 placed.addr_virt r.r_offset in
      let a = load pages m p in
      (symaddr, refl, small, rw (target r.r_offset, low high, is, do_reloc) refl)

  -- If the section of a relocation has an entry, the first of it gives a translated address of at
  -- least 0x1000, the symbol's address is below 2 ^ 32, and the four bytes at the address are
  -- mapped to four places, then for a relocation of the types R_386_32, PC32, GLOB_DAT and
  -- JMP_SLOT _do_reloc returns 0, the word at the address is the one that the i386 ABI has for the
  -- type, and the rest of the memory is as it was.
  pub do_reloc_lem :
      (w : ℕ)
      → 0x1000 ≤ add32 placed.addr_virt r.r_offset
      → symaddr < 2 ^ 32
      → Separate pages (add32 placed.addr_virt r.r_offset)
      → Field symaddr
          (load pages m (add32 placed.addr_virt r.r_offset))
          (add32 placed.addr_virt r.r_offset)
          (r_type r.r_info)
          w
      → (m' : Memory) × (do_reloc pages relocs symaddr r section m ≡ (0, m'))
        × Written pages m (add32 placed.addr_virt r.r_offset) w m'
  do_reloc_lem w high small apart field =
      let (v, same, lt, runs) = do_reloc_by (r_type r.r_info) w refl high small field in
      (_, runs, store_word-Written pages m (add32 placed.addr_virt r.r_offset) w v apart lt same)
