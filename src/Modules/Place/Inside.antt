-- ===== src/Modules/Place/Inside.antt =====
-- The second loop of `_module_place` for one section.
use lambda_os.Prelude.{
  ℕ, ◌+◌, ◌^◌, ◌≤◌, ◌<◌, ◌≡◌, ◌≢◌, ◌*◌, ◌⊎◌, inl, inr, refl, sym, ap, ◌∙◌, List, [], ◌∷◌, ◌++◌,
  length, arith,
}
use lambda_os.Prelude.Word.{add32}
use lambda_os.Std.Memory.{Memory, put_word}
use lambda_os.Std.Memory.Same.{put_word-outside}
use lambda_os.Std.Bytes.Copy.{memcpy-outside}
use lambda_os.Elf.{Shdr}
use lambda_os.Modules.Relocate.{Reloc}
use lambda_os.Modules.Place.{force_align, align_mask, Layout, Placing, put_reloc, place_section}
use lambda_os.Modules.Place.Grown.{
  HasMask, placed_end_lem, Grown, grown_prog, grown_nobits, grown_none,
}

-- The blocks that are mapped: the final layout, the physical addresses, and the array of entries.
pub record Blocks : Type 0 where
  pub layout : Layout
  pub prog_phys : ℕ
  pub nobits_phys : ℕ
  pub table : ℕ

-- A stretch inside a block.
abbrev pub Within : ℕ → ℕ → ℕ → ℕ → Type 0
Within base size p n = (base ≤ p) × (p + n ≤ base + size)

-- An address outside both blocks and the array.
abbrev pub Outside : Blocks → ℕ → Type 0
Outside b q =
    ((q < b.prog_phys) ⊎ (b.prog_phys + b.layout.prog_size ≤ q))
    × ((q < b.nobits_phys) ⊎ (b.nobits_phys + b.layout.nobits_size ≤ q))
    × ((q < b.table) ⊎ (b.table + 16 * (b.layout.n_relocs + 1) ≤ q))

-- The blocks end below 2 ^ 32.
abbrev pub InMemory : Blocks → Type 0
InMemory b =
    (b.prog_phys + b.layout.prog_size < 2 ^ 32)
    × (b.nobits_phys + b.layout.nobits_size < 2 ^ 32)
    × (b.layout.prog_base + b.layout.prog_size < 2 ^ 32)
    × (b.layout.nobits_base + b.layout.nobits_size < 2 ^ 32)

-- The entries of the first `i` sections, in order: one with the index and the size of each section of
-- the type SHT_PROGBITS or SHT_NOBITS, which lies inside the block of its type, at its virtual and at its
-- physical address.
pub data Entered (header : ℕ → Shdr) (b : Blocks) : ℕ → List Reloc → Type 0 where
  no_section : Entered header b 0 []
  other :
      (i : ℕ) (rs : List Reloc)
      → (header i).sh_type ≢ 1
      → (header i).sh_type ≢ 8
      → Entered header b i rs
      → Entered header b (i + 1) rs
  progbits :
      (i : ℕ) (rs : List Reloc) (r : Reloc)
      → (header i).sh_type ≡ 1
      → r.section ≡ i
      → r.size ≡ (header i).sh_size
      → Within b.layout.prog_base b.layout.prog_size r.addr_virt r.size
      → Within b.prog_phys b.layout.prog_size r.addr_phys r.size
      → Entered header b i rs
      → Entered header b (i + 1) (rs ++ (r ∷ []))
  nobits :
      (i : ℕ) (rs : List Reloc) (r : Reloc)
      → (header i).sh_type ≡ 8
      → r.section ≡ i
      → r.size ≡ (header i).sh_size
      → Within b.layout.nobits_base b.layout.nobits_size r.addr_virt r.size
      → Within b.nobits_phys b.layout.nobits_size r.addr_phys r.size
      → Entered header b i rs
      → Entered header b (i + 1) (rs ++ (r ∷ []))

-- After `i` sections, the second loop is where the first one was with the layout `l`.
pub record Synced (m : Memory) (header : ℕ → Shdr) (b : Blocks) (i : ℕ) (l : Layout) (st : Placing)
    : Type 0 where
  pub prog : st.prog_offset ≡ l.prog_size
  pub nobits_end : st.nobits_offset ≡ l.nobits_size
  pub number : length st.relocs ≡ l.n_relocs
  pub entered : Entered header b i st.relocs
  pub kept : (q : ℕ) → Outside b q → st.memory q ≡ m q

field : (p q o : ℕ) → o ≤ 12 → (q < p) ⊎ (p + 16 ≤ q) → (q < p + o) ⊎ (p + o + 4 ≤ q)
field p q o le (inl low) = inl (omega (arith, low))
field p q o le (inr high) = inr (omega (arith, high, le))

-- What is outside the array is outside one of its entries.
pub put_reloc-outside :
    (m : Memory) (table n j : ℕ) (r : Reloc) (q : ℕ)
    → j ≤ n
    → (q < table) ⊎ (table + 16 * (n + 1) ≤ q)
    → put_reloc m (table + 16 * j) r q ≡ m q
put_reloc-outside m table n j r q le out =
    let p = table + 16 * j in
    let m1 = put_word m p r.section in
    let m2 = put_word m1 (p + 4) r.addr_virt in
    let m3 = put_word m2 (p + 8) r.addr_phys in
    let beside : (q < p) ⊎ (p + 16 ≤ q) = elim out [
      | inl low ↦ inl (omega (arith, low))
      | inr high ↦ inr (omega (arith, high, le))
    ] in
    put_word-outside m3 (p + 12) r.size q (field p q 12 (omega arith) beside)
    ∙ put_word-outside m2 (p + 8) r.addr_phys q (field p q 8 (omega arith) beside)
    ∙ put_word-outside m1 (p + 4) r.addr_virt q (field p q 4 (omega arith) beside)
    ∙ put_word-outside m p r.section q
        (elim beside [ inl low ↦ inl low | inr high ↦ inr (omega (arith, high)) ])

length_snoc : {A : Type 0} (xs : List A) (x : A) → length (xs ++ (x ∷ [])) ≡ length xs + 1
length_snoc [] x = refl
length_snoc (y ∷ ys) x = omega (arith, length_snoc ys x)

-- An address outside a block is outside a stretch in it.
beside :
    (base size p n q : ℕ)
    → Within base size p n
    → (q < base) ⊎ (base + size ≤ q)
    → (q < p) ⊎ (p + n ≤ q)
beside base size p n q (low, top) (inl below) = inl (omega (arith, low, below))
beside base size p n q (low, top) (inr above) = inr (omega (arith, top, above))

-- A section at an offset in a block.
offset_Within :
    (base size start n : ℕ)
    → base + size < 2 ^ 32
    → start + n ≤ size
    → Within base size (add32 base start) n
offset_Within base size start n small fits = omega (arith, small, fits)

module _ (m : Memory) (elf : ℕ) (b : Blocks) (fits : InMemory b) (header : ℕ → Shdr) (i : ℕ)
    (mask : HasMask (header i)) where
  pub place_section-Synced :
      (l l' : Layout) (st : Placing)
      → Grown (header i) l l'
      → l.prog_size + 0x7f + (header i).sh_size < 2 ^ 32
      → l.nobits_size + 0x7f + (header i).sh_size < 2 ^ 32
      → l'.prog_size ≤ b.layout.prog_size
      → l'.nobits_size ≤ b.layout.nobits_size
      → l'.n_relocs ≤ b.layout.n_relocs
      → Synced m header b i l st
      → Synced m header b
          (i + 1)
          l'
          (place_section elf b.table b.layout b.prog_phys b.nobits_phys i (header i) st)
  unfolding place_section
  place_section-Synced l l' st (grown_none not_prog not_nobits same) prog_room nobits_room prog_in
        nobits_in count_in synced =
      rw (not_prog, not_nobits, same, place_section)
        record {
          prog = synced.prog;
          nobits_end = synced.nobits_end;
          number = synced.number;
          entered =
              other i st.relocs (λ e. ground (arith, e, not_prog))
                (λ e. ground (arith, e, not_nobits)) synced.entered;
          kept = synced.kept;
        }
  place_section-Synced l l' st (grown_prog is_prog ends kept_size one) prog_room nobits_room prog_in
        nobits_in count_in synced =
      let (start, at, after, ended, near) = placed_end_lem l.prog_size (header i) mask prog_room in
      let here : force_align st.prog_offset (align_mask (header i)) ≡ start =
        ap (λ o. force_align o (align_mask (header i))) synced.prog ∙ at in
      let end : start + (header i).sh_size ≤ b.layout.prog_size =
        omega (arith, ended, ends, prog_in) in
      let virt =
        offset_Within b.layout.prog_base b.layout.prog_size start (header i).sh_size fits.2 end in
      let phys = offset_Within b.prog_phys b.layout.prog_size start (header i).sh_size fits.0 end in
      rw (is_prog, here, place_section)
        record {
          prog = ap (λ o. add32 o (header i).sh_size) (sym at) ∙ sym ends;
          nobits_end = synced.nobits_end ∙ sym kept_size;
          number = length_snoc st.relocs _ ∙ omega (arith, synced.number, one);
          entered =
              progbits i st.relocs _ (ground (arith, is_prog)) refl refl virt phys synced.entered;
          kept = λ q out.
              memcpy-outside _ (add32 b.prog_phys start) (add32 elf (header i).sh_offset)
                (header i).sh_size q
                (beside b.prog_phys b.layout.prog_size (add32 b.prog_phys start) (header i).sh_size
                  q phys out.0)
              ∙ put_reloc-outside st.memory b.table b.layout.n_relocs (length st.relocs) _ q
                  (omega (arith, synced.number, one, count_in)) out.2
              ∙ synced.kept q out;
        }
  place_section-Synced l l' st (grown_nobits not_prog is_nobits kept_size ends one) prog_room
        nobits_room prog_in nobits_in count_in synced =
      let (start, at, after, ended, near) =
        placed_end_lem l.nobits_size (header i) mask nobits_room in
      let here : force_align st.nobits_offset (align_mask (header i)) ≡ start =
        ap (λ o. force_align o (align_mask (header i))) synced.nobits_end ∙ at in
      let end : start + (header i).sh_size ≤ b.layout.nobits_size =
        omega (arith, ended, ends, nobits_in) in
      let virt =
        offset_Within b.layout.nobits_base b.layout.nobits_size start (header i).sh_size fits.3
          end in
      let phys =
        offset_Within b.nobits_phys b.layout.nobits_size start (header i).sh_size fits.1 end in
      rw (not_prog, is_nobits, here, place_section)
        record {
          prog = synced.prog ∙ sym kept_size;
          nobits_end = ap (λ o. add32 o (header i).sh_size) (sym at) ∙ sym ends;
          number = length_snoc st.relocs _ ∙ omega (arith, synced.number, one);
          entered =
              nobits i st.relocs _ (ground (arith, is_nobits)) refl refl virt phys synced.entered;
          kept = λ q out.
              put_reloc-outside st.memory b.table b.layout.n_relocs (length st.relocs) _ q
                (omega (arith, synced.number, one, count_in)) out.2
              ∙ synced.kept q out;
        }
