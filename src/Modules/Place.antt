-- ===== src/Modules/Place.antt =====
-- The placing of a module, `_module_place` of kernel/src/mod/module.c. Its relocation table is written
-- to memory, and read from a list of its entries; `_alloc_map` is a parameter that takes an address and a length to
-- the physical address that is mapped there.
pub mod Align
pub mod Grown
pub mod Inside
pub mod Loops
pub mod Overlap
mod Tests
use Prim.Native.Nat.{bit_and}
use lambda_os.Prelude.{
  ℕ, zero, suc, ◌+◌, ◌-◌, ◌*◌, ◌^◌, Bool, true, false, not, Option, none, some, List, [], ◌∷◌, ◌++◌,
  ◌==◌, ltb, if◌then◌else◌, length,
}
use lambda_os.Prelude.Word.{add32}
use lambda_os.Std.Memory.{Memory, put_word}
use lambda_os.Std.Bytes.{memcpy, memset}
use lambda_os.Elf.{Ehdr, Shdr, Symbol, ehdr, shdr, elf_get_sections, elf_find_section_idx}
use lambda_os.Modules.Relocate.{
  Reloc, Known, load, translate_symbols, translate_addr, module_apply_relocs,
}

-- `FORCE_ALIGN`
pub force_align : (v am : ℕ) → ℕ
force_align v am = if bit_and v am == 0 then v else bit_and (add32 v am) (2 ^ 32 - 1 - am)

-- `align_mask`
abbrev pub align_mask : Shdr → ℕ
align_mask s = if s.sh_addralign == 0 then 0 else s.sh_addralign - 1

-- What the first loop of `_module_place` finds.
pub record Layout : Type 0 where
  pub prog_base : ℕ
  pub prog_size : ℕ
  pub nobits_base : ℕ
  pub nobits_size : ℕ
  pub n_relocs : ℕ

-- The first loop for one section; `none` is NULL. The types are SHT_PROGBITS and SHT_NOBITS.
pub measure_section : Shdr → Layout → Option Layout
unfolding force_align
measure_section s l =
    let am = align_mask s in
    if not (s.sh_addr == 0)
    then none
    else if ltb 0x80 s.sh_addralign
    then none
    else if s.sh_type == 1
    then some record {
      prog_base = force_align l.prog_base am;
      prog_size = add32 (force_align l.prog_size am) s.sh_size;
      nobits_base = l.nobits_base;
      nobits_size = l.nobits_size;
      n_relocs = l.n_relocs + 1;
    }
    else if s.sh_type == 8
    then some record {
      prog_base = l.prog_base;
      prog_size = l.prog_size;
      nobits_base = force_align l.nobits_base am;
      nobits_size = add32 (force_align l.nobits_size am) s.sh_size;
      n_relocs = l.n_relocs + 1;
    }
    else some l

-- The first loop, with `n` sections to go at the header `p`.
pub measure_loop : Memory → (n p : ℕ) → Layout → Option Layout
unfolding measure_section
measure_loop m zero p l = some l
measure_loop m (suc n) p l = elim (measure_section (shdr m p) l) [
  | none ↦ none
  | some l' ↦ measure_loop m n (p + 40) l'
]

-- The layout, with the base of the section without bits one page after the base of the others.
pub measure : Memory → (elf baseaddr : ℕ) → Option Layout
unfolding measure_loop
measure m elf baseaddr =
    elim (measure_loop m (ehdr m elf).e_shnum (elf_get_sections m elf) record {
      prog_base = baseaddr;
      prog_size = 0;
      nobits_base = 0;
      nobits_size = 0;
      n_relocs = 0;
    }) [
      | none ↦ none
      | some l ↦
          some (record l { nobits_base = bit_and (add32 l.prog_base 0x1000) (2 ^ 32 - 1 - 0xfff) })
    ]

-- The variables of the second loop.
pub record Placing : Type 0 where
  pub memory : Memory
  pub prog_offset : ℕ
  pub nobits_offset : ℕ
  pub relocs : List Reloc

-- An `elf_reloc_t` of 16 bytes is written.
abbrev pub put_reloc : Memory → ℕ → Reloc → Memory
put_reloc m p r =
    put_word (put_word (put_word (put_word m p r.section) (p + 4) r.addr_virt) (p + 8) r.addr_phys)
      (p + 12) r.size

-- The second loop for the section `i`, with the array `relocs` at `table`.
pub place_section :
    (elf table : ℕ) → Layout → (prog_phys nobits_phys : ℕ) → (i : ℕ) → Shdr → Placing → Placing
unfolding force_align
place_section elf table l prog_phys nobits_phys i s st =
    let am = align_mask s in
    let prog_offset = force_align st.prog_offset am in
    let nobits_offset = force_align st.nobits_offset am in
    let next = table + 16 * length st.relocs in
    let prog : Reloc = record {
      section = i;
      addr_virt = add32 l.prog_base prog_offset;
      addr_phys = add32 prog_phys prog_offset;
      size = s.sh_size;
    } in
    let nobits : Reloc = record {
      section = i;
      addr_virt = add32 l.nobits_base nobits_offset;
      addr_phys = add32 nobits_phys nobits_offset;
      size = s.sh_size;
    } in
    if s.sh_type == 1
    then record {
      memory =
          memcpy (put_reloc st.memory next prog) prog.addr_phys (add32 elf s.sh_offset) s.sh_size;
      prog_offset = add32 prog_offset s.sh_size;
      nobits_offset = st.nobits_offset;
      relocs = st.relocs ++ (prog ∷ []);
    }
    else if s.sh_type == 8
    then record {
      memory = put_reloc st.memory next nobits;
      prog_offset = st.prog_offset;
      nobits_offset = add32 nobits_offset s.sh_size;
      relocs = st.relocs ++ (nobits ∷ []);
    }
    else st

-- The second loop, with `n` sections to go at section `i` of the headers at `sects`.
pub place_loop :
    (elf table sects : ℕ) → Layout → (prog_phys nobits_phys : ℕ) → (n i : ℕ) → Placing → Placing
unfolding place_section
place_loop elf table sects l prog_phys nobits_phys zero i st = st
place_loop elf table sects l prog_phys nobits_phys (suc n) i st =
    place_loop elf table sects l prog_phys nobits_phys n (i + 1)
      (place_section elf table l prog_phys nobits_phys i (shdr st.memory (sects + 40 * i)) st)

-- The entry at the end of the array.
abbrev pub last_reloc : Reloc
last_reloc = record {
  section = 0xffffffff;
  addr_virt = 0xffffffff;
  addr_phys = 0xffffffff;
  size = 0;
}

-- The second loop after the memory was mapped, and the end of the array.
pub place_sections : Memory → (elf table : ℕ) → Layout → (prog_phys nobits_phys : ℕ) → Placing
unfolding place_loop
place_sections m elf table l prog_phys nobits_phys =
    let st =
      place_loop elf table (elf_get_sections m elf) l prog_phys nobits_phys (ehdr m elf).e_shnum 0
        record {
          memory = memset m nobits_phys 0 l.nobits_size;
          prog_offset = 0;
          nobits_offset = 0;
          relocs = [];
        } in
    record st { memory = put_reloc st.memory (table + 16 * length st.relocs) last_reloc }

-- What `_module_place` gives: the header's address, `mod_ent->func` and `mod_ent->ident`, the symbols
-- and the memory.
pub record Placed : Type 0 where
  pub head : ℕ
  pub func : ℕ
  pub ident : ℕ
  pub symbols : List Symbol
  pub memory : Memory

-- `_module_place`, where `kmalloc` gives the array `relocs`, `pages` is the mapping after both calls of `_alloc_map` and `name` is the
-- address of LAMBDA_MODULE_SECTION_NAME. The result is `some none` for NULL, and `none` where a comparison
-- of strings is out of fuel. The function is behind the 12 first bytes of the header.
pub module_place :
    (kmalloc : ℕ → ℕ)
    → (alloc_map : ℕ → ℕ → ℕ) → (pages : ℕ → ℕ) → Known
    → Memory
    → (elf baseaddr name : ℕ) → List Symbol
    → Option (Option Placed)
unfolding measure place_sections translate_symbols translate_addr module_apply_relocs
    elf_find_section_idx
module_place kmalloc alloc_map pages k m elf baseaddr name symbols = elim (measure m elf baseaddr) [
  | none ↦ some none
  | some l ↦
      (let prog_phys = alloc_map l.prog_base l.prog_size in
        let nobits_phys = alloc_map l.nobits_base l.nobits_size in
        let st = place_sections m elf (kmalloc ((l.n_relocs + 1) * 16)) l prog_phys nobits_phys in
        let moved = translate_symbols st.relocs symbols in
        elim (module_apply_relocs pages k elf st.relocs moved st.memory) [
          | none ↦ none
          | some (code, m') ↦
              (let found : Option (Option Placed) = elim (elf_find_section_idx k.fuel m' elf name) [
                | none ↦ none
                | some none ↦ some none
                | some (some i) ↦
                    (let head = translate_addr st.relocs i 0 in
                      some (
                        some record {
                          head = head;
                          func = load pages m' (head + 12);
                          ident = load pages m' (head + 16);
                          symbols = moved;
                          memory = m';
                        }))
              ] in
                if code == 0 then found else some none)
        ])
]
