-- ===== src/Modules/Relocate.antt =====
-- The relocation of a placed module, `_do_reloc` and what it stands on.
pub mod Entry
pub mod Write
pub mod Translate
mod Tests
use lambda_os.Prelude.{
  ℕ, zero, suc, ◌+◌, ◌*◌, ◌/◌, ◌%◌, ◌^◌, Bool, true, false, not, ◌&&◌, ◌||◌, Option, none, some,
  List, [], ◌∷◌, ◌==◌, ltb, if◌then◌else◌,
}
use lambda_os.Prelude.Word.{neg, eunspec, add32, sub32}
use lambda_os.Std.Memory.{Memory, store, word}
use lambda_os.Elf.{Symbol, Shdr, Sym, ehdr, section_at, sym, shn_abs, shn_undef, enoent}
use lambda_os.Modules.{KernelSymbol, no_addr, find_undefined_symbol}

-- `Elf32_Rel`
pub record Rel : Type 0 where
  pub r_offset : ℕ
  pub r_info : ℕ

abbrev pub rel : Memory → ℕ → Rel
rel m p = record { r_offset = word m p; r_info = word m (p + 4) }

abbrev pub r_sym : ℕ → ℕ
r_sym i = i / 2 ^ 8

abbrev pub r_type : ℕ → ℕ
r_type i = i % 2 ^ 8

-- `elf_reloc_t`; the last entry of the array is the end of the list.
pub record Reloc : Type 0 where
  pub section : ℕ
  pub addr_virt : ℕ
  pub addr_phys : ℕ
  pub size : ℕ

pub get_reloc : List Reloc → ℕ → Option Reloc
get_reloc [] section = none
get_reloc (r ∷ rs) section =
    let rest = get_reloc rs section in if r.section == section then some r else rest

-- `_translate_symbol`: the code, and the symbol.
pub translate_symbol : List Reloc → Symbol → ℕ × Symbol
unfolding get_reloc
translate_symbol relocs s = elim (get_reloc relocs s.section) [
  | none ↦ (neg enoent, s)
  | some r ↦ (0, record s { addr = r.addr_virt })
]

-- The loop of `_module_place` over the symbols of the module.
unfoldable pub translate_symbols : List Reloc → List Symbol → List Symbol
unfolding translate_symbol
translate_symbols relocs [] = []
translate_symbols relocs (s ∷ ss) =
    let rest = translate_symbols relocs ss in
    if s.addr == no_addr then s ∷ ss else (translate_symbol relocs s).1 ∷ rest

-- `_translate_addr`
unfoldable pub translate_addr : List Reloc → ℕ → ℕ → ℕ
unfolding get_reloc
translate_addr relocs section addr = elim (get_reloc relocs section) [
  | none ↦ 0
  | some r ↦ add32 r.addr_virt addr
]

-- A `uint32_t` at an address of the module.
abbrev pub load : (ℕ → ℕ) → Memory → ℕ → ℕ
load pages m p =
    m (pages p)
    + m (pages (p + 1)) * 2 ^ 8
    + m (pages (p + 2)) * 2 ^ 16
    + m (pages (p + 3)) * 2 ^ 24

abbrev pub store_word : (ℕ → ℕ) → Memory → ℕ → ℕ → Memory
store_word pages m p w =
    store
      (store (store (store m (pages p) (w % 2 ^ 8)) (pages (p + 1)) (w / 2 ^ 8 % 2 ^ 8))
        (pages (p + 2)) (w / 2 ^ 16 % 2 ^ 8))
      (pages (p + 3)) (w / 2 ^ 24 % 2 ^ 8)

-- `_do_reloc`: the code and the memory. The types are R_386_NONE, 32, PC32, RELATIVE, GLOB_DAT and
-- JMP_SLOT.
pub do_reloc : (ℕ → ℕ) → List Reloc → (symaddr : ℕ) → Rel → (section : ℕ) → Memory → ℕ × Memory
unfolding translate_addr
do_reloc pages relocs symaddr r section m =
    let p = translate_addr relocs section r.r_offset in
    let type = r_type r.r_info in
    let old = load pages m p in
    if ltb p 0x1000
    then (neg eunspec, m)
    else if type == 0
    then (0, m)
    else if type == 1
    then (0, store_word pages m p (add32 old symaddr))
    else if type == 2
    then (0, store_word pages m p (add32 old (sub32 symaddr p)))
    else if type == 8
    then (0, store_word pages m p (translate_addr relocs section old))
    else if type == 6 || type == 7
    then (0, store_word pages m p symaddr)
    else (neg eunspec, m)

-- What looks up symbols: the fuel of strcmp, the kernel's symbols, the loaded modules.
pub record Known : Type 0 where
  pub fuel : ℕ
  pub kernel : List KernelSymbol
  pub loaded : List (Option (List Symbol))

-- The loop of `_find_symbol` over the symbols of the module.
pub find_internal : ℕ → ℕ → List Symbol → Option ℕ
find_internal shndx value [] = none
find_internal shndx value (s ∷ ss) =
    let rest = find_internal shndx value ss in
    if s.addr == no_addr
    then none
    else if s.section == shndx
    then some (add32 s.addr value)
    else rest

-- `_find_symbol`: the value, `some none` for an error.
pub find_symbol : Known → Memory → (elf : ℕ) → List Symbol → (table index : ℕ) → Option (Option ℕ)
unfolding find_undefined_symbol find_internal
find_symbol k m elf symbols table index =
    let symtab = section_at m elf table in
    let s = sym m (add32 elf symtab.sh_offset + 16 * index) in
    let strtab = section_at m elf symtab.sh_link in
    let ident = add32 (add32 elf strtab.sh_offset) s.st_name in
    if ltb symtab.sh_size (index * symtab.sh_entsize % 2 ^ 32)
    then some none
    else if s.st_shndx == shn_abs
    then some (some s.st_value)
    else if s.st_shndx == shn_undef
    then find_undefined_symbol k.fuel m ident k.kernel k.loaded
    else some (find_internal s.st_shndx s.st_value symbols)

-- `_RELOC_NEED_SYM`
abbrev pub reloc_need_sym : Rel → Bool
reloc_need_sym r = not (r_type r.r_info == 0) && not (r_type r.r_info == 8)

-- `_handle_reloc`
pub handle_reloc :
    (ℕ → ℕ)
    → Known
    → (elf : ℕ) → List Reloc
    → List Symbol
    → Rel
    → (symtab shndx : ℕ) → Memory
    → Option (ℕ × Memory)
unfolding find_symbol do_reloc
handle_reloc pages k elf relocs symbols r symtab shndx m =
    let apply : ℕ → Option (ℕ × Memory) = λ symaddr.
      let (code, m') = do_reloc pages relocs symaddr r shndx m in
      some (if code == 0 then (0, m') else (neg eunspec, m')) in
    let looked_up : Option (ℕ × Memory) =
      elim (find_symbol k m elf symbols symtab (r_sym r.r_info)) [
        | none ↦ none
        | some none ↦ some (neg enoent, m)
        | some (some a) ↦ apply a
      ] in
    if reloc_need_sym r then looked_up else apply 0

-- The inner loop of `_module_apply_relocs`, with `n` relocations to go at `p`.
pub rel_loop :
    (ℕ → ℕ)
    → Known
    → (elf : ℕ) → List Reloc
    → List Symbol
    → (symtab shndx : ℕ) → (n p : ℕ) → Memory
    → Option (ℕ × Memory)
unfolding handle_reloc
rel_loop pages k elf relocs symbols symtab shndx zero p m = some (0, m)
rel_loop pages k elf relocs symbols symtab shndx (suc n) p m =
    elim (handle_reloc pages k elf relocs symbols (rel m p) symtab shndx m) [
      | none ↦ none
      | some (code, m') ↦
          (let rest = rel_loop pages k elf relocs symbols symtab shndx n (p + 8) m' in
            if code == 0 then rest else some (neg eunspec, m'))
    ]

-- The outer loop, with `n` sections to go at section `i`.
pub sect_loop :
    (ℕ → ℕ)
    → Known
    → (elf : ℕ) → List Reloc
    → List Symbol
    → (n i : ℕ) → Memory
    → Option (ℕ × Memory)
unfolding rel_loop
sect_loop pages k elf relocs symbols zero i m = some (0, m)
sect_loop pages k elf relocs symbols (suc n) i m =
    let s = section_at m elf i in
    let run =
      rel_loop pages k elf relocs symbols s.sh_link s.sh_info (s.sh_size / s.sh_entsize)
        (add32 elf s.sh_offset) m in
    elim (if s.sh_type == 9 then run else some (0, m)) [
      | none ↦ none
      | some (code, m') ↦
          (let rest = sect_loop pages k elf relocs symbols n (i + 1) m' in
            if code == 0 then rest else some (neg eunspec, m'))
    ]

-- `_module_apply_relocs`
unfoldable pub module_apply_relocs :
    (ℕ → ℕ) → Known → (elf : ℕ) → List Reloc → List Symbol → Memory → Option (ℕ × Memory)
unfolding sect_loop
module_apply_relocs pages k elf relocs symbols m =
    sect_loop pages k elf relocs symbols (ehdr m elf).e_shnum 0 m
