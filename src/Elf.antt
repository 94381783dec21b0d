-- ===== src/Elf.antt =====
-- ELF images in memory: the structures of kernel/inc/proc/types/elf.h and the searches of
-- kernel/src/proc/elf/elf.c. An image is the address of its header. Strings are compared by strcmp of
-- Std.Text, with its fuel; `none` is out of fuel.
pub mod Find
pub mod Copied
pub mod Symbols
mod Tests
use lambda_os.Prelude.{
  ℕ, zero, suc, ◌+◌, ◌-◌, ◌*◌, ◌/◌, ◌%◌, ◌^◌, Bool, true, false, not, ◌&&◌, ◌||◌, Option, none,
  some, List, [], ◌∷◌, ◌==◌, ltb, leb, if◌then◌else◌,
}
use lambda_os.Prelude.Word.{neg, eunspec, add32, sub32}
use lambda_os.Std.Memory.{Memory, bytes, half, word, put_word}
use lambda_os.Std.Bytes.{memcpy}
use lambda_os.Std.Text.{strcmp}

abbrev pub enoexec : ℕ
enoexec = 8

abbrev pub enoent : ℕ
enoent = 2

abbrev pub einval : ℕ
einval = 22

abbrev pub enomem : ℕ
enomem = 12

pub record Ehdr : Type 0 where
  pub e_ident : List ℕ
  pub e_type : ℕ
  pub e_machine : ℕ
  pub e_version : ℕ
  pub e_entry : ℕ
  pub e_phoff : ℕ
  pub e_shoff : ℕ
  pub e_flags : ℕ
  pub e_ehsize : ℕ
  pub e_phentsize : ℕ
  pub e_phnum : ℕ
  pub e_shentsize : ℕ
  pub e_shnum : ℕ
  pub e_shstrndx : ℕ

abbrev pub ehdr : Memory → ℕ → Ehdr
ehdr m p = record {
  e_ident = bytes m p 16;
  e_type = half m (p + 16);
  e_machine = half m (p + 18);
  e_version = word m (p + 20);
  e_entry = word m (p + 24);
  e_phoff = word m (p + 28);
  e_shoff = word m (p + 32);
  e_flags = word m (p + 36);
  e_ehsize = half m (p + 40);
  e_phentsize = half m (p + 42);
  e_phnum = half m (p + 44);
  e_shentsize = half m (p + 46);
  e_shnum = half m (p + 48);
  e_shstrndx = half m (p + 50);
}

pub record Shdr : Type 0 where
  pub sh_name : ℕ
  pub sh_type : ℕ
  pub sh_flags : ℕ
  pub sh_addr : ℕ
  pub sh_offset : ℕ
  pub sh_size : ℕ
  pub sh_link : ℕ
  pub sh_info : ℕ
  pub sh_addralign : ℕ
  pub sh_entsize : ℕ

abbrev pub shdr : Memory → ℕ → Shdr
shdr m p = record {
  sh_name = word m p;
  sh_type = word m (p + 4);
  sh_flags = word m (p + 8);
  sh_addr = word m (p + 12);
  sh_offset = word m (p + 16);
  sh_size = word m (p + 20);
  sh_link = word m (p + 24);
  sh_info = word m (p + 28);
  sh_addralign = word m (p + 32);
  sh_entsize = word m (p + 36);
}

pub record Sym : Type 0 where
  pub st_name : ℕ
  pub st_value : ℕ
  pub st_size : ℕ
  pub st_info : ℕ
  pub st_other : ℕ
  pub st_shndx : ℕ

abbrev pub sym : Memory → ℕ → Sym
sym m p = record {
  st_name = word m p;
  st_value = word m (p + 4);
  st_size = word m (p + 8);
  st_info = m (p + 12);
  st_other = m (p + 13);
  st_shndx = half m (p + 14);
}

abbrev pub shn_undef : ℕ
shn_undef = 0

abbrev pub shn_abs : ℕ
shn_abs = 0xfff1

-- `elf_get_sections`, and `sections[i]`.
abbrev pub elf_get_sections : Memory → ℕ → ℕ
elf_get_sections m elf = add32 elf (ehdr m elf).e_shoff

abbrev pub section_at : Memory → ℕ → ℕ → Shdr
section_at m elf i = shdr m (elf_get_sections m elf + 40 * i)

-- The loop of `elf_find_section_idx` with `n` sections to go, at section `i`; `strtab` is the string
-- table.
pub section_loop : ℕ → Memory → (elf strtab section_name : ℕ) → (n i : ℕ) → Option (Option ℕ)
section_loop fuel m elf strtab section_name zero i = some none
section_loop fuel m elf strtab section_name (suc n) i =
    let rest = section_loop fuel m elf strtab section_name n (i + 1) in
    elim (strcmp fuel m (strtab + (section_at m elf i).sh_name) section_name) [
      | none ↦ none
      | some r ↦ if r == 0 then some (some i) else rest
    ]

-- `elf_find_section_idx`: the index, `some none` for -ENOEXEC.
unfoldable pub elf_find_section_idx : ℕ → Memory → (elf section_name : ℕ) → Option (Option ℕ)
unfolding section_loop
elf_find_section_idx fuel m elf section_name =
    let strtab = add32 elf (section_at m elf (ehdr m elf).e_shstrndx).sh_offset in
    section_loop fuel m elf strtab section_name (ehdr m elf).e_shnum 0

pub elf_find_section : ℕ → Memory → (elf section_name : ℕ) → Option (Option Shdr)
unfolding elf_find_section_idx
elf_find_section fuel m elf section_name = elim (elf_find_section_idx fuel m elf section_name) [
  | none ↦ none
  | some none ↦ some none
  | some (some i) ↦ some (some (section_at m elf i))
]

-- `elf_get_section`: the code and `*section`, where it is set.
pub elf_get_section : Memory → (elf index : ℕ) → ℕ × Option Shdr
elf_get_section m elf index =
    if ltb (ehdr m elf).e_shnum index
    then (neg einval, none)
    else (0, some (section_at m elf index))

-- The loop of `elf_find_data`.
pub data_loop : Memory → (elf addr : ℕ) → (n i : ℕ) → ℕ
data_loop m elf addr zero i = 0
data_loop m elf addr (suc n) i =
    let s = section_at m elf i in
    let rest = data_loop m elf addr n (i + 1) in
    if leb s.sh_addr addr && ltb addr (add32 s.sh_addr s.sh_size)
    then add32 (add32 elf s.sh_offset) (addr - s.sh_addr)
    else rest

pub elf_find_data : Memory → (elf addr : ℕ) → ℕ
unfolding data_loop
elf_find_data m elf addr = data_loop m elf addr (ehdr m elf).e_shnum 0

-- `elf_check_header` for a host of the given machine; HOST_CLASS is ELFCLASS32.
pub elf_check_header : (host_machine : ℕ) → Memory → ℕ → ℕ
elf_check_header host_machine m p =
    if not (m p == 0x7f) || not (m (p + 1) == 69) || not (m (p + 2) == 76) || not (m (p + 3) == 70)
    then neg enoexec
    else if not (m (p + 4) == 1)
    then neg enoexec
    else if not ((ehdr m p).e_machine == host_machine)
    then neg enoexec
    else 0

-- `elf_shndx_from_symidx`, where `symtab_name` is ".symtab": the code and `*shndx`, where it is set.
pub elf_shndx_from_symidx : ℕ → Memory → (elf symtab_name symidx : ℕ) → Option (ℕ × Option ℕ)
unfolding elf_find_section
elf_shndx_from_symidx fuel m elf symtab_name symidx =
    elim (elf_find_section fuel m elf symtab_name) [
      | none ↦ none
      | some none ↦ some (neg eunspec, none)
      | some (some symtab) ↦
          let shndx = (sym m (add32 elf symtab.sh_offset + 16 * symidx)).st_shndx in
          some (
            if ltb symtab.sh_size (symidx * symtab.sh_entsize % 2 ^ 32)
            then (neg eunspec, none)
            else ((if shndx == shn_undef then neg enoent else 0), some shndx))
    ]

-- `struct symbol`; the last entry of an array of symbols is the end of the list.
pub record Symbol : Type 0 where
  pub name : ℕ
  pub addr : ℕ
  pub size : ℕ
  pub section : ℕ

-- `_SYM_CRITERIA`
abbrev pub is_defined : Sym → Bool
is_defined s = not (s.st_shndx == shn_undef)

-- The first loop of `elf_load_symbols`, with `n` symbols to go at `p`.
pub count_defined : Memory → ℕ → ℕ → ℕ
count_defined m zero p = 0
count_defined m (suc n) p = (if is_defined (sym m p) then 1 else 0) + count_defined m n (p + 16)

-- A `symbol_t` is written.
abbrev pub put_symbol : Memory → ℕ → Symbol → Memory
put_symbol m p s =
    put_word (put_word (put_word (put_word m (p + 12) s.section) p s.name) (p + 4) s.addr) (p + 8)
      s.size

-- The second loop, with the string table at `strtab` and the next entry of the array at `to`.
pub copy_defined : Memory → (strtab : ℕ) → (n p to : ℕ) → Memory
copy_defined m strtab zero p to = m
copy_defined m strtab (suc n) p to =
    let s = sym m p in
    let entry : Symbol = record {
      name = add32 strtab s.st_name;
      addr = s.st_value;
      size = s.st_size;
      section = s.st_shndx;
    } in
    if is_defined s
    then copy_defined (put_symbol m to entry) strtab n (p + 16) (to + 16)
    else copy_defined m strtab n (p + 16) to

-- The name, the address and the size of the entry behind the last symbol.
abbrev pub put_end : Memory → ℕ → Memory
put_end m p = put_word (put_word (put_word m p 0) (p + 4) 0xffffffff) (p + 8) 0

-- What `elf_load_symbols` makes of the two sections: the code, the memory, and the address of the array,
-- which is `kmalloc`'s, 0 for NULL. A symbol has 16 bytes.
pub load_symbols : (ℕ → ℕ) → Memory → ℕ → Shdr → Shdr → ℕ × Memory × ℕ
unfolding count_defined copy_defined
load_symbols kmalloc m elf strtab symtab =
    let syms = add32 elf symtab.sh_offset in
    let n_syms = symtab.sh_size / symtab.sh_entsize in
    let used = count_defined m n_syms syms in
    let symbols = kmalloc (add32 ((used + 1) * 16) strtab.sh_size) in
    let sym_strtab = symbols + (used + 1) * 16 in
    let copied = memcpy m sym_strtab (add32 elf strtab.sh_offset) strtab.sh_size in
    if symbols == 0 then (neg enomem, m, 0) else (
      0,
      put_end (copy_defined copied sym_strtab n_syms syms symbols) (symbols + used * 16),
      symbols,
    )

-- `elf_load_symbols`, where `strtab_name` and `symtab_name` are the names of the sections: the code,
-- the memory, and the address of the array, 0 where nothing is stored in `*symbols`.
pub elf_load_symbols :
    ℕ → (ℕ → ℕ) → Memory → (elf strtab_name symtab_name : ℕ) → Option (ℕ × Memory × ℕ)
unfolding elf_find_section load_symbols
elf_load_symbols fuel kmalloc m elf strtab_name symtab_name =
    elim (elf_find_section fuel m elf strtab_name) [
      | none ↦ none
      | some none ↦ some (neg 1, m, 0)
      | some (some strtab) ↦ elim (elf_find_section fuel m elf symtab_name) [
        | none ↦ none
        | some none ↦ some (neg 1, m, 0)
        | some (some symtab) ↦ some (load_symbols kmalloc m elf strtab symtab)
      ]
    ]
