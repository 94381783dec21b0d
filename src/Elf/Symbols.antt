-- ===== src/Elf/Symbols.antt =====
-- The symbols that are loaded, and their names.
use lambda_os.Prelude.{ℕ, ◌+◌, ◌*◌, ◌/◌, ◌<◌, ◌≤◌, ◌≡◌, ◌⊎◌, List, length}
use lambda_os.Prelude.Word.{add32}
use lambda_os.Std.Memory.{Memory, CString, word}
use lambda_os.Elf.{Shdr, count_defined}
use lambda_os.Elf.Copied.{Entries}

-- The number of the symbols of a section, and how many of them are defined.
abbrev pub n_syms : Shdr → ℕ
n_syms symtab = symtab.sh_size / symtab.sh_entsize

abbrev pub used_syms : Memory → ℕ → Shdr → ℕ
used_syms m elf symtab = count_defined m (n_syms symtab) (add32 elf symtab.sh_offset)

-- The size of the array with the entry at its end.
abbrev pub array_size : Memory → ℕ → Shdr → ℕ
array_size m elf symtab = (used_syms m elf symtab + 1) * 16

-- The memory `m'` after the symbols were loaded to the block at `block`.
pub record Loaded (m : Memory) (elf block : ℕ) (strtab symtab : Shdr) (m' : Memory) : Type 0 where
  pub entries :
      Entries m
        (block + array_size m elf symtab)
        (n_syms symtab)
        (add32 elf symtab.sh_offset)
        m'
        block
  pub end_name : word m' (block + used_syms m elf symtab * 16) ≡ 0
  pub end_addr : word m' (block + used_syms m elf symtab * 16 + 4) ≡ 0xffffffff
  pub end_size : word m' (block + used_syms m elf symtab * 16 + 8) ≡ 0
  pub names :
      (o : ℕ) (s : List ℕ)
      → CString m (add32 elf strtab.sh_offset + o) s
      → o + length s < strtab.sh_size
      → CString m' (block + array_size m elf symtab + o) s
  pub kept :
      (q : ℕ) → (q < block) ⊎ (block + array_size m elf symtab + strtab.sh_size ≤ q) → m' q ≡ m q
