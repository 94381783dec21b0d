-- ===== src/Elf/Tests.antt =====
-- An image with one section and one symbol, on which the theorems apply.
use lambda_os.Prelude.{ℕ, ◌≡◌, refl, Option, some, List, [], ◌∷◌, ◌==◌, if◌then◌else◌, arith}
use lambda_os.Std.Memory.{Memory}
use lambda_os.Elf.{Shdr, elf_find_section_idx}
use lambda_os.Elf.Find.{FirstAt, elf_find_section_idx_lem}

-- A header at 0, a section header at 52, the string table at 92 and a name at 95.
abbrev image : Memory
image q =
    if q == 32
    then 52
    else if q == 48
    then 1
    else if q == 52
    then 1
    else if q == 68
    then 92
    else if q == 93
    then 97
    else if q == 95
    then 97
    else 0

abbrev one_name : List ℕ
one_name = 97 ∷ []

-- The section is found.
elf_find_section_idx_example :
    (r : Option ℕ) × (elf_find_section_idx 5 image 0 95 ≡ some r)
    × FirstAt one_name 0 (one_name ∷ []) r
elf_find_section_idx_example =
    elf_find_section_idx_lem 5 image 0 95 one_name (one_name ∷ [])
      (refl, (λ e. omega (arith, e)), refl) (omega arith, tt)
      ((refl, (λ e. omega (arith, e)), refl), (omega arith, tt), tt) refl (omega arith, tt)

-- Two symbols at 100, of which the second is defined, and their names at 200.
abbrev object : Memory
object q =
    if q == 116
    then 1
    else if q == 120
    then 8
    else if q == 130
    then 1
    else if q == 201
    then 97
    else 0

abbrev table_at : ℕ → ℕ → ℕ → Shdr
table_at offset size entsize = record {
  sh_name = 0;
  sh_type = 2;
  sh_flags = 0;
  sh_addr = 0;
  sh_offset = offset;
  sh_size = size;
  sh_link = 0;
  sh_info = 0;
  sh_addralign = 0;
  sh_entsize = entsize;
}
