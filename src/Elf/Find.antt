-- ===== src/Elf/Find.antt =====
-- The search for a section by its name.
use lambda_os.Prelude.{
  ℕ, ◌+◌, ◌<◌, ◌≡◌, ◌≢◌, ◌⊎◌, inl, inr, refl, sym, Option, none, some, List, [], ◌∷◌, ◌==◌, length,
  All, Bool-cases, arith,
}
use lambda_os.Prelude.Word.{add32}
use lambda_os.Std.Memory.{Memory, CString}
use lambda_os.Std.Text.Order.{IsChar, strcmp_iff}
use lambda_os.Elf.{ehdr, section_at, section_loop, elf_find_section_idx}

-- The sections from `i` on have these names in the string table.
abbrev pub NamesAt : Memory → (elf strtab : ℕ) → ℕ → List (List ℕ) → Type 0
NamesAt m elf strtab i [] = Unit
NamesAt m elf strtab i (s ∷ ss) =
    CString m (strtab + (section_at m elf i).sh_name) s
    × All IsChar s
    × NamesAt m elf strtab (i + 1) ss

-- The index of the first of the names that is `name`, counted from `i`.
abbrev pub FirstAt : List ℕ → ℕ → List (List ℕ) → Option ℕ → Type 0
FirstAt name i [] r = r ≡ none
FirstAt name i (s ∷ ss) r = ((s ≡ name) × (r ≡ some i)) ⊎ ((s ≢ name) × FirstAt name (i + 1) ss r)

module _ (fuel : ℕ) (m : Memory) (elf strtab p : ℕ) (name : List ℕ) (named : CString m p name)
    (chars : All IsChar name) where
  section_loop-FirstAt :
      (i : ℕ) (names : List (List ℕ))
      → NamesAt m elf strtab i names
      → All (λ s. length s < fuel) names
      → (r : Option ℕ) × (section_loop fuel m elf strtab p (length names) i ≡ some r)
        × FirstAt name i names r
  unfolding section_loop
  section_loop-FirstAt i [] at short = (none, refl, refl)
  section_loop-FirstAt i (s ∷ ss) at short =
      let (d, compared, same) =
        strcmp_iff s name fuel m (strtab + (section_at m elf i).sh_name) p at.0 named at.1 chars
          short.0 in
      let (r, runs, first) = section_loop-FirstAt (i + 1) ss at.2 short.1 in
      elim (Bool-cases (d == 0)) [
        | inl equal ↦ (
          some i,
          rw (compared, equal, section_loop) refl,
          inl (same.0 (ground (arith, equal)), refl),
        )
        | inr differ ↦ (
          r,
          rw (compared, differ, section_loop) runs,
          inr ((λ e. ground (arith, differ, same.1 e)), first),
        )
      ]

-- If the sections of the image and the argument have names as strings, each shorter than the fuel,
-- then elf_find_section_idx gives the index of the first section with the name, and fails if there
-- is none.
pub elf_find_section_idx_lem :
    (fuel : ℕ) (m : Memory) (elf p : ℕ) (name : List ℕ) (names : List (List ℕ))
    → CString m p name
    → All IsChar name
    → NamesAt m elf (add32 elf (section_at m elf (ehdr m elf).e_shstrndx).sh_offset) 0 names
    → length names ≡ (ehdr m elf).e_shnum
    → All (λ s. length s < fuel) names
    → (r : Option ℕ) × (elf_find_section_idx fuel m elf p ≡ some r) × FirstAt name 0 names r
unfolding elf_find_section_idx
elf_find_section_idx_lem fuel m elf p name names named chars at all short =
    let strtab = add32 elf (section_at m elf (ehdr m elf).e_shstrndx).sh_offset in
    let (r, runs, first) =
      section_loop-FirstAt fuel m elf strtab p name named chars 0 names at short in
    (r, rw (sym all) runs, first)
