-- ===== src/Modules/Relocate/Entry.antt =====
-- The entries of the list of placed sections, elf_reloc_t of kernel/inc/fs/elf.h.
use lambda_os.Prelude.{ℕ, ◌≡◌, ◌≢◌, ◌⊎◌, inl, inr, ap, some, List, [], ◌∷◌, arith}
use lambda_os.Modules.Relocate.{Reloc, get_reloc}

-- The first entry of the list with this section.
abbrev pub EntryOf : ℕ → List Reloc → Reloc → Type 0
EntryOf section [] r = ⊥
EntryOf section (x ∷ xs) r =
    ((x.section ≡ section) × (x ≡ r)) ⊎ ((x.section ≢ section) × EntryOf section xs r)

pub get_reloc-EntryOf :
    (section : ℕ) (relocs : List Reloc) (r : Reloc)
    → EntryOf section relocs r
    → get_reloc relocs section ≡ some r
unfolding get_reloc
get_reloc-EntryOf section [] r e = absurd e
get_reloc-EntryOf section (x ∷ xs) r (inl (is, same)) = ground (arith, is, ap some same)
get_reloc-EntryOf section (x ∷ xs) r (inr (differs, later)) =
    ground (arith, differs, get_reloc-EntryOf section xs r later)
