-- ===== src/Modules/Relocate/Translate.antt =====
-- The symbols of a placed module.
use lambda_os.Prelude.{
  ℕ, ◌<◌, ◌≡◌, ◌≢◌, ◌⊎◌, inl, inr, refl, false, Option, none, some, List, [], ◌∷◌, ◌==◌, length,
  All, Bool-cases, arith,
}
use lambda_os.Std.Memory.{Memory, CString}
use lambda_os.Std.Text.Order.{IsChar, strcmp_iff}
use lambda_os.Elf.{Symbol}
use lambda_os.Modules.{no_addr, module_symbol_find_module}
use lambda_os.Modules.Relocate.{Reloc, get_reloc, translate_symbol, translate_symbols}
use lambda_os.Modules.Relocate.Entry.{EntryOf, get_reloc-EntryOf}

-- The symbols have these names, and their sections are placed by these entries.
abbrev pub Symbols : Memory → List Reloc → List Symbol → List (List ℕ × Reloc) → Type 0
Symbols m relocs [] [] = Unit
Symbols m relocs [] (t ∷ ts) = ⊥
Symbols m relocs (s ∷ ss) [] = ⊥
Symbols m relocs (s ∷ ss) (t ∷ ts) =
    CString m s.name t.0
    × All IsChar t.0
    × (s.addr ≢ no_addr)
    × EntryOf s.section relocs t.1
    × (t.1.addr_virt ≢ no_addr)
    × Symbols m relocs ss ts

-- The base of the section of the first symbol with the name.
abbrev pub FirstBase : List ℕ → List (List ℕ × Reloc) → Option ℕ → Type 0
FirstBase name [] v = v ≡ none
FirstBase name (t ∷ ts) v =
    ((name ≡ t.0) × (v ≡ some t.1.addr_virt)) ⊎ ((name ≢ t.0) × FirstBase name ts v)

-- Where its section is placed, a symbol has the address of the section.
translate_symbol_lem :
    (relocs : List Reloc) (s : Symbol) (r : Reloc)
    → get_reloc relocs s.section ≡ some r
    → translate_symbol relocs s ≡ (0, record s { addr = r.addr_virt })
unfolding translate_symbol
translate_symbol_lem relocs s r placed = rw (placed, translate_symbol) refl

-- If the symbols of a module have names, no address that marks the end, and sections with entries
-- in the table of placed sections, whose addresses do not mark the end either, then after
-- _module_place has translated the symbols, module_symbol_find_module gives for a name shorter
-- than the fuel the address of the section of the first symbol with the name, whatever the value
-- of that symbol was, and fails if no symbol has the name.
pub module_symbol_find_module_loses :
    (fuel : ℕ) (m : Memory) (symbol : ℕ) (name : List ℕ) (relocs : List Reloc) (ss : List Symbol)
    (ts : List (List ℕ × Reloc))
    → CString m symbol name
    → All IsChar name
    → length name < fuel
    → Symbols m relocs ss ts
    → (v : Option ℕ) × (module_symbol_find_module fuel m symbol (translate_symbols relocs ss)
        ≡ some v)
      × FirstBase name ts v
unfolding translate_symbols module_symbol_find_module
module_symbol_find_module_loses fuel m symbol name relocs [] [] named chars short all =
    (none, refl, refl)
module_symbol_find_module_loses fuel m symbol name relocs [] (t ∷ ts) named chars short all =
    absurd all
module_symbol_find_module_loses fuel m symbol name relocs (s ∷ ss) [] named chars short all =
    absurd all
module_symbol_find_module_loses fuel m symbol name relocs (s ∷ ss) (t ∷ ts) named chars short all =
    let (at, its_chars, some_addr, entry, some_base, rest) = all in
    let there : (s.addr == no_addr) ≡ false = ground (arith, some_addr) in
    let moved = translate_symbol_lem relocs s t.1 (get_reloc-EntryOf s.section relocs t.1 entry) in
    let kept : (t.1.addr_virt == no_addr) ≡ false = ground (arith, some_base) in
    let (d, compared, same) =
      strcmp_iff name t.0 fuel m symbol s.name named at chars its_chars short in
    let (v, runs, first) =
      module_symbol_find_module_loses fuel m symbol name relocs ss ts named chars short rest in
    elim (Bool-cases (d == 0)) [
      | inl equal ↦ (
        some t.1.addr_virt,
        rw (there, moved, module_symbol_find_module, kept, compared, equal, moved) refl,
        inl (same.0 (ground (arith, equal)), refl),
      )
      | inr differ ↦ (
        v,
        rw (there, moved, module_symbol_find_module, kept, compared, differ) runs,
        inr ((λ e. ground (arith, differ, same.1 e)), first),
      )
    ]
