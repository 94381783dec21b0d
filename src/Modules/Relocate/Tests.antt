-- ===== src/Modules/Relocate/Tests.antt =====
-- A module with one section, on which the theorems apply.
use lambda_os.Prelude.{ℕ, inl, some, Option, ◌≡◌, refl, [], ◌∷◌, arith}
use lambda_os.Std.Memory.{Memory, memory_of}
use lambda_os.Elf.{Symbol}
use lambda_os.Modules.{module_symbol_find_module}
use lambda_os.Modules.Relocate.{Rel, Reloc, do_reloc, translate_symbols}
use lambda_os.Modules.Relocate.Write.{Written, do_reloc_lem, r_386_pc32}
use lambda_os.Modules.Relocate.Translate.{FirstBase, module_symbol_find_module_loses}

abbrev placed_at : ℕ → Reloc
placed_at base = record { section = 1; addr_virt = base; addr_phys = base; size = 16 }

abbrev call_at : ℕ → Rel
call_at offset = record { r_offset = offset; r_info = 2 }

-- A call of 0x3000 at 0x2004 gets the distance from the word.
do_reloc_example :
    (m' : Memory) × (do_reloc (λ q. q) (placed_at 0x2000 ∷ []) 0x3000 (call_at 4) 1 (λ q. 0)
      ≡ (0, m'))
    × Written (λ q. q) (λ q. 0) 0x2004 0xffc m'
do_reloc_example =
    do_reloc_lem (λ q. q) (placed_at 0x2000 ∷ []) 0x3000 (call_at 4) 1 (λ q. 0) (placed_at 0x2000)
      (inl (refl, refl)) 0xffc (omega arith) (omega arith)
      (
        (λ e. omega (arith, e)),
        (λ e. omega (arith, e)),
        (λ e. omega (arith, e)),
        (λ e. omega (arith, e)),
        (λ e. omega (arith, e)),
        (λ e. omega (arith, e)),
      )
      r_386_pc32

abbrev symbol_at : ℕ → Symbol
symbol_at value = record { name = 0; addr = value; size = 4; section = 1 }

-- A symbol "a" at 8 of a section that is placed at 0x2000 is at 0x2000 for other modules.
abbrev named_a : Memory
named_a = memory_of (97 ∷ 0 ∷ [])

module_symbol_find_module_loses_example :
    (v : Option ℕ) × (module_symbol_find_module 5 named_a 0
        (translate_symbols (placed_at 0x2000 ∷ []) (symbol_at 8 ∷ []))
      ≡ some v)
    × FirstBase (97 ∷ []) ((97 ∷ [], placed_at 0x2000) ∷ []) v
module_symbol_find_module_loses_example =
    module_symbol_find_module_loses 5 named_a 0 (97 ∷ []) (placed_at 0x2000 ∷ []) (symbol_at 8 ∷ [])
      ((97 ∷ [], placed_at 0x2000) ∷ []) (refl, (λ e. omega (arith, e)), refl) (omega arith, tt)
      (omega arith)
      (
        (refl, (λ e. omega (arith, e)), refl),
        (omega arith, tt),
        (λ e. omega (arith, e)),
        inl (refl, refl),
        (λ e. omega (arith, e)),
        tt,
      )
