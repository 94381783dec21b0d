-- ===== src/Modules.antt =====
-- Loading of kernel modules: kernel/src/mod/symbols.c and the placing and relocation of
-- kernel/src/mod/module.c. Memory is physical, and `pages` takes an address of the module to where it is
-- mapped; the image and the kernel's own data stand at their own addresses. Loops that compare strings
-- run on the fuel of strcmp; `none` is out of fuel.
pub mod Relocate
pub mod Place
pub mod Preload
use lambda_os.Prelude.{
  ℕ, zero, suc, ◌+◌, ◌*◌, ◌/◌, ◌%◌, ◌^◌, Bool, true, false, not, ◌&&◌, ◌||◌, Option, none, some,
  List, [], ◌∷◌, ◌==◌, ltb, if◌then◌else◌,
}
use lambda_os.Std.Memory.{Memory}
use lambda_os.Std.Text.{strcmp}
use lambda_os.Elf.{Symbol}

-- The end of an array of symbols or of relocations.
abbrev pub no_addr : ℕ
no_addr = 0xffffffff

-- `lambda_symbol_t`, an exported symbol of the kernel.
pub record KernelSymbol : Type 0 where
  pub name : ℕ
  pub addr : ℕ

-- `module_symbol_find_kernel`, with the symbols between __lambda_symbols_begin and
-- __lambda_symbols_end: the address, `some none` for -EUNSPEC.
pub module_symbol_find_kernel : ℕ → Memory → ℕ → List KernelSymbol → Option (Option ℕ)
module_symbol_find_kernel fuel m symbol [] = some none
module_symbol_find_kernel fuel m symbol (s ∷ ss) =
    let rest = module_symbol_find_kernel fuel m symbol ss in
    elim (strcmp fuel m s.name symbol) [
      | none ↦ none
      | some r ↦ if r == 0 then some (some s.addr) else rest
    ]

pub module_symbol_find_module : ℕ → Memory → ℕ → List Symbol → Option (Option ℕ)
module_symbol_find_module fuel m symbol [] = some none
module_symbol_find_module fuel m symbol (s ∷ ss) =
    let rest = module_symbol_find_module fuel m symbol ss in
    let compared : Option (Option ℕ) = elim (strcmp fuel m symbol s.name) [
      | none ↦ none
      | some r ↦ if r == 0 then some (some s.addr) else rest
    ] in
    if s.addr == no_addr then some none else compared

-- The loop over the loaded modules of `_find_undefined_symbol`; `none` is a module with no symbols.
pub find_loaded : ℕ → Memory → ℕ → List (Option (List Symbol)) → Option (Option ℕ)
unfolding module_symbol_find_module
find_loaded fuel m ident [] = some none
find_loaded fuel m ident (none ∷ ms) = find_loaded fuel m ident ms
find_loaded fuel m ident (some symbols ∷ ms) =
    let rest = find_loaded fuel m ident ms in
    elim (module_symbol_find_module fuel m ident symbols) [
      | none ↦ none
      | some none ↦ rest
      | some (some a) ↦ some (some a)
    ]

-- `_find_undefined_symbol`
pub find_undefined_symbol :
    ℕ → Memory → ℕ → List KernelSymbol → List (Option (List Symbol)) → Option (Option ℕ)
unfolding module_symbol_find_kernel find_loaded
find_undefined_symbol fuel m ident kernel loaded =
    elim (module_symbol_find_kernel fuel m ident kernel) [
      | none ↦ none
      | some none ↦ find_loaded fuel m ident loaded
      | some (some a) ↦ some (some a)
    ]

-- The loop over the loaded modules of `_check_requirements`, by their names: is one of them `req`?
pub is_loaded : ℕ → Memory → ℕ → List ℕ → Option Bool
is_loaded fuel m req [] = some false
is_loaded fuel m req (ident ∷ idents) =
    let rest = is_loaded fuel m req idents in
    elim (strcmp fuel m req ident) [ none ↦ none | some r ↦ if r == 0 then some true else rest ]

-- `_check_requirements` of the names in the array of requirements: does it return 0?
pub check_requirements : ℕ → Memory → List ℕ → List ℕ → Option Bool
unfolding is_loaded
check_requirements fuel m [] idents = some true
check_requirements fuel m (req ∷ reqs) idents =
    let rest = check_requirements fuel m reqs idents in
    elim (is_loaded fuel m req idents) [ none ↦ none | some true ↦ rest | some false ↦ some false ]
