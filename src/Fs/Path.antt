-- ===== src/Fs/Path.antt =====
-- The search for a file by its path, `fs_find_file` of kernel/src/fs/fs.c. Each call has a shorter
-- path than the one before it, and the fuel is a bound on its length.
pub mod Walk
pub mod Fuel
use lambda_os.Prelude.{
  ℕ, zero, suc, true, false, Option, none, some, List, [], ◌∷◌, ◌==◌, if◌then◌else◌,
}
use lambda_os.Fs.Tree.{Tree, fs_finddir, or_root}

-- What a search ends in: a file or NULL, a NULL pointer followed, or no fuel.
pub data Lookup : Type 0 where
  found : Option ℕ → Lookup
  fault out_of_fuel : Lookup

-- The calls of `fs_find_file` on what is left of a path.
abbrev Next : Type 0
Next = Option ℕ → List ℕ → Lookup

-- The parts of a path before and after its first separator; `none` where `strchr` returns NULL.
pub split : List ℕ → Option (List ℕ × List ℕ)
split [] = none
split (c ∷ p) =
    if c == b'/'
    then some ([], p)
    else elim (split p) [ none ↦ none | some (a, b) ↦ some (c ∷ a, b) ]

-- One separator behind the dots is passed over.
abbrev pub skip_slash : List ℕ → List ℕ
skip_slash [] = []
skip_slash (c ∷ p) = if c == b'/' then p else c ∷ p

-- The path `..` and what follows it, from the file `f`.
pub find_above : Next → Tree → Option ℕ → List ℕ → Lookup
find_above next t none p = fault
find_above next t (some f) [] = found (t.file f).parent
find_above next t (some f) (c ∷ p) = next (t.file f).parent (skip_slash (c ∷ p))

-- A path that begins with a dot, without it.
pub find_dot : Next → Tree → Option ℕ → List ℕ → Lookup
unfolding find_above
find_dot next t f [] = found f
find_dot next t f (c ∷ p) = elim (c == b'.') [
  | true ↦ find_above next t f p
  | false ↦ next f (skip_slash (c ∷ p))
]

-- A path that begins with a separator, without it.
pub find_slash : Next → Tree → List ℕ → Lookup
find_slash next t [] = found t.root
find_slash next t (c ∷ p) = next t.root (c ∷ p)

-- A path that begins with a name.
pub find_named : Next → Tree → Option ℕ → List ℕ → Lookup
find_named next t f p = elim (split p) [
  | none ↦ found (fs_finddir t f p)
  | some (dir, rest) ↦ elim (fs_finddir t f dir) [ none ↦ found none | some g ↦ next (some g) rest ]
]

unfoldable pub fs_find_file : ℕ → Tree → Option ℕ → List ℕ → Lookup
unfolding find_dot find_slash find_named
fs_find_file zero t f p = out_of_fuel
fs_find_file (suc k) t f [] = found none
fs_find_file (suc k) t f (c ∷ p) =
    let from = or_root t f in
    elim (c == b'.') [
      | true ↦ find_dot (fs_find_file k t) t from p
      | false ↦ elim (c == b'/') [
        | true ↦ find_slash (fs_find_file k t) t p
        | false ↦ find_named (fs_find_file k t) t from (c ∷ p)
      ]
    ]
