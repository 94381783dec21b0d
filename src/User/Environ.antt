-- ===== src/User/Environ.antt =====
-- The environment of user/lib/src/stdlib/getenv.c and setenv.c, with what they use of
-- user/lib/src/string. A string is the list of its characters, which are ASCII; `environ` is the list
-- of its entries, `none` where it is NULL.
pub mod Variable
mod Tests
use mathlib.Core.Option
use lambda_os.Prelude.{
  ℕ, zero, suc, ◌+◌, ◌-◌, ◌%◌, ◌^◌, Bool, true, false, not, ◌||◌, Option, none, some, List, [], ◌∷◌,
  ◌++◌, ◌==◌, if◌then◌else◌, length, drop,
}
use lambda_os.Prelude.Word.{neg, sub32}

-- `*s`
abbrev pub first_char : List ℕ → ℕ
first_char [] = 0
first_char (x ∷ s) = x

-- `strchr`: the index of the character.
pub strchr : ℕ → List ℕ → Option ℕ
strchr c [] = if c == 0 then some 0 else none
strchr c (x ∷ s) = let rest = strchr c s in if x == c then some 0 else Option.map suc rest

-- The loop of `strncmp`, with `n` characters to go.
pub strncmp_loop : List ℕ → List ℕ → ℕ → ℕ
strncmp_loop [] b n = sub32 0 (first_char b)
strncmp_loop (x ∷ a) [] n = x
strncmp_loop (x ∷ a) (y ∷ b) n =
    let rest = strncmp_loop a b (n - 1) in
    if n == 1 then sub32 x y else if x == y then rest else sub32 x y

pub strncmp : List ℕ → List ℕ → ℕ → ℕ
unfolding strncmp_loop
strncmp a b n = if n == 0 then 0 else strncmp_loop a b n

-- The place of '=' in an entry that the tests of getenv and setenv take for the variable.
pub match_entry : List ℕ → List ℕ → Option ℕ
unfolding strchr strncmp
match_entry entry name = elim (strchr 61 entry) [
  | none ↦ none
  | some i ↦ if strncmp entry name i == 0 then some i else none
]

-- The loop of `getenv`.
pub find_value : List ℕ → List (List ℕ) → Option (List ℕ)
unfolding match_entry
find_value name [] = none
find_value name (entry ∷ es) =
    let rest = find_value name es in
    elim (match_entry entry name) [ none ↦ rest | some i ↦ some (drop (i + 1) entry) ]

pub getenv : List ℕ → Option (List (List ℕ)) → Option (List ℕ)
unfolding find_value
getenv name none = none
getenv name (some es) = find_value name es

-- The loop of `setenv`: the entries where one is taken for the variable.
pub replace_entry : List ℕ → List ℕ → Bool → List (List ℕ) → Option (List (List ℕ))
unfolding match_entry
replace_entry name new overwrite [] = none
replace_entry name new overwrite (entry ∷ es) =
    let rest = replace_entry name new overwrite es in
    elim (match_entry entry name) [
      | some i ↦ some ((if overwrite then new else entry) ∷ es)
      | none ↦ Option.map (◌∷◌ entry) rest
    ]

-- `setenv`. `name` and `value` are `none` for NULL, `malloc` and `realloc` are whether the calls give
-- memory; snprintf writes the name, '=' and the value.
pub setenv :
    (malloc realloc : Bool)
    → Option (List ℕ)
    → Option (List ℕ)
    → Bool
    → Option (List (List ℕ))
    → ℕ × Option (List (List ℕ))
unfolding replace_entry
setenv malloc realloc name value overwrite none = (neg 1, none)
setenv malloc realloc none value overwrite (some es) = (neg 1, some es)
setenv malloc realloc (some name) none overwrite (some es) = (neg 1, some es)
setenv malloc realloc (some name) (some value) overwrite (some es) =
    let new = name ++ 61 ∷ value in
    let added : ℕ × Option (List (List ℕ)) =
      if realloc then (0, some (es ++ new ∷ [])) else (neg 1, some es) in
    let done : ℕ × Option (List (List ℕ)) = elim (replace_entry name new overwrite es) [
      | some es' ↦ (0, some es')
      | none ↦ added
    ] in
    if length name == 0 || not malloc then (neg 1, some es) else done
