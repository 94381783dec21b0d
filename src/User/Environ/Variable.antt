-- ===== src/User/Environ/Variable.antt =====
-- A variable that is set is found, and a name is taken for the variables whose names it begins with.
use mathlib.Core.List.{append-nil}
use lambda_os.Prelude.{
  ℕ, suc, ◌+◌, ◌<◌, ◌≡◌, ◌≢◌, refl, sym, ap, ◌∙◌, true, none, some, List, [], ◌∷◌, ◌++◌, length,
  drop, All, inl, inr, Option-cases, arith,
}
use lambda_os.User.Environ.{
  strchr, strncmp_loop, strncmp, match_entry, find_value, getenv, replace_entry, setenv,
}

-- A name with no '='.
abbrev pub IsName : List ℕ → Type 0
IsName name = All (λ c. c ≢ 61) name

strchr_name : (p v : List ℕ) → IsName p → strchr 61 (p ++ 61 ∷ v) ≡ some (length p)
unfolding strchr
strchr_name [] v h = refl
strchr_name (x ∷ p) v h = ground (arith, h.0, strchr_name p v h.1)

strncmp_loop_prefix :
    (x : ℕ) (p s t : List ℕ) → strncmp_loop (x ∷ p ++ s) (x ∷ p ++ t) (suc (length p)) ≡ 0
unfolding strncmp_loop
strncmp_loop_prefix x [] s t = ground arith
strncmp_loop_prefix x (y ∷ p) s t = ground (arith, strncmp_loop_prefix y p s t)

strncmp_prefix : (p s t : List ℕ) → strncmp (p ++ s) (p ++ t) (length p) ≡ 0
unfolding strncmp
strncmp_prefix [] s t = refl
strncmp_prefix (x ∷ p) s t = ground (arith, strncmp_loop_prefix x p s t)

drop_name : (p v : List ℕ) → drop (length p + 1) (p ++ 61 ∷ v) ≡ v
drop_name [] v = refl
drop_name (x ∷ p) v =
    let longer : suc (length p) + 1 ≡ suc (length p + 1) = omega arith in
    ap (λ n. drop n (x ∷ p ++ 61 ∷ v)) longer ∙ drop_name p v

-- The entry of a variable is taken for each name that begins with the variable's.
match_entry_prefix :
    (p q v : List ℕ) → IsName p → match_entry (p ++ 61 ∷ v) (p ++ q) ≡ some (length p)
unfolding match_entry
match_entry_prefix p q v h = ground (arith, strchr_name p v h, strncmp_prefix p (61 ∷ v) q)

match_entry_own :
    (name value : List ℕ) → IsName name → match_entry (name ++ 61 ∷ value) name ≡ some (length name)
match_entry_own name value h =
    ap (match_entry (name ++ 61 ∷ value)) (sym (append-nil name))
    ∙ match_entry_prefix name [] value h

find_value_first :
    (name value : List ℕ) (es : List (List ℕ))
    → IsName name
    → find_value name ((name ++ 61 ∷ value) ∷ es) ≡ some value
unfolding find_value
find_value_first name value es h =
    ground (arith, match_entry_own name value h, drop_name name value)

module _ (name value : List ℕ) (h : IsName name) where
  find_value-replace :
      (es es' : List (List ℕ))
      → replace_entry name (name ++ 61 ∷ value) true es ≡ some es'
      → find_value name es' ≡ some value
  unfolding replace_entry find_value
  find_value-replace [] es' r = cc
  find_value-replace (entry ∷ es) es' r = elim (Option-cases (match_entry entry name)) [
    | inr (i, matches) ↦
        let same : (name ++ 61 ∷ value) ∷ es ≡ es' = ground (arith, r, matches) in
        rw (← same) (find_value_first name value es h)
    | inl other ↦ elim (Option-cases (replace_entry name (name ++ 61 ∷ value) true es)) [
      | inl fails ↦ ground (arith, r, other, fails)
      | inr (fs, runs) ↦
          let same : entry ∷ fs ≡ es' = ground (arith, r, other, runs) in
          rw (← same) (ground (arith, other, find_value-replace es fs runs))
    ]
  ]

  find_value-append :
      (es : List (List ℕ))
      → replace_entry name (name ++ 61 ∷ value) true es ≡ none
      → find_value name (es ++ (name ++ 61 ∷ value) ∷ []) ≡ some value
  unfolding replace_entry find_value
  find_value-append [] r = find_value_first name value [] h
  find_value-append (entry ∷ es) r = elim (Option-cases (match_entry entry name)) [
    | inr (i, matches) ↦ ground (arith, r, matches)
    | inl other ↦ elim (Option-cases (replace_entry name (name ++ 61 ∷ value) true es)) [
      | inl fails ↦ ground (arith, other, find_value-append es fails)
      | inr (fs, runs) ↦ ground (arith, r, other, runs)
    ]
  ]

-- If a name is not empty and has no '=', and memory is there, setenv of it with overwrite returns
-- 0, and getenv of it then gives the value, whatever the environment was.
pub getenv-setenv :
    (name value : List ℕ) (es : List (List ℕ))
    → IsName name
    → 0 < length name
    → (es' : List (List ℕ)) × (setenv true true (some name) (some value) true (some es)
        ≡ (0, some es'))
      × (getenv name (some es') ≡ some value)
unfolding setenv getenv
getenv-setenv name value es h some_name =
    elim (Option-cases (replace_entry name (name ++ 61 ∷ value) true es)) [
      | inl absent ↦ (
        es ++ (name ++ 61 ∷ value) ∷ [],
        ground (arith, absent, some_name),
        find_value-append name value h es absent,
      )
      | inr (es', runs) ↦
          (es', ground (arith, runs, some_name), find_value-replace name value h es es' runs)
    ]

-- If the first variable has a name with no '=', then for each name that begins with this one and
-- is not empty getenv gives the value of the first variable, and setenv with overwrite replaces
-- the first variable by the new one.
pub setenv_overwrites :
    (p q v value : List ℕ) (es : List (List ℕ))
    → IsName p
    → 0 < length (p ++ q)
    → (getenv (p ++ q) (some ((p ++ 61 ∷ v) ∷ es)) ≡ some v)
      × (setenv true true (some (p ++ q)) (some value) true (some ((p ++ 61 ∷ v) ∷ es))
          ≡ (0, some (((p ++ q) ++ 61 ∷ value) ∷ es)))
unfolding setenv getenv replace_entry find_value
setenv_overwrites p q v value es h some_name = (
  ground (arith, match_entry_prefix p q v h, drop_name p v),
  ground (arith, match_entry_prefix p q v h, some_name),
)
