-- ===== src/Fs/Path/Fuel.antt =====
-- The search for a file ends: fuel above the length of the path is enough.
use lambda_os.Prelude.{
  ℕ, zero, suc, ◌<◌, ◌≤◌, ◌≡◌, ◌≢◌, none, some, Option, List, [], ◌∷◌, ◌==◌, inl, inr, Bool-cases,
  Option-cases, arith, length,
}
use lambda_os.Fs.Tree.{Tree, fs_finddir, or_root}
use lambda_os.Fs.Path.{
  skip_slash, Lookup, out_of_fuel, split, find_above, find_dot, find_slash, find_named,
  fs_find_file,
}

split-shorter : (p a b : List ℕ) → split p ≡ some (a, b) → length b < length p
unfolding split
split-shorter [] a b h = cc
split-shorter (c ∷ p) a b h = elim (Option-cases (split p)) [
  | inl whole ↦ ground (arith, whole)
  | inr ((a', b'), e) ↦ ground (arith, e, split-shorter p a' b' e)
]

skip_slash-le : (p : List ℕ) → length (skip_slash p) ≤ length p
skip_slash-le [] = omega arith
skip_slash-le (c ∷ p) = ground arith

module _ (next : Option ℕ → List ℕ → Lookup) (k : ℕ)
    (ends : (f : Option ℕ) (p : List ℕ) → length p < k → next f p ≢ out_of_fuel) (t : Tree) where
  find_above-ends : (f : Option ℕ) (p : List ℕ) → length p < k → find_above next t f p ≢ out_of_fuel
  unfolding find_above
  find_above-ends none p h = cc
  find_above-ends (some f) [] h = cc
  find_above-ends (some f) (c ∷ p) h =
      ends (t.file f).parent (skip_slash (c ∷ p)) (omega (arith, skip_slash-le (c ∷ p)))

  find_dot-ends : (f : Option ℕ) (p : List ℕ) → length p < k → find_dot next t f p ≢ out_of_fuel
  unfolding find_dot
  find_dot-ends f [] h = cc
  find_dot-ends f (c ∷ p) h = elim (Bool-cases (c == b'.')) [
    | inl dots ↦ rw (dots, find_dot) (find_above-ends f p (omega arith))
    | inr one ↦
        rw (one, find_dot) (ends f (skip_slash (c ∷ p)) (omega (arith, skip_slash-le (c ∷ p))))
  ]

  find_slash-ends : (p : List ℕ) → length p < k → find_slash next t p ≢ out_of_fuel
  unfolding find_slash
  find_slash-ends [] h = cc
  find_slash-ends (c ∷ p) h = ends t.root (c ∷ p) h

  find_named-ends :
      (f : Option ℕ) (p : List ℕ) → length p < suc k → find_named next t f p ≢ out_of_fuel
  unfolding find_named
  find_named-ends f p h = elim (Option-cases (split p)) [
    | inl whole ↦ rw (whole, find_named) (cc)
    | inr ((dir, rest), e) ↦ elim (Option-cases (fs_finddir t f dir)) [
      | inl missing ↦ rw (e, missing, find_named) (cc)
      | inr (g, there) ↦
          rw (e, there, find_named) (ends (some g) rest (omega (arith, split-shorter p dir rest e)))
    ]
  ]

-- With fuel above the length of the path, fs_find_file does not run out of fuel, for any path and
-- any tree.
pub fs_find_file-ends :
    (k : ℕ) (t : Tree) (f : Option ℕ) (p : List ℕ)
    → length p < k
    → fs_find_file k t f p ≢ out_of_fuel
unfolding fs_find_file
fs_find_file-ends zero t f p h = absurd (omega arith)
fs_find_file-ends (suc k) t f [] h = cc
fs_find_file-ends (suc k) t f (c ∷ p) h =
    let next = fs_find_file k t in
    let ends = fs_find_file-ends k t in
    elim (Bool-cases (c == b'.')) [
      | inl dot ↦ rw (dot, fs_find_file) (find_dot-ends next k ends t (or_root t f) p (omega arith))
      | inr other ↦ elim (Bool-cases (c == b'/')) [
        | inl slash ↦
            rw (other, slash, fs_find_file) (find_slash-ends next k ends t p (omega arith))
        | inr name ↦
            rw (other, name, fs_find_file) (find_named-ends next k ends t (or_root t f) (c ∷ p) h)
      ]
    ]
