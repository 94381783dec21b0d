-- ===== src/Fs/Tree/Add.antt =====
-- A file that fs_add_file has added is found in its directory.
use mathlib.Core.Path.{subst}
use lambda_os.Prelude.{
  ◌∙◌, ◌⊎◌, inl, inr, false, ◌==◌, Bool-cases, ℕ, ◌≡◌, ◌≢◌, refl, true, none, some, List, [], ◌∷◌,
  ◌++◌, if◌then◌else◌, arith,
}
use lambda_os.Fs.Tree.{Tree, same_name, find_child, fs_finddir, fs_add_file, numbered, link_child}

pub same_name_refl : (s : List ℕ) → same_name s s ≡ true
same_name_refl [] = refl
same_name_refl (x ∷ s) = ground (arith, same_name_refl s)

-- The children before the new one keep their names.
find_child-append :
    (t t' : Tree) (name : List ℕ) (fs : List ℕ) (file : ℕ)
    → ((f : ℕ) → (t'.file f).name ≡ (t.file f).name)
    → find_child t' name (fs ++ file ∷ []) ≡ (elim (find_child t name fs) [
      | some g ↦ some g
      | none ↦ if same_name (t.file file).name name then some file else none
    ])
unfolding find_child
find_child-append t t' name [] file same = ground (arith, same file)
find_child-append t t' name (f ∷ fs) file same =
    ground (arith, same f, find_child-append t t' name fs file same)

-- The file is one of these.
abbrev pub IsOneOf : ℕ → List ℕ → Type 0
IsOneOf f [] = ⊥
IsOneOf f (x ∷ xs) = (f ≡ x) ⊎ IsOneOf f xs

-- Every child of a directory is in a list of children.
abbrev pub AreListed : Tree → Type 0
AreListed t = (d f : ℕ) → IsOneOf f (t.file d).children → (t.file f).listed ≡ true

IsOneOf-append : (f x : ℕ) (xs : List ℕ) → IsOneOf f (xs ++ x ∷ []) → (f ≡ x) ⊎ IsOneOf f xs
IsOneOf-append f x [] (inl same) = inl same
IsOneOf-append f x [] (inr none_left) = absurd none_left
IsOneOf-append f x (y ∷ ys) (inl same) = inr (inl same)
IsOneOf-append f x (y ∷ ys) (inr later) = elim (IsOneOf-append f x ys later) [
  | inl same ↦ inl same
  | inr is ↦ inr (inr is)
]

module _ (t : Tree) (file p : ℕ) (ne : file ≢ p) where
  after : Tree
  after = link_child (numbered t file) file p

  link_child_other : (f : ℕ) → (f == file) ≡ false → (after.file f).listed ≡ (t.file f).listed
  unfolding after
  link_child_other f other = ground (arith, other)

  link_child_file : (after.file file).listed ≡ true
  unfolding after
  link_child_file = ground arith

  -- The children of the file, of the directory, and of another one.
  children_file : (d : ℕ) → (d == file) ≡ true → (after.file d).children ≡ []
  unfolding after
  children_file d same = ground (arith, same)

  children_dir :
      (d : ℕ)
      → (d == file) ≡ false
      → (d == p) ≡ true
      → (after.file d).children ≡ (t.file p).children ++ file ∷ []
  unfolding after
  children_dir d other same = ground (arith, other, same)

  children_other :
      (d : ℕ)
      → (d == file) ≡ false
      → (d == p) ≡ false
      → (after.file d).children ≡ (t.file d).children
  unfolding after
  children_other d other apart = ground (arith, other, apart)

  -- A child afterwards is the file, or it was a child before.
  IsOneOf-after :
      (d f : ℕ)
      → IsOneOf f (after.file d).children
      → (f ≡ file) ⊎ ((e : ℕ) × IsOneOf f (t.file e).children)
  IsOneOf-after d f is = elim (Bool-cases (d == file)) [
    | inl same ↦ absurd (subst (IsOneOf f) (children_file d same) is)
    | inr other ↦ elim (Bool-cases (d == p)) [
      | inl at ↦
          (elim (IsOneOf-append f file (t.file p).children
            (subst (IsOneOf f) (children_dir d other at) is)) [
              | inl new ↦ inl new
              | inr old ↦ inr (p, old)
            ])
      | inr apart ↦ inr (d, subst (IsOneOf f) (children_other d other apart) is)
    ]
  ]

  link_child-AreListed : AreListed t → AreListed after
  link_child-AreListed all d f is = elim (Bool-cases (f == file)) [
    | inl same ↦ let f≡file : f ≡ file = ground (arith, same) in rw f≡file link_child_file
    | inr other ↦ elim (IsOneOf-after d f is) [
      | inl same ↦ absurd (ground (arith, same, other))
      | inr (e, old) ↦ link_child_other f other ∙ all e f old
    ]
  ]

-- If tlock_init returns 0, the file is not the directory it is added to and is in no list of
-- children, and every child of a directory is in one, fs_add_file returns the next file number,
-- every child of a directory is still in a list, and a search of the directory by any name returns
-- what it did before, or the new file where it returned NULL and the name is that of the file.
pub fs_finddir-add :
    (t : Tree) (file p : ℕ) (name : List ℕ)
    → file ≢ p
    → (t.file file).listed ≡ false
    → AreListed t
    → (t' : Tree) × (fs_add_file 0 t file (some p) ≡ some (t.next_inode, t'))
      × AreListed t'
      × (fs_finddir t' (some p) name ≡ (elim (fs_finddir t (some p) name) [
        | some g ↦ some g
        | none ↦ if same_name (t.file file).name name then some file else none
      ]))
unfolding fs_add_file fs_finddir after
fs_finddir-add t file p name ne unlisted all =
    let t' = after t file p ne in
    (
      t',
      rw unlisted refl,
      link_child-AreListed t file p ne all,
      ground (arith, find_child-append t t' name (t.file p).children file (λ f. ground arith)),
    )
