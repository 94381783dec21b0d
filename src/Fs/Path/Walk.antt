-- ===== src/Fs/Path/Walk.antt =====
-- A path of names leads from directory to directory.
use lambda_os.Prelude.{
  ℕ, zero, suc, ◌<◌, ◌≡◌, ◌≢◌, refl, none, some, Option, List, [], ◌∷◌, ◌++◌, inl, inr,
  Option-cases, arith, All, length, length-append,
}
use lambda_os.Fs.Tree.{Tree, fs_finddir}
use lambda_os.Fs.Path.{found, split, find_dot, find_slash, find_named, fs_find_file}

-- A name that is no path of its own: not empty, no leading dot, no separator.
abbrev pub IsName : List ℕ → Type 0
IsName [] = ⊥
IsName (c ∷ p) = (c ≢ b'.') × All (λ x. x ≢ b'/') (c ∷ p)

-- The path of the names, in order.
abbrev pub path_of : List ℕ → List (List ℕ) → List ℕ
path_of n [] = n
path_of n (n' ∷ ns) = n ++ b'/' ∷ path_of n' ns

-- From directory to directory, by the names.
abbrev pub walk : Tree → Option ℕ → List (List ℕ) → Option ℕ
walk t f [] = f
walk t none (n ∷ ns) = none
walk t (some f) (n ∷ ns) = walk t (fs_finddir t (some f) n) ns

split-name : (n : List ℕ) → All (λ x. x ≢ b'/') n → split n ≡ none
unfolding split
split-name [] a = refl
split-name (c ∷ n) a = ground (arith, a.0, split-name n a.1)

split-append : (n p : List ℕ) → All (λ x. x ≢ b'/') n → split (n ++ b'/' ∷ p) ≡ some (n, p)
unfolding split
split-append [] p a = refl
split-append (c ∷ n) p a = ground (arith, a.0, split-append n p a.1)

walk-none : (t : Tree) (ns : List (List ℕ)) → walk t none ns ≡ none
walk-none t [] = refl
walk-none t (n ∷ ns) = refl

-- From a file, a path of names, none empty, with a leading dot or with a separator in it, and with
-- fuel above the length of the path, fs_find_file returns what a walk by fs_finddir from directory
-- to directory ends in, NULL from the first name that is missing.
pub fs_find_file-walk :
    (ns : List (List ℕ)) (k : ℕ) (t : Tree) (f : ℕ) (n : List ℕ)
    → IsName n
    → All IsName ns
    → length (path_of n ns) < k
    → fs_find_file k t (some f) (path_of n ns) ≡ found (walk t (some f) (n ∷ ns))
unfolding fs_find_file find_named
fs_find_file-walk ns zero t f n a b h = absurd (omega arith)
fs_find_file-walk ns (suc k) t f [] a b h = absurd a
fs_find_file-walk [] (suc k) t f (c ∷ n) a b h = ground (arith, a.0, a.1.0, split-name (c ∷ n) a.1)
fs_find_file-walk (n' ∷ ns) (suc k) t f (c ∷ n) a b h =
    let parts = split-append (c ∷ n) (path_of n' ns) a.1 in
    let shorter : length (path_of n' ns) < k =
      omega (arith, length-append (c ∷ n) (b'/' ∷ path_of n' ns)) in
    elim (Option-cases (fs_finddir t (some f) (c ∷ n))) [
      | inl missing ↦ ground (arith, a.0, a.1.0, parts, missing, walk-none t ns)
      | inr (g, there) ↦
          ground (arith, a.0, a.1.0, parts, there, fs_find_file-walk ns k t g n' b.0 b.1 shorter)
    ]

-- If the root is set, a path of such names behind a leading separator, with fuel above its length,
-- is walked from the root, whatever file the search is given.
pub fs_find_file-absolute :
    (ns : List (List ℕ)) (k : ℕ) (t : Tree) (f : Option ℕ) (r : ℕ) (n : List ℕ)
    → t.root ≡ some r
    → IsName n
    → All IsName ns
    → suc (length (path_of n ns)) < k
    → fs_find_file k t f (b'/' ∷ path_of n ns) ≡ found (walk t t.root (n ∷ ns))
unfolding fs_find_file find_slash
fs_find_file-absolute ns zero t f r n root a b h = absurd (omega arith)
fs_find_file-absolute ns (suc k) t f r [] root a b h = absurd a
fs_find_file-absolute [] (suc k) t f r (c ∷ n) root a b h =
    ground (arith, root, fs_find_file-walk [] k t r (c ∷ n) a b (omega arith))
fs_find_file-absolute (n' ∷ ns) (suc k) t f r (c ∷ n) root a b h =
    ground (arith, root, fs_find_file-walk (n' ∷ ns) k t r (c ∷ n) a b (omega arith))

-- From a file, a path that begins with one dot and then a character that is neither a dot nor a
-- separator is searched as the path without the dot.
pub fs_find_file-hidden :
    (k : ℕ) (t : Tree) (f c : ℕ) (n : List ℕ)
    → c ≢ b'.'
    → c ≢ b'/'
    → fs_find_file (suc k) t (some f) (b'.' ∷ c ∷ n) ≡ fs_find_file k t (some f) (c ∷ n)
unfolding fs_find_file find_dot
fs_find_file-hidden k t f c n dot slash = ground arith
