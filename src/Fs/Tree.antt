-- ===== src/Fs/Tree.antt =====
-- The tree of files of kernel/src/fs/fs.c. A `kfile_t *` is an address, with `none` for NULL. The list
-- of a directory's children, an llist_t, is its files in order; a name is its characters, and the test
-- `!strcmp` is the equality of names.
pub mod Add
use lambda_os.Prelude.{
  ℕ, ◌+◌, Bool, true, false, ◌&&◌, Option, none, some, List, [], ◌∷◌, ◌++◌, ◌==◌, if◌then◌else◌,
}
use lambda_os.Prelude.Word.{add32, is_nonneg}

-- `listed` says whether the `list_item` of the file, of which it has one, is in a list of children.
pub record Kfile : Type 0 where
  pub name : List ℕ
  pub inode : ℕ
  pub parent : Option ℕ
  pub children : List ℕ
  pub listed : Bool

-- `_fs_root`, `c_inode` and the files at their addresses.
pub record Tree : Type 0 where
  pub root : Option ℕ
  pub next_inode : ℕ
  pub file : ℕ → Kfile

abbrev pub same_name : List ℕ → List ℕ → Bool
same_name [] [] = true
same_name [] (y ∷ t) = false
same_name (x ∷ s) [] = false
same_name (x ∷ s) (y ∷ t) = x == y && same_name s t

-- The loop of `fs_finddir` over the children.
pub find_child : Tree → List ℕ → List ℕ → Option ℕ
find_child t name [] = none
find_child t name (f ∷ fs) = if same_name (t.file f).name name then some f else find_child t name fs

pub fs_finddir : Tree → Option ℕ → List ℕ → Option ℕ
unfolding find_child
fs_finddir t none name = none
fs_finddir t (some f) name = find_child t name (t.file f).children

-- A write to the file at an address.
abbrev pub put_file : Tree → ℕ → Kfile → Tree
put_file t f k = record t { file = λ g. if g == f then k else t.file g }

-- The links of a file that is in no list of children, whose `list_item` goes to the end of the list.
abbrev pub link_child : Tree → ℕ → ℕ → Tree
link_child t file parent =
    let t' =
      put_file t parent
        (record (t.file parent) { children = (t.file parent).children ++ file ∷ [] }) in
    put_file t' file (record (t'.file file) { parent = some parent; children = []; listed = true })

-- `if(f == NULL) f = _fs_root`
abbrev pub or_root : Tree → Option ℕ → Option ℕ
or_root t none = t.root
or_root t (some f) = some f

-- The new file with the next number, which is taken.
abbrev pub numbered : Tree → ℕ → Tree
numbered t file = record (put_file t file (record (t.file file) { inode = t.next_inode })) {
  next_inode = add32 t.next_inode 1;
}

-- The result of `fs_add_file`; `none` where it follows a NULL root, and where the `list_item` of the
-- file is in a list already, which the append would break.
-- `tlock` is what `tlock_init` returns for the lock of the file; TRY_OR_RET passes on what is below 0.
pub fs_add_file : ℕ → Tree → ℕ → Option ℕ → Option (ℕ × Tree)
fs_add_file tlock t file parent =
    let linked : Option (ℕ × Tree) = elim (or_root t parent) [
      | none ↦ none
      | some p ↦
          if (t.file file).listed
          then none
          else some (t.next_inode, link_child (numbered t file) file p)
    ] in
    if is_nonneg tlock then linked else some (tlock, numbered t file)
