-- ===== src/Fs/Tests.antt =====
-- A tree of three files, and instances of the theorems on it.
use lambda_os.Prelude.{
  ◌+◌, ◌<◌, ◌≤◌, inl, false, inr, ℕ, zero, suc, ◌≡◌, true, ◌≢◌, ◌⊎◌, refl, none, some, [], ◌∷◌,
  if◌then◌else◌, List, arith,
}
use lambda_os.Prelude.Word.{neg}
use lambda_os.Fs.Tree.{Kfile, Tree, same_name, fs_finddir, fs_add_file}
use lambda_os.Fs.Tree.Add.{AreListed, fs_finddir-add}
use lambda_os.Fs.Path.{found, out_of_fuel, fs_find_file}
use lambda_os.Fs.Path.Walk.{walk, fs_find_file-walk, fs_find_file-absolute, fs_find_file-hidden}
use lambda_os.Fs.Path.Fuel.{fs_find_file-ends}
use lambda_os.Data.Cbuff.Refine.{contents}
use lambda_os.Fs.Stream.{Stream, stream_read, stream_write}
use lambda_os.Fs.Initrd.{RdFile, initrd_read, initrd_read_lem, initrd_read_overruns}
use lambda_os.Fs.Stream.Fifo.{IsPipe, stream_write_lem}
use lambda_os.Fs.Stream.Drain.{stream_read_lem}
use lambda_os.Fs.Ops.{einval, fault, result, call_file, call_file_never}

-- The name of the directory, "dev".
abbrev dev : List ℕ
dev = 100 ∷ 101 ∷ 118 ∷ []

-- The name of the device, "tty".
abbrev tty : List ℕ
tty = 116 ∷ 116 ∷ 121 ∷ []

abbrev file_at : ℕ → Kfile
file_at zero = record { name = []; inode = 1; parent = none; children = 1 ∷ []; listed = false }
file_at (suc zero) = record {
  name = dev;
  inode = 2;
  parent = some 0;
  children = 2 ∷ [];
  listed = true;
}
file_at (suc (suc zero)) = record {
  name = tty;
  inode = 3;
  parent = some 1;
  children = [];
  listed = true;
}
file_at (suc (suc (suc k))) = record {
  name = tty;
  inode = 0;
  parent = none;
  children = [];
  listed = false;
}

-- /dev/tty, with the root at 0.
abbrev tree : Tree
tree = record { root = some 0; next_inode = 4; file = file_at }

above : fs_find_file 6 tree (some 2) (46 ∷ 46 ∷ 47 ∷ 46 ∷ 46 ∷ []) ≡ found (some 0)
unfolding fs_find_file
above = refl

fs_find_file-walk_example :
    fs_find_file 8 tree (some 0) (100 ∷ 101 ∷ 118 ∷ 47 ∷ 116 ∷ 116 ∷ 121 ∷ [])
    ≡ found (walk tree (some 0) (dev ∷ tty ∷ []))
fs_find_file-walk_example =
    fs_find_file-walk (tty ∷ []) 8 tree 0 dev (omega arith) (omega arith) (omega arith)

from_root :
    fs_find_file 9 tree (some 2) (47 ∷ 100 ∷ 101 ∷ 118 ∷ 47 ∷ 116 ∷ 116 ∷ 121 ∷ [])
    ≡ found (walk tree (some 0) (dev ∷ tty ∷ []))
from_root =
    fs_find_file-absolute (tty ∷ []) 9 tree (some 2) 0 dev refl (omega arith) (omega arith)
      (omega arith)

hidden_path : fs_find_file 5 tree (some 0) (46 ∷ dev) ≡ fs_find_file 4 tree (some 0) dev
hidden_path = fs_find_file-hidden 4 tree 0 100 (101 ∷ 118 ∷ []) (omega arith) (omega arith)

fs_find_file-ends_example : fs_find_file 4 tree (some 2) (46 ∷ 46 ∷ 47 ∷ []) ≢ out_of_fuel
fs_find_file-ends_example = fs_find_file-ends 4 tree (some 2) (46 ∷ 46 ∷ 47 ∷ []) (omega arith)

tree-AreListed : AreListed tree
tree-AreListed zero f (inl same) = rw same refl
tree-AreListed zero f (inr none_left) = absurd none_left
tree-AreListed (suc zero) f (inl same) = rw same refl
tree-AreListed (suc zero) f (inr none_left) = absurd none_left
tree-AreListed (suc (suc zero)) f is = absurd is
tree-AreListed (suc (suc (suc k))) f is = absurd is

fs_finddir-add_example :
    (t' : Tree) × (fs_add_file 0 tree 3 (some 0) ≡ some (4, t'))
    × AreListed t'
    × (fs_finddir t' (some 0) tty ≡ (elim (fs_finddir tree (some 0) tty) [
      | some g ↦ some g
      | none ↦ if same_name (tree.file 3).name tty then some 3 else none
    ]))
fs_finddir-add_example = fs_finddir-add tree 3 0 tty (omega arith) refl tree-AreListed

never_called :
    (call_file true (some (some (some 7))) ≡ result (neg einval))
    ⊎ (call_file true (some (some (some 7))) ≡ fault)
never_called = call_file_never true (some (some (some 7)))

-- A pipe of four bytes with 8 and 9 in it, round its end.
abbrev pipe : Stream
pipe = record {
  buff = record { begin = 3; count = 2; size = 4; buff = some (9 ∷ 1 ∷ 2 ∷ 8 ∷ []) };
  length = 2;
}

pipe-IsPipe : IsPipe pipe
pipe-IsPipe = record { valid = omega arith; counted = refl }

stream_write_lem_example :
    (s' : Stream) × (stream_write (some pipe) (5 ∷ 6 ∷ 7 ∷ []) ≡ (2, some s'))
    × (contents s'.buff ≡ 8 ∷ 9 ∷ 5 ∷ 6 ∷ [])
    × (s'.buff.size ≡ 4)
    × IsPipe s'
stream_write_lem_example = stream_write_lem pipe (5 ∷ 6 ∷ 7 ∷ []) pipe-IsPipe

stream_read_lem_example :
    (s' : Stream) × (stream_read (some pipe) 5 ≡ (2, 8 ∷ 9 ∷ [], some s'))
    × (contents s'.buff ≡ [])
    × (s'.buff.size ≡ 4)
    × IsPipe s'
stream_read_lem_example = stream_read_lem pipe 5 pipe-IsPipe (omega arith)

-- A file of ten bytes at 100, where each address holds itself.
abbrev ten_bytes : RdFile
ten_bytes = record { info = 100; length = 10 }

part_of_archive :
    let (len, m') = initrd_read (λ q. q) (some ten_bytes) 7 20 500 in
    (len ≤ 20)
    × (len + 7 ≤ 10)
    × ((len ≡ 20) ⊎ (len + 7 ≡ 10))
    × ((i : ℕ) → i < len → m' (500 + i) ≡ 107 + i)
part_of_archive =
    initrd_read_lem (λ q. q) ten_bytes 7 20 500 (omega arith) (omega arith) (omega arith)
      (omega arith) (inr (omega arith))

overrun :
    ((initrd_read (λ q. q) (some ten_bytes) 7 0xfffffffa 500).0 ≡ 0xfffffffa)
    × (10 < 0xfffffffa + 7)
overrun =
    initrd_read_overruns (λ q. q) ten_bytes 7 0xfffffffa 500 (omega arith) (omega arith)
      (omega arith) (omega arith) (omega arith) (omega arith)
