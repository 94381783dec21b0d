-- ===== src/Modules/Preload/Tests.antt =====
-- Two paths, of which the second is not there.
use lambda_os.Prelude.{ℕ, ◌+◌, ◌≡◌, Option, none, some, List, [], ◌∷◌, ◌==◌, if◌then◌else◌, arith}
use lambda_os.Prelude.Word.{neg}
use lambda_os.Elf.{enoent}
use lambda_os.Modules.Preload.{Installer, preload_one, modules_preload}
use lambda_os.Modules.Preload.Lines.{modules_preload_lem}

-- The paths that begin with 97 are files, and the state counts the modules.
abbrev file_of_path : List ℕ → Option ℕ
file_of_path [] = none
file_of_path (c ∷ path) = if c == 97 then some c else none

abbrev counter : Installer ℕ
counter = record {
  find = λ w path. file_of_path path;
  open_handle = λ w file. (5, w);
  install = λ w hand. (0, w + 1);
  destroy = λ w hand. w;
}

two_paths : modules_preload counter 2 (some (97 ∷ 10 ∷ 98 ∷ 10 ∷ [])) 0 ≡ some (neg enoent, 1)
unfolding preload_one
two_paths =
    modules_preload_lem counter 2 ((97 ∷ []) ∷ (98 ∷ []) ∷ []) 0
      (((λ e. omega (arith, e)), tt), (((λ e. omega (arith, e)), tt), tt)) (omega arith)
