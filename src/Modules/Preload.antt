-- ===== src/Modules/Preload.antt =====
-- The modules that are loaded at the start, kernel/src/mod/preload.c, and the threads of a module,
-- module_start_thread of kernel/src/mod/module.c. The file of paths is its bytes, and what is done with a
-- path is an interface to a state `W`; memory for the path is there, and the path fits in it.
pub mod Lines
mod Tests
use lambda_os.Prelude.{
  ℕ, zero, suc, ◌+◌, Bool, true, false, Option, none, some, List, [], ◌∷◌, ◌==◌, set, length,
  if◌then◌else◌,
}
use lambda_os.Prelude.Word.{neg, eunspec, is_nonneg}
use lambda_os.Elf.{enoent, einval}

-- `fs_find_file`, `fs_handle_create_open`, `module_install` and `fs_handle_destroy`.
pub record Installer (W : Type 0) : Type 0 where
  pub find : W → (path : List ℕ) → Option ℕ
  pub open_handle : W → (file : ℕ) → ℕ × W
  pub install : W → (hand : ℕ) → ℕ × W
  pub destroy : W → (hand : ℕ) → W

-- The text up to the first newline, and what is behind it.
pub split_line : List ℕ → List ℕ × List ℕ
split_line [] = ([], [])
split_line (c ∷ text) =
    let (line, rest) = split_line text in if c == 10 then ([], text) else (c ∷ line, rest)

module _ {W : Type 0} (k : Installer W) where
  -- What is done with a path: a code, 0 where the module was installed.
  pub preload_one : List ℕ → W → ℕ × W
  preload_one path w = elim (k.find w path) [
    | none ↦ (neg enoent, w)
    | some file ↦
        (let (hand, w1) = k.open_handle w file in
          let (code, w2) = k.install w1 hand in
          ((if code == 0 then 0 else neg eunspec), k.destroy w2 hand))
  ]

  -- The loop of `modules_preload`; `none` is out of fuel.
  pub preload_loop : ℕ → List ℕ → W → Option (ℕ × W)
  unfolding split_line preload_one
  preload_loop fuel [] w = some (0, w)
  preload_loop zero (c ∷ text) w = none
  preload_loop (suc fuel) (c ∷ text) w =
      let (line, rest) = split_line (c ∷ text) in
      let (code, w') = preload_one line w in
      let later = preload_loop fuel rest w' in if code == 0 then later else some (code, w')

  -- `modules_preload`, with the bytes of the file, or `none` where it cannot be read.
  pub modules_preload : ℕ → Option (List ℕ) → W → Option (ℕ × W)
  unfolding preload_loop
  modules_preload fuel none w = some (neg enoent, w)
  modules_preload fuel (some text) w = preload_loop fuel text w

-- The first thread slot that is 0, from `i` on.
pub free_thread : List ℕ → ℕ → Option ℕ
free_thread [] i = none
free_thread (t ∷ ts) i = let rest = free_thread ts (i + 1) in if t == 0 then some i else rest

-- `module_start_thread` with the module's thread slots, where `spawn` is the result of thread_spawn, and
-- the module and the function are there or NULL.
pub module_start_thread : (mod_there entry_there : Bool) → (spawn : ℕ) → List ℕ → ℕ × List ℕ
unfolding free_thread
module_start_thread false entry_there spawn threads = (neg einval, threads)
module_start_thread true false spawn threads = (neg einval, threads)
module_start_thread true true spawn threads = elim (free_thread threads 0) [
  | none ↦ (neg eunspec, threads)
  | some i ↦ if is_nonneg spawn then (spawn, set threads i spawn) else (spawn, threads)
]
