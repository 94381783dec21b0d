-- ===== src/Modules/Preload/Lines.antt =====
-- The lines of the file of paths.
use lambda_os.Prelude.{
  ℕ, zero, suc, ◌≤◌, ◌≡◌, ◌≢◌, inl, inr, refl, ◌∙◌, false, some, List, [], ◌∷◌, ◌++◌, ◌==◌, length,
  All, Bool-cases, if◌then◌else◌, arith,
}
use lambda_os.Modules.Preload.{Installer, split_line, preload_one, preload_loop, modules_preload}

-- The lines, each with a newline behind it.
abbrev pub joined : List (List ℕ) → List ℕ
joined [] = []
joined (line ∷ ls) = line ++ (10 ∷ joined ls)

-- The modules one after the other, up to the first that fails.
abbrev pub preload_all : {W : Type 0} → Installer W → List (List ℕ) → W → ℕ × W
preload_all k [] w = (0, w)
preload_all k (line ∷ ls) w =
    let rest = preload_all k ls (preload_one k line w).1 in
    if (preload_one k line w).0 == 0 then rest else preload_one k line w

split_line-joined :
    (line rest : List ℕ) → All (λ c. c ≢ 10) line → split_line (line ++ (10 ∷ rest)) ≡ (line, rest)
unfolding split_line
split_line-joined [] rest plain = refl
split_line-joined (c ∷ line) rest plain =
    let other : (c == 10) ≡ false = ground (arith, plain.0) in
    rw (other, split_line-joined line rest plain.1) refl

preload_loop_next :
    {W : Type 0} (k : Installer W) (fuel c : ℕ) (text line rest : List ℕ) (w : W)
    → split_line (c ∷ text) ≡ (line, rest)
    → preload_loop k (suc fuel) (c ∷ text) w ≡ (
        if (preload_one k line w).0 == 0
        then preload_loop k fuel rest (preload_one k line w).1
        else some (preload_one k line w))
unfolding preload_loop
preload_loop_next k fuel c text line rest w split = rw (split, preload_loop) refl

preload_loop-line :
    {W : Type 0} (k : Installer W) (fuel : ℕ) (line rest : List ℕ) (w : W)
    → All (λ c. c ≢ 10) line
    → preload_loop k (suc fuel) (line ++ (10 ∷ rest)) w ≡ (
        if (preload_one k line w).0 == 0
        then preload_loop k fuel rest (preload_one k line w).1
        else some (preload_one k line w))
preload_loop-line k fuel [] rest w plain =
    preload_loop_next k fuel 10 rest [] rest w (split_line-joined [] rest plain)
preload_loop-line k fuel (c ∷ line) rest w plain =
    preload_loop_next k fuel c (line ++ (10 ∷ rest)) (c ∷ line) rest w
      (split_line-joined (c ∷ line) rest plain)

preload_loop-joined :
    {W : Type 0} (k : Installer W) (fuel : ℕ) (ls : List (List ℕ)) (w : W)
    → All (λ line. All (λ c. c ≢ 10) line) ls
    → length ls ≤ fuel
    → preload_loop k fuel (joined ls) w ≡ some (preload_all k ls w)
unfolding preload_loop
preload_loop-joined k fuel [] w plain enough = refl
preload_loop-joined k zero (line ∷ ls) w plain enough = absurd (omega arith)
preload_loop-joined k (suc fuel) (line ∷ ls) w plain enough =
    let rest =
      preload_loop-joined k fuel ls (preload_one k line w).1 plain.1 (omega (arith, enough)) in
    preload_loop-line k fuel line (joined ls) w plain.0
    ∙ elim (Bool-cases ((preload_one k line w).0 == 0)) [
      | inl good ↦ rw (good, rest) refl
      | inr bad ↦ rw bad refl
    ]

-- For a file of lines, none with a newline in it, and fuel of at least their number, modules_preload
-- installs the modules of the lines in order, up to the first that fails, and returns its code.
pub modules_preload_lem :
    {W : Type 0} (k : Installer W) (fuel : ℕ) (ls : List (List ℕ)) (w : W)
    → All (λ line. All (λ c. c ≢ 10) line) ls
    → length ls ≤ fuel
    → modules_preload k fuel (some (joined ls)) w ≡ some (preload_all k ls w)
unfolding modules_preload
modules_preload_lem k fuel ls w plain enough = preload_loop-joined k fuel ls w plain enough
