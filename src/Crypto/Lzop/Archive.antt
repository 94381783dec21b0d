-- ===== src/Crypto/Lzop/Archive.antt =====
-- An archive of blocks that are stored as they are, each with one checksum.
use mathlib.Core.Path.{subst}
use lambda_os.Prelude.{
  ℕ, zero, suc, ◌+◌, ◌^◌, ◌<◌, ◌≤◌, ◌≡◌, refl, sym, ap, ◌∙◌, false, ◌||◌, not, some, List, [], ◌∷◌,
  ◌++◌, ◌==◌, ltb, length, length-append, arith,
}
use lambda_os.Prelude.Word.{add32}
use lambda_os.Std.Memory.{Memory, Holds}
use lambda_os.Crypto.Lzop.{be32, output_size}

-- The data of all blocks.
abbrev pub joined : List (List ℕ) → List ℕ
joined [] = []
joined (d ∷ ds) = d ++ joined ds

-- The bytes that the blocks take, up to the size 0 that ends them.
abbrev pub blocks_length : List (List ℕ) → ℕ
blocks_length [] = 0
blocks_length (d ∷ ds) = 12 + length d + blocks_length ds

-- The blocks are at `p`.
abbrev pub StoredBlocks : Memory → ℕ → List (List ℕ) → Type 0
StoredBlocks m p [] = be32 m p ≡ 0
StoredBlocks m p (d ∷ ds) =
    (0 < length d)
    × (be32 m p ≡ length d)
    × (be32 m (p + 4) ≡ length d)
    × Holds m (p + 12) d
    × StoredBlocks m (p + 12 + length d) ds

-- The same bytes at two places, in two memories.
pub Holds-moved :
    (m m' : Memory) (p q : ℕ) (d : List ℕ)
    → ((i : ℕ) → i < length d → m' (q + i) ≡ m (p + i))
    → Holds m p d
    → Holds m' q d
Holds-moved m m' p q [] same h = tt
Holds-moved m m' p q (x ∷ d) same h =
    let here : (q + 0 ≡ q) × (p + 0 ≡ p) = omega arith in
    let first : m' q ≡ m p = ap m' (sym here.0) ∙ same 0 (omega arith) ∙ ap m here.1 in
    let later = λ (i : ℕ) (lt : i < length d).
      let there : (q + 1 + i ≡ q + (i + 1)) × (p + (i + 1) ≡ p + 1 + i) = omega arith in
      ap m' there.0 ∙ same (i + 1) (omega arith) ∙ ap m there.1 in
    (first ∙ h.0, Holds-moved m m' (p + 1) (q + 1) d later h.1)

pub Holds-append :
    (m : Memory) (p : ℕ) (d e : List ℕ)
    → Holds m p d
    → Holds m (p + length d) e
    → Holds m p (d ++ e)
Holds-append m p [] e h h' = let here : p + 0 ≡ p = omega arith in subst (λ q. Holds m q e) here h'
Holds-append m p (x ∷ d) e h h' =
    let there : p + suc (length d) ≡ p + 1 + length d = omega arith in
    (h.0, Holds-append m (p + 1) d e h.1 (subst (λ q. Holds m q e) there h'))

be32-same :
    (m m' : Memory) (p : ℕ) → ((i : ℕ) → i < 4 → m' (p + i) ≡ m (p + i)) → be32 m' p ≡ be32 m p
be32-same m m' p same =
    let here : p + 0 ≡ p = omega arith in
    let first : m' p ≡ m p = ap m' (sym here) ∙ same 0 (omega arith) ∙ ap m here in
    rw (first, same 1 (omega arith), same 2 (omega arith), same 3 (omega arith)) refl

-- The blocks are still there after a write elsewhere.
pub StoredBlocks-same :
    (m m' : Memory) (p : ℕ) (ds : List (List ℕ))
    → ((q : ℕ) → p ≤ q → q < p + blocks_length ds + 4 → m' q ≡ m q)
    → StoredBlocks m p ds
    → StoredBlocks m' p ds
StoredBlocks-same m m' p [] same s =
    be32-same m m' p (λ i lt. same (p + i) (omega arith) (omega arith)) ∙ s
StoredBlocks-same m m' p (d ∷ ds) same s =
    let (some_data, out, in_sz, bytes, rest) = s in
    (
      some_data,
      be32-same m m' p (λ i lt. same (p + i) (omega arith) (omega arith)) ∙ out,
      be32-same m m' (p + 4) (λ i lt. same (p + 4 + i) (omega arith) (omega arith)) ∙ in_sz,
      Holds-moved m m' (p + 12) (p + 12) d (λ i lt. same (p + 12 + i) (omega arith) (omega arith))
          bytes,
      StoredBlocks-same m m' (p + 12 + length d) ds
          (λ q low high. same q (omega arith) (omega arith)) rest,
    )

pub output_size_lem :
    (steps : ℕ) (m : Memory) (end p total : ℕ) (ds : List (List ℕ))
    → StoredBlocks m p ds
    → p + blocks_length ds < end
    → end < 2 ^ 32
    → total + length (joined ds) < 2 ^ 32
    → length ds < steps
    → output_size steps m end p total ≡ some (total + length (joined ds))
unfolding output_size
output_size_lem zero m end p total ds s room small fits enough = absurd (omega arith)
output_size_lem (suc f) m end p total [] s room small fits enough =
    let none_more : total + 0 ≡ total = omega arith in ground (arith, s, none_more)
output_size_lem (suc f) m end p total (d ∷ ds) s room small fits enough =
    let (some_data, out, in_sz, bytes, rest) = s in
    let there : add32 (p + 4) (add32 (be32 m (p + 4)) 8) ≡ p + 12 + length d =
      omega (arith, in_sz) in
    let sum : add32 total (be32 m p) ≡ total + length d =
      omega (arith, out, length-append d (joined ds)) in
    let all : total + length (d ++ joined ds) ≡ total + length d + length (joined ds) =
      omega (arith, length-append d (joined ds)) in
    let ih =
      output_size_lem f m end (p + 12 + length d) (total + length d) ds rest (omega arith) small
        (omega (arith, all)) (omega arith) in
    let goes : (not (ltb p end) || be32 m p == 0) ≡ false = ground (arith, out, some_data) in
    rw (goes, there, sum, all) ih
