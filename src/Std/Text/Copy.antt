-- ===== src/Std/Text/Copy.antt =====
-- What strcpy and strncpy leave at each address.
use native.Mathlib.Nat.{add_assoc, add-zero}
use lambda_os.Prelude.{
  ℕ, zero, suc, ◌+◌, ◌-◌, ◌<◌, ◌≤◌, ◌≡◌, ◌⊎◌, List, [], ◌∷◌, some, ltb, leb, ◌&&◌, if◌then◌else◌,
  arith, length,
}
use lambda_os.Std.Memory.{Memory, store, CString}
use lambda_os.Std.Text.{strcpy_loop, strcpy, strncpy_pad, strncpy_loop, strncpy}

-- A write that misses a string leaves it.
CString-store :
    (s : List ℕ) (m : Memory) (p q v : ℕ)
    → CString m p s
    → (q < p) ⊎ (p + length s < q)
    → CString (store m q v) p s
CString-store [] m p q v c clear = ground arith
CString-store (x ∷ s) m p q v c clear =
    (ground (arith, c.0), c.1, CString-store s m (p + 1) q v c.2 (omega arith))

strcpy_loop_lem :
    (s : List ℕ) (fuel : ℕ) (m : Memory) (dest src i : ℕ)
    → CString m (src + i) s
    → (dest ≤ src) ⊎ (src + i + length s < dest)
    → length s < fuel
    → (m' : Memory) × (strcpy_loop fuel m dest src i ≡ some m')
      × ((q : ℕ)
          → m' q ≡ (
              if leb (dest + i) q && leb q (dest + i + length s)
              then m (src + (q - dest))
              else m q))
unfolding strcpy_loop
strcpy_loop_lem s zero m dest src i c clear h = absurd (omega arith)
strcpy_loop_lem [] (suc f) m dest src i c clear h =
    (store m (dest + i) 0, ground (arith, c), λ q. ground (arith, c))
strcpy_loop_lem (x ∷ s) (suc f) m dest src i c clear h =
    let next : CString m (src + (i + 1)) s = rw (← add_assoc) c.2 in
    let kept = CString-store s m (src + (i + 1)) (dest + i) (m (src + i)) next (omega arith) in
    let (m', runs, at) =
      strcpy_loop_lem s f (store m (dest + i) (m (src + i))) dest src (i + 1) kept (omega arith)
        (omega arith) in
    (m', ground (arith, c.0, c.1, runs), λ q. ground (arith, at q))

-- If the destination does not begin inside the string at the source, and with fuel above its
-- length, strcpy returns; the destination then holds the string with its end, and all other
-- addresses what they held.
pub strcpy_lem :
    (s : List ℕ) (fuel : ℕ) (m : Memory) (dest src : ℕ)
    → CString m src s
    → (dest ≤ src) ⊎ (src + length s < dest)
    → length s < fuel
    → (m' : Memory) × (strcpy fuel m dest src ≡ some m')
      × ((q : ℕ)
          → m' q ≡ (if leb dest q && leb q (dest + length s) then m (src + (q - dest)) else m q))
unfolding strcpy
strcpy_lem s fuel m dest src c clear h =
    let (m', runs, at) = strcpy_loop_lem s fuel m dest src 0 (rw add-zero c) (omega arith) h in
    (m', runs, λ q. ground (arith, at q))

strncpy_pad_lem :
    (m : Memory) (dest i left q : ℕ)
    → strncpy_pad m dest i left q ≡ (if leb (dest + i) q && ltb q (dest + i + left) then 0 else m q)
unfolding strncpy_pad
strncpy_pad_lem m dest i zero q = ground arith
strncpy_pad_lem m dest i (suc left) q =
    ground (arith, strncpy_pad_lem (store m (dest + i) 0) dest (i + 1) left q)

-- The field of `left` bytes from `i` on: the string, cut off at the end of the field, and zeroes.
abbrev field_at : Memory → ℕ → ℕ → ℕ → ℕ → ℕ → ℕ → ℕ
field_at m dest src i left len q =
    if leb (dest + i) q && ltb q (dest + i + left)
    then if ltb q (dest + i + len) then m (src + (q - dest)) else 0
    else m q

strncpy_loop_lem :
    (s : List ℕ) (m : Memory) (dest src i left q : ℕ)
    → CString m (src + i) s
    → (dest ≤ src) ⊎ (src + i + length s < dest)
    → strncpy_loop m dest src i left q ≡ field_at m dest src i left (length s) q
unfolding strncpy_loop
strncpy_loop_lem s m dest src i zero q c clear = ground arith
strncpy_loop_lem [] m dest src i (suc left) q c clear =
    ground (arith, c, strncpy_pad_lem m dest i (suc left) q)
strncpy_loop_lem (x ∷ s) m dest src i (suc left) q c clear =
    let next : CString m (src + (i + 1)) s = rw (← add_assoc) c.2 in
    let kept = CString-store s m (src + (i + 1)) (dest + i) (m (src + i)) next (omega arith) in
    ground (
      arith,
      c.0,
      c.1,
      strncpy_loop_lem s (store m (dest + i) (m (src + i))) dest src (i + 1) left q kept
          (omega arith),
    )

-- If the destination does not begin inside the string at the source, strncpy leaves a field of
-- exactly n bytes that holds the string, cut off at the end of the field, and then zeroes, and all
-- other addresses what they held.
pub strncpy_lem :
    (s : List ℕ) (m : Memory) (dest src n q : ℕ)
    → CString m src s
    → (dest ≤ src) ⊎ (src + length s < dest)
    → strncpy m dest src n q ≡ (
        if leb dest q && ltb q (dest + n)
        then if ltb q (dest + length s) then m (src + (q - dest)) else 0
        else m q)
unfolding strncpy
strncpy_lem s m dest src n q c clear =
    ground (arith, strncpy_loop_lem s m dest src 0 n q (rw add-zero c) (omega arith))
