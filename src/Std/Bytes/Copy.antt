-- ===== src/Std/Bytes/Copy.antt =====
-- What memcpy, memmove and memset leave at each address.
use lambda_os.Prelude.{
  refl, ◌<◌, ℕ, zero, suc, ◌+◌, ◌-◌, ◌%◌, ◌^◌, ◌≤◌, ◌≡◌, ◌⊎◌, ltb, leb, ◌&&◌, if◌then◌else◌, arith,
}
use lambda_os.Std.Memory.{Memory, store}
use lambda_os.Std.Bytes.{memcpy, copy_down, memmove, memset}

-- Memory after a copy of the `n` bytes at `src` to `dest`.
abbrev pub copied : Memory → ℕ → ℕ → ℕ → Memory
copied m dest src n q = if leb dest q && ltb q (dest + n) then m (src + (q - dest)) else m q

pub memcpy-copied :
    (m : Memory) (dest src n q : ℕ)
    → (dest ≤ src) ⊎ (src + n ≤ dest)
    → memcpy m dest src n q ≡ copied m dest src n q
unfolding memcpy
memcpy-copied m dest src zero q clear = ground arith
memcpy-copied m dest src (suc n) q clear =
    ground (arith, memcpy-copied (store m dest (m src)) (dest + 1) (src + 1) n q)

-- The bytes that were copied.
pub memcpy-at :
    (m : Memory) (dest src n i : ℕ)
    → (dest ≤ src) ⊎ (src + n ≤ dest)
    → i < n
    → memcpy m dest src n (dest + i) ≡ m (src + i)
memcpy-at m dest src n i clear lt =
    let off : dest + i - dest ≡ i = omega arith in
    ground (arith, memcpy-copied m dest src n (dest + i) clear, off)

copy_down-copied :
    (m : Memory) (dest src n q : ℕ) → src ≤ dest → copy_down m dest src n q ≡ copied m dest src n q
unfolding copy_down
copy_down-copied m dest src zero q clear = ground arith
copy_down-copied m dest src (suc n) q clear =
    ground (arith, copy_down-copied (store m (dest + n) (m (src + n))) dest src n q clear)

-- After memmove each address of the destination holds the byte that the source had there before,
-- and each other address what it held, however the two overlap.
pub memmove-copied :
    (m : Memory) (dest src n q : ℕ) → memmove m dest src n q ≡ copied m dest src n q
unfolding memmove
memmove-copied m dest src n q =
    ground (arith, memcpy-copied m dest src n q, copy_down-copied m dest src n q)

-- Where the destination does not begin after the source and before its end, memcpy leaves what
-- memmove leaves.
pub memcpy-memmove :
    (m : Memory) (dest src n q : ℕ)
    → (dest ≤ src) ⊎ (src + n ≤ dest)
    → memcpy m dest src n q ≡ memmove m dest src n q
memcpy-memmove m dest src n q clear =
    omega (arith, memcpy-copied m dest src n q clear, memmove-copied m dest src n q)

-- After memset the bytes of the block are the low byte of the value, and all others as before.
pub memset_lem :
    (m : Memory) (s c n q : ℕ)
    → memset m s c n q ≡ (if leb s q && ltb q (s + n) then c % 2 ^ 8 else m q)
unfolding memset
memset_lem m s c zero q = ground arith
memset_lem m s c (suc n) q = ground (arith, memset_lem (store m s (c % 2 ^ 8)) (s + 1) c n q)

-- A copy leaves what is outside its destination.
pub memcpy-outside :
    (m : Memory) (dest src n q : ℕ) → (q < dest) ⊎ (dest + n ≤ q) → memcpy m dest src n q ≡ m q
unfolding memcpy
memcpy-outside m dest src zero q out = refl
memcpy-outside m dest src (suc n) q out =
    ground (arith, memcpy-outside (store m dest (m src)) (dest + 1) (src + 1) n q)

-- memset leaves what is outside its block.
pub memset-outside : (m : Memory) (s c n q : ℕ) → (q < s) ⊎ (s + n ≤ q) → memset m s c n q ≡ m q
memset-outside m s c n q out = ground (arith, memset_lem m s c n q, out)
