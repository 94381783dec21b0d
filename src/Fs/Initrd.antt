-- ===== src/Fs/Initrd.antt =====
-- Reading a file of the initial RAM disk, _read of kernel/src/fs/initrd.c.
use lambda_os.Prelude.{
  ℕ, ◌+◌, ◌-◌, ◌^◌, ◌<◌, ◌≤◌, ◌≡◌, ◌≢◌, ◌⊎◌, ◌||◌, Option, none, some, ◌==◌, ltb, leb,
  if◌then◌else◌, inl, inr, Bool-cases, refl, false, arith,
}
use lambda_os.Prelude.Word.{add32, sub32}
use lambda_os.Std.Memory.{Memory, Apart}
use lambda_os.Std.Bytes.{memcpy}
use lambda_os.Std.Bytes.Copy.{memcpy-at}

-- What reading uses of a file: the address of its data, with 0 for NULL, and its length.
pub record RdFile : Type 0 where
  pub info : ℕ
  pub length : ℕ

-- `len`
abbrev pub read_length : ℕ → ℕ → ℕ → ℕ
read_length length off sz = if ltb length (add32 sz off) then sub32 length off else sz

-- `_read`: the result and the memory. The file is `none` where the handle has none.
pub initrd_read : Memory → Option RdFile → ℕ → ℕ → ℕ → ℕ × Memory
initrd_read m none off sz buff = (0, m)
initrd_read m (some f) off sz buff =
    let len = read_length f.length off sz in
    if f.info == 0 || leb f.length off then (0, m) else (len, memcpy m buff (f.info + off) len)

-- If a file of the RAM disk has data, the offset is before its end, the size and the offset do not
-- pass 2 ^ 32, and the buffer does not meet the rest of the data, then reading gives the smaller
-- of the size and the bytes that are left, and these bytes from the offset on are in the buffer.
pub initrd_read_lem :
    (m : Memory) (f : RdFile) (off sz buff : ℕ)
    → f.info ≢ 0
    → off < f.length
    → f.length < 2 ^ 32
    → sz + off < 2 ^ 32
    → Apart buff sz (f.info + off) (f.length - off)
    → let (len, m') = initrd_read m (some f) off sz buff in
      (len ≤ sz)
      × (len + off ≤ f.length)
      × ((len ≡ sz) ⊎ (len + off ≡ f.length))
      × ((i : ℕ) → i < len → m' (buff + i) ≡ m (f.info + off + i))
unfolding initrd_read
initrd_read_lem m f off sz buff has before word fits apart =
    let goes : (f.info == 0 || leb f.length off) ≡ false = ground (arith, has, before) in
    let n = read_length f.length off sz in
    let clear : (buff ≤ f.info + off) ⊎ (f.info + off + n ≤ buff) = elim apart [
      | inl below ↦ inl (omega (arith, below))
      | inr above ↦ inr (ground (arith, above, before, fits))
    ] in
    rw goes (
      ground (arith, before, fits),
      ground (arith, before, fits),
      elim (Bool-cases (ltb f.length (add32 sz off))) [
        | inl cut ↦ inr (rw cut (omega (arith, before, word)))
        | inr whole ↦ inl (rw whole refl)
      ],
      λ i lt. memcpy-at m buff (f.info + off) n i clear lt,
    )

-- If the sum of the size and the offset passes 2 ^ 32 by no more than the length of the file,
-- reading before the end of a file with data gives as many bytes as asked for, which is past the
-- end of the file.
pub initrd_read_overruns :
    (m : Memory) (f : RdFile) (off sz buff : ℕ)
    → f.info ≢ 0
    → off < f.length
    → sz < 2 ^ 32
    → 2 ^ 32 ≤ sz + off
    → sz + off ≤ 2 ^ 32 + f.length
    → f.length < 2 ^ 32
    → ((initrd_read m (some f) off sz buff).0 ≡ sz) × (f.length < sz + off)
unfolding initrd_read
initrd_read_overruns m f off sz buff has before word wraps small short =
    let goes : (f.info == 0 || leb f.length off) ≡ false = ground (arith, has, before) in
    rw goes (ground (arith, before, wraps, small), omega (arith, before, wraps, small, short))
