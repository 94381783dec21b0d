-- ===== src/Crypto/Lzop/Unpack.antt =====
-- What lzop_decompress makes of an archive of stored blocks.
use mathlib.Core.Path.{subst}
use lambda_os.Prelude.{
  sym, ℕ, zero, suc, ◌+◌, ◌^◌, ◌<◌, ◌≤◌, ◌≡◌, ◌≢◌, ◌⊎◌, inl, inr, refl, ◌∙◌, true, false, ◌||◌, not,
  some, List, [], ◌∷◌, ◌++◌, ◌==◌, ltb, length, length-append, arith,
}
use lambda_os.Prelude.Word.{add32}
use lambda_os.Std.Memory.{Memory, Holds, Apart}
use lambda_os.Std.Bytes.{memcpy}
use lambda_os.Std.Bytes.Copy.{memcpy-at, memcpy-outside}
use lambda_os.Crypto.Lzop.{
  be32, flag, flags_at, blocks_at, has_bytes, lzop_magic, done, next, lzop_round, Output, lzop_loop,
  lzop_decompress,
}
use lambda_os.Crypto.Lzop.Header.{Header, IsHeader, written, bit, flag-bit, header_read}
use lambda_os.Crypto.Lzop.Archive.{
  joined, blocks_length, StoredBlocks, Holds-moved, Holds-append, StoredBlocks-same,
  output_size_lem,
}

-- Memory with the data at `to`, and otherwise as `m`.
pub record Written (m m' : Memory) (to : ℕ) (data_ : List ℕ) : Type 0 where
  pub has : Holds m' to data_
  pub kept : (q : ℕ) → (q < to) ⊎ (to + length data_ ≤ q) → m' q ≡ m q

Written-append :
    (m m1 m2 : Memory) (to : ℕ) (d e : List ℕ)
    → Written m m1 to d
    → Written m1 m2 (to + length d) e
    → Written m m2 to (d ++ e)
Written-append m m1 m2 to d e w1 w2 =
    let long = length-append d e in
    record {
      has =
          Holds-append m2 to d e
            (Holds-moved m1 m2 to to d (λ i lt. w2.kept (to + i) (inl (omega arith))) w1.has)
            w2.has;
      kept = λ q out.
          w2.kept q
            (elim out [ inl low ↦ inl (omega arith) | inr high ↦ inr (omega (arith, high)) ])
          ∙ w1.kept q (elim out [ inl low ↦ inl low | inr high ↦ inr (omega (arith, high)) ]);
    }

memcpy-Written :
    (m : Memory) (to from : ℕ) (d : List ℕ)
    → (to ≤ from) ⊎ (from + length d ≤ to)
    → Holds m from d
    → Written m (memcpy m to from (length d)) to d
memcpy-Written m to from d clear h = record {
  has =
      Holds-moved m (memcpy m to from (length d)) from to d
        (λ i lt. memcpy-at m to from (length d) i clear lt) h;
  kept = λ q out. memcpy-outside m to from (length d) q out;
}

module _ (rounds fuel flags end : ℕ) (summed : (flag flags 0 || flag flags 8) ≡ true)
    (small : end < 2 ^ 32) where
  stored_round :
      (m : Memory) (inb outb : ℕ) (d : List ℕ) (ds : List (List ℕ))
      → StoredBlocks m inb (d ∷ ds)
      → inb + 12 + length d < end
      → outb + length d < 2 ^ 32
      → lzop_round rounds fuel flags m end inb outb
        ≡ next (memcpy m outb (inb + 12) (length d)) (inb + 12 + length d) (outb + length d)
  unfolding lzop_round
  stored_round m inb outb d ds s room fits =
      let (some_data, out, in_sz, bytes, rest) = s in
      let goes : (not (ltb inb end) || be32 m inb == 0) ≡ false = ground (arith, out, some_data) in
      let same : (be32 m inb == be32 m (inb + 4)) ≡ true = ground (arith, out, in_sz) in
      let there : add32 (inb + 12) (length d) ≡ inb + 12 + length d = omega arith in
      let after : add32 outb (length d) ≡ outb + length d = omega arith in
      rw (goes, same, summed, in_sz, out, there, after) refl

  last_round :
      (m : Memory) (inb outb : ℕ)
      → be32 m inb ≡ 0
      → lzop_round rounds fuel flags m end inb outb ≡ done m
  unfolding lzop_round
  last_round m inb outb s =
      let ends : (not (ltb inb end) || be32 m inb == 0) ≡ true = ground (arith, s) in rw ends refl

  lzop_loop_lem :
      (f : ℕ) (o : Output) (inb outb : ℕ) (ds : List (List ℕ))
      → StoredBlocks o.mem inb ds
      → inb + blocks_length ds < end
      → outb + length (joined ds) < 2 ^ 32
      → Apart outb (length (joined ds)) inb (blocks_length ds + 4)
      → length ds < f
      → (m' : Memory) × (lzop_loop f rounds fuel flags end o inb outb
          ≡ some (0, record o { mem = m' }))
        × Written o.mem m' outb (joined ds)
  unfolding lzop_loop
  lzop_loop_lem zero o inb outb ds s room fits apart enough = absurd (omega arith)
  lzop_loop_lem (suc f) o inb outb [] s room fits apart enough = (
    o.mem,
    rw (last_round o.mem inb outb s, lzop_loop) refl,
    record { has = tt; kept = λ q out. refl },
  )
  lzop_loop_lem (suc f) o inb outb (d ∷ ds) s room fits apart enough =
      let long = length-append d (joined ds) in
      let m1 = memcpy o.mem outb (inb + 12) (length d) in
      let w =
        memcpy-Written o.mem outb (inb + 12) d
          (elim apart [ inl low ↦ inl (omega (arith, low)) | inr high ↦ inr (omega (arith, high)) ])
          s.3 in
      let still =
        StoredBlocks-same o.mem m1 (inb + 12 + length d) ds
          (λ q low high. w.kept q (elim apart [
            | inl below ↦ inr (omega (arith, below, low, long))
            | inr above ↦ inl (omega (arith, above, high))
          ]))
          s.4 in
      let (m2, runs, w2) =
        lzop_loop_lem f (record o { mem = m1 }) (inb + 12 + length d) (outb + length d) ds still
          (omega arith) (omega (arith, long))
          (elim apart [
            | inl below ↦ inl (omega (arith, below, long))
            | inr above ↦ inr (omega (arith, above))
          ])
          (omega arith) in
      (
        m2,
        rw (stored_round o.mem inb outb d ds s (omega arith) (omega (arith, long)), lzop_loop) runs,
        Written-append o.mem m1 m2 outb d (joined ds) w w2,
      )

-- What the code finds in the archive.
record IsFound (m : Memory) (input input_len : ℕ) (ds : List (List ℕ)) : Type 0 where
  least : 9 ≤ input_len
  low : input + input_len < 2 ^ 32
  magic : has_bytes m input lzop_magic ≡ true
  summed : (flag (be32 m (flags_at m input)) 0 || flag (be32 m (flags_at m input)) 8) ≡ true
  blocks : StoredBlocks m (blocks_at m input) ds
  inside : blocks_at m input + blocks_length ds < input + input_len

-- What was found is unpacked.
unpack_found :
    (kmalloc : ℕ → ℕ) (steps rounds fuel input input_len : ℕ) (o : Output) (ds : List (List ℕ))
    → IsFound o.mem input input_len ds
    → kmalloc (length (joined ds)) ≢ 0
    → kmalloc (length (joined ds)) + length (joined ds) < 2 ^ 32
    → Apart
        (kmalloc (length (joined ds)))
        (length (joined ds))
        (blocks_at o.mem input)
        (blocks_length ds + 4)
    → length ds < steps
    → (m' : Memory) × (lzop_decompress kmalloc steps rounds fuel input input_len o
        ≡ some (
          0,
          record { mem = m'; output = kmalloc (length (joined ds)); len = length (joined ds) },
        ))
      × Written o.mem m' (kmalloc (length (joined ds))) (joined ds)
unfolding lzop_decompress
unpack_found kmalloc steps rounds fuel input input_len o ds a got fits apart enough =
    let to = kmalloc (length (joined ds)) in
    let o1 : Output = record o { output = to; len = length (joined ds) } in
    let measured =
      output_size_lem steps o.mem (input + input_len) (blocks_at o.mem input) 0 ds a.blocks a.inside
        a.low (omega arith) enough in
    let sum : 0 + length (joined ds) ≡ length (joined ds) = omega arith in
    let (m', runs, w) =
      lzop_loop_lem rounds fuel (be32 o.mem (flags_at o.mem input)) (input + input_len) a.summed
        a.low steps o1 (blocks_at o.mem input) to ds a.blocks a.inside fits apart enough in
    let long : (ltb input_len 9 || not (has_bytes o.mem input lzop_magic)) ≡ false =
      ground (arith, a.least, a.magic) in
    let there : (to == 0) ≡ false = ground (arith, got) in
    (m', rw (long, measured, sum, there) runs, w)

-- An archive with this header and these blocks in `input_len` bytes at `input`: each block has one
-- checksum, of its data, behind its sizes.
pub record IsArchive (m : Memory) (input input_len : ℕ) (h : Header) (ds : List (List ℕ))
    : Type 0 where
  pub low : input + input_len < 2 ^ 32
  pub sizes : IsHeader h
  pub header : Holds m input (written h)
  pub summed : (bit h.flags 0 || bit h.flags 8) ≡ true
  pub blocks : StoredBlocks m (input + length (written h)) ds
  pub inside : length (written h) + blocks_length ds < input_len

IsArchive-IsFound :
    (m : Memory) (input input_len : ℕ) (h : Header) (ds : List (List ℕ))
    → IsArchive m input input_len h ds
    → IsFound m input input_len ds × (blocks_at m input ≡ input + length (written h))
IsArchive-IsFound m input input_len h ds a =
    let (flags, from, magic) =
      header_read m input h a.sizes a.header (omega (arith, a.low, a.inside)) in
    (
      record {
        least = omega (arith, a.inside);
        low = a.low;
        magic = magic;
        summed = rw (flags, flag-bit h.flags 0, flag-bit h.flags 8) a.summed;
        blocks = subst (λ p. StoredBlocks m p ds) (sym from) a.blocks;
        inside = omega (arith, from, a.inside);
      },
      from,
    )

-- If the bytes of the input are a header of lzop, with its optional parts as its version and its
-- flags say and with one checksum for the data, and behind it stored blocks with one checksum
-- each, all below 2 ^ 32 and inside the input, kmalloc gives memory for the data of all blocks
-- that does not meet the blocks, and the fuel of the loops is above the number of blocks, then
-- lzop_decompress returns 0 with this memory and the length of the data, has written the data of
-- the blocks to it in order, and nothing elsewhere.
pub lzop_decompress_stored :
    (kmalloc : ℕ → ℕ) (steps rounds fuel input input_len : ℕ) (o : Output) (h : Header)
    (ds : List (List ℕ))
    → IsArchive o.mem input input_len h ds
    → kmalloc (length (joined ds)) ≢ 0
    → kmalloc (length (joined ds)) + length (joined ds) < 2 ^ 32
    → Apart
        (kmalloc (length (joined ds)))
        (length (joined ds))
        (input + length (written h))
        (blocks_length ds + 4)
    → length ds < steps
    → (m' : Memory) × (lzop_decompress kmalloc steps rounds fuel input input_len o
        ≡ some (
          0,
          record { mem = m'; output = kmalloc (length (joined ds)); len = length (joined ds) },
        ))
      × Written o.mem m' (kmalloc (length (joined ds))) (joined ds)
lzop_decompress_stored kmalloc steps rounds fuel input input_len o h ds a got fits apart enough =
    let (found, from) = IsArchive-IsFound o.mem input input_len h ds a in
    let len = length (joined ds) in
    let clear = subst (λ p. Apart (kmalloc len) len p (blocks_length ds + 4)) (sym from) apart in
    unpack_found kmalloc steps rounds fuel input input_len o ds found got fits clear enough
