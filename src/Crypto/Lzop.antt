-- ===== src/Crypto/Lzop.antt =====
-- The container of kernel/src/crypto/comp/lzop.c, lzop_decompress, over its blocks in Crypto.Lzo.
pub mod Archive
pub mod Header
pub mod Unpack
mod Tests
use lambda_os.Prelude.{
  ℕ, zero, suc, ◌+◌, ◌*◌, ◌/◌, ◌%◌, ◌^◌, Bool, true, false, ◌||◌, ◌&&◌, not, Option, none, some,
  List, [], ◌∷◌, ◌==◌, ltb, leb, if◌then◌else◌,
}
use lambda_os.Prelude.Word.{eunspec, neg, add32}
use lambda_os.Std.Memory.{Memory}
use lambda_os.Std.Bytes.{memcpy}
use lambda_os.Crypto.Lzo.{Block, lzo1x_decompress_block}

abbrev pub enomem : ℕ
enomem = 12

-- BE16 and BE32
abbrev pub be16 : Memory → ℕ → ℕ
be16 m p = m p * 2 ^ 8 + m (p + 1)

abbrev pub be32 : Memory → ℕ → ℕ
be32 m p = m p * 2 ^ 24 + m (p + 1) * 2 ^ 16 + m (p + 2) * 2 ^ 8 + m (p + 3)

abbrev pub lzop_magic : List ℕ
lzop_magic = 0x89 ∷ 76 ∷ 90 ∷ 79 ∷ 0x00 ∷ 0x0d ∷ 0x0a ∷ 0x1a ∷ 0x0a ∷ []

-- Does memcmp with the bytes of the list give 0?
pub has_bytes : Memory → ℕ → List ℕ → Bool
has_bytes m p [] = true
has_bytes m p (x ∷ xs) = (m p == x) && has_bytes m (p + 1) xs

-- Is the bit set? 0 and 8 are the checksums of the data, 1 and 9 those of compressed data, 6 is the
-- extra field, 11 the filter.
abbrev pub flag : ℕ → ℕ → Bool
flag flags k = not (flags / 2 ^ k % 2 == 0)

-- Where the flags are.
abbrev pub flags_at : Memory → ℕ → ℕ
flags_at m input = if leb 0x0940 (be16 m (input + 9)) then input + 17 else input + 16

-- Where the blocks begin.
abbrev pub blocks_at : Memory → ℕ → ℕ
blocks_at m input =
    let flags = be32 m (flags_at m input) in
    let filter = flags_at m input + 4 in
    let name = (if flag flags 11 then filter + 4 else filter) + 12 in
    let extra = name + (1 + m name) + 4 in
    if flag flags 6 then add32 extra (add32 (be32 m extra) 8) else extra

-- The loop that adds up the sizes; `none` is out of fuel.
pub output_size : ℕ → Memory → ℕ → ℕ → ℕ → Option ℕ
output_size zero m end ptr total = none
output_size (suc f) m end ptr total =
    let sz = be32 m ptr in
    let rest =
      output_size f m end (add32 (ptr + 4) (add32 (be32 m (ptr + 4)) 8)) (add32 total sz) in
    if not (ltb ptr end) || sz == 0 then some total else rest

-- What a round of the second loop comes to: the end, an error, the next round, or no fuel.
pub data Round : Type 0 where
  done : Memory → Round
  failed : ℕ → Memory → Round
  next : Memory → ℕ → ℕ → Round
  out_of_fuel : Round

-- How a compressed block ends; a wrong size is no error.
abbrev pub block_round : Block → ℕ → ℕ → Round
block_round b inb outb =
    if not b.ended
    then out_of_fuel
    else if b.code == 0
    then next b.mem inb outb
    else failed b.code b.mem

-- One round, of the block at `inb`. `rounds` and `fuel` are those of the block.
pub lzop_round : ℕ → ℕ → ℕ → Memory → ℕ → ℕ → ℕ → Round
lzop_round rounds fuel flags m end inb outb =
    let out_sz = be32 m inb in
    let in_sz = be32 m (inb + 4) in
    let data_at = if flag flags 0 || flag flags 8 then inb + 12 else inb + 8 in
    let packed_at = if flag flags 1 || flag flags 9 then data_at + 4 else data_at in
    let packed = lzo1x_decompress_block rounds fuel m packed_at in_sz outb out_sz in
    if not (ltb inb end) || out_sz == 0
    then done m
    else if out_sz == in_sz
    then next (memcpy m outb data_at in_sz) (add32 data_at in_sz) (add32 outb out_sz)
    else block_round packed (add32 packed_at in_sz) (add32 outb out_sz)

-- The memory, `*output` with 0 for NULL, and `*output_len`.
pub record Output : Type 0 where
  pub mem : Memory
  pub output : ℕ
  pub len : ℕ

-- The second loop.
pub lzop_loop : ℕ → ℕ → ℕ → ℕ → ℕ → Output → ℕ → ℕ → Option (ℕ × Output)
unfolding lzop_round
lzop_loop zero rounds fuel flags end o inb outb = none
lzop_loop (suc f) rounds fuel flags end o inb outb =
    elim (lzop_round rounds fuel flags o.mem end inb outb) [
      | done m ↦ some (0, record o { mem = m })
      | failed code m ↦ some (code, record { mem = m; output = 0; len = 0 })
      | next m inb' outb' ↦ lzop_loop f rounds fuel flags end (record o { mem = m }) inb' outb'
      | out_of_fuel ↦ none
    ]

-- `lzop_decompress`. `kmalloc` is the address that kmalloc returns, 0 for NULL; `steps` is the fuel
-- of the two loops.
pub lzop_decompress : (ℕ → ℕ) → ℕ → ℕ → ℕ → ℕ → ℕ → Output → Option (ℕ × Output)
unfolding lzop_loop output_size has_bytes
lzop_decompress kmalloc steps rounds fuel input input_len o =
    let flags = be32 o.mem (flags_at o.mem input) in
    let from = blocks_at o.mem input in
    let end = input + input_len in
    let unpack : ℕ → Option (ℕ × Output) = λ len.
      if kmalloc len == 0
      then some (neg enomem, record o { output = 0; len = len })
      else lzop_loop steps rounds fuel flags end (record o { output = kmalloc len; len = len }) from
          (kmalloc len) in
    if ltb input_len 9 || not (has_bytes o.mem input lzop_magic)
    then some (neg eunspec, o)
    else elim (output_size steps o.mem end from 0) [ none ↦ none | some len ↦ unpack len ]
