-- ===== src/Crypto/Lzo.antt =====
-- The LZO1X block decompressor of kernel/src/crypto/comp/lzop.c, over the memory of Std. A pointer is
-- an address, and the difference of two has the 32 bits of a size_t. The loops run on fuel.
pub mod Step
pub mod Inside
pub mod Stored
pub mod Overread
mod Tests
use lambda_os.Prelude.{
  ℕ, zero, suc, ◌+◌, ◌-◌, ◌*◌, ◌/◌, ◌%◌, ◌^◌, Bool, true, false, ◌||◌, not, ◌==◌, ltb, leb,
  if◌then◌else◌,
}
use lambda_os.Prelude.Word.{eunspec, neg, add32, sub32}
use lambda_os.Std.Memory.{Memory}
use lambda_os.Std.Bytes.{memcpy}

-- What the block is read from and written to: `in_end`, `output` and `out_end`.
pub record Bounds : Type 0 where
  pub in_end : ℕ
  pub output : ℕ
  pub out_end : ℕ

-- The variables of the loop, and the memory.
pub record Lzo : Type 0 where
  pub mem : Memory
  pub inb : ℕ
  pub outb : ℕ
  pub state : ℕ

-- How a part of the code ends: the loop goes on, `break` with the value of `temp`, an error, no fuel.
pub data Verdict : Type 0 where
  more : Lzo → Verdict
  stop : ℕ → Lzo → Verdict
  fail : Lzo → Verdict
  out_of_fuel : Lzo → Verdict

-- CHECK_IN_LEFT, CHECK_OUT_LEFT and CHECK_LB: is the check passed?
abbrev pub in_left : Bounds → Lzo → ℕ → Bool
in_left k s c = leb c (sub32 k.in_end s.inb)

abbrev pub out_left : Bounds → Lzo → ℕ → Bool
out_left k s c = leb c (sub32 k.out_end s.outb)

abbrev pub look_back : Bounds → Lzo → ℕ → Bool
look_back k s lb = leb k.output (sub32 s.outb lb)

-- MAX_255_COUNT
abbrev pub max_255_count : ℕ
max_255_count = (2 ^ 32 - 1) / 255 - 2

-- The label `skip_lookbehind`: `next` bytes of the input are copied.
pub copy_next : Bounds → Lzo → ℕ → Verdict
copy_next k s next =
    if not (in_left k s (next + 3)) || not (out_left k s next)
    then fail s
    else more (record {
      mem = memcpy s.mem s.outb s.inb next;
      inb = s.inb + next;
      outb = s.outb + next;
      state = next;
    })

-- The copy of `temp` bytes of the output from `lb` bytes before its end.
pub copy_back : Bounds → Lzo → ℕ → ℕ → ℕ → Verdict
unfolding copy_next
copy_back k s lb temp next =
    let s' : Lzo = record s {
      mem = memcpy s.mem s.outb (sub32 s.outb lb) temp;
      outb = s.outb + temp;
    } in
    if not (look_back k s lb) || not (out_left k s temp) then fail s else copy_next k s' next

-- The label `copy_verbatim`.
pub copy_verbatim : Bounds → Lzo → ℕ → Verdict
copy_verbatim k s temp =
    if not (in_left k s (add32 temp 3)) || not (out_left k s temp)
    then fail s
    else more (record {
      mem = memcpy s.mem s.outb s.inb temp;
      inb = s.inb + temp;
      outb = s.outb + temp;
      state = 4;
    })

-- The loop of SKIP_AND_COUNT_ZEROES with `n` zeroes behind it. The byte is read before the check.
-- `next` is what follows with the number of zeroes.
pub skip_zeroes : ℕ → Bounds → Lzo → ℕ → (ℕ → Lzo → Verdict) → Verdict
skip_zeroes zero k s n next = out_of_fuel s
skip_zeroes (suc f) k s n next =
    let rest = skip_zeroes f k (record s { inb = s.inb + 1 }) (n + 1) next in
    let counted = if ltb max_255_count n then fail s else next n s in
    if s.mem s.inb == 0 then if in_left k s 1 then rest else fail s else counted

-- `SKIP_AND_COUNT_ZEROES() + base + *inb++`, and what follows.
pub long_count : ℕ → Bounds → Lzo → ℕ → (ℕ → Lzo → Verdict) → Verdict
unfolding skip_zeroes
long_count fuel k s base next =
    skip_zeroes fuel k s 0
      λ n s'. next (add32 (add32 (n * 255) base) (s'.mem s'.inb)) (record s' { inb = s'.inb + 1 })

abbrev pub le16 : Memory → ℕ → ℕ
le16 m p = m p + m (p + 1) * 2 ^ 8

-- `temp < 16`
pub short_code : ℕ → Bounds → Lzo → ℕ → Verdict
unfolding copy_back copy_verbatim long_count
short_code fuel k s temp =
    let s' : Lzo = record s { inb = s.inb + 1 } in
    let byte = s.mem s.inb in
    if s.state == 0
    then if temp == 0
      then long_count fuel k s 15 (λ count s''. copy_verbatim k s'' (add32 count 3))
      else copy_verbatim k s (temp + 3)
    else if s.state == 4
    then copy_back k s' (1 + 0x0800 + temp / 4 + byte * 4) 3 (temp % 4)
    else copy_back k s' (1 + temp / 4 + byte * 4) 2 (temp % 4)

-- `16 <= temp < 32`, with the count in `count`: the end of the block, or a far copy.
pub far_code : Bounds → ℕ → ℕ → Lzo → Verdict
unfolding copy_back
far_code k high count s =
    let next = le16 s.mem s.inb in
    let s' : Lzo = record s { inb = s.inb + 2 } in
    let lb = high + next / 4 in
    if not (in_left k s 2)
    then fail s
    else if lb == 0
    then stop count s'
    else copy_back k s' (lb + 0x4000) count (next % 4)

-- `32 <= temp < 64`, with the count.
pub near_code : Bounds → ℕ → Lzo → Verdict
unfolding copy_back
near_code k count s =
    let next = le16 s.mem s.inb in
    if not (in_left k s 2)
    then fail s
    else copy_back k (record s { inb = s.inb + 2 }) (1 + next / 4) count (next % 4)

-- One round of the loop.
pub lzo_step : ℕ → Bounds → Lzo → Verdict
unfolding short_code far_code near_code
lzo_step fuel k s =
    let temp = s.mem s.inb in
    let s' : Lzo = record s { inb = s.inb + 1 } in
    let high = temp / 8 % 2 * 2 ^ 14 in
    if ltb temp 16
    then short_code fuel k s' temp
    else if ltb temp 32
    then if temp % 8 == 0
      then long_count fuel k s' 7 (λ count s''. far_code k high (add32 2 count) s'')
      else far_code k high (temp % 8 + 2) s'
    else if ltb temp 64
    then if temp % 32 == 0
      then long_count fuel k s' 31 (λ count s''. near_code k (add32 2 count) s'')
      else near_code k (temp % 32 + 2) s'
    else copy_back k (record s' { inb = s'.inb + 1 }) (1 + temp / 4 % 8 + s'.mem s'.inb * 8)
        (temp / 32 + 1) (temp % 4)

-- The loop, from a verdict on what came before it.
pub lzo_loop : ℕ → ℕ → Bounds → Verdict → Verdict
unfolding lzo_step
lzo_loop zero fuel k (more s) = out_of_fuel s
lzo_loop (suc f) fuel k (more s) = lzo_loop f fuel k (lzo_step fuel k s)
lzo_loop f fuel k (stop temp s) = stop temp s
lzo_loop f fuel k (fail s) = fail s
lzo_loop f fuel k (out_of_fuel s) = out_of_fuel s

-- What stands before the loop.
pub lzo_start : Bounds → Lzo → Verdict
unfolding copy_next copy_verbatim
lzo_start k s =
    let first = s.mem s.inb in
    let s' : Lzo = record s { inb = s.inb + 1 } in
    if first == 17
    then fail s
    else if ltb 17 first
    then if ltb (first - 17) 4 then copy_next k s' (first - 17) else copy_verbatim k s' (first - 17)
    else more s

-- The result of a block: the code, the memory, and `*output_len` where it is 0. `none` is no fuel.
pub record Block : Type 0 where
  pub code : ℕ
  pub mem : Memory
  pub len : ℕ
  pub ended : Bool

abbrev pub block_result : Bounds → ℕ → Verdict → Block
block_result k len (more s) = record { code = 0; mem = s.mem; len = len; ended = false }
block_result k len (out_of_fuel s) = record { code = 0; mem = s.mem; len = len; ended = false }
block_result k len (fail s) = record { code = neg eunspec; mem = s.mem; len = len; ended = true }
block_result k len (stop temp s) =
    if not (temp == 3) || ltb s.inb k.in_end
    then record { code = neg eunspec; mem = s.mem; len = len; ended = true }
    else record { code = 0; mem = s.mem; len = s.outb - k.output; ended = true }

pub lzo1x_decompress_block : ℕ → ℕ → Memory → ℕ → ℕ → ℕ → ℕ → Block
unfolding lzo_loop lzo_start
lzo1x_decompress_block rounds fuel m input input_len output output_len =
    let k : Bounds = record {
      in_end = input + input_len;
      output = output;
      out_end = output + output_len;
    } in
    let s : Lzo = record { mem = m; inb = input; outb = output; state = 0 } in
    if ltb input_len 3
    then record { code = neg eunspec; mem = m; len = output_len; ended = true }
    else block_result k output_len (lzo_loop rounds fuel k (lzo_start k s))
