-- ===== src/Crypto/Lzo/Overread.antt =====
-- A run of zeroes up to the end of the input takes the decompressor past it.
use native.Mathlib.Nat.{add-zero}
use lambda_os.Prelude.{
  not-ltb_of_le, le→leb, ap₂, ℕ, zero, suc, ◌+◌, ◌*◌, ◌^◌, ◌<◌, ◌≤◌, ◌≡◌, ◌≢◌, refl, sym, ap, ◌∙◌,
  true, false, false, ◌==◌, ltb, arith,
}
use lambda_os.Prelude.Word.{add32, sub32}
use lambda_os.Std.Memory.{Memory}
use lambda_os.Std.Bytes.{memcpy}
use lambda_os.Crypto.Lzo.{
  Bounds, Lzo, Verdict, more, in_left, out_left, max_255_count, copy_verbatim, skip_zeroes,
  long_count, short_code, lzo_step, lzo_loop, lzo_start, block_result, lzo1x_decompress_block,
}

-- The bytes from `p` on are `d` zeroes.
abbrev pub Zeroes : Memory → ℕ → ℕ → Type 0
Zeroes m p zero = Unit
Zeroes m p (suc d) = (m p ≡ 0) × Zeroes m (p + 1) d

abbrev at : Lzo → ℕ → Lzo
at s i = record s { inb = i }

-- A run of zeroes in the input is counted.
skip_zeroes-run :
    (d fuel : ℕ) (k : Bounds) (s : Lzo) (n : ℕ) (next : ℕ → Lzo → Verdict)
    → Zeroes s.mem s.inb d
    → s.mem (s.inb + d) ≢ 0
    → s.inb + d ≤ k.in_end
    → k.in_end < 2 ^ 32
    → n + d ≤ max_255_count
    → d < fuel
    → skip_zeroes fuel k s n next ≡ next (n + d) (at s (s.inb + d))
unfolding skip_zeroes
skip_zeroes-run d zero k s n next z stop_at in_block small few f = absurd (omega arith)
skip_zeroes-run zero (suc fuel) k s n next z stop_at in_block small few f =
    let byte : (s.mem s.inb == 0) ≡ false = ground (arith, ap s.mem (add-zero s.inb)) in
    let enough : ltb max_255_count n ≡ false = not-ltb_of_le max_255_count n (omega arith) in
    rw (byte, enough) (sym (ap₂ (λ c i. next c (at s i)) (add-zero n) (add-zero s.inb)))
skip_zeroes-run (suc d) (suc fuel) k s n next z stop_at in_block small few f =
    let byte : (s.mem s.inb == 0) ≡ true = ground (arith, z.0) in
    let left : in_left k s 1 ≡ true = le→leb 1 (sub32 k.in_end s.inb) (omega arith) in
    let place : s.inb + 1 + d ≡ s.inb + suc d = omega arith in
    let count : n + 1 + d ≡ n + suc d = omega arith in
    let stop_at' = λ (e : s.mem (s.inb + 1 + d) ≡ 0). stop_at (sym (ap s.mem place) ∙ e) in
    rw (byte, left)
      (skip_zeroes-run d fuel k (at s (s.inb + 1)) (n + 1) next z.1 stop_at' (omega arith) small
          (omega arith) (omega arith)
        ∙ ap₂ (λ c i. next c (at s i)) count place)

-- Behind the input the check of what is left of it passes.
verbatim_past :
    (k : Bounds) (s : Lzo) (count : ℕ)
    → s.inb ≡ k.in_end + 1
    → s.inb < 2 ^ 32
    → count + 4 < 2 ^ 32
    → s.outb + count ≤ k.out_end
    → k.out_end < 2 ^ 32
    → copy_verbatim k s count
      ≡ more (record {
        mem = memcpy s.mem s.outb s.inb count;
        inb = s.inb + count;
        outb = s.outb + count;
        state = 4;
      })
unfolding copy_verbatim
verbatim_past k s count past low few room high =
    let in_check : in_left k s (add32 count 3) ≡ true = le→leb _ _ (omega arith) in
    let out_check : out_left k s count ≡ true = le→leb _ _ (omega arith) in
    rw (in_check, out_check) refl

abbrev block_of : ℕ → ℕ → ℕ → ℕ → Bounds
block_of input n output len = record {
  in_end = input + suc n;
  output = output;
  out_end = output + len;
}

abbrev before : Memory → ℕ → ℕ → Lzo
before m input output = record { mem = m; inb = input; outb = output; state = 0 }

-- What a run of `n` zeroes and the byte behind it count for.
abbrev pub run_length : ℕ → ℕ → ℕ
run_length n byte = n * 255 + 15 + byte + 3

zero_step :
    (m : Memory) (input n output len fuel : ℕ)
    → m input ≡ 0
    → lzo_step fuel (block_of input n output len) (before m input output)
      ≡ long_count fuel
          (block_of input n output len)
          (before m (input + 1) output)
          15
          (λ count s. copy_verbatim (block_of input n output len) s (add32 count 3))
unfolding lzo_step short_code
zero_step m input n output len fuel first = rw first refl

-- The first round goes on behind the end of the input.
first_round_overreads :
    (m : Memory) (input n output len rounds fuel : ℕ)
    → Zeroes m input (suc n)
    → m (input + suc n) ≢ 0
    → n ≤ max_255_count
    → n < fuel
    → input + suc n + 1 < 2 ^ 32
    → output + len < 2 ^ 32
    → run_length n (m (input + suc n)) + 4 < 2 ^ 32
    → run_length n (m (input + suc n)) ≤ len
    → lzo_loop
        (suc rounds)
        fuel
        (block_of input n output len)
        (lzo_start (block_of input n output len) (before m input output))
      ≡ lzo_loop rounds fuel (block_of input n output len) (
          more (record {
            mem = memcpy m output (input + suc n + 1) (run_length n (m (input + suc n)));
            inb = input + suc n + 1 + run_length n (m (input + suc n));
            outb = output + run_length n (m (input + suc n));
            state = 4;
          }))
unfolding lzo_loop lzo_start long_count
first_round_overreads m input n output len rounds fuel z past few f low high small room =
    let k = block_of input n output len in
    let s = before m (input + 1) output in
    let begins : lzo_start k (before m input output) ≡ more (before m input output) = rw z.0 refl in
    let place : input + 1 + n ≡ input + suc n = omega arith in
    let past' = λ (e : m (input + 1 + n) ≡ 0). past (ap m (sym place) ∙ e) in
    let total : add32 (add32 (add32 ((0 + n) * 255) 15) (m (input + suc n))) 3
        ≡ run_length n (m (input + suc n)) =
      omega arith in
    let copied =
      verbatim_past k (before m (input + suc n + 1) output) (run_length n (m (input + suc n))) refl
        low small (omega arith) high in
    let in_block : s.inb + n ≤ k.in_end = omega arith in
    let short : k.in_end < 2 ^ 32 = omega arith in
    let counted = skip_zeroes-run n fuel k s 0 _ z.1 past' in_block short (omega arith) f in
    let read = λ (i : ℕ).
      copy_verbatim k (before m (i + 1) output)
        (add32 (add32 (add32 ((0 + n) * 255) 15) (m i)) 3) in
    let at_end = ap read place ∙ ap (copy_verbatim k (before m (input + suc n + 1) output)) total in
    ap (lzo_loop (suc rounds) fuel k) begins
    ∙ ap (lzo_loop rounds fuel k)
        (zero_step m input n output len fuel z.0 ∙ counted ∙ at_end ∙ copied)

-- If the input has at least 3 bytes, all of them zero, and the byte behind it is not, and the run
-- that they stand for fits in the output and in 32 bits, then _lzo1x_decompress_block does not
-- return in its first round, but copies the run from behind the end of the input and goes on from
-- there.
pub decompress_overreads :
    (m : Memory) (input n output len rounds fuel : ℕ)
    → 3 ≤ suc n
    → Zeroes m input (suc n)
    → m (input + suc n) ≢ 0
    → n ≤ max_255_count
    → n < fuel
    → input + suc n + 1 < 2 ^ 32
    → output + len < 2 ^ 32
    → run_length n (m (input + suc n)) + 4 < 2 ^ 32
    → run_length n (m (input + suc n)) ≤ len
    → lzo1x_decompress_block (suc rounds) fuel m input (suc n) output len
      ≡ block_result (block_of input n output len) len (
          lzo_loop rounds fuel (block_of input n output len) (
            more (record {
              mem = memcpy m output (input + suc n + 1) (run_length n (m (input + suc n)));
              inb = input + suc n + 1 + run_length n (m (input + suc n));
              outb = output + run_length n (m (input + suc n));
              state = 4;
            })))
unfolding lzo1x_decompress_block
decompress_overreads m input n output len rounds fuel long z past few f low high small room =
    let passes : ltb (suc n) 3 ≡ false = not-ltb_of_le (suc n) 3 long in
    let first =
      first_round_overreads m input n output len rounds fuel z past few f low high small room in
    rw passes (ap (block_result (block_of input n output len) len) first)
