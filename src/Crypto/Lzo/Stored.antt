-- ===== src/Crypto/Lzo/Stored.antt =====
-- A block that holds its data as it is: the length, the data and the end mark.
use lambda_os.Prelude.{
  not-ltb_of_le, ℕ, suc, ◌+◌, ◌-◌, ◌^◌, ◌<◌, ◌≤◌, ◌≡◌, ◌⊎◌, refl, ap, ◌∙◌, true, false, ltb, arith,
}
use lambda_os.Std.Memory.{Memory}
use lambda_os.Std.Bytes.{memcpy}
use lambda_os.Std.Bytes.Copy.{memcpy-outside, memcpy-copied, copied}
use lambda_os.Crypto.Lzo.{
  Bounds, Lzo, more, stop, copy_verbatim, far_code, lzo_step, lzo_loop, lzo_start, block_result,
  lzo1x_decompress_block,
}

-- The memory has a stored block of `n` bytes at `p`.
pub record StoredAt (m : Memory) (p n : ℕ) : Type 0 where
  pub head : m p ≡ n + 17
  pub mark : m (p + 1 + n) ≡ 17
  pub low : m (p + 1 + n + 1) ≡ 0
  pub high : m (p + 1 + n + 2) ≡ 0

abbrev bounds : ℕ → ℕ → ℕ → ℕ → Bounds
bounds input n output len = record {
  in_end = input + (n + 4);
  output = output;
  out_end = output + len;
}

-- Behind the data.
abbrev behind : Memory → ℕ → ℕ → ℕ → Lzo
behind m input n output = record {
  mem = memcpy m output (input + 1) n;
  inb = input + 1 + n;
  outb = output + n;
  state = 4;
}

module _ (m : Memory) (input n output len : ℕ) (has : StoredAt m input n) (least : 4 ≤ n)
    (room : n ≤ len) (low : input + n + 4 < 2 ^ 32) (high : output + len < 2 ^ 32) where
  stored_start :
      lzo_start
        (bounds input n output len)
        (record { mem = m; inb = input; outb = output; state = 0 })
      ≡ more (behind m input n output)
  unfolding lzo_start copy_verbatim
  stored_start = ground (arith, has.head)

  stored_end :
      (fuel : ℕ)
      → (output + n ≤ input) ⊎ (input + n + 4 ≤ output)
      → lzo_step fuel (bounds input n output len) (behind m input n output)
        ≡ stop 3 (record (behind m input n output) { inb = input + n + 4 })
  unfolding lzo_step far_code
  stored_end fuel apart =
      let after : Memory = memcpy m output (input + 1) n in
      let same : (d : ℕ) → d ≤ 2 → after (input + 1 + n + d) ≡ m (input + 1 + n + d) =
        λ d h. memcpy-outside m output (input + 1) n (input + 1 + n + d) (omega arith) in
      let t0 : after (input + 1 + n) ≡ 17 =
        memcpy-outside m output (input + 1) n (input + 1 + n) (omega arith) ∙ has.mark in
      let t1 : after (input + 1 + n + 1) ≡ 0 = same 1 (omega arith) ∙ has.low in
      let two : input + 1 + n + 1 + 1 ≡ input + 1 + n + 2 = omega arith in
      let t2 : after (input + 1 + n + 1 + 1) ≡ 0 = ap after two ∙ same 2 (omega arith) ∙ has.high in
      ground (arith, t0, t1, t2)

  decompress_stored_at :
      (rounds fuel : ℕ)
      → (output + n ≤ input) ⊎ (input + n + 4 ≤ output)
      → lzo1x_decompress_block (suc (suc rounds)) fuel m input (n + 4) output len
        ≡ record { code = 0; mem = memcpy m output (input + 1) n; len = n; ended = true }
  unfolding lzo1x_decompress_block lzo_loop
  decompress_stored_at rounds fuel apart =
      let k = bounds input n output len in
      let s : Lzo = record { mem = m; inb = input; outb = output; state = 0 } in
      let loop : lzo_loop (suc (suc rounds)) fuel k (lzo_start k s)
          ≡ stop 3 (record (behind m input n output) { inb = input + n + 4 }) =
        ap (lzo_loop (suc (suc rounds)) fuel k) stored_start
        ∙ ap (lzo_loop (suc rounds) fuel k) (stored_end fuel apart) in
      let long : ltb (n + 4) 3 ≡ false = not-ltb_of_le (n + 4) 3 (omega arith) in
      let ended : ltb (input + n + 4) (input + (n + 4)) ≡ false =
        not-ltb_of_le (input + n + 4) (input + (n + 4)) (omega arith) in
      let size : output + n - output ≡ n = omega arith in
      rw long (ap (block_result k len) loop ∙ rw (ended, size) refl)

-- If the input is a block of n >= 4 bytes of data as they are, a length byte n + 17 before them
-- and an end mark behind, the output has room for n bytes, both lie below 2 ^ 32 and do not meet,
-- then _lzo1x_decompress_block ends within two rounds with 0 and the length n, and leaves the
-- memory with the data copied to the output.
pub decompress_stored :
    (m : Memory) (input n output len rounds fuel : ℕ)
    → StoredAt m input n
    → 4 ≤ n
    → n ≤ len
    → input + n + 4 < 2 ^ 32
    → output + len < 2 ^ 32
    → (output + n ≤ input) ⊎ (input + n + 4 ≤ output)
    → let b = lzo1x_decompress_block (suc (suc rounds)) fuel m input (n + 4) output len in
      (b.ended ≡ true)
      × (b.code ≡ 0)
      × (b.len ≡ n)
      × ((q : ℕ) → b.mem q ≡ copied m output (input + 1) n q)
decompress_stored m input n output len rounds fuel has least room low high apart =
    let done =
      decompress_stored_at m input n output len has least room low high rounds fuel apart in
    (
      ap (λ b. b.ended) done,
      ap (λ b. b.code) done,
      ap (λ b. b.len) done,
      λ q. ap (λ b. b.mem q) done ∙ memcpy-copied m output (input + 1) n q (omega arith),
    )
