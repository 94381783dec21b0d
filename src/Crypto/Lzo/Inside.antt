-- ===== src/Crypto/Lzo/Inside.antt =====
-- The decompressor writes to its output only, whatever its input is.
use lambda_os.Prelude.{
  ℕ, zero, suc, ◌+◌, ◌-◌, ◌^◌, ◌<◌, ◌≤◌, ◌≡◌, ◌⊎◌, inl, inr, refl, ◌||◌, not, ◌==◌, ltb, Bool-cases,
  arith,
}
use lambda_os.Std.Memory.{Memory}
use lambda_os.Crypto.Lzo.{
  Bounds, Lzo, Verdict, more, stop, fail, out_of_fuel, lzo_step, lzo_loop, lzo_start, block_result,
  lzo1x_decompress_block,
}
use lambda_os.Crypto.Lzo.Step.{
  Inside, Within, if-Within, copy_next-Within, copy_verbatim-Within, move-Inside, lzo_step-Within,
}

module _ (m : Memory) (k : Bounds) (small : k.out_end < 2 ^ 32) where
  lzo_loop-Within :
      (rounds fuel : ℕ) (v : Verdict) → Within m k (v) → Within m k ((lzo_loop rounds fuel k v))
  unfolding lzo_loop
  lzo_loop-Within zero fuel (more s) h = record { inside = h.inside }
  lzo_loop-Within (suc f) fuel (more s) h =
      lzo_loop-Within f fuel (lzo_step fuel k s) (lzo_step-Within m k small fuel s h.inside)
  lzo_loop-Within zero fuel (stop temp s) h = h
  lzo_loop-Within zero fuel (fail s) h = h
  lzo_loop-Within zero fuel (out_of_fuel s) h = h
  lzo_loop-Within (suc f) fuel (stop temp s) h = h
  lzo_loop-Within (suc f) fuel (fail s) h = h
  lzo_loop-Within (suc f) fuel (out_of_fuel s) h = h

  lzo_start-Within : (s : Lzo) → Inside m k s → Within m k ((lzo_start k s))
  unfolding lzo_start
  lzo_start-Within s h =
      let h' = move-Inside m k small s (s.inb + 1) h in
      if-Within m k small (s.mem s.inb == 17) (λ _. record { inside = h })
        (λ _.
          if-Within m k small (ltb 17 (s.mem s.inb))
            (λ _.
              if-Within m k small (ltb (s.mem s.inb - 17) 4)
                (λ _. copy_next-Within m k small _ _ h')
                (λ _. copy_verbatim-Within m k small _ _ h'))
            (λ _. record { inside = h }))

  block_result-Inside :
      (len : ℕ) (v : Verdict)
      → k.out_end ≡ k.output + len
      → Within m k v
      → ((block_result k len v).len ≤ len)
        × ((q : ℕ) → (q < k.output) ⊎ (k.out_end ≤ q) → (block_result k len v).mem q ≡ m q)
  block_result-Inside len (more s) e h = (omega arith, h.inside.kept)
  block_result-Inside len (fail s) e h = (omega arith, h.inside.kept)
  block_result-Inside len (out_of_fuel s) e h = (omega arith, h.inside.kept)
  block_result-Inside len (stop temp s) e h =
      elim (Bool-cases (not (temp == 3) || ltb s.inb k.in_end)) [
        | inl bad ↦ rw bad (omega arith, h.inside.kept)
        | inr good ↦ rw good (omega (arith, h.inside.end), h.inside.kept)
      ]

-- Where the output ends below 2 ^ 32, _lzo1x_decompress_block, on any memory and input and after
-- any number of rounds, has written only to the bytes of its output, and the length that it leaves
-- is at most the one it was given.
pub lzo1x_decompress_block_bounds :
    (rounds fuel : ℕ) (m : Memory) (input input_len output output_len : ℕ)
    → output + output_len < 2 ^ 32
    → let b = lzo1x_decompress_block rounds fuel m input input_len output output_len in
      (b.len ≤ output_len) × ((q : ℕ) → (q < output) ⊎ (output + output_len ≤ q) → b.mem q ≡ m q)
unfolding lzo1x_decompress_block
lzo1x_decompress_block_bounds rounds fuel m input input_len output output_len small =
    elim (Bool-cases (ltb input_len 3)) [
      | inl short ↦ rw short (omega arith, λ q _. refl)
      | inr long ↦
          let k : Bounds = record {
            in_end = input + input_len;
            output = output;
            out_end = output + output_len;
          } in
          let s : Lzo = record { mem = m; inb = input; outb = output; state = 0 } in
          let begins : Inside m k s = record {
            start = omega arith;
            end = omega arith;
            kept = λ q _. refl;
          } in
          rw long (
            block_result-Inside m k small output_len _ refl (
              lzo_loop-Within m k small rounds fuel (lzo_start k s)
                (lzo_start-Within m k small s begins)))
    ]
