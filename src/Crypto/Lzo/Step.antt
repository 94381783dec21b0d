-- ===== src/Crypto/Lzo/Step.antt =====
-- Each step of the decompressor writes to its output only, whatever its input is.
use lambda_os.Prelude.{
  ℕ, zero, suc, ◌+◌, ◌*◌, ◌/◌, ◌%◌, ◌^◌, ◌<◌, ◌≤◌, ◌≡◌, ◌⊎◌, refl, ◌∙◌, Bool, true, false, ◌||◌,
  not, ◌==◌, ltb, if◌then◌else◌, arith,
}
use lambda_os.Prelude.Word.{add32, sub32}
use lambda_os.Std.Memory.{Memory}
use lambda_os.Std.Bytes.{memcpy}
use lambda_os.Std.Bytes.Copy.{memcpy-outside}
use lambda_os.Crypto.Lzo.{
  Bounds, Lzo, Verdict, more, stop, fail, out_of_fuel, in_left, out_left, look_back, copy_next,
  copy_back, copy_verbatim, skip_zeroes, long_count, max_255_count, short_code, far_code, near_code,
  le16, lzo_step,
}

abbrev pub state_of : Verdict → Lzo
state_of (more s) = s
state_of (stop temp s) = s
state_of (fail s) = s
state_of (out_of_fuel s) = s

-- The output pointer is in the output, and the memory outside it is that of `m`.
pub record Inside (m : Memory) (k : Bounds) (s : Lzo) : Type 0 where
  pub start : k.output ≤ s.outb
  pub end : s.outb ≤ k.out_end
  pub kept : (q : ℕ) → (q < k.output) ⊎ (k.out_end ≤ q) → s.mem q ≡ m q

-- So it is where the code ends.
pub record Within (m : Memory) (k : Bounds) (v : Verdict) : Type 0 where
  pub inside : Inside m k (state_of v)

module _ (m : Memory) (k : Bounds) (small : k.out_end < 2 ^ 32) where
  copy-Inside :
      (s : Lzo) (src n i st : ℕ)
      → out_left k s n ≡ true
      → Inside m k s
      → Inside m k
          (record { mem = memcpy s.mem s.outb src n; inb = i; outb = s.outb + n; state = st })
  copy-Inside s src n i st room h = record {
    start = omega (arith, h.start);
    end = ground (arith, h.start, h.end, room, small);
    kept = λ q out.
        memcpy-outside s.mem s.outb src n q (ground (arith, out, h.start, h.end, room, small))
        ∙ h.kept q out;
  }

  -- A branch is inside if both of its sides are.
  pub if-Within :
      (b : Bool) {v w : Verdict}
      → (b ≡ true → Within m k (v))
      → (b ≡ false → Within m k (w))
      → Within m k ((if b then v else w))
  if-Within true yes_side no_side = yes_side refl
  if-Within false yes_side no_side = no_side refl

  passed : (a b : Bool) → (not a || not b) ≡ false → (a ≡ true) × (b ≡ true)
  passed a b h = ground arith

  pub copy_next-Within : (s : Lzo) (next : ℕ) → Inside m k s → Within m k ((copy_next k s next))
  unfolding copy_next
  copy_next-Within s next h =
      if-Within (not (in_left k s (next + 3)) || not (out_left k s next))
        (λ _. record { inside = h })
        λ ok. record { inside = copy-Inside s s.inb next (s.inb + next) next (passed _ _ ok).1 h }

  pub copy_verbatim-Within :
      (s : Lzo) (temp : ℕ) → Inside m k s → Within m k ((copy_verbatim k s temp))
  unfolding copy_verbatim
  copy_verbatim-Within s temp h =
      if-Within (not (in_left k s (add32 temp 3)) || not (out_left k s temp))
        (λ _. record { inside = h })
        λ ok. record { inside = copy-Inside s s.inb temp (s.inb + temp) 4 (passed _ _ ok).1 h }

  copy_back-Within :
      (s : Lzo) (lb temp next : ℕ) → Inside m k s → Within m k ((copy_back k s lb temp next))
  unfolding copy_back
  copy_back-Within s lb temp next h =
      if-Within (not (look_back k s lb) || not (out_left k s temp)) (λ _. record { inside = h })
        λ ok.
          copy_next-Within _ next
            (copy-Inside s (sub32 s.outb lb) temp s.inb s.state (passed _ _ ok).1 h)

  -- What moves the input alone.
  pub move-Inside : (s : Lzo) (i : ℕ) → Inside m k s → Inside m k (record s { inb = i })
  move-Inside s i h = record { start = h.start; end = h.end; kept = h.kept }

  -- Code that goes on from the number of zeroes.
  abbrev Keeps : (ℕ → Lzo → Verdict) → Type 0
  Keeps next = (n : ℕ) (s : Lzo) → Inside m k s → Within m k ((next n s))

  skip_zeroes-Within :
      (fuel : ℕ) (s : Lzo) (n : ℕ) (next : ℕ → Lzo → Verdict)
      → Keeps next
      → Inside m k s
      → Within m k ((skip_zeroes fuel k s n next))
  unfolding skip_zeroes
  skip_zeroes-Within zero s n next keeps h = record { inside = h }
  skip_zeroes-Within (suc f) s n next keeps h =
      if-Within (s.mem s.inb == 0)
        (λ _.
          if-Within (in_left k s 1)
            (λ _.
              skip_zeroes-Within f (record s { inb = s.inb + 1 }) (n + 1) next keeps
                (move-Inside s (s.inb + 1) h))
            (λ _. record { inside = h }))
        (λ _. if-Within (ltb max_255_count n) (λ _. record { inside = h }) (λ _. keeps n s h))

  long_count-Within :
      (fuel : ℕ) (s : Lzo) (base : ℕ) (next : ℕ → Lzo → Verdict)
      → Keeps next
      → Inside m k s
      → Within m k ((long_count fuel k s base next))
  unfolding long_count
  long_count-Within fuel s base next keeps h =
      skip_zeroes-Within fuel s 0 _ (λ n s' h'. keeps _ _ (move-Inside s' (s'.inb + 1) h')) h

  short_code-Within :
      (fuel : ℕ) (s : Lzo) (temp : ℕ) → Inside m k s → Within m k ((short_code fuel k s temp))
  unfolding short_code
  short_code-Within fuel s temp h =
      let h' = move-Inside s (s.inb + 1) h in
      if-Within (s.state == 0)
        (λ _.
          if-Within (temp == 0)
            (λ _.
              long_count-Within fuel s 15 _ (λ n s'' h''. copy_verbatim-Within s'' (add32 n 3) h'')
                h)
            (λ _. copy_verbatim-Within s (temp + 3) h))
        (λ _.
          if-Within (s.state == 4) (λ _. copy_back-Within _ _ 3 _ h')
            (λ _. copy_back-Within _ _ 2 _ h'))

  far_code-Within :
      (high count : ℕ) (s : Lzo) → Inside m k s → Within m k ((far_code k high count s))
  unfolding far_code
  far_code-Within high count s h =
      let h' = move-Inside s (s.inb + 2) h in
      if-Within (not (in_left k s 2)) (λ _. record { inside = h })
        (λ _.
          if-Within (high + le16 s.mem s.inb / 4 == 0) (λ _. record { inside = h' })
            (λ _. copy_back-Within _ _ count _ h'))

  near_code-Within : (count : ℕ) (s : Lzo) → Inside m k s → Within m k ((near_code k count s))
  unfolding near_code
  near_code-Within count s h =
      if-Within (not (in_left k s 2)) (λ _. record { inside = h })
        (λ _. copy_back-Within _ _ count _ (move-Inside s (s.inb + 2) h))

  pub lzo_step-Within : (fuel : ℕ) (s : Lzo) → Inside m k s → Within m k ((lzo_step fuel k s))
  unfolding lzo_step
  lzo_step-Within fuel s h =
      let h' = move-Inside s (s.inb + 1) h in
      if-Within (ltb (s.mem s.inb) 16) (λ _. short_code-Within fuel _ _ h')
        (λ _.
          if-Within (ltb (s.mem s.inb) 32)
            (λ _.
              if-Within (s.mem s.inb % 8 == 0)
                (λ _.
                  long_count-Within fuel _ 7 _
                    (λ n s'' h''.
                      far_code-Within (s.mem s.inb / 8 % 2 * 2 ^ 14) (add32 2 n) s'' h'')
                    h')
                (λ _. far_code-Within _ _ _ h'))
            (λ _.
              if-Within (ltb (s.mem s.inb) 64)
                (λ _.
                  if-Within (s.mem s.inb % 32 == 0)
                    (λ _.
                      long_count-Within fuel _ 31 _
                        (λ n s'' h''. near_code-Within (add32 2 n) s'' h'') h')
                    (λ _. near_code-Within _ _ h'))
                (λ _. copy_back-Within _ _ _ _ (move-Inside _ _ h'))))
