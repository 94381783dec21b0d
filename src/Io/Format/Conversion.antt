-- ===== src/Io/Format/Conversion.antt =====
-- The conversions of `print` without options.
use lambda_os.Prelude.{
  ℕ, suc, ◌+◌, ◌%◌, ◌^◌, ◌<◌, ◌≤◌, ◌≡◌, ◌≢◌, refl, ap, ◌∙◌, true, some, List, [], ◌∷◌, ◌++◌, length,
  arith,
}
use lambda_os.Std.Memory.{Memory, CString, word}
use lambda_os.Io.Number.{print_int}
use lambda_os.Io.Format.{
  Printing, zero_all_vid, put_decimal, put_unsigned, put_char, convert, in_spec, print_loop,
}
use lambda_os.Io.Format.Count.{count_more, puts, text_of, put_int_lem, put_string_lem}
use lambda_os.Io.Format.Returns.{print_loop_next}

-- The variables between two pieces, and behind a '%'.
abbrev pub between : ℕ → List ℕ → Printing
between varg out = record {
  spec = zero_all_vid;
  varg = varg;
  out = out;
  nchars = length out % 2 ^ 32;
}

abbrev pub opened : ℕ → List ℕ → Printing
opened varg out = record {
  spec = record zero_all_vid { is_in_spec = true };
  varg = varg;
  out = out;
  nchars = length out % 2 ^ 32;
}

pub puts-between :
    (st : Printing) (varg : ℕ) (out cs : List ℕ)
    → st.out ≡ out
    → st.nchars ≡ length out % 2 ^ 32
    → puts st varg cs ≡ between varg (out ++ cs)
puts-between st varg out cs here counted =
    let total = count_more st.nchars out cs counted in rw (here, total) refl

-- A '%' and a conversion.
pub conversion :
    (f sfuel : ℕ) (m : Memory) (c : ℕ) (rest : List ℕ) (varg varg' : ℕ) (out cs : List ℕ)
    → in_spec sfuel m c rest (opened varg out) ≡ some (between varg' (out ++ cs), rest)
    → print_loop (suc (suc f)) sfuel m (37 ∷ c ∷ rest) (between varg out)
      ≡ print_loop f sfuel m rest (between varg' (out ++ cs))
conversion f sfuel m c rest varg varg' out cs runs =
    print_loop_next (suc f) sfuel m 37 (c ∷ rest) (between varg out) (opened varg out) (c ∷ rest)
      refl
    ∙ print_loop_next f sfuel m c rest (opened varg out) (between varg' (out ++ cs)) rest runs

module _ (sfuel : ℕ) (m : Memory) (rest : List ℕ) (varg : ℕ) (out : List ℕ) where
  pub in_spec-decimal :
      (cs : List ℕ)
      → print_int (word m varg) 10 0 1 ≡ some (length cs, cs)
      → in_spec sfuel m 117 rest (opened varg out) ≡ some (between (varg + 4) (out ++ cs), rest)
  unfolding in_spec convert put_decimal
  in_spec-decimal cs runs =
      let done =
        put_int_lem (word m varg) 10 0 1 (record (opened varg out) { varg = varg + 4 }) cs runs in
      let same =
        puts-between (record (opened varg out) { varg = varg + 4 }) (varg + 4) out cs refl refl in
      rw (done, same) refl

  pub in_spec-hex :
      (cs : List ℕ)
      → print_int (word m varg) 16 0 1 ≡ some (length cs, cs)
      → in_spec sfuel m 120 rest (opened varg out) ≡ some (between (varg + 4) (out ++ cs), rest)
  unfolding in_spec convert put_unsigned
  in_spec-hex cs runs =
      let done =
        put_int_lem (word m varg) 16 0 1 (record (opened varg out) { varg = varg + 4 }) cs runs in
      let same =
        puts-between (record (opened varg out) { varg = varg + 4 }) (varg + 4) out cs refl refl in
      rw (done, same) refl

  pub in_spec-char :
      in_spec sfuel m 99 rest (opened varg out)
      ≡ some (between (varg + 4) (out ++ (word m varg % 2 ^ 8 ∷ [])), rest)
  unfolding in_spec convert put_char
  in_spec-char =
      let same =
        puts-between (opened varg out) (varg + 4) out (word m varg % 2 ^ 8 ∷ []) refl refl in
      ap (λ st. some (st, rest)) same

  pub in_spec-percent :
      in_spec sfuel m 37 rest (opened varg out) ≡ some (between varg (out ++ (37 ∷ [])), rest)
  unfolding in_spec
  in_spec-percent =
      let same = puts-between (opened varg out) varg out (37 ∷ []) refl refl in
      ap (λ st. some (st, rest)) same

  pub in_spec-string :
      (s : List ℕ)
      → sfuel ≤ 2 ^ 32
      → word m varg ≢ 0
      → CString m (word m varg) s
      → length s < sfuel
      → in_spec sfuel m 115 rest (opened varg out) ≡ some (between (varg + 4) (out ++ s), rest)
  unfolding in_spec convert
  in_spec-string s small nonnull there short =
      let (runs, all) = put_string_lem sfuel m (opened varg out) s there short small in
      let whole : text_of (word m varg) s ≡ s = ground (arith, nonnull) in
      let same = puts-between (opened varg out) (varg + 4) out s refl refl in
      rw (runs, all, whole, same) refl
