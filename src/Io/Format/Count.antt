-- ===== src/Io/Format/Count.antt =====
-- The conversions of `print` and the number of characters.
use lambda_os.Prelude.{
  ℕ, zero, suc, ◌+◌, ◌-◌, ◌%◌, ◌^◌, ◌<◌, ◌≤◌, ◌≡◌, refl, ap, ◌∙◌, Bool, true, false, Option, some,
  List, [], ◌∷◌, ◌++◌, ◌==◌, if◌then◌else◌, length, length-append, take, arith,
}
use lambda_os.Prelude.Word.{add32}
use lambda_os.Std.Memory.{Memory, CString, word}
use lambda_os.Std.Bytes.Compare.{IsBytes}
use lambda_os.Io.Number.{print_int}
use lambda_os.Io.Number.Room.{print_int_fits}
use lambda_os.Io.Format.{
  Spec, Printing, zero_all_vid, get_arg, sign_extend, extend, modify_spec, put_int, put_decimal,
  put_unsigned, string_at, null_text, put_string, set_flag, pass_over, convert,
}

-- A string starts at each address, and the fuel is above its length.
abbrev pub Terminated : ℕ → Memory → Type 0
Terminated sfuel m = (p : ℕ) → (s : List ℕ) × CString m p s × (length s < sfuel)

-- The number of the characters so far, where no precision was read.
abbrev pub Counted : Printing → Type 0
Counted st = (st.spec.precision ≡ 0) × (st.nchars ≡ length st.out % 2 ^ 32)

-- There are variables, which count if they did before.
abbrev pub Goes : Printing → Option Printing → Type 0
Goes st r = (st' : Printing) × (r ≡ some st') × (Counted st → Counted st')

word_small : (m : Memory) (p : ℕ) → IsBytes m → word m p < 2 ^ 32
word_small m p b = omega (arith, b p, b (p + 1), b (p + 2), b (p + 3))

extend_small : (k v : ℕ) → k ≤ 64 → v < 2 ^ k → v < 2 ^ 64 → extend k v < 2 ^ 64
extend_small k v le lt small = ground (arith, lt, small)

get_arg_small : (m : Memory) (varg size : ℕ) → IsBytes m → (get_arg m varg size).0 < 2 ^ 64
get_arg_small m varg size b = ground (arith, word_small m varg b, word_small m (varg + 4) b)

sign_extend_small : (val size : ℕ) → val < 2 ^ 64 → sign_extend val size < 2 ^ 64
sign_extend_small val size small = ground (arith, small)

pub count_more :
    (n : ℕ) (out cs : List ℕ)
    → n ≡ length out % 2 ^ 32
    → add32 n (length cs) ≡ length (out ++ cs) % 2 ^ 32
count_more n out cs same = omega (arith, same, length-append out cs)

-- The variables after the characters `cs` of a conversion.
abbrev pub puts : Printing → ℕ → List ℕ → Printing
puts st varg cs = record {
  spec = zero_all_vid;
  varg = varg;
  out = st.out ++ cs;
  nchars = add32 st.nchars (length cs);
}

puts-Goes : (st : Printing) (varg : ℕ) (cs : List ℕ) → Goes st (some (puts st varg cs))
puts-Goes st varg cs = (_, refl, λ c. (refl, count_more st.nchars st.out cs c.1))

pub put_int_lem :
    (arg base width flags : ℕ) (st : Printing) (cs : List ℕ)
    → print_int arg base (width % 2 ^ 8) flags ≡ some (length cs, cs)
    → put_int arg base width flags st ≡ some (puts st st.varg cs)
unfolding put_int
put_int_lem arg base width flags st cs runs = rw (runs, put_int) refl

put_int-Goes :
    (arg base width flags : ℕ) (st : Printing)
    → arg < 2 ^ 64
    → 8 ≤ base
    → Goes st (put_int arg base width flags st)
put_int-Goes arg base width flags st small b =
    let (_, _, _, cs, runs, _) = print_int_fits arg base (width % 2 ^ 8) flags small b in
    rw (put_int_lem arg base width flags st cs runs) (puts-Goes st st.varg cs)

module _ (m : Memory) (b : IsBytes m) (st : Printing) where
  put_decimal-Goes : (signed : Bool) → Goes st (put_decimal m signed st)
  unfolding put_decimal
  put_decimal-Goes true =
      put_int-Goes (sign_extend (get_arg m st.varg st.spec.size).0 st.spec.size) 10 st.spec.width
        st.spec.flags (record st { varg = (get_arg m st.varg st.spec.size).1 })
        (sign_extend_small _ st.spec.size (get_arg_small m st.varg st.spec.size b)) (omega arith)
  put_decimal-Goes false =
      put_int-Goes (get_arg m st.varg st.spec.size).0 10 st.spec.width (set_flag st.spec.flags 0)
        (record st { varg = (get_arg m st.varg st.spec.size).1 })
        (get_arg_small m st.varg st.spec.size b) (omega arith)

  put_unsigned-Goes :
      (base width : ℕ) (upper : Bool) → 8 ≤ base → Goes st (put_unsigned m base width upper st)
  unfolding put_unsigned
  put_unsigned-Goes base width upper le =
      put_int-Goes (get_arg m st.varg st.spec.size).0 base width
        (if upper then set_flag (set_flag st.spec.flags 0) 4 else set_flag st.spec.flags 0)
        (record st { varg = (get_arg m st.varg st.spec.size).1 })
        (get_arg_small m st.varg st.spec.size b) le

pub string_at_lem :
    (s : List ℕ) (fuel : ℕ) (m : Memory) (p : ℕ)
    → CString m p s
    → length s < fuel
    → string_at fuel m p ≡ some s
unfolding string_at
string_at_lem [] zero m p c lt = absurd (omega arith)
string_at_lem [] (suc f) m p c lt = ground (arith, c)
string_at_lem (x ∷ s) zero m p c lt = absurd (omega arith)
string_at_lem (x ∷ s) (suc f) m p (first, nonzero, c) lt =
    ground (arith, first, nonzero, string_at_lem s f m (p + 1) c (omega arith))

take_all : (n : ℕ) (s : List ℕ) → length s ≤ n → take n s ≡ s
take_all zero [] le = refl
take_all zero (x ∷ s) le = absurd (omega arith)
take_all (suc n) [] le = refl
take_all (suc n) (x ∷ s) le = ap (◌∷◌ x) (take_all n s (omega arith))

-- The text of a string argument.
abbrev pub text_of : ℕ → List ℕ → List ℕ
text_of temp s = if temp == 0 then null_text else s

-- A string without a precision is put out whole.
pub put_string_lem :
    (sfuel : ℕ) (m : Memory) (st : Printing) (s : List ℕ)
    → CString m (word m st.varg) s
    → length s < sfuel
    → sfuel ≤ 2 ^ 32
    → (put_string sfuel m st
        ≡ some record {
          spec = zero_all_vid;
          varg = st.varg + 4;
          out =
              st.out
              ++ take
                  (if st.spec.precision == 0 then 2 ^ 32 - 1 else st.spec.precision)
                  (text_of (word m st.varg) s);
          nchars = add32 st.nchars (length (text_of (word m st.varg) s));
        })
      × (take (2 ^ 32 - 1) (text_of (word m st.varg) s) ≡ text_of (word m st.varg) s)
unfolding put_string
put_string_lem sfuel m st s there short small =
    let temp = word m st.varg in
    let read : (if temp == 0 then some null_text else string_at sfuel m temp)
        ≡ some (text_of temp s) =
      ground (arith, string_at_lem s sfuel m temp there short) in
    let fits : length (text_of temp s) ≤ 2 ^ 32 - 1 = ground (arith, short, small) in
    (rw (read, put_string) refl, take_all (2 ^ 32 - 1) (text_of temp s) fits)

put_string-Goes :
    (sfuel : ℕ) (m : Memory) (st : Printing)
    → Terminated sfuel m
    → sfuel ≤ 2 ^ 32
    → Goes st (put_string sfuel m st)
put_string-Goes sfuel m st ends small =
    let (s, there, short) = ends (word m st.varg) in
    let (runs, all) = put_string_lem sfuel m st s there short small in
    (
      _,
      runs,
      λ c. (refl, rw (c.0, all) (count_more st.nchars st.out (text_of (word m st.varg) s) c.1)),
    )

if-Goes :
    (st : Printing) (b : Bool) (x y : Option Printing)
    → Goes st x
    → Goes st y
    → Goes st (if b then x else y)
if-Goes st true x y gx gy = gx
if-Goes st false x y gx gy = gy

pass_over-Goes : (size : ℕ) (st : Printing) → Goes st (some (pass_over size st))
pass_over-Goes size st = (_, refl, λ c. (refl, c.1))

modify_spec_precision : (c : ℕ) (spec : Spec) → (modify_spec c spec).precision ≡ spec.precision
unfolding modify_spec
modify_spec_precision c spec = ground arith

modify_spec-Goes :
    (c : ℕ) (st : Printing) → Goes st (some (record st { spec = modify_spec c st.spec }))
modify_spec-Goes c st = (_, refl, λ h. (modify_spec_precision c st.spec ∙ h.0, h.1))

pub convert-Goes :
    (sfuel : ℕ) (m : Memory) (c : ℕ) (st : Printing)
    → IsBytes m
    → Terminated sfuel m
    → sfuel ≤ 2 ^ 32
    → Goes st (convert sfuel m c st)
unfolding convert
convert-Goes sfuel m c st b ends small =
    let hex = λ (width : ℕ) (upper : Bool). put_unsigned-Goes m b st 16 width upper (omega arith) in
    let octal = put_unsigned-Goes m b st 8 st.spec.width false (omega arith) in
    let char = puts-Goes st (st.varg + 4) (word m st.varg % 2 ^ 8 ∷ []) in
    if-Goes st _ _ _ (put_decimal-Goes m b st false) (
      if-Goes st _ _ _ (put_decimal-Goes m b st true) (
        if-Goes st _ _ _ (pass_over-Goes 8 st) (
          if-Goes st _ _ _ (hex st.spec.width true) (
            if-Goes st _ _ _ (hex st.spec.width false) (
              if-Goes st _ _ _ octal (
                if-Goes st _ _ _ (put_string-Goes sfuel m st ends small) (
                  if-Goes st _ _ _ char (
                    if-Goes st _ _ _ (hex (if st.spec.width == 0 then 8 else st.spec.width) false)
                      (if-Goes st _ _ _ (pass_over-Goes 4 st) (modify_spec-Goes c st))))))))))
