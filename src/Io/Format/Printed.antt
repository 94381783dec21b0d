-- ===== src/Io/Format/Printed.antt =====
-- The loop of `print` on a format made of text and of conversions without options.
use mathlib.Core.List.{append-nil, append_assoc}
use lambda_os.Prelude.{
  ℕ, zero, suc, ◌+◌, ◌%◌, ◌^◌, ◌<◌, ◌≤◌, ◌≡◌, ◌≢◌, refl, ap, ◌∙◌, false, some, List, [], ◌∷◌, ◌++◌,
  ◌==◌, length, arith,
}
use lambda_os.Std.Memory.{Memory, CString, word}
use lambda_os.Io.Number.{print_int}
use lambda_os.Io.Format.{in_spec, print_loop}
use lambda_os.Io.Format.Count.{count_more}
use lambda_os.Io.Format.Returns.{print_loop_next}
use lambda_os.Io.Format.Conversion.{
  between, opened, conversion, in_spec-decimal, in_spec-hex, in_spec-char, in_spec-percent,
  in_spec-string,
}

-- A character of the text, and "%%", "%u", "%x", "%s" and "%c".
pub data Piece : Type 0 where
  plain : ℕ → Piece
  percent : Piece
  decimal : Piece
  hex : Piece
  string : Piece
  char : Piece

-- The pieces as a format.
abbrev pub written : List Piece → List ℕ
written [] = []
written (plain c ∷ ps) = c ∷ written ps
written (percent ∷ ps) = 37 ∷ 37 ∷ written ps
written (decimal ∷ ps) = 37 ∷ 117 ∷ written ps
written (hex ∷ ps) = 37 ∷ 120 ∷ written ps
written (string ∷ ps) = 37 ∷ 115 ∷ written ps
written (char ∷ ps) = 37 ∷ 99 ∷ written ps

-- What is put out for the pieces, by what the functions of the conversions give.
pub data Prints (sfuel : ℕ) (m : Memory) : ℕ → List Piece → List ℕ → Type 0 where
  prints_end : (varg : ℕ) → Prints sfuel m varg [] []
  prints_plain :
      (varg c : ℕ) (ps : List Piece) (out : List ℕ)
      → c ≢ 37
      → Prints sfuel m varg ps out
      → Prints sfuel m varg (plain c ∷ ps) (c ∷ out)
  prints_percent :
      (varg : ℕ) (ps : List Piece) (out : List ℕ)
      → Prints sfuel m varg ps out
      → Prints sfuel m varg (percent ∷ ps) (37 ∷ out)
  prints_decimal :
      (varg : ℕ) (ps : List Piece) (cs out : List ℕ)
      → print_int (word m varg) 10 0 1 ≡ some (length cs, cs)
      → Prints sfuel m (varg + 4) ps out
      → Prints sfuel m varg (decimal ∷ ps) (cs ++ out)
  prints_hex :
      (varg : ℕ) (ps : List Piece) (cs out : List ℕ)
      → print_int (word m varg) 16 0 1 ≡ some (length cs, cs)
      → Prints sfuel m (varg + 4) ps out
      → Prints sfuel m varg (hex ∷ ps) (cs ++ out)
  prints_string :
      (varg : ℕ) (ps : List Piece) (s out : List ℕ)
      → word m varg ≢ 0
      → CString m (word m varg) s
      → length s < sfuel
      → Prints sfuel m (varg + 4) ps out
      → Prints sfuel m varg (string ∷ ps) (s ++ out)
  prints_char :
      (varg : ℕ) (ps : List Piece) (out : List ℕ)
      → Prints sfuel m (varg + 4) ps out
      → Prints sfuel m varg (char ∷ ps) (word m varg % 2 ^ 8 ∷ out)

-- The loop on a format, from the variables between two pieces, puts out `out`.
abbrev Puts : ℕ → ℕ → Memory → List ℕ → ℕ → List ℕ → List ℕ → Type 0
Puts f sfuel m format varg before out =
    (varg' : ℕ) × (print_loop f sfuel m format (between varg before)
      ≡ some (between varg' (before ++ out)))

Puts-later :
    (f sfuel : ℕ) (m : Memory) (format : List ℕ) (varg : ℕ) (before cs out : List ℕ)
    → Puts f sfuel m format varg (before ++ cs) out
    → (varg' : ℕ) × (print_loop f sfuel m format (between varg (before ++ cs))
        ≡ some (between varg' (before ++ (cs ++ out))))
Puts-later f sfuel m format varg before cs out (varg', runs) =
    (varg', runs ∙ ap (λ o. some (between varg' o)) (append_assoc before cs out))

Puts-conversion :
    (f sfuel : ℕ) (m : Memory) (c : ℕ) (rest : List ℕ) (varg next : ℕ) (before cs out : List ℕ)
    → suc (suc (length rest)) ≤ f
    → in_spec sfuel m c rest (opened varg before) ≡ some (between next (before ++ cs), rest)
    → ((g : ℕ) → length rest ≤ g → Puts g sfuel m rest next (before ++ cs) out)
    → Puts f sfuel m (37 ∷ c ∷ rest) varg before (cs ++ out)
Puts-conversion zero sfuel m c rest varg next before cs out enough runs later = absurd (omega arith)
Puts-conversion (suc zero) sfuel m c rest varg next before cs out enough runs later =
    absurd (omega arith)
Puts-conversion (suc (suc f)) sfuel m c rest varg next before cs out enough runs later =
    let (varg', after) =
      Puts-later f sfuel m rest next before cs out (later f (omega (arith, enough))) in
    (varg', conversion f sfuel m c rest varg next before cs runs ∙ after)

Puts-plain :
    (f sfuel : ℕ) (m : Memory) (c : ℕ) (rest : List ℕ) (varg : ℕ) (before out : List ℕ)
    → suc (length rest) ≤ f
    → c ≢ 37
    → ((g : ℕ) → length rest ≤ g → Puts g sfuel m rest varg (before ++ (c ∷ [])) out)
    → Puts f sfuel m (c ∷ rest) varg before (c ∷ out)
Puts-plain zero sfuel m c rest varg before out enough other later = absurd (omega arith)
Puts-plain (suc f) sfuel m c rest varg before out enough other later =
    let (varg', after) =
      Puts-later f sfuel m rest varg before (c ∷ []) out (later f (omega (arith, enough))) in
    let plain_char : (c == 37) ≡ false = ground (arith, other) in
    let total = count_more (length before % 2 ^ 32) before (c ∷ []) refl in
    (
      varg',
      print_loop_next f sfuel m c rest (between varg before) (between varg (before ++ (c ∷ [])))
            rest (rw (plain_char, total) refl)
          ∙ after,
    )

-- The loop puts out the pieces.
pub print_loop-Prints :
    (sfuel : ℕ) (m : Memory) (ps : List Piece) (varg f : ℕ) (before out : List ℕ)
    → sfuel ≤ 2 ^ 32
    → Prints sfuel m varg ps out
    → length (written ps) ≤ f
    → Puts f sfuel m (written ps) varg before out
unfolding print_loop
print_loop-Prints sfuel m ps varg f before out small (prints_end v) enough =
    (varg, rw append-nil refl)
print_loop-Prints sfuel m ps varg f before out small (prints_plain v c qs rest n prints) enough =
    Puts-plain f sfuel m c (written qs) v before rest enough n
      (λ g le. print_loop-Prints sfuel m qs v g (before ++ (c ∷ [])) rest small prints le)
print_loop-Prints sfuel m ps varg f before out small (prints_percent v qs rest prints) enough =
    Puts-conversion f sfuel m 37 (written qs) v v before (37 ∷ []) rest enough
      (in_spec-percent sfuel m (written qs) v before)
      (λ g le. print_loop-Prints sfuel m qs v g (before ++ (37 ∷ [])) rest small prints le)
print_loop-Prints sfuel m ps varg f before out small (prints_decimal v qs cs rest n prints) enough =
    Puts-conversion f sfuel m 117 (written qs) v (v + 4) before cs rest enough
      (in_spec-decimal sfuel m (written qs) v before cs n)
      (λ g le. print_loop-Prints sfuel m qs (v + 4) g (before ++ cs) rest small prints le)
print_loop-Prints sfuel m ps varg f before out small (prints_hex v qs cs rest n prints) enough =
    Puts-conversion f sfuel m 120 (written qs) v (v + 4) before cs rest enough
      (in_spec-hex sfuel m (written qs) v before cs n)
      (λ g le. print_loop-Prints sfuel m qs (v + 4) g (before ++ cs) rest small prints le)
print_loop-Prints sfuel m ps varg f before out small
      (prints_string v qs s rest n there short prints) enough =
    Puts-conversion f sfuel m 115 (written qs) v (v + 4) before s rest enough
      (in_spec-string sfuel m (written qs) v before s small n there short)
      (λ g le. print_loop-Prints sfuel m qs (v + 4) g (before ++ s) rest small prints le)
print_loop-Prints sfuel m ps varg f before out small (prints_char v qs rest prints) enough =
    let c = word m v % 2 ^ 8 in
    Puts-conversion f sfuel m 99 (written qs) v (v + 4) before (c ∷ []) rest enough
      (in_spec-char sfuel m (written qs) v before)
      (λ g le. print_loop-Prints sfuel m qs (v + 4) g (before ++ (c ∷ [])) rest small prints le)
