-- ===== src/Io/Format/Pieces.antt =====
-- A format made of text and of conversions without options.
use lambda_os.Prelude.{
  ℕ, ◌+◌, ◌%◌, ◌^◌, ◌<◌, ◌≤◌, ◌≡◌, ◌≢◌, refl, some, List, [], ◌∷◌, ◌++◌, length, arith,
}
use lambda_os.Std.Memory.{Memory, CString, word}
use lambda_os.Std.Bytes.Compare.{IsBytes}
use lambda_os.Io.Number.Numeral.{Numeral, print_int-Numeral}
use lambda_os.Io.Format.{print}
use lambda_os.Io.Format.Printed.{
  Piece, plain, percent, decimal, hex, string, char, written, Prints, prints_end, prints_plain,
  prints_percent, prints_decimal, prints_hex, prints_string, prints_char, print_loop-Prints,
}

-- The arguments that the pieces take, from `varg` on: a string is at an address other than NULL, and
-- ends before the fuel for strings. No plain character is a percent sign.
abbrev pub Readable : ℕ → Memory → ℕ → List Piece → Type 0
Readable sfuel m varg [] = Unit
Readable sfuel m varg (plain c ∷ ps) = (c ≢ 37) × Readable sfuel m varg ps
Readable sfuel m varg (percent ∷ ps) = Readable sfuel m varg ps
Readable sfuel m varg (decimal ∷ ps) = Readable sfuel m (varg + 4) ps
Readable sfuel m varg (hex ∷ ps) = Readable sfuel m (varg + 4) ps
Readable sfuel m varg (string ∷ ps) =
    (word m varg ≢ 0)
    × ((s : List ℕ) × CString m (word m varg) s × (length s < sfuel))
    × Readable sfuel m (varg + 4) ps
Readable sfuel m varg (char ∷ ps) = Readable sfuel m (varg + 4) ps

-- What the pieces are to show, with the arguments in memory from `varg` on: text as it is, a number as
-- its numeral in base 10 or 16, a string as its characters.
pub data Shows (m : Memory) : ℕ → List Piece → List ℕ → Type 0 where
  shows_end : (varg : ℕ) → Shows m varg [] []
  shows_plain :
      (varg c : ℕ) (ps : List Piece) (out : List ℕ)
      → Shows m varg ps out
      → Shows m varg (plain c ∷ ps) (c ∷ out)
  shows_percent :
      (varg : ℕ) (ps : List Piece) (out : List ℕ)
      → Shows m varg ps out
      → Shows m varg (percent ∷ ps) (37 ∷ out)
  shows_decimal :
      (varg : ℕ) (ps : List Piece) (cs out : List ℕ)
      → Numeral 10 (word m varg) cs
      → Shows m (varg + 4) ps out
      → Shows m varg (decimal ∷ ps) (cs ++ out)
  shows_hex :
      (varg : ℕ) (ps : List Piece) (cs out : List ℕ)
      → Numeral 16 (word m varg) cs
      → Shows m (varg + 4) ps out
      → Shows m varg (hex ∷ ps) (cs ++ out)
  shows_string :
      (varg : ℕ) (ps : List Piece) (s out : List ℕ)
      → CString m (word m varg) s
      → Shows m (varg + 4) ps out
      → Shows m varg (string ∷ ps) (s ++ out)
  shows_char :
      (varg : ℕ) (ps : List Piece) (out : List ℕ)
      → Shows m (varg + 4) ps out
      → Shows m varg (char ∷ ps) (word m varg % 2 ^ 8 ∷ out)

-- Four bytes are a number of 32 bits.
word_small : (m : Memory) (p : ℕ) → IsBytes m → word m p < 2 ^ 32
word_small m p b = omega (arith, b p, b (p + 1), b (p + 2), b (p + 3))

-- What can be read is printed, as it is to be shown.
Readable-Shows :
    (sfuel : ℕ) (m : Memory) (varg : ℕ) (ps : List Piece)
    → IsBytes m
    → Readable sfuel m varg ps
    → (out : List ℕ) × Prints sfuel m varg ps out × Shows m varg ps out
Readable-Shows sfuel m varg [] b r = ([], prints_end varg, shows_end varg)
Readable-Shows sfuel m varg (plain c ∷ ps) b (other, r) =
    let (out, prints, shows) = Readable-Shows sfuel m varg ps b r in
    (c ∷ out, prints_plain varg c ps out other prints, shows_plain varg c ps out shows)
Readable-Shows sfuel m varg (percent ∷ ps) b r =
    let (out, prints, shows) = Readable-Shows sfuel m varg ps b r in
    (37 ∷ out, prints_percent varg ps out prints, shows_percent varg ps out shows)
Readable-Shows sfuel m varg (decimal ∷ ps) b r =
    let (out, prints, shows) = Readable-Shows sfuel m (varg + 4) ps b r in
    let (cs, runs, numeral) =
      print_int-Numeral 10 (omega arith) (omega arith) (word m varg) (word_small m varg b) in
    (
      cs ++ out,
      prints_decimal varg ps cs out runs prints,
      shows_decimal varg ps cs out numeral shows,
    )
Readable-Shows sfuel m varg (hex ∷ ps) b r =
    let (out, prints, shows) = Readable-Shows sfuel m (varg + 4) ps b r in
    let (cs, runs, numeral) =
      print_int-Numeral 16 (omega arith) (omega arith) (word m varg) (word_small m varg b) in
    (cs ++ out, prints_hex varg ps cs out runs prints, shows_hex varg ps cs out numeral shows)
Readable-Shows sfuel m varg (string ∷ ps) b (some_string, (s, at, short), r) =
    let (out, prints, shows) = Readable-Shows sfuel m (varg + 4) ps b r in
    (
      s ++ out,
      prints_string varg ps s out some_string at short prints,
      shows_string varg ps s out at shows,
    )
Readable-Shows sfuel m varg (char ∷ ps) b r =
    let (out, prints, shows) = Readable-Shows sfuel m (varg + 4) ps b r in
    (word m varg % 2 ^ 8 ∷ out, prints_char varg ps out prints, shows_char varg ps out shows)

-- For a format made of characters other than a percent sign and of "%%", "%u", "%x", "%s" and
-- "%c", with the arguments in a memory of bytes, where no string argument is NULL and every one is
-- shorter than the fuel for strings, which is at most 2 ^ 32, and where the fuel is at least the
-- length of the format, print puts out the text, the numerals in base 10 and 16 with lower-case
-- letters, the strings and the characters in order, and returns their number modulo 2 ^ 32.
pub print-Shows :
    (fuel sfuel : ℕ) (m : Memory) (ps : List Piece) (varg : ℕ)
    → sfuel ≤ 2 ^ 32
    → IsBytes m
    → Readable sfuel m varg ps
    → length (written ps) ≤ fuel
    → (out : List ℕ) × (print fuel sfuel m (written ps) varg ≡ some (length out % 2 ^ 32, out))
      × Shows m varg ps out
unfolding print
print-Shows fuel sfuel m ps varg small b readable enough =
    let (out, prints, shows) = Readable-Shows sfuel m varg ps b readable in
    let (varg', runs) = print_loop-Prints sfuel m ps varg fuel [] out small prints enough in
    (out, rw (runs, print) refl, shows)
