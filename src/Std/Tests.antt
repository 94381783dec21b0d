-- ===== src/Std/Tests.antt =====
-- Runs of the memory and string functions, and instances of their theorems.
use lambda_os.Prelude.{
  ℕ, All, ◌<◌, ◌≡◌, ◌+◌, ◌-◌, ◌^◌, ◌%◌, ◌↔◌, refl, some, [], ◌∷◌, inl, inr, if◌then◌else◌, leb, ltb,
  ◌&&◌, List, take, arith,
}
use mathlib.Core.Option
use lambda_os.Prelude.Word.{sub32}
use lambda_os.Std.Memory.{memory_of, Memory, CString}
use lambda_os.Std.Bytes.{memcpy, memmove, memset, memcmp}
use lambda_os.Std.Bytes.Copy.{copied, memmove-copied, memcpy-memmove, memset_lem}
use lambda_os.Std.Bytes.Compare.{IsBytes, memory_of-IsBytes, SameBytes, memcmp_iff, memcmp_last}
use lambda_os.Std.Libgen.{dirname, basename, dirname-basename}
use lambda_os.Std.Number.{strtoul}
use lambda_os.Std.Number.Value.{value, strtoul_lem}
use lambda_os.Std.Text.{strlen, strcmp, strncmp, strchr, strcpy, strncpy}
use lambda_os.Std.Text.Length.{index_of, strlen_lem, strchr_lem}
use lambda_os.Std.Text.Order.{IsChar, difference, strcmp_iff, strncmp-difference, strncmp_zero}
use lambda_os.Std.Text.Copy.{strcpy_lem, strncpy_lem}

-- "ab" at 0, "ac" at 3 and "ab" at 6.
abbrev words : Memory
words = memory_of (97 ∷ 98 ∷ 0 ∷ 97 ∷ 99 ∷ 0 ∷ 97 ∷ 98 ∷ [])

abbrev ab : List ℕ
ab = 97 ∷ 98 ∷ []

abbrev ac : List ℕ
ac = 97 ∷ 99 ∷ []

words-ab : CString words 0 ab
words-ab = (refl, omega arith, (refl, omega arith, refl))

words-ac : CString words 3 ac
words-ac = (refl, omega arith, (refl, omega arith, refl))

overlap : memmove words 1 0 4 4 ≡ 97
unfolding memmove
overlap = refl

overlapping_move : memmove words 1 0 4 4 ≡ copied words 1 0 4 4
overlapping_move = memmove-copied words 1 0 4 4

no_overlap : memcpy words 0 3 3 1 ≡ memmove words 0 3 3 1
no_overlap = memcpy-memmove words 0 3 3 1 (inl (omega arith))

filled : memset words 1 300 3 2 ≡ (if leb 1 2 && ltb 2 (1 + 3) then 300 % 2 ^ 8 else words 2)
filled = memset_lem words 1 300 3 2

words-IsBytes : IsBytes words
words-IsBytes = memory_of-IsBytes (97 ∷ 98 ∷ 0 ∷ 97 ∷ 99 ∷ 0 ∷ 97 ∷ 98 ∷ []) (omega arith)

compared : (memcmp words 0 6 3 ≡ 0) ↔ SameBytes words 0 6 3
compared = memcmp_iff words 0 6 3 words-IsBytes

-- "ab" is before "ba", and the last byte says the contrary.
abbrev crossed : Memory
crossed = memory_of (97 ∷ 98 ∷ 98 ∷ 97 ∷ [])

crossed_after : (i : ℕ) → 1 < i → i < 2 → crossed (0 + i) ≡ crossed (2 + i)
crossed_after i a b = absurd (omega arith)

last_byte : memcmp crossed 0 2 2 ≡ sub32 98 97
last_byte = memcmp_last crossed 0 2 2 1 (omega arith) (omega arith) crossed_after

length_two : strlen 3 words 3 ≡ some 2
length_two = strlen_lem ac 3 words 3 words-ac (omega arith)

char_found : strchr 3 words 3 99 ≡ some (Option.map (λ i. 3 + i) (index_of (99 % 2 ^ 8) ac))
char_found = strchr_lem ac 3 words 3 99 words-ac (omega arith)

ab-IsChar : All IsChar ab
ab-IsChar = ((omega arith, omega arith), ((omega arith, omega arith), tt))

ac-IsChar : All IsChar ac
ac-IsChar = ((omega arith, omega arith), ((omega arith, omega arith), tt))

equal_strings : (r : ℕ) × (strcmp 3 words 0 3 ≡ some r) × ((r ≡ 0) ↔ (ab ≡ ac))
equal_strings = strcmp_iff ab ac 3 words 0 3 words-ab words-ac ab-IsChar ac-IsChar (omega arith)

first_difference : strncmp 3 words 0 3 1 ≡ some (difference (take 1 ab) (take 1 ac))
first_difference =
    strncmp-difference ab ac 3 words 0 3 1 words-ab words-ac (omega arith) (omega arith)
      (omega arith)

two_empty : strncmp 3 words 0 3 0 ≡ strcmp 3 words 0 3
two_empty = strncmp_zero ab ac 3 words 0 3 words-ab words-ac (omega arith) (omega arith)

text_copied :
    (m' : Memory) × (strcpy 3 words 10 3 ≡ some m')
    × ((q : ℕ) → m' q ≡ (if leb 10 q && leb q (10 + 2) then words (3 + (q - 10)) else words q))
text_copied = strcpy_lem ac 3 words 10 3 words-ac (inr (omega arith)) (omega arith)

padded : strncpy words 10 3 5 13 ≡ (
    if leb 10 13 && ltb 13 (10 + 5)
    then if ltb 13 (10 + 2) then words (3 + (13 - 10)) else 0
    else words 13)
padded = strncpy_lem ac words 10 3 5 13 words-ac (inr (omega arith))

-- " 42," and then "a/b" at 4.
abbrev line : Memory
line = memory_of (32 ∷ 52 ∷ 50 ∷ 44 ∷ 97 ∷ 47 ∷ 98 ∷ [])

parsed_number : strtoul 3 line 0 10 ≡ some (value 10 0 (52 ∷ 50 ∷ []) % 2 ^ 32, some 3)
parsed_number =
    strtoul_lem (32 ∷ []) 52 (50 ∷ []) 3 line 0 10 (omega arith) (refl, tt) (omega arith)
      ((omega arith, refl), ((omega arith, refl), tt)) (inr refl) (omega arith) (omega arith)
      (omega arith) (omega arith) (omega arith)

answer : value 10 0 (52 ∷ 50 ∷ []) ≡ 42
answer = refl

line-path : CString line 4 (97 ∷ 47 ∷ 98 ∷ [])
line-path = (refl, omega arith, (refl, omega arith, (refl, omega arith, refl)))

path_parts :
    (m' : Memory) × (q : ℕ) × (basename 4 line 4 ≡ some q)
    × CString line q (98 ∷ [])
    × (dirname 4 line 4 ≡ some m')
    × CString m' 4 (97 ∷ [])
path_parts = dirname-basename (97 ∷ []) (98 ∷ []) 4 line 4 line-path (omega arith) (omega arith)
