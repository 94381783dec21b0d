-- ===== src/Crypto/Lzop/Header.antt =====
-- The header of an archive by its bytes, and where the code finds the flags and the blocks.
use mathlib.Core.Path.{subst}
use lambda_os.Prelude.{
  ℕ, ◌+◌, ◌/◌, ◌%◌, ◌^◌, ◌<◌, ◌≡◌, refl, ap, ◌∙◌, Bool, true, false, List, [], ◌∷◌, ◌++◌, ◌==◌, leb,
  if◌then◌else◌, length, length-append, arith,
}
use lambda_os.Prelude.Word.{add32}
use lambda_os.Std.Memory.{Memory, Holds}
use lambda_os.Crypto.Lzop.{be16, be32, lzop_magic, has_bytes, flag, flags_at, blocks_at}

-- What the header of an archive says.
pub record Header : Type 0 where
  pub version : ℕ
  pub needed : List ℕ
  pub method : ℕ
  pub level : ℕ
  pub flags : ℕ
  pub filter : List ℕ
  pub mode_and_times : List ℕ
  pub name : List ℕ
  pub checksum : List ℕ
  pub extra : List ℕ
  pub extra_checksum : List ℕ

-- Numbers with the highest byte first.
abbrev pub two_bytes : ℕ → List ℕ
two_bytes n = n / 2 ^ 8 ∷ n % 2 ^ 8 ∷ []

abbrev pub four_bytes : ℕ → List ℕ
four_bytes n = n / 2 ^ 24 ∷ n / 2 ^ 16 % 2 ^ 8 ∷ n / 2 ^ 8 % 2 ^ 8 ∷ n % 2 ^ 8 ∷ []

-- A part that is there on a condition.
abbrev pub part : Bool → List ℕ → List ℕ
part b d = if b then d else []

abbrev pub bit : ℕ → ℕ → Bool
bit n k = n / 2 ^ k % 2 == 1

-- The bytes of the header: the level is there from version 0x940 on, the filter with bit 11 of the
-- flags, and the extra field with bit 6.
abbrev extra_bytes : Header → List ℕ
extra_bytes h = part (bit h.flags 6) (four_bytes (length h.extra) ++ (h.extra ++ h.extra_checksum))

abbrev name_bytes : Header → List ℕ
name_bytes h = (length h.name ∷ []) ++ (h.name ++ (h.checksum ++ extra_bytes h))

abbrev flags_bytes : Header → List ℕ
flags_bytes h =
    four_bytes h.flags ++ (part (bit h.flags 11) h.filter ++ (h.mode_and_times ++ name_bytes h))

abbrev pub written : Header → List ℕ
written h =
    lzop_magic
    ++ (two_bytes h.version
        ++ (h.needed
            ++ ((h.method ∷ []) ++ (part (leb 0x940 h.version) (h.level ∷ []) ++ flags_bytes h))))

-- The sizes of the parts.
pub record IsHeader (h : Header) : Type 0 where
  pub needed_size : length h.needed ≡ 4
  pub filter_size : length h.filter ≡ 4
  pub times_size : length h.mode_and_times ≡ 12
  pub checksum_size : length h.checksum ≡ 4
  pub extra_checksum_size : length h.extra_checksum ≡ 4

Holds-split :
    (m : Memory) (p q : ℕ) (d e : List ℕ)
    → p + length d ≡ q
    → Holds m p (d ++ e)
    → Holds m p d × Holds m q e
Holds-split m p q [] e there h = (tt, subst (λ r. Holds m r e) (omega (arith, there)) h)
Holds-split m p q (x ∷ d) e there (first, h) =
    let (later, rest) = Holds-split m (p + 1) q d e (omega (arith, there)) h in
    ((first, later), rest)

be16-Holds : (m : Memory) (p n : ℕ) → Holds m p (two_bytes n) → be16 m p ≡ n
be16-Holds m p n h = omega (arith, h.0, h.1.0)

be32-Holds : (m : Memory) (p n : ℕ) → Holds m p (four_bytes n) → be32 m p ≡ n
be32-Holds m p n h =
    let third : m (p + 2) ≡ n / 2 ^ 8 % 2 ^ 8 = ap m (omega arith) ∙ h.1.1.0 in
    let fourth : m (p + 3) ≡ n % 2 ^ 8 = ap m (omega arith) ∙ h.1.1.1.0 in
    omega (arith, h.0, h.1.0, third, fourth)

has_bytes-Holds : (m : Memory) (p : ℕ) (d : List ℕ) → Holds m p d → has_bytes m p d ≡ true
unfolding has_bytes
has_bytes-Holds m p [] h = refl
has_bytes-Holds m p (x ∷ d) h = ground (arith, h.0, has_bytes-Holds m (p + 1) d h.1)

pub flag-bit : (n k : ℕ) → flag n k ≡ bit n k
flag-bit n k = ground arith

-- The blocks begin behind the extra field, where the name's length is at `name`.
blocks_from :
    (m : Memory) (input flags name : ℕ)
    → be32 m (flags_at m input) ≡ flags
    → (if flag flags 11 then flags_at m input + 4 + 4 else flags_at m input + 4) + 12 ≡ name
    → blocks_at m input ≡ (
        let extra = name + (1 + m name) + 4 in
        if flag flags 6 then add32 extra (add32 (be32 m extra) 8) else extra)
blocks_from m input flags name same there = rw (same, there) refl

-- The level, and how many bytes it takes.
abbrev level_bytes : Header → List ℕ
level_bytes h = part (leb 0x940 h.version) (h.level ∷ [])

abbrev filter_bytes : Header → List ℕ
filter_bytes h = part (bit h.flags 11) h.filter

filter_read :
    (b : Bool) (p q : ℕ) (d : List ℕ)
    → p ≡ q
    → length d ≡ 4
    → (if b then p + 4 + 4 else p + 4) + 12 ≡ q + 4 + length (part b d) + 12
filter_read true p q d at four = omega (arith, at, four)
filter_read false p q d at four = omega (arith, at)

-- The size of the extra field is read where it is.
extra_read :
    (b : Bool) (m : Memory) (p : ℕ) (h : Header)
    → IsHeader h
    → Holds m p (part b (four_bytes (length h.extra) ++ (h.extra ++ h.extra_checksum)))
    → p + length (part b (four_bytes (length h.extra) ++ (h.extra ++ h.extra_checksum))) < 2 ^ 32
    → (if b then add32 p (add32 (be32 m p) 8) else p)
      ≡ p + length (part b (four_bytes (length h.extra) ++ (h.extra ++ h.extra_checksum)))
extra_read false m p h sizes at low = omega arith
extra_read true m p h sizes at low =
    let (size, rest) =
      Holds-split m p (p + 4) (four_bytes (length h.extra)) (h.extra ++ h.extra_checksum)
        (omega arith) at in
    let is = be32-Holds m p (length h.extra) size in
    omega (arith, is, sizes.extra_checksum_size, low, length-append h.extra h.extra_checksum)

-- Where the parts are.
module _ (m : Memory) (input : ℕ) (h : Header) (sizes : IsHeader h) where
  -- The flags, and the bytes behind them.
  flags_found :
      Holds m input (written h)
      → (flags_at m input ≡ input + 16 + length (level_bytes h))
        × (be32 m (input + 16 + length (level_bytes h)) ≡ h.flags)
        × Holds m
            (input + 20 + length (level_bytes h))
            (filter_bytes h ++ (h.mode_and_times ++ name_bytes h))
  flags_found at =
      let place = input + 16 + length (level_bytes h) in
      let e4 = flags_bytes h in
      let e3 = level_bytes h ++ e4 in
      let e2 = (h.method ∷ []) ++ e3 in
      let e1 = h.needed ++ e2 in
      let behind = filter_bytes h ++ (h.mode_and_times ++ name_bytes h) in
      let (magic, r1) =
        Holds-split m input (input + 9) lzop_magic (two_bytes h.version ++ e1) (omega arith) at in
      let (version, r2) =
        Holds-split m (input + 9) (input + 11) (two_bytes h.version) e1 (omega arith) r1 in
      let (needed, r3) =
        Holds-split m (input + 11) (input + 15) h.needed e2 (omega (arith, sizes.needed_size)) r2 in
      let (method, r4) =
        Holds-split m (input + 15) (input + 16) (h.method ∷ []) e3 (omega arith) r3 in
      let (level, r5) = Holds-split m (input + 16) place (level_bytes h) e4 refl r4 in
      let (flags, r6) =
        Holds-split m place (input + 20 + length (level_bytes h)) (four_bytes h.flags) behind
          (omega arith) r5 in
      let is = be16-Holds m (input + 9) h.version version in
      (ground (arith, is), be32-Holds m place h.flags flags, r6)

  -- The name's size and the extra field's, behind what is behind the flags.
  name_found :
      (p : ℕ)
      → Holds m p (filter_bytes h ++ (h.mode_and_times ++ name_bytes h))
      → (m (p + length (filter_bytes h) + 12) ≡ length h.name)
        × Holds m (p + length (filter_bytes h) + 17 + length h.name) (extra_bytes h)
  name_found p at =
      let place = p + length (filter_bytes h) in
      let (filter, r1) =
        Holds-split m p place (filter_bytes h) (h.mode_and_times ++ name_bytes h) refl at in
      let (times, r2) =
        Holds-split m place (place + 12) h.mode_and_times (name_bytes h)
          (omega (arith, sizes.times_size)) r1 in
      let (size, r3) =
        Holds-split m (place + 12) (place + 13) (length h.name ∷ [])
          (h.name ++ (h.checksum ++ extra_bytes h)) (omega arith) r2 in
      let (name, r4) =
        Holds-split m (place + 13) (place + 13 + length h.name) h.name (h.checksum ++ extra_bytes h)
          refl r3 in
      let (checksum, r5) =
        Holds-split m (place + 13 + length h.name) (place + 17 + length h.name) h.checksum
          (extra_bytes h) (omega (arith, sizes.checksum_size)) r4 in
      (size.0, r5)

  -- How long the header is.
  length-written :
      length (written h)
      ≡ 37
        + length (level_bytes h)
        + length (filter_bytes h)
        + length h.name
        + length (extra_bytes h)
  length-written = omega (
    arith,
    sizes.needed_size,
    sizes.times_size,
    sizes.checksum_size,
    length-append h.needed ((h.method ∷ []) ++ (level_bytes h ++ flags_bytes h)),
    length-append (level_bytes h) (flags_bytes h),
    length-append (filter_bytes h) (h.mode_and_times ++ name_bytes h),
    length-append h.mode_and_times (name_bytes h),
    length-append h.name (h.checksum ++ extra_bytes h),
    length-append h.checksum (extra_bytes h),
  )

  -- Behind the filter, by its flag.
  filter_end :
      (p : ℕ)
      → p ≡ input + 16 + length (level_bytes h)
      → (if flag h.flags 11 then p + 4 + 4 else p + 4) + 12
        ≡ input + 20 + length (level_bytes h) + length (filter_bytes h) + 12
  filter_end p at = rw (flag-bit h.flags 11) (
      filter_read (bit h.flags 11) p (input + 16 + length (level_bytes h)) h.filter at
        sizes.filter_size
      ∙ omega arith)

  -- Behind the extra field, by its size.
  extra_found :
      (p : ℕ)
      → Holds m p (extra_bytes h)
      → p + length (extra_bytes h) < 2 ^ 32
      → (if flag h.flags 6 then add32 p (add32 (be32 m p) 8) else p) ≡ p + length (extra_bytes h)
  extra_found p at low = rw (flag-bit h.flags 6) (extra_read (bit h.flags 6) m p h sizes at low)

  -- The flags and the blocks of an archive are where its header says.
  pub header_read :
      Holds m input (written h)
      → input + length (written h) < 2 ^ 32
      → (be32 m (flags_at m input) ≡ h.flags)
        × (blocks_at m input ≡ input + length (written h))
        × (has_bytes m input lzop_magic ≡ true)
  header_read at low =
      let (place, flags, rest) = flags_found at in
      let (size, extra) = name_found (input + 20 + length (level_bytes h)) rest in
      let flags' = ap (be32 m) place ∙ flags in
      let named : (if flag h.flags 11 then flags_at m input + 4 + 4 else flags_at m input + 4) + 12
          ≡ input + 20 + length (level_bytes h) + length (filter_bytes h) + 12 =
        filter_end (flags_at m input) place in
      let behind : input
            + 20
            + length (level_bytes h)
            + length (filter_bytes h)
            + 12
            + (1 + length h.name)
            + 4
          ≡ input + 20 + length (level_bytes h) + length (filter_bytes h) + 17 + length h.name =
        omega arith in
      let name_at = input + 20 + length (level_bytes h) + length (filter_bytes h) + 12 in
      let read = blocks_from m input h.flags name_at flags' named in
      let whole = length-written in
      let ends =
        extra_found
          (input + 20 + length (level_bytes h) + length (filter_bytes h) + 17 + length h.name) extra
          (omega (arith, low, whole)) in
      let magic =
        Holds-split m input (input + 9) lzop_magic
          (two_bytes h.version
            ++ (h.needed ++ ((h.method ∷ []) ++ (level_bytes h ++ flags_bytes h))))
          (omega arith) at in
      let from : ℕ → ℕ =
        λ extra. if flag h.flags 6 then add32 extra (add32 (be32 m extra) 8) else extra in
      (
        flags',
        read
            ∙ ap (λ n. from (name_at + (1 + n) + 4)) size
            ∙ ap from behind
            ∙ ends
            ∙ omega (arith, whole),
        has_bytes-Holds m input lzop_magic magic.0,
      )
