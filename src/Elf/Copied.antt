-- ===== src/Elf/Copied.antt =====
-- The loop of elf_load_symbols that copies the defined symbols.
use mathlib.Core.Path.{subst}
use lambda_os.Prelude.{
  ℕ, zero, suc, ◌+◌, ◌*◌, ◌%◌, ◌^◌, ◌<◌, ◌≤◌, ◌≡◌, ◌≢◌, ◌⊎◌, inl, inr, refl, sym, ◌∙◌, true, false,
  ◌==◌, Bool-cases, arith,
}
use lambda_os.Prelude.Word.{add32}
use lambda_os.Std.Memory.{Memory, Apart, word, half, put_word}
use lambda_os.Std.Memory.Same.{word-Same, half-Same, word-put_word, put_word-outside}
use lambda_os.Std.Bytes.Compare.{IsBytes}
use lambda_os.Elf.{Symbol, put_symbol, count_defined, copy_defined}

-- The array at `to` has an entry for each symbol of the `n` at `p` whose section index, the half at 14,
-- is not 0, in order: the address of its name in the string table at `names`, the value and the size from
-- 4 and 8, and the index.
abbrev pub Entries : Memory → (names n p : ℕ) → Memory → (to : ℕ) → Type 0
Entries m names zero p m' to = Unit
Entries m names (suc n) p m' to =
    ((half m (p + 14) ≡ 0) × Entries m names n (p + 16) m' to)
    ⊎ ((half m (p + 14) ≢ 0)
        × (word m' to ≡ (names + word m p) % 2 ^ 32)
        × (word m' (to + 4) ≡ word m (p + 4))
        × (word m' (to + 8) ≡ word m (p + 8))
        × (word m' (to + 12) ≡ half m (p + 14))
        × Entries m names n (p + 16) m' (to + 16))

pub word_other :
    (m : Memory) (p w q : ℕ) → (q + 4 ≤ p) ⊎ (p + 4 ≤ q) → word (put_word m p w) q ≡ word m q
word_other m p w q apart = word-Same m (put_word m p w) q (λ i lt.
    put_word-outside m p w (q + i)
      (elim apart [ inl low ↦ inl (omega (arith, low)) | inr high ↦ inr (omega (arith, high)) ]))

-- The fields of an entry that was written.
record Fields (m : Memory) (p : ℕ) (s : Symbol) : Type 0 where
  name : word m p ≡ s.name
  addr : word m (p + 4) ≡ s.addr
  size : word m (p + 8) ≡ s.size
  section : word m (p + 12) ≡ s.section

put_symbol-Fields :
    (m : Memory) (p : ℕ) (s : Symbol)
    → s.name < 2 ^ 32
    → s.addr < 2 ^ 32
    → s.size < 2 ^ 32
    → s.section < 2 ^ 32
    → Fields (put_symbol m p s) p s
put_symbol-Fields m p s a b c d =
    let m1 = put_word m (p + 12) s.section in
    let m2 = put_word m1 p s.name in
    let m3 = put_word m2 (p + 4) s.addr in
    record {
      name =
          word_other m3 (p + 8) s.size p (inl (omega arith))
          ∙ word_other m2 (p + 4) s.addr p (inl (omega arith))
          ∙ word-put_word m1 p s.name a;
      addr =
          word_other m3 (p + 8) s.size (p + 4) (inl (omega arith))
          ∙ word-put_word m2 (p + 4) s.addr b;
      size = word-put_word m3 (p + 8) s.size c;
      section =
          word_other m3 (p + 8) s.size (p + 12) (inr (omega arith))
          ∙ word_other m2 (p + 4) s.addr (p + 12) (inr (omega arith))
          ∙ word_other m1 p s.name (p + 12) (inr (omega arith))
          ∙ word-put_word m (p + 12) s.section d;
    }

put_symbol-outside :
    (m : Memory) (p : ℕ) (s : Symbol) (q : ℕ) → (q < p) ⊎ (p + 16 ≤ q) → put_symbol m p s q ≡ m q
put_symbol-outside m p s q out =
    let m1 = put_word m (p + 12) s.section in
    let m2 = put_word m1 p s.name in
    let m3 = put_word m2 (p + 4) s.addr in
    put_word-outside m3 (p + 8) s.size q
      (elim out [ inl low ↦ inl (omega (arith, low)) | inr high ↦ inr (omega (arith, high)) ])
    ∙ put_word-outside m2 (p + 4) s.addr q
        (elim out [ inl low ↦ inl (omega (arith, low)) | inr high ↦ inr (omega (arith, high)) ])
    ∙ put_word-outside m1 p s.name q
        (elim out [ inl low ↦ inl (omega (arith, low)) | inr high ↦ inr (omega (arith, high)) ])
    ∙ put_word-outside m (p + 12) s.section q
        (elim out [ inl low ↦ inl (omega (arith, low)) | inr high ↦ inr (omega (arith, high)) ])

-- A field of the source is the same where the table is the same bytes.
module _ (m mc : Memory) (p : ℕ) (same : (q : ℕ) → p ≤ q → q < p + 16 → mc q ≡ m q) where
  field_same : (o : ℕ) → o ≤ 12 → word mc (p + o) ≡ word m (p + o)
  field_same o le =
      word-Same m mc (p + o) (λ i lt. same (p + o + i) (omega arith) (omega (arith, le, lt)))

  name_same : word mc p ≡ word m p
  name_same = word-Same m mc p (λ i lt. same (p + i) (omega arith) (omega (arith, lt)))

  index_same : half mc (p + 14) ≡ half m (p + 14)
  index_same = half-Same m mc (p + 14) (λ i lt. same (p + 14 + i) (omega arith) (omega (arith, lt)))

word_small : (m : Memory) (p : ℕ) → IsBytes m → word m p < 2 ^ 32
word_small m p b = omega (arith, b p, b (p + 1), b (p + 2), b (p + 3))

half_small : (m : Memory) (p : ℕ) → IsBytes m → half m p < 2 ^ 32
half_small m p b = omega (arith, b p, b (p + 1))

-- The loop makes the entries, and writes nothing else.
module _ (m : Memory) (bytes : IsBytes m) (names : ℕ) where
  abbrev entry_of : ℕ → Symbol
  entry_of p = record {
    name = add32 names (word m p);
    addr = word m (p + 4);
    size = word m (p + 8);
    section = half m (p + 14);
  }

  -- What the loop has written, in memory that was `mc`.
  abbrev pub IsCopied : ℕ → ℕ → ℕ → Memory → Memory → Type 0
  IsCopied n p to mc m' =
      Entries m names n p m' to
      × ((q : ℕ) → (q < to) ⊎ (to + 16 * count_defined m n p ≤ q) → m' q ≡ mc q)

  count_undefined :
      (n p : ℕ)
      → (half m (p + 14) == 0) ≡ true
      → count_defined m (suc n) p ≡ count_defined m n (p + 16)
  unfolding count_defined
  count_undefined n p undefined = rw (undefined, count_defined) (omega arith)

  count_one :
      (n p : ℕ)
      → (half m (p + 14) == 0) ≡ false
      → count_defined m (suc n) p ≡ 1 + count_defined m n (p + 16)
  unfolding count_defined
  count_one n p defined = rw (defined, count_defined) refl

  module _ (mc : Memory) (n p to : ℕ) (same : (q : ℕ) → p ≤ q → q < p + 16 → mc q ≡ m q) where
    step_undefined :
        (half m (p + 14) == 0) ≡ true
        → copy_defined mc names (suc n) p to ≡ copy_defined mc names n (p + 16) to
    unfolding copy_defined
    step_undefined undefined = rw (index_same m mc p same, undefined, copy_defined) refl

    step_defined :
        (half m (p + 14) == 0) ≡ false
        → copy_defined mc names (suc n) p to
          ≡ copy_defined (put_symbol mc to (entry_of p)) names n (p + 16) (to + 16)
    unfolding copy_defined
    step_defined defined =
        rw
          (
            index_same m mc p same,
            name_same m mc p same,
            field_same m mc p same 4 (omega arith),
            field_same m mc p same 8 (omega arith),
            defined,
            copy_defined,
          )
          refl

  -- An entry that was written stays there.
  entry_stays :
      (mc m' : Memory) (p to : ℕ)
      → ((q : ℕ) → q < to + 16 → m' q ≡ put_symbol mc to (entry_of p) q)
      → Fields m' to (entry_of p)
  entry_stays mc m' p to kept =
      let m1 = put_symbol mc to (entry_of p) in
      let f =
        put_symbol-Fields mc to (entry_of p) (omega arith) (word_small m (p + 4) bytes)
          (word_small m (p + 8) bytes) (half_small m (p + 14) bytes) in
      let stays = λ (o : ℕ) (le : o ≤ 12).
        word-Same m1 m' (to + o) (λ i lt. kept (to + o + i) (omega (arith, le, lt))) in
      record {
        name = word-Same m1 m' to (λ i lt. kept (to + i) (omega (arith, lt))) ∙ f.name;
        addr = stays 4 (omega arith) ∙ f.addr;
        size = stays 8 (omega arith) ∙ f.size;
        section = stays 12 (omega arith) ∙ f.section;
      }

  pub copy_defined-IsCopied :
      (n p to : ℕ) (mc : Memory)
      → ((q : ℕ) → p ≤ q → q < p + 16 * n → mc q ≡ m q)
      → Apart to (16 * count_defined m n p) p (16 * n)
      → IsCopied n p to mc (copy_defined mc names n p to)
  unfolding copy_defined
  copy_defined-IsCopied zero p to mc same apart = (tt, λ q out. refl)
  copy_defined-IsCopied (suc n) p to mc same apart =
      let near = λ (q : ℕ) (low : p ≤ q) (high : q < p + 16). same q low (omega (arith, high)) in
      elim (Bool-cases (half m (p + 14) == 0)) [
        | inl undefined ↦
            let count = count_undefined n p undefined in
            let (entries, kept) =
              copy_defined-IsCopied n (p + 16) to mc
                (λ q low high. same q (omega (arith, low)) (omega (arith, high)))
                (elim apart [
                  | inl below ↦ inl (omega (arith, below, count))
                  | inr above ↦ inr (omega (arith, above))
                ]) in
            subst (IsCopied (suc n) p to mc) (sym (step_undefined mc n p to near undefined)) (
              inl (ground (arith, undefined), entries),
              λ q out.
                  kept q
                    (elim out [ inl low ↦ inl low | inr high ↦ inr (omega (arith, high, count)) ]),
            )
        | inr defined ↦
            let count = count_one n p defined in
            let m1 = put_symbol mc to (entry_of p) in
            let written = put_symbol-outside mc to (entry_of p) in
            let (entries, kept) =
              copy_defined-IsCopied n (p + 16) (to + 16) m1
                (λ q low high.
                  written q (elim apart [
                    | inl below ↦ inr (omega (arith, below, count, low))
                    | inr above ↦ inl (omega (arith, above, high))
                  ])
                  ∙ same q (omega (arith, low)) (omega (arith, high)))
                (elim apart [
                  | inl below ↦ inl (omega (arith, below, count))
                  | inr above ↦ inr (omega (arith, above))
                ]) in
            let end = copy_defined m1 names n (p + 16) (to + 16) in
            let f = entry_stays mc end p to (λ q low. kept q (inl low)) in
            subst (IsCopied (suc n) p to mc) (sym (step_defined mc n p to near defined)) (
              inr ((λ e. ground (arith, defined, e)), f.name, f.addr, f.size, f.section, entries),
              λ q out.
                  kept q (elim out [
                    | inl low ↦ inl (omega (arith, low))
                    | inr high ↦ inr (omega (arith, high, count))
                  ])
                  ∙ written q (elim out [
                    | inl low ↦ inl low
                    | inr high ↦ inr (omega (arith, high, count))
                  ]),
            )
      ]

  -- The entries are the same in memory that has the same bytes there.
  pub Entries-Same :
      (n p to : ℕ) (m1 m2 : Memory)
      → ((q : ℕ) → to ≤ q → q < to + 16 * count_defined m n p → m2 q ≡ m1 q)
      → Entries m names n p m1 to
      → Entries m names n p m2 to
  Entries-Same zero p to m1 m2 same e = tt
  Entries-Same (suc n) p to m1 m2 same (inl (undefined, rest)) =
      let count = count_undefined n p (ground (arith, undefined)) in
      inl (
        undefined,
        Entries-Same n (p + 16) to m1 m2 (λ q low high. same q low (omega (arith, high, count)))
            rest,
      )
  Entries-Same (suc n) p to m1 m2 same (inr (defined, a, b, c, d, rest)) =
      let count = count_one n p (ground (arith, defined)) in
      let near =
        λ (q : ℕ) (low : to ≤ q) (high : q < to + 16). same q low (omega (arith, high, count)) in
      inr (
        defined,
        name_same m1 m2 to near ∙ a,
        field_same m1 m2 to near 4 (omega arith) ∙ b,
        field_same m1 m2 to near 8 (omega arith) ∙ c,
        field_same m1 m2 to near 12 (omega arith) ∙ d,
        Entries-Same n (p + 16) (to + 16) m1 m2
            (λ q low high. same q (omega (arith, low)) (omega (arith, high, count))) rest,
      )
