-- ===== src/Modules/Place/Grown.antt =====
-- How a section makes the measured sizes grow.
use mathlib.Core.Option.{some-injective}
use lambda_os.Prelude.{
  ℕ, ◌+◌, ◌^◌, ◌≤◌, ◌<◌, ◌≡◌, inl, inr, sym, ap, true, false, not, some, ◌==◌, ltb, Bool-cases,
  arith,
}
use lambda_os.Prelude.Word.{add32}
use lambda_os.Prelude.Bits.{ones, ones_mono}
use lambda_os.Elf.{Shdr}
use lambda_os.Modules.Place.{force_align, align_mask, Layout, measure_section}
use lambda_os.Modules.Place.Align.{force_align_lem}

-- The mask of the alignment is that of a power of two up to 0x80.
abbrev pub HasMask : Shdr → Type 0
HasMask s = (k : ℕ) × (k ≤ 7) × (align_mask s ≡ ones k)

-- A section starts at a multiple of its alignment and takes its size.
abbrev pub placed_end : ℕ → Shdr → ℕ
placed_end offset s = add32 (force_align offset (align_mask s)) s.sh_size

-- The layout `l'` after the section `s` in the layout `l`.
pub data Grown (s : Shdr) (l l' : Layout) : Type 0 where
  grown_prog :
      (s.sh_type == 1) ≡ true
      → l'.prog_size ≡ placed_end l.prog_size s
      → l'.nobits_size ≡ l.nobits_size
      → l'.n_relocs ≡ l.n_relocs + 1
      → Grown s l l'
  grown_nobits :
      (s.sh_type == 1) ≡ false
      → (s.sh_type == 8) ≡ true
      → l'.prog_size ≡ l.prog_size
      → l'.nobits_size ≡ placed_end l.nobits_size s
      → l'.n_relocs ≡ l.n_relocs + 1
      → Grown s l l'
  grown_none : (s.sh_type == 1) ≡ false → (s.sh_type == 8) ≡ false → l' ≡ l → Grown s l l'

pub measure_section-Grown :
    (s : Shdr) (l l' : Layout) → measure_section s l ≡ some l' → Grown s l l'
unfolding measure_section
measure_section-Grown s l l' runs = elim (Bool-cases (not (s.sh_addr == 0))) [
  | inl addressed ↦ ground (arith, runs, addressed)
  | inr free ↦ elim (Bool-cases (ltb 0x80 s.sh_addralign)) [
    | inl large ↦ ground (arith, runs, free, large)
    | inr small ↦ elim (Bool-cases (s.sh_type == 1)) [
      | inl prog ↦
          let same = sym (some-injective _ _ (rw (free, small, prog, measure_section) at runs)) in
          grown_prog prog (ap (λ x. x.prog_size) same) (ap (λ x. x.nobits_size) same)
            (ap (λ x. x.n_relocs) same)
      | inr other ↦ elim (Bool-cases (s.sh_type == 8)) [
        | inl nobits ↦
            let same =
              sym (some-injective _ _ (rw (free, small, other, nobits, measure_section) at runs)) in
            grown_nobits other nobits (ap (λ x. x.prog_size) same) (ap (λ x. x.nobits_size) same)
              (ap (λ x. x.n_relocs) same)
        | inr neither ↦
            grown_none other neither
              (sym (some-injective _ _ (rw (free, small, other, neither, measure_section) at runs)))
      ]
    ]
  ]
]

-- Where a section that starts behind `offset` ends.
pub placed_end_lem :
    (offset : ℕ) (s : Shdr)
    → HasMask s
    → offset + 0x7f + s.sh_size < 2 ^ 32
    → (start : ℕ) × (force_align offset (align_mask s) ≡ start)
      × (offset ≤ start)
      × (placed_end offset s ≡ start + s.sh_size)
      × (start ≤ offset + 0x7f)
placed_end_lem offset s (k, few, mask) room =
    let most : ones k ≤ 0x7f = ones_mono k 7 few in
    let (up, near, _) = force_align_lem k offset (omega (arith, few)) (omega (arith, most, room)) in
    (
      force_align offset (ones k),
      ap (force_align offset) mask,
      up,
      rw mask (omega (arith, near, most, room)),
      omega (arith, near, most),
    )

-- How much a section makes the sizes grow.
pub Grown-bounds :
    (s : Shdr) (l l' : Layout)
    → HasMask s
    → Grown s l l'
    → l.prog_size + 0x7f + s.sh_size < 2 ^ 32
    → l.nobits_size + 0x7f + s.sh_size < 2 ^ 32
    → (l.prog_size ≤ l'.prog_size)
      × (l'.prog_size ≤ l.prog_size + 0x7f + s.sh_size)
      × (l.nobits_size ≤ l'.nobits_size)
      × (l'.nobits_size ≤ l.nobits_size + 0x7f + s.sh_size)
Grown-bounds s l l' mask (grown_none _ _ same) p n =
    rw same (omega arith, omega arith, omega arith, omega arith)
Grown-bounds s l l' mask (grown_prog _ ends kept _) p n =
    let (start, _, after, ended, near) = placed_end_lem l.prog_size s mask p in
    (
      omega (arith, ends, ended, after),
      omega (arith, ends, ended, near),
      omega (arith, kept),
      omega (arith, kept),
    )
Grown-bounds s l l' mask (grown_nobits _ _ kept ends _) p n =
    let (start, _, after, ended, near) = placed_end_lem l.nobits_size s mask n in
    (
      omega (arith, kept),
      omega (arith, kept),
      omega (arith, ends, ended, after),
      omega (arith, ends, ended, near),
    )
