-- ===== src/Modules/Place/Overlap.antt =====
-- Where the sections without bits start.
use Prim.Native.Nat.{bit_and}
use mathlib.Core.Option.{some-injective}
use lambda_os.Prelude.{ℕ, ◌+◌, ◌-◌, ◌^◌, ◌≤◌, ◌<◌, ◌≡◌, inl, inr, ap, some, Option-cases, arith}
use lambda_os.Prelude.Word.{add32}
use lambda_os.Prelude.Bits.{low_few, bit_and_mask}
use lambda_os.Std.Memory.{Memory}
use lambda_os.Elf.{ehdr, elf_get_sections}
use lambda_os.Modules.Place.{Layout, measure_loop, measure}

-- The first page behind an address.
next_page :
    (base : ℕ)
    → base + 0x1000 < 2 ^ 32
    → (base < bit_and (add32 base 0x1000) (2 ^ 32 - 1 - 0xfff))
      × (bit_and (add32 base 0x1000) (2 ^ 32 - 1 - 0xfff) ≤ base + 0x1000)
next_page base small =
    let sum : add32 base 0x1000 ≡ base + 0x1000 = omega (arith, small) in
    let (whole, _) = bit_and_mask 12 (base + 0x1000) (omega arith) small in
    rw sum (omega (arith, whole, low_few 12 (base + 0x1000)), omega (arith, whole))

-- If the first loop of _module_place gives a layout with more than 0x1000 bytes of sections with
-- bits, and their base is more than 0x1000 below 2 ^ 32, then the base of the sections without
-- bits lies inside the sections with bits.
pub measure_overlaps :
    (m : Memory) (elf baseaddr : ℕ) (l : Layout)
    → measure m elf baseaddr ≡ some l
    → l.prog_base + 0x1000 < 2 ^ 32
    → 0x1000 < l.prog_size
    → (l.prog_base < l.nobits_base) × (l.nobits_base < l.prog_base + l.prog_size)
unfolding measure
measure_overlaps m elf baseaddr l runs small large =
    let start : Layout = record {
      prog_base = baseaddr;
      prog_size = 0;
      nobits_base = 0;
      nobits_size = 0;
      n_relocs = 0;
    } in
    elim (Option-cases (measure_loop m (ehdr m elf).e_shnum (elf_get_sections m elf) start)) [
      | inl fails ↦ ground (arith, runs, fails)
      | inr (found, ran) ↦
          let same = some-injective _ _ (rw (ran, measure) at runs) in
          let base : found.prog_base ≡ l.prog_base = ap (λ x. x.prog_base) same in
          let next : bit_and (add32 found.prog_base 0x1000) (2 ^ 32 - 1 - 0xfff) ≡ l.nobits_base =
            ap (λ x. x.nobits_base) same in
          let page = next_page found.prog_base (omega (arith, base, small)) in
          (omega (arith, page.0, base, next), omega (arith, page.1, base, next, large))
    ]
