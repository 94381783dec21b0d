-- ===== src/User/Malloc/Init.antt =====
-- The heap that a program starts with.
use lambda_os.Prelude.{ℕ, zero, suc, ◌+◌, ◌≤◌, ◌^◌, ◌≡◌, ◌≢◌, refl, some, ◌∷◌, length, All, arith}
use lambda_os.Mm.Alloc.Table.{Allocs}
use lambda_os.Mm.Alloc.Found.{TablesFit}
use lambda_os.Mm.Alloc.Sound.{InSpace, Each, IsSound}
use lambda_os.Mm.Alloc.Tally.{tally_block}
use lambda_os.Mm.Alloc.Cover.{within, covering, holding, cover, held}
use lambda_os.Mm.Alloc.Disjoint.{IsDisjoint}
use lambda_os.Mm.Alloc.{free_entry}
use lambda_os.User.Malloc.{lib_alloc_init, initial_sz, nulls, slots}

-- Nothing is in the slots.
record Empty (n : ℕ) : Type 0 where
  long : length (slots n) ≡ n
  each : All InSpace (slots n)
  covers : (x : ℕ) → tally_block (covering x) (slots n) ≡ 0
  holds : (x : ℕ) → tally_block (holding x) (slots n) ≡ 0

slots-Empty : (n : ℕ) → Empty n
slots-Empty zero = record { long = refl; each = tt; covers = λ x. refl; holds = λ x. refl }
slots-Empty (suc n) =
    let r = slots-Empty n in
    record {
      long = omega (arith, r.long);
      each = (λ v. absurd (cc), r.each);
      covers = λ x. omega (arith, r.covers x);
      holds = λ x. omega (arith, r.holds x);
    }

-- There are no tables behind the NULL pointers.
record Absent (n : ℕ) : Type 0 where
  long : length (nulls n) ≡ n
  tables : TablesFit (nulls n)
  each : Each (nulls n)
  covers : (x : ℕ) → cover x (nulls n) ≡ 0
  holds : (x : ℕ) → held x (nulls n) ≡ 0

nulls-Absent : (n : ℕ) → Absent n
nulls-Absent zero = record {
  long = refl;
  tables = tt;
  each = tt;
  covers = λ x. refl;
  holds = λ x. refl;
}
nulls-Absent (suc n) =
    let r = nulls-Absent n in
    record {
      long = omega (arith, r.long);
      tables = r.tables;
      each = r.each;
      covers = r.covers;
      holds = r.holds;
    }

-- If the three calls of mmap give memory below 2 ^ 32, __lib_alloc_init leaves a well-formed table
-- in which no two valid entries share an address, whose entries cover exactly the initial memory,
-- none of it in use.
pub lib_alloc_init_lem :
    (pointers first memory : ℕ)
    → pointers ≢ 0
    → first ≢ 0
    → memory ≢ 0
    → memory + initial_sz ≤ 2 ^ 32
    → (a : Allocs) × (lib_alloc_init pointers first memory ≡ some a)
      × IsSound a
      × IsDisjoint a
      × ((x : ℕ) → cover x a ≡ within memory initial_sz x)
      × ((x : ℕ) → held x a ≡ 0)
unfolding lib_alloc_init
lib_alloc_init_lem pointers first memory p f m fits =
    let s = slots-Empty 340 in
    let r = nulls-Absent 1023 in
    (
      some (free_entry memory initial_sz ∷ slots 340) ∷ nulls 1023,
      ground (arith, p, f, m),
      record {
        tables = (omega (arith, s.long), r.tables);
        few = omega (arith, r.long);
        each = ((λ v. omega (arith, fits), s.each), r.each);
      },
      λ x. ground (arith, s.covers x, r.covers x),
      λ x. omega (arith, s.covers x, r.covers x),
      λ x. omega (arith, s.holds x, r.holds x),
    )
