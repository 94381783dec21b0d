-- ===== src/Fs/Procfs/Descriptor.antt =====
-- Descriptors: the place that a new file takes, opening and closing, and numbers that are no place.
use lambda_os.Prelude.{
  ℕ, zero, suc, ◌+◌, ◌<◌, ◌≡◌, ◌≢◌, ◌⊎◌, inl, inr, refl, sym, ap, ◌∙◌, none, some, List, [], ◌∷◌,
  ◌==◌, set, length, All, Bool-cases, arith,
}
use lambda_os.Prelude.Word.{neg}
use lambda_os.Fs.Procfs.{Process, free_slot, proc_add_file, enfile}

-- Place `d` is the first free one of the table.
abbrev pub FirstFree : List ℕ → ℕ → Type 0
FirstFree [] d = ⊥
FirstFree (f ∷ fs) zero = f ≡ 0
FirstFree (f ∷ fs) (suc d) = (f ≢ 0) × FirstFree fs d

free_slot_cases :
    (fs : List ℕ) (i : ℕ)
    → (All (λ f. f ≢ 0) fs × (free_slot fs i ≡ none))
      ⊎ ((d : ℕ) × FirstFree fs d × (free_slot fs i ≡ some (i + d)))
unfolding free_slot
free_slot_cases [] i = inl (tt, refl)
free_slot_cases (f ∷ fs) i = elim (Bool-cases (f == 0)) [
  | inl free ↦
      let here : i + 0 ≡ i = omega arith in inr (0, ground (arith, free), rw (free, here) refl)
  | inr used ↦
      let occupied : f ≢ 0 = λ e. ground (arith, used, e) in
      elim (free_slot_cases fs (i + 1)) [
        | inl (all, full) ↦ inl ((occupied, all), rw used full)
        | inr (d, first, found) ↦
            let there : i + 1 + d ≡ i + suc d = omega arith in
            inr (suc d, (occupied, first), rw used (found ∙ ap some there))
      ]
]

-- Either every place of the table is used, and proc_add_file returns -ENFILE and changes nothing, or it
-- puts the file at the first free place, sets the position there to 0, and returns the place.
pub proc_add_file_lem :
    (p : Process) (file : ℕ)
    → (All (λ f. f ≢ 0) p.open_files × (proc_add_file p file ≡ (neg enfile, p)))
      ⊎ ((d : ℕ) × FirstFree p.open_files d
          × (proc_add_file p file ≡ (
            d,
            record p {
              open_files = set p.open_files d file;
              file_position = set p.file_position d 0;
            },
          )))
unfolding proc_add_file
proc_add_file_lem p file = elim (free_slot_cases p.open_files 0) [
  | inl (all, full) ↦ inl (all, rw (full, proc_add_file) refl)
  | inr (d, first, found) ↦
      let here : 0 + d ≡ d = omega arith in inr (d, first, rw (found, here, proc_add_file) refl)
]

FirstFree-unique : (fs : List ℕ) (c d : ℕ) → FirstFree fs c → FirstFree fs d → c ≡ d
FirstFree-unique [] c d a b = elim a [ ]
FirstFree-unique (f ∷ fs) zero zero a b = refl
FirstFree-unique (f ∷ fs) zero (suc d) a b = absurd (b.0 a)
FirstFree-unique (f ∷ fs) (suc c) zero a b = absurd (a.0 b)
FirstFree-unique (f ∷ fs) (suc c) (suc d) a b = ap suc (FirstFree-unique fs c d a.1 b.1)

FirstFree-not_full : (fs : List ℕ) (d : ℕ) → FirstFree fs d → All (λ f. f ≢ 0) fs → ⊥
FirstFree-not_full [] d a b = elim a [ ]
FirstFree-not_full (f ∷ fs) zero a b = b.0 a
FirstFree-not_full (f ∷ fs) (suc d) a b = FirstFree-not_full fs d a.1 b.1

-- The place that is free gets the file.
pub proc_add_file_first :
    (p : Process) (file d : ℕ)
    → FirstFree p.open_files d
    → proc_add_file p file ≡ (
      d,
      record p { open_files = set p.open_files d file; file_position = set p.file_position d 0 },
    )
proc_add_file_first p file d first = elim (proc_add_file_lem p file) [
  | inl (all, _) ↦ absurd (FirstFree-not_full p.open_files d first all)
  | inr (c, other, runs) ↦
      let same = FirstFree-unique p.open_files c d other first in rw (← same) runs
]

pub FirstFree-bound : (fs : List ℕ) (d : ℕ) → FirstFree fs d → d < length fs
FirstFree-bound [] d a = elim a [ ]
FirstFree-bound (f ∷ fs) zero a = omega arith
FirstFree-bound (f ∷ fs) (suc d) a = omega (arith, FirstFree-bound fs d a.1)

pub set_back : (fs : List ℕ) (d h : ℕ) → FirstFree fs d → set (set fs d h) d 0 ≡ fs
set_back [] d h a = elim a [ ]
set_back (f ∷ fs) zero h a = ap (λ x. x ∷ fs) (sym a)
set_back (f ∷ fs) (suc d) h a = ap (◌∷◌ f) (set_back fs d h a.1)
