-- ===== src/Fs/Procfs/Open.antt =====
-- A file that is opened and closed again, and the descriptors that the guards let through.
use lambda_os.Prelude.{
  ℕ, ◌^◌, ◌<◌, ◌≤◌, ◌≡◌, ◌≢◌, ◌⊎◌, inl, inr, refl, sym, ap, ◌∙◌, true, false, some, ◌==◌, ltb,
  get_or, get_or-set_self, set, length, if◌then◌else◌, Bool-cases, arith,
}
use lambda_os.Prelude.Word.{neg, is_nonneg}
use lambda_os.Prelude.Outcome.{ok, fault}
use lambda_os.Fs.Procfs.{
  Process, Kernel, max_open_files, too_large, open_check_flags, open_found, proc_fs_open,
  proc_fs_close, proc_fs_read, proc_fs_write, proc_fs_ioctl, proc_fs_file, enfile,
}
use lambda_os.Fs.Procfs.Descriptor.{FirstFree, proc_add_file_first, FirstFree-bound, set_back}

-- The call of `fs_open` for the file `name`, with a handle at `hand`, goes well, and the handle is open.
pub record Opens {W : Type 0} (k : Kernel W) (p : Process) (w : W) (name flags hand : ℕ) (w' : W)
    : Type 0 where
  pub cwd : p.cwd ≢ 0
  pub found : k.find_file w p.cwd name ≢ 0
  pub allowed : open_check_flags k w (k.find_file w p.cwd name) flags ≡ 0
  pub given : hand ≢ 0
  pub made : (k.handle w flags).0 ≡ hand
  pub opened : k.fs_open (k.handle w flags).1 (k.find_file w p.cwd name) hand ≡ (0, w')
  pub flagged : k.is_open w' hand ≡ true

-- The process with a file at a place.
abbrev pub with_file : Process → ℕ → ℕ → Process
with_file p d hand = record p {
  open_files = set p.open_files d hand;
  file_position = set p.file_position d 0;
}

module _ {W : Type 0} (k : Kernel W) (p : Process) (w w' : W) (name flags hand d : ℕ)
    (opens : Opens k p w name flags hand w') (first : FirstFree p.open_files d)
    (eight : length p.open_files ≡ max_open_files) where
  bound : d < 8
  bound = omega (arith, FirstFree-bound p.open_files d first, eight)

  proc_fs_open_by : proc_fs_open k name flags (some p) w ≡ (
      if d == 0
      then ok (neg enfile, some (with_file p d hand), k.free_handle w' hand)
      else ok (d, some (with_file p d hand), w'))
  unfolding proc_fs_open open_found
  proc_fs_open_by =
      let file = k.find_file w p.cwd name in
      let cwd : (p.cwd == 0) ≡ false = ground (arith, opens.cwd) in
      let found : (file == 0) ≡ false = ground (arith, opens.found) in
      let added = proc_add_file_first p hand d first in
      let nonneg : is_nonneg d ≡ true = ground (arith, bound) in
      rw
        (
          cwd, found, opens.allowed, opens.made, opens.opened, added, nonneg, opens.flagged,
          proc_fs_open, open_found,
        )
        (elim (Bool-cases (d == 0)) [
          | inl first_place ↦ rw first_place refl
          | inr later ↦ rw later refl
        ])

  -- If a file is found and may be opened, the table of open files has its eight places, and the
  -- first free one is not the place 0, then proc_fs_open gives that place, which has the handle,
  -- and proc_fs_close of it returns 0, closes and frees the handle, and leaves the table of open
  -- files as it was before both.
  pub proc_fs_close-proc_fs_open :
      d ≢ 0
      → (p' : Process) × (proc_fs_open k name flags (some p) w ≡ ok (d, some p', w'))
        × (get_or p'.open_files d 0 ≡ hand)
        × (p'' : Process) × (proc_fs_close k d (some p') w'
            ≡ ok (0, some p'', k.free_handle (k.fs_close w' hand) hand))
        × (p''.open_files ≡ p.open_files)
        × (p''.cwd ≡ p.cwd)
  unfolding proc_fs_close
  proc_fs_close-proc_fs_open later =
      let p' = with_file p d hand in
      let other : (d == 0) ≡ false = ground (arith, later) in
      let held = get_or-set_self p.open_files d hand 0 (FirstFree-bound p.open_files d first) in
      let in_table : ltb d max_open_files ≡ true = ground (arith, bound) in
      let small : too_large d ≡ false = ground (arith, bound) in
      let live : (hand == 0) ≡ false = ground (arith, opens.given) in
      (
        p',
        proc_fs_open_by ∙ rw other refl,
        held,
        record p' { open_files = set p'.open_files d 0 },
        rw (small, in_table, held, live, proc_fs_close) refl,
        set_back p.open_files d hand first,
        refl,
      )

  -- If a file is found and may be opened, the table of open files has its eight places, and the
  -- place 0 is the first free one, then proc_fs_open returns -ENFILE and frees the handle, and the
  -- place 0 of the table has it.
  pub proc_fs_open_loses :
      d ≡ 0
      → (p' : Process) × (proc_fs_open k name flags (some p) w
          ≡ ok (neg enfile, some p', k.free_handle w' hand))
        × (get_or p'.open_files 0 0 ≡ hand)
  proc_fs_open_loses is_first =
      let p' = with_file p d hand in
      let here : (d == 0) ≡ true = ground (arith, is_first) in
      let held = get_or-set_self p.open_files d hand 0 (FirstFree-bound p.open_files d first) in
      (p', proc_fs_open_by ∙ rw here refl, ap (λ c. get_or p'.open_files c 0) (sym is_first) ∙ held)

-- For the descriptor MAX_OPEN_FILES and for every negative one, proc_fs_read, proc_fs_write,
-- proc_fs_close, proc_fs_mkdir, proc_fs_create and proc_fs_ioctl use a place outside the table of
-- open files.
pub proc_fs_faults :
    {W : Type 0} (k : Kernel W) (call : W → ℕ → ℕ × W) (p : Process) (w : W) (desc off sz buff : ℕ)
    → (desc ≡ max_open_files) ⊎ (2 ^ 31 ≤ desc)
    → (proc_fs_read k desc off sz buff (some p) w ≡ fault)
      × (proc_fs_write k desc off sz buff (some p) w ≡ fault)
      × (proc_fs_close k desc (some p) w ≡ fault)
      × (proc_fs_file k call desc (some p) w ≡ fault)
      × (proc_fs_ioctl k call desc (some p) w ≡ fault)
unfolding proc_fs_read proc_fs_write proc_fs_close proc_fs_file proc_fs_ioctl
proc_fs_faults k call p w desc off sz buff bad =
    let small : too_large desc ≡ false = ground (arith, bad) in
    let out : ltb desc max_open_files ≡ false = ground (arith, bad) in
    (
      rw (small, out, proc_fs_read) refl,
      rw (small, out, proc_fs_write) refl,
      rw (small, out, proc_fs_close) refl,
      rw (small, out, proc_fs_file) refl,
      rw (small, out, proc_fs_ioctl) refl,
    )
