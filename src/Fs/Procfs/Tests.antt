-- ===== src/Fs/Procfs/Tests.antt =====
-- A process with one open file, on which the theorems apply.
use lambda_os.Prelude.{ℕ, ◌+◌, ◌≡◌, inl, refl, true, false, some, [], ◌∷◌, get_or, arith}
use lambda_os.Prelude.Word.{neg}
use lambda_os.Prelude.Outcome.{ok, fault}
use lambda_os.Fs.Procfs.{
  Process, Kernel, open_check_flags, enfile, proc_fs_open, proc_fs_close, proc_fs_read,
  proc_fs_write, proc_fs_file, proc_fs_ioctl,
}
use lambda_os.Fs.Procfs.Open.{Opens, proc_fs_close-proc_fs_open, proc_fs_open_loses, proc_fs_faults}

-- A kernel that counts the handles it freed; every name is the file 5, and the handle is at 9.
abbrev counting : Kernel ℕ
counting = record {
  fs_read = λ w hand off sz buff. (sz, w);
  fs_write = λ w hand off sz buff. (sz, w);
  find_file = λ w dir name. 5;
  fs_open = λ w file hand. (0, w);
  fs_close = λ w hand. w;
  handle = λ w flags. (9, w);
  free_handle = λ w hand. w + 1;
  is_dir = λ w file. false;
  is_blocking = λ w hand. false;
  is_open = λ w hand. true;
  file_of = λ w hand. 5;
  run_sched = λ w. w;
}

-- The place `first` and the six last places of the table are free or not.
abbrev process : ℕ → Process
process first = record {
  cwd = 1;
  open_files = first ∷ 0 ∷ 0 ∷ 0 ∷ 0 ∷ 0 ∷ 0 ∷ 0 ∷ [];
  file_position = 0 ∷ 0 ∷ 0 ∷ 0 ∷ 0 ∷ 0 ∷ 0 ∷ 0 ∷ [];
}

opens : (first : ℕ) → Opens counting (process first) 0 70 0 9 0
unfolding open_check_flags
opens first = record {
  cwd = λ e. omega (arith, e);
  found = λ e. omega (arith, e);
  allowed = refl;
  given = λ e. omega (arith, e);
  made = refl;
  opened = refl;
  flagged = refl;
}

-- The file gets the place 1, and is closed.
proc_fs_close-proc_fs_open_example :
    (p' : Process) × (proc_fs_open counting 70 0 (some (process 3)) 0 ≡ ok (1, some p', 0))
    × (get_or p'.open_files 1 0 ≡ 9)
    × (p'' : Process) × (proc_fs_close counting 1 (some p') 0 ≡ ok (0, some p'', 1))
    × (p''.open_files ≡ (process 3).open_files)
    × (p''.cwd ≡ 1)
proc_fs_close-proc_fs_open_example =
    proc_fs_close-proc_fs_open counting (process 3) 0 0 70 0 9 1 (opens 3)
      ((λ e. omega (arith, e)), refl) refl (λ e. omega (arith, e))

-- The file gets the place 0, and the call fails.
proc_fs_open_loses_example :
    (p' : Process) × (proc_fs_open counting 70 0 (some (process 0)) 0 ≡ ok (neg enfile, some p', 1))
    × (get_or p'.open_files 0 0 ≡ 9)
proc_fs_open_loses_example =
    proc_fs_open_loses counting (process 0) 0 0 70 0 9 0 (opens 0) refl refl refl

-- The descriptor 8 is let through.
proc_fs_faults_example :
    (proc_fs_read counting 8 0 1 0 (some (process 3)) 0 ≡ fault)
    × (proc_fs_write counting 8 0 1 0 (some (process 3)) 0 ≡ fault)
    × (proc_fs_close counting 8 (some (process 3)) 0 ≡ fault)
    × (proc_fs_file counting (λ w f. (0, w)) 8 (some (process 3)) 0 ≡ fault)
    × (proc_fs_ioctl counting (λ w f. (0, w)) 8 (some (process 3)) 0 ≡ fault)
proc_fs_faults_example = proc_fs_faults counting (λ w f. (0, w)) (process 3) 0 8 0 1 0 (inl refl)
