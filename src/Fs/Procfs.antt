-- ===== src/Fs/Procfs.antt =====
-- The file calls of a process, kernel/src/fs/procfs.c and proc_add_file of kernel/src/proc/proc.c. The
-- files themselves, the allocator and the scheduler are an interface to a state `W`; handles and files
-- are addresses, with 0 for NULL. A descriptor is an `int`, given by its bit pattern, and one that is not
-- an index of the table of open files, where it is used, is a fault.
pub mod Descriptor
pub mod Open
mod Tests
use lambda_os.Prelude.{
  ℕ, zero, suc, ◌+◌, ◌-◌, ◌%◌, ◌^◌, ◌/◌, Bool, true, false, not, ◌&&◌, ◌||◌, Option, none, some,
  List, [], ◌∷◌, ◌==◌, ltb, leb, get_or, set, length, if◌then◌else◌,
}
use lambda_os.Prelude.Word.{neg, eunspec, add32, sub32, is_nonneg}
use lambda_os.Prelude.Outcome.{Outcome, ok, panic, fault, ◌>>=◌}

abbrev pub ebadf : ℕ
ebadf = 9

abbrev pub enotdir : ℕ
enotdir = 20

abbrev pub enfile : ℕ
enfile = 23

abbrev pub enoent : ℕ
enoent = 2

abbrev pub max_open_files : ℕ
max_open_files = 8

-- The fields of `struct kproc` that the calls use.
pub record Process : Type 0 where
  pub cwd : ℕ
  pub open_files : List ℕ
  pub file_position : List ℕ

-- What the calls use of the rest of the kernel. `handle` is a fresh handle with the given flags, all
-- else 0, and `open_check` is whether the file has FS_DIR.
pub record Kernel (W : Type 0) : Type 0 where
  pub fs_read : W → (hand off sz buff : ℕ) → ℕ × W
  pub fs_write : W → (hand off sz buff : ℕ) → ℕ × W
  pub find_file : W → (dir name : ℕ) → ℕ
  pub fs_open : W → (file hand : ℕ) → ℕ × W
  pub fs_close : W → ℕ → W
  pub handle : W → (flags : ℕ) → ℕ × W
  pub free_handle : W → ℕ → W
  pub is_dir : W → (file : ℕ) → Bool
  pub is_blocking : W → (hand : ℕ) → Bool
  pub is_open : W → (hand : ℕ) → Bool
  pub file_of : W → (hand : ℕ) → ℕ
  pub run_sched : W → W

-- `desc > MAX_OPEN_FILES`
abbrev pub too_large : ℕ → Bool
too_large desc = is_nonneg desc && ltb max_open_files desc

-- `open_files[desc]`
abbrev pub open_file : Process → ℕ → Outcome ℕ
open_file p desc = if ltb desc max_open_files then ok (get_or p.open_files desc 0) else fault

-- The first free place of the table from `i` on.
pub free_slot : List ℕ → ℕ → Option ℕ
free_slot [] i = none
free_slot (f ∷ fs) i = let rest = free_slot fs (i + 1) in if f == 0 then some i else rest

-- `proc_add_file`
pub proc_add_file : Process → (file : ℕ) → ℕ × Process
unfolding free_slot
proc_add_file p file = elim (free_slot p.open_files 0) [
  | none ↦ (neg enfile, p)
  | some i ↦ (
    i,
    record p { open_files = set p.open_files i file; file_position = set p.file_position i 0 },
  )
]

module _ {W : Type 0} (k : Kernel W) where
  -- `proc_fs_read`; `none` is no current thread.
  pub proc_fs_read : (desc off sz buff : ℕ) → Option Process → W → Outcome (ℕ × W)
  proc_fs_read desc off sz buff none w = ok (0, w)
  proc_fs_read desc off sz buff (some p) w =
      if too_large desc
      then ok (0, w)
      else open_file p desc >>= λ hand.
          ok (if hand == 0 then (0, w) else k.fs_read w hand off sz buff)

  pub proc_fs_write : (desc off sz buff : ℕ) → Option Process → W → Outcome (ℕ × W)
  proc_fs_write desc off sz buff none w = ok (if too_large desc then (0, w) else (neg eunspec, w))
  proc_fs_write desc off sz buff (some p) w =
      if too_large desc
      then ok (0, w)
      else open_file p desc >>= λ hand.
          ok (if hand == 0 then (0, w) else k.fs_write w hand off sz buff)

  -- The loop of `proc_fs_read_blk`, on fuel.
  pub read_blocking : ℕ → (hand off sz buff count : ℕ) → W → Option (ℕ × W)
  read_blocking zero hand off sz buff count w = if ltb count sz then none else some (count, w)
  read_blocking (suc fuel) hand off sz buff count w =
      let (ret, w') = k.fs_read w hand off (sub32 sz count) (buff + count) in
      let rest = read_blocking fuel hand off sz buff (add32 count ret) (k.run_sched w') in
      if ltb count sz
      then (if ltb 0x80000000 ret then some (count, w') else rest)
      else some (count, w)

  -- `proc_fs_read_blk` with the table of positions; `none` is out of fuel.
  pub proc_fs_read_blk :
      ℕ → (desc off sz buff : ℕ) → Option Process → W → Option (Outcome (ℕ × Option Process × W))
  unfolding read_blocking
  proc_fs_read_blk fuel desc off sz buff none w = some (ok (0, none, w))
  proc_fs_read_blk fuel desc off sz buff (some p) w =
      let hand = get_or p.open_files desc 0 in
      let position = get_or p.file_position desc 0 in
      let (n, w') = k.fs_read w hand position sz buff in
      let at_position = record p { file_position = set p.file_position desc (add32 position n) } in
      let blocking : Option (Outcome (ℕ × Option Process × W)) =
        elim (read_blocking fuel hand off sz buff 0 w) [
          | none ↦ none
          | some (c, w'') ↦ some (ok (c, some p, w''))
        ] in
      if too_large desc
      then some (ok (0, some p, w))
      else if not (ltb desc max_open_files)
      then some fault
      else if hand == 0
      then some (ok (0, some p, w))
      else if k.is_blocking w hand
      then blocking
      else some (ok (n, some at_position, w'))

  -- `_open_check_flags`; OFLAGS_DIRECTORY is the bit 11.
  pub open_check_flags : W → (file flags : ℕ) → ℕ
  open_check_flags w file flags =
      if not (flags / 2 ^ 11 % 2 == 0) && not (k.is_dir w file) then neg enotdir else 0

  -- `proc_fs_open` after the file was found.
  pub open_found : (file flags : ℕ) → Process → W → Outcome (ℕ × Process × W)
  unfolding proc_add_file
  open_found file flags p w =
      let (hand, w1) = k.handle w flags in
      let (code, w2) = k.fs_open w1 file hand in
      let (ret, p') = proc_add_file p hand in
      if not (code == 0)
      then ok (neg eunspec, p, k.free_handle w2 hand)
      else if is_nonneg ret && not (ret == 0)
      then (if k.is_open w2 hand then ok (ret, p', w2) else panic)
      else ok (neg enfile, p', k.free_handle w2 hand)

  pub proc_fs_open : (name flags : ℕ) → Option Process → W → Outcome (ℕ × Option Process × W)
  unfolding open_check_flags open_found
  proc_fs_open name flags none w = ok (neg eunspec, none, w)
  proc_fs_open name flags (some p) w =
      let file = k.find_file w p.cwd name in
      let code = open_check_flags w file flags in
      let opened : Outcome (ℕ × Option Process × W) =
        open_found file flags p w >>= λ (r, p', w'). ok (r, some p', w') in
      if p.cwd == 0
      then ok (neg eunspec, some p, w)
      else if file == 0
      then ok (neg enoent, some p, w)
      else if not (code == 0)
      then ok (code, some p, w)
      else opened

  pub proc_fs_close : (desc : ℕ) → Option Process → W → Outcome (ℕ × Option Process × W)
  proc_fs_close desc none w = ok (if too_large desc then neg ebadf else neg eunspec, none, w)
  proc_fs_close desc (some p) w =
      if too_large desc
      then ok (neg ebadf, some p, w)
      else open_file p desc >>= λ hand. ok (
          if hand == 0 then (neg ebadf, some p, w) else (
            0,
            some (record p { open_files = set p.open_files desc 0 }),
            k.free_handle (k.fs_close w hand) hand,
          ))

  -- `proc_fs_mkdir` and `proc_fs_create` with the call of the file, and `proc_fs_ioctl` with the call of
  -- the handle.
  pub proc_fs_file : (call : W → ℕ → ℕ × W) → (desc : ℕ) → Option Process → W → Outcome (ℕ × W)
  proc_fs_file call desc none w = ok (if too_large desc then neg ebadf else neg eunspec, w)
  proc_fs_file call desc (some p) w =
      if too_large desc
      then ok (neg ebadf, w)
      else open_file p desc >>= λ hand.
          ok (if hand == 0 then (neg ebadf, w) else call w (k.file_of w hand))

  pub proc_fs_ioctl : (call : W → ℕ → ℕ × W) → (desc : ℕ) → Option Process → W → Outcome (ℕ × W)
  proc_fs_ioctl call desc none w = ok (if too_large desc then neg ebadf else neg eunspec, w)
  proc_fs_ioctl call desc (some p) w =
      if too_large desc
      then ok (neg ebadf, w)
      else open_file p desc >>= λ hand. ok (if hand == 0 then (neg ebadf, w) else call w hand)

  -- `proc_fs_access`; `cwdover` is SYSCALL_ACCESS_FLAG_CWDOVER.
  pub proc_fs_access : (dirfd pathname : ℕ) → (cwdover : Bool) → Process → W → ℕ
  proc_fs_access dirfd pathname cwdover p w =
      let hand = get_or p.open_files dirfd 0 in
      let found = λ (dir : ℕ). if k.find_file w dir pathname == 0 then neg enoent else 0 in
      if cwdover
      then (if not (is_nonneg dirfd) || leb max_open_files dirfd || hand == 0
          then neg ebadf
          else found (k.file_of w hand))
      else found p.cwd

  -- `proc_fs_stat` with mm_check_addr and kfstat.
  pub proc_fs_stat :
      (check : ℕ → Bool) → (kfstat : W → ℕ → ℕ × W) → (path buf : ℕ) → Option Process → W → ℕ × W
  proc_fs_stat check kfstat path buf curr w =
      let stat = λ (p : Process).
        (let file = k.find_file w p.cwd path in
          if p.cwd == 0
          then (neg eunspec, w)
          else if file == 0
          then (neg enoent, w)
          else kfstat w file) in
      if not (check path) || not (check buf)
      then (neg 22, w)
      else elim curr [ none ↦ (neg eunspec, w) | some p ↦ stat p ]
