-- ===== src/Fs/Ops.antt =====
-- The calls of kernel/src/fs/fs.c that go through a table of operations: reading and writing a
-- handle, and making a directory or a file, or a request to a handle. `safety` is whether
-- CONFIG_SAFETY_CHECKS is set; without it SAFETY_CHECK(X) is 1, whatever X is.
use lambda_os.Prelude.{
  ℕ, ◌≡◌, ◌⊎◌, inl, inr, refl, Bool, true, false, not, ◌||◌, Option, none, some, if◌then◌else◌,
}
use lambda_os.Prelude.Word.{neg}

abbrev pub einval : ℕ
einval = 22

-- The end of a call: its result, or a NULL pointer followed.
pub data Reply : Type 0 where
  result : ℕ → Reply
  fault : Reply

-- SAFETY_CHECK of a pointer, by whether it is not NULL.
abbrev pub safety_check : Bool → Bool → Bool
safety_check safety live = if safety then live else true

-- A pointer to a table of operations with one of its fields: NULL, or a table whose field is NULL or
-- a function, given by the result of its call.
abbrev pub Ops : Type 0
Ops = Option (Option ℕ)

abbrev pub is_live {ℓ} : {A : Type ℓ} → Option A → Bool
is_live none = false
is_live (some x) = true

-- `fs_read` and `fs_write`, by the table of the handle.
pub call_handle : Bool → Option Ops → Reply
call_handle safety none = if safety then result 0 else fault
call_handle safety (some none) = if safety then result 0 else fault
call_handle safety (some (some none)) = result 0
call_handle safety (some (some (some r))) = result r

-- `fs_mkdir`, `fs_create` and `fs_ioctl`: the first condition that holds ends the test, and the
-- second lacks the negation of the first. For a NULL pointer one of the two holds in either build.
pub call_file : Bool → Option Ops → Reply
call_file safety none = result (neg einval)
call_file safety (some ops) =
    let field : Reply = elim ops [
      | none ↦ fault
      | some none ↦ result (neg einval)
      | some (some r) ↦ result r
    ] in
    if not (safety_check safety true) || safety_check safety (is_live ops)
    then result (neg einval)
    else field

-- Whatever the file or handle, its table of operations and the build, fs_mkdir, fs_create and
-- fs_ioctl return -EINVAL or follow a NULL pointer.
pub call_file_never :
    (safety : Bool) (f : Option Ops)
    → (call_file safety f ≡ result (neg einval)) ⊎ (call_file safety f ≡ fault)
unfolding call_file
call_file_never true none = inl refl
call_file_never false none = inl refl
call_file_never true (some none) = inr refl
call_file_never true (some (some o)) = inl refl
call_file_never false (some o) = inl refl
