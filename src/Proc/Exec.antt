-- ===== src/Proc/Exec.antt =====
-- The arguments of a new process image, kernel/src/proc/exec.c. A table of arguments is an address with
-- the pointers to the strings there and a NULL pointer behind them. The tables are read on fuel and the
-- strings on the fuel `sfuel` of strlen; `none` is out of fuel. The allocator gives the address of the
-- block for a size.
pub mod Table
pub mod Copy
pub mod Fill
mod Tests
use lambda_os.Prelude.{ℕ, zero, suc, ◌+◌, ◌*◌, ◌%◌, ◌^◌, Option, none, some, ◌==◌, if◌then◌else◌}
use lambda_os.Std.Memory.{Memory, word, put_word}
use lambda_os.Std.Bytes.{memcpy}
use lambda_os.Std.Text.{strlen}

-- The first loops: how many arguments there are from the place `i` on, counted from 0, and the bytes
-- they take with their pointers. The sum of both is cut to 32 bits.
pub measure_args : (fuel sfuel : ℕ) → Memory → (args i : ℕ) → Option (ℕ × ℕ)
measure_args zero sfuel m args i = none
measure_args (suc fuel) sfuel m args i =
    let rest = measure_args fuel sfuel m args (i + 1) in
    let counted : Option (ℕ × ℕ) = elim (strlen sfuel m (word m (args + 4 * i))) [
      | none ↦ none
      | some len ↦ elim rest [ none ↦ none | some (n, size) ↦ some (n, 4 + len + 1 + size) ]
    ] in
    if word m (args + 4 * i) == 0 then some (i, 0) else counted

-- The loops that copy, with `n` arguments to go at the place `i`: the memory, and the offset in the
-- block at `buffer` behind the last string. The length of an argument is computed once.
pub copy_args : (sfuel args table buffer : ℕ) → (n i off : ℕ) → Memory → Option (Memory × ℕ)
copy_args sfuel args table buffer zero i off m = some (m, off)
copy_args sfuel args table buffer (suc n) i off m =
    let pointed = put_word m (table + 4 * i) (buffer + off) in
    let arg = word pointed (args + 4 * i) in
    elim (strlen sfuel pointed arg) [
      | none ↦ none
      | some len ↦
          copy_args sfuel args table buffer n (i + 1) (off + len + 1)
            (memcpy pointed (buffer + off) arg (len + 1))
    ]

-- What the calls leave: the size of the block, the offset behind the last string, the two tables and
-- the memory.
pub record Copied : Type 0 where
  pub data_sz : ℕ
  pub off : ℕ
  pub argv : ℕ
  pub envp : ℕ
  pub memory : Memory

-- The second half of the calls, for `argc` and `envc` arguments and a block at `buffer`.
pub fill : (sfuel argv envp argc envc data_sz buffer : ℕ) → Memory → Option Copied
unfolding copy_args
fill sfuel argv envp argc envc data_sz buffer m =
    elim (copy_args sfuel argv buffer buffer argc 0 ((argc + envc + 2) * 4) m) [
      | none ↦ none
      | some (m1, off1) ↦
          (let table = buffer + 4 * (argc + 1) in
            elim (copy_args sfuel envp table buffer envc 0 off1
              (put_word m1 (buffer + 4 * argc) 0)) [
                | none ↦ none
                | some (m2, off2) ↦ some record {
                  data_sz = data_sz;
                  off = off2;
                  argv = buffer;
                  envp = table;
                  memory = put_word m2 (table + 4 * envc) 0;
                }
              ])
    ]

-- `_store_arguments`, with the address that kmalloc gives, and `_exec_copy_arguments`, with that of
-- kmamalloc: the block is mapped where it is.
pub store_arguments : (alloc : ℕ → ℕ) → (fuel sfuel : ℕ) → Memory → (argv envp : ℕ) → Option Copied
unfolding measure_args fill
store_arguments alloc fuel sfuel m argv envp = elim (measure_args fuel sfuel m argv 0) [
  | none ↦ none
  | some (argc, args_size) ↦ elim (measure_args fuel sfuel m envp 0) [
    | none ↦ none
    | some (envc, env_size) ↦
        (let data_sz = (2 * 4 + args_size + env_size) % 2 ^ 32 in
          fill sfuel argv envp argc envc data_sz (alloc data_sz) m)
  ]
]
