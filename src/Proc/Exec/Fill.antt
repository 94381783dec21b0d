-- ===== src/Proc/Exec/Fill.antt =====
-- Both tables of arguments in one block.
use lambda_os.Prelude.{
  ℕ, ◌+◌, ◌*◌, ◌%◌, ◌^◌, ◌<◌, ◌≤◌, ◌≡◌, inl, inr, refl, ◌∙◌, some, List, [], ◌∷◌, length, All,
  arith,
}
use lambda_os.Std.Memory.{Memory, word, put_word}
use lambda_os.Std.Memory.Same.{CString-moved, word-Same, word-put_word, put_word-outside}
use lambda_os.Proc.Exec.{copy_args, Copied, fill, store_arguments}
use lambda_os.Proc.Exec.Table.{Vector, bytes_of, Row, Row-Vector, Row-same, measure_args_lem}
use lambda_os.Proc.Exec.Copy.{Away, Kept, Apart-outside, narrow, Clear, Filled, copy_args_lem}

-- The arguments `args` and `envs` at `argv` and `envp` after a call with a block of `size` bytes at `buffer`.
pub record Stored (m : Memory) (buffer size : ℕ) (args envs : List (List ℕ)) (c : Copied)
    : Type 0 where
  pub sized : c.data_sz ≡ size
  pub exact : c.off ≡ c.data_sz
  pub argv : Vector c.memory c.argv args
  pub envp : Vector c.memory c.envp envs
  pub kept : Kept buffer size m c.memory

-- The bytes that both tables take.
abbrev pub stored_size : List (List ℕ) → List (List ℕ) → ℕ
stored_size args envs =
    2 * 4 + (4 * length args + bytes_of args) + (4 * length envs + bytes_of envs)

-- A table as it was, in a memory where only the block has changed.
Vector-Kept :
    (m m' : Memory) (lo n p : ℕ) (ss : List (List ℕ))
    → Kept lo n m m'
    → Vector m p ss
    → Away m lo n p ss
    → Vector m' p ss × Away m' lo n p ss
Vector-Kept m m' lo n p [] kept vector away =
    (word-Same m m' p (λ i lt. kept (p + i) (Apart-outside lo n p 4 i away lt)) ∙ vector, away)
Vector-Kept m m' lo n p (s ∷ ss) kept (nonnull, string, later) (table, text, rest) =
    let same = word-Same m m' p (λ i lt. kept (p + i) (Apart-outside lo n p 4 i table lt)) in
    let moved =
      CString-moved m m' (word m p) (word m p) s
        (λ i le.
          kept (word m p + i)
            (Apart-outside lo n (word m p) (length s + 1) i text (omega (arith, le))))
        string in
    let others = Vector-Kept m m' lo n (p + 4) ss kept later rest in
    rw same ((nonnull, moved, others.0), (table, text, others.1))

fill_runs :
    (sfuel argv envp argc envc data_sz buffer : ℕ) (m m1 m2 : Memory) (off1 off2 : ℕ)
    → copy_args sfuel argv buffer buffer argc 0 ((argc + envc + 2) * 4) m ≡ some (m1, off1)
    → copy_args sfuel envp
        (buffer + 4 * (argc + 1))
        buffer
        envc
        0
        off1
        (put_word m1 (buffer + 4 * argc) 0)
      ≡ some (m2, off2)
    → fill sfuel argv envp argc envc data_sz buffer m
      ≡ some record {
        data_sz = data_sz;
        off = off2;
        argv = buffer;
        envp = buffer + 4 * (argc + 1);
        memory = put_word m2 (buffer + 4 * (argc + 1) + 4 * envc) 0;
      }
unfolding fill
fill_runs sfuel argv envp argc envc data_sz buffer m m1 m2 off1 off2 first second =
    rw (first, second, fill) refl

-- The memory after the first table was closed, from that before the loops.
closed_first :
    (buffer : ℕ) (m m1 : Memory) (args envs : List (List ℕ))
    → Filled m m1 (buffer + 4 * 0) (buffer + (length args + length envs + 2) * 4) args
    → Kept buffer (stored_size args envs) m (put_word m1 (buffer + 4 * length args) 0)
closed_first buffer m m1 args envs filled q out =
    let size = stored_size args envs in
    put_word-outside m1 (buffer + 4 * length args) 0 q
      (narrow buffer size (buffer + 4 * length args) 4 q (omega arith) (omega arith) out)
    ∙ filled.others q (
      narrow buffer size (buffer + 4 * 0) (4 * length args) q (omega arith) (omega arith) out,
      narrow buffer size (buffer + (length args + length envs + 2) * 4) (bytes_of args) q
          (omega arith) (omega arith) out,
    )

-- The memory at the end, from that after the first table was closed: the second table, its end and its
-- strings have changed.
closed_second :
    (m m2 : Memory) (table to : ℕ) (envs : List (List ℕ)) (q : ℕ)
    → Filled m m2 (table + 4 * 0) to envs
    → Clear table (4 * length envs + 4) to (bytes_of envs) q
    → put_word m2 (table + 4 * length envs) 0 q ≡ m q
closed_second m m2 table to envs q filled out =
    put_word-outside m2 (table + 4 * length envs) 0 q (
      narrow table (4 * length envs + 4) (table + 4 * length envs) 4 q (omega arith) (omega arith)
        out.0)
    ∙ filled.others q (
      narrow table (4 * length envs + 4) (table + 4 * 0) (4 * length envs) q (omega arith)
          (omega arith) out.0,
      out.1,
    )

-- A table that was filled and closed.
closed_Vector :
    (m m' : Memory) (table to : ℕ) (ss : List (List ℕ))
    → 0 < to
    → table + 4 * length ss + 4 ≤ to
    → Filled m m' (table + 4 * 0) to ss
    → Vector (put_word m' (table + 4 * length ss) 0) table ss
      × Row (put_word m' (table + 4 * length ss) 0) table to ss
closed_Vector m m' table to ss pos apart filled =
    let end = table + 4 * length ss in
    let here : table + 4 * 0 ≡ table = omega arith in
    let row =
      Row-same m' (put_word m' end 0) table to ss
        (λ q low high. put_word-outside m' end 0 q (inl high))
        (λ q low high. put_word-outside m' end 0 q (inr (omega (arith, low, apart))))
        (rw (← here) filled.row) in
    (Row-Vector (put_word m' end 0) table to ss pos row (word-put_word m' end 0 (omega arith)), row)

Stored-both :
    (buffer : ℕ) (m m1 m2 : Memory) (args envs : List (List ℕ))
    → Filled m m1 (buffer + 4 * 0) (buffer + (length args + length envs + 2) * 4) args
    → Filled
        (put_word m1 (buffer + 4 * length args) 0)
        m2
        (buffer + 4 * (length args + 1) + 4 * 0)
        (buffer + ((length args + length envs + 2) * 4 + bytes_of args))
        envs
    → Stored m buffer (stored_size args envs) args envs record {
      data_sz = stored_size args envs;
      off = (length args + length envs + 2) * 4 + bytes_of args + bytes_of envs;
      argv = buffer;
      envp = buffer + 4 * (length args + 1);
      memory = put_word m2 (buffer + 4 * (length args + 1) + 4 * length envs) 0;
    }
Stored-both buffer m m1 m2 args envs filled1 filled2 =
    let size = stored_size args envs in
    let strings = (length args + length envs + 2) * 4 in
    let table = buffer + 4 * (length args + 1) in
    let to = buffer + (strings + bytes_of args) in
    let m1' = put_word m1 (buffer + 4 * length args) 0 in
    let m3 = put_word m2 (table + 4 * length envs) 0 in
    let later = λ (q : ℕ) (out : Clear table (4 * length envs + 4) to (bytes_of envs) q).
      closed_second m1' m2 table to envs q filled2 out in
    let (_, row1) =
      closed_Vector m m1 buffer (buffer + strings) args (omega arith) (omega arith) filled1 in
    let (second, _) = closed_Vector m1' m2 table to envs (omega arith) (omega arith) filled2 in
    let row =
      Row-same m1' m3 buffer (buffer + strings) args
        (λ q low high. later q (inl (omega (arith, high)), inl (omega (arith, high))))
        (λ q low high. later q (inr (omega (arith, low)), inl (omega (arith, high)))) row1 in
    let end = word-Same m1' m3 (buffer + 4 * length args) (λ j lt.
      later (buffer + 4 * length args + j) (inl (omega (arith, lt)), inl (omega (arith, lt)))) in
    record {
      sized = refl;
      exact = omega arith;
      argv =
          Row-Vector m3 buffer (buffer + strings) args (omega arith) row
            (end ∙ word-put_word m1 (buffer + 4 * length args) 0 (omega arith));
      envp = second;
      kept = λ q out.
          later q (
            narrow buffer size table (4 * length envs + 4) q (omega arith) (omega arith) out,
            narrow buffer size to (bytes_of envs) q (omega arith) (omega arith) out,
          )
          ∙ closed_first buffer m m1 args envs filled1 q out;
    }

module _ (sfuel argv envp buffer : ℕ) (m : Memory) (args envs : List (List ℕ))
    (args_at : Vector m argv args) (envs_at : Vector m envp envs)
    (args_away : Away m buffer (stored_size args envs) argv args)
    (envs_away : Away m buffer (stored_size args envs) envp envs)
    (args_short : All (λ s. length s < sfuel) args) (envs_short : All (λ s. length s < sfuel) envs)
    (top : buffer + stored_size args envs < 2 ^ 32) where
  fill_lem :
      (c : Copied) × (fill sfuel argv envp
          (length args)
          (length envs)
          (stored_size args envs)
          buffer
          m
        ≡ some c)
      × Stored m buffer (stored_size args envs) args envs c
  fill_lem =
      let size = stored_size args envs in
      let table = buffer + 4 * (length args + 1) in
      let strings = (length args + length envs + 2) * 4 in
      let zero_at : argv + 4 * 0 ≡ argv = omega arith in
      let (m1, runs1, filled1) =
        copy_args_lem sfuel argv buffer buffer size m top args 0 strings m (λ q out. refl)
          (rw zero_at args_at) (rw zero_at args_away) args_short (omega arith) (omega arith)
          (omega arith) in
      let m1' = put_word m1 (buffer + 4 * length args) 0 in
      let (envs_then, away_then) =
        Vector-Kept m m1' buffer size envp envs (closed_first buffer m m1 args envs filled1) envs_at
          envs_away in
      let zero_env : envp + 4 * 0 ≡ envp = omega arith in
      let (m2, runs2, filled2) =
        copy_args_lem sfuel envp table buffer size m1' top envs 0 (strings + bytes_of args) m1'
          (λ q out. refl) (rw zero_env envs_then) (rw zero_env away_then) envs_short (omega arith)
          (omega arith) (omega arith) in
      (
        _,
        fill_runs sfuel argv envp (length args) (length envs) size buffer m m1 m2 _ _ runs1 runs2,
        Stored-both buffer m m1 m2 args envs filled1 filled2,
      )

  -- If argv and envp are tables of strings with a NULL pointer behind them, each string shorter
  -- than the fuel for strings and each table shorter than the fuel, the allocator gives a block of
  -- the measured size that ends below 2 ^ 32, and the tables and strings do not meet it, then
  -- storing the arguments fills the block exactly, both new tables have the same strings in the
  -- same order with a NULL pointer behind them, and the memory outside the block is as it was.
  pub store_arguments_lem :
      (alloc : ℕ → ℕ) (fuel : ℕ)
      → alloc (stored_size args envs) ≡ buffer
      → length args < fuel
      → length envs < fuel
      → (c : Copied) × (store_arguments alloc fuel sfuel m argv envp ≡ some c)
        × Stored m buffer (stored_size args envs) args envs c
  unfolding store_arguments
  store_arguments_lem alloc fuel got args_enough envs_enough =
      let (c, filled, stored) = fill_lem in
      let zero_at : argv + 4 * 0 ≡ argv = omega arith in
      let zero_env : envp + 4 * 0 ≡ envp = omega arith in
      let none_before : (n : ℕ) → 0 + n ≡ n = λ n. omega arith in
      let args_size =
        measure_args_lem fuel sfuel m argv 0 args (rw zero_at args_at) args_enough args_short in
      let envs_size =
        measure_args_lem fuel sfuel m envp 0 envs (rw zero_env envs_at) envs_enough envs_short in
      let size : (2 * 4 + (4 * length args + bytes_of args) + (4 * length envs + bytes_of envs))
            % 2 ^ 32
          ≡ stored_size args envs =
        omega (arith, top) in
      (
        c,
        rw
            (
              args_size,
              envs_size,
              size,
              got,
              none_before (length args),
              none_before (length envs),
              store_arguments,
            )
            filled,
        stored,
      )
