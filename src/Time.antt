-- ===== src/Time.antt =====
-- The timers of kernel/src/time/time.c. An event is a function pointer, `none` for NULL, and `fired` is
-- the events called so far with their data, in order.
pub mod Update
mod Tests
use lambda_os.Prelude.{
  ℕ, zero, suc, ◌+◌, ◌%◌, ◌^◌, Option, none, some, List, [], ◌∷◌, ◌++◌, leb, if◌then◌else◌, get_or,
  set,
}
use lambda_os.Prelude.Outcome.{Outcome, ok, panic}

pub record TimeBlock : Type 0 where
  pub event : Option ℕ
  pub data_ptr : ℕ
  pub end_time : ℕ
  pub tid : ℕ

-- `_time_blocks` and `kerneltime`.
pub record Timer : Type 0 where
  pub blocks : List TimeBlock
  pub kerneltime : ℕ
  pub fired : List (ℕ × ℕ)

abbrev pub max_time_blocks : ℕ
max_time_blocks = 64

abbrev pub no_block : TimeBlock
no_block = record { event = none; data_ptr = 0; end_time = 0; tid = 0 }

-- The block in the first free slot; `none` where there is no free one.
pub take_slot : TimeBlock → List TimeBlock → Option (List TimeBlock)
take_slot new [] = none
take_slot new (b ∷ bs) = elim b.event [
  | some e ↦ elim (take_slot new bs) [ none ↦ none | some bs' ↦ some (b ∷ bs') ]
  | none ↦ some (new ∷ bs)
]

pub add_time_block : Option ℕ → ℕ → ℕ → ℕ → Timer → Outcome Timer
unfolding take_slot
add_time_block func data_ptr off tid t =
    let new : TimeBlock = record {
      event = func;
      data_ptr = data_ptr;
      end_time = (t.kerneltime + off) % 2 ^ 64;
      tid = tid;
    } in
    elim (take_slot new t.blocks) [ none ↦ panic | some bs ↦ ok (record t { blocks = bs }) ]

-- A slot that `_do_time_block_timeup` frees: its data stays.
abbrev pub cleared : TimeBlock → TimeBlock
cleared b = record b { event = none; end_time = 0; tid = 0 }

-- `call e d` is what the event `e` with the data `d` does to the timers.
module _ (call : ℕ → ℕ → Timer → Timer) where
  -- `_do_time_block_timeup` of slot `n`, whose event is `e`.
  abbrev pub time_up : ℕ → ℕ → Timer → Timer
  time_up n e t =
      let b = get_or t.blocks n no_block in
      let t' : Timer = record t {
        blocks = set t.blocks n (cleared b);
        fired = t.fired ++ (e, b.data_ptr) ∷ [];
      } in
      call e b.data_ptr t'

  -- The body of the loop of `time_update`, for slot `i`.
  abbrev pub update_slot : ℕ → Timer → Timer
  update_slot i t = elim (get_or t.blocks i no_block).event [
    | none ↦ t
    | some e ↦ if leb (get_or t.blocks i no_block).end_time t.kerneltime then time_up i e t else t
  ]

  -- The loop, with `n` slots to go.
  pub update_loop : ℕ → ℕ → Timer → Timer
  update_loop zero i t = t
  update_loop (suc n) i t = update_loop n (suc i) (update_slot i t)

  pub time_update : ℕ → Timer → Timer
  unfolding update_loop
  time_update off t =
      update_loop max_time_blocks 0 (record t { kerneltime = (t.kerneltime + off) % 2 ^ 64 })
