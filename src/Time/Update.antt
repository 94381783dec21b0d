-- ===== src/Time/Update.antt =====
-- What time_update and add_time_block leave.
use native.Mathlib.Omega.{arith}
use lambda_os.Prelude.{
  append-nil, append_assoc, length-append, ℕ, suc, ◌+◌, ◌%◌, ◌^◌, ◌≡◌, refl, sym, ap, ap₂, ◌∙◌,
  Option, none, some, List, [], ◌∷◌, ◌++◌, leb, if◌then◌else◌, inl, inr, Bool-cases, Option-cases,
  get_or, set, length,
}
use lambda_os.Time.{
  TimeBlock, Timer, max_time_blocks, no_block, cleared, update_slot, update_loop, time_update,
}

-- A block at the time `now`: one whose event is due is cleared.
abbrev pub after : ℕ → TimeBlock → TimeBlock
after now b = elim b.event [ none ↦ b | some e ↦ if leb b.end_time now then cleared b else b ]

abbrev pub all_after : ℕ → List TimeBlock → List TimeBlock
all_after now [] = []
all_after now (b ∷ bs) = after now b ∷ all_after now bs

-- The events that are due, in the order of their slots.
abbrev pub due : ℕ → List TimeBlock → List (ℕ × ℕ)
due now [] = []
due now (b ∷ bs) = elim b.event [
  | none ↦ due now bs
  | some e ↦ if leb b.end_time now then (e, b.data_ptr) ∷ due now bs else due now bs
]

get_or-append :
    (bs : List TimeBlock) (b : TimeBlock) (cs : List TimeBlock)
    → get_or (bs ++ b ∷ cs) (length bs) no_block ≡ b
get_or-append [] b cs = refl
get_or-append (x ∷ bs) b cs = get_or-append bs b cs

set-append :
    (bs : List TimeBlock) (b c : TimeBlock) (cs : List TimeBlock)
    → set (bs ++ b ∷ cs) (length bs) c ≡ bs ++ c ∷ cs
set-append [] b c cs = refl
set-append (x ∷ bs) b c cs = ap (◌∷◌ x) (set-append bs b c cs)

-- An event function that leaves the timers alone.
abbrev pub IsQuiet : (ℕ → ℕ → Timer → Timer) → Type 0
IsQuiet call = (e d : ℕ) (t : Timer) → call e d t ≡ t

-- The slot `b` of the timers `t`, with number `n`.
abbrev slot_step : (ℕ → ℕ → Timer → Timer) → ℕ → Timer → TimeBlock → Timer
slot_step call n t b = elim b.event [
  | none ↦ t
  | some e ↦
      if leb b.end_time t.kerneltime
      then call e b.data_ptr (record t {
        blocks = set t.blocks n (cleared b);
        fired = t.fired ++ (e, b.data_ptr) ∷ [];
      })
      else t
]

abbrev timer : ℕ → List TimeBlock → List (ℕ × ℕ) → Timer
timer now bs fired = record { blocks = bs; kerneltime = now; fired = fired }

module _ (call : ℕ → ℕ → Timer → Timer) (quiet : IsQuiet call) (now : ℕ) where
  slot_step_at :
      (bs : List TimeBlock) (event : Option ℕ) (d f i : ℕ) (cs : List TimeBlock)
      (fired : List (ℕ × ℕ))
      → let b : TimeBlock = record { event = event; data_ptr = d; end_time = f; tid = i } in
        slot_step call (length bs) (timer now (bs ++ b ∷ cs) fired) b
        ≡ timer now (bs ++ after now b ∷ cs) (fired ++ due now (b ∷ []))
  slot_step_at bs none d f i cs fired = ap (timer now (bs ++ _ ∷ cs)) (sym (append-nil fired))
  slot_step_at bs (some e) d f i cs fired =
      let b : TimeBlock = record { event = some e; data_ptr = d; end_time = f; tid = i } in
      let called =
        quiet e d (timer now (set (bs ++ b ∷ cs) (length bs) (cleared b)) (fired ++ (e, d) ∷ [])) in
      elim (Bool-cases (leb f now)) [
        | inl up ↦
            rw up (
              called
              ∙ ap (λ x. timer now x (fired ++ (e, d) ∷ [])) (set-append bs b (cleared b) cs))
        | inr later ↦ rw later (ap (timer now (bs ++ b ∷ cs)) (sym (append-nil fired)))
      ]

  update_slot_lem :
      (bs : List TimeBlock) (b : TimeBlock) (cs : List TimeBlock) (fired : List (ℕ × ℕ))
      → update_slot call (length bs) (timer now (bs ++ b ∷ cs) fired)
        ≡ timer now (bs ++ after now b ∷ cs) (fired ++ due now (b ∷ []))
  update_slot_lem bs b cs fired =
      ap (slot_step call (length bs) (timer now (bs ++ b ∷ cs) fired)) (get_or-append bs b cs)
      ∙ slot_step_at bs b.event b.data_ptr b.end_time b.tid cs fired

  due-cons :
      (b : TimeBlock) (cs : List TimeBlock) → due now (b ∷ []) ++ due now cs ≡ due now (b ∷ cs)
  due-cons b cs = elim (Option-cases b.event) [
    | inl idle ↦ ground (arith, idle)
    | inr (e, has) ↦ ground (arith, has)
  ]

  update_loop_lem :
      (cs bs : List TimeBlock) (fired : List (ℕ × ℕ))
      → update_loop call (length cs) (length bs) (timer now (bs ++ cs) fired)
        ≡ timer now (bs ++ all_after now cs) (fired ++ due now cs)
  unfolding update_loop
  update_loop_lem [] bs fired = ap (timer now _) (sym (append-nil fired))
  update_loop_lem (b ∷ cs) bs fired =
      let b' = after now b in
      let fired' = fired ++ due now (b ∷ []) in
      let longer : suc (length bs) ≡ length (bs ++ b' ∷ []) =
        omega (arith, length-append bs (b' ∷ [])) in
      ap (update_loop call (length cs) (suc (length bs))) (update_slot_lem bs b cs fired)
      ∙ ap₂ (λ n xs. update_loop call (length cs) n (timer now xs fired')) longer
          (sym (append_assoc bs (b' ∷ []) cs))
      ∙ update_loop_lem cs (bs ++ b' ∷ []) fired'
      ∙ ap₂ (timer now) (append_assoc bs (b' ∷ []) (all_after now cs)) (
          append_assoc fired (due now (b ∷ [])) (due now cs) ∙ ap (λ x. fired ++ x) (due-cons b cs))

-- If the event functions leave the timers alone and the table has its 64 blocks, time_update
-- advances the time modulo 2 ^ 64, calls exactly the events whose end is not after the new time,
-- each once with its data and in the order of the slots, and clears their slots and no other.
pub time_update_lem :
    (call : ℕ → ℕ → Timer → Timer) (off : ℕ) (t : Timer)
    → IsQuiet call
    → length t.blocks ≡ max_time_blocks
    → let now = (t.kerneltime + off) % 2 ^ 64 in
      time_update call off t ≡ record {
        blocks = all_after now t.blocks;
        kerneltime = now;
        fired = t.fired ++ due now t.blocks;
      }
unfolding time_update
time_update_lem call off t quiet full =
    let now = (t.kerneltime + off) % 2 ^ 64 in
    ap (λ n. update_loop call n 0 (timer now t.blocks t.fired)) (sym full)
    ∙ update_loop_lem call quiet now t.blocks [] t.fired
