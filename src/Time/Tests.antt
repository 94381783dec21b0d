-- ===== src/Time/Tests.antt =====
-- An instance of the theorem on timers.
use lambda_os.Prelude.{◌≡◌, ◌+◌, ◌%◌, ◌^◌, ◌++◌, refl, some, [], ◌∷◌, replicate}
use lambda_os.Time.{Timer, no_block, time_update}
use lambda_os.Time.Update.{due, all_after, time_update_lem}

-- Event 1 is due at 10, event 2 at 30, and the other slots are free.
abbrev clock : Timer
clock = record {
  blocks =
      record { event = some 1; data_ptr = 5; end_time = 10; tid = 0 }
      ∷ record { event = some 2; data_ptr = 6; end_time = 30; tid = 0 }
      ∷ replicate 62 no_block;
  kerneltime = 8;
  fired = [];
}

now_due : due 20 clock.blocks ≡ (1, 5) ∷ []
now_due = refl

one_tick : time_update (λ e d t. t) 12 clock ≡ record {
  blocks = all_after ((8 + 12) % 2 ^ 64) clock.blocks;
  kerneltime = (8 + 12) % 2 ^ 64;
  fired = [] ++ due ((8 + 12) % 2 ^ 64) clock.blocks;
}
one_tick = time_update_lem (λ e d t. t) 12 clock (λ e d t. refl) refl
