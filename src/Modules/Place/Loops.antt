-- ===== src/Modules/Place/Loops.antt =====
-- Both loops of `_module_place` together.
use lambda_os.Prelude.{ℕ, zero, suc, ◌+◌, ◌*◌}
use lambda_os.Std.Memory.{Memory}
use lambda_os.Elf.{Shdr, shdr}
use lambda_os.Modules.Place.Grown.{HasMask, Grown}
use lambda_os.Modules.Place.Inside.{Blocks, InMemory}

-- The alignments of the `n` headers at `p`, and the room the sections take at most.
abbrev pub HasMasks : Memory → (n p : ℕ) → Type 0
HasMasks m zero p = Unit
HasMasks m (suc n) p = HasMask (shdr m p) × HasMasks m n (p + 40)

abbrev pub room : Memory → (n p : ℕ) → ℕ
room m zero p = 0
room m (suc n) p = 0x7f + (shdr m p).sh_size + room m n (p + 40)

module _ (m : Memory) (elf sects : ℕ) (b : Blocks) (fits : InMemory b) where
  abbrev header_at : ℕ → Shdr
  header_at i = shdr m (sects + 40 * i)
