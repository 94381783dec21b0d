-- ===== src/Modules/Place/Tests.antt =====
-- A module with code and a section without bits, on which the theorems apply.
use lambda_os.Prelude.{◌+◌, ◌<◌, ◌≡◌, refl, some, ◌==◌, if◌then◌else◌, arith}
use lambda_os.Std.Memory.{Memory}
use lambda_os.Modules.Place.{measure}
use lambda_os.Modules.Place.Inside.{Blocks}
use lambda_os.Modules.Place.Overlap.{measure_overlaps}

-- A header at 0 with two section headers at 64: 0x2000 bytes of code and 16 bytes without bits, both at
-- multiples of 16.
abbrev object : Memory
object q =
    if q == 32
    then 64
    else if q == 48
    then 2
    else if q == 68
    then 1
    else if q == 85
    then 0x20
    else if q == 96
    then 16
    else if q == 108
    then 8
    else if q == 124
    then 16
    else if q == 136
    then 16
    else 0

abbrev blocks : Blocks
blocks = record {
  layout = record {
    prog_base = 0x100000;
    prog_size = 0x2000;
    nobits_base = 0x101000;
    nobits_size = 16;
    n_relocs = 2;
  };
  prog_phys = 0x40000;
  nobits_phys = 0x50000;
  table = 0x60000;
}

measured : measure object 0 0x100000 ≡ some blocks.layout
unfolding measure
measured = refl

-- The section without bits starts inside the code.
measure_overlaps_example : (0x100000 < 0x101000) × (0x101000 < 0x100000 + 0x2000)
measure_overlaps_example =
    measure_overlaps object 0 0x100000 blocks.layout measured (omega arith) (omega arith)
