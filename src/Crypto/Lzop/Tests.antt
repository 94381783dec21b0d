-- ===== src/Crypto/Lzop/Tests.antt =====
-- An archive of two blocks, and an instance of the theorem on it.
use lambda_os.Prelude.{ℕ, ◌≡◌, refl, some, List, [], ◌∷◌, ◌++◌, inr, arith}
use lambda_os.Std.Memory.{memory_of, Memory}
use lambda_os.Crypto.Lzop.{lzop_magic, lzop_decompress}
use lambda_os.Crypto.Lzop.Header.{Header}
use lambda_os.Crypto.Lzop.Unpack.{Written, IsArchive, lzop_decompress_stored}

-- A header with no name, and the blocks "ab" and "c".
abbrev archive : Memory
archive = memory_of (
    lzop_magic
    ++ 0x10 ∷ 0x40 ∷ 0 ∷ 0 ∷ 0 ∷ 0 ∷ 1 ∷ 5 ∷ []
    ++ 0 ∷ 0 ∷ 0 ∷ 1 ∷ []
    ++ 0 ∷ 0 ∷ 0 ∷ 0 ∷ 0 ∷ 0 ∷ 0 ∷ 0 ∷ 0 ∷ 0 ∷ 0 ∷ 0 ∷ []
    ++ 0 ∷ 0 ∷ 0 ∷ 0 ∷ 0 ∷ []
    ++ 0 ∷ 0 ∷ 0 ∷ 2 ∷ 0 ∷ 0 ∷ 0 ∷ 2 ∷ 0 ∷ 0 ∷ 0 ∷ 0 ∷ 97 ∷ 98 ∷ []
    ++ 0 ∷ 0 ∷ 0 ∷ 1 ∷ 0 ∷ 0 ∷ 0 ∷ 1 ∷ 0 ∷ 0 ∷ 0 ∷ 0 ∷ 99 ∷ [])

-- The data of the blocks.
abbrev blocks : List (List ℕ)
blocks = (97 ∷ 98 ∷ []) ∷ (99 ∷ []) ∷ []

-- The header, of version 0x1040.
abbrev header : Header
header = record {
  version = 0x1040;
  needed = 0 ∷ 0 ∷ 0 ∷ 0 ∷ [];
  method = 1;
  level = 5;
  flags = 1;
  filter = 0 ∷ 0 ∷ 0 ∷ 0 ∷ [];
  mode_and_times = 0 ∷ 0 ∷ 0 ∷ 0 ∷ 0 ∷ 0 ∷ 0 ∷ 0 ∷ 0 ∷ 0 ∷ 0 ∷ 0 ∷ [];
  name = [];
  checksum = 0 ∷ 0 ∷ 0 ∷ 0 ∷ [];
  extra = [];
  extra_checksum = 0 ∷ 0 ∷ 0 ∷ 0 ∷ [];
}

archive-IsArchive : IsArchive archive 0 69 header blocks
archive-IsArchive = record {
  low = omega arith;
  sizes = record {
    needed_size = refl;
    filter_size = refl;
    times_size = refl;
    checksum_size = refl;
    extra_checksum_size = refl;
  };
  header = omega arith;
  summed = refl;
  blocks = omega arith;
  inside = omega arith;
}

lzop_decompress_stored_example :
    (m' : Memory) × (lzop_decompress
        (λ n. 1000)
        3
        1
        1
        0
        69
        (record { mem = archive; output = 0; len = 0 })
      ≡ some (0, record { mem = m'; output = 1000; len = 3 }))
    × Written archive m' 1000 (97 ∷ 98 ∷ 99 ∷ [])
lzop_decompress_stored_example =
    lzop_decompress_stored (λ n. 1000) 3 1 1 0 69 (record { mem = archive; output = 0; len = 0 })
      header blocks archive-IsArchive (omega arith) (omega arith) (inr (omega arith)) (omega arith)
