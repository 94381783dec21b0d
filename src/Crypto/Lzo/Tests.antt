-- ===== src/Crypto/Lzo/Tests.antt =====
-- Blocks, and instances of the theorems on them.
use lambda_os.Prelude.{ℕ, ◌+◌, ◌≤◌, ◌<◌, ◌≡◌, ◌⊎◌, inr, true, [], ◌∷◌, arith}
use lambda_os.Std.Memory.{memory_of, Memory}
use lambda_os.Std.Bytes.{memcpy}
use lambda_os.Std.Bytes.Copy.{copied}
use lambda_os.Crypto.Lzo.{more, block_result, lzo_loop, lzo1x_decompress_block}
use lambda_os.Crypto.Lzo.Inside.{lzo1x_decompress_block_bounds}
use lambda_os.Crypto.Lzo.Stored.{StoredAt, decompress_stored}
use lambda_os.Crypto.Lzo.Overread.{decompress_overreads}

-- "abcd" in a stored block.
abbrev stored : Memory
stored = memory_of (21 ∷ 97 ∷ 98 ∷ 99 ∷ 100 ∷ 17 ∷ [])

stored-StoredAt : StoredAt stored 0 4
stored-StoredAt = omega arith

lzo1x_decompress_block_bounds_example :
    let b = lzo1x_decompress_block 2 1 stored 0 8 20 4 in
    (b.len ≤ 4) × ((q : ℕ) → (q < 20) ⊎ (20 + 4 ≤ q) → b.mem q ≡ stored q)
lzo1x_decompress_block_bounds_example =
    lzo1x_decompress_block_bounds 2 1 stored 0 8 20 4 (omega arith)

decompress_stored_example :
    let b = lzo1x_decompress_block 2 1 stored 0 8 20 4 in
    (b.ended ≡ true) × (b.code ≡ 0) × (b.len ≡ 4) × ((q : ℕ) → b.mem q ≡ copied stored 20 1 4 q)
decompress_stored_example =
    decompress_stored stored 0 4 20 4 0 1 stored-StoredAt (omega arith) (omega arith) (omega arith)
      (omega arith) (inr (omega arith))

-- Three zeroes, and a 5 behind them.
abbrev zeroes : Memory
zeroes = memory_of (0 ∷ 0 ∷ 0 ∷ 5 ∷ [])

decompress_overreads_example :
    lzo1x_decompress_block 1 3 zeroes 0 3 20 1000
    ≡ block_result
        (record { in_end = 3; output = 20; out_end = 1020 })
        1000
        (lzo_loop 0 3
          (record { in_end = 3; output = 20; out_end = 1020 })
          (more (record { mem = memcpy zeroes 20 4 533; inb = 537; outb = 553; state = 4 })))
decompress_overreads_example =
    decompress_overreads zeroes 0 2 20 1000 0 3 (omega arith) (omega arith) (omega arith)
      (omega arith) (omega arith) (omega arith) (omega arith) (omega arith) (omega arith)
