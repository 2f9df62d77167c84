-- ===== src/Crc/Examples.antt =====
-- Runs of upk_crc32.c, and its theorems at concrete blocks.
use upkeeper.Prelude.{◌≡◌, refl, [], ◌∷◌, bit_xor, arith, some, none, false}
use upkeeper.Crc.{crc_table, create_crc32_table, crc_step, crc_loop, crc32, verify_crc32}
use upkeeper.Crc.Bitwise.{crc_bitwise, crc32-bitwise}
use upkeeper.Crc.Detect.{verify-one_byte}

crc_empty : crc32 [] 0 ≡ some 0xFFFFFFFF
unfolding crc32 crc_loop
crc_empty = refl

crc_short : crc32 (1 ∷ 2 ∷ []) 3 ≡ none
unfolding crc32 crc_loop
crc_short = refl

crc_ab : crc32 (0x61 ∷ 0x62 ∷ []) 2 ≡ some 547726701
unfolding crc32 crc_loop crc_step crc_table
crc_ab = refl

-- Two bytes of a block that goes on.
crc32-bitwise_example :
    (crc32 (0x61 ∷ 0x62 ∷ 9 ∷ []) 2 ≡ some (bit_xor (crc_bitwise (0x61 ∷ 0x62 ∷ []) 0) 0xFFFFFFFF))
    × (crc_table ≡ create_crc32_table)
crc32-bitwise_example = crc32-bitwise (0x61 ∷ 0x62 ∷ []) (9 ∷ []) (omega arith)

verify-one_byte_example : verify_crc32 (0x61 ∷ 0x63 ∷ []) 547726701 2 ≡ some false
verify-one_byte_example =
    verify-one_byte (0x61 ∷ []) [] 0x62 0x63 547726701 (omega arith) (omega arith) (omega arith)
      crc_ab
