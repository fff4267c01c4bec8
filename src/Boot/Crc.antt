-- ===== src/Boot/Crc.antt =====
-- hub/boot_proto.go: the Arduino-style CRC-16 of a software image, and the bit-by-bit reference
-- that stands beside it in a comment.
pub mod Laws
use widuino.Base.{ℕ, zero, suc, ◌/◌, ◌%◌, List, [], ◌∷◌, Bool, true, false, not}
use widuino.Base.{◌==◌, if◌then◌else◌, get_or, bit_xor}

abbrev pub crc_table : List ℕ
crc_table =
    0x0000 ∷ 0xCC01 ∷ 0xD801 ∷ 0x1400 ∷ 0xF001 ∷ 0x3C00 ∷ 0x2800 ∷ 0xE401 ∷ 0xA001 ∷ 0x6C00 ∷ 0x7800
    ∷ 0xB401 ∷ 0x5000 ∷ 0x9C01 ∷ 0x8801 ∷ 0x4400 ∷ []

-- `crcTable[i]`; every index that the code forms is below 16.
abbrev pub table_at : ℕ → ℕ
table_at i = get_or crc_table i 0

-- The body of the loop over the image, at the byte `b`.
unfoldable pub crc_byte : ℕ → ℕ → ℕ
crc_byte crc b =
    let low = bit_xor (bit_xor (crc / 16) (table_at (crc % 16))) (table_at (b % 16)) in
    bit_xor (bit_xor (low / 16) (table_at (low % 16))) (table_at (b / 16))

unfoldable pub crc_loop : ℕ → List ℕ → ℕ
crc_loop crc [] = crc
crc_loop crc (b ∷ sw) = crc_loop (crc_byte crc b) sw

unfoldable pub crc16 : List ℕ → ℕ
crc16 sw = crc_loop 0xFFFF sw

-- The body of the reference's inner loop.
unfoldable pub crc_bit : ℕ → ℕ
crc_bit crc = if not (crc % 2 == 0) then bit_xor (crc / 2) 0xA001 else crc / 2

unfoldable pub crc_bits : ℕ → ℕ → ℕ
crc_bits zero crc = crc
crc_bits (suc i) crc = crc_bits i (crc_bit crc)

unfoldable pub crc_loop_b : ℕ → List ℕ → ℕ
crc_loop_b crc [] = crc
crc_loop_b crc (b ∷ sw) = crc_loop_b (crc_bits 8 (bit_xor crc b)) sw

unfoldable pub crc16_b : List ℕ → ℕ
crc16_b sw = crc_loop_b 0xFFFF sw
