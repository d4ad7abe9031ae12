-- ===== src/Protocol/Wire/Checksum.antt =====
-- hash/crc32's `ChecksumIEEE`, bit by bit: the reflected polynomial 0xEDB88320.
use Prim.Native.Nat.{bit_xor}
use hologram.Prelude.{ℕ, ◌/◌, ◌%◌, ◌^◌, ◌<◌, ◌≡◌, refl, [], ◌∷◌, arith, ◌==◌, if◌then◌else◌}
use hologram.Prelude.Go.{Bytes}

crc_bit : ℕ → ℕ
crc_bit c = if c % 2 == 1 then bit_xor (c / 2) 0xEDB88320 else c / 2

crc_byte : ℕ → ℕ → ℕ
unfolding crc_bit
crc_byte c b =
    crc_bit (crc_bit (crc_bit (crc_bit (crc_bit (crc_bit (crc_bit (crc_bit (bit_xor c b))))))))

crc_bytes : ℕ → Bytes → ℕ
crc_bytes c [] = c
crc_bytes c (b ∷ bs) = crc_bytes (crc_byte c b) bs

unfoldable pub checksum_ieee : Bytes → ℕ
unfolding crc_bytes crc_byte
checksum_ieee bs = bit_xor (crc_bytes 0xFFFFFFFF bs) 0xFFFFFFFF % 2 ^ 32

pub checksum_ieee-lt : (bs : Bytes) → checksum_ieee bs < 2 ^ 32
unfolding checksum_ieee
checksum_ieee-lt bs = omega arith

-- The check value of this CRC: that of the text 123456789.
check_value : checksum_ieee (49 ∷ 50 ∷ 51 ∷ 52 ∷ 53 ∷ 54 ∷ 55 ∷ 56 ∷ 57 ∷ []) ≡ 0xCBF43926
unfolding checksum_ieee
check_value = refl
