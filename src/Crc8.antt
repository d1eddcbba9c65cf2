-- ===== src/Crc8.antt =====
-- firmware/2lib/2crc8.c: the CRC-8 that guards the non-volatile and the secure storage.
pub mod Errors
pub mod Vboot
use cbmc_vboot.Prelude.{
  ℕ, zero, suc, ◌*◌, ◌/◌, ◌%◌, ◌^◌, bit_and, bit_xor, List, [], ◌∷◌, take, truthy, if◌then◌else◌,
}

-- The body of the inner loop; `crc` is an `unsigned` of 32 bits.
crc_bit : ℕ → ℕ
crc_bit crc =
    ((if truthy (bit_and crc 0x8000) then bit_xor crc (0x1070 * 2 ^ 3) else crc) * 2) % 2 ^ 32

-- The inner loop, `i` rounds.
crc_rounds : ℕ → ℕ → ℕ
crc_rounds zero crc = crc
crc_rounds (suc i) crc = crc_rounds i (crc_bit crc)

-- The outer loop, over the bytes that are left.
crc_bytes : ℕ → List ℕ → ℕ
crc_bytes crc [] = crc
crc_bytes crc (b ∷ bs) = crc_bytes (crc_rounds 8 (bit_xor crc (b * 2 ^ 8))) bs

-- `vb2_crc8(vptr, size)` on the bytes at `vptr`.
unfoldable pub vb2_crc8 : List ℕ → ℕ → ℕ
unfolding crc_bit crc_rounds crc_bytes
vb2_crc8 bytes size = crc_bytes 0 (take size bytes) / 2 ^ 8 % 2 ^ 8
