-- ===== src/Crc8/Vboot.antt =====
-- firmware/lib/crc8.c: the older copy of the CRC-8.
use cbmc_vboot.Prelude.{
  ℕ, zero, suc, ◌*◌, ◌/◌, ◌%◌, ◌^◌, ◌≡◌, refl, ap, ◌∙◌, bit_and, bit_xor, List, [], ◌∷◌, take,
  truthy, if◌then◌else◌,
}
use cbmc_vboot.Crc8.{vb2_crc8, crc_bit, crc_rounds, crc_bytes}

-- The inner loop, `i` rounds; `crc` is an `unsigned` of 32 bits.
crc8_rounds : (i crc : ℕ) → ℕ
crc8_rounds zero crc = crc
crc8_rounds (suc i) crc =
    let mixed = if truthy (bit_and crc 0x8000) then bit_xor crc (0x1070 * 2 ^ 3) else crc in
    crc8_rounds i (mixed * 2 % 2 ^ 32)

-- The outer loop, over the bytes that are left.
crc8_bytes : (crc : ℕ) → List ℕ → ℕ
crc8_bytes crc [] = crc
crc8_bytes crc (b ∷ data_bytes) = crc8_bytes (crc8_rounds 8 (bit_xor crc (b * 2 ^ 8))) data_bytes

-- Crc8(vptr, len) on the bytes at vptr.
unfoldable pub crc8 : List ℕ → (len : ℕ) → ℕ
unfolding crc8_rounds crc8_bytes
crc8 bytes len = crc8_bytes 0 (take len bytes) / 2 ^ 8 % 2 ^ 8

rounds_same : (i crc : ℕ) → crc8_rounds i crc ≡ crc_rounds i crc
unfolding crc8_rounds crc_rounds crc_bit
rounds_same zero crc = refl
rounds_same (suc i) crc = rounds_same i _

bytes_same : (crc : ℕ) (bs : List ℕ) → crc8_bytes crc bs ≡ crc_bytes crc bs
unfolding crc8_bytes crc_bytes
bytes_same crc [] = refl
bytes_same crc (b ∷ bs) =
    bytes_same (crc8_rounds 8 (bit_xor crc (b * 2 ^ 8))) bs
    ∙ ap (λ c. crc_bytes c bs) (rounds_same 8 (bit_xor crc (b * 2 ^ 8)))

-- The two copies compute the same.
pub crc8_same : (bs : List ℕ) (len : ℕ) → crc8 bs len ≡ vb2_crc8 bs len
unfolding crc8 vb2_crc8
crc8_same bs len = ap (λ c. c / 2 ^ 8 % 2 ^ 8) (bytes_same 0 (take len bs))
