-- ===== src/Rsa.antt =====
-- firmware/2lib/2rsa.c: Montgomery arithmetic on arrays of 32-bit words, lowest word first, the
-- PKCS padding and vb2_rsa_verify_digest. The words of the work buffer that modpowF4 uses are
-- values here.
pub mod Value
pub mod Montgomery
pub mod Product
pub mod Bytes
pub mod Congruence
pub mod Power
pub mod Genuine
pub mod Padding
use cbmc_vboot.Prelude.{
  ℕ, zero, suc, ◌+◌, ◌-◌, ◌*◌, ◌/◌, ◌%◌, ◌^◌, bit_or, bit_xor, Bool, not, ◌&&◌, ◌||◌, List, [], ◌∷◌,
  ◌++◌, length, reverse, take, drop, replicate, get_or, Option, none, some, ltb, leb, ◌==◌, truthy,
  if◌then◌else◌,
}
use cbmc_vboot.Context.{vb2_success}
use cbmc_vboot.Codes.{
  error_rsa_verify_algorithm, error_rsa_verify_sig_len, error_rsa_verify_workbuf,
  error_rsa_verify_digest, error_rsa_padding, error_rsa_padding_size, error_rsa_padding_algorithm,
}
use cbmc_vboot.Common.{Workbuf, sub32, vb2_safe_memcmp, vb2_workbuf_alloc}
use cbmc_vboot.Keys.{Memory, load32, load_bytes, store_bytes}
use cbmc_vboot.Keys.Unpack.{
  PublicKey, hash_sha1, hash_sha256, hash_sha512, vb2_rsa_sig_size, vb2_digest_size,
}

-- A >>= 32 for an int64_t, as its bit pattern.
abbrev pub shift_signed : ℕ → ℕ
shift_signed a = if ltb a (2 ^ 63) then a / 2 ^ 32 else a / 2 ^ 32 + (2 ^ 64 - 2 ^ 32)

-- The loop of subM, with the carry A.
unfoldable pub sub_words : ℕ → (a n : List ℕ) → List ℕ
sub_words carry (a ∷ rest_a) (n ∷ ns) =
    let sum = (carry + a + (2 ^ 64 - n)) % 2 ^ 64 in
    sum % 2 ^ 32 ∷ sub_words (shift_signed sum) rest_a ns
sub_words carry _ _ = []

unfoldable pub sub_m : (n a : List ℕ) → List ℕ
unfolding sub_words
sub_m n a = sub_words 0 a n

-- The loop of vb2_mont_ge, from the highest word down.
unfoldable pub ge_words : (a n : List ℕ) → ℕ
ge_words (a ∷ rest_a) (n ∷ ns) =
    let rest = ge_words rest_a ns in if ltb a n then 0 else if ltb n a then 1 else rest
ge_words _ _ = 1

unfoldable pub vb2_mont_ge : (n a : List ℕ) → ℕ
unfolding ge_words
vb2_mont_ge n a = ge_words (reverse a) (reverse n)

-- Lines 60-64: the words c[0] .. c[arrsize - 2], and A and B.
unfoldable pub mont_words : (a d0 : ℕ) → (carry_a carry_b : ℕ) → (b c n : List ℕ) → List ℕ × ℕ × ℕ
mont_words a d0 carry_a carry_b (b ∷ bs) (c ∷ cs) (n ∷ ns) =
    let sum_a = (carry_a / 2 ^ 32 + a * b + c) % 2 ^ 64 in
    let sum_b = (carry_b / 2 ^ 32 + d0 * n + sum_a % 2 ^ 32) % 2 ^ 64 in
    let (words, end_a, end_b) = mont_words a d0 sum_a sum_b bs cs ns in
    (sum_b % 2 ^ 32 ∷ words, end_a, end_b)
mont_words a d0 carry_a carry_b _ _ _ = ([], carry_a, carry_b)

-- Lines 66-72.
unfoldable pub mont_end : List ℕ → List ℕ × ℕ × ℕ → List ℕ
mont_end n (words, carry_a, carry_b) =
    let sum = carry_a / 2 ^ 32 + carry_b / 2 ^ 32 in
    let c = words ++ (sum % 2 ^ 32 ∷ []) in if truthy (sum / 2 ^ 32) then sub_m n c else c

-- An array of at least one word.
unfoldable pub mont_mul_add : (n0inv : ℕ) → (n c : List ℕ) → (a : ℕ) → (b : List ℕ) → List ℕ
unfolding mont_words mont_end
mont_mul_add n0inv (n0 ∷ n) (c0 ∷ c) a (b0 ∷ b) =
    let sum_a = (a * b0 + c0) % 2 ^ 64 in
    let d0 = sum_a % 2 ^ 32 * n0inv % 2 ^ 32 in
    let sum_b = (d0 * n0 + sum_a % 2 ^ 32) % 2 ^ 64 in
    mont_end (n0 ∷ n) (mont_words a d0 sum_a sum_b b c n)
mont_mul_add n0inv n c a b = c

-- The second loop of montMul.
unfoldable pub mont_rows : (n0inv : ℕ) → (n c a b : List ℕ) → List ℕ
mont_rows n0inv n c [] b = c
mont_rows n0inv n c (x ∷ a) b = mont_rows n0inv n (mont_mul_add n0inv n c x b) a b

unfoldable pub mont_mul : (n0inv : ℕ) → (n a b : List ℕ) → List ℕ
unfolding mont_rows
mont_mul n0inv n a b = mont_rows n0inv n (replicate (length n) 0) a b

-- Four bytes, highest first, of each word, and back.
abbrev pub words_of : List ℕ → List ℕ
words_of (b3 ∷ b2 ∷ b1 ∷ b0 ∷ bs) = (b3 * 2 ^ 24 + b2 * 2 ^ 16 + b1 * 2 ^ 8 + b0) ∷ words_of bs
words_of _ = []

abbrev pub bytes_of : List ℕ → List ℕ
bytes_of [] = []
bytes_of (w ∷ ws) =
    w / 2 ^ 24 % 2 ^ 8 ∷ w / 2 ^ 16 % 2 ^ 8 ∷ w / 2 ^ 8 % 2 ^ 8 ∷ w % 2 ^ 8 ∷ bytes_of ws

-- Lines 120-123, `rounds` times.
unfoldable pub square_twice : ℕ → (n0inv : ℕ) → (n x : List ℕ) → List ℕ
square_twice zero n0inv n x = x
square_twice (suc rounds) n0inv n x =
    let y = mont_mul n0inv n x x in square_twice rounds n0inv n (mont_mul n0inv n y y)

unfoldable pub modpow_f4 : (n0inv : ℕ) → (n rr inout : List ℕ) → List ℕ
unfolding square_twice
modpow_f4 n0inv n rr inout =
    let a = reverse (words_of inout) in
    let power = mont_mul n0inv n (square_twice 8 n0inv n (mont_mul n0inv n a rr)) a in
    bytes_of (reverse (if truthy (vb2_mont_ge n power) then sub_m n power else power))

abbrev pub sha1_tail : List ℕ
sha1_tail =
    0x00 ∷ 0x30 ∷ 0x21 ∷ 0x30 ∷ 0x09 ∷ 0x06 ∷ 0x05 ∷ 0x2b ∷ 0x0e ∷ 0x03 ∷ 0x02 ∷ 0x1a ∷ 0x05 ∷ 0x00
    ∷ 0x04 ∷ 0x14 ∷ []

abbrev pub sha256_tail : List ℕ
sha256_tail =
    0x00 ∷ 0x30 ∷ 0x31 ∷ 0x30 ∷ 0x0d ∷ 0x06 ∷ 0x09 ∷ 0x60 ∷ 0x86 ∷ 0x48 ∷ 0x01 ∷ 0x65 ∷ 0x03 ∷ 0x04
    ∷ 0x02 ∷ 0x01 ∷ 0x05 ∷ 0x00 ∷ 0x04 ∷ 0x20 ∷ []

abbrev pub sha512_tail : List ℕ
sha512_tail =
    0x00 ∷ 0x30 ∷ 0x51 ∷ 0x30 ∷ 0x0d ∷ 0x06 ∷ 0x09 ∷ 0x60 ∷ 0x86 ∷ 0x48 ∷ 0x01 ∷ 0x65 ∷ 0x03 ∷ 0x04
    ∷ 0x02 ∷ 0x03 ∷ 0x05 ∷ 0x00 ∷ 0x04 ∷ 0x40 ∷ []

-- Lines 278-280: `count` bytes of 0xff.
unfoldable pub pad_bytes : ℕ → ℕ → List ℕ → ℕ
pad_bytes zero result sig = result
pad_bytes (suc count) result sig =
    pad_bytes count (bit_or result (bit_xor (get_or sig 0 0) 0xff)) (drop 1 sig)

-- Lines 274-288, with the number of bytes of 0xff and the tail.
unfoldable pub check_tail : (sig : List ℕ) (count : ℕ) (tail : List ℕ) → ℕ
unfolding pad_bytes
check_tail sig count tail =
    let start = bit_or (bit_xor (get_or sig 0 0) 0x00) (bit_xor (get_or sig 1 0) 0x01) in
    let padded = pad_bytes count start (drop 2 sig) in
    let differs = vb2_safe_memcmp (take (length tail) (drop count (drop 2 sig))) tail in
    if truthy (bit_or padded differs) then error_rsa_padding else vb2_success

-- `sig` holds the bytes from the pointer on.
unfoldable pub vb2_check_padding : List ℕ → PublicKey → ℕ
unfolding check_tail
vb2_check_padding sig key =
    let sig_size = vb2_rsa_sig_size key.sig_alg in
    let hash_size = vb2_digest_size key.hash_alg in
    let pad_size = sub32 sig_size hash_size in
    if not (truthy sig_size) || not (truthy hash_size) || ltb sig_size hash_size
    then error_rsa_padding_size
    else if key.hash_alg == hash_sha1
    then check_tail sig (pad_size - length sha1_tail - 2) sha1_tail
    else if key.hash_alg == hash_sha256
    then check_tail sig (pad_size - length sha256_tail - 2) sha256_tail
    else if key.hash_alg == hash_sha512
    then check_tail sig (pad_size - length sha512_tail - 2) sha512_tail
    else error_rsa_padding_algorithm

abbrev pub load_words : ℕ → Memory → ℕ → List ℕ
load_words zero m at = []
load_words (suc count) m at = load32 m at ∷ load_words count m (at + 4)

-- Lines 329-350, with the decrypted signature.
unfoldable pub check_decrypted : PublicKey → (sig digest : List ℕ) → ℕ
unfolding vb2_check_padding
check_decrypted key sig digest =
    let rv = vb2_check_padding sig key in
    let pad_size = vb2_rsa_sig_size key.sig_alg - vb2_digest_size key.hash_alg in
    let size = key.arrsize * 4 - pad_size in
    if rv == error_rsa_padding_size
    then rv
    else if truthy (vb2_safe_memcmp (take size (drop pad_size sig)) (take size digest))
        && not (truthy rv)
    then error_rsa_verify_digest
    else rv

-- Lines 325-350.
unfoldable pub decrypt_and_check : Memory → PublicKey → ℕ → List ℕ → Memory × ℕ
unfolding check_decrypted
decrypt_and_check m key sig digest =
    let n = load_words key.arrsize m key.n in
    let rr = load_words key.arrsize m key.rr in
    let decrypted = modpow_f4 key.n0inv n rr (load_bytes (key.arrsize * 4) m sig) in
    (store_bytes m sig decrypted, check_decrypted key decrypted digest)

unfoldable pub vb2_rsa_verify_digest : Memory → PublicKey → ℕ → List ℕ → Workbuf → Memory × ℕ
unfolding decrypt_and_check
vb2_rsa_verify_digest m key sig digest wb =
    let sig_size = vb2_rsa_sig_size key.sig_alg in
    let key_bytes = key.arrsize * 4 % 2 ^ 32 in
    if not (truthy sig_size)
    then (m, error_rsa_verify_algorithm)
    else if not (key_bytes == sig_size)
    then (m, error_rsa_verify_sig_len)
    else elim (vb2_workbuf_alloc wb (3 * key_bytes)).1 [
      | none ↦ (m, error_rsa_verify_workbuf)
      | some workbuf32 ↦ decrypt_and_check m key sig digest
    ]
