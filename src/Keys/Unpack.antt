-- ===== src/Keys/Unpack.antt =====
-- lib20/packed_key.c: vb2_unpack_key, with the tables of sizes of 2lib/2rsa.c and
-- 2lib/2sha_utility.c, where SHA-1, SHA-256 and SHA-512 are all compiled in.
pub mod Bounds
use cbmc_vboot.Prelude.{
  ℕ, ◌+◌, ◌*◌, ◌/◌, Bool, not, ◌||◌, List, [], ◌∷◌, ◌==◌, truthy, get_or, if◌then◌else◌, Result, ok,
  err,
}
use cbmc_vboot.Codes.{
  error_unpack_key_sig_algorithm, error_unpack_key_hash_algorithm, error_unpack_key_size,
  error_unpack_key_align, error_unpack_key_array_size,
}
use cbmc_vboot.Common.{add64, vb2_aligned}
use cbmc_vboot.Keys.{Memory, load32, PackedKey, packed_key_at}
use cbmc_vboot.Keys.Inside.{vb2_verify_packed_key_inside}

-- enum vb2_signature_algorithm and enum vb2_hash_algorithm
abbrev pub sig_invalid : ℕ
sig_invalid = 0

abbrev pub sig_rsa1024 : ℕ
sig_rsa1024 = 2

abbrev pub sig_rsa2048 : ℕ
sig_rsa2048 = 3

abbrev pub sig_rsa4096 : ℕ
sig_rsa4096 = 4

abbrev pub sig_rsa8192 : ℕ
sig_rsa8192 = 5

abbrev pub hash_invalid : ℕ
hash_invalid = 0

abbrev pub hash_sha1 : ℕ
hash_sha1 = 1

abbrev pub hash_sha256 : ℕ
hash_sha256 = 2

abbrev pub hash_sha512 : ℕ
hash_sha512 = 3

-- The table crypto_to_sig, of length 12, and what lies outside it.
abbrev pub crypto_to_sig : List ℕ
crypto_to_sig =
    sig_rsa1024 ∷ sig_rsa1024 ∷ sig_rsa1024 ∷ sig_rsa2048 ∷ sig_rsa2048 ∷ sig_rsa2048 ∷ sig_rsa4096
    ∷ sig_rsa4096 ∷ sig_rsa4096 ∷ sig_rsa8192 ∷ sig_rsa8192 ∷ sig_rsa8192 ∷ []

unfoldable pub vb2_crypto_to_signature : ℕ → ℕ
vb2_crypto_to_signature algorithm = get_or crypto_to_sig algorithm sig_invalid

abbrev pub crypto_to_hash : List ℕ
crypto_to_hash =
    hash_sha1 ∷ hash_sha256 ∷ hash_sha512 ∷ hash_sha1 ∷ hash_sha256 ∷ hash_sha512 ∷ hash_sha1
    ∷ hash_sha256 ∷ hash_sha512 ∷ hash_sha1 ∷ hash_sha256 ∷ hash_sha512 ∷ []

unfoldable pub vb2_crypto_to_hash : ℕ → ℕ
vb2_crypto_to_hash algorithm = get_or crypto_to_hash algorithm hash_invalid

unfoldable pub vb2_rsa_sig_size : ℕ → ℕ
vb2_rsa_sig_size sig_alg =
    if sig_alg == sig_rsa1024
    then 1024 / 8
    else if sig_alg == sig_rsa2048
    then 2048 / 8
    else if sig_alg == sig_rsa4096
    then 4096 / 8
    else if sig_alg == sig_rsa8192
    then 8192 / 8
    else 0

unfoldable pub vb2_packed_key_size : ℕ → ℕ
unfolding vb2_rsa_sig_size
vb2_packed_key_size sig_alg =
    let sig_size = vb2_rsa_sig_size sig_alg in
    if not (truthy sig_size) then 0 else 2 * sig_size + 2 * 4

unfoldable pub vb2_digest_size : ℕ → ℕ
vb2_digest_size hash_alg =
    if hash_alg == hash_sha1
    then 20
    else if hash_alg == hash_sha256
    then 32
    else if hash_alg == hash_sha512
    then 64
    else 0

-- struct vb2_public_key, without the description, the version and the id, which this code does not
-- set; `n` and `rr` are the addresses of the arrays.
pub record PublicKey : Type 0 where
  pub arrsize : ℕ
  pub n0inv : ℕ
  pub n : ℕ
  pub rr : ℕ
  pub sig_alg : ℕ
  pub hash_alg : ℕ

-- Lines 41-76, after the key was found to lie in its buffer.
unfoldable pub unpack : Memory → ℕ → PackedKey → Result PublicKey
unpack m buf key =
    let sig_alg = vb2_crypto_to_signature key.algorithm in
    let hash_alg = vb2_crypto_to_hash key.algorithm in
    let expected_key_size = vb2_packed_key_size sig_alg in
    let buf32 = add64 buf key.key_offset in
    let arrsize = load32 m buf32 in
    if sig_alg == sig_invalid
    then err error_unpack_key_sig_algorithm
    else if hash_alg == hash_invalid
    then err error_unpack_key_hash_algorithm
    else if not (truthy expected_key_size) || not (expected_key_size == key.key_size)
    then err error_unpack_key_size
    else if not (vb2_aligned buf32 4)
    then err error_unpack_key_align
    else if not (arrsize * 4 == vb2_rsa_sig_size sig_alg)
    then err error_unpack_key_array_size
    else ok (record {
      arrsize = arrsize;
      n0inv = load32 m (buf32 + 4);
      n = buf32 + 8;
      rr = buf32 + 8 + arrsize * 4;
      sig_alg = sig_alg;
      hash_alg = hash_alg;
    })

unfoldable pub vb2_unpack_key : Memory → (buf size : ℕ) → Result PublicKey
unfolding unpack
vb2_unpack_key m buf size =
    let packed_key = packed_key_at m buf in
    let rv = vb2_verify_packed_key_inside buf size buf packed_key in
    if truthy rv then err rv else unpack m buf packed_key
