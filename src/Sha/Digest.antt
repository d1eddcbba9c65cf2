-- ===== src/Sha/Digest.antt =====
-- firmware/2lib/2sha_utility.c: the digest context for all algorithms. The union of the states is a
-- data type; VB2_SUPPORT_SHA1, _SHA256 and _SHA512 are 1.
pub mod Streams
pub mod Sizes
use cbmc_vboot.Prelude.{ℕ, ◌==◌, List, [], ltb, truthy, if◌then◌else◌}
use cbmc_vboot.Context.{vb2_success}
use cbmc_vboot.Keys.Unpack.{hash_sha1, hash_sha256, hash_sha512, vb2_digest_size}
use cbmc_vboot.Sha.Blocks.{BlockContext}
use cbmc_vboot.Sha.Rounds.{
  vb2_sha256_init, vb2_sha256_update, vb2_sha256_finalize, vb2_sha512_init, vb2_sha512_update,
  vb2_sha512_finalize,
}
use cbmc_vboot.Sha.Sha1.{Sha1Context, vb2_sha1_init, vb2_sha1_update, vb2_sha1_finalize}

abbrev pub error_sha_init_algorithm : ℕ
error_sha_init_algorithm = 0x10010001

abbrev pub error_sha_extend_algorithm : ℕ
error_sha_extend_algorithm = 0x10010002

abbrev pub error_sha_finalize_algorithm : ℕ
error_sha_finalize_algorithm = 0x10010003

abbrev pub error_sha_finalize_digest_size : ℕ
error_sha_finalize_digest_size = 0x10010004

-- The union, with hash_alg: `unknown` for any other value of it.
pub data DigestState : Type 0 where
  sha1 : Sha1Context → DigestState
  sha256 : BlockContext → DigestState
  sha512 : BlockContext → DigestState
  unknown : ℕ → DigestState

unfoldable pub vb2_digest_init : ℕ → DigestState × ℕ
vb2_digest_init hash_alg =
    if hash_alg == hash_sha1
    then (sha1 vb2_sha1_init, vb2_success)
    else if hash_alg == hash_sha256
    then (sha256 vb2_sha256_init, vb2_success)
    else if hash_alg == hash_sha512
    then (sha512 vb2_sha512_init, vb2_success)
    else (unknown hash_alg, error_sha_init_algorithm)

-- `buf` holds `size` bytes.
unfoldable pub vb2_digest_extend : DigestState → (buf : List ℕ) → DigestState × ℕ
vb2_digest_extend (sha1 ctx) buf = (sha1 (vb2_sha1_update ctx buf), vb2_success)
vb2_digest_extend (sha256 ctx) buf = (sha256 (vb2_sha256_update ctx buf), vb2_success)
vb2_digest_extend (sha512 ctx) buf = (sha512 (vb2_sha512_update ctx buf), vb2_success)
vb2_digest_extend (unknown hash_alg) buf = (unknown hash_alg, error_sha_extend_algorithm)

abbrev pub hash_alg_of : DigestState → ℕ
hash_alg_of (sha1 ctx) = hash_sha1
hash_alg_of (sha256 ctx) = hash_sha256
hash_alg_of (sha512 ctx) = hash_sha512
hash_alg_of (unknown hash_alg) = hash_alg

-- The switch of vb2_digest_finalize.
unfoldable pub write_digest : DigestState → List ℕ × ℕ
write_digest (sha1 ctx) = (vb2_sha1_finalize ctx, vb2_success)
write_digest (sha256 ctx) = (vb2_sha256_finalize ctx, vb2_success)
write_digest (sha512 ctx) = (vb2_sha512_finalize ctx, vb2_success)
write_digest (unknown hash_alg) = ([], error_sha_finalize_algorithm)

unfoldable pub vb2_digest_finalize : DigestState → (digest_size : ℕ) → List ℕ × ℕ
unfolding write_digest
vb2_digest_finalize dc digest_size =
    if ltb digest_size (vb2_digest_size (hash_alg_of dc))
    then ([], error_sha_finalize_digest_size)
    else write_digest dc

unfoldable pub vb2_digest_buffer : (buf : List ℕ) → (hash_alg digest_size : ℕ) → List ℕ × ℕ
vb2_digest_buffer buf hash_alg digest_size =
    let (dc, rv) = vb2_digest_init hash_alg in
    let (extended, code) = vb2_digest_extend dc buf in
    if truthy rv
    then ([], rv)
    else if truthy code
    then ([], code)
    else vb2_digest_finalize extended digest_size
