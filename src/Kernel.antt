-- ===== src/Kernel.antt =====
-- The kernel side of the loading: firmware/lib20/kernel.c and lib20/api_kernel.c. This file has
-- vb2_need_signed_kernel and vb2_verify_keyblock_hash.
pub mod Keyblock
pub mod Preamble
pub mod Phases
pub mod Data
use cbmc_vboot.Prelude.{
  ℕ, ◌+◌, ◌||◌, Bool, not, List, Option, none, some, truthy, has_flag, if◌then◌else◌,
}
use cbmc_vboot.Context.{Context, vb2_success, context_recovery_mode, context_developer_mode}
use cbmc_vboot.Codes.{
  error_keyblock_sig_invalid, error_vdata_workbuf_digest, error_vdata_workbuf_hashing,
}
use cbmc_vboot.Common.{Workbuf, add64, vb2_safe_memcmp, vb2_workbuf_alloc}
use cbmc_vboot.Nvstorage.{dev_boot_signed_only, vb2_nv_get}
use cbmc_vboot.Keys.{Memory, load_bytes, store_bytes, signature_at, offset_keyblock_hash}
use cbmc_vboot.Keys.Unpack.{hash_sha512, vb2_digest_size}
use cbmc_vboot.Keys.Verify.{Crypto, sizeof_digest_context, hash_data}
use cbmc_vboot.Keys.Block.{vb2_check_keyblock}

unfoldable pub vb2_need_signed_kernel : Context → Bool
vb2_need_signed_kernel ctx =
    has_flag ctx.flags context_recovery_mode
    || not (has_flag ctx.flags context_developer_mode)
    || truthy (vb2_nv_get ctx dev_boot_signed_only)

-- Lines 83-90: the digest is in its place.
unfoldable pub compare_hash : Memory → (sig_at : ℕ) → List ℕ → Memory × ℕ
compare_hash m sig_at digest =
    let from = add64 sig_at (signature_at m sig_at).sig_offset in
    let differs = vb2_safe_memcmp (load_bytes (vb2_digest_size hash_sha512) m from) digest in
    (m, if truthy differs then error_keyblock_sig_invalid else vb2_success)

module _ {Digest : Type 0} (crypto : Crypto Digest) where
  -- Lines 68-90, with the place of the hash context.
  unfoldable pub hash_block : Memory → (block digest_at : ℕ) → Workbuf × Option ℕ → Memory × ℕ
  unfolding compare_hash
  hash_block m block digest_at (wb, none) = (m, error_vdata_workbuf_hashing)
  hash_block m block digest_at (wb, some dc) =
      let sig_at = block + offset_keyblock_hash in
      let hashed =
        hash_data crypto hash_sha512 (load_bytes (signature_at m sig_at).data_size m block) in
      if truthy hashed.1
      then (m, hashed.1)
      else compare_hash (store_bytes m digest_at hashed.0) sig_at hashed.0

  -- Lines 63-90, with the place of the digest.
  unfoldable pub hash_keyblock : Memory → (block : ℕ) → Workbuf × Option ℕ → Memory × ℕ
  unfolding hash_block
  hash_keyblock m block (wb, none) = (m, error_vdata_workbuf_digest)
  hash_keyblock m block (wb, some digest_at) =
      hash_block m block digest_at (vb2_workbuf_alloc wb sizeof_digest_context)

  unfoldable pub vb2_verify_keyblock_hash : Memory → (block size : ℕ) → Workbuf → Memory × ℕ
  unfolding hash_keyblock
  vb2_verify_keyblock_hash m block size wb =
      let rv = vb2_check_keyblock m block size (block + offset_keyblock_hash) in
      if truthy rv
      then (m, rv)
      else hash_keyblock m block (vb2_workbuf_alloc wb (vb2_digest_size hash_sha512))
