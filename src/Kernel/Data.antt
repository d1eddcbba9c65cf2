-- ===== src/Kernel/Data.antt =====
-- firmware/lib20/api_kernel.c: vb2api_verify_kernel_data.
pub mod BodySigned
use cbmc_vboot.Prelude.{
  ℕ, ◌+◌, not, ◌==◌, List, [], length, Option, none, some, truthy, if◌then◌else◌, Result, ok, err,
}
use cbmc_vboot.Codes.{error_api_check_hash_workbuf_digest}
use cbmc_vboot.Codes.Kernel.{
  error_api_verify_kdata_size, error_api_verify_kdata_preamble, error_api_verify_kdata_workbuf,
  error_api_verify_kdata_key,
}
use cbmc_vboot.Common.{Workbuf, add64, vb2_workbuf_alloc}
use cbmc_vboot.Keys.{store_bytes}
use cbmc_vboot.Keys.Unpack.{PublicKey, vb2_digest_size, vb2_unpack_key}
use cbmc_vboot.Keys.Verify.{Crypto, sizeof_digest_context, vb2_verify_digest}
use cbmc_vboot.Firmware.{Machine, vb2_workbuf_from_ctx}
use cbmc_vboot.Kernel.Preamble.{KernelPreamble, kernel_preamble_at, offset_kernel_body_signature}

abbrev pub kernel_preamble_address : Machine → ℕ
kernel_preamble_address s = add64 s.ctx.workbuf s.ctx.sd.workbuf_preamble_offset

module _ {Digest : Type 0} (crypto : Crypto Digest) where
  -- Lines 235-248: the digest is written to its place and compared with the signature.
  unfoldable pub check_kernel_digest :
      Machine → PublicKey → (digest_at : ℕ) → List ℕ × ℕ → Workbuf → Machine × ℕ
  check_kernel_digest s key digest_at (digest, code) wb =
      let sig_at = kernel_preamble_address s + offset_kernel_body_signature in
      let (m, rv) =
        vb2_verify_digest crypto (store_bytes s.memory digest_at digest) key sig_at digest wb in
      if truthy code then (s, code) else (record s { memory = m }, rv)

  -- Lines 230-248, with the place of the digest.
  unfoldable pub finish_kernel_digest :
      Machine → PublicKey → Digest → Workbuf × Option ℕ → Machine × ℕ
  finish_kernel_digest s key dc (wb, none) = (s, error_api_check_hash_workbuf_digest)
  finish_kernel_digest s key dc (wb, some digest_at) =
      check_kernel_digest s key digest_at (crypto.digest_finalize dc (vb2_digest_size key.hash_alg))
        wb

  -- Lines 219-248, with the data key.
  unfoldable pub hash_kernel : Machine → List ℕ → Workbuf → Result PublicKey → Machine × ℕ
  hash_kernel s buf wb (err rv) = (s, rv)
  hash_kernel s buf wb (ok key) =
      let (started, init_code) = crypto.digest_init key.hash_alg in
      let (extended, code) = crypto.digest_extend started buf in
      if truthy init_code
      then (s, init_code)
      else if truthy code
      then (s, code)
      else finish_kernel_digest s key extended (vb2_workbuf_alloc wb (vb2_digest_size key.hash_alg))

  -- Lines 213-248, with the place of the hash context.
  unfoldable pub with_kernel_hash : Machine → List ℕ → Workbuf × Option ℕ → Machine × ℕ
  with_kernel_hash s buf (wb, none) = (s, error_api_verify_kdata_workbuf)
  with_kernel_hash s buf (wb, some dc) =
      let sd = s.ctx.sd in
      if not (truthy sd.workbuf_data_key_size)
      then (s, error_api_verify_kdata_key)
      else hash_kernel s buf wb (
          vb2_unpack_key s.memory (add64 s.ctx.workbuf sd.workbuf_data_key_offset)
            sd.workbuf_data_key_size)

  -- `buf` holds `size` bytes.
  unfoldable pub vb2api_verify_kernel_data : Machine → List ℕ → Machine × ℕ
  vb2api_verify_kernel_data s buf =
      let pre = kernel_preamble_at s.memory (kernel_preamble_address s) in
      if not (truthy s.ctx.sd.workbuf_preamble_size)
      then (s, error_api_verify_kdata_preamble)
      else if not (length buf == pre.body_signature.data_size)
      then (s, error_api_verify_kdata_size)
      else with_kernel_hash s buf
          (vb2_workbuf_alloc (vb2_workbuf_from_ctx s.ctx) sizeof_digest_context)
