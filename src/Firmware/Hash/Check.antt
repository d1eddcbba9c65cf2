-- ===== src/Firmware/Hash/Check.antt =====
-- lib20/api.c: vb2api_check_hash_get_digest and vb2api_check_hash.
use cbmc_vboot.Prelude.{
  ℕ, ◌+◌, ◌%◌, ◌^◌, not, List, Option, none, some, ltb, ◌==◌, truthy, if◌then◌else◌, Result, ok,
  err,
}
use cbmc_vboot.Codes.{
  error_api_check_hash_preamble, error_api_check_hash_workbuf, error_api_check_hash_size,
  error_api_check_hash_workbuf_digest, error_api_check_hash_tag, error_api_check_hash_data_key,
  error_api_check_digest_size,
}
use cbmc_vboot.Common.{Workbuf, add64, vb2_workbuf_alloc}
use cbmc_vboot.Boot.{vb2_fail}
use cbmc_vboot.Keys.{store_bytes, offset_body_signature}
use cbmc_vboot.Keys.Unpack.{PublicKey, vb2_digest_size}
use cbmc_vboot.Keys.Verify.{Crypto, vb2_verify_digest}
use cbmc_vboot.Firmware.{vb2_workbuf_from_ctx}
use cbmc_vboot.Firmware.Hash.{Hashing, Hwcrypto, hash_tag_fw_body, recovery_fw_body, kept_key}

module _ {Digest Engine : Type 0} (crypto : Crypto Digest) (hw : Hwcrypto Engine) where
  -- Lines 199-209: the digest is compared with the body's signature. `digest_out` is the size of
  -- the caller's buffer, if there is one.
  unfoldable pub compare_digest :
      Hashing Digest Engine → List ℕ → Workbuf → Option ℕ → PublicKey → Hashing Digest Engine × ℕ
  compare_digest s digest wb digest_out key =
      let pre = add64 s.ctx.workbuf s.ctx.sd.workbuf_preamble_offset in
      let (m, rv) = vb2_verify_digest crypto s.memory key (pre + offset_body_signature) digest wb in
      let ctx = if truthy rv then vb2_fail s.ctx recovery_fw_body (rv % 2 ^ 8) else s.ctx in
      let s' = record s { memory = m; ctx = ctx } in
      elim digest_out [
        | none ↦ (s', rv)
        | some size ↦
            if ltb size (vb2_digest_size s.dc.hash_alg)
            then (s', error_api_check_digest_size)
            else (s', rv)
      ]

  -- Lines 185-209, with the data key.
  unfoldable pub with_check_key :
      Hashing Digest Engine
      → List ℕ
      → Workbuf
      → Option ℕ
      → Result PublicKey
      → Hashing Digest Engine × ℕ
  unfolding compare_digest
  with_check_key s digest wb digest_out (err rv) = (s, rv)
  with_check_key s digest wb digest_out (ok key) = compare_digest s digest wb digest_out key

  -- Lines 173-209, with what finalizing gave.
  unfoldable pub after_finalize :
      Hashing Digest Engine → List ℕ × ℕ → Workbuf → Option ℕ → Hashing Digest Engine × ℕ
  unfolding with_check_key
  after_finalize s (digest, rv) wb digest_out =
      if truthy rv
      then (s, rv)
      else if not (s.ctx.sd.hash_tag == hash_tag_fw_body)
      then (s, error_api_check_hash_tag)
      else if not (truthy s.ctx.sd.workbuf_data_key_size)
      then (s, error_api_check_hash_data_key)
      else with_check_key s digest wb digest_out (kept_key crypto hw s)

  -- Lines 168-172.
  abbrev pub finalize : Hashing Digest Engine → List ℕ × ℕ
  finalize s =
      let digest_size = vb2_digest_size s.dc.hash_alg in
      if truthy s.dc.using_hwcrypto
      then hw.hw_finalize s.engine digest_size
      else crypto.digest_finalize s.dc.state digest_size

  -- Lines 164-209, with the place of the digest.
  unfoldable pub with_digest_space :
      Hashing Digest Engine → Option ℕ → Workbuf × Option ℕ → Hashing Digest Engine × ℕ
  unfolding after_finalize
  with_digest_space s digest_out (wb, none) = (s, error_api_check_hash_workbuf_digest)
  with_digest_space s digest_out (wb, some at) =
      let finalized = finalize s in
      after_finalize (record s { memory = store_bytes s.memory at finalized.0 }) finalized wb
        digest_out

  unfoldable pub vb2api_check_hash_get_digest :
      Hashing Digest Engine → Option ℕ → Hashing Digest Engine × ℕ
  unfolding with_digest_space
  vb2api_check_hash_get_digest s digest_out =
      if not (truthy s.ctx.sd.workbuf_preamble_size)
      then (s, error_api_check_hash_preamble)
      else if not (truthy s.ctx.sd.workbuf_hash_size)
      then (s, error_api_check_hash_workbuf)
      else if truthy s.ctx.sd.hash_remaining_size
      then (s, error_api_check_hash_size)
      else with_digest_space s digest_out
          (vb2_workbuf_alloc (vb2_workbuf_from_ctx s.ctx) (vb2_digest_size s.dc.hash_alg))

  unfoldable pub vb2api_check_hash : Hashing Digest Engine → Hashing Digest Engine × ℕ
  vb2api_check_hash s = vb2api_check_hash_get_digest s none
