-- ===== src/Keys/Verify.antt =====
-- lib20/common.c: vb2_verify_digest and vb2_verify_data. The hash functions of 2lib/2sha_utility.c
-- and vb2_rsa_verify_digest of 2lib/2rsa.c are the operations of `Crypto`; a hash context lies in
-- the work buffer in C, and is a value of `Digest` here.
pub mod Signed
pub mod Below
use cbmc_vboot.Prelude.{
  ℕ, ◌+◌, Bool, not, List, [], Option, none, some, ltb, ◌==◌, truthy, if◌then◌else◌,
}
use cbmc_vboot.Context.{vb2_success}
use cbmc_vboot.Codes.{
  error_vdata_sig_size, error_vdata_not_enough_data, error_vdata_digest_size,
  error_vdata_workbuf_digest, error_vdata_workbuf_hashing,
}
use cbmc_vboot.Common.{Workbuf, add64, vb2_workbuf_alloc, vb2_workbuf_free}
use cbmc_vboot.Keys.{Memory, load_bytes, store_bytes, Signature, signature_at}
use cbmc_vboot.Keys.Unpack.{PublicKey, vb2_rsa_sig_size, vb2_digest_size}

-- Each operation returns its code. Verification destroys the signature, so it returns the memory
-- too.
pub record Crypto (Digest : Type 0) : Type 0 where
  pub digest_init : ℕ → Digest × ℕ
  pub digest_extend : Digest → List ℕ → Digest × ℕ
  pub digest_finalize : Digest → ℕ → List ℕ × ℕ
  pub rsa_verify_digest : Memory → PublicKey → ℕ → List ℕ → Workbuf → Memory × ℕ

-- sizeof(struct vb2_digest_context)
abbrev pub sizeof_digest_context : ℕ
sizeof_digest_context = 336

module _ {Digest : Type 0} (crypto : Crypto Digest) where
  -- `sig_at` is the address of the signature's struct.
  unfoldable pub vb2_verify_digest : Memory → PublicKey → ℕ → List ℕ → Workbuf → Memory × ℕ
  vb2_verify_digest m key sig_at digest wb =
      let sig = signature_at m sig_at in
      if not (sig.sig_size == vb2_rsa_sig_size key.sig_alg)
      then (m, error_vdata_sig_size)
      else crypto.rsa_verify_digest m key (add64 sig_at sig.sig_offset) digest wb

  -- Lines 116-126: the data are hashed.
  unfoldable pub hash_data : ℕ → List ℕ → List ℕ × ℕ
  hash_data hash_alg bytes =
      let started = crypto.digest_init hash_alg in
      let extended = crypto.digest_extend started.0 bytes in
      let finished = crypto.digest_finalize extended.0 (vb2_digest_size hash_alg) in
      if truthy started.1
      then ([], started.1)
      else if truthy extended.1
      then ([], extended.1)
      else finished

  -- The digest is written to its place, and compared with the signature.
  unfoldable pub check_digest : Memory → PublicKey → ℕ → ℕ → List ℕ × ℕ → Workbuf → Memory × ℕ
  unfolding vb2_verify_digest
  check_digest m key sig_at digest_at hashed wb =
      if truthy hashed.1
      then (m, hashed.1)
      else vb2_verify_digest (store_bytes m digest_at hashed.0) key sig_at hashed.0 wb

  -- Lines 112-130, with the place of the context.
  unfoldable pub hash_in_context : Memory → ℕ → ℕ → PublicKey → ℕ → Workbuf × Option ℕ → Memory × ℕ
  unfolding hash_data check_digest
  hash_in_context m start sig_at key digest_at (wb, none) = (m, error_vdata_workbuf_hashing)
  hash_in_context m start sig_at key digest_at (wb, some dc) =
      let sig = signature_at m sig_at in
      check_digest m key sig_at digest_at
        (hash_data key.hash_alg (load_bytes sig.data_size m start))
        (vb2_workbuf_free wb sizeof_digest_context)

  -- Lines 107-131, with the place of the digest.
  unfoldable pub hash_and_verify : Memory → ℕ → ℕ → PublicKey → Workbuf × Option ℕ → Memory × ℕ
  unfolding hash_in_context
  hash_and_verify m start sig_at key (wb, none) = (m, error_vdata_workbuf_digest)
  hash_and_verify m start sig_at key (wb, some digest_at) =
      hash_in_context m start sig_at key digest_at (vb2_workbuf_alloc wb sizeof_digest_context)

  unfoldable pub vb2_verify_data :
      Memory → (start size sig_at : ℕ) → PublicKey → Workbuf → Memory × ℕ
  unfolding hash_and_verify
  vb2_verify_data m start size sig_at key wb =
      let sig = signature_at m sig_at in
      let digest_size = vb2_digest_size key.hash_alg in
      if ltb size sig.data_size
      then (m, error_vdata_not_enough_data)
      else if not (truthy digest_size)
      then (m, error_vdata_digest_size)
      else hash_and_verify m start sig_at key (vb2_workbuf_alloc wb digest_size)
