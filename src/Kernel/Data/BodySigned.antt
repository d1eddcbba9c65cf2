-- ===== src/Kernel/Data/BodySigned.antt =====
-- lib20/api_kernel.c: the kernel bodies that vb2api_verify_kernel_data accepts.
use cbmc_vboot.Prelude.{
  ℕ, ◌+◌, ◌≡◌, inl, inr, refl, truthy, Bool-cases, arith, false, ◌==◌, List, length, Option, some,
  none, Result, ok, err,
}
use cbmc_vboot.Context.{vb2_success}
use cbmc_vboot.Common.{Workbuf, add64, vb2_workbuf_alloc}
use cbmc_vboot.Keys.{store_bytes}
use cbmc_vboot.Keys.Unpack.{PublicKey, vb2_digest_size}
use cbmc_vboot.Keys.Verify.{Crypto, sizeof_digest_context, hash_data, vb2_verify_digest}
use cbmc_vboot.Firmware.{Machine, vb2_workbuf_from_ctx}
use cbmc_vboot.Firmware.Preamble.Reached.{unpack_fails}
use cbmc_vboot.Kernel.Preamble.{kernel_preamble_at, offset_kernel_body_signature}
use cbmc_vboot.Kernel.Preamble.Loaded.{kernel_data_key_of}
use cbmc_vboot.Kernel.Data.{
  check_kernel_digest, finish_kernel_digest, hash_kernel, with_kernel_hash,
  vb2api_verify_kernel_data,
}

module _ {Digest : Type 0} (crypto : Crypto Digest) where
  -- The digest of `buf`, stored somewhere in the work buffer, passed the check with the body's
  -- signature in the preamble.
  pub record DigestSigned (s : Machine) (buf : List ℕ) (key : PublicKey) : Type 0 where
    pub digest_at : ℕ
    pub wb : Workbuf
    pub hashed : (hash_data crypto key.hash_alg buf).1 ≡ vb2_success
    pub accepted :
        let digest = (hash_data crypto key.hash_alg buf).0 in
        (vb2_verify_digest crypto
          (store_bytes s.memory digest_at digest)
          key
          (add64 s.ctx.workbuf s.ctx.sd.workbuf_preamble_offset + offset_kernel_body_signature)
          digest
          wb).1
        ≡ vb2_success

  pub record BodySigned (s : Machine) (buf : List ℕ) : Type 0 where
    pub size :
        length buf
        ≡ (kernel_preamble_at s.memory
            (add64 s.ctx.workbuf s.ctx.sd.workbuf_preamble_offset)).body_signature.data_size
    pub data_key : PublicKey
    pub unpacked : kernel_data_key_of s ≡ ok data_key
    pub digest : DigestSigned s buf data_key

  finish-DigestSigned :
      (s : Machine) (buf : List ℕ) (key : PublicKey) (a : Workbuf × Option ℕ)
      → let started = crypto.digest_init key.hash_alg in
        let extended = crypto.digest_extend started.0 buf in
        truthy started.1 ≡ false
        → truthy extended.1 ≡ false
        → (finish_kernel_digest crypto s key extended.0 a).1 ≡ vb2_success
        → DigestSigned s buf key
  unfolding finish_kernel_digest check_kernel_digest hash_data
  finish-DigestSigned s buf key (wb, none) i e h = absurd (omega (arith, h))
  finish-DigestSigned s buf key (wb, some digest_at) i e h =
      let started = crypto.digest_init key.hash_alg in
      let extended = crypto.digest_extend started.0 buf in
      let finished = crypto.digest_finalize extended.0 (vb2_digest_size key.hash_alg) in
      let hashed : hash_data crypto key.hash_alg buf ≡ finished = rw (i, e) refl in
      elim (Bool-cases (truthy finished.1)) [
        | inl bad ↦ absurd (ground (arith, h, bad))
        | inr fine ↦
            let accepted : (vb2_verify_digest crypto (store_bytes s.memory digest_at finished.0) key
                  (add64 s.ctx.workbuf s.ctx.sd.workbuf_preamble_offset
                    + offset_kernel_body_signature)
                  finished.0 wb).1
                ≡ vb2_success =
              ground (arith, h, fine) in
            record {
              digest_at = digest_at;
              wb = wb;
              hashed = rw hashed (ground (arith, fine));
              accepted = rw hashed accepted;
            }
      ]

  hash-DigestSigned :
      (s : Machine) (buf : List ℕ) (wb : Workbuf) (key : PublicKey)
      → (hash_kernel crypto s buf wb (ok key)).1 ≡ vb2_success
      → DigestSigned s buf key
  unfolding hash_kernel
  hash-DigestSigned s buf wb key h =
      let (started, init_code) = crypto.digest_init key.hash_alg in
      let (extended, code) = crypto.digest_extend started buf in
      elim (Bool-cases (truthy init_code)) [
        | inl bad ↦ absurd (ground (arith, h, bad))
        | inr i ↦ elim (Bool-cases (truthy code)) [
          | inl bad ↦ absurd (ground (arith, h, i, bad))
          | inr e ↦
              finish-DigestSigned s buf key (vb2_workbuf_alloc wb (vb2_digest_size key.hash_alg)) i
                e (ground (arith, h, i, e))
        ]
      ]

  key-BodySigned :
      (s : Machine) (buf : List ℕ) (wb : Workbuf) (key : Result PublicKey)
      → length buf
        ≡ (kernel_preamble_at s.memory
            (add64 s.ctx.workbuf s.ctx.sd.workbuf_preamble_offset)).body_signature.data_size
      → kernel_data_key_of s ≡ key
      → (hash_kernel crypto s buf wb key).1 ≡ vb2_success
      → BodySigned s buf
  unfolding hash_kernel kernel_data_key_of
  key-BodySigned s buf wb (err rv) l e h = absurd (
      omega (
        arith,
        h,
        unpack_fails s.memory (add64 s.ctx.workbuf s.ctx.sd.workbuf_data_key_offset)
            s.ctx.sd.workbuf_data_key_size rv e,
      ))
  key-BodySigned s buf wb (ok key) l e h = record {
    size = l;
    data_key = key;
    unpacked = e;
    digest = hash-DigestSigned s buf wb key h;
  }

  space-BodySigned :
      (s : Machine) (buf : List ℕ) (a : Workbuf × Option ℕ)
      → length buf
        ≡ (kernel_preamble_at s.memory
            (add64 s.ctx.workbuf s.ctx.sd.workbuf_preamble_offset)).body_signature.data_size
      → (with_kernel_hash crypto s buf a).1 ≡ vb2_success
      → BodySigned s buf
  unfolding with_kernel_hash kernel_data_key_of
  space-BodySigned s buf (wb, none) l h = absurd (omega (arith, h))
  space-BodySigned s buf (wb, some dc) l h =
      elim (Bool-cases (truthy s.ctx.sd.workbuf_data_key_size)) [
        | inl some_key ↦
            key-BodySigned s buf wb (kernel_data_key_of s) l refl (ground (arith, h, some_key))
        | inr no_key ↦ absurd (ground (arith, h, no_key))
      ]

-- If vb2api_verify_kernel_data succeeds, the buffer is as long as the body that the preamble's
-- signature is of, and its digest, by the hash of the data key in the work buffer, passed the check
-- with that signature and that key.
pub vb2api_verify_kernel_data-BodySigned :
    {Digest : Type 0} (crypto : Crypto Digest) (s : Machine) (buf : List ℕ)
    → (vb2api_verify_kernel_data crypto s buf).1 ≡ vb2_success
    → BodySigned crypto s buf
unfolding vb2api_verify_kernel_data
vb2api_verify_kernel_data-BodySigned crypto s buf h =
    let data_size =
      (kernel_preamble_at s.memory
        (add64 s.ctx.workbuf s.ctx.sd.workbuf_preamble_offset)).body_signature.data_size in
    elim (Bool-cases (truthy s.ctx.sd.workbuf_preamble_size)) [
      | inr no_preamble ↦ absurd (ground (arith, h, no_preamble))
      | inl some_preamble ↦ elim (Bool-cases (length buf == data_size)) [
        | inr other ↦ absurd (ground (arith, h, some_preamble, other))
        | inl l ↦
            space-BodySigned crypto s buf
              (vb2_workbuf_alloc (vb2_workbuf_from_ctx s.ctx) sizeof_digest_context)
              (ground (arith, l)) (ground (arith, h, some_preamble, l))
      ]
    ]
