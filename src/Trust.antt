-- ===== src/Trust.antt =====
-- firmware/lib20/common.c on top of the hash functions and RSA of firmware/2lib: what vb2_verify_data
-- accepts is signed by the key.
use cbmc_vboot.Prelude.{
  ℕ, ◌*◌, ◌%◌, ◌≤◌, ◌^◌, ◌≡◌, inl, inr, refl, ap, sym, subst, ◌∙◌, not, ◌==◌, truthy, Bool-cases,
  List, length, Option, none, some,
}
use cbmc_vboot.Codes.{error_rsa_verify_workbuf}
use cbmc_vboot.Context.{vb2_success}
use cbmc_vboot.Common.{Workbuf, add64, vb2_workbuf_alloc}
use cbmc_vboot.Common.Bounds.{IsRoom}
use cbmc_vboot.Keys.{Memory, load_bytes, store_bytes, signature_at}
use cbmc_vboot.Keys.Unpack.{PublicKey, vb2_digest_size, vb2_rsa_sig_size}
use cbmc_vboot.Keys.Verify.{Crypto, hash_data, vb2_verify_data}
use cbmc_vboot.Keys.Stores.{store_before}
use cbmc_vboot.Keys.Verify.Below.{KeepsBelow}
use cbmc_vboot.Keys.Verify.Signed.{vb2_verify_data_iff}
use cbmc_vboot.Rsa.{decrypt_and_check, vb2_rsa_verify_digest}
use cbmc_vboot.Rsa.Value.{value}
use cbmc_vboot.Rsa.Bytes.{number}
use cbmc_vboot.Rsa.Congruence.{Congruent}
use cbmc_vboot.Rsa.Padding.{encoded}
use cbmc_vboot.Rsa.Genuine.{modulus_of, IsRsaKey, vb2_rsa_verify_digest-Genuine}
use cbmc_vboot.Sha.Digest.{
  DigestState, vb2_digest_init, vb2_digest_extend, vb2_digest_finalize, vb2_digest_buffer,
}
use cbmc_vboot.Sha.Digest.Sizes.{length-digest_buffer}

-- The functions that vb2_verify_data and vb2_verify_digest call.
abbrev pub vboot_crypto : Crypto DigestState
vboot_crypto = record {
  digest_init = vb2_digest_init;
  digest_extend = vb2_digest_extend;
  digest_finalize = vb2_digest_finalize;
  rsa_verify_digest = vb2_rsa_verify_digest;
}

-- The digest of data, with the size that the hash has.
abbrev pub digest_of : (hash_alg : ℕ) → List ℕ → List ℕ
digest_of hash_alg bytes = (vb2_digest_buffer bytes hash_alg (vb2_digest_size hash_alg)).0

hash_data_lem :
    (hash_alg : ℕ) (bytes : List ℕ)
    → hash_data vboot_crypto hash_alg bytes
      ≡ vb2_digest_buffer bytes hash_alg (vb2_digest_size hash_alg)
unfolding hash_data vb2_digest_buffer
hash_data_lem hash_alg bytes = refl

-- The signature at `sig_at` is one of the data under the key: at most `size` bytes are signed, and
-- the signature's number to the power 65537 is congruent, modulo the key's modulus, to the number of
-- the PKCS #1 1.5 encoding of their digest.
pub record IsGenuine (m : Memory) (start size sig_at : ℕ) (key : PublicKey) (wb : Workbuf)
    : Type 0 where
  pub covered : (signature_at m sig_at).data_size ≤ size
  pub signed :
      let digest = digest_of key.hash_alg (load_bytes (signature_at m sig_at).data_size m start) in
      let stored = store_bytes m wb.buf digest in
      Congruent (value (modulus_of stored key)) (number (encoded key digest)) (
        number (
          load_bytes
            (key.arrsize * 4)
            stored
            (add64 sig_at (signature_at stored sig_at).sig_offset))
        ^ 65537)

-- If vb2_verify_data, with the library's own hash functions and RSA, accepts data, and the key's
-- precomputed numbers are right in the memory with the digest written to the work buffer, then the
-- signature covers no more than the data given, and its number to the power 65537 is congruent, modulo
-- the key's modulus, to the number of the PKCS #1 1.5 encoding of the covered data's digest.
pub vb2_verify_data-Genuine :
    (m : Memory) (start size sig_at : ℕ) (key : PublicKey) (wb : Workbuf)
    → IsRoom wb
    → (let digest = digest_of key.hash_alg (load_bytes (signature_at m sig_at).data_size m start) in
        IsRsaKey (store_bytes m wb.buf digest) key)
    → (vb2_verify_data vboot_crypto m start size sig_at key wb).1 ≡ vb2_success
    → IsGenuine m start size sig_at key wb
vb2_verify_data-Genuine m start size sig_at key wb room numbers h =
    let signed = (vb2_verify_data_iff vboot_crypto m start size sig_at key wb room).0 h in
    let bytes = load_bytes (signature_at m sig_at).data_size m start in
    let hashed = hash_data vboot_crypto key.hash_alg bytes in
    let buffered = vb2_digest_buffer bytes key.hash_alg (vb2_digest_size key.hash_alg) in
    let same : hashed ≡ buffered = hash_data_lem key.hash_alg bytes in
    let sized : length buffered.0 ≡ vb2_digest_size key.hash_alg =
      length-digest_buffer bytes key.hash_alg (vb2_digest_size key.hash_alg)
        (sym (ap (λ r. r.1) same) ∙ signed.hashed) in
    let accepted : (vb2_rsa_verify_digest (store_bytes m wb.buf buffered.0) key
          (add64 sig_at (signature_at (store_bytes m wb.buf buffered.0) sig_at).sig_offset)
          buffered.0 (vb2_workbuf_alloc wb (vb2_digest_size key.hash_alg)).0).1
        ≡ vb2_success =
      subst
        (λ (r : List ℕ × ℕ).
          (vb2_rsa_verify_digest (store_bytes m wb.buf r.0) key
            (add64 sig_at (signature_at (store_bytes m wb.buf r.0) sig_at).sig_offset) r.0
            (vb2_workbuf_alloc wb (vb2_digest_size key.hash_alg)).0).1
          ≡ vb2_success)
        same signed.accepted in
    record {
      covered = signed.covered;
      signed =
          vb2_rsa_verify_digest-Genuine (store_bytes m wb.buf buffered.0) key
            (add64 sig_at (signature_at (store_bytes m wb.buf buffered.0) sig_at).sig_offset)
            buffered.0 (vb2_workbuf_alloc wb (vb2_digest_size key.hash_alg)).0 numbers sized
            accepted;
    }

-- The library's RSA changes nothing in front of the signature.
vboot_crypto-KeepsBelow : KeepsBelow vboot_crypto
unfolding vb2_rsa_verify_digest decrypt_and_check
vboot_crypto-KeepsBelow m key sig digest wb x h behind =
    let sig_size = vb2_rsa_sig_size key.sig_alg in
    let key_bytes = key.arrsize * 4 % 2 ^ 32 in
    elim (Bool-cases (not (truthy sig_size))) [
      | inl unknown ↦ rw unknown refl
      | inr known ↦ elim (Bool-cases (not (key_bytes == sig_size))) [
        | inl other ↦ rw (known, other) refl
        | inr same ↦ rw (known, same) (stored (vb2_workbuf_alloc wb (3 * key_bytes)).1)
      ]
    ]
  where
    stored :
        (a : Option ℕ)
        → (elim a as (λ _. Memory × ℕ) [
          | none ↦ (m, error_rsa_verify_workbuf)
          | some workbuf32 ↦ decrypt_and_check m key sig digest
        ]).0
            x
          ≡ m x
    stored none = refl
    stored (some workbuf32) = store_before m sig _ x h
