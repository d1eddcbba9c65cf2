-- ===== src/Keys/Preamble/Accepted.antt =====
-- What lib20/common.c: vb2_verify_fw_preamble accepts.
use cbmc_vboot.Prelude.{ℕ, ◌+◌, ◌^◌, ◌≤◌, ◌<◌, ◌≡◌, ◌↔◌, arith}
use cbmc_vboot.Context.{vb2_success}
use cbmc_vboot.Common.{Workbuf}
use cbmc_vboot.Common.Bounds.{IsRoom}
use cbmc_vboot.Keys.{
  Memory, fw_preamble_at, sizeof_fw_preamble, offset_preamble_signature, offset_body_signature,
  offset_kernel_subkey,
}
use cbmc_vboot.Keys.Inside.Members.{
  load32-lt, KeyInside, SignatureInside, KeyInside-iff, SignatureInside-iff,
}
use cbmc_vboot.Keys.Unpack.{PublicKey}
use cbmc_vboot.Keys.Verify.{Crypto, vb2_verify_data}
use cbmc_vboot.Keys.Verify.Signed.{IsSigned, vb2_verify_data_iff}
use cbmc_vboot.Keys.Preamble.{
  firmware_preamble_header_version_major, check_before, check_after, vb2_verify_fw_preamble,
}

-- A preamble of at least the struct's size and a known version that lies in the buffer, with its
-- signature.
pub record IsPreamble (m : Memory) (preamble size : ℕ) : Type 0 where
  pub room : sizeof_fw_preamble ≤ size
  pub major :
      (fw_preamble_at m preamble).header_version_major ≡ firmware_preamble_header_version_major
  pub minor : 1 ≤ (fw_preamble_at m preamble).header_version_minor
  pub fits : (fw_preamble_at m preamble).preamble_size ≤ size
  pub signature :
      SignatureInside m preamble
        (fw_preamble_at m preamble).preamble_size
        (preamble + offset_preamble_signature)
  pub covered :
      (fw_preamble_at m preamble).preamble_signature.data_size
      ≤ (fw_preamble_at m preamble).preamble_size

-- The signed part holds the struct, the body's signature and the kernel subkey.
pub record CoversPreamble (m : Memory) (preamble : ℕ) : Type 0 where
  pub covers : sizeof_fw_preamble ≤ (fw_preamble_at m preamble).preamble_signature.data_size
  pub signed_body :
      SignatureInside m preamble
        (fw_preamble_at m preamble).preamble_signature.data_size
        (preamble + offset_body_signature)
  pub signed_subkey :
      KeyInside m preamble
        (fw_preamble_at m preamble).preamble_signature.data_size
        (preamble + offset_kernel_subkey)

check_before_iff :
    (m : Memory) (preamble size : ℕ)
    → preamble + size < 2 ^ 64
    → (check_before m preamble size ≡ vb2_success) ↔ IsPreamble m preamble size
unfolding check_before
check_before_iff m preamble size b =
    let signature_iff = λ (p : preamble < 2 ^ 64).
      SignatureInside-iff m preamble (fw_preamble_at m preamble).preamble_size
        (preamble + offset_preamble_signature) p (omega (arith, load32-lt m preamble)) in
    (
      λ h. record {
        room = ground arith;
        major = ground arith;
        minor = ground arith;
        fits = ground arith;
        signature = (signature_iff (omega arith) (ground arith)).0 (ground arith);
        covered = ground arith;
      },
      λ i.
          let signed = (signature_iff (omega arith) (omega (arith, i.room))).1 i.signature in
          ground (arith, i.room, i.major, i.minor, i.fits, signed, i.covered),
    )

check_after_iff :
    (m : Memory) (preamble : ℕ)
    → preamble + sizeof_fw_preamble ≤ 2 ^ 64
    → (check_after m preamble ≡ vb2_success) ↔ CoversPreamble m preamble
unfolding check_after
check_after_iff m preamble b =
    let body =
      SignatureInside-iff m preamble (fw_preamble_at m preamble).preamble_signature.data_size
        (preamble + offset_body_signature) (omega arith)
        (omega (arith, load32-lt m (preamble + offset_preamble_signature + 16))) (omega arith) in
    let subkey =
      KeyInside-iff m preamble (fw_preamble_at m preamble).preamble_signature.data_size
        (preamble + offset_kernel_subkey) (omega arith)
        (omega (arith, load32-lt m (preamble + offset_preamble_signature + 16))) (omega arith) in
    (
      λ h. record {
        covers = ground arith;
        signed_body = body.0 (ground arith);
        signed_subkey = subkey.0 (ground arith);
      },
      λ i. ground (arith, i.covers, body.1 i.signed_body, subkey.1 i.signed_subkey),
    )

-- vb2_verify_fw_preamble succeeds, on a buffer in the address space and with a work buffer of that
-- form, exactly for a preamble that lies in the buffer with its signature, which is one of its data
-- under the key, and which covers, in the memory after the signature check, the struct, the body's
-- signature and the kernel subkey.
pub vb2_verify_fw_preamble_iff :
    {Digest : Type 0} (crypto : Crypto Digest) (m : Memory) (preamble size : ℕ) (key : PublicKey)
    (wb : Workbuf)
    → preamble + size < 2 ^ 64
    → IsRoom wb
    → ((vb2_verify_fw_preamble crypto m preamble size key wb).1 ≡ vb2_success)
      ↔ IsPreamble m preamble size
        × IsSigned crypto m preamble size (preamble + offset_preamble_signature) key wb
        × CoversPreamble
            (vb2_verify_data crypto m preamble size (preamble + offset_preamble_signature) key wb).0
            preamble
unfolding vb2_verify_fw_preamble
vb2_verify_fw_preamble_iff crypto m preamble size key wb b r =
    let sig_at = preamble + offset_preamble_signature in
    let m' = (vb2_verify_data crypto m preamble size sig_at key wb).0 in
    let before = check_before_iff m preamble size b in
    let signed = vb2_verify_data_iff crypto m preamble size sig_at key wb r in
    let after = check_after_iff m' preamble in
    (
      λ h.
          let p = before.0 (ground arith) in
          (p, signed.0 (ground arith), (after (omega (arith, p.room))).0 (ground arith)),
      λ (p, s, c). ground (arith, before.1 p, signed.1 s, (after (omega (arith, p.room))).1 c),
    )
