-- ===== src/Keys/Preamble.antt =====
-- lib20/common.c: vb2_verify_fw_preamble.
pub mod Accepted
use cbmc_vboot.Prelude.{ℕ, ◌+◌, Bool, not, ltb, ◌==◌, truthy, if◌then◌else◌}
use cbmc_vboot.Context.{vb2_success}
use cbmc_vboot.Codes.{
  error_preamble_too_small_for_header, error_preamble_header_version, error_preamble_header_old,
  error_preamble_size, error_preamble_sig_outside, error_preamble_signed_too_much,
  error_preamble_sig_invalid, error_preamble_signed_too_little, error_preamble_body_sig_outside,
  error_preamble_kernel_subkey_outside,
}
use cbmc_vboot.Common.{Workbuf}
use cbmc_vboot.Keys.{
  Memory, Signature, signature_at, fw_preamble_at, sizeof_fw_preamble, offset_preamble_signature,
  offset_body_signature, offset_kernel_subkey,
}
use cbmc_vboot.Keys.Inside.{vb2_verify_packed_key_inside, vb2_verify_signature_inside}
use cbmc_vboot.Keys.Unpack.{PublicKey}
use cbmc_vboot.Keys.Verify.{Crypto, vb2_verify_data}

abbrev pub firmware_preamble_header_version_major : ℕ
firmware_preamble_header_version_major = 2

-- Lines 222-254: what is checked before the signature.
unfoldable pub check_before : Memory → (preamble size : ℕ) → ℕ
check_before m preamble size =
    let pre = fw_preamble_at m preamble in
    let sig_at = preamble + offset_preamble_signature in
    let sig = signature_at m sig_at in
    if ltb size sizeof_fw_preamble
    then error_preamble_too_small_for_header
    else if not (pre.header_version_major == firmware_preamble_header_version_major)
    then error_preamble_header_version
    else if ltb pre.header_version_minor 1
    then error_preamble_header_old
    else if ltb size pre.preamble_size
    then error_preamble_size
    else if truthy (vb2_verify_signature_inside preamble pre.preamble_size sig_at sig)
    then error_preamble_sig_outside
    else if ltb pre.preamble_size sig.data_size
    then error_preamble_signed_too_much
    else vb2_success

-- Lines 261-282: what is checked after it, in the memory as the signature check leaves it.
unfoldable pub check_after : Memory → (preamble : ℕ) → ℕ
check_after m preamble =
    let pre = fw_preamble_at m preamble in
    let sig = signature_at m (preamble + offset_preamble_signature) in
    let body_at = preamble + offset_body_signature in
    let subkey_at = preamble + offset_kernel_subkey in
    if ltb sig.data_size sizeof_fw_preamble
    then error_preamble_signed_too_little
    else if truthy (vb2_verify_signature_inside preamble sig.data_size body_at pre.body_signature)
    then error_preamble_body_sig_outside
    else if truthy (vb2_verify_packed_key_inside preamble sig.data_size subkey_at pre.kernel_subkey)
    then error_preamble_kernel_subkey_outside
    else vb2_success

unfoldable pub vb2_verify_fw_preamble :
    {Digest : Type 0}
    → Crypto Digest
    → Memory
    → (preamble size : ℕ) → PublicKey
    → Workbuf
    → Memory × ℕ
unfolding check_before check_after
vb2_verify_fw_preamble crypto m preamble size key wb =
    let before = check_before m preamble size in
    let verified =
      vb2_verify_data crypto m preamble size (preamble + offset_preamble_signature) key wb in
    if truthy before
    then (m, before)
    else if truthy verified.1
    then (verified.0, error_preamble_sig_invalid)
    else (verified.0, check_after verified.0 preamble)
