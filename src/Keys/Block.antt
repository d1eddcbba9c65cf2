-- ===== src/Keys/Block.antt =====
-- lib20/common.c: vb2_check_keyblock and vb2_verify_keyblock.
pub mod Accepted
use cbmc_vboot.Prelude.{ℕ, ◌+◌, Bool, not, List, [], ◌∷◌, ltb, ◌==◌, truthy, if◌then◌else◌}
use cbmc_vboot.Context.{vb2_success}
use cbmc_vboot.Codes.{
  error_keyblock_too_small_for_header, error_keyblock_magic, error_keyblock_header_version,
  error_keyblock_size, error_keyblock_sig_outside, error_keyblock_signed_too_much,
  error_keyblock_signed_too_little, error_keyblock_data_key_outside,
  error_keyblock_data_key_unsigned, error_keyblock_sig_invalid,
}
use cbmc_vboot.Common.{Workbuf}
use cbmc_vboot.Gpt.{same_bytes}
use cbmc_vboot.Keys.{
  Memory, Signature, signature_at, keyblock_at, sizeof_keyblock, offset_keyblock_signature,
  offset_data_key,
}
use cbmc_vboot.Keys.Inside.{vb2_verify_packed_key_inside, vb2_verify_signature_inside}
use cbmc_vboot.Keys.Unpack.{PublicKey}
use cbmc_vboot.Keys.Verify.{Crypto, vb2_verify_data}

-- "CHROMEOS"
abbrev pub key_block_magic : List ℕ
key_block_magic = 0x43 ∷ 0x48 ∷ 0x52 ∷ 0x4f ∷ 0x4d ∷ 0x45 ∷ 0x4f ∷ 0x53 ∷ []

abbrev pub key_block_header_version_major : ℕ
key_block_header_version_major = 2

-- Lines 160-191: where the signature and the data key are.
unfoldable pub check_members : Memory → ℕ → ℕ → ℕ
check_members m block sig_at =
    let kb = keyblock_at m block in
    let sig = signature_at m sig_at in
    let key_at = block + offset_data_key in
    if truthy (vb2_verify_signature_inside block kb.keyblock_size sig_at sig)
    then error_keyblock_sig_outside
    else if ltb kb.keyblock_size sig.data_size
    then error_keyblock_signed_too_much
    else if ltb sig.data_size sizeof_keyblock
    then error_keyblock_signed_too_little
    else if truthy (vb2_verify_packed_key_inside block kb.keyblock_size key_at kb.data_key)
    then error_keyblock_data_key_outside
    else if truthy (vb2_verify_packed_key_inside block sig.data_size key_at kb.data_key)
    then error_keyblock_data_key_unsigned
    else vb2_success

unfoldable pub vb2_check_keyblock : Memory → (block size sig_at : ℕ) → ℕ
unfolding check_members
vb2_check_keyblock m block size sig_at =
    let kb = keyblock_at m block in
    if ltb size sizeof_keyblock
    then error_keyblock_too_small_for_header
    else if not (same_bytes kb.magic key_block_magic)
    then error_keyblock_magic
    else if not (kb.header_version_major == key_block_header_version_major)
    then error_keyblock_header_version
    else if ltb size kb.keyblock_size
    then error_keyblock_size
    else check_members m block sig_at

unfoldable pub vb2_verify_keyblock :
    {Digest : Type 0} → Crypto Digest → Memory → (block size : ℕ) → PublicKey → Workbuf → Memory × ℕ
vb2_verify_keyblock crypto m block size key wb =
    let sig_at = block + offset_keyblock_signature in
    let rv = vb2_check_keyblock m block size sig_at in
    let (m', code) = vb2_verify_data crypto m block size sig_at key wb in
    if truthy rv
    then (m, rv)
    else if truthy code
    then (m', error_keyblock_sig_invalid)
    else (m', vb2_success)
