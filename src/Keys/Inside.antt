-- ===== src/Keys/Inside.antt =====
-- lib20/common.c: vb2_verify_member_inside, and its two uses. Pointers, sizes and offsets are
-- 64-bit patterns; a ptrdiff_t is compared signed with another and unsigned with a size_t.
pub mod Bounds
pub mod Members
use cbmc_vboot.Prelude.{ℕ, ◌+◌, ◌%◌, ◌^◌, Bool, ◌&&◌, ◌||◌, ltb, leb, if◌then◌else◌}
use cbmc_vboot.Context.{vb2_success}
use cbmc_vboot.Codes.{
  error_inside_parent_wraps, error_inside_member_wraps, error_inside_member_outside,
  error_inside_data_overlap, error_inside_data_wraps, error_inside_data_outside,
}
use cbmc_vboot.Common.{add64, vb2_offset_of}
use cbmc_vboot.Keys.{PackedKey, Signature, sizeof_packed_key, sizeof_signature}

-- a < b and a < 0 for a ptrdiff_t.
abbrev signed_lt : ℕ → ℕ → Bool
signed_lt a b = ltb ((a + 2 ^ 63) % 2 ^ 64) ((b + 2 ^ 63) % 2 ^ 64)

abbrev negative : ℕ → Bool
negative a = leb (2 ^ 63) a

unfoldable pub vb2_verify_member_inside :
    (parent parent_size member member_size offset size : ℕ) → ℕ
unfolding vb2_offset_of
vb2_verify_member_inside parent parent_size member member_size member_data_offset member_data_size =
    let parent_end = add64 parent parent_size in
    let member_offs = vb2_offset_of parent member in
    let member_end_offs = add64 member_offs member_size in
    let data_offs = add64 member_offs member_data_offset in
    let data_end_offs = add64 data_offs member_data_size in
    if ltb parent_end parent
    then error_inside_parent_wraps
    else if signed_lt member_end_offs member_offs
    then error_inside_member_wraps
    else if negative member_offs || ltb parent_size member_offs || ltb parent_size member_end_offs
    then error_inside_member_outside
    else if ltb 0 member_data_size && signed_lt data_offs member_end_offs
    then error_inside_data_overlap
    else if signed_lt data_end_offs data_offs
    then error_inside_data_wraps
    else if negative data_offs || ltb parent_size data_offs || ltb parent_size data_end_offs
    then error_inside_data_outside
    else vb2_success

unfoldable pub vb2_verify_packed_key_inside : (parent parent_size key_at : ℕ) → PackedKey → ℕ
unfolding vb2_verify_member_inside
vb2_verify_packed_key_inside parent parent_size key_at key =
    vb2_verify_member_inside parent parent_size key_at sizeof_packed_key key.key_offset key.key_size

unfoldable pub vb2_verify_signature_inside : (parent parent_size sig_at : ℕ) → Signature → ℕ
unfolding vb2_verify_member_inside
vb2_verify_signature_inside parent parent_size sig_at sig =
    vb2_verify_member_inside parent parent_size sig_at sizeof_signature sig.sig_offset sig.sig_size
