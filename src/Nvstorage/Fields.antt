-- ===== src/Nvstorage/Fields.antt =====
-- Reading and writing a parameter follow the layout table, whatever the other bytes hold.
pub mod ReadWrite
pub mod Ranges
pub mod Commute
use cbmc_vboot.Prelude.{
  ℕ, zero, suc, ◌+◌, ◌*◌, ◌/◌, ◌%◌, ◌^◌, ◌≤◌, ◌<◌, ◌≡◌, refl, sym, ap, ap₂, ◌∙◌, ◌≢◌, ◌⊎◌, inl, inr,
  bit_and, bit_or, Bool, true, false, not, ◌&&◌, ◌||◌, List, ltb, ◌==◌, ==_iff, truthy,
  if◌then◌else◌, get_or, set, length, All, IsByte, arith, Bool-cases, all_below, all_below_sound,
  get_or-set_self, get_or-set_ne, length-set,
}
use cbmc_vboot.Prelude.Bits.{
  and_assoc, and-zero, flag_self, flag_other, field_self, field_other, or_shift,
}
use cbmc_vboot.Nvstorage.{
  NvParam, firmware_settings_reset, try_count, fw_result, fw_prev_result, recovery_request,
  recovery_subcode, localization_index, kernel_field, dev_default_boot, offs_kernel, not8, byte_at,
  clip, read_param, write_param,
}
use cbmc_vboot.Nvstorage.Layout.{offs_of, mask_of, is_whole, same, layout_separate, layout_apart}

-- The value that a parameter has after `v` was written: clipped to its range.
abbrev pub stored_value : NvParam → ℕ → ℕ
stored_value try_count v = clip 0x0f 0x0f v
stored_value fw_result v = clip 0x03 0 v
stored_value fw_prev_result v = clip 0x03 0 v
stored_value dev_default_boot v = clip 0x03 0 v
stored_value recovery_request v = clip 0xff 0x01 v
stored_value recovery_subcode v = v % 2 ^ 8
stored_value localization_index v = clip 0xff 0 v
stored_value kernel_field v = v % 2 ^ 32
stored_value _ v = if truthy v then 1 else 0

-- The stored value in its place within the byte.
placed : NvParam → ℕ → ℕ
placed try_count v = clip 0x0f 0x0f v % 2 ^ 8
placed fw_result v = clip 0x03 0 v % 2 ^ 8
placed fw_prev_result v = clip 0x03 0 v * 2 ^ 4 % 2 ^ 8
placed dev_default_boot v = clip (0x30 / 2 ^ 4) 0 v * 2 ^ 4 % 2 ^ 8
placed recovery_request v = clip 0xff 0x01 v % 2 ^ 8
placed recovery_subcode v = v % 2 ^ 8
placed localization_index v = clip 0xff 0 v % 2 ^ 8
placed kernel_field v = v % 2 ^ 8
placed p v = if truthy v then mask_of p else 0

flipped : ℕ → ℕ → ℕ → ℕ
flipped mask v x = if truthy v then bit_or x mask else bit_and x (not8 mask)

replaced : NvParam → ℕ → ℕ → ℕ
replaced p v x = bit_or (bit_and x (not8 (mask_of p))) (placed p v)

-- The byte of `p` after a write, from the byte before.
pub new_byte : NvParam → ℕ → ℕ → ℕ
new_byte try_count v x = replaced try_count v x
new_byte fw_result v x = replaced fw_result v x
new_byte fw_prev_result v x = replaced fw_prev_result v x
new_byte dev_default_boot v x = replaced dev_default_boot v x
new_byte recovery_request v x = placed recovery_request v
new_byte recovery_subcode v x = placed recovery_subcode v
new_byte localization_index v x = placed localization_index v
new_byte kernel_field v x = placed kernel_field v
new_byte p v x = flipped (mask_of p) v x

-- What of the byte belongs to `p`, and its meaning.
owned : NvParam → ℕ → ℕ
owned p x = if is_whole p then x else bit_and x (mask_of p)

decode : NvParam → ℕ → ℕ
decode try_count raw = raw
decode fw_result raw = raw
decode fw_prev_result raw = raw / 2 ^ 4
decode dev_default_boot raw = raw / 2 ^ 4
decode recovery_request raw = raw
decode recovery_subcode raw = raw
decode localization_index raw = raw
decode kernel_field raw = raw
decode p raw = if truthy raw then 1 else 0

read-decode :
    (nv : List ℕ) (p : NvParam)
    → same p kernel_field ≡ false
    → read_param nv p ≡ decode p (owned p (byte_at nv (offs_of p)))
unfolding read_param decode owned
read-decode nv firmware_settings_reset h = refl
read-decode nv kernel_field h = cc
read-decode nv _ h = refl

pub write-set :
    (nv : List ℕ) (p : NvParam) (v : ℕ)
    → same p kernel_field ≡ false
    → write_param nv p v ≡ set nv (offs_of p) (new_byte p v (byte_at nv (offs_of p)))
unfolding write_param new_byte replaced placed flipped
write-set nv firmware_settings_reset v h = refl
write-set nv kernel_field v h = cc
write-set nv _ v h = refl

low_table : all_below 16 (λ x. bit_and x 0x0f == x) ≡ true
unfolding all_below
low_table = refl

pair_table :
    all_below 4
      (λ x. (bit_and x 0x03 == x) && (bit_and (x * 2 ^ 4 % 2 ^ 8) 0x30 == x * 2 ^ 4 % 2 ^ 8))
    ≡ true
unfolding all_below
pair_table = refl

-- What is placed lies under the mask.
placed-mask :
    (p : NvParam) (v : ℕ) → is_whole p ≡ false → bit_and (placed p v) (mask_of p) ≡ placed p v
unfolding placed
placed-mask firmware_settings_reset v h = ground arith
placed-mask try_count v h =
    let c : ℕ = clip 0x0f 0x0f v in
    ground (arith, λ (small : c < 16). all_below_sound 16 _ c small low_table)
placed-mask fw_result v h =
    let c : ℕ = clip 0x03 0 v in
    ground (arith, λ (small : c < 4). all_below_sound 4 _ c small pair_table)
placed-mask fw_prev_result v h =
    let c : ℕ = clip 0x03 0 v in
    ground (arith, λ (small : c < 4). all_below_sound 4 _ c small pair_table)
placed-mask dev_default_boot v h =
    let c : ℕ = clip 0x03 0 v in
    ground (arith, λ (small : c < 4). all_below_sound 4 _ c small pair_table)
placed-mask recovery_request v h = cc
placed-mask recovery_subcode v h = cc
placed-mask localization_index v h = cc
placed-mask kernel_field v h = cc
placed-mask _ v h = ground arith
