-- ===== src/VbootNvstorage.antt =====
-- firmware/lib/vboot_nvstorage.c: the older code for the non-volatile storage.
pub mod Agrees
pub mod Backup
use cbmc_vboot.Prelude.{
  ℕ, ◌+◌, ◌-◌, ◌*◌, ◌/◌, ◌%◌, ◌^◌, bit_and, bit_or, not, Bool, false, ◌||◌, List, ltb, ◌==◌, truthy,
  if◌then◌else◌, get_or, set, replicate, Option, none, some,
}
use cbmc_vboot.Crc8.Vboot.{crc8}

-- VbNvContext
pub record VbNvContext : Type 0 where
  pub raw : List ℕ
  pub raw_changed : ℕ
  pub regenerate_crc : ℕ

-- VbNvParam; `other` is a value that is none of the enum's.
pub data VbNvParam : Type 0 where
  firmware_settings_reset kernel_settings_reset debug_reset_mode : VbNvParam
  try_b_count fw_try_count recovery_request : VbNvParam
  localization_index kernel_field dev_boot_usb : VbNvParam
  dev_boot_legacy dev_boot_signed_only dev_boot_fastboot_full_cap : VbNvParam
  dev_default_boot disable_dev_request oprom_needed : VbNvParam
  clear_tpm_owner_request clear_tpm_owner_done tpm_requested_reboot : VbNvParam
  recovery_subcode backup_nvram_request fw_try_next : VbNvParam
  fw_tried fw_result fw_prev_tried : VbNvParam
  fw_prev_result fw_req_wipeout fastboot_unlock_in_fw : VbNvParam
  boot_on_ac_detect try_ro_sync : VbNvParam
  other : ℕ → VbNvParam

abbrev pub header_offset : ℕ
header_offset = 0

abbrev pub boot_offset : ℕ
boot_offset = 1

abbrev pub recovery_offset : ℕ
recovery_offset = 2

abbrev pub localization_offset : ℕ
localization_offset = 3

abbrev pub dev_flags_offset : ℕ
dev_flags_offset = 4

abbrev pub tpm_flags_offset : ℕ
tpm_flags_offset = 5

abbrev pub recovery_subcode_offset : ℕ
recovery_subcode_offset = 6

abbrev pub boot2_offset : ℕ
boot2_offset = 7

abbrev pub misc_offset : ℕ
misc_offset = 8

abbrev pub kernel_field_offset : ℕ
kernel_field_offset = 11

abbrev pub crc_offset : ℕ
crc_offset = 15

-- *dest = raw[offset] & mask ? 1 : 0
abbrev flag_at : List ℕ → (offset mask : ℕ) → Option ℕ
flag_at raw offset mask = some (if truthy (bit_and (get_or raw offset 0) mask) then 1 else 0)

-- The switch of VbNvGet: what is stored to *dest, and none where 1 is returned.
unfoldable pub get_param : List ℕ → VbNvParam → Option ℕ
get_param raw firmware_settings_reset = flag_at raw header_offset 0x20
get_param raw kernel_settings_reset = flag_at raw header_offset 0x10
get_param raw debug_reset_mode = flag_at raw boot_offset 0x80
get_param raw try_b_count = some (bit_and (get_or raw boot_offset 0) 0x0f)
get_param raw fw_try_count = some (bit_and (get_or raw boot_offset 0) 0x0f)
get_param raw recovery_request = some (get_or raw recovery_offset 0)
get_param raw localization_index = some (get_or raw localization_offset 0)
get_param raw kernel_field = some (
    bit_or
      (bit_or
        (bit_or (get_or raw kernel_field_offset 0) (get_or raw (kernel_field_offset + 1) 0 * 2 ^ 8))
        (get_or raw (kernel_field_offset + 2) 0 * 2 ^ 16))
      (get_or raw (kernel_field_offset + 3) 0 * 2 ^ 24))
get_param raw dev_boot_usb = flag_at raw dev_flags_offset 0x01
get_param raw dev_boot_legacy = flag_at raw dev_flags_offset 0x04
get_param raw dev_boot_signed_only = flag_at raw dev_flags_offset 0x02
get_param raw dev_boot_fastboot_full_cap = flag_at raw dev_flags_offset 0x08
get_param raw dev_default_boot = some (bit_and (get_or raw dev_flags_offset 0) 0x30 / 2 ^ 4)
get_param raw disable_dev_request = flag_at raw boot_offset 0x40
get_param raw oprom_needed = flag_at raw boot_offset 0x20
get_param raw clear_tpm_owner_request = flag_at raw tpm_flags_offset 0x01
get_param raw clear_tpm_owner_done = flag_at raw tpm_flags_offset 0x02
get_param raw tpm_requested_reboot = flag_at raw tpm_flags_offset 0x04
get_param raw recovery_subcode = some (get_or raw recovery_subcode_offset 0)
get_param raw backup_nvram_request = flag_at raw boot_offset 0x10
get_param raw fw_try_next = flag_at raw boot2_offset 0x08
get_param raw fw_tried = flag_at raw boot2_offset 0x04
get_param raw fw_result = some (bit_and (get_or raw boot2_offset 0) 0x03)
get_param raw fw_prev_tried = flag_at raw boot2_offset 0x40
get_param raw fw_prev_result = some (bit_and (get_or raw boot2_offset 0) 0x30 / 2 ^ 4)
get_param raw fw_req_wipeout = flag_at raw header_offset 0x08
get_param raw fastboot_unlock_in_fw = flag_at raw misc_offset 0x01
get_param raw boot_on_ac_detect = flag_at raw misc_offset 0x02
get_param raw try_ro_sync = flag_at raw misc_offset 0x04
get_param raw (other n) = none

unfoldable pub vb_nv_get : VbNvContext → VbNvParam → Option ℕ
vb_nv_get context param = get_param context.raw param

-- if (value) raw[offset] |= mask; else raw[offset] &= ~mask;
abbrev set_flag : List ℕ → (offset mask value : ℕ) → Option (List ℕ)
set_flag raw offset mask value =
    let byte = get_or raw offset 0 in
    some (set raw offset (if truthy value then bit_or byte mask else bit_and byte (0xff - mask)))

-- raw[offset] &= ~mask; raw[offset] |= digits;
abbrev set_digits : List ℕ → (offset mask digits : ℕ) → Option (List ℕ)
set_digits raw offset mask digits =
    some (set raw offset (bit_or (bit_and (get_or raw offset 0) (0xff - mask)) digits))

-- The switch of VbNvSet: the new bytes, and none where 1 is returned.
unfoldable pub set_param : List ℕ → VbNvParam → (value : ℕ) → Option (List ℕ)
set_param raw firmware_settings_reset value = set_flag raw header_offset 0x20 value
set_param raw kernel_settings_reset value = set_flag raw header_offset 0x10 value
set_param raw debug_reset_mode value = set_flag raw boot_offset 0x80 value
set_param raw try_b_count value =
    set_digits raw boot_offset 0x0f ((if ltb 0x0f value then 0x0f else value) % 2 ^ 8)
set_param raw fw_try_count value =
    set_digits raw boot_offset 0x0f ((if ltb 0x0f value then 0x0f else value) % 2 ^ 8)
set_param raw recovery_request value =
    some (set raw recovery_offset ((if ltb 0xff value then 0x01 else value) % 2 ^ 8))
set_param raw localization_index value =
    some (set raw localization_offset ((if ltb 0xff value then 0 else value) % 2 ^ 8))
set_param raw kernel_field value =
    let raw1 = set raw kernel_field_offset (value % 2 ^ 8) in
    let raw2 = set raw1 (kernel_field_offset + 1) (value / 2 ^ 8 % 2 ^ 8) in
    let raw3 = set raw2 (kernel_field_offset + 2) (value / 2 ^ 16 % 2 ^ 8) in
    some (set raw3 (kernel_field_offset + 3) (value / 2 ^ 24 % 2 ^ 8))
set_param raw dev_boot_usb value = set_flag raw dev_flags_offset 0x01 value
set_param raw dev_boot_legacy value = set_flag raw dev_flags_offset 0x04 value
set_param raw dev_boot_signed_only value = set_flag raw dev_flags_offset 0x02 value
set_param raw dev_boot_fastboot_full_cap value = set_flag raw dev_flags_offset 0x08 value
set_param raw dev_default_boot value =
    set_digits raw dev_flags_offset 0x30
      ((if ltb (0x30 / 2 ^ 4) value then 0 else value) % 2 ^ 8 * 2 ^ 4 % 2 ^ 8)
set_param raw disable_dev_request value = set_flag raw boot_offset 0x40 value
set_param raw oprom_needed value = set_flag raw boot_offset 0x20 value
set_param raw clear_tpm_owner_request value = set_flag raw tpm_flags_offset 0x01 value
set_param raw clear_tpm_owner_done value = set_flag raw tpm_flags_offset 0x02 value
set_param raw tpm_requested_reboot value = set_flag raw tpm_flags_offset 0x04 value
set_param raw recovery_subcode value = some (set raw recovery_subcode_offset (value % 2 ^ 8))
set_param raw backup_nvram_request value = set_flag raw boot_offset 0x10 value
set_param raw fw_try_next value = set_flag raw boot2_offset 0x08 value
set_param raw fw_tried value = set_flag raw boot2_offset 0x04 value
set_param raw fw_result value =
    set_digits raw boot2_offset 0x03 ((if ltb 0x03 value then 0 else value) % 2 ^ 8)
set_param raw fw_prev_tried value = set_flag raw boot2_offset 0x40 value
set_param raw fw_prev_result value =
    set_digits raw boot2_offset 0x30 ((if ltb 0x03 value then 0 else value) % 2 ^ 8 * 2 ^ 4 % 2 ^ 8)
set_param raw fw_req_wipeout value = set_flag raw header_offset 0x08 value
set_param raw fastboot_unlock_in_fw value = set_flag raw misc_offset 0x01 value
set_param raw boot_on_ac_detect value = set_flag raw misc_offset 0x02 value
set_param raw try_ro_sync value = set_flag raw misc_offset 0x04 value
set_param raw (other n) value = none

-- 0 == VbNvGet(context, param, &current) && current == value
abbrev pub same_value : Option ℕ → (value : ℕ) → Bool
same_value none value = false
same_value (some current) value = current == value

-- What is left of VbNvSet after its switch.
abbrev after_switch : VbNvContext → Option (List ℕ) → VbNvContext × ℕ
after_switch context none = (context, 1)
after_switch context (some raw) = (record context { raw = raw; regenerate_crc = 1 }, 0)

unfoldable pub vb_nv_set : VbNvContext → VbNvParam → (value : ℕ) → VbNvContext × ℕ
vb_nv_set context param value =
    if same_value (vb_nv_get context param) value
    then (context, 0)
    else after_switch context (set_param context.raw param value)

unfoldable pub vb_nv_setup : VbNvContext → VbNvContext
vb_nv_setup context =
    let raw = context.raw in
    if not (0x40 == bit_and (get_or raw header_offset 0) 0xc0)
      || not (crc8 raw crc_offset == get_or raw crc_offset 0)
    then record {
      raw = set (replicate 16 0) header_offset (bit_or (bit_or 0x40 0x20) 0x10);
      raw_changed = 0;
      regenerate_crc = 1;
    }
    else record context { raw_changed = 0; regenerate_crc = 0 }

unfoldable pub vb_nv_teardown : VbNvContext → VbNvContext
vb_nv_teardown context =
    if truthy context.regenerate_crc
    then record {
      raw = set context.raw crc_offset (crc8 context.raw crc_offset);
      raw_changed = 1;
      regenerate_crc = 0;
    }
    else context
