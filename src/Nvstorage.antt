-- ===== src/Nvstorage.antt =====
-- firmware/2lib/2nvstorage.c: the 16 bytes of non-volatile storage, with the offsets and masks of
-- firmware/2lib/include/2nvstorage_fields.h.
pub mod Layout
pub mod Fields
pub mod Laws
pub mod Writes
use cbmc_vboot.Prelude.{
  ℕ, ◌+◌, ◌-◌, ◌*◌, ◌/◌, ◌%◌, ◌^◌, bit_and, bit_or, not, List, ltb, ◌==◌, truthy, if◌then◌else◌,
  get_or, set, replicate,
}
use cbmc_vboot.Crc8.{vb2_crc8}
use cbmc_vboot.Context.{
  Context, vb2_success, context_nvdata_changed, status_nv_reinit, status_nv_init, or_flags,
  or_status,
}

-- enum vb2_nv_param
pub data NvParam : Type 0 where
  firmware_settings_reset kernel_settings_reset debug_reset_mode try_next : NvParam
  try_count fw_tried fw_result fw_prev_tried : NvParam
  fw_prev_result recovery_request recovery_subcode localization_index : NvParam
  kernel_field dev_boot_usb dev_boot_legacy dev_boot_signed_only : NvParam
  dev_boot_fastboot_full_cap dev_default_boot disable_dev_request oprom_needed : NvParam
  backup_nvram_request clear_tpm_owner_request clear_tpm_owner_done tpm_requested_reboot : NvParam
  req_wipeout fastboot_unlock_in_fw boot_on_ac_detect try_ro_sync : NvParam

-- enum vb2_nv_offset
abbrev pub offs_header : ℕ
offs_header = 0

abbrev pub offs_boot : ℕ
offs_boot = 1

abbrev pub offs_recovery : ℕ
offs_recovery = 2

abbrev pub offs_localization : ℕ
offs_localization = 3

abbrev pub offs_dev : ℕ
offs_dev = 4

abbrev pub offs_tpm : ℕ
offs_tpm = 5

abbrev pub offs_recovery_subcode : ℕ
offs_recovery_subcode = 6

abbrev pub offs_boot2 : ℕ
offs_boot2 = 7

abbrev pub offs_misc : ℕ
offs_misc = 8

abbrev pub offs_kernel : ℕ
offs_kernel = 11

abbrev pub offs_crc : ℕ
offs_crc = 15

abbrev pub error_nv_header : ℕ
error_nv_header = 0x10030001

abbrev pub error_nv_crc : ℕ
error_nv_crc = 0x10030002

-- p[offs]
abbrev pub byte_at : List ℕ → ℕ → ℕ
byte_at p offs = get_or p offs 0

-- ~mask, in a uint8_t.
abbrev pub not8 : ℕ → ℕ
not8 mask = 0xff - mask

unfoldable pub vb2_nv_regen_crc : Context → Context
vb2_nv_regen_crc ctx =
    or_flags (record ctx { nvdata = set ctx.nvdata offs_crc (vb2_crc8 ctx.nvdata offs_crc) })
      context_nvdata_changed

unfoldable pub vb2_nv_check_crc : Context → ℕ
vb2_nv_check_crc ctx =
    if not (0x40 == bit_and (byte_at ctx.nvdata offs_header) 0xc0)
    then error_nv_header
    else if not (vb2_crc8 ctx.nvdata offs_crc == byte_at ctx.nvdata offs_crc)
    then error_nv_crc
    else vb2_success

-- memset(p, 0, VB2_NVDATA_SIZE) and the header byte.
abbrev pub default_nvdata : List ℕ
default_nvdata = set (replicate 16 0) offs_header (bit_or (bit_or 0x40 0x20) 0x10)

unfoldable pub vb2_nv_init : Context → Context
unfolding vb2_nv_regen_crc
vb2_nv_init ctx =
    or_status
      (if not (vb2_nv_check_crc ctx == vb2_success)
        then or_status (vb2_nv_regen_crc (record ctx { nvdata = default_nvdata })) status_nv_reinit
        else ctx)
      status_nv_init

-- GETBIT(offs, mask)
abbrev pub getbit : List ℕ → ℕ → ℕ → ℕ
getbit p offs mask = if truthy (bit_and (byte_at p offs) mask) then 1 else 0

-- The switch of vb2_nv_get.
unfoldable pub read_param : List ℕ → NvParam → ℕ
read_param p firmware_settings_reset = getbit p offs_header 0x20
read_param p kernel_settings_reset = getbit p offs_header 0x10
read_param p debug_reset_mode = getbit p offs_boot 0x80
read_param p try_next = getbit p offs_boot2 0x8
read_param p try_count = bit_and (byte_at p offs_boot) 0x0f
read_param p fw_tried = getbit p offs_boot2 0x4
read_param p fw_result = bit_and (byte_at p offs_boot2) 0x03
read_param p fw_prev_tried = getbit p offs_boot2 0x40
read_param p fw_prev_result = bit_and (byte_at p offs_boot2) 0x30 / 2 ^ 4
read_param p recovery_request = byte_at p offs_recovery
read_param p recovery_subcode = byte_at p offs_recovery_subcode
read_param p localization_index = byte_at p offs_localization
read_param p kernel_field =
    bit_or
      (bit_or (bit_or (byte_at p offs_kernel) (byte_at p (offs_kernel + 1) * 2 ^ 8))
        (byte_at p (offs_kernel + 2) * 2 ^ 16))
      (byte_at p (offs_kernel + 3) * 2 ^ 24)
read_param p dev_boot_usb = getbit p offs_dev 0x1
read_param p dev_boot_legacy = getbit p offs_dev 0x4
read_param p dev_boot_signed_only = getbit p offs_dev 0x2
read_param p dev_boot_fastboot_full_cap = getbit p offs_dev 0x8
read_param p dev_default_boot = bit_and (byte_at p offs_dev) 0x30 / 2 ^ 4
read_param p disable_dev_request = getbit p offs_boot 0x40
read_param p oprom_needed = getbit p offs_boot 0x20
read_param p backup_nvram_request = getbit p offs_boot 0x10
read_param p clear_tpm_owner_request = getbit p offs_tpm 0x1
read_param p clear_tpm_owner_done = getbit p offs_tpm 0x2
read_param p tpm_requested_reboot = getbit p offs_tpm 0x4
read_param p req_wipeout = getbit p offs_header 0x8
read_param p fastboot_unlock_in_fw = getbit p offs_misc 0x1
read_param p boot_on_ac_detect = getbit p offs_misc 0x2
read_param p try_ro_sync = getbit p offs_misc 0x4

unfoldable pub vb2_nv_get : Context → NvParam → ℕ
vb2_nv_get ctx param = read_param ctx.nvdata param

-- SETBIT(offs, mask)
abbrev pub setbit : List ℕ → ℕ → ℕ → ℕ → List ℕ
setbit p offs mask value =
    set p offs
      (if truthy value then bit_or (byte_at p offs) mask else bit_and (byte_at p offs) (not8 mask))

-- p[offs] &= ~mask; p[offs] |= digits
abbrev pub set_field : List ℕ → ℕ → ℕ → ℕ → List ℕ
set_field p offs mask digits = set p offs (bit_or (bit_and (byte_at p offs) (not8 mask)) digits)

-- if (value > limit) value = default
abbrev pub clip : ℕ → ℕ → ℕ → ℕ
clip limit default value = if ltb limit value then default else value

-- The switch of vb2_nv_set.
unfoldable pub write_param : List ℕ → NvParam → ℕ → List ℕ
write_param p firmware_settings_reset value = setbit p offs_header 0x20 value
write_param p kernel_settings_reset value = setbit p offs_header 0x10 value
write_param p debug_reset_mode value = setbit p offs_boot 0x80 value
write_param p try_next value = setbit p offs_boot2 0x8 value
write_param p try_count value = set_field p offs_boot 0x0f (clip 0x0f 0x0f value % 2 ^ 8)
write_param p fw_tried value = setbit p offs_boot2 0x4 value
write_param p fw_result value = set_field p offs_boot2 0x03 (clip 0x03 0 value % 2 ^ 8)
write_param p fw_prev_tried value = setbit p offs_boot2 0x40 value
write_param p fw_prev_result value = set_field p offs_boot2 0x30 (clip 0x03 0 value * 2 ^ 4 % 2 ^ 8)
write_param p recovery_request value = set p offs_recovery (clip 0xff 0x01 value % 2 ^ 8)
write_param p recovery_subcode value = set p offs_recovery_subcode (value % 2 ^ 8)
write_param p localization_index value = set p offs_localization (clip 0xff 0 value % 2 ^ 8)
write_param p kernel_field value =
    set
      (set (set (set p offs_kernel (value % 2 ^ 8)) (offs_kernel + 1) (value / 2 ^ 8 % 2 ^ 8))
        (offs_kernel + 2) (value / 2 ^ 16 % 2 ^ 8))
      (offs_kernel + 3) (value / 2 ^ 24 % 2 ^ 8)
write_param p dev_boot_usb value = setbit p offs_dev 0x1 value
write_param p dev_boot_legacy value = setbit p offs_dev 0x4 value
write_param p dev_boot_signed_only value = setbit p offs_dev 0x2 value
write_param p dev_boot_fastboot_full_cap value = setbit p offs_dev 0x8 value
write_param p dev_default_boot value =
    set_field p offs_dev 0x30 (clip (0x30 / 2 ^ 4) 0 value * 2 ^ 4 % 2 ^ 8)
write_param p disable_dev_request value = setbit p offs_boot 0x40 value
write_param p oprom_needed value = setbit p offs_boot 0x20 value
write_param p backup_nvram_request value = setbit p offs_boot 0x10 value
write_param p clear_tpm_owner_request value = setbit p offs_tpm 0x1 value
write_param p clear_tpm_owner_done value = setbit p offs_tpm 0x2 value
write_param p tpm_requested_reboot value = setbit p offs_tpm 0x4 value
write_param p req_wipeout value = setbit p offs_header 0x8 value
write_param p fastboot_unlock_in_fw value = setbit p offs_misc 0x1 value
write_param p boot_on_ac_detect value = setbit p offs_misc 0x2 value
write_param p try_ro_sync value = setbit p offs_misc 0x4 value

unfoldable pub vb2_nv_set : Context → NvParam → ℕ → Context
unfolding vb2_nv_regen_crc
vb2_nv_set ctx param value =
    if vb2_nv_get ctx param == value
    then ctx
    else vb2_nv_regen_crc (record ctx { nvdata = write_param ctx.nvdata param value })
