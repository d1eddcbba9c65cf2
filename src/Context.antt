-- ===== src/Context.antt =====
-- The state that the firmware functions share: struct vb2_context (firmware/2lib/include/2api.h),
-- struct vb2_shared_data (2struct.h), the two secure storage structs (2secdata.h) and the return
-- codes (2return_codes.h). The shared data lies at the start of the work buffer; here it is the
-- field `sd`, and `workbuf` is the buffer's address.
use cbmc_vboot.Prelude.{ℕ, bit_or, List}

-- struct vb2_secdata
pub record Secdata : Type 0 where
  pub struct_version : ℕ
  pub flags : ℕ
  pub fw_versions : ℕ
  pub reserved : List ℕ
  pub crc8 : ℕ

-- struct vb2_secdatak
pub record Secdatak : Type 0 where
  pub struct_version : ℕ
  pub uid : ℕ
  pub kernel_versions : ℕ
  pub reserved : List ℕ
  pub crc8 : ℕ

-- struct vb2_shared_data
pub record SharedData : Type 0 where
  pub flags : ℕ
  pub gbb_flags : ℕ
  pub recovery_reason : ℕ
  pub last_fw_slot : ℕ
  pub last_fw_result : ℕ
  pub fw_slot : ℕ
  pub fw_version : ℕ
  pub fw_version_secdata : ℕ
  pub status : ℕ
  pub kernel_version : ℕ
  pub kernel_version_secdatak : ℕ
  pub gbb_rootkey_offset : ℕ
  pub gbb_rootkey_size : ℕ
  pub gbb_hwid_digest : List ℕ
  pub vblock_preamble_offset : ℕ
  pub workbuf_data_key_offset : ℕ
  pub workbuf_data_key_size : ℕ
  pub workbuf_preamble_offset : ℕ
  pub workbuf_preamble_size : ℕ
  pub workbuf_hash_offset : ℕ
  pub workbuf_hash_size : ℕ
  pub hash_tag : ℕ
  pub hash_remaining_size : ℕ
  pub workbuf_kernel_key_offset : ℕ
  pub workbuf_kernel_key_size : ℕ

-- sizeof(struct vb2_shared_data)
abbrev pub sizeof_shared_data : ℕ
sizeof_shared_data = 128

-- struct vb2_context
pub record Context : Type 0 where
  pub flags : ℕ
  pub workbuf : ℕ
  pub workbuf_size : ℕ
  pub workbuf_used : ℕ
  pub nvdata : List ℕ
  pub secdata : Secdata
  pub secdatak : Secdatak
  pub sd : SharedData

abbrev pub vb2_success : ℕ
vb2_success = 0

-- enum vb2_context_flags
abbrev pub context_nvdata_changed : ℕ
context_nvdata_changed = 0x1

abbrev pub context_secdata_changed : ℕ
context_secdata_changed = 0x2

abbrev pub context_recovery_mode : ℕ
context_recovery_mode = 0x4

abbrev pub context_developer_mode : ℕ
context_developer_mode = 0x8

abbrev pub context_force_recovery_mode : ℕ
context_force_recovery_mode = 0x10

abbrev pub context_force_developer_mode : ℕ
context_force_developer_mode = 0x20

abbrev pub context_fw_slot_b : ℕ
context_fw_slot_b = 0x40

abbrev pub context_clear_ram : ℕ
context_clear_ram = 0x80

abbrev pub context_force_wipeout_mode : ℕ
context_force_wipeout_mode = 0x100

abbrev pub disable_developer_mode : ℕ
disable_developer_mode = 0x200

abbrev pub context_secdatak_changed : ℕ
context_secdatak_changed = 0x400

abbrev pub context_nofail_boot : ℕ
context_nofail_boot = 0x1000

abbrev pub context_secdata_wants_reboot : ℕ
context_secdata_wants_reboot = 0x2000

abbrev pub context_s3_resume : ℕ
context_s3_resume = 0x4000

-- enum vb2_shared_data_status
abbrev pub status_nv_reinit : ℕ
status_nv_reinit = 0x1

abbrev pub status_nv_init : ℕ
status_nv_init = 0x2

abbrev pub status_secdata_init : ℕ
status_secdata_init = 0x4

abbrev pub status_chose_slot : ℕ
status_chose_slot = 0x8

abbrev pub status_secdatak_init : ℕ
status_secdatak_init = 0x10

-- ctx->flags |= m
abbrev pub or_flags : Context → ℕ → Context
or_flags ctx m = record ctx { flags = bit_or ctx.flags m }

-- sd->status |= m
abbrev pub or_status : Context → ℕ → Context
or_status ctx m = record ctx { sd = record ctx.sd { status = bit_or ctx.sd.status m } }
