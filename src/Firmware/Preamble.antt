-- ===== src/Firmware/Preamble.antt =====
-- firmware/lib20/misc.c: vb2_load_fw_preamble.
pub mod Reached
pub mod Rollback
pub mod Authentic
use cbmc_vboot.Prelude.{
  ℕ, ◌+◌, ◌%◌, ◌^◌, bit_or, Bool, not, ◌&&◌, ◌==◌, Option, none, some, ltb, truthy, has_flag,
  if◌then◌else◌, Result, ok, err,
}
use cbmc_vboot.Context.{Context, vb2_success}
use cbmc_vboot.Codes.{
  error_fw_preamble2_data_key, error_fw_preamble2_workbuf_header, error_fw_preamble2_workbuf,
  error_fw_preamble_version_range, error_fw_preamble_version_rollback,
}
use cbmc_vboot.Common.{Workbuf, add64, add32, vb2_workbuf_alloc, vb2_workbuf_realloc, vb2_offset_of}
use cbmc_vboot.Keys.{fw_preamble_at, sizeof_fw_preamble}
use cbmc_vboot.Keys.Unpack.{PublicKey, vb2_unpack_key}
use cbmc_vboot.Keys.Verify.{Crypto}
use cbmc_vboot.Keys.Preamble.{vb2_verify_fw_preamble}
use cbmc_vboot.Secdata.{versions, vb2_secdata_set}
use cbmc_vboot.Firmware.{
  Machine, Resource, fw_vblock, ReadResource, read_to, and_then, fail, vb2_workbuf_from_ctx,
}
use cbmc_vboot.Firmware.Keyblock.{gbb_flag_disable_fw_rollback_check}

abbrev pub recovery_fw_preamble : ℕ
recovery_fw_preamble = 0x16

abbrev pub recovery_fw_rollback : ℕ
recovery_fw_rollback = 0x17

-- VB2_FW_RESULT_SUCCESS
abbrev pub result_success : ℕ
result_success = 2

-- sd->fw_version |= pre->firmware_version
abbrev pub combine_version : Context → ℕ → Context
combine_version ctx firmware_version = record ctx {
  sd = record ctx.sd { fw_version = bit_or ctx.sd.fw_version firmware_version };
}

-- Lines 256-265: the code for the firmware's version, with the combined version in the context.
unfoldable pub version_code : Context → ℕ → ℕ
version_code ctx firmware_version =
    if ltb 0xffff firmware_version
    then error_fw_preamble_version_range
    else if ltb ctx.sd.fw_version ctx.sd.fw_version_secdata
        && not (has_flag ctx.sd.gbb_flags gbb_flag_disable_fw_rollback_check)
    then error_fw_preamble_version_rollback
    else vb2_success

-- Lines 282-284.
abbrev pub may_roll_forward : Context → Bool
may_roll_forward ctx =
    ltb ctx.sd.fw_version_secdata ctx.sd.fw_version
    && (ctx.sd.last_fw_slot == ctx.sd.fw_slot)
    && (ctx.sd.last_fw_result == result_success)

-- Lines 282-290: the version in secure storage.
unfoldable pub roll_forward : Context → Context × ℕ
roll_forward ctx =
    let noted = record ctx { sd = record ctx.sd { fw_version_secdata = ctx.sd.fw_version } } in
    if may_roll_forward ctx
    then vb2_secdata_set noted versions ctx.sd.fw_version
    else (ctx, vb2_success)

-- Lines 292-309.
unfoldable pub keep_preamble : Context → (pre pre_size : ℕ) → Context
keep_preamble ctx pre pre_size =
    let offset = vb2_offset_of ctx.workbuf pre % 2 ^ 32 in
    record ctx {
      sd = record ctx.sd { workbuf_preamble_offset = offset; workbuf_preamble_size = pre_size };
      workbuf_used = add32 offset pre_size;
    }

-- Lines 282-309, with the result of rolling forward.
abbrev pub after_roll : Machine → (pre pre_size : ℕ) → Context × ℕ → Machine × ℕ
after_roll s pre pre_size rolled =
    if truthy rolled.1
    then (record s { ctx = rolled.0 }, rolled.1)
    else (record s { ctx = keep_preamble rolled.0 pre pre_size }, vb2_success)

-- Lines 252-309: the preamble is verified.
unfoldable pub accept_preamble : Machine → (pre pre_size : ℕ) → Machine × ℕ
unfolding version_code roll_forward
accept_preamble s pre pre_size =
    let firmware_version = (fw_preamble_at s.memory pre).firmware_version in
    let ctx = combine_version s.ctx firmware_version in
    let rv = version_code ctx firmware_version in
    if truthy rv
    then fail (record s { ctx = ctx }) recovery_fw_rollback rv
    else after_roll s pre pre_size (roll_forward ctx)

module _ {Digest : Type 0} (crypto : Crypto Digest) (read : ReadResource) where
  -- Lines 245-309.
  unfoldable pub verify_preamble : Machine → PublicKey → (pre_size pre : ℕ) → Workbuf → Machine × ℕ
  unfolding accept_preamble
  verify_preamble s data_key pre_size pre wb =
      let (m, rv) = vb2_verify_fw_preamble crypto s.memory pre pre_size data_key wb in
      let s' = record s { memory = m } in
      if truthy rv then fail s' recovery_fw_preamble rv else accept_preamble s' pre pre_size

  -- Lines 234-309, with the place of the whole preamble.
  unfoldable pub read_preamble :
      Machine → PublicKey → (pre_size : ℕ) → Workbuf × Option ℕ → Machine × ℕ
  unfolding verify_preamble
  read_preamble s data_key pre_size (wb, none) = (s, error_fw_preamble2_workbuf)
  read_preamble s data_key pre_size (wb, some pre) =
      and_then (read_to read s fw_vblock s.ctx.sd.vblock_preamble_offset pre pre_size)
        (λ s'. verify_preamble s' data_key pre_size pre wb)

  -- Lines 221-309, with the place of the header.
  unfoldable pub read_preamble_header : Machine → PublicKey → Workbuf × Option ℕ → Machine × ℕ
  unfolding read_preamble
  read_preamble_header s data_key (wb, none) = (s, error_fw_preamble2_workbuf_header)
  read_preamble_header s data_key (wb, some pre) =
      and_then (read_to read s fw_vblock s.ctx.sd.vblock_preamble_offset pre sizeof_fw_preamble)
        (λ s'.
          let pre_size = (fw_preamble_at s'.memory pre).preamble_size in
          read_preamble s' data_key pre_size (vb2_workbuf_realloc wb sizeof_fw_preamble pre_size))

  -- Lines 216-309, with the data key.
  unfoldable pub with_data_key : Machine → Result PublicKey → Machine × ℕ
  unfolding read_preamble_header
  with_data_key s (err rv) = (s, rv)
  with_data_key s (ok data_key) =
      read_preamble_header s data_key
        (vb2_workbuf_alloc (vb2_workbuf_from_ctx s.ctx) sizeof_fw_preamble)

  unfoldable pub vb2_load_fw_preamble : Machine → Machine × ℕ
  unfolding with_data_key
  vb2_load_fw_preamble s =
      let key_data = add64 s.ctx.workbuf s.ctx.sd.workbuf_data_key_offset in
      let key_size = s.ctx.sd.workbuf_data_key_size in
      if not (truthy key_size)
      then (s, error_fw_preamble2_data_key)
      else with_data_key s (vb2_unpack_key s.memory key_data key_size)
