-- ===== src/Firmware/Phases.antt =====
-- firmware/2lib/2api.c: vb2api_fail and the first two phases; lib20/api.c: vb2api_fw_phase3. The
-- TPM is a parameter, as in DevSwitch.
pub mod Verified
pub mod Outcome
use cbmc_vboot.Prelude.{ℕ, ◌%◌, ◌^◌, Bool, not, ◌&&◌, truthy, has_flag, if◌then◌else◌}
use cbmc_vboot.Context.{
  Context, vb2_success, context_recovery_mode, context_developer_mode, context_clear_ram,
  context_fw_slot_b, context_secdata_wants_reboot, context_s3_resume, or_flags,
}
use cbmc_vboot.Codes.{error_api_phase1_secdata_reboot, error_api_phase1_recovery}
use cbmc_vboot.Nvstorage.{fw_tried, tpm_requested_reboot, vb2_nv_init, vb2_nv_get, vb2_nv_set}
use cbmc_vboot.Secdata.{vb2_secdata_check_crc, vb2_secdata_create, vb2_secdata_init}
use cbmc_vboot.Boot.{vb2_fail, vb2_check_recovery, vb2_select_fw_slot}
use cbmc_vboot.DevSwitch.{recovery_tpm_clear_owner, vb2_check_dev_switch, vb2_check_tpm_clear}
use cbmc_vboot.Keys.Verify.{Crypto}
use cbmc_vboot.Firmware.{Machine, ReadResource, fail, vb2_init_context}
use cbmc_vboot.Firmware.Gbb.{vb2_fw_parse_gbb}
use cbmc_vboot.Firmware.Keyblock.{vb2_load_fw_keyblock}
use cbmc_vboot.Firmware.Preamble.{vb2_load_fw_preamble}

abbrev pub recovery_ro_invalid_rw : ℕ
recovery_ro_invalid_rw = 0x03

abbrev pub recovery_ro_tpm_reboot : ℕ
recovery_ro_tpm_reboot = 0x21

abbrev pub recovery_secdata_init : ℕ
recovery_secdata_init = 0x2b

abbrev pub recovery_gbb_header : ℕ
recovery_gbb_header = 0x2c

abbrev pub recovery_dev_switch : ℕ
recovery_dev_switch = 0x2e

abbrev pub recovery_fw_slot : ℕ
recovery_fw_slot = 0x2f

unfoldable pub vb2api_secdata_check : Context → ℕ
vb2api_secdata_check ctx = vb2_secdata_check_crc ctx

unfoldable pub vb2api_secdata_create : Context → Context × ℕ
vb2api_secdata_create ctx = vb2_secdata_create ctx

unfoldable pub vb2api_fail : Context → ℕ → ℕ → Context
vb2api_fail ctx reason subcode = vb2_fail (vb2_init_context ctx).0 reason subcode

-- if (rv) vb2_fail(ctx, reason, rv);
abbrev pub note_failure : Context × ℕ → ℕ → Context
note_failure r reason = if truthy r.1 then vb2_fail r.0 reason (r.1 % 2 ^ 8) else r.0

-- Lines 44-66, if secdata wants no reboot or wants one again.
unfoldable pub reboot_request : Context → Context
reboot_request ctx =
    if not (has_flag ctx.flags context_secdata_wants_reboot)
    then vb2_nv_set ctx tpm_requested_reboot 0
    else vb2_fail ctx recovery_ro_tpm_reboot 0

-- Lines 69-76: secure data and GBB.
unfoldable pub load_data : ReadResource → Machine → Machine
load_data read s =
    let init = note_failure (vb2_secdata_init s.ctx) recovery_secdata_init in
    let (s', rv) = vb2_fw_parse_gbb read (record s { ctx = init }) in
    record s' { ctx = note_failure (s'.ctx, rv) recovery_gbb_header }

-- Lines 88-107, with the result of vb2_check_dev_switch.
unfoldable pub finish_phase1 : Machine → ℕ → Machine × ℕ
finish_phase1 s rv =
    let recovery = has_flag s.ctx.flags context_recovery_mode in
    if truthy rv && not recovery
    then fail s recovery_dev_switch rv
    else if recovery
    then (record s { ctx = or_flags s.ctx context_clear_ram }, error_api_phase1_recovery)
    else (s, vb2_success)

-- Lines 119-130: a resume.
unfoldable pub resume : Context → Context
resume ctx =
    let slot = vb2_nv_get ctx fw_tried in
    let chosen = record ctx { sd = record ctx.sd { fw_slot = slot } } in
    if truthy slot then or_flags chosen context_fw_slot_b else chosen

-- Lines 143-150.
unfoldable pub choose_slot : Context → Context × ℕ
choose_slot ctx =
    let (chosen, rv) = vb2_select_fw_slot ctx in
    if truthy rv then (vb2_fail chosen recovery_fw_slot (rv % 2 ^ 8), rv) else (chosen, vb2_success)

module _ {Tpm : Type 0} (clear_owner : Context → Tpm → Tpm × ℕ) where
  -- Lines 68-107.
  unfoldable pub check_modes : ReadResource → Machine → Tpm → (Machine × Tpm) × ℕ
  unfolding load_data finish_phase1
  check_modes read s tpm =
      let loaded = load_data read s in
      let (ctx, tpm', rv) = vb2_check_dev_switch clear_owner (vb2_check_recovery loaded.ctx) tpm in
      let (done, code) = finish_phase1 (record loaded { ctx = ctx }) rv in ((done, tpm'), code)

  unfoldable pub vb2api_fw_phase1 : ReadResource → Machine → Tpm → (Machine × Tpm) × ℕ
  unfolding reboot_request check_modes
  vb2api_fw_phase1 read s tpm =
      let ctx = vb2_nv_init (vb2_init_context s.ctx).0 in
      if has_flag ctx.flags context_secdata_wants_reboot
        && not (truthy (vb2_nv_get ctx tpm_requested_reboot))
      then (
        (record s { ctx = vb2_nv_set ctx tpm_requested_reboot 1 }, tpm),
        error_api_phase1_secdata_reboot,
      )
      else check_modes read (record s { ctx = reboot_request ctx }) tpm

  unfoldable pub vb2api_fw_phase2 : Context → Tpm → Context × Tpm × ℕ
  unfolding resume choose_slot
  vb2api_fw_phase2 ctx tpm =
      let clearing =
        if has_flag ctx.flags context_developer_mode then or_flags ctx context_clear_ram else ctx in
      let (cleared, tpm', rv) = vb2_check_tpm_clear clear_owner clearing tpm in
      let (chosen, code) = choose_slot cleared in
      if has_flag ctx.flags context_s3_resume
      then (resume ctx, tpm, vb2_success)
      else if truthy rv
      then (vb2_fail cleared recovery_tpm_clear_owner (rv % 2 ^ 8), tpm', rv)
      else (chosen, tpm', code)

module _ {Digest : Type 0} (crypto : Crypto Digest) (read : ReadResource) where
  -- if (rv) { vb2_fail(ctx, VB2_RECOVERY_RO_INVALID_RW, rv); return rv; }
  abbrev pub or_invalid : Machine × ℕ → Machine × ℕ
  or_invalid r = if truthy r.1 then fail r.0 recovery_ro_invalid_rw r.1 else (r.0, vb2_success)

  unfoldable pub vb2api_fw_phase3 : Machine → Machine × ℕ
  vb2api_fw_phase3 s =
      let keyblock = vb2_load_fw_keyblock crypto read s in
      if truthy keyblock.1
      then fail keyblock.0 recovery_ro_invalid_rw keyblock.1
      else or_invalid (vb2_load_fw_preamble crypto read keyblock.0)
