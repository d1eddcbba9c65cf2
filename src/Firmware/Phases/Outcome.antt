-- ===== src/Firmware/Phases/Outcome.antt =====
-- The ways in which 2lib/2api.c: vb2api_fw_phase1 ends.
use cbmc_vboot.Prelude.{ℕ, ◌%◌, ◌^◌, ◌<◌, ◌≡◌, true, false, has_flag}
use cbmc_vboot.Context.{
  Context, vb2_success, context_recovery_mode, context_clear_ram, context_secdata_wants_reboot,
}
use cbmc_vboot.Codes.{error_api_phase1_secdata_reboot, error_api_phase1_recovery}
use cbmc_vboot.Nvstorage.{tpm_requested_reboot, vb2_nv_get}
use cbmc_vboot.Boot.{vb2_fail}
use cbmc_vboot.Firmware.{Machine}
use cbmc_vboot.Firmware.Phases.{recovery_dev_switch}

-- Success is outside of recovery mode. In recovery mode, RAM is to be cleared. An error of the
-- developer switch is a failed boot. A reboot is asked for only if none was before, which is noted.
pub data Outcome {Tpm : Type 0} (start : Context) (r : (Machine × Tpm) × ℕ) : Type 0 where
  continues :
      r.1 ≡ vb2_success → has_flag r.0.0.ctx.flags context_recovery_mode ≡ false → Outcome start r
  recovers :
      r.1 ≡ error_api_phase1_recovery
      → has_flag r.0.0.ctx.flags context_recovery_mode ≡ true
      → has_flag r.0.0.ctx.flags context_clear_ram ≡ true
      → Outcome start r
  refuses :
      0 < r.1
      → ((ctx : Context) × (r.0.0.ctx ≡ vb2_fail ctx recovery_dev_switch (r.1 % 2 ^ 8)))
      → Outcome start r
  reboots :
      r.1 ≡ error_api_phase1_secdata_reboot
      → has_flag start.flags context_secdata_wants_reboot ≡ true
      → vb2_nv_get start tpm_requested_reboot ≡ 0
      → vb2_nv_get r.0.0.ctx tpm_requested_reboot ≡ 1
      → Outcome start r
