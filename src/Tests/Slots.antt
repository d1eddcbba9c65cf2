-- ===== src/Tests/Slots.antt =====
-- The laws of the slot choice, of failures, recovery and the switches at concrete inputs.
use cbmc_vboot.Prelude.{
  ℕ, zero, suc, ◌-◌, ◌≡◌, ◌≢◌, ◌⊎◌, refl, arith, false, not, ◌&&◌, ◌||◌, if◌then◌else◌, ltb, truthy,
  has_flag,
}
use cbmc_vboot.Context.{
  Context, vb2_success, context_nofail_boot, context_recovery_mode, context_force_developer_mode,
}
use cbmc_vboot.Nvstorage.{
  try_count, try_next, fw_result, recovery_request, recovery_subcode, vb2_nv_get, read_param,
}
use cbmc_vboot.Nvstorage.Layout.{same}
use cbmc_vboot.Nvstorage.Fields.Ranges.{IsNv}
use cbmc_vboot.Boot.{result_failure, vb2_fail, vb2_select_fw_slot, vb2_check_recovery}
use cbmc_vboot.Boot.Slot.{view, slot_of, select, vb2_select_fw_slot-refines}
use cbmc_vboot.Boot.Trial.{Unattended, vb2_select_fw_slot-trial}
use cbmc_vboot.Boot.Failure.{Chosen, both_failed, vb2_fail_lem}
use cbmc_vboot.Boot.Twice.{vb2_fail_twice}
use cbmc_vboot.Boot.Recovery.{reason_of, vb2_check_recovery_lem}
use cbmc_vboot.DevSwitch.{vb2_check_dev_switch}
use cbmc_vboot.DevSwitch.Laws.{vb2_check_dev_switch-secdata}
use cbmc_vboot.Tests.{sample}
use cbmc_vboot.Tests.Storage.{sample-IsNv}

vb2_select_fw_slot-refines_example :
    let (ctx', code) = vb2_select_fw_slot sample in
    (view ctx' ≡ select (has_flag sample.flags context_nofail_boot) (view sample))
    × (ctx'.sd.fw_slot ≡ slot_of (view sample))
    × (ctx'.sd.last_fw_slot ≡ (view sample).tried)
    × (ctx'.sd.last_fw_result ≡ (view sample).result)
    × IsNv ctx'.nvdata
    × (code ≡ vb2_success)
vb2_select_fw_slot-refines_example = vb2_select_fw_slot-refines sample sample-IsNv

-- The machine is switched on again and again, with the storage that the last boot left.
abbrev boots : ℕ → Context
boots zero = sample
boots (suc k) = record sample { nvdata = (vb2_select_fw_slot (boots k)).0.nvdata }

boots-counted : (k : ℕ) → has_flag (boots k).flags context_nofail_boot ≡ false
boots-counted zero = refl
boots-counted (suc k) = refl

boots-Unattended : Unattended boots
boots-Unattended = record { bytes = sample-IsNv; kept = λ k. refl; counted = boots-counted }

sample_tries : (view (boots 0)).count ≡ 2
unfolding vb2_nv_get read_param
sample_tries = refl

-- Two tries of slot A, and then slot B.
vb2_select_fw_slot-trial_example :
    (vb2_select_fw_slot (boots 2)).0.sd.fw_slot
    ≡ (if ltb 2 2 then (view (boots 0)).next else 1 - (view (boots 0)).next)
vb2_select_fw_slot-trial_example =
    vb2_select_fw_slot-trial boots 1 2 boots-Unattended sample_tries (omega arith)

sample-Chosen : Chosen sample
sample-Chosen = record {
  bytes = sample-IsNv;
  nv_ready = refl;
  slot_ready = refl;
  slot_small = omega arith;
}

vb2_fail_lem_example :
    let ctx' = vb2_fail sample 5 7 in
    let asks = both_failed sample && not (truthy (vb2_nv_get sample recovery_request)) in
    (vb2_nv_get ctx' fw_result ≡ result_failure)
    × (vb2_nv_get ctx' try_count ≡ 0)
    × (vb2_nv_get ctx' try_next ≡ 1 - sample.sd.fw_slot)
    × (vb2_nv_get ctx' recovery_request ≡ (if asks then 5 else vb2_nv_get sample recovery_request))
    × (vb2_nv_get ctx' recovery_subcode ≡ (if asks then 7 else vb2_nv_get sample recovery_subcode))
    × IsNv ctx'.nvdata
vb2_fail_lem_example = vb2_fail_lem sample 5 7 sample-Chosen (omega arith) (omega arith)

-- The boot after a failure.
abbrev second : Context
second = record sample { nvdata = (vb2_fail (vb2_select_fw_slot sample).0 5 7).nvdata }

vb2_fail_twice_example :
    vb2_nv_get (vb2_fail (vb2_select_fw_slot second).0 6 0) recovery_request ≢ 0
vb2_fail_twice_example =
    vb2_fail_twice sample second 5 7 6 0 sample-IsNv refl refl refl (omega arith) (omega arith)
      (omega arith)

vb2_check_recovery_lem_example :
    let ctx' = vb2_check_recovery sample in
    (ctx'.sd.recovery_reason ≡ reason_of sample)
    × (vb2_nv_get ctx' try_count ≡ (
        if same recovery_request try_count || same recovery_subcode try_count
        then 0
        else vb2_nv_get sample try_count))
    × (has_flag ctx'.flags context_recovery_mode ≡ truthy (reason_of sample))
vb2_check_recovery_lem_example = vb2_check_recovery_lem sample try_count sample-IsNv refl

-- A TPM that counts how often its owner was cleared, and refuses the third time.
abbrev clear_owner : Context → ℕ → ℕ × ℕ
clear_owner ctx times = if ltb times 2 then (suc times, 0) else (times, 1)

-- The board forces developer mode.
abbrev forced : Context
forced = record sample { flags = context_force_developer_mode }

vb2_check_dev_switch-secdata_example :
    let r = vb2_check_dev_switch clear_owner forced 0 in
    (r.0.secdata ≡ forced.secdata) ⊎ ((c : Context) × (clear_owner c 0 ≡ (r.1, vb2_success)))
vb2_check_dev_switch-secdata_example = vb2_check_dev_switch-secdata clear_owner forced 0
