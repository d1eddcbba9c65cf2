-- ===== src/Boot.antt =====
-- firmware/2lib/2misc.c: the choice of the firmware slot, what a failed boot leaves behind, and the
-- recovery request.
pub mod Slot
pub mod Trial
pub mod Failure
pub mod Recovery
pub mod Twice
use cbmc_vboot.Prelude.{
  ℕ, ◌+◌, ◌-◌, ◌%◌, ◌^◌, bit_or, Bool, true, false, not, ◌&&◌, ◌||◌, ltb, ◌==◌, truthy,
  if◌then◌else◌, has_flag,
}
use cbmc_vboot.Context.{
  Context, vb2_success, status_nv_init, status_chose_slot, context_nofail_boot, context_fw_slot_b,
  context_force_recovery_mode, context_recovery_mode, or_flags, or_status,
}
use cbmc_vboot.Nvstorage.{
  try_next, try_count, fw_tried, fw_result, fw_prev_tried, fw_prev_result, recovery_request,
  recovery_subcode, vb2_nv_init, vb2_nv_get, vb2_nv_set,
}

-- enum vb2_fw_result
abbrev pub result_unknown : ℕ
result_unknown = 0

abbrev pub result_trying : ℕ
result_trying = 1

abbrev pub result_failure : ℕ
result_failure = 3

abbrev pub recovery_ro_manual : ℕ
recovery_ro_manual = 0x02

abbrev pub sd_flag_manual_recovery : ℕ
sd_flag_manual_recovery = 0x1

-- 1 - slot, in a uint32_t.
abbrev pub other_slot : ℕ → ℕ
other_slot slot = (1 + 2 ^ 32 - slot) % 2 ^ 32

-- The end of vb2_fail: a reason and a subcode, unless recovery is already requested.
unfoldable pub request_recovery : Context → ℕ → ℕ → Context
request_recovery ctx reason subcode =
    if not (truthy (vb2_nv_get ctx recovery_request))
    then vb2_nv_set (vb2_nv_set ctx recovery_request reason) recovery_subcode subcode
    else ctx

-- vb2_fail once a slot was chosen: the three settings for the next boot.
unfoldable pub give_up_slot : Context → Context
give_up_slot ctx =
    vb2_nv_set (vb2_nv_set (vb2_nv_set ctx fw_result result_failure) try_count 0) try_next
      (other_slot ctx.sd.fw_slot)

unfoldable pub vb2_fail : Context → ℕ → ℕ → Context
vb2_fail ctx reason subcode =
    let start = if not (has_flag ctx.sd.status status_nv_init) then vb2_nv_init ctx else ctx in
    let gave_up = give_up_slot start in
    if has_flag start.sd.status status_chose_slot
    then (if not (gave_up.sd.last_fw_slot == other_slot gave_up.sd.fw_slot)
          || not (gave_up.sd.last_fw_result == result_failure)
        then gave_up
        else request_recovery gave_up reason subcode)
    else request_recovery start reason subcode

set_fw_slot : Context → ℕ → Context
set_fw_slot ctx slot = record ctx { sd = record ctx.sd { fw_slot = slot } }

-- vb2_select_fw_slot, lines 360-369: the last boot's result is saved and cleared.
unfoldable pub save_result : Context → Context
save_result ctx =
    let slot = vb2_nv_get ctx fw_tried in
    let result = vb2_nv_get ctx fw_result in
    let noted = record ctx {
      sd = record ctx.sd { last_fw_slot = slot; last_fw_result = result };
    } in
    vb2_nv_set (vb2_nv_set (vb2_nv_set noted fw_prev_tried slot) fw_prev_result result) fw_result
      result_unknown

-- Lines 377-386: the last try of this slot was used up, so fall back.
unfoldable pub fall_back : Context → ℕ → Context
unfolding set_fw_slot
fall_back ctx tries =
    if (ctx.sd.last_fw_result == result_trying)
      && (ctx.sd.last_fw_slot == ctx.sd.fw_slot)
      && (tries == 0)
    then vb2_nv_set (set_fw_slot ctx (other_slot ctx.sd.fw_slot)) try_next
        (other_slot ctx.sd.fw_slot)
    else ctx

-- Lines 388-395.
unfoldable pub use_try : Context → ℕ → Context
use_try ctx tries =
    let trying = vb2_nv_set ctx fw_result result_trying in
    if ltb 0 tries
    then (if not (has_flag trying.flags context_nofail_boot)
        then vb2_nv_set trying try_count (tries - 1)
        else trying)
    else ctx

-- Lines 397-407.
unfoldable pub store_slot : Context → Context × ℕ
store_slot ctx =
    let stored = vb2_nv_set ctx fw_tried ctx.sd.fw_slot in
    (
      or_status (if truthy stored.sd.fw_slot then or_flags stored context_fw_slot_b else stored)
          status_chose_slot,
      vb2_success,
    )

unfoldable pub vb2_select_fw_slot : Context → Context × ℕ
unfolding set_fw_slot
vb2_select_fw_slot ctx =
    let saved = save_result ctx in
    let chosen = set_fw_slot saved (vb2_nv_get saved try_next) in
    let tries = vb2_nv_get chosen try_count in store_slot (use_try (fall_back chosen tries) tries)

set_reason : Context → ℕ → Context
set_reason ctx reason = record ctx { sd = record ctx.sd { recovery_reason = reason } }

-- Recovery was requested at the 'broken' screen, or forced (lines 161-170).
unfoldable pub manual_recovery : Context → ℕ → Context
unfolding set_reason
manual_recovery ctx subcode =
    let promoted = set_reason ctx (
      if truthy subcode && not (truthy ctx.sd.recovery_reason)
      then subcode
      else recovery_ro_manual) in
    record promoted {
      sd = record promoted.sd { flags = bit_or promoted.sd.flags sd_flag_manual_recovery };
    }

unfoldable pub vb2_check_recovery : Context → Context
unfolding set_reason
vb2_check_recovery ctx =
    let reason = vb2_nv_get ctx recovery_request in
    let subcode = vb2_nv_get ctx recovery_subcode in
    let current = if not (truthy ctx.sd.recovery_reason) then set_reason ctx reason else ctx in
    let cleared = vb2_nv_set (vb2_nv_set current recovery_request 0) recovery_subcode 0 in
    let decided =
      if has_flag cleared.flags context_force_recovery_mode
      then manual_recovery cleared subcode
      else cleared in
    if truthy decided.sd.recovery_reason then or_flags decided context_recovery_mode else decided
