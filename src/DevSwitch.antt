-- ===== src/DevSwitch.antt =====
-- firmware/2lib/2misc.c: the developer switch and the request to clear the TPM owner. The TPM is
-- not part of this code: `Tpm` is its state, and `clear_owner` is vb2ex_tpm_clear_owner, which
-- returns a code that is zero exactly if the owner was cleared.
pub mod Laws
use cbmc_vboot.Prelude.{
  ℕ, ◌-◌, ◌%◌, ◌^◌, bit_and, bit_or, Bool, true, false, not, ◌&&◌, ◌||◌, ◌==◌, truthy,
  if◌then◌else◌, has_flag, Result, ok, err,
}
use cbmc_vboot.Context.{
  Context, vb2_success, context_recovery_mode, context_developer_mode, context_force_developer_mode,
  context_force_wipeout_mode, disable_developer_mode, or_flags,
}
use cbmc_vboot.Secdata.{vb2_secdata_get, vb2_secdata_set}
use cbmc_vboot.Secdata
use cbmc_vboot.Nvstorage.{
  disable_dev_request, dev_boot_usb, dev_boot_legacy, dev_boot_signed_only,
  dev_boot_fastboot_full_cap, dev_default_boot, fastboot_unlock_in_fw, req_wipeout,
  clear_tpm_owner_request, clear_tpm_owner_done, vb2_nv_get, vb2_nv_set,
}
use cbmc_vboot.Boot.{vb2_fail}

abbrev pub last_boot_developer : ℕ
last_boot_developer = 0x1

abbrev pub dev_mode : ℕ
dev_mode = 0x2

abbrev pub dev_mode_enabled : ℕ
dev_mode_enabled = 0x2

abbrev pub gbb_force_dev_switch_on : ℕ
gbb_force_dev_switch_on = 0x8

abbrev pub recovery_tpm_clear_owner : ℕ
recovery_tpm_clear_owner = 0x2d

-- ~mask, in a uint32_t.
abbrev pub not32 : ℕ → ℕ
not32 mask = 0xffff_ffff - mask

-- "Handle dev disable request": does it apply?
abbrev pub asked_to_disable : Context → Bool → Bool
asked_to_disable ctx use_secdata = use_secdata && truthy (vb2_nv_get ctx disable_dev_request)

-- Lines 237-243: the flags, and the request.
unfoldable pub drop_requested : Context → Bool → ℕ → ℕ
drop_requested ctx use_secdata flags =
    if asked_to_disable ctx use_secdata then bit_and flags (not32 dev_mode) else flags

unfoldable pub clear_disable_request : Context → Bool → Context
clear_disable_request ctx use_secdata =
    if asked_to_disable ctx use_secdata then vb2_nv_set ctx disable_dev_request 0 else ctx

-- Lines 249 and 250.
unfoldable pub drop_by_caller : Context → ℕ → ℕ
drop_by_caller ctx flags =
    if has_flag ctx.flags disable_developer_mode then bit_and flags (not32 dev_mode) else flags

-- Lines 252-262.
unfoldable pub is_dev : Context → ℕ → Bool
is_dev ctx flags =
    has_flag flags dev_mode
    || has_flag ctx.flags context_force_developer_mode
    || has_flag ctx.sd.gbb_flags gbb_force_dev_switch_on

-- Line 267 and 268.
unfoldable pub enter_dev_mode : Context → Context
enter_dev_mode ctx =
    or_flags (record ctx { sd = record ctx.sd { flags = bit_or ctx.sd.flags dev_mode_enabled } })
      context_developer_mode

-- Lines 280-285.
unfoldable pub reset_dev_boot : Context → Context
reset_dev_boot ctx =
    vb2_nv_set
      (vb2_nv_set
        (vb2_nv_set
          (vb2_nv_set (vb2_nv_set (vb2_nv_set ctx dev_boot_usb 0) dev_boot_legacy 0)
            dev_boot_signed_only 0)
          dev_boot_fastboot_full_cap 0)
        dev_default_boot 0)
      fastboot_unlock_in_fw 0

-- Lines 288 and 289.
unfoldable pub ask_wipeout : Context → Context
ask_wipeout ctx =
    if has_flag ctx.flags context_force_wipeout_mode then vb2_nv_set ctx req_wipeout 1 else ctx

-- Lines 264-289: the context and the flags in the mode that was found.
unfoldable pub settle_mode : Context → ℕ → Context × ℕ
settle_mode ctx flags =
    if is_dev ctx flags
    then (ask_wipeout (enter_dev_mode ctx), bit_or flags last_boot_developer)
    else (ask_wipeout (reset_dev_boot ctx), bit_and flags (not32 last_boot_developer))

module _ {Tpm : Type 0} (clear_owner : Context → Tpm → Tpm × ℕ) where
  -- Lines 303-321: the mode changed.
  unfoldable pub change_mode : Context → Tpm → Bool → ℕ → Context × Tpm × ℕ
  change_mode ctx tpm use_secdata flags =
      let (tpm', rv) = clear_owner ctx tpm in
      let (saved, code) = vb2_secdata_set ctx Secdata.flags flags in
      if not use_secdata
      then (ctx, tpm', vb2_success)
      else if truthy rv
      then (vb2_fail ctx recovery_tpm_clear_owner (rv % 2 ^ 8), tpm', rv)
      else (saved, tpm', code)

  -- Lines 235-324, with the flags that were read.
  unfoldable pub switch_mode : Context → Tpm → Bool → ℕ → Context × Tpm × ℕ
  switch_mode ctx tpm use_secdata old_flags =
      let start = clear_disable_request ctx use_secdata in
      let allowed = drop_by_caller start (drop_requested ctx use_secdata old_flags) in
      let (settled, flags) = settle_mode start allowed in
      if not (flags == old_flags)
      then change_mode settled tpm use_secdata flags
      else (settled, tpm, vb2_success)

  -- Lines 218-234.
  on_read : Context → Tpm → Result ℕ → Context × Tpm × ℕ
  on_read ctx tpm (ok flags) = switch_mode ctx tpm true flags
  on_read ctx tpm (err rv) =
      if has_flag ctx.flags context_recovery_mode
      then switch_mode ctx tpm false 0
      else (ctx, tpm, rv)

  unfoldable pub vb2_check_dev_switch : Context → Tpm → Context × Tpm × ℕ
  unfolding on_read
  vb2_check_dev_switch ctx tpm = on_read ctx tpm (vb2_secdata_get ctx Secdata.flags)

  unfoldable pub vb2_check_tpm_clear : Context → Tpm → Context × Tpm × ℕ
  vb2_check_tpm_clear ctx tpm =
      let once = vb2_nv_set ctx clear_tpm_owner_request 0 in
      let (tpm', rv) = clear_owner once tpm in
      if not (truthy (vb2_nv_get ctx clear_tpm_owner_request))
      then (ctx, tpm, vb2_success)
      else if truthy rv
      then (vb2_fail once recovery_tpm_clear_owner (rv % 2 ^ 8), tpm', rv)
      else (vb2_nv_set once clear_tpm_owner_done 1, tpm', vb2_success)
