-- ===== src/VbootNvstorage/Backup.antt =====
-- firmware/lib/vboot_nvstorage_rollback.c: the settings that are kept in a space of the TPM.
use cbmc_vboot.Prelude.{ℕ, List, [], ◌∷◌, Option, none, some, truthy, if◌then◌else◌}
pub mod Copied
pub mod Restored
use cbmc_vboot.VbootNvstorage.{
  VbNvContext, VbNvParam, kernel_field, localization_index, dev_boot_usb, dev_boot_legacy,
  dev_boot_signed_only, dev_boot_fastboot_full_cap, dev_default_boot, fastboot_unlock_in_fw,
  backup_nvram_request, vb_nv_get, vb_nv_set, vb_nv_setup, vb_nv_teardown,
}
use cbmc_vboot.RollbackIndex.{Tlcl}
use cbmc_vboot.RollbackIndex.Setup.{rollback_backup_read, rollback_backup_write}

abbrev pub backup_params : List VbNvParam
backup_params =
    kernel_field ∷ localization_index ∷ dev_boot_usb ∷ dev_boot_legacy ∷ dev_boot_signed_only
    ∷ dev_boot_fastboot_full_cap ∷ dev_default_boot ∷ fastboot_unlock_in_fw ∷ []

-- VbNvGet through a pointer: a parameter that it does not know leaves the variable.
abbrev pub found_value : Option ℕ → (value : ℕ) → ℕ
found_value none value = value
found_value (some found) value = found

-- The loop of both functions; `value` is the variable.
unfoldable pub copy_params :
    List VbNvParam → (value : ℕ) → (source target : VbNvContext) → VbNvContext
copy_params [] value source target = target
copy_params (p ∷ params) value source target =
    let value' = found_value (vb_nv_get source p) value in
    copy_params params value' source (vb_nv_set target p value').0

-- A local VbNvContext whose bytes were read; VbNvSetup sets the rest.
abbrev pub local_context : List ℕ → VbNvContext
local_context raw = vb_nv_setup (record { raw = raw; raw_changed = 0; regenerate_crc = 0 })

module _ {T : Type 0} (tlcl : Tlcl T) where
  unfoldable pub restore_nv_from_backup : T → VbNvContext → (value : ℕ) → T × VbNvContext × ℕ
  unfolding copy_params
  restore_nv_from_backup t vnc value =
      let (t1, raw, result) = rollback_backup_read tlcl t in
      let bvnc = local_context raw in
      if truthy result
      then (t1, vnc, 1)
      else if truthy bvnc.regenerate_crc
      then (t1, vnc, 1)
      else (t1, copy_params backup_params value bvnc vnc, 0)

  -- Lines 80-94, with the new backup.
  abbrev pub write_backup : T → (vnc bvnc : VbNvContext) → T × VbNvContext × ℕ
  write_backup t vnc bvnc =
      let (t1, result) = rollback_backup_write tlcl t bvnc.raw in
      let done = (vb_nv_set vnc backup_nvram_request 0).0 in
      if truthy bvnc.raw_changed
      then if truthy result then (t1, vnc, 1) else (t1, done, 0)
      else (t, done, 0)

  unfoldable pub save_nv_to_backup : T → VbNvContext → (value : ℕ) → T × VbNvContext × ℕ
  unfolding copy_params
  save_nv_to_backup t vnc value =
      let (t1, raw, result) = rollback_backup_read tlcl t in
      let bvnc = vb_nv_teardown (copy_params backup_params value vnc (local_context raw)) in
      if truthy result then (t1, vnc, 1) else write_backup t1 vnc bvnc
