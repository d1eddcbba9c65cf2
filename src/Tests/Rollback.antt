-- ===== src/Tests/Rollback.antt =====
-- A TPM whose spaces are a function, and what the rollback index does with it.
use cbmc_vboot.Prelude.{
  ℕ, ◌≡◌, inl, inr, refl, arith, Bool, true, false, List, [], ◌∷◌, length, replicate, ◌==◌,
  if◌then◌else◌, Bool-cases, set, ok,
}
use cbmc_vboot.Crc8.Vboot.{crc8}
use cbmc_vboot.RollbackIndex.{
  Tlcl, firmware_nv_index, kernel_nv_index, backup_nv_index, backup_nv_size, sizeof_firmware,
  sizeof_kernel, sealed_space, tpm_e_badindex, read_space_firmware, read_attempts, write_attempts,
  tpm_clear_and_reenable,
}
use cbmc_vboot.RollbackIndex.Setup.{
  flags, fw_versions, setup_tpm, rollback_firmware_write, rollback_kernel_read,
  rollback_kernel_write,
}
use cbmc_vboot.RollbackIndex.Spaces.{IsTpm}
use cbmc_vboot.VbootNvstorage.{
  VbNvContext, localization_index, get_param, set_param, vb_nv_get, vb_nv_set, vb_nv_setup,
  vb_nv_teardown,
}
use cbmc_vboot.VbootNvstorage.Backup.{save_nv_to_backup, restore_nv_from_backup}
use cbmc_vboot.VbootNvstorage.Backup.Copied.{backed_up}
use cbmc_vboot.VbootNvstorage.Backup.Restored.{save_nv_to_backup-restore}
use cbmc_vboot.Tests.{sample_nvdata}
use cbmc_vboot.RollbackIndex.Settled.{Settled, setup_tpm-Settled}
use cbmc_vboot.RollbackIndex.Versions.{rollback_firmware_write-read, rollback_kernel_write-read}

-- The spaces, and whether the owner was cleared.
abbrev SimpleTpm : Type 0
SimpleTpm = (ℕ → List ℕ) × Bool

abbrev stored : (ℕ → List ℕ) → (index : ℕ) → List ℕ → ℕ → List ℕ
stored spaces index bytes i = if i == index then bytes else spaces i

abbrev simple_tlcl : Tlcl SimpleTpm
simple_tlcl = record {
  tlcl_lib_init = λ t. (t, 0);
  tlcl_startup = λ t. (t, 0);
  tlcl_resume = λ t. (t, 0);
  tlcl_self_test_full = λ t. (t, 0);
  tlcl_assert_physical_presence = λ t. (t, 0);
  tlcl_physical_presence_cmd_enable = λ t. (t, 0);
  tlcl_finalize_physical_presence = λ t. (t, 0);
  tlcl_lock_physical_presence = λ t. (t, 0);
  tlcl_set_nv_locked = λ t. (t, 0);
  tlcl_set_global_lock = λ t. (t, 0);
  tlcl_force_clear = λ t. ((t.0, true), 0);
  tlcl_set_enable = λ t. (t, 0);
  tlcl_set_deactivated = λ t flag. (t, 0);
  tlcl_get_flags = λ t. (t, (0, 0), 0);
  tlcl_get_permanent_flags = λ t. (t, (0, 0), 0);
  tlcl_get_permissions = λ t index. (t, 1, 0);
  tlcl_define_space = λ t index perm size. ((stored t.0 index (replicate size 0), t.1), 0);
  tlcl_read =
      λ t index size. (t, t.0 index, if length (t.0 index) == size then 0 else tpm_e_badindex);
  tlcl_write = λ t index bytes. ((stored t.0 index bytes, t.1), 0);
}

read_sized : (l size : ℕ) → (if l == size then 0 else tpm_e_badindex) ≡ 0 → l ≡ size
read_sized l size h = elim (Bool-cases (l == size)) [
  | inl same ↦ ground (arith, same)
  | inr other ↦ absurd (ground (arith, h, other))
]

stored_same :
    (spaces : ℕ → List ℕ) (index : ℕ) (bytes : List ℕ) → stored spaces index bytes index ≡ bytes
stored_same spaces index bytes = elim (Bool-cases (index == index)) [
  | inl same ↦ rw same refl
  | inr other ↦ absurd (ground (arith, other))
]

abbrev simple_tlcl-IsTpm : IsTpm simple_tlcl
simple_tlcl-IsTpm = record {
  contents = λ t. t.0;
  Cleared = λ t. t.1 ≡ true;
  read_gives = λ t index size h. (refl, read_sized (length (t.0 index)) size h);
  read_keeps = λ t index size. refl;
  write_gives = λ t index bytes h. stored_same t.0 index bytes;
  clear_keeps = λ t. refl;
  enable_keeps = λ t. refl;
  activate_keeps = λ t flag. refl;
  init_keeps = λ t. refl;
  startup_keeps = λ t. refl;
  presence_keeps = λ t. refl;
  presence_enable_keeps = λ t. refl;
  flags_keeps = λ t. refl;
  clear_gives = λ t h. refl;
  clear_clear = λ t h. refl;
  enable_clear = λ t h. h;
  activate_clear = λ t flag h. h;
  read_clear = λ t index size h. h;
  write_clear = λ t index bytes h. h;
}

-- The firmware version 1.1 with no flags, and the kernel version 0.
abbrev firmware_bytes : List ℕ
firmware_bytes = 2 ∷ 0 ∷ 1 ∷ 0 ∷ 1 ∷ 0 ∷ 0 ∷ 0 ∷ 0 ∷ 0x4f ∷ []

abbrev kernel_bytes : List ℕ
kernel_bytes = 2 ∷ 0x4c ∷ 0x57 ∷ 0x52 ∷ 0x47 ∷ 0 ∷ 0 ∷ 0 ∷ 0 ∷ 0 ∷ 0 ∷ 0 ∷ 0xe8 ∷ []

abbrev owned_tpm : SimpleTpm
owned_tpm =
    (stored (stored (λ i. []) kernel_nv_index kernel_bytes) firmware_nv_index firmware_bytes, false)

abbrev developer_bytes : List ℕ
developer_bytes = sealed_space sizeof_firmware (set firmware_bytes 1 1)

developer_setup : (setup_tpm simple_tlcl 1 0 0 owned_tpm).1 ≡ ok developer_bytes
unfolding setup_tpm read_attempts crc8 tpm_clear_and_reenable write_attempts sealed_space
developer_setup = refl

setup_tpm-Settled_example :
    Settled simple_tlcl simple_tlcl-IsTpm 1 0 0 owned_tpm
      (setup_tpm simple_tlcl 1 0 0 owned_tpm).0
      developer_bytes
setup_tpm-Settled_example =
    setup_tpm-Settled simple_tlcl simple_tlcl-IsTpm 1 0 0 owned_tpm developer_bytes developer_setup

firmware_written : (rollback_firmware_write simple_tlcl 0x00010002 owned_tpm).1 ≡ 0
unfolding rollback_firmware_write read_attempts crc8 write_attempts sealed_space
firmware_written = refl

firmware_read :
    (simple_tlcl.tlcl_read
      (rollback_firmware_write simple_tlcl 0x00010002 owned_tpm).0
      firmware_nv_index
      sizeof_firmware).2
    ≡ 0
unfolding rollback_firmware_write read_attempts crc8 write_attempts sealed_space
firmware_read = refl

rollback_firmware_write-read_example :
    (s : List ℕ) × ((read_space_firmware simple_tlcl
        (rollback_firmware_write simple_tlcl 0x00010002 owned_tpm).0).1
      ≡ ok s)
    × (fw_versions s ≡ 0x00010002)
    × (flags s ≡ 0)
rollback_firmware_write-read_example =
    rollback_firmware_write-read simple_tlcl simple_tlcl-IsTpm 0x00010002 owned_tpm (omega arith)
      firmware_written firmware_read

kernel_written : (rollback_kernel_write simple_tlcl 0x00030004 owned_tpm).1 ≡ 0
unfolding rollback_kernel_write read_attempts crc8 write_attempts sealed_space
kernel_written = refl

kernel_read :
    (simple_tlcl.tlcl_read
      (rollback_kernel_write simple_tlcl 0x00030004 owned_tpm).0
      kernel_nv_index
      sizeof_kernel).2
    ≡ 0
unfolding rollback_kernel_write read_attempts crc8 write_attempts sealed_space
kernel_read = refl

rollback_kernel_write-read_example :
    (rollback_kernel_read simple_tlcl (rollback_kernel_write simple_tlcl 0x00030004 owned_tpm).0).1
    ≡ ok 0x00030004
rollback_kernel_write-read_example =
    rollback_kernel_write-read simple_tlcl simple_tlcl-IsTpm 0x00030004 owned_tpm (omega arith) refl
      kernel_written kernel_read refl refl

-- A new backup space, the settings of localization 7, and those of localization 0.
abbrev backup_tpm : SimpleTpm
backup_tpm = (stored (λ i. []) backup_nv_index (replicate 16 0), false)

abbrev saved_settings : VbNvContext
saved_settings = record { raw = set sample_nvdata 3 7; raw_changed = 0; regenerate_crc = 1 }

abbrev lost_settings : VbNvContext
lost_settings = record { raw = sample_nvdata; raw_changed = 0; regenerate_crc = 0 }

settings_saved : (save_nv_to_backup simple_tlcl backup_tpm saved_settings 0).2 ≡ 0
unfolding save_nv_to_backup vb_nv_teardown vb_nv_set vb_nv_get get_param vb_nv_setup set_param
settings_saved = refl

backup_read :
    (simple_tlcl.tlcl_read
      (save_nv_to_backup simple_tlcl backup_tpm saved_settings 0).0
      backup_nv_index
      backup_nv_size).2
    ≡ 0
unfolding save_nv_to_backup vb_nv_teardown vb_nv_set vb_nv_get get_param vb_nv_setup set_param
backup_read = refl

save_nv_to_backup-restore_example :
    let saved = (save_nv_to_backup simple_tlcl backup_tpm saved_settings 0).0 in
    let (t', restored, code) = restore_nv_from_backup simple_tlcl saved lost_settings 0 in
    (code ≡ 0)
    × (vb_nv_get restored localization_index ≡ (
        if backed_up localization_index
        then vb_nv_get saved_settings localization_index
        else vb_nv_get lost_settings localization_index))
save_nv_to_backup-restore_example =
    save_nv_to_backup-restore simple_tlcl simple_tlcl-IsTpm backup_tpm saved_settings lost_settings
      0 0 localization_index (omega arith) (omega arith) (omega arith) settings_saved backup_read
