-- ===== src/RollbackIndex/Setup.antt =====
-- firmware/lib/rollback_index.c: SetupTPM, and the functions that boot calls.
use cbmc_vboot.Prelude.{
  ℕ, ◌+◌, ◌-◌, ◌*◌, ◌^◌, bit_and, bit_or, Bool, not, ◌||◌, List, ◌++◌, take, drop, ◌==◌, truthy,
  if◌then◌else◌, has_flag, le_bytes, get_or, set, replicate, Result, ok, err,
}
use cbmc_vboot.RollbackIndex.{
  Tlcl, tpm_success, tpm_e_badindex, tpm_e_invalid_postinit, tpm_e_must_reboot,
  tpm_e_corrupted_state, firmware_nv_index, kernel_nv_index, backup_nv_index, backup_nv_size,
  sizeof_firmware, sizeof_kernel, return_on_failure, or_return, sealed_space,
  tpm_clear_and_reenable, safe_define_space, read_space_firmware, read_space_kernel,
  write_space_firmware, write_space_kernel,
}

abbrev pub rollback_space_firmware_version : ℕ
rollback_space_firmware_version = 2

abbrev pub rollback_space_kernel_version : ℕ
rollback_space_kernel_version = 2

abbrev pub rollback_space_kernel_uid : ℕ
rollback_space_kernel_uid = 0x4752574c

abbrev pub flag_last_boot_developer : ℕ
flag_last_boot_developer = 0x1

abbrev pub flag_virtual_dev_mode_on : ℕ
flag_virtual_dev_mode_on = 0x2

abbrev pub tpm_nv_per_globallock : ℕ
tpm_nv_per_globallock = 2 ^ 15

abbrev pub tpm_nv_per_ppwrite : ℕ
tpm_nv_per_ppwrite = 1

abbrev pub vberror_tpm_set_boot_mode_state : ℕ
vberror_tpm_set_boot_mode_state = 0x10006

abbrev pub vberror_tpm_firmware_setup : ℕ
vberror_tpm_firmware_setup = 0x10008

-- A uint32_t at an offset of a packed struct.
abbrev pub field32 : List ℕ → (offset : ℕ) → ℕ
field32 s offset =
    get_or s offset 0
    + get_or s (offset + 1) 0 * 2 ^ 8
    + get_or s (offset + 2) 0 * 2 ^ 16
    + get_or s (offset + 3) 0 * 2 ^ 24

abbrev pub with_field32 : List ℕ → (offset value : ℕ) → List ℕ
with_field32 s offset value = take offset s ++ le_bytes 4 value ++ drop (offset + 4) s

-- The fields of RollbackSpaceFirmware, and of RollbackSpaceKernel.
abbrev pub flags : List ℕ → ℕ
flags rsf = get_or rsf 1 0

abbrev pub fw_versions : List ℕ → ℕ
fw_versions rsf = field32 rsf 2

abbrev pub uid : List ℕ → ℕ
uid rsk = field32 rsk 1

abbrev pub kernel_versions : List ℕ → ℕ
kernel_versions rsk = field32 rsk 5

abbrev pub rsf_init : List ℕ
rsf_init = set (replicate sizeof_firmware 0) 0 rollback_space_firmware_version

abbrev pub rsk_init : List ℕ
rsk_init =
    with_field32 (set (replicate sizeof_kernel 0) 0 rollback_space_kernel_version) 1
      rollback_space_kernel_uid

-- flags &= ~flag, in a uint8_t.
abbrev pub without : (flags flag : ℕ) → ℕ
without flags flag = bit_and flags (0xff - flag)

-- flags |= flag, or flags &= ~flag
abbrev pub with_flag_as : (on : Bool) → (flags flag : ℕ) → ℕ
with_flag_as on flags flag = if on then bit_or flags flag else without flags flag

-- The flags that SetupTPM works out, from those of the space.
abbrev pub asked_flags : (disable_dev_request in_flags : ℕ) → ℕ
asked_flags disable_dev_request in_flags =
    if truthy disable_dev_request then without in_flags flag_virtual_dev_mode_on else in_flags

abbrev pub is_developer : (developer_mode disable_dev_request in_flags : ℕ) → Bool
is_developer developer_mode disable_dev_request in_flags =
    truthy developer_mode
    || has_flag (asked_flags disable_dev_request in_flags) flag_virtual_dev_mode_on

abbrev pub out_flags : (developer_mode disable_dev_request in_flags : ℕ) → ℕ
out_flags developer_mode disable_dev_request in_flags =
    with_flag_as (is_developer developer_mode disable_dev_request in_flags)
      (asked_flags disable_dev_request in_flags) flag_last_boot_developer

-- The condition of the two calls of TPMClearAndReenable.
abbrev pub must_clear :
    (developer_mode disable_dev_request clear_tpm_owner_request in_flags : ℕ) → Bool
must_clear developer_mode disable_dev_request clear_tpm_owner_request in_flags =
    not (
      (if is_developer developer_mode disable_dev_request in_flags
        then flag_last_boot_developer
        else 0)
      == bit_and in_flags flag_last_boot_developer)
    || truthy clear_tpm_owner_request

module _ {T : Type 0} (tlcl : Tlcl T) where
  -- Lines 307-327: the spaces are defined, the firmware's last.
  unfoldable pub define_spaces : T → T × Result (List ℕ)
  define_spaces t =
      or_return (safe_define_space tlcl t backup_nv_index tpm_nv_per_ppwrite backup_nv_size) (λ t1.
        or_return (safe_define_space tlcl t1 kernel_nv_index tpm_nv_per_ppwrite sizeof_kernel)
          (λ t2. or_return (write_space_kernel tlcl t2 rsk_init) (λ t3.
            or_return
              (safe_define_space tlcl t3 firmware_nv_index
                (bit_or tpm_nv_per_globallock tpm_nv_per_ppwrite) sizeof_firmware)
              (λ t4.
                or_return (write_space_firmware tlcl t4 rsf_init)
                  (λ t5. (t5, ok (sealed_space sizeof_firmware rsf_init)))))))

  -- A command, where the condition holds.
  abbrev pub when : Bool → (T → T × ℕ) → T → T × ℕ
  when condition command t = if condition then command t else (t, tpm_success)

  unfoldable pub one_time_initialize_tpm : T → T × Result (List ℕ)
  unfolding define_spaces
  one_time_initialize_tpm t = or_return (tlcl.tlcl_self_test_full t) (λ t1.
      let (t2, (lifetime_lock, nv_locked), result) = tlcl.tlcl_get_permanent_flags t1 in
      or_return (t2, result)
        (λ t3.
          or_return (when (not (truthy lifetime_lock)) tlcl.tlcl_finalize_physical_presence t3)
            (λ t4.
              or_return (when (not (truthy nv_locked)) tlcl.tlcl_set_nv_locked t4)
                (λ t5. or_return (tpm_clear_and_reenable tlcl t5) define_spaces))))

  -- Lines 435-481, with the firmware space.
  unfoldable pub settle_space :
      (developer_mode disable_dev_request clear_tpm_owner_request : ℕ)
      → T
      → List ℕ
      → T × Result (List ℕ)
  settle_space developer_mode disable_dev_request clear_tpm_owner_request t rsf =
      let in_flags = flags rsf in
      let out = out_flags developer_mode disable_dev_request in_flags in
      let rsf' = set rsf 1 out in
      or_return
        (when (must_clear developer_mode disable_dev_request clear_tpm_owner_request in_flags)
          (tpm_clear_and_reenable tlcl) t)
        (λ t1.
          if out == in_flags
          then (t1, ok rsf')
          else or_return (write_space_firmware tlcl t1 rsf')
              (λ t2. (t2, ok (sealed_space sizeof_firmware rsf'))))

  -- Lines 422-434: the space is there, or the TPM is new.
  unfoldable pub find_space : T × Result (List ℕ) → T × Result (List ℕ)
  unfolding one_time_initialize_tpm
  find_space (t, ok rsf) = (t, ok rsf)
  find_space (t, err result) =
      if result == tpm_e_badindex then one_time_initialize_tpm t else (t, err tpm_e_corrupted_state)

  abbrev pub then_settle :
      (developer_mode disable_dev_request clear_tpm_owner_request : ℕ)
      → T × Result (List ℕ)
      → T × Result (List ℕ)
  then_settle developer_mode disable_dev_request clear_tpm_owner_request (t, err result) =
      (t, err result)
  then_settle developer_mode disable_dev_request clear_tpm_owner_request (t, ok rsf) =
      settle_space developer_mode disable_dev_request clear_tpm_owner_request t rsf

  -- Lines 398-407.
  unfoldable pub assert_presence : T → T × ℕ
  assert_presence t =
      let (t1, result) = tlcl.tlcl_assert_physical_presence t in
      if truthy result
      then return_on_failure (tlcl.tlcl_physical_presence_cmd_enable t1)
          tlcl.tlcl_assert_physical_presence
      else (t1, result)

  -- Lines 410-481.
  unfoldable pub setup_enabled :
      (developer_mode disable_dev_request clear_tpm_owner_request : ℕ) → T → T × Result (List ℕ)
  unfolding settle_space find_space
  setup_enabled developer_mode disable_dev_request clear_tpm_owner_request t =
      let (t1, (disable, deactivated), result) = tlcl.tlcl_get_flags t in
      or_return (t1, result)
        (λ t2.
          if truthy disable || truthy deactivated
          then or_return (tlcl.tlcl_set_enable t2)
              (λ t3. or_return (tlcl.tlcl_set_deactivated t3 0) (λ t4. (t4, err tpm_e_must_reboot)))
          else then_settle developer_mode disable_dev_request clear_tpm_owner_request
              (find_space (read_space_firmware tlcl t2)))

  unfoldable pub setup_tpm :
      (developer_mode disable_dev_request clear_tpm_owner_request : ℕ) → T → T × Result (List ℕ)
  unfolding assert_presence setup_enabled
  setup_tpm developer_mode disable_dev_request clear_tpm_owner_request t =
      or_return (tlcl.tlcl_lib_init t) (λ t1. or_return (tlcl.tlcl_startup t1) (λ t2.
        or_return (assert_presence t2)
          (setup_enabled developer_mode disable_dev_request clear_tpm_owner_request)))

  unfoldable pub rollback_s3_resume : T → T × ℕ
  rollback_s3_resume t = return_on_failure (tlcl.tlcl_lib_init t) (λ t1.
      let (t2, result) = tlcl.tlcl_resume t1 in
      if result == tpm_e_invalid_postinit then (t2, tpm_success) else (t2, result))

  -- What is stored through the pointers: is_virt_dev and the version; a failure stores the version 0.
  abbrev virtual_and_version : T × Result (List ℕ) → T × Result (ℕ × ℕ)
  virtual_and_version (t, err result) = (t, err result)
  virtual_and_version (t, ok rsf) =
      (t, ok ((if has_flag (flags rsf) flag_virtual_dev_mode_on then 1 else 0), fw_versions rsf))

  unfoldable pub rollback_firmware_setup :
      (is_hw_dev disable_dev_request clear_tpm_owner_request : ℕ) → T → T × Result (ℕ × ℕ)
  rollback_firmware_setup is_hw_dev disable_dev_request clear_tpm_owner_request t =
      virtual_and_version (setup_tpm is_hw_dev disable_dev_request clear_tpm_owner_request t)

  -- The space that was read is changed and written.
  abbrev pub then_write : T × Result (List ℕ) → (List ℕ → List ℕ) → (T → List ℕ → T × ℕ) → T × ℕ
  then_write (t, err result) change write = (t, result)
  then_write (t, ok s) change write = write t (change s)

  unfoldable pub rollback_firmware_write : (version : ℕ) → T → T × ℕ
  rollback_firmware_write version t =
      then_write (read_space_firmware tlcl t) (λ rsf. with_field32 rsf 2 version)
        (write_space_firmware tlcl)

  abbrev pub rollback_firmware_lock : T → T × ℕ
  rollback_firmware_lock t = tlcl.tlcl_set_global_lock t

  -- SetVirtualDevMode: any failure of a read, and of a write, has its own code.
  abbrev virtual_flag : (val : ℕ) → List ℕ → List ℕ
  virtual_flag val rsf = set rsf 1 (with_flag_as (truthy val) (flags rsf) flag_virtual_dev_mode_on)

  abbrev write_virtual : (val : ℕ) → T × Result (List ℕ) → T × ℕ
  write_virtual val (t, err result) = (t, vberror_tpm_firmware_setup)
  write_virtual val (t, ok rsf) =
      let (t1, result) = write_space_firmware tlcl t (virtual_flag val rsf) in
      (t1, if truthy result then vberror_tpm_set_boot_mode_state else 0)

  unfoldable pub set_virtual_dev_mode : (val : ℕ) → T → T × ℕ
  set_virtual_dev_mode val t = write_virtual val (read_space_firmware tlcl t)

  -- Lines 551-558, with the kernel space.
  abbrev pub check_permissions : T × Result (List ℕ) → T × Result ℕ
  check_permissions (t, err result) = (t, err result)
  check_permissions (t, ok rsk) =
      let (t1, perms, result) = tlcl.tlcl_get_permissions t kernel_nv_index in
      or_return (t1, result)
        (λ t2.
          if not (tpm_nv_per_ppwrite == perms) || not (rollback_space_kernel_uid == uid rsk)
          then (t2, err tpm_e_corrupted_state)
          else (t2, ok (kernel_versions rsk)))

  unfoldable pub rollback_kernel_read : T → T × Result ℕ
  rollback_kernel_read t = check_permissions (read_space_kernel tlcl t)

  unfoldable pub rollback_kernel_write : (version : ℕ) → T → T × ℕ
  rollback_kernel_write version t =
      then_write (read_space_kernel tlcl t) (λ rsk. with_field32 rsk 5 version)
        (write_space_kernel tlcl)

  abbrev pub rollback_backup_read : T → T × List ℕ × ℕ
  rollback_backup_read t = tlcl.tlcl_read t backup_nv_index backup_nv_size

  abbrev pub rollback_backup_write : T → List ℕ → T × ℕ
  rollback_backup_write t raw = tlcl.tlcl_write t backup_nv_index raw

  -- `kernel_locked` is the static variable.
  unfoldable pub rollback_kernel_lock : (recovery_mode kernel_locked : ℕ) → T → (T × ℕ) × ℕ
  rollback_kernel_lock recovery_mode kernel_locked t =
      let (t1, r) = tlcl.tlcl_lock_physical_presence t in
      if truthy recovery_mode || truthy kernel_locked
      then ((t, kernel_locked), tpm_success)
      else ((t1, if r == tpm_success then 1 else kernel_locked), r)
