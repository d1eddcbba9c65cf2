-- ===== src/RollbackIndex.antt =====
-- firmware/lib/rollback_index.c: the versions and flags that the TPM keeps. The commands of
-- firmware/lib/tpm_lite/tlcl.c, which talk to the TPM, are the interface `Tlcl`; a TPM's state is a
-- value of `T`. The packed structs of a space are the bytes that the TPM stores.
pub mod Spaces
pub mod Writes
pub mod Versions
pub mod Setup
pub mod Flags
pub mod Found
pub mod Settled
use cbmc_vboot.Prelude.{
  ℕ, zero, suc, ◌+◌, ◌-◌, ◌*◌, ◌^◌, Bool, List, [], ◌∷◌, ◌++◌, ltb, ◌==◌, truthy, if◌then◌else◌,
  get_or, set, Result, ok, err,
}
use cbmc_vboot.Crc8.Vboot.{crc8}

-- Each command returns its code last, and what it stores through its pointers before that.
pub record Tlcl (T : Type 0) : Type 0 where
  pub tlcl_lib_init : T → T × ℕ
  pub tlcl_startup : T → T × ℕ
  pub tlcl_resume : T → T × ℕ
  pub tlcl_self_test_full : T → T × ℕ
  pub tlcl_assert_physical_presence : T → T × ℕ
  pub tlcl_physical_presence_cmd_enable : T → T × ℕ
  pub tlcl_finalize_physical_presence : T → T × ℕ
  pub tlcl_lock_physical_presence : T → T × ℕ
  pub tlcl_set_nv_locked : T → T × ℕ
  pub tlcl_set_global_lock : T → T × ℕ
  pub tlcl_force_clear : T → T × ℕ
  pub tlcl_set_enable : T → T × ℕ
  pub tlcl_set_deactivated : T → (flag : ℕ) → T × ℕ
  -- disable and deactivated
  pub tlcl_get_flags : T → T × (ℕ × ℕ) × ℕ
  -- physicalPresenceLifetimeLock and nvLocked
  pub tlcl_get_permanent_flags : T → T × (ℕ × ℕ) × ℕ
  pub tlcl_get_permissions : T → (index : ℕ) → T × ℕ × ℕ
  pub tlcl_define_space : T → (index perm size : ℕ) → T × ℕ
  pub tlcl_read : T → (index length : ℕ) → T × List ℕ × ℕ
  pub tlcl_write : T → (index : ℕ) → List ℕ → T × ℕ

abbrev pub tpm_success : ℕ
tpm_success = 0

abbrev pub tpm_e_badindex : ℕ
tpm_e_badindex = 0x2

abbrev pub tpm_e_invalid_postinit : ℕ
tpm_e_invalid_postinit = 0x26

abbrev pub tpm_e_maxnvwrites : ℕ
tpm_e_maxnvwrites = 0x48

abbrev pub tpm_e_must_reboot : ℕ
tpm_e_must_reboot = 0x5002

abbrev pub tpm_e_corrupted_state : ℕ
tpm_e_corrupted_state = 0x5003

abbrev pub firmware_nv_index : ℕ
firmware_nv_index = 0x1007

abbrev pub kernel_nv_index : ℕ
kernel_nv_index = 0x1008

abbrev pub backup_nv_index : ℕ
backup_nv_index = 0x1009

abbrev pub backup_nv_size : ℕ
backup_nv_size = 16

-- sizeof(RollbackSpaceFirmware) and sizeof(RollbackSpaceKernel)
abbrev pub sizeof_firmware : ℕ
sizeof_firmware = 10

abbrev pub sizeof_kernel : ℕ
sizeof_kernel = 13

-- The fields of both structs that the code for spaces reads: the first byte, struct_version, and the
-- last, crc8.
abbrev pub struct_version : List ℕ → ℕ
struct_version s = get_or s 0 0

abbrev pub crc_is_good : (size : ℕ) → List ℕ → Bool
crc_is_good size s = get_or s (size - 1) 0 == crc8 s (size - 1)

-- RETURN_ON_FAILURE in a function that returns a code, and in one that fills a struct too.
abbrev pub return_on_failure : {T : Type 0} → T × ℕ → (T → T × ℕ) → T × ℕ
return_on_failure (t, result) rest = if truthy result then (t, result) else rest t

abbrev pub or_return : {T A : Type 0} → T × ℕ → (T → T × Result A) → T × Result A
or_return (t, result) rest = if truthy result then (t, err result) else rest t

-- if (rsf->struct_version < 2) rsf->struct_version = 2; rsf->crc8 = Crc8(...);
unfoldable pub sealed_space : (size : ℕ) → List ℕ → List ℕ
sealed_space size s =
    let versioned = if ltb (struct_version s) 2 then set s 0 2 else s in
    set versioned (size - 1) (crc8 versioned (size - 1))

module _ {T : Type 0} (tlcl : Tlcl T) where
  unfoldable pub tpm_clear_and_reenable : T → T × ℕ
  tpm_clear_and_reenable t =
      return_on_failure (tlcl.tlcl_force_clear t)
        (λ t1. return_on_failure (tlcl.tlcl_set_enable t1) (λ t2. tlcl.tlcl_set_deactivated t2 0))

  unfoldable pub safe_write : T → (index : ℕ) → List ℕ → T × ℕ
  unfolding tpm_clear_and_reenable
  safe_write t index bytes =
      let (t1, result) = tlcl.tlcl_write t index bytes in
      if result == tpm_e_maxnvwrites
      then return_on_failure (tpm_clear_and_reenable t1) (λ t2. tlcl.tlcl_write t2 index bytes)
      else (t1, result)

  unfoldable pub safe_define_space : T → (index perm size : ℕ) → T × ℕ
  unfolding tpm_clear_and_reenable
  safe_define_space t index perm size =
      let (t1, result) = tlcl.tlcl_define_space t index perm size in
      if result == tpm_e_maxnvwrites
      then return_on_failure (tpm_clear_and_reenable t1)
          (λ t2. tlcl.tlcl_define_space t2 index perm size)
      else (t1, result)

  -- The loop of ReadSpaceFirmware and of ReadSpaceKernel.
  unfoldable pub read_attempts : (attempts : ℕ) → T → (index size : ℕ) → T × Result (List ℕ)
  read_attempts zero t index size = (t, err tpm_e_corrupted_state)
  read_attempts (suc attempts) t index size =
      let (t1, s, r) = tlcl.tlcl_read t index size in
      let again = read_attempts attempts t1 index size in
      if truthy r
      then (t1, err r)
      else if ltb (struct_version s) 2
      then (t1, ok (set s 0 2))
      else if crc_is_good size s
      then (t1, ok s)
      else again

  abbrev pub read_space_firmware : T → T × Result (List ℕ)
  read_space_firmware t = read_attempts 3 t firmware_nv_index sizeof_firmware

  abbrev pub read_space_kernel : T → T × Result (List ℕ)
  read_space_kernel t = read_attempts 3 t kernel_nv_index sizeof_kernel

  -- After a read back: it was good, or the write is tried again.
  abbrev pub read_back : T × Result (List ℕ) → (T → T × ℕ) → T × ℕ
  read_back (t, ok s) again = (t, tpm_success)
  read_back (t, err r) again = again t

  -- The loop of WriteSpaceFirmware and of WriteSpaceKernel.
  unfoldable pub write_attempts : (attempts : ℕ) → T → (index size : ℕ) → List ℕ → T × ℕ
  unfolding safe_write read_attempts
  write_attempts zero t index size s = (t, tpm_e_corrupted_state)
  write_attempts (suc attempts) t index size s = return_on_failure (safe_write t index s) (λ t1.
      read_back (read_attempts 3 t1 index size) (λ t2. write_attempts attempts t2 index size s))

  abbrev pub write_space_firmware : T → List ℕ → T × ℕ
  write_space_firmware t rsf =
      write_attempts 3 t firmware_nv_index sizeof_firmware (sealed_space sizeof_firmware rsf)

  abbrev pub write_space_kernel : T → List ℕ → T × ℕ
  write_space_kernel t rsk =
      write_attempts 3 t kernel_nv_index sizeof_kernel (sealed_space sizeof_kernel rsk)
