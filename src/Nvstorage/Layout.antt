-- ===== src/Nvstorage/Layout.antt =====
-- The storage layout as a table: each parameter's byte and mask. The code of vb2_nv_get and
-- vb2_nv_set is shown to follow the table in the module Fields.
use cbmc_vboot.Prelude.{
  ℕ, suc, ◌≡◌, refl, Bool, true, false, not, ◌&&◌, ◌||◌, List, [], ◌∷◌, some, get_elem?, bit_and,
  ◌==◌, arith, zero, ltb, ◌+◌,
}
use cbmc_vboot.Nvstorage.{
  NvParam, firmware_settings_reset, kernel_settings_reset, debug_reset_mode, try_next, try_count,
  fw_tried, fw_result, fw_prev_tried, fw_prev_result, recovery_request, recovery_subcode,
  localization_index, kernel_field, dev_boot_usb, dev_boot_legacy, dev_boot_signed_only,
  dev_boot_fastboot_full_cap, dev_default_boot, disable_dev_request, oprom_needed,
  backup_nvram_request, clear_tpm_owner_request, clear_tpm_owner_done, tpm_requested_reboot,
  req_wipeout, fastboot_unlock_in_fw, boot_on_ac_detect, try_ro_sync, offs_header, offs_boot,
  offs_recovery, offs_localization, offs_dev, offs_tpm, offs_recovery_subcode, offs_boot2,
  offs_misc, offs_kernel, not8,
}

-- The byte that holds a parameter (the first of four for the kernel field).
abbrev pub offs_of : NvParam → ℕ
offs_of firmware_settings_reset = offs_header
offs_of kernel_settings_reset = offs_header
offs_of debug_reset_mode = offs_boot
offs_of try_next = offs_boot2
offs_of try_count = offs_boot
offs_of fw_tried = offs_boot2
offs_of fw_result = offs_boot2
offs_of fw_prev_tried = offs_boot2
offs_of fw_prev_result = offs_boot2
offs_of recovery_request = offs_recovery
offs_of recovery_subcode = offs_recovery_subcode
offs_of localization_index = offs_localization
offs_of kernel_field = offs_kernel
offs_of dev_boot_usb = offs_dev
offs_of dev_boot_legacy = offs_dev
offs_of dev_boot_signed_only = offs_dev
offs_of dev_boot_fastboot_full_cap = offs_dev
offs_of dev_default_boot = offs_dev
offs_of disable_dev_request = offs_boot
offs_of oprom_needed = offs_boot
offs_of backup_nvram_request = offs_boot
offs_of clear_tpm_owner_request = offs_tpm
offs_of clear_tpm_owner_done = offs_tpm
offs_of tpm_requested_reboot = offs_tpm
offs_of req_wipeout = offs_header
offs_of fastboot_unlock_in_fw = offs_misc
offs_of boot_on_ac_detect = offs_misc
offs_of try_ro_sync = offs_misc

-- The bits of that byte that belong to it.
abbrev pub mask_of : NvParam → ℕ
mask_of firmware_settings_reset = 0x20
mask_of kernel_settings_reset = 0x10
mask_of debug_reset_mode = 0x80
mask_of try_next = 0x8
mask_of try_count = 0xf
mask_of fw_tried = 0x4
mask_of fw_result = 0x3
mask_of fw_prev_tried = 0x40
mask_of fw_prev_result = 0x30
mask_of recovery_request = 0xff
mask_of recovery_subcode = 0xff
mask_of localization_index = 0xff
mask_of kernel_field = 0xff
mask_of dev_boot_usb = 0x1
mask_of dev_boot_legacy = 0x4
mask_of dev_boot_signed_only = 0x2
mask_of dev_boot_fastboot_full_cap = 0x8
mask_of dev_default_boot = 0x30
mask_of disable_dev_request = 0x40
mask_of oprom_needed = 0x20
mask_of backup_nvram_request = 0x10
mask_of clear_tpm_owner_request = 0x1
mask_of clear_tpm_owner_done = 0x2
mask_of tpm_requested_reboot = 0x4
mask_of req_wipeout = 0x8
mask_of fastboot_unlock_in_fw = 0x1
mask_of boot_on_ac_detect = 0x2
mask_of try_ro_sync = 0x4

-- The parameters that own their whole byte.
abbrev pub is_whole : NvParam → Bool
is_whole param = mask_of param == 0xff

-- The position in the C enum.
abbrev pub index_of : NvParam → ℕ
index_of firmware_settings_reset = 0
index_of kernel_settings_reset = 1
index_of debug_reset_mode = 2
index_of try_next = 3
index_of try_count = 4
index_of fw_tried = 5
index_of fw_result = 6
index_of fw_prev_tried = 7
index_of fw_prev_result = 8
index_of recovery_request = 9
index_of recovery_subcode = 10
index_of localization_index = 11
index_of kernel_field = 12
index_of dev_boot_usb = 13
index_of dev_boot_legacy = 14
index_of dev_boot_signed_only = 15
index_of dev_boot_fastboot_full_cap = 16
index_of dev_default_boot = 17
index_of disable_dev_request = 18
index_of oprom_needed = 19
index_of backup_nvram_request = 20
index_of clear_tpm_owner_request = 21
index_of clear_tpm_owner_done = 22
index_of tpm_requested_reboot = 23
index_of req_wipeout = 24
index_of fastboot_unlock_in_fw = 25
index_of boot_on_ac_detect = 26
index_of try_ro_sync = 27

abbrev pub same : NvParam → NvParam → Bool
same p q = index_of p == index_of q

all_params : List NvParam
all_params =
    firmware_settings_reset ∷ kernel_settings_reset ∷ debug_reset_mode ∷ try_next ∷ try_count
    ∷ fw_tried ∷ fw_result ∷ fw_prev_tried ∷ fw_prev_result ∷ recovery_request ∷ recovery_subcode
    ∷ localization_index ∷ kernel_field ∷ dev_boot_usb ∷ dev_boot_legacy ∷ dev_boot_signed_only
    ∷ dev_boot_fastboot_full_cap ∷ dev_default_boot ∷ disable_dev_request ∷ oprom_needed
    ∷ backup_nvram_request ∷ clear_tpm_owner_request ∷ clear_tpm_owner_done ∷ tpm_requested_reboot
    ∷ req_wipeout ∷ fastboot_unlock_in_fw ∷ boot_on_ac_detect ∷ try_ro_sync ∷ []

index_of_lem : (p : NvParam) → get_elem? all_params (index_of p) ≡ some p
unfolding all_params
index_of_lem firmware_settings_reset = refl
index_of_lem _ = refl

pub same_iff : (p q : NvParam) → same p q ≡ true → p ≡ q
same_iff p q h = ground (arith, index_of_lem p, index_of_lem q)

all : (NvParam → Bool) → List NvParam → Bool
all f [] = true
all f (p ∷ ps) = f p && all f ps

all_sound :
    (f : NvParam → Bool) (ps : List NvParam) (i : ℕ) (p : NvParam)
    → all f ps ≡ true
    → get_elem? ps i ≡ some p
    → f p ≡ true
unfolding all
all_sound f [] i p h e = cc
all_sound f (x ∷ ps) zero p h e = ground arith
all_sound f (x ∷ ps) (suc i) p h e = ground (arith, all_sound f ps i p)

-- A test that every parameter passes.
for_all : (f : NvParam → Bool) → all f all_params ≡ true → (p : NvParam) → f p ≡ true
for_all f h p = all_sound f all_params (index_of p) p h (index_of_lem p)

-- Two parameters lie in different bytes, or under disjoint masks of one byte.
abbrev separate : NvParam → NvParam → Bool
separate p q =
    not (offs_of p == offs_of q)
    || (not (is_whole p)
        && not (is_whole q)
        && (bit_and (mask_of p) (mask_of q) == 0)
        && (bit_and (not8 (mask_of p)) (mask_of q) == mask_of q))

separate_table : all (λ p. all (λ q. same p q || separate p q) all_params) all_params ≡ true
unfolding all all_params
separate_table = refl

pub layout_separate : (p q : NvParam) → same p q ≡ false → separate p q ≡ true
layout_separate p q h = ground (
  arith,
  for_all (λ q. same p q || separate p q)
      (for_all (λ p. all (λ q. same p q || separate p q) all_params) separate_table p) q,
)

-- The kernel field's bytes, and the checksum's, are nobody else's.
abbrev apart : NvParam → Bool
apart p =
    not (offs_of p == offs_kernel + 1)
    && not (offs_of p == offs_kernel + 2)
    && not (offs_of p == offs_kernel + 3)
    && not (offs_of p == 15)
    && ltb (offs_of p) 16
    && (bit_and (not8 (mask_of p)) (mask_of p) == 0)

apart_table : all apart all_params ≡ true
unfolding all all_params
apart_table = refl

pub layout_apart : (p : NvParam) → apart p ≡ true
layout_apart = for_all apart apart_table

-- No parameter lies under the header's signature.
abbrev off_signature : NvParam → Bool
off_signature p =
    not (offs_of p == 0)
    || (not (is_whole p)
        && (bit_and (mask_of p) 0xc0 == 0)
        && (bit_and (not8 (mask_of p)) 0xc0 == 0xc0))

signature_table : all off_signature all_params ≡ true
unfolding all all_params
signature_table = refl

pub layout_off_signature : (p : NvParam) → off_signature p ≡ true
layout_off_signature = for_all off_signature signature_table
