-- ===== src/VbootNvstorage/Agrees.antt =====
-- firmware/lib/vboot_nvstorage.c and firmware/2lib/2nvstorage.c leave the same bytes.
use cbmc_vboot.Prelude.{
  ltb, ◌-◌, ◌*◌, ◌%◌, ◌^◌, set-set_self, ℕ, ◌≡◌, ◌⊎◌, inl, inr, refl, ap, sym, subst, subst₂, ◌∙◌,
  ◌&&◌, arith, bit_and, bit_or, Bool, true, false, List, [], ◌∷◌, ◌==◌, if◌then◌else◌, Bool-cases,
  get_or, set, Option, none, some,
}
use cbmc_vboot.Prelude.Bits.{flag_self}
use cbmc_vboot.Crc8.{vb2_crc8}
use cbmc_vboot.Crc8.Errors.{vb2_crc8-set_ge}
use cbmc_vboot.Crc8.Vboot.{crc8_same}
use cbmc_vboot.Context.{
  Context, context_nvdata_changed, status_nv_init, status_nv_reinit, or_status,
}
use cbmc_vboot.Nvstorage.{
  NvParam, default_nvdata, read_param, write_param, vb2_nv_regen_crc, vb2_nv_check_crc, vb2_nv_init,
  vb2_nv_get, vb2_nv_set,
}
use cbmc_vboot.Nvstorage.Layout.{layout_apart}
use cbmc_vboot.Nvstorage.Fields.ReadWrite.{owns, read-set_ne}
use cbmc_vboot.Nvstorage.Fields.Commute.{write-set_ne}
use cbmc_vboot.Nvstorage.Writes.{writes}
use cbmc_vboot.VbootNvstorage.{
  VbNvContext, VbNvParam, firmware_settings_reset, kernel_settings_reset, debug_reset_mode,
  try_b_count, fw_try_count, recovery_request, localization_index, kernel_field, dev_boot_usb,
  dev_boot_legacy, dev_boot_signed_only, dev_boot_fastboot_full_cap, dev_default_boot,
  disable_dev_request, oprom_needed, clear_tpm_owner_request, clear_tpm_owner_done,
  tpm_requested_reboot, recovery_subcode, backup_nvram_request, fw_try_next, fw_tried, fw_result,
  fw_prev_tried, fw_prev_result, fw_req_wipeout, fastboot_unlock_in_fw, boot_on_ac_detect,
  try_ro_sync, other, get_param, set_param, vb_nv_get, vb_nv_set, vb_nv_setup, vb_nv_teardown,
}

-- The name that 2nvstorage.h has for a parameter.
abbrev pub new_param : VbNvParam → Option NvParam
new_param firmware_settings_reset = some NvParam.firmware_settings_reset
new_param kernel_settings_reset = some NvParam.kernel_settings_reset
new_param debug_reset_mode = some NvParam.debug_reset_mode
new_param try_b_count = some NvParam.try_count
new_param fw_try_count = some NvParam.try_count
new_param recovery_request = some NvParam.recovery_request
new_param localization_index = some NvParam.localization_index
new_param kernel_field = some NvParam.kernel_field
new_param dev_boot_usb = some NvParam.dev_boot_usb
new_param dev_boot_legacy = some NvParam.dev_boot_legacy
new_param dev_boot_signed_only = some NvParam.dev_boot_signed_only
new_param dev_boot_fastboot_full_cap = some NvParam.dev_boot_fastboot_full_cap
new_param dev_default_boot = some NvParam.dev_default_boot
new_param disable_dev_request = some NvParam.disable_dev_request
new_param oprom_needed = some NvParam.oprom_needed
new_param clear_tpm_owner_request = some NvParam.clear_tpm_owner_request
new_param clear_tpm_owner_done = some NvParam.clear_tpm_owner_done
new_param tpm_requested_reboot = some NvParam.tpm_requested_reboot
new_param recovery_subcode = some NvParam.recovery_subcode
new_param backup_nvram_request = some NvParam.backup_nvram_request
new_param fw_try_next = some NvParam.try_next
new_param fw_tried = some NvParam.fw_tried
new_param fw_result = some NvParam.fw_result
new_param fw_prev_tried = some NvParam.fw_prev_tried
new_param fw_prev_result = some NvParam.fw_prev_result
new_param fw_req_wipeout = some NvParam.req_wipeout
new_param fastboot_unlock_in_fw = some NvParam.fastboot_unlock_in_fw
new_param boot_on_ac_detect = some NvParam.boot_on_ac_detect
new_param try_ro_sync = some NvParam.try_ro_sync
new_param (other n) = none

abbrev pub map_param : {A : Type 0} → (NvParam → A) → Option NvParam → Option A
map_param f none = none
map_param f (some q) = some (f q)

pub get_same :
    (raw : List ℕ) (p : VbNvParam)
    → get_param raw p ≡ map_param (λ q. read_param raw q) (new_param p)
unfolding get_param read_param
get_same raw firmware_settings_reset = refl
get_same raw _ = refl

narrow : (x : ℕ) → x % 2 ^ 8 * 2 ^ 4 % 2 ^ 8 ≡ x * 2 ^ 4 % 2 ^ 8
narrow x = omega arith

abbrev stored : List ℕ → (offset mask digits : ℕ) → Option (List ℕ)
stored raw offset mask digits =
    some (set raw offset (bit_or (bit_and (get_or raw offset 0) (0xff - mask)) digits))

set_same :
    (raw : List ℕ) (p : VbNvParam) (v : ℕ)
    → set_param raw p v ≡ map_param (λ q. write_param raw q v) (new_param p)
unfolding set_param write_param
set_same raw firmware_settings_reset v = refl
set_same raw dev_default_boot v = ap (stored raw 4 0x30) (narrow (if ltb 0x03 v then 0 else v))
set_same raw fw_prev_result v = ap (stored raw 7 0x30) (narrow (if ltb 0x03 v then 0 else v))
set_same raw _ v = refl

-- A run of calls of VbNvSet.
abbrev pub vb_nv_sets : VbNvContext → List (VbNvParam × ℕ) → VbNvContext
vb_nv_sets context [] = context
vb_nv_sets context ((p, v) ∷ ws) = vb_nv_sets (vb_nv_set context p v).0 ws

-- The calls of vb2_nv_set for them: a parameter that is none of the enum's is refused.
abbrev with_param : Option NvParam → ℕ → List (NvParam × ℕ) → List (NvParam × ℕ)
with_param none v ws = ws
with_param (some q) v ws = (q, v) ∷ ws

abbrev pub translate : List (VbNvParam × ℕ) → List (NvParam × ℕ)
translate [] = []
translate ((p, v) ∷ ws) = with_param (new_param p) v (translate ws)

-- The older code writes the checksum at the end, the newer one with each change.
record Agree (old : VbNvContext) (new : Context) : Type 0 where
  unchanged : old.raw_changed ≡ 0
  bytes :
      ((old.regenerate_crc ≡ 0)
        × (new.nvdata ≡ old.raw)
        × (bit_and new.flags context_nvdata_changed ≡ 0))
      ⊎ ((old.regenerate_crc ≡ 1)
          × (new.nvdata ≡ set old.raw 15 (vb2_crc8 old.raw 15))
          × (bit_and new.flags context_nvdata_changed ≡ 1))

owns-crc : (q : NvParam) → owns q 15 ≡ false
owns-crc q = ground (arith, layout_apart q)

pub set_known :
    (old : VbNvContext) (p : VbNvParam) (q : NvParam) (v : ℕ)
    → new_param p ≡ some q
    → (vb_nv_set old p v).0 ≡ (
        if read_param old.raw q == v
        then old
        else record old { raw = write_param old.raw q v; regenerate_crc = 1 })
unfolding vb_nv_set vb_nv_get
set_known old p q v e =
    rw (get_same old.raw p, set_same old.raw p v, e)
      (elim (Bool-cases (read_param old.raw q == v)) [
        | inl same ↦ rw same refl
        | inr other_value ↦ rw other_value refl
      ])

pub set_unknown :
    (old : VbNvContext) (p : VbNvParam) (v : ℕ) → new_param p ≡ none → (vb_nv_set old p v).0 ≡ old
unfolding vb_nv_set vb_nv_get
set_unknown old p v e = rw (get_same old.raw p, set_same old.raw p v, e) refl

read_agrees :
    (old : VbNvContext) (new : Context) (q : NvParam)
    → Agree old new
    → read_param new.nvdata q ≡ read_param old.raw q
read_agrees old new q a = elim a.bytes [
  | inl (_, e, _) ↦ ap (λ l. read_param l q) e
  | inr (_, e, _) ↦
      ap (λ l. read_param l q) e ∙ read-set_ne old.raw q 15 (vb2_crc8 old.raw 15) (owns-crc q)
]

reads :
    (old : VbNvContext) (new : Context) (o : Option NvParam)
    → Agree old new
    → map_param (λ q. read_param old.raw q) o ≡ map_param (λ q. read_param new.nvdata q) o
reads old new none a = refl
reads old new (some q) a = ap some (sym (read_agrees old new q a))

changed-Agree :
    (old : VbNvContext) (new : Context) (q : NvParam) (v : ℕ)
    → Agree old new
    → Agree
        (record old { raw = write_param old.raw q v; regenerate_crc = 1 })
        (vb2_nv_regen_crc (record new { nvdata = write_param new.nvdata q v }))
unfolding vb2_nv_regen_crc
changed-Agree old new q v a = record {
  unchanged = a.unchanged;
  bytes = inr (
    refl,
    elim a.bytes [
      | inl (_, e, _) ↦ ap (λ l. set (write_param l q v) 15 (vb2_crc8 (write_param l q v) 15)) e
      | inr (_, e, _) ↦
          let c = vb2_crc8 old.raw 15 in
          let w = write_param old.raw q v in
          ap (λ l. set (write_param l q v) 15 (vb2_crc8 (write_param l q v) 15)) e
          ∙ ap (λ l. set l 15 (vb2_crc8 l 15)) (write-set_ne old.raw q v 15 c (owns-crc q))
          ∙ set-set_self w 15 c (vb2_crc8 (set w 15 c) 15)
          ∙ ap (set w 15) (vb2_crc8-set_ge w 15 15 c (omega arith))
    ],
    flag_self new.flags 1,
  );
}

set-Agree :
    (old : VbNvContext) (new : Context) (q : NvParam) (v : ℕ)
    → Agree old new
    → Agree
        (if read_param old.raw q == v
          then old
          else record old { raw = write_param old.raw q v; regenerate_crc = 1 })
        (vb2_nv_set new q v)
unfolding vb2_nv_set vb2_nv_get
set-Agree old new q v a = elim (Bool-cases (read_param old.raw q == v)) [
  | inl same ↦ rw (read_agrees old new q a, same) a
  | inr other_value ↦ rw (read_agrees old new q a, other_value) (changed-Agree old new q v a)
]

abbrev set_new : Context → Option NvParam → ℕ → Context
set_new new none v = new
set_new new (some q) v = vb2_nv_set new q v

writes-with_param :
    (new : Context) (o : Option NvParam) (v : ℕ) (ws : List (NvParam × ℕ))
    → writes new (with_param o v ws) ≡ writes (set_new new o v) ws
writes-with_param new none v ws = refl
writes-with_param new (some q) v ws = refl

one-Agree :
    (old : VbNvContext) (new : Context) (p : VbNvParam) (v : ℕ) (o : Option NvParam)
    → new_param p ≡ o
    → Agree old new
    → Agree (vb_nv_set old p v).0 (set_new new o v)
one-Agree old new p v none e a = subst (λ c. Agree c new) (sym (set_unknown old p v e)) a
one-Agree old new p v (some q) e a =
    subst (λ c. Agree c (vb2_nv_set new q v)) (sym (set_known old p q v e))
      (set-Agree old new q v a)

sets-Agree :
    (old : VbNvContext) (new : Context) (ws : List (VbNvParam × ℕ))
    → Agree old new
    → Agree (vb_nv_sets old ws) (writes new (translate ws))
sets-Agree old new [] a = a
sets-Agree old new ((p, v) ∷ ws) a =
    subst (Agree (vb_nv_sets (vb_nv_set old p v).0 ws))
      (sym (writes-with_param new (new_param p) v (translate ws)))
      (sets-Agree (vb_nv_set old p v).0 (set_new new (new_param p) v) ws
        (one-Agree old new p v (new_param p) refl a))

-- The test of both: the header's signature and the checksum.
abbrev pub is_good : List ℕ → Bool
is_good raw = (0x40 == bit_and (get_or raw 0 0) 0xc0) && (vb2_crc8 raw 15 == get_or raw 15 0)

pub setup_good :
    (old : VbNvContext)
    → is_good old.raw ≡ true
    → vb_nv_setup old ≡ record old { raw_changed = 0; regenerate_crc = 0 }
unfolding vb_nv_setup
setup_good old h = rw (crc8_same old.raw 15) (ground (arith, h))

pub setup_bad :
    (old : VbNvContext)
    → is_good old.raw ≡ false
    → vb_nv_setup old ≡ record { raw = default_nvdata; raw_changed = 0; regenerate_crc = 1 }
unfolding vb_nv_setup
setup_bad old h = rw (crc8_same old.raw 15) (ground (arith, h))

init_good :
    (new : Context) → is_good new.nvdata ≡ true → vb2_nv_init new ≡ or_status new status_nv_init
unfolding vb2_nv_init vb2_nv_check_crc
init_good new h = ground (arith, h)

init_bad :
    (new : Context)
    → is_good new.nvdata ≡ false
    → vb2_nv_init new
      ≡ or_status
          (or_status (vb2_nv_regen_crc (record new { nvdata = default_nvdata })) status_nv_reinit)
          status_nv_init
unfolding vb2_nv_init vb2_nv_check_crc
init_bad new h = ground (arith, h)

setup-Agree :
    (old : VbNvContext) (new : Context)
    → old.raw ≡ new.nvdata
    → bit_and new.flags context_nvdata_changed ≡ 0
    → Agree (vb_nv_setup old) (vb2_nv_init new)
setup-Agree old new e f = elim (Bool-cases (is_good new.nvdata)) [
  | inl good ↦
      subst₂ Agree (sym (setup_good old (ap is_good e ∙ good))) (sym (init_good new good))
        record { unchanged = refl; bytes = inl (refl, sym e, f) }
  | inr bad ↦ subst₂ Agree (sym (setup_bad old (ap is_good e ∙ bad))) (sym (init_bad new bad)) (
      unfold vb2_nv_regen_crc in
      record { unchanged = refl; bytes = inr (refl, refl, flag_self new.flags 1) })
]

teardown_agrees :
    (old : VbNvContext) (new : Context)
    → Agree old new
    → ((vb_nv_teardown old).raw ≡ new.nvdata)
      × ((vb_nv_teardown old).raw_changed ≡ bit_and new.flags context_nvdata_changed)
unfolding vb_nv_teardown
teardown_agrees old new a = elim a.bytes [
  | inl (clean, e, f) ↦ rw clean (sym e, a.unchanged ∙ sym f)
  | inr (dirty, e, f) ↦ rw dirty (ap (set old.raw 15) (crc8_same old.raw 15) ∙ sym e, sym f)
]

-- On the same bytes, and with the flag of vb2_context for changed storage not set, VbNvSetup, any
-- calls of VbNvSet and VbNvTeardown leave the bytes that vb2_nv_init and the same calls of vb2_nv_set
-- leave, a call with a parameter outside the enum being none, and raw_changed is that flag. On the way
-- VbNvGet reads what vb2_nv_get reads, and fails for a parameter outside the enum.
pub vb_nv_sets-vb2_nv_set :
    (old : VbNvContext) (new : Context) (ws : List (VbNvParam × ℕ)) (p : VbNvParam)
    → old.raw ≡ new.nvdata
    → bit_and new.flags context_nvdata_changed ≡ 0
    → let session = vb_nv_sets (vb_nv_setup old) ws in
      let end = writes (vb2_nv_init new) (translate ws) in
      ((vb_nv_teardown session).raw ≡ end.nvdata)
      × ((vb_nv_teardown session).raw_changed ≡ bit_and end.flags context_nvdata_changed)
      × (vb_nv_get session p ≡ map_param (vb2_nv_get end) (new_param p))
unfolding vb_nv_get vb2_nv_get
vb_nv_sets-vb2_nv_set old new ws p e f =
    let session = vb_nv_sets (vb_nv_setup old) ws in
    let end = writes (vb2_nv_init new) (translate ws) in
    let a = sets-Agree (vb_nv_setup old) (vb2_nv_init new) ws (setup-Agree old new e f) in
    let (bytes, changed) = teardown_agrees session end a in
    (bytes, changed, get_same session.raw p ∙ reads session end (new_param p) a)
