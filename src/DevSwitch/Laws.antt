-- ===== src/DevSwitch/Laws.antt =====
-- When developer mode is on, and that no change of mode keeps the TPM owner.
use cbmc_vboot.Prelude.{
  ℕ, ◌≡◌, refl, ◌∙◌, ◌≢◌, ◌⊎◌, inl, inr, ◌%◌, ◌^◌, Bool, true, false, not, List, [], ◌∷◌, ◌==◌,
  if◌then◌else◌, Bool-cases, arith, has_flag, truthy, Result, ok, err,
}
use cbmc_vboot.Context.{Context, vb2_success, context_recovery_mode, status_nv_init}
use cbmc_vboot.Secdata.{vb2_secdata_get, vb2_secdata_set}
use cbmc_vboot.Secdata
use cbmc_vboot.Nvstorage.{
  NvParam, disable_dev_request, req_wipeout, recovery_request, recovery_subcode,
  clear_tpm_owner_request, clear_tpm_owner_done, vb2_nv_get, vb2_nv_set, vb2_nv_init,
  vb2_nv_regen_crc,
}
use cbmc_vboot.Nvstorage.Fields.Ranges.{IsNv}
use cbmc_vboot.Nvstorage.Writes.{get-writes}
use cbmc_vboot.Boot.{vb2_fail, request_recovery, give_up_slot}
use cbmc_vboot.DevSwitch.{
  drop_requested, drop_by_caller, clear_disable_request, is_dev, enter_dev_mode, reset_dev_boot,
  ask_wipeout, settle_mode, change_mode, switch_mode, on_read, vb2_check_dev_switch,
  vb2_check_tpm_clear, recovery_tpm_clear_owner,
}

module _ {Tpm : Type 0} (clear_owner : Context → Tpm → Tpm × ℕ) where
  -- If vb2_check_tpm_clear succeeds, then either no clear was requested, and nothing happened; or
  -- the owner was cleared, the request is gone and its completion is noted.
  pub vb2_check_tpm_clear_lem :
      (ctx : Context) (tpm : Tpm)
      → IsNv ctx.nvdata
      → let (ctx', tpm', code) = vb2_check_tpm_clear clear_owner ctx tpm in
        let once = vb2_nv_set ctx clear_tpm_owner_request 0 in
        ((vb2_nv_get ctx clear_tpm_owner_request ≡ 0)
            × (ctx' ≡ ctx)
            × (tpm' ≡ tpm)
            × (code ≡ vb2_success)
          ⊎ (tpm' ≡ (clear_owner once tpm).0)
            × (code ≡ (clear_owner once tpm).1)
            × ((code ≢ vb2_success) × (ctx' ≡ vb2_fail once recovery_tpm_clear_owner (code % 2 ^ 8))
                ⊎ (code ≡ vb2_success)
                  × (vb2_nv_get ctx' clear_tpm_owner_request ≡ 0)
                  × (vb2_nv_get ctx' clear_tpm_owner_done ≡ 1)))
  unfolding vb2_check_tpm_clear
  vb2_check_tpm_clear_lem ctx tpm w =
      let done : List (NvParam × ℕ) =
        (clear_tpm_owner_request, 0) ∷ (clear_tpm_owner_done, 1) ∷ [] in
      ground (
        arith,
        get-writes ctx done clear_tpm_owner_request w,
        get-writes ctx done clear_tpm_owner_done w,
      )

-- A change to the settings, the flags or the status leaves the secure data alone.
nv_set-secdata :
    (ctx : Context) (param : NvParam) (v : ℕ) → (vb2_nv_set ctx param v).secdata ≡ ctx.secdata
unfolding vb2_nv_set
nv_set-secdata ctx param v = ground arith

ask_wipeout-secdata : (ctx : Context) → (ask_wipeout ctx).secdata ≡ ctx.secdata
unfolding ask_wipeout
ask_wipeout-secdata ctx = ground (arith, nv_set-secdata ctx req_wipeout 1)

reset_dev_boot-secdata : (ctx : Context) → (reset_dev_boot ctx).secdata ≡ ctx.secdata
unfolding reset_dev_boot
reset_dev_boot-secdata ctx = simp nv_set-secdata refl

settle_mode-secdata : (ctx : Context) (flags : ℕ) → (settle_mode ctx flags).0.secdata ≡ ctx.secdata
unfolding settle_mode enter_dev_mode
settle_mode-secdata ctx flags = elim (Bool-cases (is_dev ctx flags)) [
  | inl dev ↦ rw dev (ask_wipeout-secdata (enter_dev_mode ctx))
  | inr normal ↦ rw normal (ask_wipeout-secdata (reset_dev_boot ctx) ∙ reset_dev_boot-secdata ctx)
]

clear_disable_request-secdata :
    (ctx : Context) (use_secdata : Bool)
    → (clear_disable_request ctx use_secdata).secdata ≡ ctx.secdata
unfolding clear_disable_request
clear_disable_request-secdata ctx use_secdata =
    ground (arith, nv_set-secdata ctx disable_dev_request 0)

nv_init-secdata : (ctx : Context) → (vb2_nv_init ctx).secdata ≡ ctx.secdata
unfolding vb2_nv_init vb2_nv_regen_crc
nv_init-secdata ctx = ground arith

request_recovery-secdata :
    (ctx : Context) (reason subcode : ℕ)
    → (request_recovery ctx reason subcode).secdata ≡ ctx.secdata
unfolding request_recovery
request_recovery-secdata ctx reason subcode =
    let first = vb2_nv_set ctx recovery_request reason in
    ground (
      arith,
      nv_set-secdata ctx recovery_request reason,
      nv_set-secdata first recovery_subcode subcode,
    )

fail-secdata :
    (ctx : Context) (reason subcode : ℕ) → (vb2_fail ctx reason subcode).secdata ≡ ctx.secdata
unfolding vb2_fail give_up_slot
fail-secdata ctx reason subcode =
    let start = if not (has_flag ctx.sd.status status_nv_init) then vb2_nv_init ctx else ctx in
    let started : start.secdata ≡ ctx.secdata = ground (arith, nv_init-secdata ctx) in
    let gave_up = give_up_slot start in
    let given : gave_up.secdata ≡ start.secdata = simp nv_set-secdata refl in
    ground (
      arith,
      started,
      given,
      request_recovery-secdata gave_up reason subcode,
      request_recovery-secdata start reason subcode,
    )

module _ {Tpm : Type 0} (clear_owner : Context → Tpm → Tpm × ℕ) where
  -- The owner was cleared on the way.
  Cleared : Tpm → Tpm → Type 0
  Cleared tpm tpm' = (c : Context) × (clear_owner c tpm ≡ (tpm', vb2_success))

  change_mode-secdata :
      (ctx : Context) (tpm : Tpm) (use_secdata : Bool) (flags : ℕ)
      → let r = change_mode clear_owner ctx tpm use_secdata flags in
        (r.0.secdata ≡ ctx.secdata) ⊎ Cleared tpm r.1
  unfolding change_mode Cleared
  change_mode-secdata ctx tpm false flags = inl refl
  change_mode-secdata ctx tpm true flags = elim (Bool-cases (truthy (clear_owner ctx tpm).1)) [
    | inl bad ↦
        rw bad (inl (fail-secdata ctx recovery_tpm_clear_owner ((clear_owner ctx tpm).1 % 2 ^ 8)))
    | inr fine ↦
        let done : (clear_owner ctx tpm).1 ≡ 0 = ground (arith, fine) in
        rw fine (inr (ctx, λ i. ((clear_owner ctx tpm).0, done i)))
  ]

  switch_mode-secdata :
      (ctx : Context) (tpm : Tpm) (use_secdata : Bool) (old_flags : ℕ)
      → let r = switch_mode clear_owner ctx tpm use_secdata old_flags in
        (r.0.secdata ≡ ctx.secdata) ⊎ Cleared tpm r.1
  unfolding switch_mode
  switch_mode-secdata ctx tpm use_secdata old_flags =
      let start = clear_disable_request ctx use_secdata in
      let allowed = drop_by_caller start (drop_requested ctx use_secdata old_flags) in
      let settled = settle_mode start allowed in
      let same : settled.0.secdata ≡ ctx.secdata =
        settle_mode-secdata start allowed ∙ clear_disable_request-secdata ctx use_secdata in
      elim (Bool-cases (settled.1 == old_flags)) [
        | inl unchanged ↦ rw unchanged (inl same)
        | inr changed ↦ rw changed (elim (change_mode-secdata settled.0 tpm use_secdata settled.1) [
          | inl kept ↦ inl (kept ∙ same)
          | inr cleared ↦ inr cleared
        ])
      ]

  on_read-secdata :
      (ctx : Context) (tpm : Tpm) (read : Result ℕ)
      → let r = on_read clear_owner ctx tpm read in (r.0.secdata ≡ ctx.secdata) ⊎ Cleared tpm r.1
  unfolding on_read
  on_read-secdata ctx tpm (ok flags) = switch_mode-secdata ctx tpm true flags
  on_read-secdata ctx tpm (err rv) = elim (Bool-cases (has_flag ctx.flags context_recovery_mode)) [
    | inl recovery ↦ rw recovery (switch_mode-secdata ctx tpm false 0)
    | inr plain ↦ rw plain (inl refl)
  ]

  -- vb2_check_dev_switch leaves the secure data as it was, or the TPM's owner was cleared: the TPM
  -- is then as vb2ex_tpm_clear_owner leaves it when it returns success in some context.
  pub vb2_check_dev_switch-secdata :
      (ctx : Context) (tpm : Tpm)
      → let r = vb2_check_dev_switch clear_owner ctx tpm in
        (r.0.secdata ≡ ctx.secdata) ⊎ ((c : Context) × (clear_owner c tpm ≡ (r.1, vb2_success)))
  unfolding vb2_check_dev_switch Cleared
  vb2_check_dev_switch-secdata ctx tpm = on_read-secdata ctx tpm (vb2_secdata_get ctx Secdata.flags)
