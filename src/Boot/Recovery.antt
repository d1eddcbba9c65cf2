-- ===== src/Boot/Recovery.antt =====
-- The recovery request at the start of a boot.
use cbmc_vboot.Prelude.{
  ℕ, ◌≡◌, refl, ap, inl, inr, false, not, ◌&&◌, ◌||◌, List, [], ◌∷◌, if◌then◌else◌, Bool-cases,
  arith, has_flag, truthy,
}
use cbmc_vboot.Prelude.Bits.{flag_self}
use cbmc_vboot.Context.{
  Context, SharedData, context_force_recovery_mode, context_recovery_mode, or_flags,
}
use cbmc_vboot.Nvstorage.{NvParam, recovery_request, recovery_subcode, vb2_nv_get, read_param}
use cbmc_vboot.Nvstorage.Layout.{same}
use cbmc_vboot.Nvstorage.Fields.Ranges.{IsNv}
use cbmc_vboot.Nvstorage.Writes.{writes, get-writes, writes-Untouched}
use cbmc_vboot.Boot.{recovery_ro_manual, set_reason, manual_recovery, vb2_check_recovery}

-- The reason for which this boot is a recovery boot, or zero.
abbrev pub reason_of : Context → ℕ
reason_of ctx =
    let earlier = ctx.sd.recovery_reason in
    let request = vb2_nv_get ctx recovery_request in
    let subcode = vb2_nv_get ctx recovery_subcode in
    let current = if truthy earlier then earlier else request in
    if has_flag ctx.flags context_force_recovery_mode
    then (if truthy subcode && not (truthy current) then subcode else recovery_ro_manual)
    else current

abbrev cleared_request : List (NvParam × ℕ)
cleared_request = (recovery_request, 0) ∷ (recovery_subcode, 0) ∷ []

-- The part after the request was cleared, on `start` with `current` as its reason.
decide : Context → ℕ → Context
decide start subcode =
    let cleared = writes start cleared_request in
    let decided =
      if has_flag cleared.flags context_force_recovery_mode
      then manual_recovery cleared subcode
      else cleared in
    if truthy decided.sd.recovery_reason then or_flags decided context_recovery_mode else decided

decide_lem :
    (start : Context) (subcode : ℕ) (q : NvParam)
    → IsNv start.nvdata
    → has_flag start.flags context_recovery_mode ≡ false
    → let ctx' = decide start subcode in
      let current = start.sd.recovery_reason in
      let reason =
        if has_flag start.flags context_force_recovery_mode
        then (if truthy subcode && not (truthy current) then subcode else recovery_ro_manual)
        else current in
      (ctx'.sd.recovery_reason ≡ reason)
      × (read_param ctx'.nvdata q ≡ (
          if same recovery_request q || same recovery_subcode q
          then 0
          else read_param start.nvdata q))
      × (has_flag ctx'.flags context_recovery_mode ≡ truthy reason)
unfolding decide manual_recovery set_reason vb2_nv_get
decide_lem start subcode q w h =
    let kept = writes-Untouched start cleared_request in
    let cleared : Context = writes start cleared_request in
    ground (
      arith,
      get-writes start cleared_request q w,
      ap (λ (d : SharedData). d.recovery_reason) kept.same_sd,
      kept.same_flags context_force_recovery_mode refl,
      kept.same_flags context_recovery_mode refl,
      flag_self cleared.flags context_recovery_mode,
    )

-- vb2_check_recovery takes its reason from an earlier failure of this boot, else from the request;
-- if the user forces recovery, the reason is manual, or the subcode where there was no reason. It
-- clears the request and the subcode, leaves the other parameters, and tells the caller to enter
-- recovery mode exactly if there is a reason (provided the caller had not set that flag).
pub vb2_check_recovery_lem :
    (ctx : Context) (q : NvParam)
    → IsNv ctx.nvdata
    → has_flag ctx.flags context_recovery_mode ≡ false
    → let ctx' = vb2_check_recovery ctx in
      (ctx'.sd.recovery_reason ≡ reason_of ctx)
      × (vb2_nv_get ctx' q
          ≡ (if same recovery_request q || same recovery_subcode q then 0 else vb2_nv_get ctx q))
      × (has_flag ctx'.flags context_recovery_mode ≡ truthy (reason_of ctx))
unfolding vb2_check_recovery set_reason vb2_nv_get decide
vb2_check_recovery_lem ctx q w h = elim (Bool-cases (truthy ctx.sd.recovery_reason)) [
  | inl early ↦ ground (arith, decide_lem ctx (vb2_nv_get ctx recovery_subcode) q w h)
  | inr none_yet ↦ ground (
    arith,
    decide_lem (set_reason ctx (vb2_nv_get ctx recovery_request)) (vb2_nv_get ctx recovery_subcode)
        q w h,
  )
]
