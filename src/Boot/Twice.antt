-- ===== src/Boot/Twice.antt =====
-- Failures on two boots in a row.
use cbmc_vboot.Prelude.{
  ℕ, ◌-◌, ◌≤◌, ◌<◌, ◌≡◌, refl, sym, ap, ◌∙◌, ◌≢◌, inl, inr, true, [], ◌∷◌, Bool-cases, arith,
  has_flag, truthy, bit_or, subst,
}
use cbmc_vboot.Prelude.Bits.{flag_self, flag_other}
use cbmc_vboot.Context.{Context, SharedData, status_nv_init, status_chose_slot}
use cbmc_vboot.Nvstorage.{
  NvParam, try_next, try_count, fw_tried, fw_result, recovery_request, vb2_nv_get, vb2_nv_set,
}
use cbmc_vboot.Nvstorage.Fields.Ranges.{IsNv}
use cbmc_vboot.Nvstorage.Writes.{writes-Untouched}
use cbmc_vboot.Boot.{
  result_trying, result_failure, set_fw_slot, save_result, fall_back, use_try, store_slot,
  vb2_select_fw_slot, vb2_fail,
}
use cbmc_vboot.Boot.Slot.{Tries, view, slot_of, view-InRange, vb2_select_fw_slot-refines, used_up}
use cbmc_vboot.Boot.Failure.{Chosen, fail_get, fail-IsNv, vb2_fail_lem}

status_of : Context → ℕ
status_of ctx = ctx.sd.status

set-status_of :
    (ctx : Context) (p : NvParam) (v : ℕ) → status_of (vb2_nv_set ctx p v) ≡ status_of ctx
unfolding status_of
set-status_of ctx p v =
    ap (λ (d : SharedData). d.status) (writes-Untouched ctx ((p, v) ∷ [])).same_sd

set_fw_slot-status_of : (ctx : Context) (v : ℕ) → status_of (set_fw_slot ctx v) ≡ status_of ctx
unfolding status_of set_fw_slot
set_fw_slot-status_of ctx v = refl

save_result-status_of : (ctx : Context) → status_of (save_result ctx) ≡ status_of ctx
unfolding save_result
save_result-status_of ctx = simp set-status_of (unfold status_of in refl)

fall_back-status_of : (ctx : Context) (tries : ℕ) → status_of (fall_back ctx tries) ≡ status_of ctx
unfolding fall_back
fall_back-status_of ctx tries =
    elim (Bool-cases (used_up ctx.sd.last_fw_result ctx.sd.last_fw_slot ctx.sd.fw_slot tries)) [
      | inl e ↦ rw e (set-status_of _ try_next _ ∙ set_fw_slot-status_of ctx _)
      | inr e ↦ rw e refl
    ]

use_try-status_of : (ctx : Context) (tries : ℕ) → status_of (use_try ctx tries) ≡ status_of ctx
unfolding use_try
use_try-status_of ctx tries = ground (
  arith,
  set-status_of ctx fw_result result_trying,
  set-status_of (vb2_nv_set ctx fw_result result_trying) try_count (tries - 1),
)

store_slot-status_of :
    (ctx : Context) → status_of (store_slot ctx).0 ≡ bit_or (status_of ctx) status_chose_slot
unfolding store_slot status_of
store_slot-status_of ctx =
    let kept = set-status_of ctx fw_tried ctx.sd.fw_slot in ground (arith, kept)

-- The choice of a slot adds its mark to the status, and nothing else.
select-status_of :
    (ctx : Context)
    → status_of (vb2_select_fw_slot ctx).0 ≡ bit_or (status_of ctx) status_chose_slot
unfolding vb2_select_fw_slot
select-status_of ctx =
    store_slot-status_of _
    ∙ ap (λ s. bit_or s status_chose_slot)
        (use_try-status_of _ _
          ∙ fall_back-status_of _ _
          ∙ set_fw_slot-status_of _ _
          ∙ save_result-status_of ctx)

slot_of-le : (ctx : Context) → slot_of (view ctx) ≤ 1
slot_of-le ctx = ground (arith, view-InRange ctx)

select-Chosen :
    (ctx : Context)
    → IsNv ctx.nvdata
    → has_flag ctx.sd.status status_nv_init ≡ true
    → Chosen (vb2_select_fw_slot ctx).0
unfolding status_of
select-Chosen ctx w nv =
    let chosen = vb2_select_fw_slot-refines ctx w in
    let status = select-status_of ctx in
    record {
      bytes = chosen.4;
      nv_ready =
          ap (λ s. has_flag s status_nv_init) status
          ∙ ap truthy (flag_other ctx.sd.status status_chose_slot status_nv_init refl)
          ∙ nv;
      slot_ready =
          ap (λ s. has_flag s status_chose_slot) status
          ∙ ap truthy (flag_self ctx.sd.status status_chose_slot);
      slot_small = omega (arith, chosen.1, slot_of-le ctx);
    }

same_get :
    (ctx ctx' : Context) (q : NvParam)
    → ctx.nvdata ≡ ctx'.nvdata
    → vb2_nv_get ctx q ≡ vb2_nv_get ctx' q
unfolding vb2_nv_get
same_get ctx ctx' q e = rw e

-- What a chosen slot that failed leaves for the next choice.
failed_view :
    (ctx ctx' : Context) (reason subcode : ℕ)
    → IsNv ctx.nvdata
    → has_flag ctx.sd.status status_nv_init ≡ true
    → ctx'.nvdata ≡ (vb2_fail (vb2_select_fw_slot ctx).0 reason subcode).nvdata
    → (vb2_nv_get ctx' fw_tried ≡ slot_of (view ctx))
      × (vb2_nv_get ctx' fw_result ≡ result_failure)
      × (vb2_nv_get ctx' try_next ≡ 1 - slot_of (view ctx))
failed_view ctx ctx' reason subcode w nv e =
    let chosen = vb2_select_fw_slot-refines ctx w in
    let ready = select-Chosen ctx w nv in
    let sel : Context = (vb2_select_fw_slot ctx).0 in
    (
      same_get ctx' _ fw_tried e
          ∙ fail_get sel reason subcode fw_tried ready
          ∙ ground (arith, ap (λ (t : Tries). t.tried) chosen.0),
      same_get ctx' _ fw_result e ∙ fail_get sel reason subcode fw_result ready ∙ ground arith,
      same_get ctx' _ try_next e
          ∙ fail_get sel reason subcode try_next ready
          ∙ ground (arith, chosen.1, slot_of-le ctx),
    )

-- Two failures in a row, the second boot having the storage that the first failure left: a recovery
-- request is stored, provided the second failure has a reason.
pub vb2_fail_twice :
    (first second : Context) (reason subcode reason' subcode' : ℕ)
    → IsNv first.nvdata
    → has_flag first.sd.status status_nv_init ≡ true
    → has_flag second.sd.status status_nv_init ≡ true
    → second.nvdata ≡ (vb2_fail (vb2_select_fw_slot first).0 reason subcode).nvdata
    → 0 < reason'
    → reason' < 256
    → subcode' < 256
    → vb2_nv_get (vb2_fail (vb2_select_fw_slot second).0 reason' subcode') recovery_request ≢ 0
vb2_fail_twice first second reason subcode reason' subcode' w nv nv' e pos r s =
    let (tried, result, next) = failed_view first second reason subcode w nv e in
    let w' = subst IsNv (sym e) (fail-IsNv _ reason subcode (select-Chosen first w nv)) in
    let chosen = vb2_select_fw_slot-refines second w' in
    ground (
      arith,
      slot_of-le first,
      chosen,
      (vb2_fail_lem (vb2_select_fw_slot second).0 reason' subcode' (select-Chosen second w' nv') r
          s).3,
    )
