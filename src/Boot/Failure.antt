-- ===== src/Boot/Failure.antt =====
-- What a failed boot leaves to the next one.
use cbmc_vboot.Prelude.{
  ℕ, ◌-◌, ◌≤◌, ◌<◌, ◌≡◌, sym, subst, ap, ◌∙◌, Bool, true, not, ◌&&◌, List, [], ◌∷◌, ◌==◌,
  if◌then◌else◌, arith, has_flag, truthy,
}
use cbmc_vboot.Context.{Context, SharedData, status_nv_init, status_chose_slot}
use cbmc_vboot.Nvstorage.{
  NvParam, try_next, try_count, fw_result, recovery_request, recovery_subcode, vb2_nv_get,
}
use cbmc_vboot.Nvstorage.Fields.Ranges.{IsNv}
use cbmc_vboot.Nvstorage.Writes.{writes, value_after, get-writes, writes-IsNv, writes-Untouched}
use cbmc_vboot.Boot.{result_failure, other_slot, request_recovery, give_up_slot, vb2_fail}

-- The other slot failed on the boot before.
abbrev pub both_failed : Context → Bool
both_failed ctx =
    (ctx.sd.last_fw_slot == 1 - ctx.sd.fw_slot) && (ctx.sd.last_fw_result == result_failure)

request_recovery_lem :
    (ctx : Context) (reason subcode : ℕ) (q : NvParam)
    → IsNv ctx.nvdata
    → vb2_nv_get (request_recovery ctx reason subcode) q ≡ (
        if truthy (vb2_nv_get ctx recovery_request)
        then vb2_nv_get ctx q
        else vb2_nv_get
            (writes ctx ((recovery_request, reason) ∷ (recovery_subcode, subcode) ∷ []))
            q)
unfolding request_recovery
request_recovery_lem ctx reason subcode q w = ground arith

abbrev pub given_up : Context → List (NvParam × ℕ)
given_up ctx =
    (fw_result, result_failure) ∷ (try_count, 0) ∷ (try_next, other_slot ctx.sd.fw_slot) ∷ []

vb2_fail_cases :
    (ctx : Context) (reason subcode : ℕ)
    → has_flag ctx.sd.status status_nv_init ≡ true
    → has_flag ctx.sd.status status_chose_slot ≡ true
    → ctx.sd.fw_slot ≤ 1
    → vb2_fail ctx reason subcode ≡ (
        if both_failed ctx
        then request_recovery (writes ctx (given_up ctx)) reason subcode
        else writes ctx (given_up ctx))
unfolding vb2_fail give_up_slot
vb2_fail_cases ctx reason subcode nv chose small =
    let kept = (writes-Untouched ctx (given_up ctx)).same_sd in
    ground (
      arith,
      nv,
      chose,
      ap (λ (d : SharedData). d.fw_slot) kept,
      ap (λ (d : SharedData). d.last_fw_slot) kept,
      ap (λ (d : SharedData). d.last_fw_result) kept,
    )

abbrev pub requested : ℕ → ℕ → List (NvParam × ℕ)
requested reason subcode = (recovery_request, reason) ∷ (recovery_subcode, subcode) ∷ []

-- The conditions under which a failure concerns a slot.
pub record Chosen (ctx : Context) : Type 0 where
  pub bytes : IsNv ctx.nvdata
  pub nv_ready : has_flag ctx.sd.status status_nv_init ≡ true
  pub slot_ready : has_flag ctx.sd.status status_chose_slot ≡ true
  pub slot_small : ctx.sd.fw_slot ≤ 1

pub fail_get :
    (ctx : Context) (reason subcode : ℕ) (q : NvParam)
    → Chosen ctx
    → vb2_nv_get (vb2_fail ctx reason subcode) q ≡ (
        let gave_up = value_after (given_up ctx) q (vb2_nv_get ctx q) in
        if both_failed ctx && not (truthy (vb2_nv_get ctx recovery_request))
        then value_after (requested reason subcode) q gave_up
        else gave_up)
fail_get ctx reason subcode q c =
    let w = writes-IsNv ctx (given_up ctx) c.bytes in
    ap (λ k. vb2_nv_get k q)
      (vb2_fail_cases ctx reason subcode c.nv_ready c.slot_ready c.slot_small)
    ∙ ground (
      arith,
      request_recovery_lem (writes ctx (given_up ctx)) reason subcode q w,
      get-writes ctx (given_up ctx) q c.bytes,
      get-writes ctx (given_up ctx) recovery_request c.bytes,
      get-writes (writes ctx (given_up ctx)) (requested reason subcode) q w,
    )

pub fail-IsNv :
    (ctx : Context) (reason subcode : ℕ) → Chosen ctx → IsNv (vb2_fail ctx reason subcode).nvdata
unfolding request_recovery
fail-IsNv ctx reason subcode c =
    let gave_up : Context = writes ctx (given_up ctx) in
    let w = writes-IsNv ctx (given_up ctx) c.bytes in
    subst (λ (k : Context). IsNv k.nvdata)
      (sym (vb2_fail_cases ctx reason subcode c.nv_ready c.slot_ready c.slot_small))
      (ground (arith, w, writes-IsNv gave_up (requested reason subcode) w))

-- After a failure with a slot chosen, the result is recorded, the tries are used up and the other
-- slot is next. Recovery is requested, with the reason and subcode given, exactly if the other slot
-- failed on the boot before and no recovery was requested yet; otherwise the request is unchanged.
pub vb2_fail_lem :
    (ctx : Context) (reason subcode : ℕ)
    → Chosen ctx
    → reason < 256
    → subcode < 256
    → let ctx' = vb2_fail ctx reason subcode in
      let asks = both_failed ctx && not (truthy (vb2_nv_get ctx recovery_request)) in
      (vb2_nv_get ctx' fw_result ≡ result_failure)
      × (vb2_nv_get ctx' try_count ≡ 0)
      × (vb2_nv_get ctx' try_next ≡ 1 - ctx.sd.fw_slot)
      × (vb2_nv_get ctx' recovery_request
          ≡ (if asks then reason else vb2_nv_get ctx recovery_request))
      × (vb2_nv_get ctx' recovery_subcode
          ≡ (if asks then subcode else vb2_nv_get ctx recovery_subcode))
      × IsNv ctx'.nvdata
vb2_fail_lem ctx reason subcode c r s = (
  fail_get ctx reason subcode fw_result c ∙ ground arith,
  fail_get ctx reason subcode try_count c ∙ ground arith,
  fail_get ctx reason subcode try_next c ∙ ground (arith, c.slot_small),
  fail_get ctx reason subcode recovery_request c ∙ ground arith,
  fail_get ctx reason subcode recovery_subcode c ∙ ground arith,
  fail-IsNv ctx reason subcode c,
)
