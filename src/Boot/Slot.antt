-- ===== src/Boot/Slot.antt =====
-- The choice of the slot against an abstract view of the six parameters that it turns on.
use cbmc_vboot.Prelude.{
  ℕ, ◌-◌, ◌≤◌, ◌≡◌, refl, sym, subst₂, ap, ◌∙◌, inl, inr, Bool, ◌&&◌, List, [], ◌∷◌, ltb, ◌==◌,
  if◌then◌else◌, Bool-cases, arith, has_flag, truthy,
}
use cbmc_vboot.Prelude.Bits.{and-le}
use cbmc_vboot.Context.{Context, SharedData, vb2_success, context_nofail_boot}
use cbmc_vboot.Nvstorage.{
  NvParam, try_next, try_count, fw_tried, fw_result, fw_prev_tried, fw_prev_result, vb2_nv_get,
  vb2_nv_set, byte_at, read_param,
}
use cbmc_vboot.Nvstorage.Fields.Ranges.{IsNv}
use cbmc_vboot.Nvstorage.Writes.{writes, value_after, get-writes, writes-IsNv, writes-Untouched}
use cbmc_vboot.Boot.{
  result_unknown, result_trying, other_slot, save_result, fall_back, use_try, store_slot,
  vb2_select_fw_slot, set_fw_slot,
}

-- What the storage says about the two slots.
pub record Tries : Type 0 where
  pub next : ℕ
  pub count : ℕ
  pub tried : ℕ
  pub result : ℕ
  pub prev_tried : ℕ
  pub prev_result : ℕ

abbrev pub view : Context → Tries
view ctx = record {
  next = vb2_nv_get ctx try_next;
  count = vb2_nv_get ctx try_count;
  tried = vb2_nv_get ctx fw_tried;
  result = vb2_nv_get ctx fw_result;
  prev_tried = vb2_nv_get ctx fw_prev_tried;
  prev_result = vb2_nv_get ctx fw_prev_result;
}

-- The slot to boot: the one requested, or the other if its last try was used up.
abbrev pub slot_of : Tries → ℕ
slot_of t =
    if (t.result == result_trying) && (t.tried == t.next) && (t.count == 0)
    then 1 - t.next
    else t.next

-- The specification of one boot.
abbrev pub select : Bool → Tries → Tries
select nofail t = record {
  next = slot_of t;
  count = if nofail then t.count else t.count - 1;
  tried = slot_of t;
  result = if ltb 0 t.count then result_trying else result_unknown;
  prev_tried = t.tried;
  prev_result = t.result;
}

-- The ranges of the parameters.
pub record InRange (t : Tries) : Type 0 where
  pub next_slot : t.next ≤ 1
  pub few : t.count ≤ 15
  pub tried_slot : t.tried ≤ 1
  pub known : t.result ≤ 3

pub view-InRange : (ctx : Context) → InRange (view ctx)
unfolding vb2_nv_get read_param
view-InRange ctx = ground (arith, and-le (byte_at ctx.nvdata 1) 15, and-le (byte_at ctx.nvdata 7) 3)

view_after : List (NvParam × ℕ) → Tries → Tries
view_after ws t = record {
  next = value_after ws try_next t.next;
  count = value_after ws try_count t.count;
  tried = value_after ws fw_tried t.tried;
  result = value_after ws fw_result t.result;
  prev_tried = value_after ws fw_prev_tried t.prev_tried;
  prev_result = value_after ws fw_prev_result t.prev_result;
}

view-writes :
    (ctx : Context) (ws : List (NvParam × ℕ))
    → IsNv ctx.nvdata
    → view (writes ctx ws) ≡ view_after ws (view ctx)
unfolding view_after
view-writes ctx ws w = λ i. record {
  next = get-writes ctx ws try_next w i;
  count = get-writes ctx ws try_count w i;
  tried = get-writes ctx ws fw_tried w i;
  result = get-writes ctx ws fw_result w i;
  prev_tried = get-writes ctx ws fw_prev_tried w i;
  prev_result = get-writes ctx ws fw_prev_result w i;
}

-- What is known between two stages of vb2_select_fw_slot.
record Known (nofail : Bool) (t : Tries) (slot last_slot last_result : ℕ) (ctx : Context)
    : Type 0 where
  bytes : IsNv ctx.nvdata
  viewed : view ctx ≡ t
  slot_is : ctx.sd.fw_slot ≡ slot
  last_slot_is : ctx.sd.last_fw_slot ≡ last_slot
  last_result_is : ctx.sd.last_fw_result ≡ last_result
  flag_is : has_flag ctx.flags context_nofail_boot ≡ nofail

module _ {nofail : Bool} {t : Tries} {s ls lr : ℕ} {ctx : Context}
    (k : Known nofail t s ls lr ctx) where
  writes-Known : (ws : List (NvParam × ℕ)) → Known nofail (view_after ws t) s ls lr (writes ctx ws)
  writes-Known ws =
      let still = writes-Untouched ctx ws in
      record {
        bytes = writes-IsNv ctx ws k.bytes;
        viewed = view-writes ctx ws k.bytes ∙ ap (view_after ws) k.viewed;
        slot_is = ap (λ (d : SharedData). d.fw_slot) still.same_sd ∙ k.slot_is;
        last_slot_is = ap (λ (d : SharedData). d.last_fw_slot) still.same_sd ∙ k.last_slot_is;
        last_result_is = ap (λ (d : SharedData). d.last_fw_result) still.same_sd ∙ k.last_result_is;
        flag_is = ap truthy (still.same_flags context_nofail_boot refl) ∙ k.flag_is;
      }

  set_fw_slot-Known : (v : ℕ) → Known nofail t v ls lr (set_fw_slot ctx v)
  unfolding set_fw_slot vb2_nv_get
  set_fw_slot-Known v = record {
    bytes = k.bytes;
    viewed = k.viewed;
    slot_is = refl;
    last_slot_is = k.last_slot_is;
    last_result_is = k.last_result_is;
    flag_is = k.flag_is;
  }

-- The same knowledge with the tries and the slot written another way.
as-Known :
    {nofail : Bool} {t u : Tries} {s r ls lr : ℕ} {ctx : Context}
    → Known nofail t s ls lr ctx
    → t ≡ u
    → s ≡ r
    → Known nofail u r ls lr ctx
as-Known {nofail} {ls = ls} {lr = lr} {ctx = ctx} k e f =
    subst₂ (λ t s. Known nofail t s ls lr ctx) e f k

save_result-Known :
    (ctx : Context)
    → IsNv ctx.nvdata
    → Known
        (has_flag ctx.flags context_nofail_boot)
        (record (view ctx) {
          result = result_unknown;
          prev_tried = vb2_nv_get ctx fw_tried;
          prev_result = vb2_nv_get ctx fw_result;
        })
        ctx.sd.fw_slot
        (vb2_nv_get ctx fw_tried)
        (vb2_nv_get ctx fw_result)
        (save_result ctx)
unfolding save_result view_after
save_result-Known ctx w =
    as-Known
      (writes-Known noted
        ((fw_prev_tried, slot) ∷ (fw_prev_result, result) ∷ (fw_result, result_unknown) ∷ []))
      (ground (arith, view-InRange ctx)) refl
  where
    slot : ℕ
    slot = vb2_nv_get ctx fw_tried

    result : ℕ
    result = vb2_nv_get ctx fw_result

    noted :
        Known
          (has_flag ctx.flags context_nofail_boot)
          (view ctx)
          ctx.sd.fw_slot
          slot
          result
          (record ctx { sd = record ctx.sd { last_fw_slot = slot; last_fw_result = result } })
    noted = record {
      bytes = w;
      viewed = unfold vb2_nv_get in refl;
      slot_is = refl;
      last_slot_is = refl;
      last_result_is = refl;
      flag_is = refl;
    }

abbrev pub used_up : ℕ → ℕ → ℕ → ℕ → Bool
used_up lr ls slot tries = (lr == result_trying) && (ls == slot) && (tries == 0)

fall_back-Known :
    {nofail : Bool} {t : Tries} {s ls lr : ℕ} {ctx : Context} (tries : ℕ)
    → Known nofail t s ls lr ctx
    → s ≤ 1
    → t.next ≡ s
    → let slot = if used_up lr ls s tries then 1 - s else s in
      Known nofail (record t { next = slot }) slot ls lr (fall_back ctx tries)
unfolding fall_back view_after
fall_back-Known {t = t} {s = s} {ls = ls} {lr = lr} {ctx = ctx} tries k small e =
    elim (Bool-cases (used_up lr ls s tries)) [
      | inl yes_used ↦
          rw (yes_used, code ∙ yes_used)
            (as-Known (writes-Known (set_fw_slot-Known k other) ((try_next, other) ∷ []))
              (ground (arith, flip)) flip)
      | inr not_used ↦ rw (not_used, code ∙ not_used) (as-Known k (ground (arith, e)) refl)
    ]
  where
    other : ℕ
    other = other_slot ctx.sd.fw_slot

    flip : other ≡ 1 - s
    flip = omega (arith, k.slot_is)

    code :
        used_up ctx.sd.last_fw_result ctx.sd.last_fw_slot ctx.sd.fw_slot tries
        ≡ used_up lr ls s tries
    code = rw (k.last_result_is, k.last_slot_is, k.slot_is)

use_try-Known :
    {nofail : Bool} {t : Tries} {s ls lr : ℕ} {ctx : Context} (tries : ℕ)
    → Known nofail t s ls lr ctx
    → tries ≡ t.count
    → tries ≤ 15
    → t.result ≡ result_unknown
    → Known nofail
        (record t {
          count = if nofail then t.count else t.count - 1;
          result = if ltb 0 t.count then result_trying else result_unknown;
        })
        s
        ls
        lr
        (use_try ctx tries)
unfolding use_try view_after
use_try-Known {nofail} {t} {s} {ls} {lr} {ctx} tries k e small fresh =
    elim (Bool-cases (ltb 0 tries)) [
      | inr spent ↦ rw spent (as-Known k (ground arith) refl)
      | inl left ↦ elim (Bool-cases nofail) [
        | inl keep ↦ rw (left, trying.flag_is ∙ keep) (as-Known trying (ground arith) refl)
        | inr count ↦
            rw (left, trying.flag_is ∙ count)
              (as-Known (writes-Known k ((fw_result, result_trying) ∷ (try_count, tries - 1) ∷ []))
                (ground arith) refl)
      ]
    ]
  where
    trying :
        Known nofail
          (view_after ((fw_result, result_trying) ∷ []) t)
          s
          ls
          lr
          (vb2_nv_set ctx fw_result result_trying)
    trying = writes-Known k ((fw_result, result_trying) ∷ [])

-- What vb2_select_fw_slot returns holds in the context that it stores.
store_slot-Known :
    {nofail : Bool} {t : Tries} {s ls lr : ℕ} {ctx : Context}
    → Known nofail t s ls lr ctx
    → s ≤ 1
    → let ctx' = (store_slot ctx).0 in
      IsNv ctx'.nvdata
      × (view ctx' ≡ record t { tried = s })
      × (ctx'.sd.fw_slot ≡ s)
      × (ctx'.sd.last_fw_slot ≡ ls)
      × (ctx'.sd.last_fw_result ≡ lr)
unfolding store_slot view_after vb2_nv_get
store_slot-Known {s = s} {ctx = ctx} k small =
    let stored = writes-Known k ((fw_tried, ctx.sd.fw_slot) ∷ []) in
    ground (
      arith, k.slot_is, stored.bytes, stored.viewed, stored.slot_is, stored.last_slot_is,
      stored.last_result_is,
    )

-- vb2_select_fw_slot does to the storage what the specification says, chooses its slot, tells the
-- shared data the result of the last boot, and succeeds.
pub vb2_select_fw_slot-refines :
    (ctx : Context)
    → IsNv ctx.nvdata
    → let (ctx', code) = vb2_select_fw_slot ctx in
      (view ctx' ≡ select (has_flag ctx.flags context_nofail_boot) (view ctx))
      × (ctx'.sd.fw_slot ≡ slot_of (view ctx))
      × (ctx'.sd.last_fw_slot ≡ (view ctx).tried)
      × (ctx'.sd.last_fw_result ≡ (view ctx).result)
      × IsNv ctx'.nvdata
      × (code ≡ vb2_success)
unfolding vb2_select_fw_slot
vb2_select_fw_slot-refines ctx w =
    let ranges = view-InRange ctx in
    let saved = save_result-Known ctx w in
    let next : ℕ = vb2_nv_get (save_result ctx) try_next in
    let next_is : next ≡ vb2_nv_get ctx try_next = ap (λ (t : Tries). t.next) saved.viewed in
    let chosen = set_fw_slot-Known saved next in
    let tries : ℕ = vb2_nv_get (set_fw_slot (save_result ctx) next) try_count in
    let tries_is : tries ≡ vb2_nv_get ctx try_count = ap (λ (t : Tries). t.count) chosen.viewed in
    let fell =
      fall_back-Known tries chosen (omega (arith, next_is, ranges.next_slot)) (sym next_is) in
    let used = use_try-Known tries fell tries_is (omega (arith, tries_is, ranges.few)) refl in
    let (bytes, viewed, slot_is, last_slot_is, last_result_is) =
      store_slot-Known used (ground (arith, next_is, ranges.next_slot)) in
    (
      viewed ∙ ground (arith, next_is, tries_is),
      slot_is ∙ ground (arith, next_is, tries_is),
      last_slot_is,
      last_result_is,
      bytes,
      unfold store_slot in refl,
    )
