-- ===== src/Boot/Trial.antt =====
-- A slot on trial, over any number of boots.
use cbmc_vboot.Prelude.{
  ltb, ℕ, zero, suc, ◌-◌, ◌≤◌, ◌≡◌, sym, ap, ◌∙◌, false, subst, if◌then◌else◌, arith, has_flag,
}
use cbmc_vboot.Context.{Context, context_nofail_boot}
use cbmc_vboot.Nvstorage.{vb2_nv_get}
use cbmc_vboot.Nvstorage.Fields.Ranges.{IsNv}
use cbmc_vboot.Boot.{result_trying, vb2_select_fw_slot}
use cbmc_vboot.Boot.Slot.{Tries, view, select, vb2_select_fw_slot-refines}

-- Boots in a row, each with the storage that the choice of the slot before it left: no boot told
-- of a success or a failure, and none was optimistic.
pub record Unattended (boot : ℕ → Context) : Type 0 where
  pub bytes : IsNv (boot 0).nvdata
  pub kept : (k : ℕ) → (boot (suc k)).nvdata ≡ (vb2_select_fw_slot (boot k)).0.nvdata
  pub counted : (k : ℕ) → has_flag (boot k).flags context_nofail_boot ≡ false

view-nvdata : (ctx ctx' : Context) → ctx.nvdata ≡ ctx'.nvdata → view ctx ≡ view ctx'
unfolding vb2_nv_get
view-nvdata ctx ctx' e = rw e

module _ {boot : ℕ → Context} (u : Unattended boot) where
  boot-IsNv : (k : ℕ) → IsNv (boot k).nvdata
  boot-IsNv zero = u.bytes
  boot-IsNv (suc k) =
      subst IsNv (sym (u.kept k)) (vb2_select_fw_slot-refines (boot k) (boot-IsNv k)).4

  -- One boot follows the specification.
  next_view : (k : ℕ) → view (boot (suc k)) ≡ select false (view (boot k))
  next_view k =
      view-nvdata (boot (suc k)) (vb2_select_fw_slot (boot k)).0 (u.kept k)
      ∙ (vb2_select_fw_slot-refines (boot k) (boot-IsNv k)).0
      ∙ ap (λ b. select b (view (boot k))) (u.counted k)

  -- After the first of `n` tries: the tries left, all of one slot.
  on_trial :
      (n k : ℕ)
      → (view (boot 0)).count ≡ n
      → suc k ≤ n
      → let t = view (boot (suc k)) in
        (t.next ≡ (view (boot 0)).next)
        × (t.tried ≡ (view (boot 0)).next)
        × (t.result ≡ result_trying)
        × (t.count ≡ n - suc k)
  on_trial n zero e h =
      let step = next_view 0 in
      ground (
        arith,
        ap (λ (t : Tries). t.next) step,
        ap (λ (t : Tries). t.tried) step,
        ap (λ (t : Tries). t.result) step,
        ap (λ (t : Tries). t.count) step,
      )
  on_trial n (suc k) e h =
      let step = next_view (suc k) in
      ground (
        arith,
        on_trial n k e,
        ap (λ (t : Tries). t.next) step,
        ap (λ (t : Tries). t.tried) step,
        ap (λ (t : Tries). t.result) step,
        ap (λ (t : Tries). t.count) step,
      )

-- A slot that is given `n` tries, at least one, and never reports, is booted exactly `n` times in a
-- row; the boot after that is of the other slot.
pub vb2_select_fw_slot-trial :
    (boot : ℕ → Context) (n k : ℕ)
    → Unattended boot
    → (view (boot 0)).count ≡ suc n
    → k ≤ suc n
    → (vb2_select_fw_slot (boot k)).0.sd.fw_slot
      ≡ (if ltb k (suc n) then (view (boot 0)).next else 1 - (view (boot 0)).next)
vb2_select_fw_slot-trial boot n zero u e h =
    (vb2_select_fw_slot-refines (boot 0) (boot-IsNv u 0)).1 ∙ ground (arith, e)
vb2_select_fw_slot-trial boot n (suc k) u e h =
    (vb2_select_fw_slot-refines (boot (suc k)) (boot-IsNv u (suc k))).1
    ∙ ground (arith, on_trial u (suc n) k e h)
