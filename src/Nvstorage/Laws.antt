-- ===== src/Nvstorage/Laws.antt =====
-- What the non-volatile storage promises to its callers.
use cbmc_vboot.Prelude.{
  ℕ_discrete, ℕ, ◌≡◌, refl, sym, ap, ◌∙◌, ◌≢◌, ◌⊎◌, inl, inr, subst, false, ◌||◌, List, ◌==◌,
  if◌then◌else◌, set, arith, Bool-cases, get_or-set_self, get_or-set_ne,
}
use cbmc_vboot.Crc8.{vb2_crc8}
use cbmc_vboot.Crc8.Errors.{vb2_crc8-lt, vb2_crc8-set_ge}
use cbmc_vboot.Context.{Context, vb2_success}
use cbmc_vboot.Nvstorage.{
  NvParam, firmware_settings_reset, kernel_settings_reset, offs_crc, default_nvdata, read_param,
  write_param, vb2_nv_regen_crc, vb2_nv_check_crc, vb2_nv_init, vb2_nv_get, vb2_nv_set,
}
use cbmc_vboot.Nvstorage.Layout.{same, same_iff, layout_apart}
use cbmc_vboot.Nvstorage.Fields.{stored_value}
use cbmc_vboot.Nvstorage.Fields.Ranges.{IsNv, set-IsNv, write-IsNv, read_in_range, write-signature}
use cbmc_vboot.Nvstorage.Fields.ReadWrite.{owns, read-set_ne, read-write_self, read-write_other}

-- Setting a parameter keeps sixteen bytes.
pub vb2_nv_set-IsNv :
    (ctx : Context) (p : NvParam) (v : ℕ) → IsNv ctx.nvdata → IsNv (vb2_nv_set ctx p v).nvdata
unfolding vb2_nv_set vb2_nv_regen_crc
vb2_nv_set-IsNv ctx p v w = elim (Bool-cases (vb2_nv_get ctx p == v)) [
  | inl e ↦ rw e w
  | inr e ↦ rw e (set-IsNv _ 15 _ (vb2_crc8-lt _ _) (write-IsNv ctx.nvdata p v w))
]

owns-crc : (q : NvParam) → owns q offs_crc ≡ false
owns-crc q = ground (arith, layout_apart q)

-- A call of vb2_nv_set changes nothing, or writes the parameter and the checksum.
set_cases :
    (ctx : Context) (p : NvParam) (v : ℕ)
    → ((vb2_nv_get ctx p ≡ v) × (vb2_nv_set ctx p v ≡ ctx))
      ⊎ ((c : ℕ) × ((vb2_nv_set ctx p v).nvdata ≡ set (write_param ctx.nvdata p v) offs_crc c)
          × (c ≡ vb2_crc8 (write_param ctx.nvdata p v) offs_crc))
unfolding vb2_nv_set vb2_nv_regen_crc
set_cases ctx p v = elim (Bool-cases (vb2_nv_get ctx p == v)) [
  | inl e ↦ inl (ground arith, rw e)
  | inr e ↦ inr (vb2_crc8 (write_param ctx.nvdata p v) offs_crc, rw e, refl)
]

get_self :
    (ctx : Context) (p : NvParam) (v : ℕ)
    → IsNv ctx.nvdata
    → vb2_nv_get (vb2_nv_set ctx p v) p ≡ stored_value p v
unfolding vb2_nv_get
get_self ctx p v w = elim (set_cases ctx p v) [
  | inl (e, same_ctx) ↦
      ap (λ c. read_param c.nvdata p) same_ctx
      ∙ sym (read_in_range ctx.nvdata p w.bytes)
      ∙ ap (stored_value p) e
  | inr (c, e, _) ↦
      ap (λ l. read_param l p) e
      ∙ read-set_ne _ p offs_crc c (owns-crc p)
      ∙ read-write_self ctx.nvdata p v w.sized
]

get_other :
    (ctx : Context) (p q : NvParam) (v : ℕ)
    → IsNv ctx.nvdata
    → same p q ≡ false
    → vb2_nv_get (vb2_nv_set ctx p v) q ≡ vb2_nv_get ctx q
unfolding vb2_nv_get
get_other ctx p q v w h = elim (set_cases ctx p v) [
  | inl (e, same_ctx) ↦ ap (λ c. read_param c.nvdata q) same_ctx
  | inr (c, e, _) ↦
      ap (λ l. read_param l q) e
      ∙ read-set_ne _ q offs_crc c (owns-crc q)
      ∙ read-write_other ctx.nvdata p q v w.sized h
]

-- In storage of sixteen bytes, after a parameter is set it reads as the value, clipped to the
-- parameter's range, and every other parameter reads as before.
pub vb2_nv_get-set :
    (ctx : Context) (p q : NvParam) (v : ℕ)
    → IsNv ctx.nvdata
    → vb2_nv_get (vb2_nv_set ctx p v) q ≡ (if same p q then stored_value p v else vb2_nv_get ctx q)
vb2_nv_get-set ctx p q v w = elim (Bool-cases (same p q)) [
  | inl e ↦ rw e (
      subst (λ r. vb2_nv_get (vb2_nv_set ctx p v) r ≡ stored_value p v) (same_iff p q e)
        (get_self ctx p v w))
  | inr e ↦ rw e (get_other ctx p q v w e)
]

-- Storage that passes its check still passes it after any call of vb2_nv_set.
pub vb2_nv_check_crc-set :
    (ctx : Context) (p : NvParam) (v : ℕ)
    → IsNv ctx.nvdata
    → vb2_nv_check_crc ctx ≡ vb2_success
    → vb2_nv_check_crc (vb2_nv_set ctx p v) ≡ vb2_success
unfolding vb2_nv_check_crc
vb2_nv_check_crc-set ctx p v w h = elim (set_cases ctx p v) [
  | inl (e, same_ctx) ↦ subst (λ c. vb2_nv_check_crc c ≡ vb2_success) (sym same_ctx) h
  | inr (c, e, crc) ↦
      let nv' : List ℕ = write_param ctx.nvdata p v in
      rw e (
        ground (
          arith,
          crc,
          vb2_crc8-set_ge nv' offs_crc offs_crc c,
          get_or-set_self nv' offs_crc c 0,
          (write-IsNv ctx.nvdata p v w).sized,
          get_or-set_ne nv' offs_crc 0 c 0,
          write-signature ctx.nvdata p v,
          w.sized,
        ))
]

-- The default contents with their checksum.
abbrev default_checked : List ℕ
default_checked = set default_nvdata offs_crc 0x20

default_crc : vb2_crc8 default_nvdata offs_crc ≡ 0x20
unfolding vb2_crc8
default_crc = refl

default-IsNv : IsNv default_checked
default-IsNv = omega arith

default_read :
    (p : NvParam)
    → read_param default_checked p
      ≡ (if same p firmware_settings_reset || same p kernel_settings_reset then 1 else 0)
unfolding read_param
default_read firmware_settings_reset = refl
default_read _ = refl

init_good :
    (ctx : Context) → vb2_nv_check_crc ctx ≡ vb2_success → (vb2_nv_init ctx).nvdata ≡ ctx.nvdata
unfolding vb2_nv_init
init_good ctx h = rw h

init_bad :
    (ctx : Context)
    → vb2_nv_check_crc ctx ≢ vb2_success
    → (vb2_nv_init ctx).nvdata ≡ default_checked
unfolding vb2_nv_init vb2_nv_regen_crc
init_bad ctx h = ground (arith, default_crc)

-- The check looks at the bytes only.
check_bytes :
    (ctx ctx' : Context) → ctx'.nvdata ≡ ctx.nvdata → vb2_nv_check_crc ctx' ≡ vb2_nv_check_crc ctx
unfolding vb2_nv_check_crc
check_bytes ctx ctx' e = rw e

default_check : (ctx : Context) → ctx.nvdata ≡ default_checked → vb2_nv_check_crc ctx ≡ vb2_success
unfolding vb2_nv_check_crc vb2_crc8
default_check ctx e = rw e

-- vb2_nv_init leaves sixteen bytes that pass their check, whatever it found. If what it found
-- passed, the bytes stay; otherwise every parameter but the two reset flags reads as zero, and
-- those read as one.
pub vb2_nv_init_lem :
    (ctx : Context) (p : NvParam)
    → IsNv ctx.nvdata
    → let ctx' = vb2_nv_init ctx in
      IsNv ctx'.nvdata
      × (vb2_nv_check_crc ctx' ≡ vb2_success)
      × ((vb2_nv_check_crc ctx ≡ vb2_success) × (ctx'.nvdata ≡ ctx.nvdata)
          ⊎ (vb2_nv_check_crc ctx ≢ vb2_success)
            × (vb2_nv_get ctx' p ≡ (
                if same p firmware_settings_reset || same p kernel_settings_reset then 1 else 0)))
unfolding vb2_nv_get
vb2_nv_init_lem ctx p w = elim (ℕ_discrete (vb2_nv_check_crc ctx) vb2_success) [
  | yes good ↦ (
    subst IsNv (sym (init_good ctx good)) w,
    check_bytes ctx (vb2_nv_init ctx) (init_good ctx good) ∙ good,
    inl (good, init_good ctx good),
  )
  | no bad ↦ (
    subst IsNv (sym (init_bad ctx bad)) default-IsNv,
    default_check (vb2_nv_init ctx) (init_bad ctx bad),
    inr (bad, ap (λ l. read_param l p) (init_bad ctx bad) ∙ default_read p),
  )
]
