-- ===== src/Kernel/Phases/Rolled.antt =====
-- lib20/api_kernel.c: what vb2api_kernel_phase3 stores.
use cbmc_vboot.Prelude.{
  ℕ, ◌<◌, ◌≡◌, ◌⊎◌, inl, inr, refl, ap, true, false, Bool-cases, arith, has_flag,
}
use cbmc_vboot.Context.{Context, vb2_success, context_recovery_mode, status_secdatak_init}
use cbmc_vboot.Secdatak.{versions, store_secdatak, vb2_secdatak_get, vb2_secdatak_set}
use cbmc_vboot.Kernel.Keyblock.{sd_flag_kernel_signed}
use cbmc_vboot.Kernel.Phases.{
  context_allow_kernel_roll_forward, may_roll_kernel, vb2api_kernel_phase3,
}

-- The kernel may raise the stored version.
pub record MayRoll (ctx : Context) : Type 0 where
  pub newer : ctx.sd.kernel_version_secdatak < ctx.sd.kernel_version
  pub signed : has_flag ctx.sd.flags sd_flag_kernel_signed ≡ true
  pub no_recovery : has_flag ctx.flags context_recovery_mode ≡ false
  pub allowed : has_flag ctx.flags context_allow_kernel_roll_forward ≡ true

may_roll_kernel-MayRoll : (ctx : Context) → may_roll_kernel ctx ≡ true → MayRoll ctx
unfolding may_roll_kernel
may_roll_kernel-MayRoll ctx h = record {
  newer = ground (arith, h);
  signed = ground (arith, h);
  no_recovery = ground (arith, h);
  allowed = ground (arith, h);
}

-- A set of the version fails and changes nothing, or the version is stored.
set_version_cases :
    (ctx : Context) (v : ℕ)
    → let r = vb2_secdatak_set ctx versions v in
      (r.0 ≡ ctx) × (0 < r.1) × (has_flag ctx.sd.status status_secdatak_init ≡ false)
      ⊎ (r.1 ≡ vb2_success) × (r.0.secdatak.kernel_versions ≡ v) × (r.0.sd ≡ ctx.sd)
unfolding vb2_secdatak_set vb2_secdatak_get store_secdatak
set_version_cases ctx v = elim (Bool-cases (has_flag ctx.sd.status status_secdatak_init)) [
  | inr raw ↦ inl (ground (arith, raw), ground (arith, raw), raw)
  | inl init ↦ inr (ground (arith, init), ground (arith, init), ground (arith, init))
]

-- Phase 3 changes nothing and succeeds, unless the kernel may raise the stored version: it is newer
-- and signed, in no recovery mode, and the caller allows it. Then the kernel space holds its version,
-- or, if the kernel space was not initialised, phase 3 fails and changes nothing.
pub vb2api_kernel_phase3_lem :
    (ctx : Context)
    → let r = vb2api_kernel_phase3 ctx in
      (r ≡ (ctx, vb2_success)) × (may_roll_kernel ctx ≡ false)
      ⊎ MayRoll ctx
        × ((r.0 ≡ ctx) × (0 < r.1) × (has_flag ctx.sd.status status_secdatak_init ≡ false)
            ⊎ (r.1 ≡ vb2_success)
              × (r.0.secdatak.kernel_versions ≡ ctx.sd.kernel_version)
              × (r.0.sd.kernel_version_secdatak ≡ ctx.sd.kernel_version))
unfolding vb2api_kernel_phase3
vb2api_kernel_phase3_lem ctx =
    let (ctx', rv) = vb2_secdatak_set ctx versions ctx.sd.kernel_version in
    elim (Bool-cases (may_roll_kernel ctx)) [
      | inr stays ↦ inl (rw stays refl, stays)
      | inl rolls ↦ inr (
        may_roll_kernel-MayRoll ctx rolls,
        elim (set_version_cases ctx ctx.sd.kernel_version) [
          | inl (same, failed, raw) ↦
              inl (ground (arith, rolls, same, failed), ground (arith, rolls, failed), raw)
          | inr (fine, stored, same) ↦ inr (
            ground (arith, rolls, fine),
            ground (arith, rolls, fine, stored),
            ground (arith, rolls, fine, ap (λ sd. sd.kernel_version) same),
          )
        ],
      )
    ]
