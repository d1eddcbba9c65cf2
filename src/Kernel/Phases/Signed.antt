-- ===== src/Kernel/Phases/Signed.antt =====
-- lib20/api_kernel.c: the kernels that vb2api_load_kernel_vblock accepts, and the version that
-- vb2api_kernel_phase3 stores after it.
use cbmc_vboot.Prelude.{
  ℕ, ◌+◌, ◌*◌, ◌%◌, ◌^◌, ◌≤◌, ◌<◌, ◌≡◌, ◌⊎◌, inl, inr, refl, ap, sym, subst, ◌∙◌, true, false,
  truthy, bit_or, Bool-cases, arith, has_flag,
}
use cbmc_vboot.Prelude.Bits.{or_shift}
use cbmc_vboot.Prelude.Masks.{or_comm}
use cbmc_vboot.Context.{Context, vb2_success, context_recovery_mode}
use cbmc_vboot.Nvstorage.{vb2_nv_get}
use cbmc_vboot.Keys.{Keyblock, keyblock_at}
use cbmc_vboot.Keys.Verify.{Crypto}
use cbmc_vboot.Keys.Block.{vb2_verify_keyblock}
use cbmc_vboot.Firmware.{Machine, ReadResource}
use cbmc_vboot.Kernel.{vb2_need_signed_kernel}
use cbmc_vboot.Kernel.Keyblock.{sd_flag_kernel_signed, clear_signed, vb2_load_kernel_keyblock}
use cbmc_vboot.Kernel.Keyblock.Signed.{FitsMode, SignedKeyblock, vb2_load_kernel_keyblock-Signed}
use cbmc_vboot.Kernel.Preamble.{kernel_preamble_at, vb2_load_kernel_preamble}
use cbmc_vboot.Kernel.Preamble.Loaded.{LoadedPreamble, vb2_load_kernel_preamble-Loaded}
use cbmc_vboot.Kernel.Phases.{vb2api_load_kernel_vblock, vb2api_kernel_phase3}
use cbmc_vboot.Kernel.Phases.Rolled.{vb2api_kernel_phase3_lem}

-- The keyblock that was checked.
abbrev pub keyblock_of :
    {Digest : Type 0} {crypto : Crypto Digest} {read : ReadResource} {s s' : Machine}
    → SignedKeyblock crypto read s s'
    → Keyblock
keyblock_of a = keyblock_at a.keyblock.checked a.keyblock.kb

-- The keyblock is signed with the kernel key and fits the mode.
pub record Trusted {Digest : Type 0} (crypto : Crypto Digest) (read : ReadResource) (s s' : Machine)
    (a : SignedKeyblock crypto read s s') : Type 0 where
  pub signed :
      (vb2_verify_keyblock crypto a.keyblock.memory a.keyblock.kb a.keyblock.block_size a.kernel_key
        a.keyblock.wb).1
      ≡ vb2_success
  pub fits : FitsMode (clear_signed s.ctx) (keyblock_of a)

-- The machine between the two loads is the one after the keyblock's.
pub record LoadedKernel {Digest : Type 0} (crypto : Crypto Digest) (read : ReadResource)
    (s s' : Machine) : Type 0 where
  pub keyblock : SignedKeyblock crypto read s (vb2_load_kernel_keyblock crypto read s).0
  pub preamble : LoadedPreamble crypto read (vb2_load_kernel_keyblock crypto read s).0 s'
  pub trusted :
      has_flag s'.ctx.sd.flags sd_flag_kernel_signed ≡ true
      → Trusted crypto read s (vb2_load_kernel_keyblock crypto read s).0 keyblock
  pub needed :
      vb2_need_signed_kernel s.ctx ≡ true
      → (has_flag s'.ctx.sd.flags sd_flag_kernel_signed ≡ true)
        × (s.ctx.sd.kernel_version_secdatak ≤ s'.ctx.sd.kernel_version)
  pub version :
      has_flag s'.ctx.sd.flags sd_flag_kernel_signed ≡ true
      → has_flag s.ctx.flags context_recovery_mode ≡ false
      → s'.ctx.sd.kernel_version
        ≡ (keyblock_of keyblock).data_key.key_version * 2 ^ 16
          + (kernel_preamble_at s'.memory preamble.preamble.pre).kernel_version
  pub same_stored : s'.ctx.sd.kernel_version_secdatak ≡ s.ctx.sd.kernel_version_secdatak
  pub same_flags : s'.ctx.flags ≡ s.ctx.flags
  pub same_secdatak : s'.ctx.secdatak ≡ s.ctx.secdatak

side_by_side :
    (key kernel : ℕ)
    → key ≤ 0xffff
    → kernel ≤ 0xffff
    → bit_or (key * 2 ^ 16 % 2 ^ 32) kernel ≡ key * 2 ^ 16 + kernel
side_by_side key kernel k h =
    let whole : key * 2 ^ 16 % 2 ^ 32 ≡ key * 2 ^ 16 = omega arith in
    ap (λ x. bit_or x kernel) whole
    ∙ or_comm (key * 2 ^ 16) kernel
    ∙ omega (arith, or_shift 16 kernel key (omega arith))

loads :
    {Digest : Type 0} (crypto : Crypto Digest) (read : ReadResource) (s : Machine)
    → let r = vb2api_load_kernel_vblock crypto read s in
      let keyblock = vb2_load_kernel_keyblock crypto read s in
      let preamble = vb2_load_kernel_preamble crypto read keyblock.0 in
      r.1 ≡ vb2_success
      → (keyblock.1 ≡ vb2_success) × (preamble.1 ≡ vb2_success) × (r.0 ≡ preamble.0)
unfolding vb2api_load_kernel_vblock
loads crypto read s h =
    let (m, rv) = vb2_load_kernel_keyblock crypto read s in
    elim (Bool-cases (truthy rv)) [
      | inl bad ↦ absurd (ground (arith, h, bad))
      | inr fine ↦ (ground (arith, fine), ground (arith, h, fine), rw fine refl)
    ]

-- Where a signed kernel is needed depends on the modes and the settings.
need-same :
    (ctx ctx' : Context)
    → ctx'.flags ≡ ctx.flags
    → ctx'.nvdata ≡ ctx.nvdata
    → vb2_need_signed_kernel ctx' ≡ vb2_need_signed_kernel ctx
unfolding vb2_need_signed_kernel vb2_nv_get
need-same ctx ctx' f n = rw (f, n) refl

need-cleared :
    (ctx : Context) → vb2_need_signed_kernel (clear_signed ctx) ≡ vb2_need_signed_kernel ctx
unfolding vb2_need_signed_kernel vb2_nv_get clear_signed
need-cleared ctx = refl

-- If vb2api_load_kernel_vblock succeeds, the keyblock was checked with the kernel key and the
-- preamble verified with the key in the work buffer, as those loads promise. If the kernel is
-- marked as signed, the keyblock's signature is good and it fits the mode, and outside recovery
-- mode kernel_version is the key's version and the kernel's side by side, 16 bits each. Where a
-- signed kernel is needed it is marked, and its version is not below the stored version. The stored
-- version, the modes and the kernel space are as before.
pub vb2api_load_kernel_vblock-LoadedKernel :
    {Digest : Type 0} (crypto : Crypto Digest) (read : ReadResource) (s : Machine)
    → let r = vb2api_load_kernel_vblock crypto read s in
      r.1 ≡ vb2_success → LoadedKernel crypto read s r.0
unfolding clear_signed
vb2api_load_kernel_vblock-LoadedKernel crypto read s h =
    let (first, second, end) = loads crypto read s h in
    let keyblock = vb2_load_kernel_keyblock-Signed crypto read s first in
    let s1 = (vb2_load_kernel_keyblock crypto read s).0 in
    let preamble = vb2_load_kernel_preamble-Loaded crypto read s1 second in
    let key = keyblock.keyblock in
    let new = preamble.preamble.new in
    let mark = ap (λ f. has_flag f sd_flag_kernel_signed) new.same_mark in
    let need = need-same (clear_signed s.ctx) s1.ctx key.noted.same_flags key.noted.same_nvdata in
    subst (λ (m : Machine). LoadedKernel crypto read s m) (sym end)
      (record {
        keyblock = keyblock;
        preamble = preamble;
        trusted = λ e.
            let (signed, fits) = key.marked.0 (sym mark ∙ e) in
            record { signed = signed; fits = fits };
        needed = λ n. (
          mark ∙ key.needed (need-cleared s.ctx ∙ n),
          omega (arith, new.not_older (need ∙ need-cleared s.ctx ∙ n), key.noted.same_stored),
        );
        version = λ e no_recovery.
            let fits = (key.marked.0 (sym mark ∙ e)).1 in
            new.combined
            ∙ ap
                (λ v.
                  bit_or v
                    (kernel_preamble_at (vb2_load_kernel_preamble crypto read s1).0.memory
                      preamble.preamble.pre).kernel_version)
                key.noted.version
            ∙ side_by_side (keyblock_of keyblock).data_key.key_version
                (kernel_preamble_at (vb2_load_kernel_preamble crypto read s1).0.memory
                  preamble.preamble.pre).kernel_version
                (fits.range no_recovery) new.range;
        same_stored = new.same_stored ∙ key.noted.same_stored;
        same_flags = new.same_flags ∙ key.noted.same_flags;
        same_secdatak = new.same_secdatak ∙ key.noted.same_secdatak;
      })

-- After a successful vb2api_load_kernel_vblock, phase 3 leaves the kernel space as it was before the
-- load, or the kernel is signed with the kernel key and fits the mode, the mode is not recovery mode,
-- and the kernel space holds its key's and its own version side by side, which is newer than the
-- stored version was.
pub vb2api_kernel_phase3-Trusted :
    {Digest : Type 0} (crypto : Crypto Digest) (read : ReadResource) (s : Machine)
    → let r = vb2api_load_kernel_vblock crypto read s in
      let end = vb2api_kernel_phase3 r.0.ctx in
      r.1 ≡ vb2_success
      → (end.0.secdatak ≡ s.ctx.secdatak)
        ⊎ ((a : LoadedKernel crypto read s r.0) × Trusted crypto read s
              (vb2_load_kernel_keyblock crypto read s).0
              a.keyblock
            × (has_flag s.ctx.flags context_recovery_mode ≡ false)
            × (end.0.secdatak.kernel_versions
                ≡ (keyblock_of a.keyblock).data_key.key_version * 2 ^ 16
                  + (kernel_preamble_at r.0.memory a.preamble.preamble.pre).kernel_version)
            × (s.ctx.sd.kernel_version_secdatak < end.0.secdatak.kernel_versions))
vb2api_kernel_phase3-Trusted crypto read s h =
    let a = vb2api_load_kernel_vblock-LoadedKernel crypto read s h in
    let ctx = (vb2api_load_kernel_vblock crypto read s).0.ctx in
    let kept = a.same_secdatak in
    elim (vb2api_kernel_phase3_lem ctx) [
      | inl (same, stays) ↦ inl (ap (λ (r : Context × ℕ). r.0.secdatak) same ∙ kept)
      | inr (may, inl (same, failed, raw)) ↦ inl (ap (λ (c : Context). c.secdatak) same ∙ kept)
      | inr (may, inr (fine, stored, noted)) ↦
          let no_recovery =
            ap (λ f. has_flag f context_recovery_mode) (sym a.same_flags) ∙ may.no_recovery in
          inr (
            a,
            a.trusted may.signed,
            no_recovery,
            stored ∙ a.version may.signed no_recovery,
            omega (arith, stored, may.newer, a.same_stored),
          )
    ]
