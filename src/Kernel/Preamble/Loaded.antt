-- ===== src/Kernel/Preamble/Loaded.antt =====
-- lib20/kernel.c: the kernel preambles that vb2_load_kernel_preamble accepts.
use cbmc_vboot.Prelude.{
  ℕ, ◌≤◌, ◌≡◌, inl, inr, refl, ap, sym, subst, ◌∙◌, true, ◌&&◌, truthy, ltb, Bool-cases, arith,
  bit_or, Option, some, none, Result, ok, err,
}
use cbmc_vboot.Context.{Context, vb2_success}
use cbmc_vboot.Common.{Workbuf, add64, vb2_workbuf_alloc, vb2_workbuf_realloc}
use cbmc_vboot.Nvstorage.{vb2_nv_get}
use cbmc_vboot.Keys.{Memory}
use cbmc_vboot.Keys.Unpack.{PublicKey, vb2_unpack_key}
use cbmc_vboot.Keys.Verify.{Crypto}
use cbmc_vboot.Firmware.{Machine, kernel_vblock, ReadResource, vb2_workbuf_from_ctx}
use cbmc_vboot.Firmware.Reads.{after_read}
use cbmc_vboot.Firmware.Preamble.Reached.{unpack_fails}
use cbmc_vboot.Kernel.{vb2_need_signed_kernel}
use cbmc_vboot.Kernel.Preamble.{
  kernel_preamble_at, sizeof_kernel_preamble, vb2_verify_kernel_preamble, combine_kernel_version,
  keep_kernel_preamble, accept_kernel_preamble, verify_preamble_of, read_kernel_preamble,
  read_kernel_preamble_header, with_kernel_data_key, vb2_load_kernel_preamble,
}

-- The version of the preamble at `pre` is combined with the key's, and is no older than the stored
-- one where that is needed. The mark, the modes and secure storage are as before.
pub record IsNewKernel (ctx : Context) (s' : Machine) (pre : ℕ) : Type 0 where
  pub range : (kernel_preamble_at s'.memory pre).kernel_version ≤ 0xffff
  pub combined :
      s'.ctx.sd.kernel_version
      ≡ bit_or ctx.sd.kernel_version (kernel_preamble_at s'.memory pre).kernel_version
  pub not_older :
      vb2_need_signed_kernel ctx ≡ true → ctx.sd.kernel_version_secdatak ≤ s'.ctx.sd.kernel_version
  pub same_mark : s'.ctx.sd.flags ≡ ctx.sd.flags
  pub same_stored : s'.ctx.sd.kernel_version_secdatak ≡ ctx.sd.kernel_version_secdatak
  pub same_flags : s'.ctx.flags ≡ ctx.flags
  pub same_secdatak : s'.ctx.secdatak ≡ ctx.secdatak

need-combined :
    (ctx : Context) (v : ℕ)
    → vb2_need_signed_kernel (combine_kernel_version ctx v) ≡ vb2_need_signed_kernel ctx
unfolding vb2_need_signed_kernel vb2_nv_get
need-combined ctx v = refl

accept-IsNewKernel :
    (s : Machine) (pre pre_size : ℕ)
    → let r = accept_kernel_preamble s pre pre_size in
      r.1 ≡ vb2_success → (r.0.memory ≡ s.memory) × IsNewKernel s.ctx r.0 pre
unfolding accept_kernel_preamble keep_kernel_preamble
accept-IsNewKernel s pre pre_size h =
    let v = (kernel_preamble_at s.memory pre).kernel_version in
    let ctx = combine_kernel_version s.ctx v in
    elim (Bool-cases (ltb 0xffff v)) [
      | inl large ↦ absurd (ground (arith, h, large))
      | inr fits ↦
          elim (Bool-cases (
            vb2_need_signed_kernel ctx
            && ltb ctx.sd.kernel_version ctx.sd.kernel_version_secdatak)) [
              | inl old ↦ absurd (ground (arith, h, fits, old))
              | inr new ↦
                  rw (fits, new)
                    (
                      refl,
                      record {
                        range = ground (arith, fits);
                        combined = refl;
                        not_older = λ need. ground (arith, new, need, need-combined s.ctx v);
                        same_mark = refl;
                        same_stored = refl;
                        same_flags = refl;
                        same_secdatak = refl;
                      },
                    )
            ]
    ]

module _ {Digest : Type 0} (crypto : Crypto Digest) (read : ReadResource) where
  -- The preamble at `pre` was verified with the data key, and is the one in memory.
  pub record VerifiedPreamble (ctx : Context) (s' : Machine) (data_key : PublicKey) : Type 0 where
    pub memory : Memory
    pub pre : ℕ
    pub pre_size : ℕ
    pub wb : Workbuf
    pub verified :
        (vb2_verify_kernel_preamble crypto memory pre pre_size data_key wb).1 ≡ vb2_success
    pub left : s'.memory ≡ (vb2_verify_kernel_preamble crypto memory pre pre_size data_key wb).0
    pub new : IsNewKernel ctx s' pre

  verified :
      (s : Machine) (data_key : PublicKey) (pre_size pre : ℕ) (wb : Workbuf)
      → let r = verify_preamble_of crypto read s data_key pre_size pre wb in
        r.1 ≡ vb2_success → VerifiedPreamble s.ctx r.0 data_key
  unfolding verify_preamble_of
  verified s data_key pre_size pre wb h =
      let (m, rv) = vb2_verify_kernel_preamble crypto s.memory pre pre_size data_key wb in
      let s1 = record s { memory = m } in
      elim (Bool-cases (truthy rv)) [
        | inl bad ↦ absurd (ground (arith, h, bad))
        | inr fine ↦
            let e : verify_preamble_of crypto read s data_key pre_size pre wb
                ≡ accept_kernel_preamble s1 pre pre_size =
              rw fine refl in
            let (same, new) =
              accept-IsNewKernel s1 pre pre_size (sym (ap (λ (r : Machine × ℕ). r.1) e) ∙ h) in
            subst (λ (r : Machine × ℕ). VerifiedPreamble s.ctx r.0 data_key) (sym e)
              (record {
                memory = s.memory;
                pre = pre;
                pre_size = pre_size;
                wb = wb;
                verified = ground (arith, fine);
                left = same;
                new = new;
              })
      ]

  read-verified :
      (s : Machine) (data_key : PublicKey) (pre_size : ℕ) (a : Workbuf × Option ℕ)
      → let r = read_kernel_preamble crypto read s data_key pre_size a in
        r.1 ≡ vb2_success → VerifiedPreamble s.ctx r.0 data_key
  unfolding read_kernel_preamble
  read-verified s data_key pre_size (wb, none) = λ h. absurd (omega (arith, h))
  read-verified s data_key pre_size (wb, some pre) =
      after_read read (λ r. r.1 ≡ vb2_success → VerifiedPreamble s.ctx r.0 data_key) s kernel_vblock
        s.ctx.sd.vblock_preamble_offset pre pre_size
        (λ s'. verify_preamble_of crypto read s' data_key pre_size pre wb)
        (λ m rv bad h. absurd (omega (arith, bad, h)))
        (λ m. verified (record s { memory = m }) data_key pre_size pre wb)

  header-verified :
      (s : Machine) (data_key : PublicKey) (a : Workbuf × Option ℕ)
      → let r = read_kernel_preamble_header crypto read s data_key a in
        r.1 ≡ vb2_success → VerifiedPreamble s.ctx r.0 data_key
  unfolding read_kernel_preamble_header
  header-verified s data_key (wb, none) = λ h. absurd (omega (arith, h))
  header-verified s data_key (wb, some pre) =
      after_read read (λ r. r.1 ≡ vb2_success → VerifiedPreamble s.ctx r.0 data_key) s kernel_vblock
        s.ctx.sd.vblock_preamble_offset pre sizeof_kernel_preamble
        (λ s'.
          let pre_size = (kernel_preamble_at s'.memory pre).preamble_size in
          read_kernel_preamble crypto read s' data_key pre_size
            (vb2_workbuf_realloc wb sizeof_kernel_preamble pre_size))
        (λ m rv bad h. absurd (omega (arith, bad, h)))
        (λ m.
          let pre_size = (kernel_preamble_at m pre).preamble_size in
          read-verified (record s { memory = m }) data_key pre_size
            (vb2_workbuf_realloc wb sizeof_kernel_preamble pre_size))

-- The data key in the work buffer.
unfoldable pub kernel_data_key_of : Machine → Result PublicKey
kernel_data_key_of s =
    vb2_unpack_key s.memory (add64 s.ctx.workbuf s.ctx.sd.workbuf_data_key_offset)
      s.ctx.sd.workbuf_data_key_size

pub record LoadedPreamble {Digest : Type 0} (crypto : Crypto Digest) (read : ReadResource)
    (s s' : Machine) : Type 0 where
  pub data_key : PublicKey
  pub unpacked : kernel_data_key_of s ≡ ok data_key
  pub preamble : VerifiedPreamble crypto read s.ctx s' data_key

with_key-Loaded :
    {Digest : Type 0} (crypto : Crypto Digest) (read : ReadResource) (s : Machine)
    (key : Result PublicKey)
    → kernel_data_key_of s ≡ key
    → let r = with_kernel_data_key crypto read s key in
      r.1 ≡ vb2_success → LoadedPreamble crypto read s r.0
unfolding with_kernel_data_key kernel_data_key_of
with_key-Loaded crypto read s (err rv) e h = absurd (
    omega (
      arith,
      h,
      unpack_fails s.memory (add64 s.ctx.workbuf s.ctx.sd.workbuf_data_key_offset)
          s.ctx.sd.workbuf_data_key_size rv e,
    ))
with_key-Loaded crypto read s (ok data_key) e h = record {
  data_key = data_key;
  unpacked = e;
  preamble =
      header-verified crypto read s data_key
        (vb2_workbuf_alloc (vb2_workbuf_from_ctx s.ctx) sizeof_kernel_preamble) h;
}

-- If vb2_load_kernel_preamble succeeds, the preamble that is left in memory passed
-- vb2_verify_kernel_preamble with the data key that was unpacked from the work buffer, its version
-- fits 16 bits and is in kernel_version, and kernel_version is not below the stored version where a
-- signed kernel is needed. The mark, the modes and secure storage are as before.
pub vb2_load_kernel_preamble-Loaded :
    {Digest : Type 0} (crypto : Crypto Digest) (read : ReadResource) (s : Machine)
    → let r = vb2_load_kernel_preamble crypto read s in
      r.1 ≡ vb2_success → LoadedPreamble crypto read s r.0
unfolding vb2_load_kernel_preamble kernel_data_key_of
vb2_load_kernel_preamble-Loaded crypto read s =
    elim (Bool-cases (truthy s.ctx.sd.workbuf_data_key_size)) [
      | inl some_key ↦ rw some_key (with_key-Loaded crypto read s (kernel_data_key_of s) refl)
      | inr no_key ↦ rw no_key (λ h. absurd (omega (arith, h)))
    ]
