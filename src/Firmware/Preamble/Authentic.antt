-- ===== src/Firmware/Preamble/Authentic.antt =====
-- lib20/misc.c: vb2_load_fw_preamble accepts only a preamble that is signed with the data key, and
-- not older than the stored version.
use cbmc_vboot.Prelude.{
  ℕ, ◌≤◌, ◌≡◌, ◌⊎◌, inl, inr, refl, ap, sym, subst, ◌∙◌, true, truthy, Bool-cases, arith, bit_or,
  has_flag, ok,
}
use cbmc_vboot.Context.{Context, vb2_success}
use cbmc_vboot.Common.{Workbuf}
use cbmc_vboot.Keys.{Memory, fw_preamble_at}
use cbmc_vboot.Keys.Unpack.{PublicKey}
use cbmc_vboot.Keys.Verify.{Crypto}
use cbmc_vboot.Keys.Preamble.{vb2_verify_fw_preamble}
use cbmc_vboot.Firmware.{Machine, ReadResource}
use cbmc_vboot.Firmware.Keyblock.{gbb_flag_disable_fw_rollback_check}
use cbmc_vboot.Firmware.Preamble.{
  combine_version, version_code, may_roll_forward, roll_forward, keep_preamble, after_roll,
  accept_preamble, verify_preamble, vb2_load_fw_preamble,
}
use cbmc_vboot.Firmware.Preamble.Reached.{LoadCases, Stopped, data_key_of, load_preamble_cases}
use cbmc_vboot.Firmware.Preamble.Rollback.{secdata_set-versions}

-- No older than the stored version, unless the GBB says not to check.
pub record IsNew (ctx ctx' : Context) (firmware_version : ℕ) : Type 0 where
  pub range : firmware_version ≤ 0xffff
  pub combined : ctx'.sd.fw_version ≡ bit_or ctx.sd.fw_version firmware_version
  pub not_older :
      (has_flag ctx.sd.gbb_flags gbb_flag_disable_fw_rollback_check ≡ true)
      ⊎ (ctx.sd.fw_version_secdata ≤ ctx'.sd.fw_version)

-- The preamble at `pre` was verified with the data key, and is the one in memory.
pub record Accepted {Digest : Type 0} (crypto : Crypto Digest) (read : ReadResource)
    (s s' : Machine) : Type 0 where
  pub data_key : PublicKey
  pub unpacked : data_key_of crypto read s ≡ ok data_key
  pub memory : Memory
  pub pre : ℕ
  pub pre_size : ℕ
  pub wb : Workbuf
  pub verified : (vb2_verify_fw_preamble crypto memory pre pre_size data_key wb).1 ≡ vb2_success
  pub left : s'.memory ≡ (vb2_verify_fw_preamble crypto memory pre pre_size data_key wb).0
  pub new : IsNew s.ctx s'.ctx (fw_preamble_at s'.memory pre).firmware_version

roll_forward-sd : (ctx : Context) → (roll_forward ctx).0.sd.fw_version ≡ ctx.sd.fw_version
unfolding roll_forward
roll_forward-sd ctx =
    let noted = record ctx { sd = record ctx.sd { fw_version_secdata = ctx.sd.fw_version } } in
    elim (Bool-cases (may_roll_forward ctx)) [
      | inl may ↦ rw may (ap (λ x. x.fw_version) (secdata_set-versions noted ctx.sd.fw_version).0)
      | inr not_now ↦ rw not_now refl
    ]

version_code_lem :
    (ctx : Context) (firmware_version : ℕ)
    → version_code ctx firmware_version ≡ vb2_success
    → (firmware_version ≤ 0xffff)
      × ((has_flag ctx.sd.gbb_flags gbb_flag_disable_fw_rollback_check ≡ true)
          ⊎ (ctx.sd.fw_version_secdata ≤ ctx.sd.fw_version))
unfolding version_code
version_code_lem ctx firmware_version h = (ground arith, ground arith)

after_roll_new :
    (s : Machine) (pre pre_size : ℕ) (rolled : Context × ℕ)
    → let r = after_roll s pre pre_size rolled in
      (r.0.memory ≡ s.memory) × (r.0.ctx.sd.fw_version ≡ rolled.0.sd.fw_version)
unfolding keep_preamble
after_roll_new s pre pre_size rolled = elim (Bool-cases (truthy rolled.1)) [
  | inl failed ↦ rw failed (refl, refl)
  | inr fine ↦ rw fine (refl, refl)
]

accept-IsNew :
    (s : Machine) (pre pre_size : ℕ)
    → let r = accept_preamble s pre pre_size in
      r.1 ≡ vb2_success
      → (r.0.memory ≡ s.memory) × IsNew s.ctx r.0.ctx (fw_preamble_at s.memory pre).firmware_version
unfolding accept_preamble
accept-IsNew s pre pre_size h =
    let firmware_version = (fw_preamble_at s.memory pre).firmware_version in
    let ctx = combine_version s.ctx firmware_version in
    let rv = version_code ctx firmware_version in
    elim (Bool-cases (truthy rv)) [
      | inl old ↦ absurd (ground (arith, h, old))
      | inr fine ↦
          let (memory, version) = after_roll_new s pre pre_size (roll_forward ctx) in
          let (range, not_older) = version_code_lem ctx firmware_version (ground (arith, fine)) in
          let combined = version ∙ roll_forward-sd ctx in
          rw fine (
            memory,
            record {
              range = range;
              combined = combined;
              not_older = elim not_older [
                | inl unchecked ↦ inl unchecked
                | inr newer ↦ inr (ground (arith, newer, combined))
              ];
            },
          )
    ]

verified-IsNew :
    {Digest : Type 0} (crypto : Crypto Digest) (read : ReadResource) (s : Machine)
    (data_key : PublicKey) (pre_size pre : ℕ) (wb : Workbuf)
    → let r = verify_preamble crypto read s data_key pre_size pre wb in
      let v = vb2_verify_fw_preamble crypto s.memory pre pre_size data_key wb in
      r.1 ≡ vb2_success
      → (v.1 ≡ vb2_success)
        × (r.0.memory ≡ v.0)
        × IsNew s.ctx r.0.ctx (fw_preamble_at v.0 pre).firmware_version
unfolding verify_preamble
verified-IsNew crypto read s data_key pre_size pre wb h =
    let (m, rv) = vb2_verify_fw_preamble crypto s.memory pre pre_size data_key wb in
    let s' = record s { memory = m } in
    elim (Bool-cases (truthy rv)) [
      | inl bad ↦ absurd (ground (arith, h, bad))
      | inr fine ↦
          let e : verify_preamble crypto read s data_key pre_size pre wb
              ≡ accept_preamble s' pre pre_size =
            rw fine refl in
          let (memory, new) =
            accept-IsNew s' pre pre_size (sym (ap (λ (r : Machine × ℕ). r.1) e) ∙ h) in
          (
            ground (arith, fine),
            ap (λ (r : Machine × ℕ). r.0.memory) e ∙ memory,
            subst (λ (r : Machine × ℕ). IsNew s.ctx r.0.ctx (fw_preamble_at m pre).firmware_version)
                (sym e) new,
          )
    ]

-- If vb2_load_fw_preamble succeeds, the preamble that is left in memory passed
-- vb2_verify_fw_preamble with the data key that was unpacked from the work buffer, its version fits
-- 16 bits and is in fw_version, and fw_version is not below the version that secure storage had,
-- unless the GBB flag switches that check off.
pub vb2_load_fw_preamble-Accepted :
    {Digest : Type 0} (crypto : Crypto Digest) (read : ReadResource) (s : Machine)
    → let r = vb2_load_fw_preamble crypto read s in r.1 ≡ vb2_success → Accepted crypto read s r.0
unfolding LoadCases Stopped
vb2_load_fw_preamble-Accepted crypto read s h = elim (load_preamble_cases crypto read s) [
  | inl (same, failed) ↦ absurd (omega (arith, h, failed))
  | inr (data_key, unpacked, reached) ↦
      let s' = record s { memory = reached.memory } in
      let (verified, memory, new) =
        verified-IsNew crypto read s' data_key reached.pre_size reached.pre reached.wb
          (sym (ap (λ (r : Machine × ℕ). r.1) reached.result) ∙ h) in
      let left = ap (λ (r : Machine × ℕ). r.0.memory) reached.result ∙ memory in
      record {
        data_key = data_key;
        unpacked = unpacked;
        memory = reached.memory;
        pre = reached.pre;
        pre_size = reached.pre_size;
        wb = reached.wb;
        verified = verified;
        left = left;
        new =
            subst
              (λ (m : Memory).
                IsNew s.ctx (vb2_load_fw_preamble crypto read s).0.ctx
                  (fw_preamble_at m reached.pre).firmware_version)
              (sym left)
              (subst
                (λ (r : Machine × ℕ).
                  IsNew s.ctx r.0.ctx
                    (fw_preamble_at
                      (vb2_verify_fw_preamble crypto reached.memory reached.pre reached.pre_size
                        data_key reached.wb).0
                      reached.pre).firmware_version)
                (sym reached.result) new);
      }
]
