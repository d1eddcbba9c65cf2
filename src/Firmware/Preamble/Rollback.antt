-- ===== src/Firmware/Preamble/Rollback.antt =====
-- lib20/misc.c: vb2_load_fw_preamble loads no firmware older than the stored version, and raises
-- the stored version only for firmware that has booted.
use cbmc_vboot.Prelude.{
  ℕ, ◌%◌, ◌^◌, ◌<◌, ◌≡◌, ◌⊎◌, inl, inr, refl, ap, sym, subst, ◌∙◌, ◌==◌, truthy, Bool-cases, arith,
  has_flag,
}
use cbmc_vboot.Context.{Context, vb2_success, status_nv_init, status_secdata_init}
use cbmc_vboot.Common.{Workbuf}
use cbmc_vboot.Nvstorage.{
  vb2_nv_init, vb2_nv_set, NvParam, fw_result, try_count, try_next, recovery_request,
  recovery_subcode,
}
use cbmc_vboot.Secdata.{versions, vb2_secdata_set, vb2_secdata_get}
use cbmc_vboot.Boot.{vb2_fail, give_up_slot, request_recovery, other_slot, result_failure}
use cbmc_vboot.Keys.{fw_preamble_at}
use cbmc_vboot.Keys.Unpack.{PublicKey}
use cbmc_vboot.Keys.Verify.{Crypto}
use cbmc_vboot.Keys.Preamble.{vb2_verify_fw_preamble}
use cbmc_vboot.Firmware.{Machine, ReadResource, fail}
use cbmc_vboot.Firmware.Preamble.Reached.{LoadCases, Stopped, load_preamble_cases}
use cbmc_vboot.Firmware.Preamble.{
  verify_preamble, vb2_load_fw_preamble, recovery_fw_rollback, recovery_fw_preamble, result_success,
  combine_version, version_code, may_roll_forward, roll_forward, keep_preamble, after_roll,
  accept_preamble,
}

nv_set-secdata : (ctx : Context) (p : NvParam) (v : ℕ) → (vb2_nv_set ctx p v).secdata ≡ ctx.secdata
unfolding vb2_nv_set
nv_set-secdata ctx p v = ground arith

give_up-secdata : (ctx : Context) → (give_up_slot ctx).secdata ≡ ctx.secdata
unfolding give_up_slot
give_up-secdata ctx =
    nv_set-secdata (vb2_nv_set (vb2_nv_set ctx fw_result result_failure) try_count 0) try_next
      (other_slot ctx.sd.fw_slot)
    ∙ nv_set-secdata (vb2_nv_set ctx fw_result result_failure) try_count 0
    ∙ nv_set-secdata ctx fw_result result_failure

request-secdata :
    (ctx : Context) (reason subcode : ℕ)
    → (request_recovery ctx reason subcode).secdata ≡ ctx.secdata
unfolding request_recovery
request-secdata ctx reason subcode = ground (
  arith,
  nv_set-secdata (vb2_nv_set ctx recovery_request reason) recovery_subcode subcode,
  nv_set-secdata ctx recovery_request reason,
)

nv_init-secdata : (ctx : Context) → (vb2_nv_init ctx).secdata ≡ ctx.secdata
unfolding vb2_nv_init
nv_init-secdata ctx = ground arith

pub vb2_fail-secdata :
    (ctx : Context) (reason subcode : ℕ) → (vb2_fail ctx reason subcode).secdata ≡ ctx.secdata
unfolding vb2_fail
vb2_fail-secdata ctx reason subcode = elim (Bool-cases (has_flag ctx.sd.status status_nv_init)) [
  | inl e ↦ rw e (
      ground (
        arith,
        give_up-secdata ctx,
        request-secdata ctx reason subcode,
        request-secdata (give_up_slot ctx) reason subcode,
      ))
  | inr e ↦ rw e (
      ground (
        arith,
        nv_init-secdata ctx,
        give_up-secdata (vb2_nv_init ctx),
        request-secdata (vb2_nv_init ctx) reason subcode,
        request-secdata (give_up_slot (vb2_nv_init ctx)) reason subcode,
      ))
]

-- What the return code and the context after it say of secure storage, from a context before.
pub record RolledForward (ctx ctx' : Context) : Type 0 where
  pub newer : ctx.sd.fw_version_secdata < ctx'.sd.fw_version
  pub same_slot : ctx.sd.last_fw_slot ≡ ctx.sd.fw_slot
  pub booted : ctx.sd.last_fw_result ≡ result_success
  pub stored : ctx'.secdata.fw_versions ≡ ctx'.sd.fw_version

pub secdata_set-versions :
    (ctx : Context) (value : ℕ)
    → let r = vb2_secdata_set ctx versions value in
      (r.0.sd ≡ ctx.sd)
      × ((r.0.secdata ≡ ctx.secdata) × (0 < r.1)
          ⊎ (r.1 ≡ vb2_success) × (r.0.secdata.fw_versions ≡ value))
unfolding vb2_secdata_set vb2_secdata_get
secdata_set-versions ctx value = elim (Bool-cases (has_flag ctx.sd.status status_secdata_init)) [
  | inl set ↦ rw set (elim (Bool-cases (ctx.secdata.fw_versions == value)) [
    | inl same ↦ rw same (refl, inr (refl, ground arith))
    | inr different ↦ rw different (refl, inr (refl, refl))
  ])
  | inr clear ↦ rw clear (refl, inl (refl, omega arith))
]

-- Secure storage is as it was, or the load succeeded and rolled it forward.
pub KeptOrRolled : Context → Context × ℕ → Type 0
KeptOrRolled ctx r = (r.0.secdata ≡ ctx.secdata) ⊎ (r.1 ≡ vb2_success) × RolledForward ctx r.0

kept_by_fail :
    (s : Machine) (reason rv : ℕ) → let r = fail s reason rv in KeptOrRolled s.ctx (r.0.ctx, r.1)
unfolding KeptOrRolled
kept_by_fail s reason rv = inl (vb2_fail-secdata s.ctx reason (rv % 2 ^ 8))

roll_forward_lem : (ctx : Context) → KeptOrRolled ctx (roll_forward ctx)
unfolding KeptOrRolled roll_forward
roll_forward_lem ctx = elim (Bool-cases (may_roll_forward ctx)) [
  | inl may ↦
      let noted = record ctx { sd = record ctx.sd { fw_version_secdata = ctx.sd.fw_version } } in
      let (sd, stored) = secdata_set-versions noted ctx.sd.fw_version in
      let version = ap (λ x. x.fw_version) sd in
      rw may (elim stored [
        | inl (same, failed) ↦ inl same
        | inr (fine, is_stored) ↦ inr (
          fine,
          record {
            newer = ground (arith, may, version);
            same_slot = ground (arith, may);
            booted = ground (arith, may);
            stored = is_stored ∙ sym version;
          },
        )
      ])
  | inr not_now ↦ rw not_now (inl refl)
]

after_roll_lem :
    (s : Machine) (pre pre_size : ℕ) (ctx : Context) (rolled : Context × ℕ)
    → KeptOrRolled ctx rolled
    → let r = after_roll s pre pre_size rolled in KeptOrRolled ctx (r.0.ctx, r.1)
unfolding KeptOrRolled keep_preamble
after_roll_lem s pre pre_size ctx rolled k = elim (Bool-cases (truthy rolled.1)) [
  | inl failed ↦ rw failed k
  | inr fine ↦ rw fine (elim k [
    | inl same ↦ inl same
    | inr (_, rolled_on) ↦ inr (
      refl,
      record {
        newer = rolled_on.newer;
        same_slot = rolled_on.same_slot;
        booted = rolled_on.booted;
        stored = rolled_on.stored;
      },
    )
  ])
]

-- The version of this firmware plays no part in what was stored before.
kept_combine :
    (ctx : Context) (firmware_version : ℕ) (r : Context × ℕ)
    → KeptOrRolled (combine_version ctx firmware_version) r
    → KeptOrRolled ctx r
unfolding KeptOrRolled
kept_combine ctx firmware_version r (inl same) = inl same
kept_combine ctx firmware_version r (inr (fine, rolled)) = inr (
  fine,
  record {
    newer = rolled.newer;
    same_slot = rolled.same_slot;
    booted = rolled.booted;
    stored = rolled.stored;
  },
)

accept_preamble_lem :
    (s : Machine) (pre pre_size : ℕ)
    → let r = accept_preamble s pre pre_size in KeptOrRolled s.ctx (r.0.ctx, r.1)
unfolding accept_preamble
accept_preamble_lem s pre pre_size =
    let firmware_version = (fw_preamble_at s.memory pre).firmware_version in
    let ctx = combine_version s.ctx firmware_version in
    let rv = version_code ctx firmware_version in
    kept_combine s.ctx firmware_version
      ((accept_preamble s pre pre_size).0.ctx, (accept_preamble s pre pre_size).1)
      (elim (Bool-cases (truthy rv)) [
        | inl old ↦ rw old (kept_by_fail (record s { ctx = ctx }) recovery_fw_rollback rv)
        | inr fine ↦
            rw fine (after_roll_lem s pre pre_size ctx (roll_forward ctx) (roll_forward_lem ctx))
      ])

module _ {Digest : Type 0} (crypto : Crypto Digest) (read : ReadResource) where
  verify_kept :
      (s : Machine) (data_key : PublicKey) (pre_size pre : ℕ) (wb : Workbuf)
      → let r = verify_preamble crypto read s data_key pre_size pre wb in
        KeptOrRolled s.ctx (r.0.ctx, r.1)
  unfolding verify_preamble
  verify_kept s data_key pre_size pre wb =
      let (m, rv) = vb2_verify_fw_preamble crypto s.memory pre pre_size data_key wb in
      elim (Bool-cases (truthy rv)) [
        | inl bad ↦ rw bad (kept_by_fail (record s { memory = m }) recovery_fw_preamble rv)
        | inr fine ↦ rw fine (accept_preamble_lem (record s { memory = m }) pre pre_size)
      ]

-- vb2_load_fw_preamble, whatever its result, leaves the secure storage as it was, or it succeeded
-- and stored the version of the firmware, which is newer than fw_version_secdata was and stands in
-- the slot that the last boot, a success, used.
pub vb2_load_fw_preamble-KeptOrRolled :
    {Digest : Type 0} (crypto : Crypto Digest) (read : ReadResource) (s : Machine)
    → let r = vb2_load_fw_preamble crypto read s in KeptOrRolled s.ctx (r.0.ctx, r.1)
unfolding KeptOrRolled LoadCases Stopped
vb2_load_fw_preamble-KeptOrRolled crypto read s = elim (load_preamble_cases crypto read s) [
  | inl (same, failed) ↦ inl (ap (λ ctx. ctx.secdata) same)
  | inr (data_key, unpacked, reached) ↦
      subst (λ r. KeptOrRolled s.ctx (r.0.ctx, r.1)) (sym reached.result)
        (verify_kept crypto read (record s { memory = reached.memory }) data_key reached.pre_size
          reached.pre reached.wb)
]
