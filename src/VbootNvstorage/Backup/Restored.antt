-- ===== src/VbootNvstorage/Backup/Restored.antt =====
-- firmware/lib/vboot_nvstorage_rollback.c: what was saved is what is restored.
use cbmc_vboot.Prelude.{
  ℕ, ◌≡◌, refl, ap, sym, subst, ◌∙◌, inl, inr, arith, ◌<◌, bit_and, get_or-set_self, get_or-set_ne,
  get_or, set, ◌⊎◌, true, List, truthy, if◌then◌else◌, Bool-cases,
}
use cbmc_vboot.Crc8.Errors.{vb2_crc8-lt, vb2_crc8-set_ge}
use cbmc_vboot.Crc8.Vboot.{crc8, crc8_same}
use cbmc_vboot.Nvstorage.{NvParam, read_param}
use cbmc_vboot.Nvstorage.Layout.{same, layout_apart}
use cbmc_vboot.Nvstorage.Fields.Ranges.{IsNv, set-IsNv}
use cbmc_vboot.Nvstorage.Fields.ReadWrite.{read-set_ne}
use cbmc_vboot.VbootNvstorage.{VbNvContext, VbNvParam, vb_nv_get, vb_nv_teardown}
use cbmc_vboot.VbootNvstorage.Agrees.{new_param, is_good, setup_good, setup_bad}
use cbmc_vboot.VbootNvstorage.Backup.{
  backup_params, copy_params, local_context, restore_nv_from_backup, save_nv_to_backup,
}
use cbmc_vboot.RollbackIndex.{Tlcl, backup_nv_index, backup_nv_size}
use cbmc_vboot.RollbackIndex.Spaces.{IsTpm}
use cbmc_vboot.VbootNvstorage.Backup.Copied.{
  covers, backed_up, copy_params-read, copy_params-Kept, copied-get,
}

-- A backup of the settings of `source`.
record Saved (source : VbNvContext) (bytes : List ℕ) : Type 0 where
  is_nv : IsNv bytes
  good : is_good bytes ≡ true
  values :
      (r : NvParam) → covers backup_params r ≡ true → read_param bytes r ≡ read_param source.raw r

sealed-Saved :
    (source : VbNvContext) (raw : List ℕ)
    → IsNv raw
    → bit_and (get_or raw 0 0) 0xc0 ≡ 0x40
    → ((r : NvParam) → covers backup_params r ≡ true → read_param raw r ≡ read_param source.raw r)
    → Saved source (set raw 15 (crc8 raw 15))
sealed-Saved source raw w sig values =
    let crc = crc8 raw 15 in
    let small : crc < 256 = subst (λ c. c < 256) (sym (crc8_same raw 15)) (vb2_crc8-lt raw 15) in
    record {
      is_nv = set-IsNv raw 15 crc small w;
      good = ground (
        arith,
        get_or-set_ne raw 15 0 crc 0,
        get_or-set_self raw 15 crc 0,
        w.sized,
        sig,
        crc8_same raw 15,
        vb2_crc8-set_ge raw 15 15 crc,
      );
      values = λ r c. read-set_ne raw r 15 crc (ground (arith, layout_apart r)) ∙ values r c;
    }

-- The bytes of a local context after VbNvSetup, with a signature, and what their checksum says.
local_lem :
    (raw : List ℕ)
    → IsNv raw
    → let c = local_context raw in
      IsNv c.raw
      × (bit_and (get_or c.raw 0 0) 0xc0 ≡ 0x40)
      × (c.raw_changed ≡ 0)
      × (((c.regenerate_crc ≡ 0) × (c.raw ≡ raw) × (is_good raw ≡ true)) ⊎ (c.regenerate_crc ≡ 1))
local_lem raw w =
    let start : VbNvContext = record { raw = raw; raw_changed = 0; regenerate_crc = 0 } in
    elim (Bool-cases (is_good raw)) [
      | inl good ↦
          rw (setup_good start good) (w, ground (arith, good), refl, inl (refl, refl, good))
      | inr bad ↦ rw (setup_bad start bad) (omega arith, refl, refl, inr refl)
    ]

module _ {T : Type 0} (tlcl : Tlcl T) (tpm : IsTpm tlcl) where
  save_nv_to_backup-Saved :
      (t : T) (source : VbNvContext) (value : ℕ)
      → IsNv source.raw
      → IsNv (tpm.contents t backup_nv_index)
      → (save_nv_to_backup tlcl t source value).2 ≡ 0
      → Saved source (tpm.contents (save_nv_to_backup tlcl t source value).0 backup_nv_index)
  unfolding save_nv_to_backup vb_nv_teardown
  save_nv_to_backup-Saved t source value s old h =
      let r = tlcl.tlcl_read t backup_nv_index backup_nv_size in
      elim (Bool-cases (truthy r.2)) [
        | inl failed ↦ absurd (ground (arith, h, failed))
        | inr read ↦
            let same_raw =
              (tpm.read_gives t backup_nv_index backup_nv_size (ground (arith, read))).0 in
            let start = local_context r.1 in
            let l = local_lem r.1 (subst IsNv (sym same_raw) old) in
            let c = copy_params backup_params value source start in
            let k = copy_params-Kept backup_params value source start l.0 in
            let values : (q : NvParam)
                → covers backup_params q ≡ true
                → read_param c.raw q ≡ read_param source.raw q =
              λ q covered.
                copy_params-read backup_params value source start q s l.0 ∙ rw covered refl in
            let bytes = set c.raw 15 (crc8 c.raw 15) in
            let w = tlcl.tlcl_write r.0 backup_nv_index bytes in
            elim (Bool-cases (truthy c.regenerate_crc)) [
              | inl dirty ↦ elim (Bool-cases (truthy w.1)) [
                | inl failed ↦ absurd (ground (arith, h, read, dirty, failed))
                | inr written ↦
                    rw (read, dirty, written)
                      (subst (Saved source)
                        (sym (tpm.write_gives r.0 backup_nv_index bytes (ground (arith, written))))
                        (sealed-Saved source c.raw k.is_nv (k.signature ∙ l.1) values))
              ]
              | inr clean ↦ elim k.same_or_dirty [
                | inr dirty ↦ absurd (ground (arith, clean, dirty))
                | inl same ↦ elim l.3 [
                  | inr dirty ↦
                      let again : c.regenerate_crc ≡ 1 = ap (λ x. x.regenerate_crc) same ∙ dirty in
                      absurd (ground (arith, clean, again))
                  | inl (_, raw_same, good) ↦
                      let unchanged : c.raw_changed ≡ 0 = k.changed ∙ l.2 in
                      let kept : c.raw ≡ r.1 = ap (λ x. x.raw) same ∙ raw_same in
                      let e : tpm.contents r.0 backup_nv_index ≡ c.raw =
                        ap (λ f. f backup_nv_index)
                          (tpm.read_keeps t backup_nv_index backup_nv_size)
                        ∙ sym same_raw
                        ∙ sym kept in
                      rw (read, clean, unchanged)
                        (subst (Saved source) (sym e) (record {
                          is_nv = k.is_nv;
                          good = subst (λ b. is_good b ≡ true) (sym kept) good;
                          values = values;
                        }))
                ]
              ]
            ]
      ]

  restore_nv_from_backup_lem :
      (t : T) (source target : VbNvContext) (value : ℕ) (p : VbNvParam)
      → IsNv target.raw
      → Saved source (tpm.contents t backup_nv_index)
      → (tlcl.tlcl_read t backup_nv_index backup_nv_size).2 ≡ 0
      → let (t', restored, code) = restore_nv_from_backup tlcl t target value in
        (code ≡ 0)
        × (vb_nv_get restored p ≡ (if backed_up p then vb_nv_get source p else vb_nv_get target p))
  unfolding restore_nv_from_backup
  restore_nv_from_backup_lem t source target value p w saved fine =
      let r = tlcl.tlcl_read t backup_nv_index backup_nv_size in
      let same_raw = (tpm.read_gives t backup_nv_index backup_nv_size fine).0 in
      let raw_context : VbNvContext = record { raw = r.1; raw_changed = 0; regenerate_crc = 0 } in
      let good : is_good r.1 ≡ true = subst (λ b. is_good b ≡ true) (sym same_raw) saved.good in
      let nv : IsNv r.1 = subst IsNv (sym same_raw) saved.is_nv in
      let c = copy_params backup_params value raw_context target in
      rw (fine, setup_good raw_context good)
        (
          refl,
          copied-get source target c p (new_param p) refl (λ q.
              copy_params-read backup_params value raw_context target q nv w
              ∙ elim (Bool-cases (covers backup_params q)) [
                | inl kept ↦ rw kept (ap (λ b. read_param b q) same_raw ∙ saved.values q kept)
                | inr other ↦ rw other refl
              ]),
        )

  -- After a SaveNvToBackup that succeeds, RestoreNvFromBackup, where the TPM answers its read, succeeds
  -- and gives the settings that it restores to the values that the backed up parameters had when they
  -- were saved; VbNvGet reads every other parameter as before, and fails for one outside the enum. All
  -- are sixteen bytes: the settings saved, those restored to, and what the backup space held before. The
  -- TPM keeps what is written to it.
  pub save_nv_to_backup-restore :
      (t : T) (source target : VbNvContext) (value value' : ℕ) (p : VbNvParam)
      → IsNv source.raw
      → IsNv target.raw
      → IsNv (tpm.contents t backup_nv_index)
      → (save_nv_to_backup tlcl t source value).2 ≡ 0
      → (tlcl.tlcl_read (save_nv_to_backup tlcl t source value).0 backup_nv_index backup_nv_size).2
        ≡ 0
      → let saved = (save_nv_to_backup tlcl t source value).0 in
        let (t', restored, code) = restore_nv_from_backup tlcl saved target value' in
        (code ≡ 0)
        × (vb_nv_get restored p ≡ (if backed_up p then vb_nv_get source p else vb_nv_get target p))
  save_nv_to_backup-restore t source target value value' p s w old h fine =
      restore_nv_from_backup_lem (save_nv_to_backup tlcl t source value).0 source target value' p w
        (save_nv_to_backup-Saved t source value s old h) fine
