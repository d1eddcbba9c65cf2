-- ===== src/RollbackIndex/Writes.antt =====
-- firmware/lib/rollback_index.c: what a write of a space leaves in the TPM, and that a cleared owner
-- stays cleared.
use cbmc_vboot.Prelude.{
  ℕ, zero, suc, ◌≡◌, inl, inr, ap, sym, subst, ◌∙◌, arith, List, ◌==◌, truthy, Bool-cases, Result,
  ok, err,
}
use cbmc_vboot.RollbackIndex.{
  Tlcl, tpm_e_maxnvwrites, tpm_clear_and_reenable, safe_write, read_attempts, write_attempts,
  return_on_failure, read_back,
}
use cbmc_vboot.RollbackIndex.Spaces.{IsTpm, return_given, read-contents, read-Cleared}

module _ {T : Type 0} (tlcl : Tlcl T) (tpm : IsTpm tlcl) where
  pub clear-contents : (t : T) → tpm.contents (tpm_clear_and_reenable tlcl t).0 ≡ tpm.contents t
  unfolding tpm_clear_and_reenable
  clear-contents t =
      let r = tlcl.tlcl_force_clear t in
      let q = tlcl.tlcl_set_enable r.0 in
      let cleared = tpm.clear_keeps t in
      let enabled = tpm.enable_keeps r.0 ∙ cleared in
      elim (Bool-cases (truthy r.1)) [
        | inl failed ↦ rw failed cleared
        | inr fine ↦ elim (Bool-cases (truthy q.1)) [
          | inl failed ↦ rw (fine, failed) enabled
          | inr fine' ↦ rw (fine, fine') (tpm.activate_keeps q.0 0 ∙ enabled)
        ]
      ]

  pub clear-Cleared :
      (t : T)
      → (tpm_clear_and_reenable tlcl t).1 ≡ 0
      → tpm.Cleared (tpm_clear_and_reenable tlcl t).0
  unfolding tpm_clear_and_reenable
  clear-Cleared t h =
      let r = tlcl.tlcl_force_clear t in
      let activate : T → T × ℕ = λ t2. tlcl.tlcl_set_deactivated t2 0 in
      let enable : T → T × ℕ = λ t1. return_on_failure (tlcl.tlcl_set_enable t1) activate in
      let first = return_given r enable h in
      let second =
        return_given (tlcl.tlcl_set_enable r.0) activate (ap (λ x. x.1) (sym first.1) ∙ h) in
      subst (λ x. tpm.Cleared x.0) (sym (first.1 ∙ second.1))
        (tpm.activate_clear (tlcl.tlcl_set_enable r.0).0 0
          (tpm.enable_clear r.0 (tpm.clear_gives t first.0)))

  -- An owner that is cleared stays so, whatever the commands return.
  reenable-Cleared : (t : T) → tpm.Cleared t → tpm.Cleared (tpm_clear_and_reenable tlcl t).0
  unfolding tpm_clear_and_reenable
  reenable-Cleared t c =
      let r = tlcl.tlcl_force_clear t in
      let q = tlcl.tlcl_set_enable r.0 in
      let cleared = tpm.clear_clear t c in
      let enabled = tpm.enable_clear r.0 cleared in
      elim (Bool-cases (truthy r.1)) [
        | inl failed ↦ rw failed cleared
        | inr fine ↦ elim (Bool-cases (truthy q.1)) [
          | inl failed ↦ rw (fine, failed) enabled
          | inr fine' ↦ rw (fine, fine') (tpm.activate_clear q.0 0 enabled)
        ]
      ]

  safe_write-contents :
      (t : T) (index : ℕ) (s : List ℕ)
      → (safe_write tlcl t index s).1 ≡ 0
      → tpm.contents (safe_write tlcl t index s).0 index ≡ s
  unfolding safe_write
  safe_write-contents t index s h =
      let r = tlcl.tlcl_write t index s in
      elim (Bool-cases (r.1 == tpm_e_maxnvwrites)) [
        | inr other ↦ rw other (tpm.write_gives t index s (ground (arith, h, other)))
        | inl full ↦
            let retry : T → T × ℕ = λ t2. tlcl.tlcl_write t2 index s in
            let cleared = tpm_clear_and_reenable tlcl r.0 in
            let again : (return_on_failure cleared retry).1 ≡ 0 = ground (arith, h, full) in
            let given = return_given cleared retry again in
            rw full (
              subst (λ x. tpm.contents x.0 index ≡ s) (sym given.1)
                (tpm.write_gives cleared.0 index s (ap (λ x. x.1) (sym given.1) ∙ again)))
      ]

  safe_write-Cleared :
      (t : T) (index : ℕ) (s : List ℕ) → tpm.Cleared t → tpm.Cleared (safe_write tlcl t index s).0
  unfolding safe_write
  safe_write-Cleared t index s c =
      let r = tlcl.tlcl_write t index s in
      let written = tpm.write_clear t index s c in
      let cleared = tpm_clear_and_reenable tlcl r.0 in
      let still = reenable-Cleared r.0 written in
      elim (Bool-cases (r.1 == tpm_e_maxnvwrites)) [
        | inr other ↦ rw other written
        | inl full ↦ elim (Bool-cases (truthy cleared.1)) [
          | inl failed ↦ rw (full, failed) still
          | inr fine ↦ rw (full, fine) (tpm.write_clear cleared.0 index s still)
        ]
      ]

  -- A successful write leaves the bytes in the space.
  pub write-contents :
      (attempts : ℕ) (t : T) (index size : ℕ) (s : List ℕ)
      → (write_attempts tlcl attempts t index size s).1 ≡ 0
      → tpm.contents (write_attempts tlcl attempts t index size s).0 index ≡ s
  unfolding write_attempts
  write-contents zero t index size s h = absurd (omega (arith, h))
  write-contents (suc attempts) t index size s h =
      let w = safe_write tlcl t index s in
      let again : T → T × ℕ = λ t2. write_attempts tlcl attempts t2 index size s in
      let check : T → T × ℕ = λ t1. read_back tlcl (read_attempts tlcl 3 t1 index size) again in
      let given = return_given w check h in
      let written = safe_write-contents t index s given.0 in
      let b = read_attempts tlcl 3 w.0 index size in
      let kept : tpm.contents b.0 index ≡ s =
        ap (λ c. c index) (read-contents tlcl tpm 3 w.0 index size) ∙ written in
      subst (λ x. tpm.contents x.0 index ≡ s) (sym given.1)
        (back b again kept (λ e. write-contents attempts b.0 index size s e)
          (ap (λ x. x.1) (sym given.1) ∙ h))
    where
      back :
          (b : T × Result (List ℕ)) (again : T → T × ℕ)
          → tpm.contents b.0 index ≡ s
          → ((again b.0).1 ≡ 0 → tpm.contents (again b.0).0 index ≡ s)
          → (read_back tlcl b again).1 ≡ 0
          → tpm.contents (read_back tlcl b again).0 index ≡ s
      back (t2, ok r) again kept tried e = kept
      back (t2, err r) again kept tried e = tried e

  pub write-Cleared :
      (attempts : ℕ) (t : T) (index size : ℕ) (s : List ℕ)
      → tpm.Cleared t
      → tpm.Cleared (write_attempts tlcl attempts t index size s).0
  unfolding write_attempts
  write-Cleared zero t index size s c = c
  write-Cleared (suc attempts) t index size s c =
      let w = safe_write tlcl t index s in
      let written = safe_write-Cleared t index s c in
      let b = read_attempts tlcl 3 w.0 index size in
      let still = read-Cleared tlcl tpm 3 w.0 index size written in
      let again : T → T × ℕ = λ t2. write_attempts tlcl attempts t2 index size s in
      elim (Bool-cases (truthy w.1)) [
        | inl failed ↦ rw failed written
        | inr fine ↦ rw fine (back b again still (write-Cleared attempts b.0 index size s still))
      ]
    where
      back :
          (b : T × Result (List ℕ)) (again : T → T × ℕ)
          → tpm.Cleared b.0
          → tpm.Cleared (again b.0).0
          → tpm.Cleared (read_back tlcl b again).0
      back (t2, ok r) again still tried = still
      back (t2, err r) again still tried = tried
