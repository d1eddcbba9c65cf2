-- ===== src/RollbackIndex/Found.antt =====
-- firmware/lib/rollback_index.c: the firmware space that SetupTPM finds, or that it defines.
use cbmc_vboot.Prelude.{
  ℕ, ◌≡◌, ◌⊎◌, inl, inr, refl, ap, sym, subst, ◌∙◌, arith, bit_or, not, List, length, ◌==◌, truthy,
  Bool-cases, Result, ok, err,
}
use cbmc_vboot.RollbackIndex.{
  Tlcl, tpm_e_badindex, firmware_nv_index, kernel_nv_index, backup_nv_index, backup_nv_size,
  sizeof_firmware, sizeof_kernel, or_return, sealed_space, tpm_clear_and_reenable,
  safe_define_space, read_space_firmware, write_space_firmware, write_space_kernel,
}
use cbmc_vboot.RollbackIndex.Setup.{
  tpm_nv_per_globallock, tpm_nv_per_ppwrite, flags, fw_versions, rsf_init, rsk_init, define_spaces,
  when, one_time_initialize_tpm, find_space,
}
use cbmc_vboot.RollbackIndex.Spaces.{IsTpm, Accepted, read-Accepted, read-contents}
use cbmc_vboot.RollbackIndex.Writes.{write-contents}
use cbmc_vboot.RollbackIndex.Versions.{accepted-get, accepted-field32, accepted-length}

initial_sized : length (sealed_space sizeof_firmware rsf_init) ≡ sizeof_firmware
unfolding sealed_space
initial_sized = refl

-- A struct is what RETURN_ON_FAILURE lets through.
pub or_return_given :
    {T A : Type 0} (r : T × ℕ) (rest : T → T × Result A) (a : A)
    → (or_return r rest).1 ≡ ok a
    → (r.1 ≡ 0) × (or_return r rest ≡ rest r.0)
or_return_given r rest a h = elim (Bool-cases (truthy r.1)) [
  | inl failed ↦ absurd (ground (arith, h, failed))
  | inr fine ↦ (ground (arith, fine), rw fine refl)
]

module _ {T : Type 0} (tlcl : Tlcl T) (tpm : IsTpm tlcl) where
  -- What SetupTPM found, and that it stands in the space.
  pub record Found (t1 : T) (before : List ℕ) : Type 0 where
    pub sized : length before ≡ sizeof_firmware
    pub flags_found : flags (tpm.contents t1 firmware_nv_index) ≡ flags before
    pub versions_found : fw_versions (tpm.contents t1 firmware_nv_index) ≡ fw_versions before

  -- A new TPM: the space that was defined last holds the initial struct.
  record Initialised (before : List ℕ) (r : T × Result (List ℕ)) : Type 0 where
    initial : before ≡ sealed_space sizeof_firmware rsf_init
    stored : tpm.contents r.0 firmware_nv_index ≡ before

  -- A property of what is returned after a command that RETURN_ON_FAILURE guards.
  after_command :
      (P : T × Result (List ℕ) → Type 0) (r : T × ℕ) (rest : T → T × Result (List ℕ)) (s : List ℕ)
      → ((t : T) → (rest t).1 ≡ ok s → P (rest t))
      → (or_return r rest).1 ≡ ok s
      → P (or_return r rest)
  after_command P r rest s p h =
      let given = or_return_given r rest s h in
      subst P (sym given.1) (p r.0 (ap (λ x. x.1) (sym given.1) ∙ h))

  define_spaces-Initialised :
      (t : T) (before : List ℕ)
      → (define_spaces tlcl t).1 ≡ ok before
      → Initialised before (define_spaces tlcl t)
  unfolding define_spaces
  define_spaces-Initialised t before h =
      let bytes = sealed_space sizeof_firmware rsf_init in
      let finish : T → T × Result (List ℕ) = λ t5. (t5, ok bytes) in
      let write : T → T × Result (List ℕ) =
        λ t4. or_return (write_space_firmware tlcl t4 rsf_init) finish in
      let firmware : T → T × Result (List ℕ) = λ t3.
        or_return
          (safe_define_space tlcl t3 firmware_nv_index
            (bit_or tpm_nv_per_globallock tpm_nv_per_ppwrite) sizeof_firmware)
          write in
      let kernel_write : T → T × Result (List ℕ) =
        λ t2. or_return (write_space_kernel tlcl t2 rsk_init) firmware in
      let kernel : T → T × Result (List ℕ) = λ t1.
        or_return (safe_define_space tlcl t1 kernel_nv_index tpm_nv_per_ppwrite sizeof_kernel)
          kernel_write in
      let P = Initialised before in
      after_command P (safe_define_space tlcl t backup_nv_index tpm_nv_per_ppwrite backup_nv_size)
        kernel before
        (λ t1.
          after_command P
            (safe_define_space tlcl t1 kernel_nv_index tpm_nv_per_ppwrite sizeof_kernel)
            kernel_write before
            (λ t2. after_command P (write_space_kernel tlcl t2 rsk_init) firmware before (λ t3.
              after_command P
                (safe_define_space tlcl t3 firmware_nv_index
                  (bit_or tpm_nv_per_globallock tpm_nv_per_ppwrite) sizeof_firmware)
                write before (λ t4 e. last t4 e))))
        h
    where
      last :
          (t4 : T)
          → (or_return
              (write_space_firmware tlcl t4 rsf_init)
              (λ t5. (t5, ok (sealed_space sizeof_firmware rsf_init)))).1
            ≡ ok before
          → Initialised before (
              or_return
                (write_space_firmware tlcl t4 rsf_init)
                (λ t5. (t5, ok (sealed_space sizeof_firmware rsf_init))))
      last t4 e =
          let bytes = sealed_space sizeof_firmware rsf_init in
          let finish : T → T × Result (List ℕ) = λ t5. (t5, ok bytes) in
          let w = write_space_firmware tlcl t4 rsf_init in
          let given = or_return_given w finish before e in
          let same : bytes ≡ before = ground (arith, e, given) in
          subst (Initialised before) (sym given.1) (record {
            initial = sym same;
            stored =
                write-contents tlcl tpm 3 t4 firmware_nv_index sizeof_firmware bytes given.0 ∙ same;
          })

  one_time_initialize_tpm-Initialised :
      (t : T) (before : List ℕ)
      → (one_time_initialize_tpm tlcl t).1 ≡ ok before
      → Initialised before (one_time_initialize_tpm tlcl t)
  unfolding one_time_initialize_tpm
  one_time_initialize_tpm-Initialised t before h =
      let P = Initialised before in
      let clear : T → T × Result (List ℕ) =
        λ t5. or_return (tpm_clear_and_reenable tlcl t5) (define_spaces tlcl) in
      let lock : ℕ → T → T × Result (List ℕ) =
        λ locked t4. or_return (when tlcl (not (truthy locked)) tlcl.tlcl_set_nv_locked t4) clear in
      let presence : (ℕ × ℕ) → T → T × Result (List ℕ) = λ locks t3.
        or_return (when tlcl (not (truthy locks.0)) tlcl.tlcl_finalize_physical_presence t3)
          (lock locks.1) in
      let permanent : T → T × Result (List ℕ) =
        λ t1. let f = tlcl.tlcl_get_permanent_flags t1 in or_return (f.0, f.2) (presence f.1) in
      after_command P (tlcl.tlcl_self_test_full t) permanent before
        (λ t1.
          let f = tlcl.tlcl_get_permanent_flags t1 in
          after_command P (f.0, f.2) (presence f.1) before
            (λ t3.
              after_command P
                (when tlcl (not (truthy f.1.0)) tlcl.tlcl_finalize_physical_presence t3)
                (lock f.1.1) before
                (λ t4.
                  after_command P (when tlcl (not (truthy f.1.1)) tlcl.tlcl_set_nv_locked t4) clear
                    before
                    (λ t5.
                      after_command P (tpm_clear_and_reenable tlcl t5) (define_spaces tlcl) before
                        (λ t6. define_spaces-Initialised t6 before)))))
        h

  -- The space that was read, or that was defined.
  pub find_space-Found :
      (t : T) (r : T × Result (List ℕ)) (before : List ℕ)
      → read_space_firmware tlcl t ≡ r
      → (find_space tlcl r).1 ≡ ok before
      → Found (find_space tlcl r).0 before
        × (Accepted (tpm.contents t firmware_nv_index) sizeof_firmware before
            ⊎ (before ≡ sealed_space sizeof_firmware rsf_init))
  unfolding find_space
  find_space-Found t (t1, ok s) before e h =
      let read : (read_space_firmware tlcl t).1 ≡ ok before = ap (λ x. x.1) e ∙ h in
      let old = tpm.contents t firmware_nv_index in
      let kept : tpm.contents t1 firmware_nv_index ≡ old =
        ap (λ x. tpm.contents x.0 firmware_nv_index) (sym e)
        ∙ ap (λ c. c firmware_nv_index)
            (read-contents tlcl tpm 3 t firmware_nv_index sizeof_firmware) in
      let a = read-Accepted tlcl tpm 3 t firmware_nv_index sizeof_firmware before read in
      (
        record {
          sized = accepted-length old before 10 a;
          flags_found = ap flags kept ∙ sym (accepted-get old before 10 1 a (omega arith));
          versions_found =
              ap fw_versions kept ∙ sym (accepted-field32 old before 10 2 a (omega arith));
        },
        inl a,
      )
  find_space-Found t (t1, err code) before e h = elim (Bool-cases (code == tpm_e_badindex)) [
    | inr bad ↦ absurd (ground (arith, h, bad))
    | inl missing ↦
        let d = one_time_initialize_tpm-Initialised t1 before (ground (arith, h, missing)) in
        rw missing (
          record {
            sized = ap length d.initial ∙ initial_sized;
            flags_found = ap flags d.stored;
            versions_found = ap fw_versions d.stored;
          },
          inr d.initial,
        )
  ]
