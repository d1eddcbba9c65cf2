-- ===== src/RollbackIndex/Settled.antt =====
-- firmware/lib/rollback_index.c: what a SetupTPM that succeeds leaves in the firmware space.
use cbmc_vboot.Prelude.{
  ℕ, ◌+◌, ◌≡◌, ◌⊎◌, inl, inr, refl, ap, sym, subst, ◌∙◌, arith, true, false, not, ◌||◌, ◌&&◌, List,
  ◌==◌, truthy, if◌then◌else◌, Bool-cases, has_flag, set, get_or-set_self, get_or-set_ne, Result,
  ok, err,
}
use cbmc_vboot.RollbackIndex.{
  Tlcl, tpm_e_must_reboot, firmware_nv_index, sizeof_firmware, or_return, sealed_space,
  tpm_clear_and_reenable, read_space_firmware, write_space_firmware,
}
use cbmc_vboot.RollbackIndex.Setup.{
  flag_last_boot_developer, flag_virtual_dev_mode_on, flags, fw_versions, rsf_init, out_flags,
  must_clear, when, settle_space, find_space, then_settle, assert_presence, setup_enabled,
  setup_tpm,
}
use cbmc_vboot.RollbackIndex.Spaces.{IsTpm, Accepted}
use cbmc_vboot.RollbackIndex.Writes.{clear-contents, clear-Cleared, write-contents, write-Cleared}
use cbmc_vboot.RollbackIndex.Versions.{field32_same, sealed-get, sealed-field32}
use cbmc_vboot.RollbackIndex.Flags.{
  asked_flags-virtual, out_flags-developer, out_flags-virtual, not_must_clear,
}
use cbmc_vboot.RollbackIndex.Found.{or_return_given, Found, find_space-Found}

module _ {T : Type 0} (tlcl : Tlcl T) (tpm : IsTpm tlcl) where
  -- The flags of a space that was found, after SetupTPM: the boot is in developer mode where the
  -- hardware switch or the virtual one says so, the virtual switch is off where that is asked, and the
  -- owner is cleared where the mode changed or where that is asked. The versions are kept, and the
  -- TPM holds what is returned.
  pub record Settles (developer disable clear : ℕ) (before : List ℕ) (t' : T) (rsf : List ℕ)
      : Type 0 where
    pub developer_mode :
        has_flag (flags rsf) flag_last_boot_developer
        ≡ (truthy developer || has_flag (flags rsf) flag_virtual_dev_mode_on)
    pub virtual_switch :
        has_flag (flags rsf) flag_virtual_dev_mode_on
        ≡ (has_flag (flags before) flag_virtual_dev_mode_on && not (truthy disable))
    pub cleared :
        ((has_flag (flags rsf) flag_last_boot_developer
            ≡ has_flag (flags before) flag_last_boot_developer)
          × (truthy clear ≡ false))
        ⊎ tpm.Cleared t'
    pub versions : fw_versions rsf ≡ fw_versions before
    pub flags_stored : flags (tpm.contents t' firmware_nv_index) ≡ flags rsf
    pub versions_stored : fw_versions (tpm.contents t' firmware_nv_index) ≡ fw_versions rsf

  settles :
      (developer disable clear : ℕ) (before : List ℕ) (t' : T) (rsf : List ℕ)
      → flags rsf ≡ out_flags developer disable (flags before)
      → fw_versions rsf ≡ fw_versions before
      → (flags (tpm.contents t' firmware_nv_index) ≡ flags rsf)
      → (fw_versions (tpm.contents t' firmware_nv_index) ≡ fw_versions rsf)
      → ((must_clear developer disable clear (flags before) ≡ true) → tpm.Cleared t')
      → Settles developer disable clear before t' rsf
  settles developer disable clear before t' rsf f v fs vs c =
      let virtual = ap (λ x. has_flag x 2) f ∙ out_flags-virtual developer disable (flags before) in
      record {
        developer_mode =
            ap (λ x. has_flag x 1) f
            ∙ out_flags-developer developer disable (flags before)
            ∙ ap (λ b. truthy developer || b) (sym virtual);
        virtual_switch = virtual ∙ asked_flags-virtual disable (flags before);
        cleared = elim (Bool-cases (must_clear developer disable clear (flags before))) [
          | inl must ↦ inr (c must)
          | inr not_asked ↦
              let same = not_must_clear developer disable clear (flags before) not_asked in
              inl (ap (λ x. has_flag x 1) f ∙ same.0, same.1)
        ];
        versions = v;
        flags_stored = fs;
        versions_stored = vs;
      }

  settle_space-Settles :
      (developer disable clear : ℕ) (t1 : T) (before rsf : List ℕ)
      → Found tlcl tpm t1 before
      → (settle_space tlcl developer disable clear t1 before).1 ≡ ok rsf
      → Settles developer disable clear before
          (settle_space tlcl developer disable clear t1 before).0
          rsf
  unfolding settle_space
  settle_space-Settles developer disable clear t1 before rsf found h =
      let out = out_flags developer disable (flags before) in
      let changed = set before 1 out in
      let must = must_clear developer disable clear (flags before) in
      let asked = when tlcl must (tpm_clear_and_reenable tlcl) t1 in
      let write = write_space_firmware tlcl asked.0 changed in
      let finish : T → T × Result (List ℕ) =
        λ t2. (t2, ok (sealed_space sizeof_firmware changed)) in
      let rest : T → T × Result (List ℕ) = λ t.
        if out == flags before
        then (t, ok changed)
        else or_return (write_space_firmware tlcl t changed) finish in
      let given = or_return_given asked rest rsf h in
      let kept : tpm.contents asked.0 ≡ tpm.contents t1 = elim (Bool-cases must) [
        | inl asks ↦ rw asks (clear-contents tlcl tpm t1)
        | inr fine ↦ rw fine refl
      ] in
      let cleared : must ≡ true → tpm.Cleared asked.0 = λ asks. rw asks (
        clear-Cleared tlcl tpm t1
          (ap (λ b. (when tlcl b (tpm_clear_and_reenable tlcl) t1).1) (sym asks) ∙ given.0)) in
      let new_flags : flags changed ≡ out =
        get_or-set_self before 1 out 0 (omega (arith, found.sized)) in
      let same_versions : fw_versions changed ≡ fw_versions before =
        field32_same changed before 2 (λ i b. get_or-set_ne before 1 (2 + i) out 0 (omega arith)) in
      let h' : (rest asked.0).1 ≡ ok rsf = ap (λ x. x.1) (sym given.1) ∙ h in
      subst (λ x. Settles developer disable clear before x.0 rsf) (sym given.1)
        (elim (Bool-cases (out == flags before)) [
          | inl same ↦
              let e : changed ≡ rsf = ground (arith, h', same) in
              let out_same : out ≡ flags before = ground (arith, same) in
              rw same (
                settles developer disable clear before asked.0 rsf (ap flags (sym e) ∙ new_flags)
                  (ap fw_versions (sym e) ∙ same_versions)
                  (ap (λ c. flags (c firmware_nv_index)) kept
                    ∙ found.flags_found
                    ∙ sym out_same
                    ∙ sym new_flags
                    ∙ ap flags e)
                  (ap (λ c. fw_versions (c firmware_nv_index)) kept
                    ∙ found.versions_found
                    ∙ sym same_versions
                    ∙ ap fw_versions e)
                  cleared)
          | inr differs ↦
              let given' = or_return_given write finish rsf (ground (arith, h', differs)) in
              let bytes = sealed_space sizeof_firmware changed in
              let e : bytes ≡ rsf = ground (arith, h', differs, given') in
              let stored : tpm.contents write.0 firmware_nv_index ≡ bytes =
                write-contents tlcl tpm 3 asked.0 firmware_nv_index sizeof_firmware bytes
                  given'.0 in
              rw differs (
                subst (λ x. Settles developer disable clear before x.0 rsf) (sym given'.1)
                  (settles developer disable clear before write.0 rsf
                    (ap flags (sym e)
                      ∙ sealed-get 10 1 changed (omega arith) (omega arith)
                      ∙ new_flags)
                    (ap fw_versions (sym e)
                      ∙ sealed-field32 10 2 changed (omega arith) (omega arith)
                      ∙ same_versions)
                    (ap flags (stored ∙ e)) (ap fw_versions (stored ∙ e))
                    (λ m.
                      write-Cleared tlcl tpm 3 asked.0 firmware_nv_index sizeof_firmware bytes
                        (cleared m))))
        ])

  -- SetupTPM that succeeds: the struct that it fills settles the flags of the space that it found, or
  -- of the new space of a TPM that had none.
  pub record Settled (developer disable clear : ℕ) (t t' : T) (rsf : List ℕ) : Type 0 where
    pub before : List ℕ
    pub found :
        Accepted (tpm.contents t firmware_nv_index) sizeof_firmware before
        ⊎ (before ≡ sealed_space sizeof_firmware rsf_init)
    pub settled : Settles developer disable clear before t' rsf

  Settled-contents :
      (developer disable clear : ℕ) (t t1 t' : T) (rsf : List ℕ)
      → tpm.contents t1 ≡ tpm.contents t
      → Settled developer disable clear t1 t' rsf
      → Settled developer disable clear t t' rsf
  Settled-contents developer disable clear t t1 t' rsf e d = record {
    before = d.before;
    found =
        subst
          (λ c.
            Accepted (c firmware_nv_index) sizeof_firmware d.before
            ⊎ (d.before ≡ sealed_space sizeof_firmware rsf_init))
          e d.found;
    settled = d.settled;
  }

  then_settle-Settled :
      (developer disable clear : ℕ) (t : T) (q : T × Result (List ℕ)) (rsf : List ℕ)
      → ((before : List ℕ)
          → q.1 ≡ ok before
          → Found tlcl tpm q.0 before
            × (Accepted (tpm.contents t firmware_nv_index) sizeof_firmware before
                ⊎ (before ≡ sealed_space sizeof_firmware rsf_init)))
      → (then_settle tlcl developer disable clear q).1 ≡ ok rsf
      → Settled developer disable clear t (then_settle tlcl developer disable clear q).0 rsf
  then_settle-Settled developer disable clear t (t1, err code) rsf f h = absurd (cc)
  then_settle-Settled developer disable clear t (t1, ok before) rsf f h = record {
    before = before;
    found = (f before refl).1;
    settled = settle_space-Settles developer disable clear t1 before rsf (f before refl).0 h;
  }

  setup_enabled-Settled :
      (developer disable clear : ℕ) (t : T) (rsf : List ℕ)
      → (setup_enabled tlcl developer disable clear t).1 ≡ ok rsf
      → Settled developer disable clear t (setup_enabled tlcl developer disable clear t).0 rsf
  unfolding setup_enabled
  setup_enabled-Settled developer disable clear t rsf h =
      let f = tlcl.tlcl_get_flags t in
      let t2 = f.0 in
      let off = truthy f.1.0 || truthy f.1.1 in
      let reboot : T → T × Result (List ℕ) = λ t4. (t4, err tpm_e_must_reboot) in
      let activate : T → T × Result (List ℕ) =
        λ t3. or_return (tlcl.tlcl_set_deactivated t3 0) reboot in
      let settle : T → T × Result (List ℕ) = λ t2.
        then_settle tlcl developer disable clear (find_space tlcl (read_space_firmware tlcl t2)) in
      let rest : T → T × Result (List ℕ) =
        λ t2. if off then or_return (tlcl.tlcl_set_enable t2) activate else settle t2 in
      let given = or_return_given (t2, f.2) rest rsf h in
      let h' : (rest t2).1 ≡ ok rsf = ap (λ x. x.1) (sym given.1) ∙ h in
      subst (λ x. Settled developer disable clear t x.0 rsf) (sym given.1)
        (elim (Bool-cases off) [
          | inl disabled ↦
              let enable = tlcl.tlcl_set_enable t2 in
              let e1 : (or_return enable activate).1 ≡ ok rsf =
                ap (λ b. (if b then or_return enable activate else settle t2).1) (sym disabled)
                ∙ h' in
              let g1 = or_return_given enable activate rsf e1 in
              let e2 : (activate enable.0).1 ≡ ok rsf = ap (λ x. x.1) (sym g1.1) ∙ e1 in
              let g2 = or_return_given (tlcl.tlcl_set_deactivated enable.0 0) reboot rsf e2 in
              absurd (cc)
          | inr on ↦ rw on (
              Settled-contents developer disable clear t t2 (settle t2).0 rsf (tpm.flags_keeps t) (
                then_settle-Settled developer disable clear t2
                  (find_space tlcl (read_space_firmware tlcl t2)) rsf
                  (λ before e.
                    find_space-Found tlcl tpm t2 (read_space_firmware tlcl t2) before refl e)
                  (ap
                      (λ b.
                        (if b then or_return (tlcl.tlcl_set_enable t2) activate else settle t2).1)
                      (sym on)
                    ∙ h')))
        ])

  assert_presence-contents : (t : T) → tpm.contents (assert_presence tlcl t).0 ≡ tpm.contents t
  unfolding assert_presence
  assert_presence-contents t =
      let first = tlcl.tlcl_assert_physical_presence t in
      let enabled = tlcl.tlcl_physical_presence_cmd_enable first.0 in
      let kept = tpm.presence_keeps t in
      let kept' = tpm.presence_enable_keeps first.0 ∙ kept in
      elim (Bool-cases (truthy first.1)) [
        | inr fine ↦ rw fine kept
        | inl failed ↦ elim (Bool-cases (truthy enabled.1)) [
          | inl again ↦ rw (failed, again) kept'
          | inr fine ↦ rw (failed, fine) (tpm.presence_keeps enabled.0 ∙ kept')
        ]
      ]

  -- A SetupTPM that succeeds, with a TPM that keeps what is written to it, fills a struct for which this
  -- holds. The space that it starts from is the one in the TPM, read with a good checksum or of a version
  -- that has none, or the initial one. The flag of the last boot is set exactly where the developer
  -- switch that is passed or the struct's virtual switch is on. The virtual switch is that of the space,
  -- and off where that is asked. The owner was cleared, or the mode is that of the last boot and no clear
  -- was asked. The versions are those of the space, and the TPM holds the struct's versions and flags.
  pub setup_tpm-Settled :
      (developer disable clear : ℕ) (t : T) (rsf : List ℕ)
      → (setup_tpm tlcl developer disable clear t).1 ≡ ok rsf
      → Settled developer disable clear t (setup_tpm tlcl developer disable clear t).0 rsf
  unfolding setup_tpm
  setup_tpm-Settled developer disable clear t rsf h =
      let init = tlcl.tlcl_lib_init t in
      let start = tlcl.tlcl_startup init.0 in
      let present = assert_presence tlcl start.0 in
      let enabled = setup_enabled tlcl developer disable clear in
      let presence : T → T × Result (List ℕ) = λ t2. or_return (assert_presence tlcl t2) enabled in
      let startup : T → T × Result (List ℕ) = λ t1. or_return (tlcl.tlcl_startup t1) presence in
      let kept : tpm.contents present.0 ≡ tpm.contents t =
        assert_presence-contents start.0 ∙ tpm.startup_keeps init.0 ∙ tpm.init_keeps t in
      let g1 = or_return_given init startup rsf h in
      let g2 = or_return_given start presence rsf (ap (λ x. x.1) (sym g1.1) ∙ h) in
      let g3 = or_return_given present enabled rsf (ap (λ x. x.1) (sym (g1.1 ∙ g2.1)) ∙ h) in
      let all = g1.1 ∙ g2.1 ∙ g3.1 in
      subst (λ x. Settled developer disable clear t x.0 rsf) (sym all)
        (Settled-contents developer disable clear t present.0 (enabled present.0).0 rsf kept (
          setup_enabled-Settled developer disable clear present.0 rsf
            (ap (λ x. x.1) (sym all) ∙ h)))
