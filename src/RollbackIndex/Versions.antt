-- ===== src/RollbackIndex/Versions.antt =====
-- firmware/lib/rollback_index.c: a version that was written is the version that is read.
use cbmc_vboot.Prelude.{
  ℕ, ◌+◌, ◌-◌, ◌*◌, ◌%◌, ◌/◌, ◌^◌, ◌<◌, ◌≡◌, ◌≢◌, inl, inr, refl, ap, sym, subst, ◌∙◌, arith, List,
  [], ◌∷◌, length, drop, ltb, if◌then◌else◌, Bool-cases, get_or, set, get_or-set_ne, length-set,
  Result, ok, err,
}
use cbmc_vboot.Prelude.Slices.{length-drop}
use cbmc_vboot.RollbackIndex.{
  Tlcl, firmware_nv_index, kernel_nv_index, sizeof_firmware, sizeof_kernel, struct_version,
  sealed_space, read_space_firmware, read_space_kernel, read_attempts, write_attempts,
}
use cbmc_vboot.RollbackIndex.Setup.{
  field32, with_field32, flags, fw_versions, uid, kernel_versions, then_write,
  rollback_firmware_write, check_permissions, rollback_kernel_read, rollback_kernel_write,
  rollback_space_kernel_uid, tpm_nv_per_ppwrite,
}
use cbmc_vboot.RollbackIndex.Spaces.{IsTpm, Accepted, read-Accepted, read-sealed, read_fails}
use cbmc_vboot.RollbackIndex.Writes.{write-contents}
use cbmc_vboot.Crc8.Vboot.{crc8}

-- Sealing changes the first and the last byte only.
pub sealed-get :
    (size i : ℕ) (s : List ℕ)
    → i ≢ 0
    → i ≢ size - 1
    → get_or (sealed_space size s) i 0 ≡ get_or s i 0
unfolding sealed_space
sealed-get size i s first last =
    let versioned = if ltb (struct_version s) 2 then set s 0 2 else s in
    let kept : get_or versioned i 0 ≡ get_or s i 0 = elim (Bool-cases (ltb (struct_version s) 2)) [
      | inl old ↦ rw old (get_or-set_ne s 0 i 2 0 (λ e. first (sym e)))
      | inr new ↦ rw new refl
    ] in
    get_or-set_ne versioned (size - 1) i (crc8 versioned (size - 1)) 0 (λ e. last (sym e)) ∙ kept

-- Two structs with the same four bytes.
pub field32_same :
    (s s' : List ℕ) (offset : ℕ)
    → ((i : ℕ) → i < 4 → get_or s (offset + i) 0 ≡ get_or s' (offset + i) 0)
    → field32 s offset ≡ field32 s' offset
field32_same s s' offset h =
    let h0 : get_or s offset 0 ≡ get_or s' offset 0 =
      subst (λ k. get_or s k 0 ≡ get_or s' k 0) (omega arith) (h 0 (omega arith)) in
    omega (arith, h0, h 1 (omega arith), h 2 (omega arith), h 3 (omega arith))

pub sealed-field32 :
    (size offset : ℕ) (s : List ℕ)
    → 0 < offset
    → offset + 4 < size
    → field32 (sealed_space size s) offset ≡ field32 s offset
sealed-field32 size offset s h l =
    field32_same (sealed_space size s) s offset (λ i b.
      sealed-get size (offset + i) s (λ e. omega (arith, e, h)) (λ e. omega (arith, e, l, b)))

-- Accepted bytes differ from those stored in the version at most.
pub accepted-get :
    (stored s : List ℕ) (size i : ℕ)
    → Accepted stored size s
    → i ≢ 0
    → get_or s i 0 ≡ get_or stored i 0
accepted-get stored s size i a first = elim a.from_space [
  | inl (_, e, _) ↦ ap (λ l. get_or l i 0) e
  | inr (_, e) ↦ ap (λ l. get_or l i 0) e ∙ get_or-set_ne stored 0 i 2 0 (λ z. first (sym z))
]

pub accepted-field32 :
    (stored s : List ℕ) (size offset : ℕ)
    → Accepted stored size s
    → 0 < offset
    → field32 s offset ≡ field32 stored offset
accepted-field32 stored s size offset a h =
    field32_same s stored offset
      (λ i b. accepted-get stored s size (offset + i) a (λ e. omega (arith, e, h)))

pub accepted-length : (stored s : List ℕ) (size : ℕ) → Accepted stored size s → length s ≡ size
accepted-length stored s size a = elim a.from_space [
  | inl (_, e, _) ↦ ap length e ∙ a.sized
  | inr (_, e) ↦ ap length e ∙ length-set stored 0 2 ∙ a.sized
]

four_bytes :
    (v : ℕ)
    → v < 2 ^ 32
    → v % 256
        + v / 256 % 256 * 2 ^ 8
        + v / 256 / 256 % 256 * 2 ^ 16
        + v / 256 / 256 / 256 % 256 * 2 ^ 24
      ≡ v
four_bytes v h = omega arith

versions_written :
    (s : List ℕ) (v : ℕ)
    → length s ≡ 10
    → v < 2 ^ 32
    → (field32 (with_field32 s 2 v) 2 ≡ v)
      × (flags (with_field32 s 2 v) ≡ flags s)
      × (length (with_field32 s 2 v) ≡ 10)
versions_written [] v l h = absurd (omega (arith, l))
versions_written (a ∷ []) v l h = absurd (omega (arith, l))
versions_written (a ∷ b ∷ s) v l h =
    let sized : length (with_field32 (a ∷ b ∷ s) 2 v) ≡ length (drop 4 s) + 6 = omega arith in
    (four_bytes v h, refl, omega (arith, sized, l, length-drop 4 s))

kernel_versions_written :
    (s : List ℕ) (v : ℕ)
    → length s ≡ 13
    → v < 2 ^ 32
    → (field32 (with_field32 s 5 v) 5 ≡ v)
      × (uid (with_field32 s 5 v) ≡ uid s)
      × (length (with_field32 s 5 v) ≡ 13)
kernel_versions_written (a ∷ b ∷ c ∷ d ∷ e ∷ s) v l h =
    let sized : length (with_field32 (a ∷ b ∷ c ∷ d ∷ e ∷ s) 5 v) ≡ length (drop 4 s) + 9 =
      omega arith in
    (four_bytes v h, refl, omega (arith, sized, l, length-drop 4 s))
kernel_versions_written [] v l h = absurd (omega (arith, l))
kernel_versions_written (a ∷ []) v l h = absurd (omega (arith, l))
kernel_versions_written (a ∷ b ∷ []) v l h = absurd (omega (arith, l))
kernel_versions_written (a ∷ b ∷ c ∷ []) v l h = absurd (omega (arith, l))
kernel_versions_written (a ∷ b ∷ c ∷ d ∷ []) v l h = absurd (omega (arith, l))

module _ {T : Type 0} (tlcl : Tlcl T) (tpm : IsTpm tlcl) where
  -- A write of a changed space that succeeds: the space was read, and it holds the sealed change.
  record Rewritten (t t' : T) (index size : ℕ) (change : List ℕ → List ℕ) : Type 0 where
    pub before : List ℕ
    accepted : Accepted (tpm.contents t index) size before
    after : tpm.contents t' index ≡ sealed_space size (change before)

  then_write-Rewritten :
      (t : T) (index size : ℕ) (change : List ℕ → List ℕ) (r : T × Result (List ℕ))
      → read_attempts tlcl 3 t index size ≡ r
      → let write : T → List ℕ → T × ℕ =
          λ t1 s. write_attempts tlcl 3 t1 index size (sealed_space size s) in
        let result = then_write tlcl r change write in
        result.1 ≡ 0 → Rewritten t result.0 index size change
  then_write-Rewritten t index size change (t1, ok s) e h = record {
    before = s;
    accepted = read-Accepted tlcl tpm 3 t index size s (ap (λ x. x.1) e);
    after = write-contents tlcl tpm 3 t1 index size (sealed_space size (change s)) h;
  }
  then_write-Rewritten t index size change (t1, err code) e h =
      absurd (read_fails tlcl tpm 3 t index size code (ap (λ x. x.1) e) h)

  -- RollbackFirmwareWrite: after a write of a 32-bit version that succeeds, a read of the space that
  -- the TPM answers gives a struct with that version, and with the flags that the space had before. The
  -- TPM keeps what is written to it.
  pub rollback_firmware_write-read :
      (version : ℕ) (t : T)
      → version < 2 ^ 32
      → (rollback_firmware_write tlcl version t).1 ≡ 0
      → (tlcl.tlcl_read
          (rollback_firmware_write tlcl version t).0
          firmware_nv_index
          sizeof_firmware).2
        ≡ 0
      → (s : List ℕ) × ((read_space_firmware tlcl (rollback_firmware_write tlcl version t).0).1
          ≡ ok s)
        × (fw_versions s ≡ version)
        × (flags s ≡ flags (tpm.contents t firmware_nv_index))
  unfolding rollback_firmware_write
  rollback_firmware_write-read version t w h fine =
      let change : List ℕ → List ℕ = λ rsf. with_field32 rsf 2 version in
      let r = read_space_firmware tlcl t in
      let d = then_write-Rewritten t firmware_nv_index sizeof_firmware change r refl h in
      let t' = (rollback_firmware_write tlcl version t).0 in
      let old = tpm.contents t firmware_nv_index in
      let written =
        versions_written d.before version (accepted-length old d.before 10 d.accepted) w in
      (
        sealed_space 10 (change d.before),
        read-sealed tlcl tpm 2 t' firmware_nv_index 10 (change d.before) (omega arith) written.2
            d.after fine,
        sealed-field32 10 2 (change d.before) (omega arith) (omega arith) ∙ written.0,
        sealed-get 10 1 (change d.before) (omega arith) (omega arith)
            ∙ written.1
            ∙ accepted-get old d.before 10 1 d.accepted (omega arith),
      )

  -- RollbackKernelWrite: where the kernel space has its identifier and its permission, which a TPM that
  -- answers reports, RollbackKernelRead gives the 32-bit version that a successful RollbackKernelWrite
  -- wrote before. The TPM keeps what is written to it.
  pub rollback_kernel_write-read :
      (version : ℕ) (t : T)
      → version < 2 ^ 32
      → uid (tpm.contents t kernel_nv_index) ≡ rollback_space_kernel_uid
      → (rollback_kernel_write tlcl version t).1 ≡ 0
      → let t' = (rollback_kernel_write tlcl version t).0 in
        (tlcl.tlcl_read t' kernel_nv_index sizeof_kernel).2 ≡ 0
        → let asked = tlcl.tlcl_get_permissions (read_space_kernel tlcl t').0 kernel_nv_index in
          (asked.1 ≡ tpm_nv_per_ppwrite)
          → (asked.2 ≡ 0)
          → (rollback_kernel_read tlcl t').1 ≡ ok version
  unfolding rollback_kernel_write rollback_kernel_read
  rollback_kernel_write-read version t w owned h fine allowed answered =
      let change : List ℕ → List ℕ = λ rsk. with_field32 rsk 5 version in
      let r = read_space_kernel tlcl t in
      let d = then_write-Rewritten t kernel_nv_index sizeof_kernel change r refl h in
      let t' = (rollback_kernel_write tlcl version t).0 in
      let old = tpm.contents t kernel_nv_index in
      let written =
        kernel_versions_written d.before version (accepted-length old d.before 13 d.accepted) w in
      let s = sealed_space 13 (change d.before) in
      let ver : kernel_versions s ≡ version =
        sealed-field32 13 5 (change d.before) (omega arith) (omega arith) ∙ written.0 in
      let named : uid s ≡ rollback_space_kernel_uid =
        sealed-field32 13 1 (change d.before) (omega arith) (omega arith)
        ∙ written.1
        ∙ accepted-field32 old d.before 13 1 d.accepted (omega arith)
        ∙ owned in
      checked (read_space_kernel tlcl t') s
        (read-sealed tlcl tpm 2 t' kernel_nv_index 13 (change d.before) (omega arith) written.2
          d.after fine)
        named ver allowed answered
    where
      checked :
          (r : T × Result (List ℕ)) (s : List ℕ)
          → r.1 ≡ ok s
          → uid s ≡ rollback_space_kernel_uid
          → kernel_versions s ≡ version
          → (tlcl.tlcl_get_permissions r.0 kernel_nv_index).1 ≡ tpm_nv_per_ppwrite
          → (tlcl.tlcl_get_permissions r.0 kernel_nv_index).2 ≡ 0
          → (check_permissions tlcl r).1 ≡ ok version
      checked (t1, err code) s e named ver allowed answered = absurd (cc)
      checked (t1, ok s') s e named ver allowed answered =
          let same : s' ≡ s = cc in
          let named' : uid s' ≡ rollback_space_kernel_uid = ap uid same ∙ named in
          rw (answered, allowed, named') (ap ok (ap kernel_versions same ∙ ver))
