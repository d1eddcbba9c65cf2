-- ===== src/RollbackIndex/Spaces.antt =====
-- firmware/lib/rollback_index.c: what is read from a space, and that it is what was written.
use cbmc_vboot.Prelude.{
  ℕ, zero, suc, ◌-◌, ◌≤◌, ◌≡◌, ◌≢◌, ◌⊎◌, inl, inr, refl, ap, sym, subst, ◌∙◌, arith, true, false,
  List, length, ltb, truthy, if◌then◌else◌, Bool-cases, get_or, set, get_or-set_self, get_or-set_ne,
  length-set, ok, err,
}
use cbmc_vboot.Crc8.Errors.{vb2_crc8-set_ge}
use cbmc_vboot.Crc8.Vboot.{crc8, crc8_same}
use cbmc_vboot.RollbackIndex.{
  Tlcl, struct_version, crc_is_good, sealed_space, read_attempts, return_on_failure,
}

-- What the code relies on of a TPM: a space keeps the bytes that were last written to it, a read does
-- not change it, and clearing the owner leaves the spaces of the firmware. An owner stays cleared.
pub record IsTpm {T : Type 0} (tlcl : Tlcl T) : Type 1 where
  pub contents : T → ℕ → List ℕ
  pub Cleared : T → Type 0
  pub read_gives :
      (t : T) (index size : ℕ)
      → (tlcl.tlcl_read t index size).2 ≡ 0
      → ((tlcl.tlcl_read t index size).1 ≡ contents t index) × (length (contents t index) ≡ size)
  pub read_keeps : (t : T) (index size : ℕ) → contents (tlcl.tlcl_read t index size).0 ≡ contents t
  pub write_gives :
      (t : T) (index : ℕ) (bytes : List ℕ)
      → (tlcl.tlcl_write t index bytes).1 ≡ 0
      → contents (tlcl.tlcl_write t index bytes).0 index ≡ bytes
  pub clear_keeps : (t : T) → contents (tlcl.tlcl_force_clear t).0 ≡ contents t
  pub enable_keeps : (t : T) → contents (tlcl.tlcl_set_enable t).0 ≡ contents t
  pub activate_keeps :
      (t : T) (flag : ℕ) → contents (tlcl.tlcl_set_deactivated t flag).0 ≡ contents t
  pub init_keeps : (t : T) → contents (tlcl.tlcl_lib_init t).0 ≡ contents t
  pub startup_keeps : (t : T) → contents (tlcl.tlcl_startup t).0 ≡ contents t
  pub presence_keeps : (t : T) → contents (tlcl.tlcl_assert_physical_presence t).0 ≡ contents t
  pub presence_enable_keeps :
      (t : T) → contents (tlcl.tlcl_physical_presence_cmd_enable t).0 ≡ contents t
  pub flags_keeps : (t : T) → contents (tlcl.tlcl_get_flags t).0 ≡ contents t
  pub clear_gives : (t : T) → (tlcl.tlcl_force_clear t).1 ≡ 0 → Cleared (tlcl.tlcl_force_clear t).0
  pub clear_clear : (t : T) → Cleared t → Cleared (tlcl.tlcl_force_clear t).0
  pub enable_clear : (t : T) → Cleared t → Cleared (tlcl.tlcl_set_enable t).0
  pub activate_clear : (t : T) (flag : ℕ) → Cleared t → Cleared (tlcl.tlcl_set_deactivated t flag).0
  pub read_clear : (t : T) (index size : ℕ) → Cleared t → Cleared (tlcl.tlcl_read t index size).0
  pub write_clear :
      (t : T) (index : ℕ) (bytes : List ℕ) → Cleared t → Cleared (tlcl.tlcl_write t index bytes).0

-- Sealed bytes have a version and a checksum that ReadSpaceFirmware and ReadSpaceKernel accept.
pub sealed_lem :
    (size : ℕ) (s : List ℕ)
    → 2 ≤ size
    → length s ≡ size
    → (ltb (struct_version (sealed_space size s)) 2 ≡ false)
      × (crc_is_good size (sealed_space size s) ≡ true)
unfolding sealed_space
sealed_lem size s h l =
    let versioned = if ltb (struct_version s) 2 then set s 0 2 else s in
    let crc = crc8 versioned (size - 1) in
    let new_enough : ltb (struct_version versioned) 2 ≡ false =
      elim (Bool-cases (ltb (struct_version s) 2)) [
        | inl old ↦ rw old (rw (get_or-set_self s 0 2 0 (omega (arith, h, l))) refl)
        | inr new ↦ rw new new
      ] in
    let sized : length versioned ≡ size = elim (Bool-cases (ltb (struct_version s) 2)) [
      | inl old ↦ rw old (length-set s 0 2 ∙ l)
      | inr new ↦ rw new l
    ] in
    let kept : struct_version (set versioned (size - 1) crc) ≡ struct_version versioned =
      get_or-set_ne versioned (size - 1) 0 crc 0 (λ e. omega (arith, e, h)) in
    let stored : get_or (set versioned (size - 1) crc) (size - 1) 0 ≡ crc =
      get_or-set_self versioned (size - 1) crc 0 (omega (arith, sized, h)) in
    let same : crc8 (set versioned (size - 1) crc) (size - 1) ≡ crc =
      crc8_same (set versioned (size - 1) crc) (size - 1)
      ∙ vb2_crc8-set_ge versioned (size - 1) (size - 1) crc (omega arith)
      ∙ sym (crc8_same versioned (size - 1)) in
    (ap (λ v. ltb v 2) kept ∙ new_enough, ground (arith, stored, same))

-- A read of a space gives the bytes stored there, whose checksum is good, or bytes of a version below
-- 2, which has no checksum, with the version 2.
pub record Accepted (stored : List ℕ) (size : ℕ) (s : List ℕ) : Type 0 where
  pub sized : length stored ≡ size
  pub from_space :
      ((ltb (struct_version stored) 2 ≡ false) × (s ≡ stored) × (crc_is_good size s ≡ true))
      ⊎ ((ltb (struct_version stored) 2 ≡ true) × (s ≡ set stored 0 2))

-- A call that RETURN_ON_FAILURE guards, where success is returned.
pub return_given :
    {T : Type 0} (r : T × ℕ) (rest : T → T × ℕ)
    → (return_on_failure r rest).1 ≡ 0
    → (r.1 ≡ 0) × (return_on_failure r rest ≡ rest r.0)
return_given r rest h = elim (Bool-cases (truthy r.1)) [
  | inl failed ↦ absurd (ground (arith, h, failed))
  | inr fine ↦ (ground (arith, fine), rw fine refl)
]

module _ {T : Type 0} (tlcl : Tlcl T) (tpm : IsTpm tlcl) where
  pub read-contents :
      (attempts : ℕ) (t : T) (index size : ℕ)
      → tpm.contents (read_attempts tlcl attempts t index size).0 ≡ tpm.contents t
  unfolding read_attempts
  read-contents zero t index size = refl
  read-contents (suc attempts) t index size =
      let r = tlcl.tlcl_read t index size in
      let keeps = tpm.read_keeps t index size in
      elim (Bool-cases (truthy r.2)) [
        | inl failed ↦ rw failed keeps
        | inr read ↦ elim (Bool-cases (ltb (struct_version r.1) 2)) [
          | inl old ↦ rw (read, old) keeps
          | inr new ↦ elim (Bool-cases (crc_is_good size r.1)) [
            | inl good ↦ rw (read, new, good) keeps
            | inr bad ↦ rw (read, new, bad) (read-contents attempts r.0 index size ∙ keeps)
          ]
        ]
      ]

  pub read-Accepted :
      (attempts : ℕ) (t : T) (index size : ℕ) (s : List ℕ)
      → (read_attempts tlcl attempts t index size).1 ≡ ok s
      → Accepted (tpm.contents t index) size s
  unfolding read_attempts
  read-Accepted zero t index size s h = cc
  read-Accepted (suc attempts) t index size s h =
      let r = tlcl.tlcl_read t index size in
      elim (Bool-cases (truthy r.2)) [
        | inl failed ↦ absurd (ground (arith, h, failed))
        | inr read ↦
            let gives = tpm.read_gives t index size (ground (arith, read)) in
            elim (Bool-cases (ltb (struct_version r.1) 2)) [
              | inl old ↦
                  let e : set r.1 0 2 ≡ s = ground (arith, h, read, old) in
                  record {
                    sized = gives.1;
                    from_space = inr (
                      subst (λ b. ltb (struct_version b) 2 ≡ true) gives.0 old,
                      sym e ∙ ap (λ b. set b 0 2) gives.0,
                    );
                  }
              | inr new ↦ elim (Bool-cases (crc_is_good size r.1)) [
                | inl good ↦
                    let e : r.1 ≡ s = ground (arith, h, read, new, good) in
                    record {
                      sized = gives.1;
                      from_space = inl (
                        subst (λ b. ltb (struct_version b) 2 ≡ false) gives.0 new,
                        sym e ∙ gives.0,
                        subst (λ b. crc_is_good size b ≡ true) e good,
                      );
                    }
                | inr bad ↦
                    let a =
                      read-Accepted attempts r.0 index size s (ground (arith, h, read, new, bad)) in
                    subst (λ c. Accepted (c index) size s) (tpm.read_keeps t index size) a
              ]
            ]
      ]

  -- Sealed bytes are read as they are, at the first attempt.
  pub read-sealed :
      (attempts : ℕ) (t : T) (index size : ℕ) (s : List ℕ)
      → 2 ≤ size
      → length s ≡ size
      → tpm.contents t index ≡ sealed_space size s
      → (tlcl.tlcl_read t index size).2 ≡ 0
      → (read_attempts tlcl (suc attempts) t index size).1 ≡ ok (sealed_space size s)
  unfolding read_attempts
  read-sealed attempts t index size s h l stored fine =
      let bytes : (tlcl.tlcl_read t index size).1 ≡ sealed_space size s =
        (tpm.read_gives t index size fine).0 ∙ stored in
      let good = sealed_lem size s h l in rw (fine, bytes, good.0, good.1) refl

  -- A read that fails says so.
  pub read_fails :
      (attempts : ℕ) (t : T) (index size code : ℕ)
      → (read_attempts tlcl attempts t index size).1 ≡ err code
      → code ≢ 0
  unfolding read_attempts
  read_fails zero t index size code h = λ e. cc
  read_fails (suc attempts) t index size code h =
      let r = tlcl.tlcl_read t index size in
      elim (Bool-cases (truthy r.2)) [
        | inl failed ↦ λ e. ground (arith, h, failed, e)
        | inr read ↦ elim (Bool-cases (ltb (struct_version r.1) 2)) [
          | inl old ↦ absurd (ground (arith, h, read, old))
          | inr new ↦ elim (Bool-cases (crc_is_good size r.1)) [
            | inl good ↦ absurd (ground (arith, h, read, new, good))
            | inr bad ↦ read_fails attempts r.0 index size code (ground (arith, h, read, new, bad))
          ]
        ]
      ]

  pub read-Cleared :
      (attempts : ℕ) (t : T) (index size : ℕ)
      → tpm.Cleared t
      → tpm.Cleared (read_attempts tlcl attempts t index size).0
  unfolding read_attempts
  read-Cleared zero t index size c = c
  read-Cleared (suc attempts) t index size c =
      let r = tlcl.tlcl_read t index size in
      let still = tpm.read_clear t index size c in
      elim (Bool-cases (truthy r.2)) [
        | inl failed ↦ rw failed still
        | inr read ↦ elim (Bool-cases (ltb (struct_version r.1) 2)) [
          | inl old ↦ rw (read, old) still
          | inr new ↦ elim (Bool-cases (crc_is_good size r.1)) [
            | inl good ↦ rw (read, new, good) still
            | inr bad ↦ rw (read, new, bad) (read-Cleared attempts r.0 index size still)
          ]
        ]
      ]
