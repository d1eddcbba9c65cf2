-- ===== src/RollbackIndex/Flags.antt =====
-- firmware/lib/rollback_index.c: the flags that SetupTPM works out.
use cbmc_vboot.Prelude.{
  ℕ, ◌≡◌, inl, inr, refl, sym, subst, ◌∙◌, arith, bit_and, true, false, not, ◌||◌, ◌&&◌, ◌==◌,
  truthy, if◌then◌else◌, Bool-cases, has_flag, set,
}
use cbmc_vboot.Prelude.Bits.{and_assoc, flag_self, flag_other, and-zero}
use cbmc_vboot.RollbackIndex.Setup.{
  flag_last_boot_developer, flag_virtual_dev_mode_on, asked_flags, is_developer, out_flags,
  must_clear,
}

-- The virtual switch after a request to turn it off.
pub asked_flags-virtual :
    (disable in_flags : ℕ)
    → has_flag (asked_flags disable in_flags) flag_virtual_dev_mode_on
      ≡ (has_flag in_flags flag_virtual_dev_mode_on && not (truthy disable))
asked_flags-virtual disable in_flags = elim (Bool-cases (truthy disable)) [
  | inl off ↦
      rw (off, and_assoc in_flags 0xfd 2, and-zero in_flags)
        (elim (Bool-cases (has_flag in_flags 2)) [
          | inl set ↦ rw set refl
          | inr unset ↦ rw unset refl
        ])
  | inr on ↦ rw on (elim (Bool-cases (has_flag in_flags 2)) [
    | inl set ↦ rw set refl
    | inr unset ↦ rw unset refl
  ])
]

-- The last-boot flag is the developer mode, and the virtual switch is left alone.
pub out_flags-developer :
    (developer disable in_flags : ℕ)
    → has_flag (out_flags developer disable in_flags) flag_last_boot_developer
      ≡ is_developer developer disable in_flags
out_flags-developer developer disable in_flags =
    let asked = asked_flags disable in_flags in
    elim (Bool-cases (is_developer developer disable in_flags)) [
      | inl on ↦ rw (on, flag_self asked 1) refl
      | inr off ↦ rw (off, and_assoc asked 0xfe 1, and-zero asked) refl
    ]

pub out_flags-virtual :
    (developer disable in_flags : ℕ)
    → has_flag (out_flags developer disable in_flags) flag_virtual_dev_mode_on
      ≡ has_flag (asked_flags disable in_flags) flag_virtual_dev_mode_on
out_flags-virtual developer disable in_flags =
    let asked = asked_flags disable in_flags in
    elim (Bool-cases (is_developer developer disable in_flags)) [
      | inl on ↦ rw (on, flag_other asked 1 2 refl) refl
      | inr off ↦ rw (off, and_assoc asked 0xfe 2) refl
    ]

-- Where nothing asks for a clear, the last boot was in the same mode.
pub not_must_clear :
    (developer disable clear in_flags : ℕ)
    → must_clear developer disable clear in_flags ≡ false
    → (has_flag (out_flags developer disable in_flags) flag_last_boot_developer
        ≡ has_flag in_flags flag_last_boot_developer)
      × (truthy clear ≡ false)
not_must_clear developer disable clear in_flags h =
    let settled = out_flags-developer developer disable in_flags in
    elim (Bool-cases (is_developer developer disable in_flags)) [
      | inl on ↦
          let e : not (1 == bit_and in_flags 1) || truthy clear ≡ false =
            subst (λ b. (not ((if b then 1 else 0) == bit_and in_flags 1) || truthy clear) ≡ false)
              on h in
          let last : has_flag in_flags flag_last_boot_developer ≡ true = ground (arith, e) in
          (settled ∙ on ∙ sym last, ground (arith, e))
      | inr off ↦
          let e : not (0 == bit_and in_flags 1) || truthy clear ≡ false =
            subst (λ b. (not ((if b then 1 else 0) == bit_and in_flags 1) || truthy clear) ≡ false)
              off h in
          let last : has_flag in_flags flag_last_boot_developer ≡ false = ground (arith, e) in
          (settled ∙ off ∙ sym last, ground (arith, e))
    ]
