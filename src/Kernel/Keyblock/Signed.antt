-- ===== src/Kernel/Keyblock/Signed.antt =====
-- lib20/kernel.c: the kernel keyblocks that vb2_load_kernel_keyblock accepts, and those that it
-- marks as signed.
use cbmc_vboot.Prelude.{
  ℕ, ◌*◌, ◌/◌, ◌%◌, ◌^◌, ◌≤◌, ◌<◌, ◌≡◌, ◌↔◌, ◌⊎◌, inl, inr, refl, ap, sym, subst, ◌∙◌, Bool, true,
  false, not, ◌&&◌, truthy, Bool-cases, arith, has_flag, ◌-◌, Option, some, none, Result, ok, err,
  if◌then◌else◌,
}
use cbmc_vboot.Prelude.Bits.{flag_self, and_assoc, and-zero}
use cbmc_vboot.Context.{Context, vb2_success, context_recovery_mode, context_developer_mode}
use cbmc_vboot.Common.{Workbuf, add64, add32, vb2_workbuf_alloc, vb2_workbuf_realloc}
use cbmc_vboot.Keys.{Memory, Keyblock, packed_key_at, keyblock_at, sizeof_keyblock}
use cbmc_vboot.Keys.Unpack.{PublicKey, vb2_unpack_key}
use cbmc_vboot.Keys.Verify.{Crypto}
use cbmc_vboot.Keys.Block.{vb2_verify_keyblock}
use cbmc_vboot.Firmware.{Machine, kernel_vblock, ReadResource, vb2_workbuf_from_ctx}
use cbmc_vboot.Firmware.Placed.{IsHeld}
use cbmc_vboot.Firmware.Reads.{after_read}
use cbmc_vboot.Firmware.Preamble.Reached.{unpack_fails}
use cbmc_vboot.Kernel.{vb2_need_signed_kernel, vb2_verify_keyblock_hash}
use cbmc_vboot.Kernel.Keyblock.{
  sd_flag_kernel_signed, key_block_flag_developer_0, key_block_flag_developer_1,
  key_block_flag_recovery_0, key_block_flag_recovery_1, clear_signed, mode_code,
  move_kernel_data_key, keep_kernel_keyblock, accept_kernel_keyblock, verify_kernel_keyblock,
  read_kernel_keyblock, read_kernel_header, with_kernel_key, vb2_load_kernel_keyblock,
}

-- The keyblock's flags and version are those of the mode.
pub record FitsMode (ctx : Context) (block : Keyblock) : Type 0 where
  pub developer :
      has_flag block.keyblock_flags (
        if has_flag ctx.flags context_developer_mode
        then key_block_flag_developer_1
        else key_block_flag_developer_0)
      ≡ true
  pub recovery :
      has_flag block.keyblock_flags (
        if has_flag ctx.flags context_recovery_mode
        then key_block_flag_recovery_1
        else key_block_flag_recovery_0)
      ≡ true
  pub range : has_flag ctx.flags context_recovery_mode ≡ false → block.data_key.key_version ≤ 0xffff
  pub not_older :
      has_flag ctx.flags context_recovery_mode ≡ false
      → ctx.sd.kernel_version_secdatak / 2 ^ 16 ≤ block.data_key.key_version

mode_code_iff :
    (ctx : Context) (block : Keyblock)
    → (truthy (mode_code ctx block.keyblock_flags block.data_key.key_version) ≡ false)
      ↔ FitsMode ctx block
unfolding mode_code
mode_code_iff ctx block = (
  λ h. record {
    developer = ground arith;
    recovery = ground arith;
    range = λ no_recovery. ground (arith, h, no_recovery);
    not_older = λ no_recovery. ground (arith, h, no_recovery);
  },
  λ f. elim (Bool-cases (has_flag ctx.flags context_recovery_mode)) [
    | inl e ↦ ground (arith, e, f.developer, f.recovery)
    | inr e ↦ ground (arith, e, f.developer, f.recovery, f.range e, f.not_older e)
  ],
)

-- What the load keeps of the context, and what it notes of the keyblock.
pub record Noted (s s' : Machine) (kb : ℕ) : Type 0 where
  pub moved : s'.memory ≡ move_kernel_data_key s.memory (add64 s.ctx.workbuf s.ctx.workbuf_used) kb
  pub version :
      s'.ctx.sd.kernel_version ≡ (keyblock_at s.memory kb).data_key.key_version * 2 ^ 16 % 2 ^ 32
  pub offset : s'.ctx.sd.workbuf_data_key_offset ≡ s.ctx.workbuf_used
  pub size :
      let key = packed_key_at s'.memory (add64 s.ctx.workbuf s.ctx.workbuf_used) in
      s'.ctx.sd.workbuf_data_key_size ≡ add32 key.key_offset key.key_size
  pub same_workbuf : s'.ctx.workbuf ≡ s.ctx.workbuf
  pub same_flags : s'.ctx.flags ≡ s.ctx.flags
  pub same_nvdata : s'.ctx.nvdata ≡ s.ctx.nvdata
  pub same_secdatak : s'.ctx.secdatak ≡ s.ctx.secdatak
  pub same_stored : s'.ctx.sd.kernel_version_secdatak ≡ s.ctx.sd.kernel_version_secdatak

keep-Noted : (s : Machine) (kb : ℕ) (valid : Bool) → Noted s (keep_kernel_keyblock s kb valid) kb
unfolding keep_kernel_keyblock
keep-Noted s kb valid = record {
  moved = refl;
  version = refl;
  offset = refl;
  size = refl;
  same_workbuf = refl;
  same_flags = refl;
  same_nvdata = refl;
  same_secdatak = refl;
  same_stored = refl;
}

keep-marked :
    (s : Machine) (kb : ℕ) (valid : Bool)
    → has_flag s.ctx.sd.flags sd_flag_kernel_signed ≡ false
    → has_flag (keep_kernel_keyblock s kb valid).ctx.sd.flags sd_flag_kernel_signed ≡ valid
unfolding keep_kernel_keyblock
keep-marked s kb true h = ap truthy (flag_self s.ctx.sd.flags sd_flag_kernel_signed)
keep-marked s kb false h = h

-- After an acceptance the mark says that the signature is good and the keyblock fits the mode, and
-- it fits where that is needed.
record Marked (s s' : Machine) (kb : ℕ) (valid : Bool) : Type 0 where
  noted : Noted s s' kb
  marked :
      (has_flag s'.ctx.sd.flags sd_flag_kernel_signed ≡ true)
      ↔ (valid ≡ true) × FitsMode s.ctx (keyblock_at s.memory kb)
  needed : vb2_need_signed_kernel s.ctx ≡ true → FitsMode s.ctx (keyblock_at s.memory kb)

accept-Marked :
    (s : Machine) (kb : ℕ) (valid : Bool)
    → has_flag s.ctx.sd.flags sd_flag_kernel_signed ≡ false
    → let r = accept_kernel_keyblock s kb valid in r.1 ≡ vb2_success → Marked s r.0 kb valid
unfolding accept_kernel_keyblock
accept-Marked s kb valid unmarked h =
    let block = keyblock_at s.memory kb in
    let rv = mode_code s.ctx block.keyblock_flags block.data_key.key_version in
    let fits = mode_code_iff s.ctx block in
    elim (Bool-cases (truthy rv && vb2_need_signed_kernel s.ctx)) [
      | inl refused ↦ absurd (ground (arith, h, refused))
      | inr fine ↦
          let kept = keep-marked s kb (valid && not (truthy rv)) unmarked in
          rw fine (record {
            noted = keep-Noted s kb (valid && not (truthy rv));
            marked = (
              λ e. (ground (arith, kept, e), fits.0 (ground (arith, kept, e))),
              λ (v, f). kept ∙ ground (arith, v, fits.1 f),
            );
            needed = λ n. fits.0 (ground (arith, n, fine));
          })
    ]

-- The kernel key in the work buffer.
unfoldable pub kernel_key_of : Machine → Result PublicKey
kernel_key_of s =
    vb2_unpack_key s.memory (add64 s.ctx.workbuf s.ctx.sd.workbuf_kernel_key_offset)
      s.ctx.sd.workbuf_kernel_key_size

clear_signed_lem :
    (ctx : Context) → has_flag (clear_signed ctx).sd.flags sd_flag_kernel_signed ≡ false
unfolding clear_signed
clear_signed_lem ctx = ap truthy (
    and_assoc ctx.sd.flags (2 ^ 32 - 1 - sd_flag_kernel_signed) sd_flag_kernel_signed
    ∙ and-zero ctx.sd.flags)

module _ {Digest : Type 0} (crypto : Crypto Digest) (read : ReadResource) where
  -- The keyblock at `kb` was checked with the kernel key: `checked` is the memory after that, with
  -- the signature good or else, where no signature is needed, the hash.
  pub record Checked (ctx : Context) (s' : Machine) (kernel_key : PublicKey) : Type 0 where
    pub memory : Memory
    pub checked : Memory
    pub kb : ℕ
    pub block_size : ℕ
    pub wb : Workbuf
    pub held : IsHeld (vb2_workbuf_from_ctx ctx) block_size kb
    pub noted : Noted (record { memory = checked; ctx = ctx }) s' kb
    pub marked :
        (has_flag s'.ctx.sd.flags sd_flag_kernel_signed ≡ true)
        ↔ ((vb2_verify_keyblock crypto memory kb block_size kernel_key wb).1 ≡ vb2_success)
          × FitsMode ctx (keyblock_at checked kb)
    pub needed :
        vb2_need_signed_kernel ctx ≡ true → has_flag s'.ctx.sd.flags sd_flag_kernel_signed ≡ true
    pub hashed :
        let signed = vb2_verify_keyblock crypto memory kb block_size kernel_key wb in
        let hash = vb2_verify_keyblock_hash crypto signed.0 kb block_size wb in
        (signed.1 ≡ vb2_success) × (checked ≡ signed.0)
        ⊎ (0 < signed.1) × (hash.1 ≡ vb2_success) × (checked ≡ hash.0)

  verify-Checked :
      (s : Machine) (kernel_key : PublicKey) (block_size kb : ℕ) (wb : Workbuf)
      → IsHeld (vb2_workbuf_from_ctx s.ctx) block_size kb
      → has_flag s.ctx.sd.flags sd_flag_kernel_signed ≡ false
      → let r = verify_kernel_keyblock crypto read s kernel_key block_size kb wb in
        r.1 ≡ vb2_success → Checked s.ctx r.0 kernel_key
  unfolding verify_kernel_keyblock
  verify-Checked s kernel_key block_size kb wb held unmarked h =
      let (m, rv) = vb2_verify_keyblock crypto s.memory kb block_size kernel_key wb in
      let (m', code) = vb2_verify_keyblock_hash crypto m kb block_size wb in
      elim (Bool-cases (truthy rv)) [
        | inr fine ↦
            let s1 = record s { memory = m } in
            let e : verify_kernel_keyblock crypto read s kernel_key block_size kb wb
                ≡ accept_kernel_keyblock s1 kb true =
              rw fine refl in
            let good : rv ≡ vb2_success = ground (arith, fine) in
            let a = accept-Marked s1 kb true unmarked (sym (ap (λ (r : Machine × ℕ). r.1) e) ∙ h) in
            subst (λ (r : Machine × ℕ). Checked s.ctx r.0 kernel_key) (sym e)
              (record {
                memory = s.memory;
                checked = m;
                kb = kb;
                block_size = block_size;
                wb = wb;
                held = held;
                noted = a.noted;
                marked = (λ x. (good, (a.marked.0 x).1), λ x. a.marked.1 (refl, x.1));
                needed = λ n. a.marked.1 (refl, a.needed n);
                hashed = inl (good, refl);
              })
        | inl bad ↦ elim (Bool-cases (vb2_need_signed_kernel s.ctx)) [
          | inl need ↦ absurd (ground (arith, h, bad, need))
          | inr free ↦ elim (Bool-cases (truthy code)) [
            | inl wrong ↦ absurd (ground (arith, h, bad, free, wrong))
            | inr hash_fine ↦
                let s1 = record s { memory = m' } in
                let e : verify_kernel_keyblock crypto read s kernel_key block_size kb wb
                    ≡ accept_kernel_keyblock s1 kb false =
                  rw (bad, free, hash_fine) refl in
                let a =
                  accept-Marked s1 kb false unmarked (sym (ap (λ (r : Machine × ℕ). r.1) e) ∙ h) in
                subst (λ (r : Machine × ℕ). Checked s.ctx r.0 kernel_key) (sym e)
                  (record {
                    memory = s.memory;
                    checked = m';
                    kb = kb;
                    block_size = block_size;
                    wb = wb;
                    held = held;
                    noted = a.noted;
                    marked = (λ x. cc ((a.marked.0 x).0), λ x. absurd (ground (arith, bad, x.0)));
                    needed = λ n. cc (n, free);
                    hashed = inr (ground (arith, bad), ground (arith, hash_fine), refl);
                  })
          ]
        ]
      ]

  read-Checked :
      (s : Machine) (kernel_key : PublicKey) (block_size : ℕ) (a : Workbuf × Option ℕ)
      → ((kb : ℕ) → a.1 ≡ some kb → IsHeld (vb2_workbuf_from_ctx s.ctx) block_size kb)
      → has_flag s.ctx.sd.flags sd_flag_kernel_signed ≡ false
      → let r = read_kernel_keyblock crypto read s kernel_key block_size a in
        r.1 ≡ vb2_success → Checked s.ctx r.0 kernel_key
  unfolding read_kernel_keyblock
  read-Checked s kernel_key block_size (wb, none) held unmarked = λ h. absurd (omega (arith, h))
  read-Checked s kernel_key block_size (wb, some kb) held unmarked =
      after_read read (λ r. r.1 ≡ vb2_success → Checked s.ctx r.0 kernel_key) s kernel_vblock 0 kb
        block_size (λ s'. verify_kernel_keyblock crypto read s' kernel_key block_size kb wb)
        (λ m rv bad h. absurd (omega (arith, bad, h)))
        (λ m.
          verify-Checked (record s { memory = m }) kernel_key block_size kb wb (held kb refl)
            unmarked)

  header-Checked :
      (s : Machine) (kernel_key : PublicKey) (a : Workbuf × Option ℕ)
      → vb2_workbuf_alloc (vb2_workbuf_from_ctx s.ctx) sizeof_keyblock ≡ a
      → has_flag s.ctx.sd.flags sd_flag_kernel_signed ≡ false
      → let r = read_kernel_header crypto read s kernel_key a in
        r.1 ≡ vb2_success → Checked s.ctx r.0 kernel_key
  unfolding read_kernel_header
  header-Checked s kernel_key (wb, none) e unmarked = λ h. absurd (omega (arith, h))
  header-Checked s kernel_key (wb, some kb) e unmarked =
      after_read read (λ r. r.1 ≡ vb2_success → Checked s.ctx r.0 kernel_key) s kernel_vblock 0 kb
        sizeof_keyblock
        (λ s'.
          let block_size = (keyblock_at s'.memory kb).keyblock_size in
          read_kernel_keyblock crypto read s' kernel_key block_size
            (vb2_workbuf_realloc wb sizeof_keyblock block_size))
        (λ m rv bad h. absurd (omega (arith, bad, h)))
        (λ m.
          let block_size = (keyblock_at m kb).keyblock_size in
          read-Checked (record s { memory = m }) kernel_key block_size
            (vb2_workbuf_realloc wb sizeof_keyblock block_size)
            (λ whole h. record {
              header = kb;
              header_held = ap (λ (r : Workbuf × Option ℕ). r.1) e;
              block_held =
                  ap
                    (λ (r : Workbuf × Option ℕ).
                      (vb2_workbuf_realloc r.0 sizeof_keyblock block_size).1)
                    e
                  ∙ h;
            })
            unmarked)

  pub record SignedKeyblock (s s' : Machine) : Type 0 where
    pub kernel_key : PublicKey
    pub unpacked : kernel_key_of s ≡ ok kernel_key
    pub keyblock : Checked (clear_signed s.ctx) s' kernel_key

  key-Signed :
      (s : Machine) (key : Result PublicKey)
      → kernel_key_of s ≡ key
      → let r = with_kernel_key crypto read (record s { ctx = clear_signed s.ctx }) key in
        r.1 ≡ vb2_success → SignedKeyblock s r.0
  unfolding with_kernel_key kernel_key_of
  key-Signed s (err rv) e h = absurd (
      omega (
        arith,
        h,
        unpack_fails s.memory (add64 s.ctx.workbuf s.ctx.sd.workbuf_kernel_key_offset)
            s.ctx.sd.workbuf_kernel_key_size rv e,
      ))
  key-Signed s (ok kernel_key) e h = record {
    kernel_key = kernel_key;
    unpacked = e;
    keyblock =
        header-Checked (record s { ctx = clear_signed s.ctx }) kernel_key
          (vb2_workbuf_alloc (vb2_workbuf_from_ctx (clear_signed s.ctx)) sizeof_keyblock) refl
          (clear_signed_lem s.ctx) h;
  }

-- If vb2_load_kernel_keyblock succeeds, the keyblock was checked with the key that was unpacked from
-- the work buffer: its signature is good, or no signed kernel is needed and its hash is. The mark that
-- the kernel is signed is set exactly if the signature is good and the keyblock's flags and version fit
-- the mode, and it is set where a signed kernel is needed. kernel_version is the key's version, 16 bits
-- up, and only the data key was moved; the modes, the settings, the kernel space and the stored version
-- are as before.
pub vb2_load_kernel_keyblock-Signed :
    {Digest : Type 0} (crypto : Crypto Digest) (read : ReadResource) (s : Machine)
    → let r = vb2_load_kernel_keyblock crypto read s in
      r.1 ≡ vb2_success → SignedKeyblock crypto read s r.0
unfolding vb2_load_kernel_keyblock kernel_key_of
vb2_load_kernel_keyblock-Signed crypto read s = key-Signed crypto read s (kernel_key_of s) refl
