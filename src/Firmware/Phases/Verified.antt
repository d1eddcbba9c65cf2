-- ===== src/Firmware/Phases/Verified.antt =====
-- lib20/api.c: vb2api_fw_phase3.
use cbmc_vboot.Prelude.{
  ℕ, ◌+◌, ◌-◌, ◌*◌, ◌^◌, ◌≤◌, ◌≡◌, ◌⊎◌, inl, inr, refl, ap, sym, subst, ◌∙◌, true, truthy, bit_or,
  Bool-cases, arith, has_flag, ok,
}
use cbmc_vboot.Prelude.Bits.{or_shift}
use cbmc_vboot.Prelude.Masks.{or_comm}
use cbmc_vboot.Context.{vb2_success}
use cbmc_vboot.Common.{add64}
use cbmc_vboot.Keys.{packed_key_at, fw_preamble_at, offset_data_key}
use cbmc_vboot.Keys.Unpack.{vb2_unpack_key}
use cbmc_vboot.Keys.Verify.{Crypto}
use cbmc_vboot.Keys.Verify.Below.{KeepsBelow}
use cbmc_vboot.Keys.Block.{vb2_verify_keyblock}
use cbmc_vboot.Firmware.{Machine, ReadResource}
use cbmc_vboot.Firmware.Keyblock.{gbb_flag_disable_fw_rollback_check, vb2_load_fw_keyblock}
use cbmc_vboot.Firmware.Keyblock.Authentic.{AcceptedKeyblock, vb2_load_fw_keyblock-AcceptedKeyblock}
use cbmc_vboot.Firmware.Keyblock.Kept.{keeps_data_key}
use cbmc_vboot.Firmware.Placed.{IsPlaced, KeepsKey}
use cbmc_vboot.Firmware.Preamble.Reached.{data_key_of}
use cbmc_vboot.Firmware.Preamble.{vb2_load_fw_preamble}
use cbmc_vboot.Firmware.Preamble.Authentic.{Accepted, vb2_load_fw_preamble-Accepted}
use cbmc_vboot.Firmware.Phases.{vb2api_fw_phase3}

-- The version of the data key in the verified keyblock.
abbrev pub key_version_of :
    {Digest : Type 0} {crypto : Crypto Digest} {read : ReadResource} {s s' : Machine}
    → AcceptedKeyblock crypto read s s'
    → ℕ
key_version_of {crypto} a =
    let k = a.keyblock in
    (packed_key_at (vb2_verify_keyblock crypto k.memory k.kb k.block_size a.root_key k.wb).0
      (k.kb + offset_data_key)).key_version

-- The machine between the two loads is the one after the keyblock's.
pub record VerifiedFirmware {Digest : Type 0} (crypto : Crypto Digest) (read : ReadResource)
    (s s' : Machine) : Type 0 where
  pub keyblock : AcceptedKeyblock crypto read s (vb2_load_fw_keyblock crypto read s).0
  pub kept :
      let k = keyblock.keyblock in
      KeepsKey
        (vb2_verify_keyblock crypto k.memory k.kb k.block_size keyblock.root_key k.wb).0
        (k.kb + offset_data_key)
        (vb2_load_fw_keyblock crypto read s).0
  pub preamble : Accepted crypto read (vb2_load_fw_keyblock crypto read s).0 s'
  pub unpacked :
      let s1 = (vb2_load_fw_keyblock crypto read s).0 in
      vb2_unpack_key s1.memory
        (add64 s1.ctx.workbuf s1.ctx.sd.workbuf_data_key_offset)
        s1.ctx.sd.workbuf_data_key_size
      ≡ ok preamble.data_key
  pub fits :
      (key_version_of keyblock ≤ 0xffff)
      × ((fw_preamble_at s'.memory preamble.pre).firmware_version ≤ 0xffff)
  pub version :
      s'.ctx.sd.fw_version
      ≡ key_version_of keyblock * 2 ^ 16 + (fw_preamble_at s'.memory preamble.pre).firmware_version
  pub not_older :
      (has_flag s.ctx.sd.gbb_flags gbb_flag_disable_fw_rollback_check ≡ true)
      ⊎ (s.ctx.sd.fw_version_secdata ≤ s'.ctx.sd.fw_version)

phase3_loads :
    {Digest : Type 0} (crypto : Crypto Digest) (read : ReadResource) (s : Machine)
    → let r = vb2api_fw_phase3 crypto read s in
      let keyblock = vb2_load_fw_keyblock crypto read s in
      let preamble = vb2_load_fw_preamble crypto read keyblock.0 in
      r.1 ≡ vb2_success
      → (keyblock.1 ≡ vb2_success) × (preamble.1 ≡ vb2_success) × (r.0 ≡ preamble.0)
unfolding vb2api_fw_phase3
phase3_loads crypto read s h =
    let (m, rv) = vb2_load_fw_keyblock crypto read s in
    let (m', rv') = vb2_load_fw_preamble crypto read m in
    elim (Bool-cases (truthy rv)) [
      | inl bad ↦ absurd (ground (arith, h, bad))
      | inr fine ↦ elim (Bool-cases (truthy rv')) [
        | inl bad ↦ absurd (ground (arith, h, fine, bad))
        | inr fine' ↦ (ground (arith, fine), ground (arith, fine'), rw (fine, fine') refl)
      ]
    ]

side_by_side :
    (key firmware : ℕ)
    → firmware ≤ 0xffff
    → bit_or firmware (key * 2 ^ 16) ≡ key * 2 ^ 16 + firmware
side_by_side key firmware h = omega (arith, or_shift 16 firmware key (omega arith))

-- Let the work buffer lie in the lower half of the address space, with no more of it used than
-- there is, the size of the root key not wrap around when it is rounded up, and the RSA check
-- change nothing in front of the signature and of its work buffer. If vb2api_fw_phase3 succeeds,
-- the keyblock is signed with the root key of the GBB, as its load promises. The keyblock's data
-- key, as it is after that check, was copied to the place from which the preamble's key is
-- unpacked: algorithm, version, size and the key's bytes are the same, and the bytes stand behind
-- the header. The preamble is signed with the key that is unpacked there. fw_version is the key's
-- version and the firmware's side by side, 16 bits each, and it is not below the version that
-- secure storage had at the start, unless the GBB flag switches that check off.
pub vb2api_fw_phase3-VerifiedFirmware :
    {Digest : Type 0} (crypto : Crypto Digest) (read : ReadResource) (s : Machine)
    → KeepsBelow crypto
    → IsPlaced s.ctx
    → s.ctx.sd.gbb_rootkey_size ≤ 2 ^ 32 - 16
    → let r = vb2api_fw_phase3 crypto read s in
      r.1 ≡ vb2_success → VerifiedFirmware crypto read s r.0
unfolding data_key_of
vb2api_fw_phase3-VerifiedFirmware crypto read s keeps placed size h =
    let (first, second, end) = phase3_loads crypto read s h in
    let keyblock = vb2_load_fw_keyblock-AcceptedKeyblock crypto read s first in
    let s1 = (vb2_load_fw_keyblock crypto read s).0 in
    let preamble = vb2_load_fw_preamble-Accepted crypto read s1 second in
    let key = keyblock.keyblock.new in
    let new = preamble.new in
    subst (λ (m : Machine). VerifiedFirmware crypto read s m) (sym end)
      (record {
        keyblock = keyblock;
        kept = keeps_data_key crypto read s s1 keyblock keeps placed size;
        preamble = preamble;
        unpacked = preamble.unpacked;
        fits = (key.range, new.range);
        version =
            new.combined
            ∙ ap
                (λ v.
                  bit_or v
                    (fw_preamble_at (vb2_load_fw_preamble crypto read s1).0.memory
                      preamble.pre).firmware_version)
                key.version
            ∙ or_comm (key_version_of keyblock * 2 ^ 16)
                (fw_preamble_at (vb2_load_fw_preamble crypto read s1).0.memory
                  preamble.pre).firmware_version
            ∙ side_by_side (key_version_of keyblock)
                (fw_preamble_at (vb2_load_fw_preamble crypto read s1).0.memory
                  preamble.pre).firmware_version
                new.range;
        not_older = elim new.not_older [
          | inl unchecked ↦ inl (
              ap (λ f. has_flag f gbb_flag_disable_fw_rollback_check) (sym key.same_flags)
              ∙ unchecked)
          | inr newer ↦ inr (omega (arith, newer, key.same_stored))
        ];
      })
