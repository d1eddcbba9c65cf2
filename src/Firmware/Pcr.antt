-- ===== src/Firmware/Pcr.antt =====
-- firmware/2lib/2tpm_bootmode.c and 2lib/2api.c: vb2api_get_pcr_digest.
use cbmc_vboot.Prelude.{
  ℕ, ◌+◌, List, [], ◌∷◌, length, get_or, ltb, has_flag, if◌then◌else◌, Result, ok, err,
}
use cbmc_vboot.Context.{Context, context_recovery_mode, context_developer_mode}
use cbmc_vboot.Codes.{error_api_pcr_digest, error_api_pcr_digest_buf}

-- kBootStateSHA1Digests
abbrev pub boot_state_sha1_digests : List (List ℕ)
boot_state_sha1_digests =
    (0x25 ∷ 0x47 ∷ 0xcc ∷ 0x73 ∷ 0x6e ∷ 0x95 ∷ 0x1f ∷ 0xa4 ∷ 0x91 ∷ 0x98 ∷ 0x53 ∷ 0xc4 ∷ 0x3a ∷ 0xe8
      ∷ 0x90 ∷ 0x86 ∷ 0x1a ∷ 0x3b ∷ 0x32 ∷ 0x64 ∷ [])
    ∷ (0xc4 ∷ 0x2a ∷ 0xc1 ∷ 0xc4 ∷ 0x6f ∷ 0x1d ∷ 0x4e ∷ 0x21 ∷ 0x1c ∷ 0x73 ∷ 0x5c ∷ 0xc7 ∷ 0xdf
        ∷ 0xad ∷ 0x4f ∷ 0xf8 ∷ 0x39 ∷ 0x11 ∷ 0x10 ∷ 0xe9 ∷ [])
    ∷ (0x62 ∷ 0x57 ∷ 0x18 ∷ 0x91 ∷ 0x21 ∷ 0x5b ∷ 0x4e ∷ 0xfc ∷ 0x1c ∷ 0xea ∷ 0xb7 ∷ 0x44 ∷ 0xce
        ∷ 0x59 ∷ 0xdd ∷ 0x0b ∷ 0x66 ∷ 0xea ∷ 0x6f ∷ 0x73 ∷ [])
    ∷ (0x47 ∷ 0xec ∷ 0x8d ∷ 0x98 ∷ 0x36 ∷ 0x64 ∷ 0x33 ∷ 0xdc ∷ 0x00 ∷ 0x2e ∷ 0x77 ∷ 0x21 ∷ 0xc9
        ∷ 0xe3 ∷ 0x7d ∷ 0x50 ∷ 0x67 ∷ 0x54 ∷ 0x79 ∷ 0x37 ∷ [])
    ∷ []

unfoldable pub vb2_get_boot_state_digest : Context → List ℕ
vb2_get_boot_state_digest ctx =
    let index =
      (if has_flag ctx.flags context_recovery_mode then 2 else 0)
      + (if has_flag ctx.flags context_developer_mode then 1 else 0) in
    get_or boot_state_sha1_digests index []

-- enum vb2_pcr_digest, and any other value.
pub data PcrDigest : Type 0 where
  boot_mode_pcr hwid_digest_pcr : PcrDigest
  unknown : ℕ → PcrDigest

-- The bytes for a destination of `dest_size` bytes; the caller's size becomes their number.
copy_digest : List ℕ → ℕ → Result (List ℕ)
copy_digest digest dest_size =
    if ltb dest_size (length digest) then err error_api_pcr_digest_buf else ok digest

unfoldable pub vb2api_get_pcr_digest : Context → PcrDigest → ℕ → Result (List ℕ)
unfolding copy_digest vb2_get_boot_state_digest
vb2api_get_pcr_digest ctx boot_mode_pcr dest_size =
    copy_digest (vb2_get_boot_state_digest ctx) dest_size
vb2api_get_pcr_digest ctx hwid_digest_pcr dest_size = copy_digest ctx.sd.gbb_hwid_digest dest_size
vb2api_get_pcr_digest ctx (unknown n) dest_size = err error_api_pcr_digest
