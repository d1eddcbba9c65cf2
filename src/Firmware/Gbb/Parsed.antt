-- ===== src/Firmware/Gbb/Parsed.antt =====
-- What firmware/2lib/2misc.c: vb2_fw_parse_gbb accepts.
use cbmc_vboot.Prelude.{
  ℕ, ◌≤◌, ◌<◌, ◌≡◌, ◌⊎◌, inl, inr, refl, truthy, Bool-cases, arith, [], ◌∷◌, Option, some, none,
}
use cbmc_vboot.Context.{vb2_success}
use cbmc_vboot.Common.{Workbuf, vb2_workbuf_alloc}
use cbmc_vboot.Keys.{Memory, store_bytes}
use cbmc_vboot.Firmware.{Machine, gbb, ReadResource, vb2_workbuf_from_ctx}
use cbmc_vboot.Firmware.Gbb.{
  GbbHeader, gbb_header_at, sizeof_gbb_header, gbb_major_ver, gbb_minor_ver,
  vb2_validate_gbb_signature, check_gbb_header, vb2_read_gbb_header, parse_gbb, vb2_fw_parse_gbb,
}

-- "$GBB", a version from 1.2 on and a header of at least the size that is read.
pub record IsGbb (header : GbbHeader) : Type 0 where
  pub signature : header.signature ≡ 0x24 ∷ 0x47 ∷ 0x42 ∷ 0x42 ∷ []
  pub major : header.major_version ≡ gbb_major_ver
  pub minor : gbb_minor_ver ≤ header.minor_version
  pub size : sizeof_gbb_header ≤ header.header_size

signature_lem :
    (a b c d : ℕ)
    → vb2_validate_gbb_signature (a ∷ b ∷ c ∷ d ∷ []) ≡ vb2_success
    → a ∷ b ∷ c ∷ d ∷ [] ≡ 0x24 ∷ 0x47 ∷ 0x42 ∷ 0x42 ∷ []
unfolding vb2_validate_gbb_signature
signature_lem a b c d h = ground arith

check_lem :
    (m : Memory) (at : ℕ)
    → check_gbb_header (gbb_header_at m at) ≡ vb2_success
    → IsGbb (gbb_header_at m at)
unfolding check_gbb_header
check_lem m at h = record {
  signature = signature_lem _ _ _ _ (ground arith);
  major = ground arith;
  minor = ground arith;
  size = ground arith;
}

-- What the header, read to `at`, leaves.
pub record Parsed (read : ReadResource) (s s' : Machine) : Type 0 where
  pub at : ℕ
  pub from_gbb : s'.memory ≡ store_bytes s.memory at (read s.ctx gbb 0 sizeof_gbb_header).0
  pub header : IsGbb (gbb_header_at s'.memory at)
  pub flags : s'.ctx.sd.gbb_flags ≡ (gbb_header_at s'.memory at).flags
  pub rootkey_offset : s'.ctx.sd.gbb_rootkey_offset ≡ (gbb_header_at s'.memory at).rootkey_offset
  pub rootkey_size : s'.ctx.sd.gbb_rootkey_size ≡ (gbb_header_at s'.memory at).rootkey_size
  pub hwid_digest : s'.ctx.sd.gbb_hwid_digest ≡ (gbb_header_at s'.memory at).hwid_digest
  pub rest : s'.ctx ≡ record s.ctx {
    sd = record s.ctx.sd {
      gbb_flags = s'.ctx.sd.gbb_flags;
      gbb_rootkey_offset = s'.ctx.sd.gbb_rootkey_offset;
      gbb_rootkey_size = s'.ctx.sd.gbb_rootkey_size;
      gbb_hwid_digest = s'.ctx.sd.gbb_hwid_digest;
    };
  }

parse_lem :
    (read : ReadResource) (s : Machine) (a : Workbuf × Option ℕ)
    → let r = parse_gbb read s a in
      (0 < r.1) × (r.0.ctx ≡ s.ctx) ⊎ (r.1 ≡ vb2_success) × Parsed read s r.0
unfolding parse_gbb vb2_read_gbb_header
parse_lem read s (wb, none) = inl (omega arith, refl)
parse_lem read s (wb, some at) =
    let (bytes, rv) = read s.ctx gbb 0 sizeof_gbb_header in
    let m = store_bytes s.memory at bytes in
    elim (Bool-cases (truthy rv)) [
      | inl bad ↦ rw (bad, bad) (inl (ground (arith, bad), refl))
      | inr fine ↦ elim (Bool-cases (truthy (check_gbb_header (gbb_header_at m at)))) [
        | inl bad ↦ rw (fine, bad) (inl (ground (arith, bad), refl))
        | inr good ↦
            rw (fine, good)
              (inr (
                refl,
                record {
                  at = at;
                  from_gbb = refl;
                  header = check_lem m at (ground (arith, good));
                  flags = refl;
                  rootkey_offset = refl;
                  rootkey_size = refl;
                  hwid_digest = refl;
                  rest = refl;
                },
              ))
      ]
    ]

-- vb2_fw_parse_gbb fails and leaves the context as it was, or it succeeds: then the bytes read from
-- the GBB are a header with its signature, a version from 1.2 on and a sufficient size, the shared
-- data have its flags, the offset and size of the root key and the digest of the HWID, and the rest
-- of the context is as it was.
pub vb2_fw_parse_gbb-Parsed :
    (read : ReadResource) (s : Machine)
    → let r = vb2_fw_parse_gbb read s in
      (0 < r.1) × (r.0.ctx ≡ s.ctx) ⊎ (r.1 ≡ vb2_success) × Parsed read s r.0
unfolding vb2_fw_parse_gbb
vb2_fw_parse_gbb-Parsed read s =
    parse_lem read s (vb2_workbuf_alloc (vb2_workbuf_from_ctx s.ctx) sizeof_gbb_header)
