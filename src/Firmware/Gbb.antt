-- ===== src/Firmware/Gbb.antt =====
-- firmware/2lib/2misc.c: vb2_validate_gbb_signature, vb2_read_gbb_header and vb2_fw_parse_gbb, with
-- struct vb2_gbb_header of 2struct.h.
pub mod Parsed
use cbmc_vboot.Prelude.{
  ℕ, ◌+◌, ◌*◌, ◌%◌, ◌^◌, bit_xor, Bool, not, List, [], ◌∷◌, Option, none, some, ltb, ◌==◌, truthy,
  if◌then◌else◌,
}
use cbmc_vboot.Context.{Context, vb2_success}
use cbmc_vboot.Codes.{
  error_gbb_magic, error_gbb_version, error_gbb_too_old, error_gbb_header_size, error_gbb_workbuf,
}
use cbmc_vboot.Common.{Workbuf, vb2_workbuf_alloc}
use cbmc_vboot.Keys.{Memory, load8, load32, load_bytes}
use cbmc_vboot.Firmware.{
  Machine, Resource, gbb, ReadResource, read_to, and_then, vb2_workbuf_from_ctx,
}

abbrev pub gbb_xor_signature : List ℕ
gbb_xor_signature = 0x0e ∷ 0x6d ∷ 0x68 ∷ 0x68 ∷ []

-- "****"
abbrev pub gbb_xor_chars : List ℕ
gbb_xor_chars = 0x2a ∷ 0x2a ∷ 0x2a ∷ 0x2a ∷ []

-- The loop, over the three arrays.
check_signature : (sig sig_xor chars : List ℕ) → ℕ
check_signature (s ∷ sig) (x ∷ sig_xor) (c ∷ chars) =
    let rest = check_signature sig sig_xor chars in
    if not (s == bit_xor x c) then error_gbb_magic else rest
check_signature _ _ _ = vb2_success

unfoldable pub vb2_validate_gbb_signature : List ℕ → ℕ
unfolding check_signature
vb2_validate_gbb_signature sig = check_signature sig gbb_xor_signature gbb_xor_chars

abbrev load16 : Memory → ℕ → ℕ
load16 m a = load8 m a + load8 m (a + 1) * 2 ^ 8

-- struct vb2_gbb_header, without the members that this code does not read.
pub record GbbHeader : Type 0 where
  pub signature : List ℕ
  pub major_version : ℕ
  pub minor_version : ℕ
  pub header_size : ℕ
  pub flags : ℕ
  pub rootkey_offset : ℕ
  pub rootkey_size : ℕ
  pub recovery_key_offset : ℕ
  pub recovery_key_size : ℕ
  pub hwid_digest : List ℕ

abbrev pub sizeof_gbb_header : ℕ
sizeof_gbb_header = 128

abbrev pub gbb_header_at : Memory → ℕ → GbbHeader
gbb_header_at m a = record {
  signature = load_bytes 4 m a;
  major_version = load16 m (a + 4);
  minor_version = load16 m (a + 6);
  header_size = load32 m (a + 8);
  flags = load32 m (a + 12);
  rootkey_offset = load32 m (a + 24);
  rootkey_size = load32 m (a + 28);
  recovery_key_offset = load32 m (a + 40);
  recovery_key_size = load32 m (a + 44);
  hwid_digest = load_bytes 32 m (a + 48);
}

abbrev pub gbb_major_ver : ℕ
gbb_major_ver = 1

abbrev pub gbb_minor_ver : ℕ
gbb_minor_ver = 2

-- Lines 43-63: the header that was read.
unfoldable pub check_gbb_header : GbbHeader → ℕ
check_gbb_header header =
    let rv = vb2_validate_gbb_signature header.signature in
    if truthy rv
    then rv
    else if not (header.major_version == gbb_major_ver)
    then error_gbb_version
    else if ltb header.minor_version gbb_minor_ver
    then error_gbb_too_old
    else if ltb header.header_size sizeof_gbb_header
    then error_gbb_header_size
    else vb2_success

module _ (read : ReadResource) where
  -- The header goes to the address `at`.
  unfoldable pub vb2_read_gbb_header : Machine → ℕ → Machine × ℕ
  unfolding check_gbb_header
  vb2_read_gbb_header s at =
      and_then (read_to read s gbb 0 at sizeof_gbb_header)
        (λ s'. (s', check_gbb_header (gbb_header_at s'.memory at)))

  -- Lines 200-206.
  abbrev pub keep_gbb : GbbHeader → Machine → Machine
  keep_gbb header s = record s {
    ctx = record s.ctx {
      sd = record s.ctx.sd {
        gbb_flags = header.flags;
        gbb_rootkey_offset = header.rootkey_offset;
        gbb_rootkey_size = header.rootkey_size;
        gbb_hwid_digest = header.hwid_digest;
      };
    };
  }

  unfoldable pub parse_gbb : Machine → Workbuf × Option ℕ → Machine × ℕ
  parse_gbb s (wb, none) = (s, error_gbb_workbuf)
  parse_gbb s (wb, some at) =
      and_then (vb2_read_gbb_header s at)
        (λ s'. (keep_gbb (gbb_header_at s'.memory at) s', vb2_success))

  unfoldable pub vb2_fw_parse_gbb : Machine → Machine × ℕ
  unfolding parse_gbb
  vb2_fw_parse_gbb s =
      parse_gbb s (vb2_workbuf_alloc (vb2_workbuf_from_ctx s.ctx) sizeof_gbb_header)
