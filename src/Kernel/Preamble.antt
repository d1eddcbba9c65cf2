-- ===== src/Kernel/Preamble.antt =====
-- firmware/lib20/kernel.c: struct vb2_kernel_preamble of vb2_struct.h, vb2_verify_kernel_preamble and
-- vb2_load_kernel_preamble.
pub mod Accepted
pub mod Loaded
use cbmc_vboot.Prelude.{
  ℕ, ◌+◌, ◌*◌, ◌%◌, ◌^◌, bit_or, Bool, not, ◌&&◌, ◌==◌, Option, none, some, ltb, truthy,
  if◌then◌else◌, Result, ok, err,
}
use cbmc_vboot.Context.{Context, vb2_success}
use cbmc_vboot.Codes.{
  error_preamble_too_small_for_header, error_preamble_header_version, error_preamble_header_old,
  error_preamble_size, error_preamble_sig_outside, error_preamble_signed_too_much,
  error_preamble_sig_invalid, error_preamble_signed_too_little, error_preamble_body_sig_outside,
}
use cbmc_vboot.Codes.Kernel.{
  error_preamble_bootloader_outside, error_preamble_vmlinuz_header_outside,
  error_kernel_preamble2_data_key, error_kernel_preamble2_workbuf_header,
  error_kernel_preamble2_workbuf, error_kernel_preamble_version_range,
  error_kernel_preamble_version_rollback,
}
use cbmc_vboot.Common.{Workbuf, add64, add32, vb2_workbuf_alloc, vb2_workbuf_realloc, vb2_offset_of}
use cbmc_vboot.Keys.{
  Memory, load32, Signature, signature_at, sizeof_fw_preamble, offset_preamble_signature,
}
use cbmc_vboot.Keys.Inside.{vb2_verify_member_inside, vb2_verify_signature_inside}
use cbmc_vboot.Keys.Unpack.{PublicKey, vb2_unpack_key}
use cbmc_vboot.Keys.Verify.{Crypto, vb2_verify_data}
use cbmc_vboot.Firmware.{
  Machine, Resource, kernel_vblock, ReadResource, read_to, and_then, vb2_workbuf_from_ctx,
}
use cbmc_vboot.Kernel.{vb2_need_signed_kernel}

abbrev pub load64 : Memory → ℕ → ℕ
load64 m a = load32 m a + load32 m (a + 4) * 2 ^ 32

-- struct vb2_kernel_preamble
pub record KernelPreamble : Type 0 where
  pub preamble_size : ℕ
  pub preamble_signature : Signature
  pub header_version_major : ℕ
  pub header_version_minor : ℕ
  pub kernel_version : ℕ
  pub body_load_address : ℕ
  pub bootloader_address : ℕ
  pub bootloader_size : ℕ
  pub body_signature : Signature
  pub vmlinuz_header_address : ℕ
  pub vmlinuz_header_size : ℕ
  pub flags : ℕ

abbrev pub sizeof_kernel_preamble : ℕ
sizeof_kernel_preamble = 116

abbrev pub offset_kernel_body_signature : ℕ
offset_kernel_body_signature = 72

abbrev pub kernel_preamble_at : Memory → ℕ → KernelPreamble
kernel_preamble_at m a = record {
  preamble_size = load32 m a;
  preamble_signature = signature_at m (a + offset_preamble_signature);
  header_version_major = load32 m (a + 32);
  header_version_minor = load32 m (a + 36);
  kernel_version = load32 m (a + 40);
  body_load_address = load64 m (a + 48);
  bootloader_address = load64 m (a + 56);
  bootloader_size = load32 m (a + 64);
  body_signature = signature_at m (a + offset_kernel_body_signature);
  vmlinuz_header_address = load64 m (a + 96);
  vmlinuz_header_size = load32 m (a + 104);
  flags = load32 m (a + 112);
}

abbrev pub kernel_preamble_header_version_major : ℕ
kernel_preamble_header_version_major = 2

-- Lines 256-286: what is checked before the signature.
unfoldable pub check_kernel_before : Memory → (preamble size : ℕ) → ℕ
check_kernel_before m preamble size =
    let pre = kernel_preamble_at m preamble in
    let sig_at = preamble + offset_preamble_signature in
    let sig = signature_at m sig_at in
    if ltb size sizeof_kernel_preamble
    then error_preamble_too_small_for_header
    else if not (pre.header_version_major == kernel_preamble_header_version_major)
    then error_preamble_header_version
    else if ltb pre.header_version_minor 2
    then error_preamble_header_old
    else if ltb size pre.preamble_size
    then error_preamble_size
    else if truthy (vb2_verify_signature_inside preamble pre.preamble_size sig_at sig)
    then error_preamble_sig_outside
    else if ltb pre.preamble_size sig.data_size
    then error_preamble_signed_too_much
    else vb2_success

-- A part of the body, if it is not empty, that is not inside the signed body.
unfoldable pub part_outside : KernelPreamble → (address size : ℕ) → Bool
part_outside pre address size =
    truthy size
    && truthy (
        vb2_verify_member_inside pre.body_load_address pre.body_signature.data_size address size 0
          0)

-- Lines 293-344: what is checked after it, in the memory as the signature check leaves it.
unfoldable pub check_kernel_after : Memory → (preamble : ℕ) → ℕ
unfolding part_outside
check_kernel_after m preamble =
    let pre = kernel_preamble_at m preamble in
    let sig = signature_at m (preamble + offset_preamble_signature) in
    let body_at = preamble + offset_kernel_body_signature in
    if ltb sig.data_size sizeof_fw_preamble
    then error_preamble_signed_too_little
    else if truthy (vb2_verify_signature_inside preamble sig.data_size body_at pre.body_signature)
    then error_preamble_body_sig_outside
    else if part_outside pre pre.bootloader_address pre.bootloader_size
    then error_preamble_bootloader_outside
    else if part_outside pre pre.vmlinuz_header_address pre.vmlinuz_header_size
    then error_preamble_vmlinuz_header_outside
    else vb2_success

unfoldable pub vb2_verify_kernel_preamble :
    {Digest : Type 0}
    → Crypto Digest
    → Memory
    → (preamble size : ℕ) → PublicKey
    → Workbuf
    → Memory × ℕ
unfolding check_kernel_before check_kernel_after
vb2_verify_kernel_preamble crypto m preamble size key wb =
    let before = check_kernel_before m preamble size in
    let verified =
      vb2_verify_data crypto m preamble size (preamble + offset_preamble_signature) key wb in
    if truthy before
    then (m, before)
    else if truthy verified.1
    then (verified.0, error_preamble_sig_invalid)
    else (verified.0, check_kernel_after verified.0 preamble)

-- sd->kernel_version |= pre->kernel_version
abbrev pub combine_kernel_version : Context → ℕ → Context
combine_kernel_version ctx kernel_version = record ctx {
  sd = record ctx.sd { kernel_version = bit_or ctx.sd.kernel_version kernel_version };
}

-- Lines 425-441.
unfoldable pub keep_kernel_preamble : Context → (pre pre_size : ℕ) → Context
keep_kernel_preamble ctx pre pre_size =
    let offset = vb2_offset_of ctx.workbuf pre % 2 ^ 32 in
    record ctx {
      sd = record ctx.sd { workbuf_preamble_offset = offset; workbuf_preamble_size = pre_size };
      workbuf_used = add32 offset pre_size;
    }

-- Lines 411-443: the preamble is verified.
unfoldable pub accept_kernel_preamble : Machine → (pre pre_size : ℕ) → Machine × ℕ
unfolding keep_kernel_preamble
accept_kernel_preamble s pre pre_size =
    let kernel_version = (kernel_preamble_at s.memory pre).kernel_version in
    let ctx = combine_kernel_version s.ctx kernel_version in
    if ltb 0xffff kernel_version
    then (s, error_kernel_preamble_version_range)
    else if vb2_need_signed_kernel ctx && ltb ctx.sd.kernel_version ctx.sd.kernel_version_secdatak
    then (record s { ctx = ctx }, error_kernel_preamble_version_rollback)
    else (record s { ctx = keep_kernel_preamble ctx pre pre_size }, vb2_success)

module _ {Digest : Type 0} (crypto : Crypto Digest) (read : ReadResource) where
  -- Lines 406-443.
  unfoldable pub verify_preamble_of :
      Machine → PublicKey → (pre_size pre : ℕ) → Workbuf → Machine × ℕ
  verify_preamble_of s data_key pre_size pre wb =
      let (m, rv) = vb2_verify_kernel_preamble crypto s.memory pre pre_size data_key wb in
      let s' = record s { memory = m } in
      if truthy rv then (s', rv) else accept_kernel_preamble s' pre pre_size

  -- Lines 389-443, with the place of the whole preamble.
  unfoldable pub read_kernel_preamble :
      Machine → PublicKey → (pre_size : ℕ) → Workbuf × Option ℕ → Machine × ℕ
  unfolding verify_preamble_of
  read_kernel_preamble s data_key pre_size (wb, none) = (s, error_kernel_preamble2_workbuf)
  read_kernel_preamble s data_key pre_size (wb, some pre) =
      and_then (read_to read s kernel_vblock s.ctx.sd.vblock_preamble_offset pre pre_size)
        (λ s'. verify_preamble_of s' data_key pre_size pre wb)

  -- Lines 375-443, with the place of the header.
  unfoldable pub read_kernel_preamble_header :
      Machine → PublicKey → Workbuf × Option ℕ → Machine × ℕ
  unfolding read_kernel_preamble
  read_kernel_preamble_header s data_key (wb, none) = (s, error_kernel_preamble2_workbuf_header)
  read_kernel_preamble_header s data_key (wb, some pre) =
      and_then
        (read_to read s kernel_vblock s.ctx.sd.vblock_preamble_offset pre sizeof_kernel_preamble)
        (λ s'.
          let pre_size = (kernel_preamble_at s'.memory pre).preamble_size in
          read_kernel_preamble s' data_key pre_size
            (vb2_workbuf_realloc wb sizeof_kernel_preamble pre_size))

  -- Lines 370-443, with the data key.
  unfoldable pub with_kernel_data_key : Machine → Result PublicKey → Machine × ℕ
  unfolding read_kernel_preamble_header
  with_kernel_data_key s (err rv) = (s, rv)
  with_kernel_data_key s (ok data_key) =
      read_kernel_preamble_header s data_key
        (vb2_workbuf_alloc (vb2_workbuf_from_ctx s.ctx) sizeof_kernel_preamble)

  unfoldable pub vb2_load_kernel_preamble : Machine → Machine × ℕ
  unfolding with_kernel_data_key
  vb2_load_kernel_preamble s =
      let key_data = add64 s.ctx.workbuf s.ctx.sd.workbuf_data_key_offset in
      let key_size = s.ctx.sd.workbuf_data_key_size in
      if not (truthy key_size)
      then (s, error_kernel_preamble2_data_key)
      else with_kernel_data_key s (vb2_unpack_key s.memory key_data key_size)
