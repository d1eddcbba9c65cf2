-- ===== src/Kernel/Preamble/Accepted.antt =====
-- What lib20/kernel.c: vb2_verify_kernel_preamble accepts.
use cbmc_vboot.Prelude.{ℕ, ◌+◌, ◌^◌, ◌≤◌, ◌<◌, ◌≡◌, ◌↔◌, inl, inr, false, truthy, Bool-cases, arith}
use cbmc_vboot.Context.{vb2_success}
use cbmc_vboot.Common.{Workbuf}
use cbmc_vboot.Common.Bounds.{IsRoom}
use cbmc_vboot.Keys.{Memory, load32, sizeof_fw_preamble, offset_preamble_signature}
use cbmc_vboot.Keys.Inside.Bounds.{vb2_verify_member_inside_iff}
use cbmc_vboot.Keys.Inside.Members.{load32-lt, SignatureInside, SignatureInside-iff}
use cbmc_vboot.Keys.Unpack.{PublicKey}
use cbmc_vboot.Keys.Verify.{Crypto, vb2_verify_data}
use cbmc_vboot.Keys.Verify.Signed.{IsSigned, vb2_verify_data_iff}
use cbmc_vboot.Kernel.Preamble.{
  KernelPreamble, load64, kernel_preamble_at, sizeof_kernel_preamble, offset_kernel_body_signature,
  kernel_preamble_header_version_major, check_kernel_before, part_outside, check_kernel_after,
  vb2_verify_kernel_preamble,
}

-- A preamble of at least the struct's size and a known version that lies in the buffer, with its
-- signature.
pub record IsKernelPreamble (m : Memory) (preamble size : ℕ) : Type 0 where
  pub room : sizeof_kernel_preamble ≤ size
  pub major :
      (kernel_preamble_at m preamble).header_version_major ≡ kernel_preamble_header_version_major
  pub minor : 2 ≤ (kernel_preamble_at m preamble).header_version_minor
  pub fits : (kernel_preamble_at m preamble).preamble_size ≤ size
  pub signature :
      SignatureInside m preamble
        (kernel_preamble_at m preamble).preamble_size
        (preamble + offset_preamble_signature)
  pub covered :
      (kernel_preamble_at m preamble).preamble_signature.data_size
      ≤ (kernel_preamble_at m preamble).preamble_size

-- A part that is not empty lies in the signed body, once that is loaded.
abbrev pub PartInside : KernelPreamble → (address size : ℕ) → Type 0
PartInside pre address size =
    0 < size
    → (pre.body_load_address ≤ address)
      × (address + size ≤ pre.body_load_address + pre.body_signature.data_size)
      × (pre.body_load_address + pre.body_signature.data_size < 2 ^ 64)

-- The signed part holds as many bytes as the firmware's struct has, and the body's signature; the
-- body holds the boot loader and the header of vmlinuz.
pub record CoversKernel (m : Memory) (preamble : ℕ) : Type 0 where
  pub covers : sizeof_fw_preamble ≤ (kernel_preamble_at m preamble).preamble_signature.data_size
  pub signed_body :
      SignatureInside m preamble
        (kernel_preamble_at m preamble).preamble_signature.data_size
        (preamble + offset_kernel_body_signature)
  pub bootloader :
      PartInside
        (kernel_preamble_at m preamble)
        (kernel_preamble_at m preamble).bootloader_address
        (kernel_preamble_at m preamble).bootloader_size
  pub vmlinuz_header :
      PartInside
        (kernel_preamble_at m preamble)
        (kernel_preamble_at m preamble).vmlinuz_header_address
        (kernel_preamble_at m preamble).vmlinuz_header_size

PartInside-iff :
    (pre : KernelPreamble) (address size : ℕ)
    → pre.body_load_address < 2 ^ 64
    → pre.body_signature.data_size < 2 ^ 32
    → address < 2 ^ 64
    → size < 2 ^ 32
    → (part_outside pre address size ≡ false) ↔ PartInside pre address size
unfolding part_outside
PartInside-iff pre address size b d a s =
    let (sound, complete) =
      vb2_verify_member_inside_iff pre.body_load_address pre.body_signature.data_size address size 0
        0 b (omega arith) a (omega arith) (omega arith) (omega arith) in
    (
      λ h pos. let i = sound (ground (arith, h, pos)) in (i.after, i.member_end, i.space),
      λ h. elim (Bool-cases (truthy size)) [
        | inr none ↦ ground (arith, none)
        | inl some_bytes ↦
            let (after, end, space) = h (ground (arith, some_bytes)) in
            let fine = complete (record {
              space = space;
              after = after;
              member_end = end;
              apart = λ p. absurd (omega (arith, p));
              data_after = omega (arith, after, a);
              data_end = omega (arith, end, a);
            }) in
            ground (arith, fine)
      ],
    )

load64-lt : (m : Memory) (a : ℕ) → load64 m a < 2 ^ 64
load64-lt m a = omega (arith, load32-lt m a, load32-lt m (a + 4))

check_kernel_before_iff :
    (m : Memory) (preamble size : ℕ)
    → preamble + size < 2 ^ 64
    → (check_kernel_before m preamble size ≡ vb2_success) ↔ IsKernelPreamble m preamble size
unfolding check_kernel_before
check_kernel_before_iff m preamble size b =
    let signature_iff = λ (p : preamble < 2 ^ 64).
      SignatureInside-iff m preamble (kernel_preamble_at m preamble).preamble_size
        (preamble + offset_preamble_signature) p (omega (arith, load32-lt m preamble)) in
    (
      λ h. record {
        room = ground arith;
        major = ground arith;
        minor = ground arith;
        fits = ground arith;
        signature = (signature_iff (omega arith) (ground arith)).0 (ground arith);
        covered = ground arith;
      },
      λ i.
          let signed = (signature_iff (omega arith) (omega (arith, i.room))).1 i.signature in
          ground (arith, i.room, i.major, i.minor, i.fits, signed, i.covered),
    )

check_kernel_after_iff :
    (m : Memory) (preamble : ℕ)
    → preamble + sizeof_kernel_preamble ≤ 2 ^ 64
    → (check_kernel_after m preamble ≡ vb2_success) ↔ CoversKernel m preamble
unfolding check_kernel_after
check_kernel_after_iff m preamble b =
    let pre = kernel_preamble_at m preamble in
    let data_size = load32-lt m (preamble + offset_kernel_body_signature + 16) in
    let body =
      SignatureInside-iff m preamble pre.preamble_signature.data_size
        (preamble + offset_kernel_body_signature) (omega arith)
        (omega (arith, load32-lt m (preamble + offset_preamble_signature + 16))) (omega arith) in
    let part = λ (address_at size_at : ℕ).
      PartInside-iff pre (load64 m address_at) (load32 m size_at) (load64-lt m (preamble + 48))
        data_size (load64-lt m address_at) (load32-lt m size_at) in
    let bootloader = part (preamble + 56) (preamble + 64) in
    let vmlinuz_header = part (preamble + 96) (preamble + 104) in
    (
      λ h. record {
        covers = ground arith;
        signed_body = body.0 (ground arith);
        bootloader = bootloader.0 (ground arith);
        vmlinuz_header = vmlinuz_header.0 (ground arith);
      },
      λ i.
          let loader = bootloader.1 i.bootloader in
          let header = vmlinuz_header.1 i.vmlinuz_header in
          ground (arith, i.covers, body.1 i.signed_body, loader, header),
    )

-- vb2_verify_kernel_preamble succeeds, on a buffer in the address space and with a work buffer of
-- that form, exactly for a preamble of version 2.2 or later that lies in the buffer with its
-- signature, which is one of its data under the key, and which covers, in the memory after the
-- signature check, the size of the firmware's struct and the body's signature, and whose boot loader
-- and vmlinuz header, if not empty, lie in the signed body.
pub vb2_verify_kernel_preamble_iff :
    {Digest : Type 0} (crypto : Crypto Digest) (m : Memory) (preamble size : ℕ) (key : PublicKey)
    (wb : Workbuf)
    → preamble + size < 2 ^ 64
    → IsRoom wb
    → ((vb2_verify_kernel_preamble crypto m preamble size key wb).1 ≡ vb2_success)
      ↔ IsKernelPreamble m preamble size
        × IsSigned crypto m preamble size (preamble + offset_preamble_signature) key wb
        × CoversKernel
            (vb2_verify_data crypto m preamble size (preamble + offset_preamble_signature) key wb).0
            preamble
unfolding vb2_verify_kernel_preamble
vb2_verify_kernel_preamble_iff crypto m preamble size key wb b r =
    let sig_at = preamble + offset_preamble_signature in
    let m' = (vb2_verify_data crypto m preamble size sig_at key wb).0 in
    let before = check_kernel_before_iff m preamble size b in
    let signed = vb2_verify_data_iff crypto m preamble size sig_at key wb r in
    let after = check_kernel_after_iff m' preamble in
    (
      λ h.
          let p = before.0 (ground arith) in
          (p, signed.0 (ground arith), (after (omega (arith, p.room))).0 (ground arith)),
      λ (p, s, c). ground (arith, before.1 p, signed.1 s, (after (omega (arith, p.room))).1 c),
    )
