-- ===== src/Tests/Kernel.antt =====
-- A kernel key, and a kernel's vblock that is accepted by hash functions and RSA that always succeed.
use cbmc_vboot.Prelude.{
  ℕ, ◌+◌, ◌*◌, ◌^◌, ◌<◌, ◌≡◌, ◌⊎◌, ◌↔◌, refl, arith, false, List, [], ◌∷◌, ◌++◌, replicate,
  le_bytes, has_flag,
}
use cbmc_vboot.Context.{vb2_success, context_recovery_mode}
use cbmc_vboot.Common.{
  vb2_workbuf_alloc, vb2_workbuf_init, vb2_align, wb_round_up, vb2_aligned, vb2_workbuf_realloc,
  vb2_workbuf_free, vb2_offset_of,
}
use cbmc_vboot.Nvstorage.{vb2_nv_get}
use cbmc_vboot.Gpt.{same_bytes}
use cbmc_vboot.Keys.{store_bytes, offset_preamble_signature}
use cbmc_vboot.Keys.Unpack.{
  vb2_unpack_key, vb2_crypto_to_signature, vb2_crypto_to_hash, vb2_packed_key_size, unpack,
  vb2_digest_size, vb2_rsa_sig_size,
}
use cbmc_vboot.Keys.Inside.{
  vb2_verify_packed_key_inside, vb2_verify_member_inside, vb2_verify_signature_inside,
}
use cbmc_vboot.Keys.Verify.{vb2_verify_data, vb2_verify_digest}
use cbmc_vboot.Keys.Verify.Signed.{IsSigned}
use cbmc_vboot.Keys.Block.{vb2_verify_keyblock, vb2_check_keyblock}
use cbmc_vboot.Firmware.{vb2_workbuf_from_ctx, Machine, gbb, fw_vblock, kernel_vblock, ReadResource}
use cbmc_vboot.Kernel.{vb2_need_signed_kernel}
use cbmc_vboot.Kernel.Keyblock.{
  vb2_load_kernel_keyblock, verify_kernel_keyblock, accept_kernel_keyblock,
}
use cbmc_vboot.Kernel.Preamble.{
  kernel_preamble_at, vb2_load_kernel_preamble, verify_preamble_of, vb2_verify_kernel_preamble,
  accept_kernel_preamble,
}
use cbmc_vboot.Kernel.Preamble.Accepted.{
  IsKernelPreamble, CoversKernel, vb2_verify_kernel_preamble_iff,
}
use cbmc_vboot.Kernel.Phases.{vb2api_load_kernel_vblock, vb2api_kernel_phase3}
use cbmc_vboot.Kernel.Phases.Signed.{
  LoadedKernel, Trusted, keyblock_of, vb2api_kernel_phase3-Trusted,
}
use cbmc_vboot.Kernel.Phases.Chained.{ChainedKernel, vb2api_load_kernel_vblock-ChainedKernel}
use cbmc_vboot.Firmware.Placed.{IsPlaced}
use cbmc_vboot.Kernel.Data.{
  vb2api_verify_kernel_data, with_kernel_hash, hash_kernel, finish_kernel_digest,
  check_kernel_digest,
}
use cbmc_vboot.Kernel.Data.BodySigned.{BodySigned, vb2api_verify_kernel_data-BodySigned}
use cbmc_vboot.Tests.{sample, sample_sd}
use cbmc_vboot.Tests.Firmware.{
  u64, packed, key_data, signature, root_key, slice, always, room, room-IsRoom, with_bytes, root,
}

-- A keyblock for normal mode.
abbrev keyblock : List ℕ
keyblock =
    (0x43 ∷ 0x48 ∷ 0x52 ∷ 0x4f ∷ 0x4d ∷ 0x45 ∷ 0x4f ∷ 0x53 ∷ [])
    ++ (le_bytes 4 2
        ++ (le_bytes 4 1
            ++ (u64 504
                ++ (signature 352 376
                    ++ (replicate 24 0
                        ++ (u64 5 ++ (packed 32 1 ++ (key_data ++ replicate 128 0))))))))

abbrev preamble : List ℕ
preamble =
    u64 372
    ++ (signature 236 244
        ++ (le_bytes 4 2
            ++ (le_bytes 4 2
                ++ (u64 3
                    ++ (u64 0x10_0000
                        ++ (u64 0 ++ (u64 0 ++ (signature 44 4 ++ replicate 276 0))))))))

abbrev read_kernel : ReadResource
read_kernel ctx gbb offset size = ([], 1)
read_kernel ctx fw_vblock offset size = ([], 1)
read_kernel ctx kernel_vblock offset size = (slice (keyblock ++ preamble) offset size, 0)

-- The kernel key follows the shared data; the caller allows the version to be raised.
abbrev start : Machine
start = record {
  memory = store_bytes (λ a. 0) 0x1080 root_key;
  ctx = record sample {
    flags = 0x800;
    workbuf_used = 0x1a8;
    sd = record sample_sd { workbuf_kernel_key_offset = 0x80; workbuf_kernel_key_size = 296 };
  };
}

abbrev loaded : Machine
loaded = (vb2api_load_kernel_vblock always read_kernel start).0

loads : (vb2api_load_kernel_vblock always read_kernel start).1 ≡ vb2_success
unfolding vb2api_load_kernel_vblock vb2_load_kernel_keyblock verify_kernel_keyblock
    accept_kernel_keyblock vb2_need_signed_kernel vb2_nv_get vb2_workbuf_alloc vb2_workbuf_from_ctx
    vb2_workbuf_init vb2_align wb_round_up vb2_unpack_key vb2_verify_packed_key_inside
    vb2_crypto_to_signature vb2_crypto_to_hash vb2_packed_key_size vb2_aligned vb2_workbuf_realloc
    vb2_workbuf_free vb2_verify_keyblock vb2_check_keyblock same_bytes vb2_offset_of
    vb2_load_kernel_preamble verify_preamble_of accept_kernel_preamble vb2_verify_member_inside
    vb2_verify_signature_inside vb2_verify_kernel_preamble unpack vb2_digest_size vb2_rsa_sig_size
    vb2_verify_data
loads = refl

start-IsPlaced : IsPlaced start.ctx
start-IsPlaced = record { low = omega arith; small = omega arith; used = omega arith }

vb2api_load_kernel_vblock-ChainedKernel_example : ChainedKernel always read_kernel start loaded
vb2api_load_kernel_vblock-ChainedKernel_example =
    vb2api_load_kernel_vblock-ChainedKernel always read_kernel start start-IsPlaced loads

vb2api_kernel_phase3-Trusted_example :
    let end = vb2api_kernel_phase3 loaded.ctx in
    (end.0.secdatak ≡ start.ctx.secdatak)
    ⊎ ((a : LoadedKernel always read_kernel start loaded) × Trusted always read_kernel start
          (vb2_load_kernel_keyblock always read_kernel start).0
          a.keyblock
        × (has_flag start.ctx.flags context_recovery_mode ≡ false)
        × (end.0.secdatak.kernel_versions
            ≡ (keyblock_of a.keyblock).data_key.key_version * 2 ^ 16
              + (kernel_preamble_at loaded.memory a.preamble.preamble.pre).kernel_version)
        × (start.ctx.sd.kernel_version_secdatak < end.0.secdatak.kernel_versions))
vb2api_kernel_phase3-Trusted_example = vb2api_kernel_phase3-Trusted always read_kernel start loads

vb2_verify_kernel_preamble_iff_example :
    let m = with_bytes preamble in
    let sig_at = 0x2000 + offset_preamble_signature in
    ((vb2_verify_kernel_preamble always m 0x2000 372 root room).1 ≡ vb2_success)
    ↔ IsKernelPreamble m 0x2000 372
      × IsSigned always m 0x2000 372 sig_at root room
      × CoversKernel (vb2_verify_data always m 0x2000 372 sig_at root room).0 0x2000
vb2_verify_kernel_preamble_iff_example =
    vb2_verify_kernel_preamble_iff always (with_bytes preamble) 0x2000 372 root room (omega arith)
      room-IsRoom

-- A body of four bytes.
abbrev body : List ℕ
body = 1 ∷ 2 ∷ 3 ∷ 4 ∷ []

verifies : (vb2api_verify_kernel_data always loaded body).1 ≡ vb2_success
unfolding vb2api_load_kernel_vblock vb2_load_kernel_keyblock verify_kernel_keyblock
    accept_kernel_keyblock vb2_need_signed_kernel vb2_nv_get vb2_workbuf_alloc vb2_workbuf_from_ctx
    vb2_workbuf_init vb2_align wb_round_up vb2_unpack_key vb2_verify_packed_key_inside
    vb2_crypto_to_signature vb2_crypto_to_hash vb2_packed_key_size vb2_aligned vb2_workbuf_realloc
    vb2_workbuf_free vb2_verify_keyblock vb2_check_keyblock same_bytes vb2_offset_of
    vb2_load_kernel_preamble verify_preamble_of accept_kernel_preamble vb2_verify_member_inside
    vb2_verify_signature_inside vb2_verify_kernel_preamble unpack vb2_digest_size vb2_rsa_sig_size
    vb2_verify_data vb2api_verify_kernel_data with_kernel_hash hash_kernel finish_kernel_digest
    check_kernel_digest vb2_verify_digest
verifies = refl

vb2api_verify_kernel_data-BodySigned_example : BodySigned always loaded body
vb2api_verify_kernel_data-BodySigned_example =
    vb2api_verify_kernel_data-BodySigned always loaded body verifies
