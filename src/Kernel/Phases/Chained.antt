-- ===== src/Kernel/Phases/Chained.antt =====
-- lib20/api_kernel.c: vb2api_load_kernel_vblock verifies the preamble with the data key of the
-- keyblock that it has checked.
use cbmc_vboot.Prelude.{ℕ, ◌+◌, ◌≡◌, sym, subst, arith, ok}
use cbmc_vboot.Context.{vb2_success}
use cbmc_vboot.Common.{add64, add32}
use cbmc_vboot.Keys.{packed_key_at, offset_data_key}
use cbmc_vboot.Keys.Stores.{IsKeyCopy}
use cbmc_vboot.Keys.Unpack.{vb2_unpack_key}
use cbmc_vboot.Keys.Verify.{Crypto}
use cbmc_vboot.Firmware.{Machine, ReadResource}
use cbmc_vboot.Firmware.Placed.{IsPlaced, KeepsKey, IsHeld-start, vb2_workbuf_from_ctx_lem}
use cbmc_vboot.Kernel.Keyblock.{clear_signed, vb2_load_kernel_keyblock}
use cbmc_vboot.Kernel.Keyblock.Moved.{move_kernel_data_key-IsKeyCopy}
use cbmc_vboot.Kernel.Keyblock.Signed.{SignedKeyblock}
use cbmc_vboot.Kernel.Preamble.Loaded.{kernel_data_key_of}
use cbmc_vboot.Kernel.Phases.{vb2api_load_kernel_vblock}
use cbmc_vboot.Kernel.Phases.Signed.{LoadedKernel, vb2api_load_kernel_vblock-LoadedKernel}

-- The data key of the keyblock, in the memory after it was checked, was kept, and the preamble's key
-- is unpacked from that copy.
pub record ChainedKernel {Digest : Type 0} (crypto : Crypto Digest) (read : ReadResource)
    (s s' : Machine) : Type 0 where
  pub loaded : LoadedKernel crypto read s s'
  pub kept :
      KeepsKey loaded.keyblock.keyblock.checked
        (loaded.keyblock.keyblock.kb + offset_data_key)
        (vb2_load_kernel_keyblock crypto read s).0
  pub unpacked :
      let s1 = (vb2_load_kernel_keyblock crypto read s).0 in
      vb2_unpack_key s1.memory
        (add64 s1.ctx.workbuf s1.ctx.sd.workbuf_data_key_offset)
        s1.ctx.sd.workbuf_data_key_size
      ≡ ok loaded.preamble.data_key

keeps :
    {Digest : Type 0} (crypto : Crypto Digest) (read : ReadResource) (s s' : Machine)
    (a : SignedKeyblock crypto read s s')
    → IsPlaced s.ctx
    → KeepsKey a.keyblock.checked (a.keyblock.kb + offset_data_key) s'
unfolding clear_signed
keeps crypto read s s' a p =
    let k = a.keyblock in
    let n = k.noted in
    let cleared : IsPlaced (clear_signed s.ctx) = record {
      low = p.low;
      small = p.small;
      used = p.used;
    } in
    let (room, start, end) = vb2_workbuf_from_ctx_lem (clear_signed s.ctx) cleared in
    let kb_is = IsHeld-start _ k.block_size k.kb room k.held in
    let at = s.ctx.workbuf + s.ctx.workbuf_used in
    let at_is : add64 s.ctx.workbuf s.ctx.workbuf_used ≡ at =
      omega (arith, p.low, p.small, p.used) in
    let same : add64 s'.ctx.workbuf s'.ctx.sd.workbuf_data_key_offset
        ≡ add64 s.ctx.workbuf s.ctx.workbuf_used =
      omega (arith, n.offset, n.same_workbuf) in
    let moved =
      move_kernel_data_key-IsKeyCopy k.checked (add64 s.ctx.workbuf s.ctx.workbuf_used) k.kb
        (omega (arith, kb_is, start, at_is)) (omega (arith, kb_is, end, p.low, p.small)) in
    record {
      copied =
          subst (λ (x : ℕ). IsKeyCopy k.checked (k.kb + offset_data_key) s'.memory x) (sym same)
            (subst
              (λ m.
                IsKeyCopy k.checked (k.kb + offset_data_key) m
                  (add64 s.ctx.workbuf s.ctx.workbuf_used))
              (sym n.moved) moved);
      size =
          subst
            (λ (x : ℕ).
              s'.ctx.sd.workbuf_data_key_size
              ≡ add32 (packed_key_at s'.memory x).key_offset (packed_key_at s'.memory x).key_size)
            (sym same) n.size;
    }

-- Let the work buffer lie in the lower half of the address space, with no more of it used than
-- there is. If vb2api_load_kernel_vblock succeeds, the keyblock was checked with the kernel key,
-- and its data key, as it is after that check, was copied to the place from which the preamble's
-- key is unpacked: algorithm, version, size and the key's bytes are the same, and the bytes stand
-- behind the header. The preamble was verified with the key that is unpacked there. If the kernel
-- is marked as signed, the keyblock's signature is good and it fits the mode, and outside recovery
-- mode kernel_version is the key's version and the kernel's side by side, 16 bits each. Where a
-- signed kernel is needed it is marked, and its version is not below the stored version. The
-- stored version, the modes and the kernel space are as before.
pub vb2api_load_kernel_vblock-ChainedKernel :
    {Digest : Type 0} (crypto : Crypto Digest) (read : ReadResource) (s : Machine)
    → IsPlaced s.ctx
    → let r = vb2api_load_kernel_vblock crypto read s in
      r.1 ≡ vb2_success → ChainedKernel crypto read s r.0
unfolding kernel_data_key_of
vb2api_load_kernel_vblock-ChainedKernel crypto read s p h =
    let loaded = vb2api_load_kernel_vblock-LoadedKernel crypto read s h in
    record {
      loaded = loaded;
      kept = keeps crypto read s (vb2_load_kernel_keyblock crypto read s).0 loaded.keyblock p;
      unpacked = loaded.preamble.unpacked;
    }
