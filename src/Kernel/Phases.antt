-- ===== src/Kernel/Phases.antt =====
-- firmware/lib20/api_kernel.c.
pub mod Rolled
pub mod Signed
pub mod Chained
use cbmc_vboot.Prelude.{
  ℕ, ◌+◌, ◌*◌, ◌%◌, ◌^◌, Bool, not, ◌&&◌, ◌==◌, List, length, Option, none, some, ltb, truthy,
  has_flag, if◌then◌else◌, Result, ok, err,
}
use cbmc_vboot.Context.{Context, sizeof_shared_data, vb2_success, context_recovery_mode}
use cbmc_vboot.Codes.{error_gbb_workbuf, error_api_check_hash_workbuf_digest}
use cbmc_vboot.Codes.Kernel.{
  error_api_get_kernel_size_preamble, error_api_kphase1_workbuf_rec_key, error_api_kphase1_preamble,
  error_api_verify_kdata_size, error_api_verify_kdata_preamble, error_api_verify_kdata_workbuf,
  error_api_verify_kdata_key,
}
use cbmc_vboot.Common.{Workbuf, add64, add32, vb2_workbuf_alloc, vb2_workbuf_free, vb2_offset_of}
use cbmc_vboot.Secdatak.{versions, vb2_secdatak_init, vb2_secdatak_get, vb2_secdatak_set}
use cbmc_vboot.Keys.{
  Memory, load_bytes, store_bytes, store32, packed_key_at, sizeof_packed_key, offset_kernel_subkey,
}
use cbmc_vboot.Keys.Unpack.{PublicKey, vb2_digest_size, vb2_unpack_key}
use cbmc_vboot.Keys.Verify.{Crypto, sizeof_digest_context, vb2_verify_digest}
use cbmc_vboot.Firmware.{
  Machine, Resource, gbb, ReadResource, read_to, and_then, fail, vb2_workbuf_from_ctx,
}
use cbmc_vboot.Firmware.Gbb.{gbb_header_at, sizeof_gbb_header, vb2_read_gbb_header}
use cbmc_vboot.Kernel.Keyblock.{sd_flag_kernel_signed, vb2_load_kernel_keyblock}
use cbmc_vboot.Kernel.Preamble.{
  kernel_preamble_at, offset_kernel_body_signature, vb2_load_kernel_preamble,
}

abbrev pub recovery_secdatak_init : ℕ
recovery_secdatak_init = 0x5d

abbrev pub context_allow_kernel_roll_forward : ℕ
context_allow_kernel_roll_forward = 0x800

abbrev pub set_stored_version : Context → ℕ → Context
set_stored_version ctx v = record ctx { sd = record ctx.sd { kernel_version_secdatak = v } }

-- Lines 28-43: the stored version, with the code of a failure.
unfoldable pub read_stored_version : Context → Context × ℕ
read_stored_version ctx =
    let (init, rv) = vb2_secdatak_init ctx in
    if truthy rv then (init, rv) else elim (vb2_secdatak_get init versions) [
      | ok v ↦ (set_stored_version init v, vb2_success)
      | err code ↦ (init, code)
    ]

-- Lines 105-123: the kernel key is at `key_data`.
unfoldable pub keep_kernel_key : Machine → (key_data key_size : ℕ) → Machine
keep_kernel_key s key_data key_size =
    let offset = vb2_offset_of s.ctx.workbuf key_data % 2 ^ 32 in
    record s {
      ctx = record s.ctx {
        sd = record s.ctx.sd {
          workbuf_data_key_size = 0;
          workbuf_preamble_size = 0;
          workbuf_hash_size = 0;
          workbuf_kernel_key_offset = offset;
          workbuf_kernel_key_size = key_size;
        };
        workbuf_used = add32 offset key_size;
      };
    }

-- Lines 96-100: the kernel subkey at `from` goes to `key_data`, followed by its data.
unfoldable pub move_kernel_subkey : Memory → (key_data from : ℕ) → Memory
move_kernel_subkey m key_data from =
    let m1 = store_bytes m key_data (load_bytes sizeof_packed_key m from) in
    let m2 = store32 m1 key_data sizeof_packed_key in
    let key = packed_key_at m2 from in
    store_bytes m2 (add64 key_data (packed_key_at m2 key_data).key_offset)
      (load_bytes key.key_size m2 (add64 from key.key_offset))

-- Lines 81-123.
unfoldable pub take_subkey : Machine → Machine × ℕ
unfolding keep_kernel_key move_kernel_subkey
take_subkey s =
    let pre = add64 s.ctx.workbuf s.ctx.sd.workbuf_preamble_offset in
    let key_data = add64 s.ctx.workbuf sizeof_shared_data in
    let m = move_kernel_subkey s.memory key_data (pre + offset_kernel_subkey) in
    let key = packed_key_at m key_data in
    if not (truthy s.ctx.sd.workbuf_preamble_size) then (s, error_api_kphase1_preamble) else (
      keep_kernel_key (record s { memory = m }) key_data (add32 key.key_offset key.key_size),
      vb2_success,
    )

module _ (read : ReadResource) where
  -- Lines 69-123, with the place of the recovery key.
  unfoldable pub read_recovery_key :
      Machine → (key_offset key_size : ℕ) → Workbuf × Option ℕ → Machine × ℕ
  unfolding keep_kernel_key
  read_recovery_key s key_offset key_size (wb, none) = (s, error_api_kphase1_workbuf_rec_key)
  read_recovery_key s key_offset key_size (wb, some key_data) =
      and_then (read_to read s gbb key_offset key_data key_size)
        (λ s'. (keep_kernel_key s' key_data key_size, vb2_success))

  -- Lines 53-123, with the place of the GBB header.
  unfoldable pub find_recovery_key : Machine → Workbuf × Option ℕ → Machine × ℕ
  unfolding read_recovery_key
  find_recovery_key s (wb, none) = (s, error_gbb_workbuf)
  find_recovery_key s (wb, some at) = and_then (vb2_read_gbb_header read s at) (λ s'.
      let header = gbb_header_at s'.memory at in
      read_recovery_key s' header.recovery_key_offset header.recovery_key_size
        (vb2_workbuf_alloc (vb2_workbuf_free wb sizeof_gbb_header) header.recovery_key_size))

  -- Lines 46-123.
  unfoldable pub find_kernel_key : Machine → Machine × ℕ
  unfolding find_recovery_key take_subkey
  find_kernel_key s =
      if has_flag s.ctx.flags context_recovery_mode
      then find_recovery_key s (vb2_workbuf_alloc (vb2_workbuf_from_ctx s.ctx) sizeof_gbb_header)
      else take_subkey s

  unfoldable pub vb2api_kernel_phase1 : Machine → Machine × ℕ
  unfolding read_stored_version find_kernel_key
  vb2api_kernel_phase1 s =
      let (ctx, rv) = read_stored_version s.ctx in
      let recovery = has_flag ctx.flags context_recovery_mode in
      let known = if truthy rv then set_stored_version ctx 0 else ctx in
      if truthy rv && not recovery
      then fail (record s { ctx = ctx }) recovery_secdatak_init rv
      else find_kernel_key (record s { ctx = known })

-- Lines 261-264: the condition.
unfoldable pub may_roll_kernel : Context → Bool
may_roll_kernel ctx =
    ltb ctx.sd.kernel_version_secdatak ctx.sd.kernel_version
    && has_flag ctx.sd.flags sd_flag_kernel_signed
    && not (has_flag ctx.flags context_recovery_mode)
    && has_flag ctx.flags context_allow_kernel_roll_forward

unfoldable pub vb2api_kernel_phase3 : Context → Context × ℕ
unfolding may_roll_kernel
vb2api_kernel_phase3 ctx =
    let (ctx', rv) = vb2_secdatak_set ctx versions ctx.sd.kernel_version in
    if not (may_roll_kernel ctx)
    then (ctx, vb2_success)
    else if truthy rv
    then (ctx', rv)
    else (set_stored_version ctx' ctx'.sd.kernel_version, vb2_success)

-- The offset and the size that are written where the caller asks for them.
unfoldable pub vb2api_get_kernel_size : Machine → Result (ℕ × ℕ)
vb2api_get_kernel_size s =
    let sd = s.ctx.sd in
    let pre = kernel_preamble_at s.memory (add64 s.ctx.workbuf sd.workbuf_preamble_offset) in
    if not (truthy sd.workbuf_preamble_size)
    then err error_api_get_kernel_size_preamble
    else ok (add32 sd.vblock_preamble_offset sd.workbuf_preamble_size, pre.body_signature.data_size)

module _ {Digest : Type 0} (crypto : Crypto Digest) (read : ReadResource) where
  unfoldable pub vb2api_load_kernel_vblock : Machine → Machine × ℕ
  vb2api_load_kernel_vblock s =
      and_then (vb2_load_kernel_keyblock crypto read s) (vb2_load_kernel_preamble crypto read)
