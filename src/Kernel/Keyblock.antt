-- ===== src/Kernel/Keyblock.antt =====
-- firmware/lib20/kernel.c: vb2_load_kernel_keyblock.
pub mod Moved
pub mod Signed
use cbmc_vboot.Prelude.{
  ℕ, ◌+◌, ◌-◌, ◌*◌, ◌/◌, ◌%◌, ◌^◌, bit_and, bit_or, Bool, false, not, ◌&&◌, Option, none, some, ltb,
  truthy, has_flag, if◌then◌else◌, Result, ok, err,
}
use cbmc_vboot.Context.{Context, vb2_success, context_recovery_mode, context_developer_mode}
use cbmc_vboot.Codes.Kernel.{
  error_kernel_keyblock_workbuf_header, error_kernel_keyblock_workbuf,
  error_kernel_keyblock_version_range, error_kernel_keyblock_version_rollback,
  error_kernel_keyblock_dev_flag, error_kernel_keyblock_rec_flag,
}
use cbmc_vboot.Common.{Workbuf, add64, add32, vb2_workbuf_alloc, vb2_workbuf_realloc}
use cbmc_vboot.Keys.{
  Memory, load_bytes, store_bytes, store32, packed_key_at, keyblock_at, sizeof_keyblock,
  sizeof_packed_key, offset_data_key,
}
use cbmc_vboot.Keys.Unpack.{PublicKey, vb2_unpack_key}
use cbmc_vboot.Keys.Verify.{Crypto}
use cbmc_vboot.Keys.Block.{vb2_verify_keyblock}
use cbmc_vboot.Firmware.{
  Machine, Resource, kernel_vblock, ReadResource, read_to, and_then, vb2_workbuf_from_ctx,
}
use cbmc_vboot.Kernel.{vb2_need_signed_kernel, vb2_verify_keyblock_hash}

abbrev pub sd_flag_kernel_signed : ℕ
sd_flag_kernel_signed = 0x4

abbrev pub key_block_flag_developer_0 : ℕ
key_block_flag_developer_0 = 0x01

abbrev pub key_block_flag_developer_1 : ℕ
key_block_flag_developer_1 = 0x02

abbrev pub key_block_flag_recovery_0 : ℕ
key_block_flag_recovery_0 = 0x04

abbrev pub key_block_flag_recovery_1 : ℕ
key_block_flag_recovery_1 = 0x08

-- sd->flags &= ~VB2_SD_FLAG_KERNEL_SIGNED
unfoldable pub clear_signed : Context → Context
clear_signed ctx = record ctx {
  sd = record ctx.sd { flags = bit_and ctx.sd.flags (2 ^ 32 - 1 - sd_flag_kernel_signed) };
}

-- Lines 168-198: the code of the first of the four checks that fails.
unfoldable pub mode_code : Context → (keyblock_flags key_version : ℕ) → ℕ
mode_code ctx keyblock_flags key_version =
    let rec_switch = has_flag ctx.flags context_recovery_mode in
    let dev_switch = has_flag ctx.flags context_developer_mode in
    let dev_flag = if dev_switch then key_block_flag_developer_1 else key_block_flag_developer_0 in
    let rec_flag = if rec_switch then key_block_flag_recovery_1 else key_block_flag_recovery_0 in
    if not (has_flag keyblock_flags dev_flag)
    then error_kernel_keyblock_dev_flag
    else if not (has_flag keyblock_flags rec_flag)
    then error_kernel_keyblock_rec_flag
    else if not rec_switch && ltb 0xffff key_version
    then error_kernel_keyblock_version_range
    else if not rec_switch && ltb key_version (ctx.sd.kernel_version_secdatak / 2 ^ 16)
    then error_kernel_keyblock_version_rollback
    else vb2_success

-- Lines 221-226: the data key of the keyblock at `kb` goes to `key_data`, followed by its data.
unfoldable pub move_kernel_data_key : Memory → (key_data kb : ℕ) → Memory
move_kernel_data_key m key_data kb =
    let from = kb + offset_data_key in
    let m1 = store_bytes m key_data (load_bytes sizeof_packed_key m from) in
    let m2 = store32 m1 key_data sizeof_packed_key in
    store_bytes m2 (add64 key_data (packed_key_at m2 key_data).key_offset) (
      load_bytes (packed_key_at m2 key_data).key_size m2
        (add64 from (packed_key_at m2 from).key_offset))

-- Lines 200-243: the keyblock is accepted, `valid` is keyblock_is_valid.
unfoldable pub keep_kernel_keyblock : Machine → (kb : ℕ) → (valid : Bool) → Machine
unfolding move_kernel_data_key
keep_kernel_keyblock s kb valid =
    let offset = s.ctx.workbuf_used in
    let key_data = add64 s.ctx.workbuf offset in
    let block = keyblock_at s.memory kb in
    let m = move_kernel_data_key s.memory key_data kb in
    let key = packed_key_at m key_data in
    let size = add32 key.key_offset key.key_size in
    record {
      memory = m;
      ctx = record s.ctx {
        sd = record s.ctx.sd {
          kernel_version = block.data_key.key_version * 2 ^ 16 % 2 ^ 32;
          flags = if valid then bit_or s.ctx.sd.flags sd_flag_kernel_signed else s.ctx.sd.flags;
          vblock_preamble_offset = block.keyblock_size;
          workbuf_data_key_offset = offset;
          workbuf_data_key_size = size;
        };
        workbuf_used = add32 offset size;
      };
    }

-- Lines 168-243: `valid` says that the signature is good.
unfoldable pub accept_kernel_keyblock : Machine → (kb : ℕ) → (valid : Bool) → Machine × ℕ
unfolding mode_code keep_kernel_keyblock
accept_kernel_keyblock s kb valid =
    let block = keyblock_at s.memory kb in
    let rv = mode_code s.ctx block.keyblock_flags block.data_key.key_version in
    if truthy rv && vb2_need_signed_kernel s.ctx
    then (s, rv)
    else (keep_kernel_keyblock s kb (valid && not (truthy rv)), vb2_success)

module _ {Digest : Type 0} (crypto : Crypto Digest) (read : ReadResource) where
  -- Lines 155-243.
  unfoldable pub verify_kernel_keyblock :
      Machine → PublicKey → (block_size kb : ℕ) → Workbuf → Machine × ℕ
  verify_kernel_keyblock s kernel_key block_size kb wb =
      let (m, rv) = vb2_verify_keyblock crypto s.memory kb block_size kernel_key wb in
      let (m', code) = vb2_verify_keyblock_hash crypto m kb block_size wb in
      if not (truthy rv)
      then accept_kernel_keyblock (record s { memory = m }) kb (not (truthy rv))
      else if vb2_need_signed_kernel s.ctx
      then (record s { memory = m }, rv)
      else if truthy code
      then (record s { memory = m' }, code)
      else accept_kernel_keyblock (record s { memory = m' }) kb false

  -- Lines 148-243, with the place of the whole keyblock.
  unfoldable pub read_kernel_keyblock :
      Machine → PublicKey → (block_size : ℕ) → Workbuf × Option ℕ → Machine × ℕ
  unfolding verify_kernel_keyblock
  read_kernel_keyblock s kernel_key block_size (wb, none) = (s, error_kernel_keyblock_workbuf)
  read_kernel_keyblock s kernel_key block_size (wb, some kb) =
      and_then (read_to read s kernel_vblock 0 kb block_size)
        (λ s'. verify_kernel_keyblock s' kernel_key block_size kb wb)

  -- Lines 131-243, with the place of the header.
  unfoldable pub read_kernel_header : Machine → PublicKey → Workbuf × Option ℕ → Machine × ℕ
  unfolding read_kernel_keyblock
  read_kernel_header s kernel_key (wb, none) = (s, error_kernel_keyblock_workbuf_header)
  read_kernel_header s kernel_key (wb, some kb) =
      and_then (read_to read s kernel_vblock 0 kb sizeof_keyblock) (λ s'.
        let block_size = (keyblock_at s'.memory kb).keyblock_size in
        read_kernel_keyblock s' kernel_key block_size
          (vb2_workbuf_realloc wb sizeof_keyblock block_size))

  -- Lines 126-243, with the kernel key.
  unfoldable pub with_kernel_key : Machine → Result PublicKey → Machine × ℕ
  unfolding read_kernel_header
  with_kernel_key s (err rv) = (s, rv)
  with_kernel_key s (ok kernel_key) =
      read_kernel_header s kernel_key
        (vb2_workbuf_alloc (vb2_workbuf_from_ctx s.ctx) sizeof_keyblock)

  unfoldable pub vb2_load_kernel_keyblock : Machine → Machine × ℕ
  unfolding with_kernel_key clear_signed
  vb2_load_kernel_keyblock s =
      let s' = record s { ctx = clear_signed s.ctx } in
      let key_data = add64 s.ctx.workbuf s.ctx.sd.workbuf_kernel_key_offset in
      with_kernel_key s' (vb2_unpack_key s.memory key_data s.ctx.sd.workbuf_kernel_key_size)
