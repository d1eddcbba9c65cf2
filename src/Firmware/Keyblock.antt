-- ===== src/Firmware/Keyblock.antt =====
-- firmware/lib20/misc.c: vb2_load_fw_keyblock. vb2_report_dev_firmware only writes to the debug
-- console.
pub mod Authentic
pub mod Moved
pub mod Kept
use cbmc_vboot.Prelude.{
  ℕ, ◌+◌, ◌*◌, ◌/◌, ◌%◌, ◌^◌, Bool, not, ◌&&◌, Option, none, some, ltb, truthy, has_flag,
  if◌then◌else◌, Result, ok, err,
}
use cbmc_vboot.Context.{Context, vb2_success}
use cbmc_vboot.Codes.{
  error_fw_keyblock_workbuf_root_key, error_fw_keyblock_workbuf_header, error_fw_keyblock_workbuf,
  error_fw_keyblock_version_range, error_fw_keyblock_version_rollback,
}
use cbmc_vboot.Common.{Workbuf, add64, add32, vb2_workbuf_alloc, vb2_workbuf_realloc, vb2_offset_of}
use cbmc_vboot.Keys.{
  Memory, load_bytes, store_bytes, store32, packed_key_at, keyblock_at, sizeof_keyblock,
  offset_data_key,
}
use cbmc_vboot.Keys.Unpack.{PublicKey, vb2_unpack_key}
use cbmc_vboot.Keys.Verify.{Crypto}
use cbmc_vboot.Keys.Block.{vb2_verify_keyblock}
use cbmc_vboot.Firmware.{
  Machine, Resource, gbb, fw_vblock, ReadResource, read_to, and_then, fail, vb2_workbuf_from_ctx,
}

abbrev pub gbb_flag_disable_fw_rollback_check : ℕ
gbb_flag_disable_fw_rollback_check = 0x20

abbrev pub recovery_fw_keyblock : ℕ
recovery_fw_keyblock = 0x13

abbrev pub recovery_fw_key_rollback : ℕ
recovery_fw_key_rollback = 0x14

-- Lines 137-144: the code for the key's version.
unfoldable pub key_version_code : Context → ℕ → ℕ
key_version_code ctx key_version =
    if ltb 0xffff key_version
    then error_fw_keyblock_version_range
    else if ltb key_version (ctx.sd.fw_version_secdata / 2 ^ 16)
        && not (has_flag ctx.sd.gbb_flags gbb_flag_disable_fw_rollback_check)
    then error_fw_keyblock_version_rollback
    else vb2_success

-- Lines 157-171: the data key of the keyblock at `kb` goes to `key_data`, in front of its data,
-- which goes where the data of the key before it was.
unfoldable pub move_data_key : Memory → (key_data kb : ℕ) → Memory
move_data_key m key_data kb =
    let from = kb + offset_data_key in
    let m1 = store32 m (key_data + 16) (packed_key_at m from).algorithm in
    let m2 = store32 m1 (key_data + 24) (packed_key_at m1 from).key_version in
    let m3 = store32 m2 (key_data + 8) (packed_key_at m2 from).key_size in
    store_bytes m3 (add64 key_data (packed_key_at m3 key_data).key_offset) (
      load_bytes (packed_key_at m3 key_data).key_size m3
        (add64 from (packed_key_at m3 from).key_offset))

-- Lines 173-189.
unfoldable pub note_data_key : Context → Memory → (key_data kb : ℕ) → Context
note_data_key ctx m key_data kb =
    let key = packed_key_at m key_data in
    let offset = vb2_offset_of ctx.workbuf key_data % 2 ^ 32 in
    let size = add32 key.key_offset key.key_size in
    record ctx {
      sd = record ctx.sd {
        workbuf_data_key_offset = offset;
        workbuf_data_key_size = size;
        vblock_preamble_offset = (keyblock_at m kb).keyblock_size;
      };
      workbuf_used = add32 offset size;
    }

-- Lines 150-191.
unfoldable pub keep_keyblock : Machine → (key_data kb : ℕ) → Machine
unfolding move_data_key note_data_key
keep_keyblock s key_data kb =
    let version = (packed_key_at s.memory (kb + offset_data_key)).key_version * 2 ^ 16 % 2 ^ 32 in
    let ctx = record s.ctx { sd = record s.ctx.sd { fw_version = version } } in
    let m = move_data_key s.memory key_data kb in
    record { memory = m; ctx = note_data_key ctx m key_data kb }

-- Lines 136-191: the keyblock is verified.
unfoldable pub accept_keyblock : Machine → (key_data kb : ℕ) → Machine × ℕ
unfolding key_version_code keep_keyblock
accept_keyblock s key_data kb =
    let rv = key_version_code s.ctx (packed_key_at s.memory (kb + offset_data_key)).key_version in
    if truthy rv
    then fail s recovery_fw_key_rollback rv
    else (keep_keyblock s key_data kb, vb2_success)

module _ {Digest : Type 0} (crypto : Crypto Digest) (read : ReadResource) where
  -- Lines 129-191.
  unfoldable pub verify_keyblock :
      Machine → PublicKey → (key_data block_size kb : ℕ) → Workbuf → Machine × ℕ
  unfolding accept_keyblock
  verify_keyblock s root_key key_data block_size kb wb =
      let (m, rv) = vb2_verify_keyblock crypto s.memory kb block_size root_key wb in
      let s' = record s { memory = m } in
      if truthy rv then fail s' recovery_fw_keyblock rv else accept_keyblock s' key_data kb

  -- Lines 122-191, with the place of the whole keyblock.
  unfoldable pub read_keyblock :
      Machine → PublicKey → (key_data block_size : ℕ) → Workbuf × Option ℕ → Machine × ℕ
  unfolding verify_keyblock
  read_keyblock s root_key key_data block_size (wb, none) = (s, error_fw_keyblock_workbuf)
  read_keyblock s root_key key_data block_size (wb, some kb) =
      and_then (read_to read s fw_vblock 0 kb block_size)
        (λ s'. verify_keyblock s' root_key key_data block_size kb wb)

  -- Lines 106-191, with the place of the header.
  unfoldable pub read_header :
      Machine → PublicKey → (key_data : ℕ) → Workbuf × Option ℕ → Machine × ℕ
  unfolding read_keyblock
  read_header s root_key key_data (wb, none) = (s, error_fw_keyblock_workbuf_header)
  read_header s root_key key_data (wb, some kb) =
      and_then (read_to read s fw_vblock 0 kb sizeof_keyblock) (λ s'.
        let block_size = (keyblock_at s'.memory kb).keyblock_size in
        read_keyblock s' root_key key_data block_size
          (vb2_workbuf_realloc wb sizeof_keyblock block_size))

  -- Lines 98-191, with the root key.
  unfoldable pub with_root_key : Machine → (key_data : ℕ) → Workbuf → Result PublicKey → Machine × ℕ
  unfolding read_header
  with_root_key s key_data wb (err rv) = (s, rv)
  with_root_key s key_data wb (ok root_key) =
      read_header s root_key key_data (vb2_workbuf_alloc wb sizeof_keyblock)

  -- Lines 88-191, with the place of the root key.
  unfoldable pub read_root_key : Machine → Workbuf × Option ℕ → Machine × ℕ
  unfolding with_root_key
  read_root_key s (wb, none) = (s, error_fw_keyblock_workbuf_root_key)
  read_root_key s (wb, some key_data) =
      let key_size = s.ctx.sd.gbb_rootkey_size in
      and_then (read_to read s gbb s.ctx.sd.gbb_rootkey_offset key_data key_size)
        (λ s'. with_root_key s' key_data wb (vb2_unpack_key s'.memory key_data key_size))

  unfoldable pub vb2_load_fw_keyblock : Machine → Machine × ℕ
  unfolding read_root_key
  vb2_load_fw_keyblock s =
      read_root_key s (vb2_workbuf_alloc (vb2_workbuf_from_ctx s.ctx) s.ctx.sd.gbb_rootkey_size)
