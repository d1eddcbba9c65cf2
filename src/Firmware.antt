-- ===== src/Firmware.antt =====
-- The loading of the firmware's header structs: the parts of 2lib/2misc.c and lib20/misc.c that use
-- the work buffer. The memory stands beside the context; the shared data at the start of the work
-- buffer is `ctx.sd`, and is not in `memory`.
pub mod Gbb
pub mod Reads
pub mod Placed
pub mod Keyblock
pub mod Preamble
pub mod Phases
pub mod Hash
pub mod Pcr
use cbmc_vboot.Prelude.{
  ℕ, ◌+◌, ◌-◌, ◌%◌, ◌^◌, Bool, not, ltb, truthy, if◌then◌else◌, List, [], replicate,
}
use cbmc_vboot.Context.{Context, SharedData, sizeof_shared_data, vb2_success}
use cbmc_vboot.Codes.{error_initctx_workbuf_small, error_initctx_workbuf_align}
use cbmc_vboot.Common.{Workbuf, workbuf_align, add64, sub32, vb2_aligned, vb2_workbuf_init}
use cbmc_vboot.Keys.{Memory, store_bytes}
use cbmc_vboot.Boot.{vb2_fail}

pub record Machine : Type 0 where
  pub memory : Memory
  pub ctx : Context

-- enum vb2_resource_index
pub data Resource : Type 0 where
  gbb fw_vblock kernel_vblock : Resource

-- vb2ex_read_resource: the bytes it writes to the buffer, and its code, for the resource, the
-- offset and the size.
abbrev pub ReadResource : Type 0
ReadResource = Context → Resource → (offset size : ℕ) → List ℕ × ℕ

abbrev pub read_to : ReadResource → Machine → Resource → (offset buf size : ℕ) → Machine × ℕ
read_to read s index offset buf size =
    let r = read s.ctx index offset size in
    (record s { memory = store_bytes s.memory buf r.0 }, r.1)

-- if (rv) return rv;
abbrev pub and_then : Machine × ℕ → (Machine → Machine × ℕ) → Machine × ℕ
and_then r rest = if truthy r.1 then r else rest r.0

-- vb2_fail(ctx, reason, rv); return rv;
abbrev pub fail : Machine → ℕ → ℕ → Machine × ℕ
fail s reason rv = (record s { ctx = vb2_fail s.ctx reason (rv % 2 ^ 8) }, rv)

unfoldable pub vb2_workbuf_from_ctx : Context → Workbuf
vb2_workbuf_from_ctx ctx =
    vb2_workbuf_init (add64 ctx.workbuf ctx.workbuf_used) (sub32 ctx.workbuf_size ctx.workbuf_used)

-- memset(sd, 0, sizeof(*sd))
abbrev pub no_shared_data : SharedData
no_shared_data = record {
  flags = 0;
  gbb_flags = 0;
  recovery_reason = 0;
  last_fw_slot = 0;
  last_fw_result = 0;
  fw_slot = 0;
  fw_version = 0;
  fw_version_secdata = 0;
  status = 0;
  kernel_version = 0;
  kernel_version_secdatak = 0;
  gbb_rootkey_offset = 0;
  gbb_rootkey_size = 0;
  gbb_hwid_digest = replicate 32 0;
  vblock_preamble_offset = 0;
  workbuf_data_key_offset = 0;
  workbuf_data_key_size = 0;
  workbuf_preamble_offset = 0;
  workbuf_preamble_size = 0;
  workbuf_hash_offset = 0;
  workbuf_hash_size = 0;
  hash_tag = 0;
  hash_remaining_size = 0;
  workbuf_kernel_key_offset = 0;
  workbuf_kernel_key_size = 0;
}

unfoldable pub vb2_init_context : Context → Context × ℕ
vb2_init_context ctx =
    if truthy ctx.workbuf_used
    then (ctx, vb2_success)
    else if ltb ctx.workbuf_size sizeof_shared_data
    then (ctx, error_initctx_workbuf_small)
    else if not (vb2_aligned ctx.workbuf workbuf_align)
    then (ctx, error_initctx_workbuf_align)
    else (record ctx { sd = no_shared_data; workbuf_used = sizeof_shared_data }, vb2_success)
