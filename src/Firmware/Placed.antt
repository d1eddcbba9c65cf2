-- ===== src/Firmware/Placed.antt =====
-- Where the buffers of lib20/misc.c: vb2_load_fw_keyblock and lib20/kernel.c:
-- vb2_load_kernel_keyblock lie: the keyblock's header is allocated first, and reallocated for the
-- whole keyblock.
use cbmc_vboot.Prelude.{ℕ, ◌+◌, ◌^◌, ◌≤◌, ◌<◌, ◌≡◌, ap, sym, ◌∙◌, arith, Option, some}
use cbmc_vboot.Prelude.Masks.{and_not15}
use cbmc_vboot.Context.{Context}
use cbmc_vboot.Common.{
  Workbuf, add64, add32, sub32, wb_round_up, vb2_workbuf_alloc, vb2_workbuf_realloc,
}
use cbmc_vboot.Common.Bounds.{IsRoom, vb2_workbuf_init_lem, vb2_workbuf_free-alloc}
use cbmc_vboot.Keys.{Memory, packed_key_at, sizeof_keyblock}
use cbmc_vboot.Keys.Stores.{IsKeyCopy}
use cbmc_vboot.Firmware.{Machine, vb2_workbuf_from_ctx}

-- The work buffer lies in the lower half of the address space, and no more of it is used than there
-- is.
pub record IsPlaced (ctx : Context) : Type 0 where
  pub low : ctx.workbuf < 2 ^ 63
  pub small : ctx.workbuf_size < 2 ^ 32
  pub used : ctx.workbuf_used ≤ ctx.workbuf_size

-- The packed key at `from` in `m` is kept where the preamble's load takes its key from, with its
-- size.
pub record KeepsKey (m : Memory) (from : ℕ) (s : Machine) : Type 0 where
  pub copied : IsKeyCopy m from s.memory (add64 s.ctx.workbuf s.ctx.sd.workbuf_data_key_offset)
  pub size :
      let key = packed_key_at s.memory (add64 s.ctx.workbuf s.ctx.sd.workbuf_data_key_offset) in
      s.ctx.sd.workbuf_data_key_size ≡ add32 key.key_offset key.key_size

-- What is left of a work buffer lies behind what is used.
pub vb2_workbuf_from_ctx_lem :
    (ctx : Context)
    → IsPlaced ctx
    → let wb = vb2_workbuf_from_ctx ctx in
      IsRoom wb
      × (ctx.workbuf + ctx.workbuf_used ≤ wb.buf)
      × (wb.buf + wb.size ≤ ctx.workbuf + ctx.workbuf_size)
unfolding vb2_workbuf_from_ctx
vb2_workbuf_from_ctx_lem ctx p =
    let buf = add64 ctx.workbuf ctx.workbuf_used in
    let size = sub32 ctx.workbuf_size ctx.workbuf_used in
    let whole : buf ≡ ctx.workbuf + ctx.workbuf_used = omega (arith, p.low, p.small, p.used) in
    let left : size + ctx.workbuf_used ≡ ctx.workbuf_size = omega (arith, p.small, p.used) in
    let (room, start, end) =
      vb2_workbuf_init_lem buf size (omega (arith, p.low, p.small, p.used)) (omega arith) in
    (room, omega (arith, whole, start), omega (arith, whole, left, end))

-- `kb` is the place of the whole keyblock, in the buffer that its header came from.
pub record IsHeld (wb : Workbuf) (block_size kb : ℕ) : Type 0 where
  pub header : ℕ
  pub header_held : (vb2_workbuf_alloc wb sizeof_keyblock).1 ≡ some header
  pub block_held :
      (vb2_workbuf_realloc (vb2_workbuf_alloc wb sizeof_keyblock).0 sizeof_keyblock block_size).1
      ≡ some kb

pub alloc-start :
    (wb : Workbuf) (size ptr : ℕ) → (vb2_workbuf_alloc wb size).1 ≡ some ptr → ptr ≡ wb.buf
unfolding vb2_workbuf_alloc
alloc-start wb size ptr h = ground arith

-- The keyblock starts where the buffer does.
pub IsHeld-start :
    (wb : Workbuf) (block_size kb : ℕ) → IsRoom wb → IsHeld wb block_size kb → kb ≡ wb.buf
IsHeld-start wb block_size kb room held =
    let same =
      (vb2_workbuf_free-alloc wb sizeof_keyblock held.header block_size room (omega arith)
        held.header_held).1 in
    alloc-start wb block_size kb (sym (ap (λ (r : Workbuf × Option ℕ). r.1) same) ∙ held.block_held)

-- What is left after an allocation starts no lower.
pub alloc-le : (wb : Workbuf) (size : ℕ) → IsRoom wb → wb.buf ≤ (vb2_workbuf_alloc wb size).0.buf
unfolding vb2_workbuf_alloc
alloc-le wb size room = ground (arith, room.within)

pub alloc-IsRoom : (wb : Workbuf) (size : ℕ) → IsRoom wb → IsRoom (vb2_workbuf_alloc wb size).0
unfolding vb2_workbuf_alloc wb_round_up
alloc-IsRoom wb size room =
    let rounded = and_not15 (add32 size 15) (omega arith) in
    record {
      aligned = λ more. ground (arith, rounded, room.aligned, room.within, more);
      small = ground (arith, room.small);
      within = ground (arith, room.within);
    }
