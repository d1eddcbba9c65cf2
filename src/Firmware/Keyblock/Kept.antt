-- ===== src/Firmware/Keyblock/Kept.antt =====
-- lib20/misc.c: vb2_load_fw_keyblock leaves the data key of the keyblock that it has verified where
-- vb2_load_fw_preamble takes its key from.
use cbmc_vboot.Prelude.{
  ℕ, ◌+◌, ◌-◌, ◌%◌, ◌^◌, ◌≤◌, ◌<◌, ◌≡◌, inl, inr, refl, ap, sym, subst, ◌∙◌, arith, truthy,
  Bool-cases, Option, ok,
}
use cbmc_vboot.Context.{Context}
use cbmc_vboot.Common.{Workbuf, add64, add32, vb2_workbuf_alloc, vb2_offset_of}
use cbmc_vboot.Common.Bounds.{IsRoom, Allocated, vb2_workbuf_alloc_lem, vb2_workbuf_free-alloc}
use cbmc_vboot.Keys.{
  Memory, load32, packed_key_at, sizeof_keyblock, offset_keyblock_signature, offset_data_key,
}
use cbmc_vboot.Keys.Stores.{load32-agree, IsKeyCopy}
use cbmc_vboot.Keys.Unpack.{PublicKey, unpack, vb2_unpack_key}
use cbmc_vboot.Keys.Unpack.Bounds.{vb2_unpack_key-IsKey}
use cbmc_vboot.Keys.Verify.{Crypto, vb2_verify_data}
use cbmc_vboot.Keys.Verify.Below.{KeepsBelow, vb2_verify_data_below}
use cbmc_vboot.Keys.Block.{vb2_check_keyblock, vb2_verify_keyblock}
use cbmc_vboot.Firmware.{Machine, ReadResource, vb2_workbuf_from_ctx}
use cbmc_vboot.Firmware.Placed.{
  IsPlaced, KeepsKey, IsHeld-start, alloc-start, alloc-le, alloc-IsRoom, vb2_workbuf_from_ctx_lem,
}
use cbmc_vboot.Firmware.Keyblock.Authentic.{AcceptedKeyblock}
use cbmc_vboot.Firmware.Keyblock.Moved.{move_data_key-IsKeyCopy}

unpack-n :
    (m : Memory) (buf size : ℕ) (key : PublicKey)
    → vb2_unpack_key m buf size ≡ ok key
    → key.n ≡ add64 buf (load32 m buf) + 8
unfolding vb2_unpack_key unpack
unpack-n m buf size key h = ground (arith, h)

offset_lem :
    (base ptr : ℕ)
    → base < 2 ^ 63
    → base ≤ ptr
    → ptr < base + 2 ^ 32
    → vb2_offset_of base ptr % 2 ^ 32 ≡ ptr - base
unfolding vb2_offset_of
offset_lem base ptr low start inside = omega arith

verify_keyblock_below :
    {Digest : Type 0} (crypto : Crypto Digest) (m : Memory) (kb size : ℕ) (key : PublicKey)
    (wb : Workbuf) (x : ℕ)
    → KeepsBelow crypto
    → kb < 2 ^ 63 + 2 ^ 33
    → IsRoom wb
    → kb ≤ wb.buf
    → x < kb
    → (vb2_verify_keyblock crypto m kb size key wb).0 x ≡ m x
unfolding vb2_verify_keyblock
verify_keyblock_below crypto m kb size key wb x keeps low room behind h =
    let sig_at = kb + offset_keyblock_signature in
    let (m', code) = vb2_verify_data crypto m kb size sig_at key wb in
    let same : (vb2_verify_data crypto m kb size sig_at key wb).0 x ≡ m x =
      vb2_verify_data_below crypto keeps sig_at x (omega (arith, low)) (omega (arith, h)) m kb size
        key wb room (omega (arith, h, behind)) in
    elim (Bool-cases (truthy (vb2_check_keyblock m kb size sig_at))) [
      | inl bad ↦ rw bad refl
      | inr good ↦ elim (Bool-cases (truthy code)) [
        | inl wrong ↦ rw (good, wrong) same
        | inr fine ↦ rw (good, fine) same
      ]
    ]

-- Where the root key, the keyblock and the rest of the work buffer lie.
record Layout (ctx : Context) (key_data kb : ℕ) (wb : Workbuf) (left : Workbuf) : Type 0 where
  start : ctx.workbuf ≤ key_data
  inside : key_data < ctx.workbuf + 2 ^ 32
  behind_root : key_data + ctx.sd.gbb_rootkey_size ≤ kb
  low : kb < 2 ^ 63 + 2 ^ 33
  room : IsRoom wb
  behind : kb ≤ wb.buf
  at_left : kb ≡ left.buf

module _ {Digest : Type 0} (crypto : Crypto Digest) (read : ReadResource) (s s' : Machine)
    (a : AcceptedKeyblock crypto read s s') where
  root_left : Workbuf
  root_left = (vb2_workbuf_alloc (vb2_workbuf_from_ctx s.ctx) s.ctx.sd.gbb_rootkey_size).0

  root-Allocated :
      IsPlaced s.ctx
      → s.ctx.sd.gbb_rootkey_size ≤ 2 ^ 32 - 16
      → Allocated (vb2_workbuf_from_ctx s.ctx) root_left s.ctx.sd.gbb_rootkey_size a.key_data
  unfolding root_left
  root-Allocated p size =
      let (room, start, end) = vb2_workbuf_from_ctx_lem s.ctx p in
      elim (vb2_workbuf_alloc_lem (vb2_workbuf_from_ctx s.ctx) s.ctx.sd.gbb_rootkey_size room
        (omega (arith, size))) [
          | inl (_, inl (full, e, same)) ↦ absurd (cc (e, a.root_held))
          | inl (_, inr (fits, (ptr, e, allocated))) ↦
              let same : ptr ≡ a.key_data = cc (e, a.root_held) in
              subst
                (λ (x : ℕ).
                  Allocated (vb2_workbuf_from_ctx s.ctx) root_left s.ctx.sd.gbb_rootkey_size x)
                same allocated
          | inr (large, _, _) ↦ absurd (omega (arith, large, size))
        ]

  root-Layout :
      IsPlaced s.ctx
      → s.ctx.sd.gbb_rootkey_size ≤ 2 ^ 32 - 16
      → Layout s.ctx a.key_data a.keyblock.kb a.keyblock.wb root_left
  unfolding root_left
  root-Layout p size =
      let k = a.keyblock in
      let (room, start, end) = vb2_workbuf_from_ctx_lem s.ctx p in
      let root = root-Allocated p size in
      let kb_is = IsHeld-start root_left k.block_size k.kb root.rest k.held in
      let freed =
        (vb2_workbuf_free-alloc root_left sizeof_keyblock k.held.header k.block_size root.rest
          (omega arith) k.held.header_held).1 in
      let wb_is = k.behind ∙ ap (λ (r : Workbuf × Option ℕ). r.0) freed in
      let left_le = alloc-le root_left k.block_size root.rest in
      record {
        start = omega (arith, root.start, start);
        inside = omega (arith, root.start, end, p.small);
        behind_root = omega (arith, root.block, kb_is);
        low = omega (arith, kb_is, root.end, end, p.low, p.small);
        room = subst IsRoom (sym wb_is) (alloc-IsRoom root_left k.block_size root.rest);
        behind = omega (arith, kb_is, left_le, ap (λ (w : Workbuf). w.buf) wb_is);
        at_left = kb_is;
      }

  -- The root key that was unpacked has its bytes behind its header, and the header is still there
  -- when the keyblock is verified.
  root_header :
      KeepsBelow crypto
      → Layout s.ctx a.key_data a.keyblock.kb a.keyblock.wb root_left
      → s.ctx.workbuf < 2 ^ 63
      → s.ctx.sd.gbb_rootkey_size < 2 ^ 32
      → let k = a.keyblock in
        let verified = vb2_verify_keyblock crypto k.memory k.kb k.block_size a.root_key k.wb in
        (a.key_data + 32 ≤ k.kb) × (32 ≤ load32 verified.0 a.key_data)
  unfolding root_left
  root_header keeps l low size =
      let k = a.keyblock in
      let verified = vb2_verify_keyblock crypto k.memory k.kb k.block_size a.root_key k.wb in
      let key =
        vb2_unpack_key-IsKey a.root_memory a.key_data s.ctx.sd.gbb_rootkey_size a.root_key
          (omega (arith, l.inside, low)) size a.unpacked in
      let n_is =
        unpack-n a.root_memory a.key_data s.ctx.sd.gbb_rootkey_size a.root_key a.unpacked in
      let room : a.key_data + 32 ≤ k.kb =
        omega (arith, key.after, key.follows, key.end, l.behind_root) in
      let header_is = alloc-start root_left sizeof_keyblock k.held.header k.held.header_held in
      let same : load32 verified.0 a.key_data ≡ load32 a.root_memory a.key_data =
        load32-agree verified.0 a.root_memory a.key_data (λ x h lt.
          verify_keyblock_below crypto k.memory k.kb k.block_size a.root_key k.wb x keeps l.low
            l.room l.behind (omega (arith, lt, room))
          ∙ k.before x (omega (arith, lt, room, header_is, l.at_left)) (omega (arith, lt, room))) in
      (room, omega (arith, same, n_is, key.after, l.inside, low))

  -- The keyblock's data key is kept, as it is in the memory after the verification.
  pub keeps_data_key :
      KeepsBelow crypto
      → IsPlaced s.ctx
      → s.ctx.sd.gbb_rootkey_size ≤ 2 ^ 32 - 16
      → let k = a.keyblock in
        KeepsKey
          (vb2_verify_keyblock crypto k.memory k.kb k.block_size a.root_key k.wb).0
          (k.kb + offset_data_key)
          s'
  keeps_data_key keeps p size =
      let k = a.keyblock in
      let v = (vb2_verify_keyblock crypto k.memory k.kb k.block_size a.root_key k.wb).0 in
      let from = k.kb + offset_data_key in
      let l = root-Layout p size in
      let (room, header) = root_header keeps l p.low (omega (arith, size)) in
      let offset_is : vb2_offset_of s.ctx.workbuf a.key_data % 2 ^ 32 ≡ a.key_data - s.ctx.workbuf =
        offset_lem s.ctx.workbuf a.key_data p.low l.start l.inside in
      let at_is : a.key_data ≡ add64 s'.ctx.workbuf s'.ctx.sd.workbuf_data_key_offset =
        omega (arith, k.noted.offset, offset_is, k.noted.same_workbuf, l.start, l.inside, p.low) in
      subst
        (λ (at : ℕ).
          IsKeyCopy v from s'.memory at
          → s'.ctx.sd.workbuf_data_key_size
            ≡ add32 (packed_key_at s'.memory at).key_offset (packed_key_at s'.memory at).key_size
          → KeepsKey v from s')
        (sym at_is) (λ copied size. record { copied = copied; size = size })
        (subst (λ m. IsKeyCopy v from m a.key_data) (sym k.moved)
          (move_data_key-IsKeyCopy v a.key_data k.kb room l.low header))
        k.noted.size
