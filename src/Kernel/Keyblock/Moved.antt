-- ===== src/Kernel/Keyblock/Moved.antt =====
-- lib20/kernel.c: the copy of the data key that vb2_load_kernel_keyblock keeps in the work buffer.
use cbmc_vboot.Prelude.{ℕ, ◌+◌, ◌^◌, ◌≤◌, ◌<◌, ◌≡◌, ap, ap₂, sym, subst, ◌∙◌, arith, le_bytes}
use cbmc_vboot.Common.{add64}
use cbmc_vboot.Keys.{
  Memory, load32, load_bytes, store_bytes, store32, sizeof_packed_key, offset_data_key,
}
use cbmc_vboot.Keys.Stores.{
  store_before, store_after, length-load_bytes, SameBytes-copy, load32-SameBytes, load32-store32,
  load32-agree, load_bytes-agree, load_bytes-SameBytes, IsKeyCopy,
}
use cbmc_vboot.Kernel.Keyblock.{move_kernel_data_key}

module _ (m : Memory) (at kb : ℕ) (apart : at ≤ kb) (low : kb < 2 ^ 63 + 2 ^ 33) where
  from : ℕ
  from = kb + offset_data_key

  with_header : Memory
  with_header = store_bytes m at (load_bytes sizeof_packed_key m from)

  with_offset : Memory
  with_offset = store32 with_header at sizeof_packed_key

  after_header : (x : ℕ) → at + 32 ≤ x → with_offset x ≡ m x
  unfolding with_header with_offset
  after_header x h =
      store_after with_header at (le_bytes 4 sizeof_packed_key) x (omega (arith, h))
      ∙ store_after m at (load_bytes sizeof_packed_key m from) x
          (omega (arith, h, length-load_bytes sizeof_packed_key m from))

  offset-is : load32 with_offset at ≡ 32
  unfolding with_offset
  offset-is = omega (arith, load32-store32 with_header at sizeof_packed_key)

  field-is : (k : ℕ) → 4 ≤ k → k + 4 ≤ 32 → load32 with_offset (at + k) ≡ load32 m (from + k)
  unfolding with_header with_offset
  field-is k low_k high_k =
      load32-agree with_offset with_header (at + k)
        (λ x h lt. store_after with_header at (le_bytes 4 sizeof_packed_key) x (omega (arith, h)))
      ∙ load32-SameBytes 32 k with_header at m from high_k
          (SameBytes-copy sizeof_packed_key m at m from)

  -- The key's bytes, put behind the header.
  with_bytes : Memory
  unfolding from
  with_bytes =
      store_bytes with_offset (at + 32)
        (load_bytes (load32 m (from + 8)) with_offset (from + load32 m from))

  move_kernel_data_key-with_bytes : move_kernel_data_key m at kb ≡ with_bytes
  unfolding move_kernel_data_key from with_header with_offset with_bytes
  move_kernel_data_key-with_bytes =
      let to_is : add64 at (load32 with_offset at) ≡ at + 32 =
        omega (arith, offset-is, apart, low) in
      let size_is = field-is 8 (omega arith) (omega arith) in
      let offset_is : load32 with_offset from ≡ load32 m from =
        load32-agree with_offset m from (λ x h lt. after_header x (omega (arith, h, apart))) in
      let from_is : add64 from (load32 with_offset from) ≡ from + load32 m from =
        omega (arith, offset_is, low) in
      ap₂ (λ (to : ℕ) bs. store_bytes with_offset to bs) to_is
        (ap₂ (λ (n a : ℕ). load_bytes n with_offset a) size_is from_is)

  with_bytes-header :
      (k : ℕ) → k + 4 ≤ 32 → load32 with_bytes (at + k) ≡ load32 with_offset (at + k)
  unfolding with_bytes
  with_bytes-header k h = load32-agree with_bytes with_offset (at + k) (λ x g lt.
      store_before with_offset (at + 32)
        (load_bytes (load32 m (from + 8)) with_offset (from + load32 m from)) x
        (omega (arith, h, lt)))

  with_bytes-IsKeyCopy : IsKeyCopy m (kb + offset_data_key) with_bytes at
  unfolding with_bytes from
  with_bytes-IsKeyCopy =
      let n = load32 m (from + 8) in
      let source = from + load32 m from in
      let offset_is : load32 with_bytes at ≡ 32 =
        ap (load32 with_bytes) (let e : at ≡ at + 0 = omega arith in e)
        ∙ with_bytes-header 0 (omega arith)
        ∙ ap (load32 with_offset) (let e : at + 0 ≡ at = omega arith in e)
        ∙ offset-is in
      let header = λ (k : ℕ) (low_k : 4 ≤ k) (high_k : k + 4 ≤ 32).
        with_bytes-header k high_k ∙ field-is k low_k high_k in
      record {
        algorithm = header 16 (omega arith) (omega arith);
        key_version = header 24 (omega arith) (omega arith);
        key_size = header 8 (omega arith) (omega arith);
        after_header = omega (arith, offset_is);
        bytes =
            ap (λ (o : ℕ). load_bytes n with_bytes (at + o)) offset_is
            ∙ load_bytes-SameBytes n with_bytes (at + 32) with_offset source
                (SameBytes-copy n with_offset (at + 32) with_offset source)
            ∙ load_bytes-agree n with_offset m source
                (λ x h. after_header x (omega (arith, h, apart)));
      }

-- For a keyblock that starts no lower than the copy, the copy is that of its data key.
pub move_kernel_data_key-IsKeyCopy :
    (m : Memory) (at kb : ℕ)
    → at ≤ kb
    → kb < 2 ^ 63 + 2 ^ 33
    → IsKeyCopy m (kb + offset_data_key) (move_kernel_data_key m at kb) at
move_kernel_data_key-IsKeyCopy m at kb apart low =
    subst (λ (m' : Memory). IsKeyCopy m (kb + offset_data_key) m' at)
      (sym (move_kernel_data_key-with_bytes m at kb apart low))
      (with_bytes-IsKeyCopy m at kb apart low)
