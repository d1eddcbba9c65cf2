-- ===== src/Firmware/Keyblock/Moved.antt =====
-- lib20/misc.c: the copy of the data key that vb2_load_fw_keyblock leaves in the root key's place.
use cbmc_vboot.Prelude.{ℕ, ◌+◌, ◌^◌, ◌≤◌, ◌<◌, ◌≡◌, ap, ap₂, sym, subst, ◌∙◌, arith, le_bytes}
use cbmc_vboot.Common.{add64}
use cbmc_vboot.Keys.{Memory, load32, load_bytes, store_bytes, store32, offset_data_key}
use cbmc_vboot.Keys.Stores.{
  store_before, store_after, SameBytes-copy, load32-store32, load32-agree, load_bytes-agree,
  load_bytes-SameBytes, IsKeyCopy,
}
use cbmc_vboot.Firmware.Keyblock.{move_data_key}

module _ (m : Memory) (at kb : ℕ) (apart : at + 32 ≤ kb) (low : kb < 2 ^ 63 + 2 ^ 33)
    (root : 32 ≤ load32 m at) where
  from : ℕ
  from = kb + offset_data_key

  with_algorithm : Memory
  unfolding from
  with_algorithm = store32 m (at + 16) (load32 m (from + 16))

  with_version : Memory
  unfolding from
  with_version = store32 with_algorithm (at + 24) (load32 with_algorithm (from + 24))

  with_size : Memory
  unfolding from
  with_size = store32 with_version (at + 8) (load32 with_version (from + 8))

  algorithm_after : (x : ℕ) → at + 20 ≤ x → with_algorithm x ≡ m x
  unfolding with_algorithm
  algorithm_after x h =
      store_after m (at + 16) (le_bytes 4 (load32 m (from + 16))) x (omega (arith, h))

  version_after : (x : ℕ) → at + 28 ≤ x → with_version x ≡ m x
  unfolding with_version
  version_after x h =
      store_after with_algorithm (at + 24) (le_bytes 4 (load32 with_algorithm (from + 24))) x
        (omega (arith, h))
      ∙ algorithm_after x (omega (arith, h))

  size_after : (x : ℕ) → at + 28 ≤ x → with_size x ≡ m x
  unfolding with_size
  size_after x h =
      store_after with_version (at + 8) (le_bytes 4 (load32 with_version (from + 8))) x
        (omega (arith, h))
      ∙ version_after x h

  source : (k : ℕ) → load32 with_algorithm (from + k) ≡ load32 m (from + k)
  unfolding from
  source k =
      load32-agree with_algorithm m (from + k)
        (λ x h lt. algorithm_after x (omega (arith, h, apart)))

  source_of : (k : ℕ) → load32 with_version (from + k) ≡ load32 m (from + k)
  unfolding from
  source_of k =
      load32-agree with_version m (from + k) (λ x h lt. version_after x (omega (arith, h, apart)))

  -- The four fields: the offset is still the root key's.
  offset-is : load32 with_size at ≡ load32 m at
  unfolding with_algorithm with_version with_size
  offset-is = load32-agree with_size m at (λ x h lt.
      store_before with_version (at + 8) (le_bytes 4 (load32 with_version (from + 8))) x
        (omega (arith, lt))
      ∙ store_before with_algorithm (at + 24) (le_bytes 4 (load32 with_algorithm (from + 24))) x
          (omega (arith, lt))
      ∙ store_before m (at + 16) (le_bytes 4 (load32 m (from + 16))) x (omega (arith, lt)))

  size-is : load32 with_size (at + 8) ≡ load32 m (from + 8)
  unfolding with_size
  size-is =
      omega
        (arith, load32-store32 with_version (at + 8) (load32 with_version (from + 8)), source_of 8)

  algorithm-is : load32 with_size (at + 16) ≡ load32 m (from + 16)
  unfolding with_algorithm with_version with_size
  algorithm-is =
      load32-agree with_size with_algorithm (at + 16) (λ x h lt.
        store_after with_version (at + 8) (le_bytes 4 (load32 with_version (from + 8))) x
          (omega (arith, h))
        ∙ store_before with_algorithm (at + 24) (le_bytes 4 (load32 with_algorithm (from + 24))) x
            (omega (arith, lt)))
      ∙ omega (arith, load32-store32 m (at + 16) (load32 m (from + 16)))

  version-is : load32 with_size (at + 24) ≡ load32 m (from + 24)
  unfolding with_version with_size
  version-is =
      load32-agree with_size with_version (at + 24) (λ x h lt.
        store_after with_version (at + 8) (le_bytes 4 (load32 with_version (from + 8))) x
          (omega (arith, h)))
      ∙ omega (
        arith,
        load32-store32 with_algorithm (at + 24) (load32 with_algorithm (from + 24)),
        source 24,
      )

  -- The key's bytes, put where the root key's were.
  with_bytes : Memory
  with_bytes =
      store_bytes with_size (at + load32 m at)
        (load_bytes (load32 m (from + 8)) with_size (from + load32 m from))

  move_data_key-with_bytes : move_data_key m at kb ≡ with_bytes
  unfolding move_data_key from with_algorithm with_version with_size with_bytes
  move_data_key-with_bytes =
      let to_is : add64 at (load32 with_size at) ≡ at + load32 m at =
        omega (arith, offset-is, apart, low) in
      let offset_is : load32 with_size from ≡ load32 m from =
        load32-agree with_size m from (λ x h lt. size_after x (omega (arith, h, apart))) in
      let from_is : add64 from (load32 with_size from) ≡ from + load32 m from =
        omega (arith, offset_is, low) in
      ap₂ (λ (to : ℕ) bs. store_bytes with_size to bs) to_is
        (ap₂ (λ (n a : ℕ). load_bytes n with_size a) size-is from_is)

  header : (k : ℕ) → k + 4 ≤ 32 → load32 with_bytes (at + k) ≡ load32 with_size (at + k)
  unfolding with_bytes
  header k h = load32-agree with_bytes with_size (at + k) (λ x g lt.
      store_before with_size (at + load32 m at)
        (load_bytes (load32 m (from + 8)) with_size (from + load32 m from)) x
        (omega (arith, h, lt, root)))

  offset_of-with_bytes : load32 with_bytes at ≡ load32 m at
  offset_of-with_bytes =
      ap (load32 with_bytes) (let e : at ≡ at + 0 = omega arith in e)
      ∙ header 0 (omega arith)
      ∙ ap (load32 with_size) (let e : at + 0 ≡ at = omega arith in e)
      ∙ offset-is

  with_bytes-IsKeyCopy : IsKeyCopy m (kb + offset_data_key) with_bytes at
  unfolding with_bytes from
  with_bytes-IsKeyCopy =
      let n = load32 m (from + 8) in
      let to = at + load32 m at in
      let start = from + load32 m from in
      record {
        algorithm = header 16 (omega arith) ∙ algorithm-is;
        key_version = header 24 (omega arith) ∙ version-is;
        key_size = header 8 (omega arith) ∙ size-is;
        after_header = omega (arith, offset_of-with_bytes, root);
        bytes =
            ap (λ (o : ℕ). load_bytes n with_bytes (at + o)) offset_of-with_bytes
            ∙ load_bytes-SameBytes n with_bytes to with_size start
                (SameBytes-copy n with_size to with_size start)
            ∙ load_bytes-agree n with_size m start (λ x h. size_after x (omega (arith, h, apart)));
      }

-- For a keyblock that starts behind the header of a key whose bytes follow its header, the move
-- leaves a copy of the keyblock's data key.
pub move_data_key-IsKeyCopy :
    (m : Memory) (at kb : ℕ)
    → at + 32 ≤ kb
    → kb < 2 ^ 63 + 2 ^ 33
    → 32 ≤ load32 m at
    → IsKeyCopy m (kb + offset_data_key) (move_data_key m at kb) at
move_data_key-IsKeyCopy m at kb apart low root =
    subst (λ (m' : Memory). IsKeyCopy m (kb + offset_data_key) m' at)
      (sym (move_data_key-with_bytes m at kb apart low root))
      (with_bytes-IsKeyCopy m at kb apart low root)
