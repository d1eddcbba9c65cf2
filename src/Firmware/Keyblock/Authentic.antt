-- ===== src/Firmware/Keyblock/Authentic.antt =====
-- lib20/misc.c: vb2_load_fw_keyblock accepts only a keyblock that is signed with the root key of
-- the GBB, with a data key not older than the stored version.
use cbmc_vboot.Prelude.{
  ℕ, ◌+◌, ◌*◌, ◌/◌, ◌%◌, ◌^◌, ◌≤◌, ◌<◌, ◌≡◌, ◌⊎◌, inl, inr, refl, ap, sym, subst, ◌∙◌, true, false,
  truthy, Bool-cases, arith, has_flag, Option, some, none, Result, ok, err,
}
use cbmc_vboot.Context.{Context, vb2_success}
use cbmc_vboot.Common.{Workbuf, add32, vb2_workbuf_alloc, vb2_workbuf_realloc, vb2_offset_of}
use cbmc_vboot.Keys.{
  Memory, packed_key_at, keyblock_at, sizeof_keyblock, offset_data_key, store_bytes,
}
use cbmc_vboot.Keys.Unpack.{PublicKey, vb2_unpack_key}
use cbmc_vboot.Keys.Verify.{Crypto}
use cbmc_vboot.Keys.Block.{vb2_verify_keyblock}
use cbmc_vboot.Firmware.{Machine, gbb, fw_vblock, ReadResource, vb2_workbuf_from_ctx}
use cbmc_vboot.Firmware.Keyblock.{
  gbb_flag_disable_fw_rollback_check, key_version_code, move_data_key, note_data_key, keep_keyblock,
  accept_keyblock, verify_keyblock, read_keyblock, read_header, with_root_key, read_root_key,
  vb2_load_fw_keyblock,
}
use cbmc_vboot.Keys.Stores.{store_before}
use cbmc_vboot.Firmware.Placed.{IsHeld}
use cbmc_vboot.Firmware.Reads.{after_read_bytes}
use cbmc_vboot.Firmware.Preamble.Reached.{unpack_fails}

-- The key's version is in the upper half of fw_version, and no older than the stored one, unless
-- the GBB says not to check. Nothing else that the load of the preamble compares is changed.
pub record IsNewKey (ctx ctx' : Context) (key_version : ℕ) : Type 0 where
  pub range : key_version ≤ 0xffff
  pub version : ctx'.sd.fw_version ≡ key_version * 2 ^ 16
  pub not_older :
      (has_flag ctx.sd.gbb_flags gbb_flag_disable_fw_rollback_check ≡ true)
      ⊎ (ctx.sd.fw_version_secdata / 2 ^ 16 ≤ key_version)
  pub same_flags : ctx'.sd.gbb_flags ≡ ctx.sd.gbb_flags
  pub same_stored : ctx'.sd.fw_version_secdata ≡ ctx.sd.fw_version_secdata
  pub same_secdata : ctx'.secdata ≡ ctx.secdata

-- Where the data key was noted, of which the header is at `key_data`.
pub record IsNoted (ctx : Context) (s' : Machine) (key_data : ℕ) : Type 0 where
  pub offset : s'.ctx.sd.workbuf_data_key_offset ≡ vb2_offset_of ctx.workbuf key_data % 2 ^ 32
  pub size :
      let key = packed_key_at s'.memory key_data in
      s'.ctx.sd.workbuf_data_key_size ≡ add32 key.key_offset key.key_size
  pub same_workbuf : s'.ctx.workbuf ≡ ctx.workbuf

key_version_code_lem :
    (ctx : Context) (key_version : ℕ)
    → truthy (key_version_code ctx key_version) ≡ false
    → (key_version ≤ 0xffff)
      × ((has_flag ctx.sd.gbb_flags gbb_flag_disable_fw_rollback_check ≡ true)
          ⊎ (ctx.sd.fw_version_secdata / 2 ^ 16 ≤ key_version))
unfolding key_version_code
key_version_code_lem ctx key_version h = (ground arith, ground arith)

accept-IsNewKey :
    (s : Machine) (key_data kb : ℕ)
    → let r = accept_keyblock s key_data kb in
      r.1 ≡ vb2_success
      → (r.0.memory ≡ move_data_key s.memory key_data kb)
        × IsNoted s.ctx r.0 key_data
        × IsNewKey s.ctx r.0.ctx (packed_key_at s.memory (kb + offset_data_key)).key_version
unfolding accept_keyblock keep_keyblock note_data_key
accept-IsNewKey s key_data kb h =
    let key_version = (packed_key_at s.memory (kb + offset_data_key)).key_version in
    elim (Bool-cases (truthy (key_version_code s.ctx key_version))) [
      | inl old ↦ absurd (ground (arith, h, old))
      | inr fine ↦
          let (range, not_older) = key_version_code_lem s.ctx key_version fine in
          rw fine (
            refl,
            record { offset = refl; size = refl; same_workbuf = refl },
            record {
              range = range;
              version = omega (arith, range);
              not_older = not_older;
              same_flags = refl;
              same_stored = refl;
              same_secdata = refl;
            },
          )
    ]

module _ {Digest : Type 0} (crypto : Crypto Digest) (read : ReadResource) where
  -- The keyblock at `kb` was verified with the root key. It was read to the buffer `left`, over the
  -- memory `root`.
  pub record Verified (ctx : Context) (root : Memory) (left : Workbuf) (s' : Machine)
      (root_key : PublicKey) (key_data : ℕ) : Type 0 where
    pub memory : Memory
    pub kb : ℕ
    pub block_size : ℕ
    pub wb : Workbuf
    pub held : IsHeld left block_size kb
    pub behind :
        wb
        ≡ (vb2_workbuf_realloc
            (vb2_workbuf_alloc left sizeof_keyblock).0
            sizeof_keyblock
            block_size).0
    pub before : (x : ℕ) → x < held.header → x < kb → memory x ≡ root x
    pub verified : (vb2_verify_keyblock crypto memory kb block_size root_key wb).1 ≡ vb2_success
    pub moved :
        s'.memory
        ≡ move_data_key (vb2_verify_keyblock crypto memory kb block_size root_key wb).0 key_data kb
    pub noted : IsNoted ctx s' key_data
    pub new :
        IsNewKey ctx s'.ctx
          (packed_key_at
            (vb2_verify_keyblock crypto memory kb block_size root_key wb).0
            (kb + offset_data_key)).key_version

  verify_new :
      (s : Machine) (root : Memory) (left : Workbuf) (root_key : PublicKey)
      (key_data block_size kb : ℕ) (wb : Workbuf) (held : IsHeld left block_size kb)
      → wb
        ≡ (vb2_workbuf_realloc
            (vb2_workbuf_alloc left sizeof_keyblock).0
            sizeof_keyblock
            block_size).0
      → ((x : ℕ) → x < held.header → x < kb → s.memory x ≡ root x)
      → let r = verify_keyblock crypto read s root_key key_data block_size kb wb in
        r.1 ≡ vb2_success → Verified s.ctx root left r.0 root_key key_data
  unfolding verify_keyblock
  verify_new s root left root_key key_data block_size kb wb held behind before h =
      let (m, rv) = vb2_verify_keyblock crypto s.memory kb block_size root_key wb in
      let s' = record s { memory = m } in
      elim (Bool-cases (truthy rv)) [
        | inl bad ↦ absurd (ground (arith, h, bad))
        | inr fine ↦
            let e : verify_keyblock crypto read s root_key key_data block_size kb wb
                ≡ accept_keyblock s' key_data kb =
              rw fine refl in
            let (moved, noted, new) =
              accept-IsNewKey s' key_data kb (sym (ap (λ (r : Machine × ℕ). r.1) e) ∙ h) in
            record {
              memory = s.memory;
              kb = kb;
              block_size = block_size;
              wb = wb;
              held = held;
              behind = behind;
              before = before;
              verified = ground (arith, fine);
              moved = ap (λ (r : Machine × ℕ). r.0.memory) e ∙ moved;
              noted = subst (λ (r : Machine × ℕ). IsNoted s.ctx r.0 key_data) (sym e) noted;
              new =
                  subst
                    (λ (r : Machine × ℕ).
                      IsNewKey s.ctx r.0.ctx (packed_key_at m (kb + offset_data_key)).key_version)
                    (sym e) new;
            }
      ]

  read_verified :
      (s : Machine) (root : Memory) (left : Workbuf) (root_key : PublicKey)
      (key_data block_size : ℕ) (a : Workbuf × Option ℕ) (header : ℕ)
      → (vb2_workbuf_alloc left sizeof_keyblock).1 ≡ some header
      → vb2_workbuf_realloc (vb2_workbuf_alloc left sizeof_keyblock).0 sizeof_keyblock block_size
        ≡ a
      → ((x : ℕ) → x < header → s.memory x ≡ root x)
      → let r = read_keyblock crypto read s root_key key_data block_size a in
        r.1 ≡ vb2_success → Verified s.ctx root left r.0 root_key key_data
  unfolding read_keyblock
  read_verified s root left root_key key_data block_size (wb, none) header first e before =
      λ h. absurd (omega (arith, h))
  read_verified s root left root_key key_data block_size (wb, some kb) header first e before =
      after_read_bytes read
        (λ r. r.1 ≡ vb2_success → Verified s.ctx root left r.0 root_key key_data) s fw_vblock 0 kb
        block_size (λ s'. verify_keyblock crypto read s' root_key key_data block_size kb wb)
        (λ m rv bad h. absurd (omega (arith, bad, h)))
        (λ bytes.
          verify_new (record s { memory = store_bytes s.memory kb bytes }) root left root_key
            key_data block_size kb wb
            (record {
              header = header;
              header_held = first;
              block_held = ap (λ (r : Workbuf × Option ℕ). r.1) e;
            })
            (sym (ap (λ (r : Workbuf × Option ℕ). r.0) e))
            (λ x lt_header lt. store_before s.memory kb bytes x lt ∙ before x lt_header))

  header_verified :
      (s : Machine) (left : Workbuf) (root_key : PublicKey) (key_data : ℕ) (a : Workbuf × Option ℕ)
      → vb2_workbuf_alloc left sizeof_keyblock ≡ a
      → let r = read_header crypto read s root_key key_data a in
        r.1 ≡ vb2_success → Verified s.ctx s.memory left r.0 root_key key_data
  unfolding read_header
  header_verified s left root_key key_data (wb, none) e = λ h. absurd (omega (arith, h))
  header_verified s left root_key key_data (wb, some kb) e =
      after_read_bytes read
        (λ r. r.1 ≡ vb2_success → Verified s.ctx s.memory left r.0 root_key key_data) s fw_vblock 0
        kb sizeof_keyblock
        (λ s'.
          let block_size = (keyblock_at s'.memory kb).keyblock_size in
          read_keyblock crypto read s' root_key key_data block_size
            (vb2_workbuf_realloc wb sizeof_keyblock block_size))
        (λ m rv bad h. absurd (omega (arith, bad, h)))
        (λ bytes.
          let m = store_bytes s.memory kb bytes in
          let block_size = (keyblock_at m kb).keyblock_size in
          read_verified (record s { memory = m }) s.memory left root_key key_data block_size
            (vb2_workbuf_realloc wb sizeof_keyblock block_size) kb
            (ap (λ (r : Workbuf × Option ℕ). r.1) e)
            (ap (λ (r : Workbuf × Option ℕ). vb2_workbuf_realloc r.0 sizeof_keyblock block_size) e)
            (λ x lt. store_before s.memory kb bytes x lt))

  -- The root key was read from the GBB to `key_data`.
  pub record AcceptedKeyblock (s s' : Machine) : Type 0 where
    pub key_data : ℕ
    pub root_held :
        (vb2_workbuf_alloc (vb2_workbuf_from_ctx s.ctx) s.ctx.sd.gbb_rootkey_size).1 ≡ some key_data
    pub root_memory : Memory
    pub root_key : PublicKey
    pub unpacked : vb2_unpack_key root_memory key_data s.ctx.sd.gbb_rootkey_size ≡ ok root_key
    pub from_gbb :
        root_memory
        ≡ store_bytes s.memory key_data
            (read s.ctx gbb s.ctx.sd.gbb_rootkey_offset s.ctx.sd.gbb_rootkey_size).0
    pub keyblock :
        Verified s.ctx root_memory
          (vb2_workbuf_alloc (vb2_workbuf_from_ctx s.ctx) s.ctx.sd.gbb_rootkey_size).0
          s'
          root_key
          key_data

  key_accepted :
      (s : Machine) (key_data : ℕ) (m : Memory) (wb : Workbuf) (key : Result PublicKey)
      → m
        ≡ store_bytes s.memory key_data
            (read s.ctx gbb s.ctx.sd.gbb_rootkey_offset s.ctx.sd.gbb_rootkey_size).0
      → vb2_unpack_key m key_data s.ctx.sd.gbb_rootkey_size ≡ key
      → vb2_workbuf_alloc (vb2_workbuf_from_ctx s.ctx) s.ctx.sd.gbb_rootkey_size
        ≡ (wb, some key_data)
      → let r = with_root_key crypto read (record s { memory = m }) key_data wb key in
        r.1 ≡ vb2_success → AcceptedKeyblock s r.0
  unfolding with_root_key
  key_accepted s key_data m wb (err rv) b e held h =
      absurd (omega (arith, h, unpack_fails m key_data s.ctx.sd.gbb_rootkey_size rv e))
  key_accepted s key_data m wb (ok root_key) b e held h = record {
    key_data = key_data;
    root_held = ap (λ (r : Workbuf × Option ℕ). r.1) held;
    root_memory = m;
    root_key = root_key;
    unpacked = e;
    from_gbb = b;
    keyblock =
        subst
          (λ (left : Workbuf).
            Verified s.ctx m left
              (with_root_key crypto read (record s { memory = m }) key_data wb (ok root_key)).0
              root_key key_data)
          (sym (ap (λ (r : Workbuf × Option ℕ). r.0) held))
          (header_verified (record s { memory = m }) wb root_key key_data
            (vb2_workbuf_alloc wb sizeof_keyblock) refl h);
  }

  root_accepted :
      (s : Machine) (a : Workbuf × Option ℕ)
      → vb2_workbuf_alloc (vb2_workbuf_from_ctx s.ctx) s.ctx.sd.gbb_rootkey_size ≡ a
      → let r = read_root_key crypto read s a in r.1 ≡ vb2_success → AcceptedKeyblock s r.0
  unfolding read_root_key
  root_accepted s (wb, none) held h = absurd (omega (arith, h))
  root_accepted s (wb, some key_data) held h =
      let key_size = s.ctx.sd.gbb_rootkey_size in
      let (bytes, rv) = read s.ctx gbb s.ctx.sd.gbb_rootkey_offset key_size in
      let m = store_bytes s.memory key_data bytes in
      let key = vb2_unpack_key m key_data key_size in
      elim (Bool-cases (truthy rv)) [
        | inl bad ↦ absurd (ground (arith, h, bad))
        | inr fine ↦
            let e : read_root_key crypto read s (wb, some key_data)
                ≡ with_root_key crypto read (record s { memory = m }) key_data wb key =
              rw fine refl in
            subst (λ (r : Machine × ℕ). AcceptedKeyblock s r.0) (sym e)
              (key_accepted s key_data m wb key refl refl held
                (sym (ap (λ (r : Machine × ℕ). r.1) e) ∙ h))
      ]

-- If vb2_load_fw_keyblock succeeds, the keyblock passed vb2_verify_keyblock with the key that was
-- unpacked from the root key of the GBB, and then only its data key was moved to the root key's
-- place. The key's version fits 16 bits and is the upper half of fw_version, and not below the
-- upper half of the version that secure storage had, unless the GBB flag switches that check off.
-- The stored version, the GBB's flags and secure storage are as they were.
pub vb2_load_fw_keyblock-AcceptedKeyblock :
    {Digest : Type 0} (crypto : Crypto Digest) (read : ReadResource) (s : Machine)
    → let r = vb2_load_fw_keyblock crypto read s in
      r.1 ≡ vb2_success → AcceptedKeyblock crypto read s r.0
unfolding vb2_load_fw_keyblock
vb2_load_fw_keyblock-AcceptedKeyblock crypto read s =
    root_accepted crypto read s
      (vb2_workbuf_alloc (vb2_workbuf_from_ctx s.ctx) s.ctx.sd.gbb_rootkey_size) refl
