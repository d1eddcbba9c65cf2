-- ===== src/Firmware/Preamble/Reached.antt =====
-- lib20/misc.c: vb2_load_fw_preamble stops at a failure, with the context as it was, or gets to the
-- verification of the preamble.
use cbmc_vboot.Prelude.{
  ℕ, ◌<◌, ◌≡◌, ◌⊎◌, inl, inr, refl, truthy, Bool-cases, arith, Option, some, none, Result, ok, err,
}
use cbmc_vboot.Common.{Workbuf, add64, vb2_workbuf_alloc, vb2_workbuf_realloc}
use cbmc_vboot.Keys.{Memory, store_bytes, fw_preamble_at, sizeof_fw_preamble}
use cbmc_vboot.Keys.Unpack.{PublicKey, unpack, vb2_unpack_key}
use cbmc_vboot.Keys.Verify.{Crypto}
use cbmc_vboot.Firmware.{
  Machine, Resource, fw_vblock, ReadResource, read_to, and_then, vb2_workbuf_from_ctx,
}
use cbmc_vboot.Firmware.Preamble.{
  verify_preamble, read_preamble, read_preamble_header, with_data_key, vb2_load_fw_preamble,
}

pub unpack_fails : (m : Memory) (buf size rv : ℕ) → vb2_unpack_key m buf size ≡ err rv → 0 < rv
unfolding vb2_unpack_key unpack
unpack_fails m buf size rv h = ground arith

module _ {Digest : Type 0} (crypto : Crypto Digest) (read : ReadResource) where
  -- The result is that of the verification, with the same context.
  pub record Reached (s : Machine) (data_key : PublicKey) (r : Machine × ℕ) : Type 0 where
    pub memory : Memory
    pub pre_size : ℕ
    pub pre : ℕ
    pub wb : Workbuf
    pub result :
        r ≡ verify_preamble crypto read (record s { memory = memory }) data_key pre_size pre wb

  unfoldable pub Stopped : Machine → Machine × ℕ → Type 0
  Stopped s r = (r.0.ctx ≡ s.ctx) × (0 < r.1)

  -- A read fails, or goes on with the same context.
  after_read-Reached :
      (s : Machine) (data_key : PublicKey) (index : Resource) (offset buf size : ℕ)
      (rest : Machine → Machine × ℕ)
      → ((m : Memory)
          → let s' = record s { memory = m } in
            Stopped s' (rest s') ⊎ Reached s' data_key (rest s'))
      → let r = and_then (read_to read s index offset buf size) rest in
        Stopped s r ⊎ Reached s data_key r
  unfolding Stopped
  after_read-Reached s data_key index offset buf size rest k =
      let (bytes, rv) = read s.ctx index offset size in
      elim (Bool-cases (truthy rv)) [
        | inl bad ↦ rw bad (inl (refl, ground arith))
        | inr fine ↦ rw fine (elim (k (store_bytes s.memory buf bytes)) [
          | inl stopped ↦ inl stopped
          | inr reached ↦ inr (record {
            memory = reached.memory;
            pre_size = reached.pre_size;
            pre = reached.pre;
            wb = reached.wb;
            result = reached.result;
          })
        ])
      ]

  read-Reached :
      (s : Machine) (data_key : PublicKey) (pre_size : ℕ) (a : Workbuf × Option ℕ)
      → let r = read_preamble crypto read s data_key pre_size a in
        Stopped s r ⊎ Reached s data_key r
  unfolding read_preamble Stopped
  read-Reached s data_key pre_size (wb, none) = inl (refl, omega arith)
  read-Reached s data_key pre_size (wb, some pre) =
      after_read-Reached s data_key fw_vblock s.ctx.sd.vblock_preamble_offset pre pre_size
        (λ s'. verify_preamble crypto read s' data_key pre_size pre wb)
        (λ m. inr (record { memory = m; pre_size = pre_size; pre = pre; wb = wb; result = refl }))

  header-Reached :
      (s : Machine) (data_key : PublicKey) (a : Workbuf × Option ℕ)
      → let r = read_preamble_header crypto read s data_key a in Stopped s r ⊎ Reached s data_key r
  unfolding read_preamble_header Stopped
  header-Reached s data_key (wb, none) = inl (refl, omega arith)
  header-Reached s data_key (wb, some pre) =
      after_read-Reached s data_key fw_vblock s.ctx.sd.vblock_preamble_offset pre sizeof_fw_preamble
        (λ s'.
          let pre_size = (fw_preamble_at s'.memory pre).preamble_size in
          read_preamble crypto read s' data_key pre_size
            (vb2_workbuf_realloc wb sizeof_fw_preamble pre_size))
        (λ m.
          let pre_size = (fw_preamble_at m pre).preamble_size in
          read-Reached (record s { memory = m }) data_key pre_size
            (vb2_workbuf_realloc wb sizeof_fw_preamble pre_size))

  -- The data key in the work buffer.
  unfoldable pub data_key_of : Machine → Result PublicKey
  data_key_of s =
      vb2_unpack_key s.memory (add64 s.ctx.workbuf s.ctx.sd.workbuf_data_key_offset)
        s.ctx.sd.workbuf_data_key_size

  unfoldable pub LoadCases : Machine → Machine × ℕ → Type 0
  LoadCases s r =
      Stopped s r ⊎ ((data_key : PublicKey) × (data_key_of s ≡ ok data_key) × Reached s data_key r)

  key-Reached :
      (s : Machine) (key : Result PublicKey)
      → data_key_of s ≡ key
      → LoadCases s (with_data_key crypto read s key)
  unfolding with_data_key Stopped data_key_of LoadCases
  key-Reached s (err rv) e = inl (
    refl,
    unpack_fails s.memory (add64 s.ctx.workbuf s.ctx.sd.workbuf_data_key_offset)
        s.ctx.sd.workbuf_data_key_size rv e,
  )
  key-Reached s (ok data_key) e =
      elim (header-Reached s data_key
        (vb2_workbuf_alloc (vb2_workbuf_from_ctx s.ctx) sizeof_fw_preamble)) [
          | inl stopped ↦ inl stopped
          | inr reached ↦ inr (data_key, e, reached)
        ]

  pub load_preamble_cases : (s : Machine) → LoadCases s (vb2_load_fw_preamble crypto read s)
  unfolding vb2_load_fw_preamble LoadCases Stopped data_key_of
  load_preamble_cases s = elim (Bool-cases (truthy s.ctx.sd.workbuf_data_key_size)) [
    | inl some_key ↦ rw some_key (key-Reached s (data_key_of s) refl)
    | inr no_key ↦ rw no_key (inl (refl, omega arith))
  ]
