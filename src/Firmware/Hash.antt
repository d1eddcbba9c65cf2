-- ===== src/Firmware/Hash.antt =====
-- lib20/api.c: vb2api_init_hash; 2lib/2api.c: vb2api_extend_hash. The hash context lies in the work
-- buffer in C; here it stands beside the memory. The hardware's digest engine (vb2ex_hwcrypto_*) is
-- a parameter, with its state.
pub mod Check
pub mod Body
use cbmc_vboot.Prelude.{
  ℕ, ◌+◌, ◌-◌, ◌%◌, ◌^◌, Bool, not, ◌&&◌, ◌||◌, List, [], ◌∷◌, length, Option, none, some, ltb,
  ◌==◌, truthy, has_flag, if◌then◌else◌, Result, ok, err,
}
use cbmc_vboot.Context.{Context, vb2_success}
use cbmc_vboot.Codes.{
  error_api_init_hash_tag, error_api_init_hash_preamble, error_api_init_hash_workbuf,
  error_api_init_hash_data_key, error_api_extend_hash_workbuf, error_api_extend_hash_size,
  error_api_check_hash_preamble, error_api_check_hash_workbuf, error_api_check_hash_size,
  error_api_check_hash_workbuf_digest, error_api_check_hash_tag, error_api_check_hash_data_key,
  error_api_check_digest_size, error_ex_hwcrypto_unsupported,
}
use cbmc_vboot.Common.{Workbuf, add64, add32, vb2_workbuf_alloc, vb2_offset_of}
use cbmc_vboot.Boot.{vb2_fail}
use cbmc_vboot.Keys.{Memory, store_bytes, FwPreamble, fw_preamble_at, offset_body_signature}
use cbmc_vboot.Keys.Unpack.{PublicKey, vb2_digest_size, vb2_unpack_key}
use cbmc_vboot.Keys.Verify.{Crypto, sizeof_digest_context, vb2_verify_digest}
use cbmc_vboot.Firmware.{Machine, vb2_workbuf_from_ctx}

abbrev pub hash_tag_invalid : ℕ
hash_tag_invalid = 0

abbrev pub hash_tag_fw_body : ℕ
hash_tag_fw_body = 1

abbrev pub disallow_hwcrypto : ℕ
disallow_hwcrypto = 0x2

abbrev pub recovery_fw_body : ℕ
recovery_fw_body = 0x1b

-- struct vb2_digest_context, with the union of the algorithms' states as `state`.
pub record DigestContext (Digest : Type 0) : Type 0 where
  pub state : Digest
  pub hash_alg : ℕ
  pub using_hwcrypto : ℕ

-- vb2ex_hwcrypto_digest_init, _extend and _finalize. Each returns its code.
pub record Hwcrypto (Engine : Type 0) : Type 0 where
  pub hw_init : Engine → (hash_alg data_size : ℕ) → Engine × ℕ
  pub hw_extend : Engine → List ℕ → Engine × ℕ
  pub hw_finalize : Engine → (digest_size : ℕ) → List ℕ × ℕ

pub record Hashing (Digest Engine : Type 0) : Type 0 where
  pub memory : Memory
  pub ctx : Context
  pub dc : DigestContext Digest
  pub engine : Engine

module _ {Digest Engine : Type 0} (crypto : Crypto Digest) (hw : Hwcrypto Engine) where
  -- The preamble that the load kept in the work buffer.
  abbrev pub kept_preamble : Hashing Digest Engine → FwPreamble
  kept_preamble s = fw_preamble_at s.memory (add64 s.ctx.workbuf s.ctx.sd.workbuf_preamble_offset)

  abbrev pub kept_key : Hashing Digest Engine → Result PublicKey
  kept_key s =
      vb2_unpack_key s.memory (add64 s.ctx.workbuf s.ctx.sd.workbuf_data_key_offset)
        s.ctx.sd.workbuf_data_key_size

  -- Lines 111-129: the engine or software.
  unfoldable pub start_digest : Hashing Digest Engine → ℕ → Hashing Digest Engine × ℕ
  start_digest s hash_alg =
      let (engine, rv) = hw.hw_init s.engine hash_alg (kept_preamble s).body_signature.data_size in
      let (state, code) = crypto.digest_init hash_alg in
      let software : DigestContext Digest = record {
        state = state;
        hash_alg = hash_alg;
        using_hwcrypto = 0;
      } in
      if has_flag (kept_preamble s).flags disallow_hwcrypto
      then (record s { dc = software }, code)
      else if not (truthy rv)
      then (
        record s { dc = record s.dc { hash_alg = hash_alg; using_hwcrypto = 1 }; engine = engine },
        vb2_success,
      )
      else if not (rv == error_ex_hwcrypto_unsupported)
      then (record s { engine = engine }, rv)
      else (record s { dc = software; engine = engine }, code)

  -- Lines 102-129, with the data key.
  unfoldable pub with_hash_key :
      Hashing Digest Engine → ℕ → Result PublicKey → Hashing Digest Engine × ℕ
  unfolding start_digest
  with_hash_key s tag (err rv) = (s, rv)
  with_hash_key s tag (ok key) =
      start_digest
        (record s {
          ctx = record s.ctx {
            sd = record s.ctx.sd {
              hash_tag = tag;
              hash_remaining_size = (kept_preamble s).body_signature.data_size;
            };
          };
        })
        key.hash_alg

  -- Lines 96-129.
  unfoldable pub find_hash_key : Hashing Digest Engine → ℕ → Hashing Digest Engine × ℕ
  unfolding with_hash_key
  find_hash_key s tag =
      if not (truthy s.ctx.sd.workbuf_data_key_size)
      then (s, error_api_init_hash_data_key)
      else with_hash_key s tag (kept_key s)

  -- Lines 70-76: the space that was allocated is kept.
  unfoldable pub keep_hash_space : Context → ℕ → Context
  keep_hash_space ctx dc =
      let offset = vb2_offset_of ctx.workbuf dc % 2 ^ 32 in
      record ctx {
        sd = record ctx.sd {
          workbuf_hash_offset = offset;
          workbuf_hash_size = sizeof_digest_context;
        };
        workbuf_used = add32 offset sizeof_digest_context;
      }

  unfoldable pub with_hash_space :
      Hashing Digest Engine → ℕ → Workbuf × Option ℕ → Hashing Digest Engine × ℕ
  unfolding find_hash_key
  with_hash_space s tag (wb, none) = (s, error_api_init_hash_workbuf)
  with_hash_space s tag (wb, some dc) =
      find_hash_key (record s { ctx = keep_hash_space s.ctx dc }) tag

  -- The caller gets the size by its pointer: it is body_signature.data_size.
  unfoldable pub vb2api_init_hash : Hashing Digest Engine → ℕ → Hashing Digest Engine × ℕ
  unfolding with_hash_space find_hash_key
  vb2api_init_hash s tag =
      if tag == hash_tag_invalid
      then (s, error_api_init_hash_tag)
      else if not (truthy s.ctx.sd.workbuf_preamble_size)
      then (s, error_api_init_hash_preamble)
      else if not (tag == hash_tag_fw_body)
      then (s, error_api_init_hash_tag)
      else if truthy s.ctx.sd.workbuf_hash_size
      then find_hash_key s tag
      else with_hash_space s tag
          (vb2_workbuf_alloc (vb2_workbuf_from_ctx s.ctx) sizeof_digest_context)

  -- Lines 169-174.
  unfoldable pub extend_digest : Hashing Digest Engine → List ℕ → Hashing Digest Engine × ℕ
  extend_digest s buf =
      let (engine, hw_code) = hw.hw_extend s.engine buf in
      let (state, code) = crypto.digest_extend s.dc.state buf in
      if truthy s.dc.using_hwcrypto
      then (record s { engine = engine }, hw_code)
      else (record s { dc = record s.dc { state = state } }, code)

  -- `buf` holds `size` bytes.
  unfoldable pub vb2api_extend_hash : Hashing Digest Engine → List ℕ → Hashing Digest Engine × ℕ
  unfolding extend_digest
  vb2api_extend_hash s buf =
      let size = length buf in
      let remaining = s.ctx.sd.hash_remaining_size in
      if not (truthy s.ctx.sd.workbuf_hash_size)
      then (s, error_api_extend_hash_workbuf)
      else if not (truthy size) || ltb remaining size
      then (s, error_api_extend_hash_size)
      else extend_digest
          (record s {
            ctx = record s.ctx { sd = record s.ctx.sd { hash_remaining_size = remaining - size } };
          })
          buf
