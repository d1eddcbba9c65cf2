-- ===== src/Tests/Firmware.antt =====
-- A root key, and a vblock whose keyblock and preamble are accepted by hash functions
-- and RSA that always succeed.
use cbmc_vboot.Prelude.{
  ℕ, ◌+◌, ◌<◌, ◌≡◌, ◌⊎◌, ◌↔◌, refl, arith, ok, List, [], ◌∷◌, ◌++◌, replicate, le_bytes, take, drop,
}
use cbmc_vboot.Context.{Context, vb2_success}
use cbmc_vboot.Keys.{Memory}
use cbmc_vboot.Keys.Verify.{vb2_verify_data, Crypto}
use cbmc_vboot.Firmware.{vb2_workbuf_from_ctx, Machine, gbb, fw_vblock, kernel_vblock, ReadResource}
use cbmc_vboot.Firmware.Phases.{vb2api_fw_phase3}
use cbmc_vboot.Firmware.Phases.Verified.{VerifiedFirmware, vb2api_fw_phase3-VerifiedFirmware}
use cbmc_vboot.Firmware.Keyblock.{vb2_load_fw_keyblock}
use cbmc_vboot.Common.{
  vb2_workbuf_alloc, vb2_workbuf_init, vb2_align, wb_round_up, vb2_aligned, vb2_workbuf_realloc,
  vb2_workbuf_free, vb2_offset_of,
}
use cbmc_vboot.Keys.Unpack.{
  vb2_unpack_key, vb2_crypto_to_signature, vb2_crypto_to_hash, vb2_packed_key_size, unpack,
  vb2_digest_size, vb2_rsa_sig_size,
}
use cbmc_vboot.Keys.Inside.{
  vb2_verify_packed_key_inside, vb2_verify_member_inside, vb2_verify_signature_inside,
}
use cbmc_vboot.Keys.Block.{vb2_verify_keyblock, vb2_check_keyblock}
use cbmc_vboot.Gpt.{same_bytes}
use cbmc_vboot.Firmware.Preamble.{keep_preamble, vb2_load_fw_preamble}
use cbmc_vboot.Keys.Preamble.{vb2_verify_fw_preamble}
use cbmc_vboot.Codes.{error_ex_hwcrypto_unsupported}
use cbmc_vboot.Common.{Workbuf}
use cbmc_vboot.Common.Bounds.{IsRoom}
use cbmc_vboot.Keys.{store_bytes, offset_keyblock_signature, offset_preamble_signature}
use cbmc_vboot.Keys.Unpack.{PublicKey}
use cbmc_vboot.Keys.Unpack.Bounds.{IsKey, vb2_unpack_key-IsKey}
use cbmc_vboot.Keys.Verify.Below.{KeepsBelow}
use cbmc_vboot.Firmware.Placed.{IsPlaced}
use cbmc_vboot.Keys.Verify.Signed.{IsSigned}
use cbmc_vboot.Keys.Block.Accepted.{IsBlock, vb2_verify_keyblock_iff}
use cbmc_vboot.Keys.Preamble.Accepted.{IsPreamble, CoversPreamble, vb2_verify_fw_preamble_iff}
use cbmc_vboot.Firmware.Gbb.{vb2_fw_parse_gbb}
use cbmc_vboot.Firmware.Gbb.Parsed.{Parsed, vb2_fw_parse_gbb-Parsed}
use cbmc_vboot.Firmware.Preamble.Rollback.{KeptOrRolled, vb2_load_fw_preamble-KeptOrRolled}
use cbmc_vboot.Firmware.Phases.Outcome.{Outcome}
use cbmc_vboot.Firmware.Hash.{
  Hwcrypto, Hashing, hash_tag_fw_body, vb2api_init_hash, vb2api_extend_hash, find_hash_key,
  with_hash_space, keep_hash_space,
}
use cbmc_vboot.Firmware.Hash.Check.{vb2api_check_hash, vb2api_check_hash_get_digest}
use cbmc_vboot.Firmware.Hash.Body.{
  total, extend_all, Extended, BodySigned, vb2api_check_hash-BodySigned,
}
use cbmc_vboot.Tests.{sample, sample_sd}

-- A number of 64 bits in a struct.
abbrev pub u64 : ℕ → List ℕ
u64 v = le_bytes 8 v

-- struct vb2_packed_key for RSA 1024 with SHA-1, and the 264 bytes of its key.
abbrev pub packed : (offset version : ℕ) → List ℕ
packed offset version = u64 offset ++ (u64 264 ++ (u64 0 ++ u64 version))

abbrev pub key_data : List ℕ
key_data = le_bytes 4 32 ++ replicate 260 0

abbrev pub signature : (offset data_size : ℕ) → List ℕ
signature offset data_size = u64 offset ++ (u64 128 ++ u64 data_size)

abbrev pub root_key : List ℕ
root_key = packed 32 1 ++ key_data

abbrev keyblock : List ℕ
keyblock =
    (0x43 ∷ 0x48 ∷ 0x52 ∷ 0x4f ∷ 0x4d ∷ 0x45 ∷ 0x4f ∷ 0x53 ∷ [])
    ++ (le_bytes 4 2
        ++ (le_bytes 4 1
            ++ (u64 504
                ++ (signature 352 376
                    ++ (replicate 32 0 ++ (packed 32 1 ++ (key_data ++ replicate 128 0)))))))

abbrev preamble : List ℕ
preamble =
    u64 628
    ++ (signature 492 500
        ++ (le_bytes 4 2
            ++ (le_bytes 4 1
                ++ (u64 2
                    ++ (packed 60 1
                        ++ (signature 292 4 ++ (le_bytes 4 0 ++ (key_data ++ replicate 256 0))))))))

abbrev pub slice : List ℕ → ℕ → ℕ → List ℕ
slice bytes offset size = take size (drop offset bytes)

abbrev read_sample : ReadResource
read_sample ctx gbb offset size = (slice root_key offset size, 0)
read_sample ctx fw_vblock offset size = (slice (keyblock ++ preamble) offset size, 0)
read_sample ctx kernel_vblock offset size = ([], 1)

abbrev pub always : Crypto ℕ
always = record {
  digest_init = λ alg. (0, 0);
  digest_extend = λ state bytes. (state + 1, 0);
  digest_finalize = λ state size. (replicate size 0, 0);
  rsa_verify_digest = λ m key sig digest wb. (m, 0);
}

abbrev start : Machine
start = record {
  memory = λ a. 0;
  ctx = record sample {
    workbuf_used = 0x80;
    sd = record sample_sd { gbb_rootkey_size = 296; fw_version_secdata = 0x0001_0001 };
  };
}

loads : (vb2api_fw_phase3 always read_sample start).1 ≡ vb2_success
unfolding vb2api_fw_phase3 vb2_load_fw_keyblock vb2_workbuf_alloc vb2_workbuf_from_ctx
    vb2_workbuf_init vb2_align wb_round_up vb2_unpack_key vb2_verify_packed_key_inside
    vb2_crypto_to_signature vb2_crypto_to_hash vb2_packed_key_size vb2_aligned vb2_workbuf_realloc
    vb2_workbuf_free vb2_verify_keyblock vb2_check_keyblock same_bytes vb2_offset_of
    vb2_load_fw_preamble vb2_verify_member_inside vb2_verify_signature_inside vb2_verify_fw_preamble
    unpack vb2_digest_size vb2_rsa_sig_size vb2_verify_data
loads = refl

always-KeepsBelow : KeepsBelow always
always-KeepsBelow m key sig digest wb x h behind = refl

start-IsPlaced : IsPlaced start.ctx
start-IsPlaced = record { low = omega arith; small = omega arith; used = omega arith }

vb2api_fw_phase3-VerifiedFirmware_example :
    VerifiedFirmware always read_sample start (vb2api_fw_phase3 always read_sample start).0
vb2api_fw_phase3-VerifiedFirmware_example =
    vb2api_fw_phase3-VerifiedFirmware always read_sample start always-KeepsBelow start-IsPlaced
      (omega arith) loads

-- The machine after the keyblock was loaded.
abbrev after_keyblock : Machine
after_keyblock = (vb2_load_fw_keyblock always read_sample start).0

vb2_load_fw_preamble-KeptOrRolled_example :
    let r = vb2_load_fw_preamble always read_sample after_keyblock in
    KeptOrRolled after_keyblock.ctx (r.0.ctx, r.1)
vb2_load_fw_preamble-KeptOrRolled_example =
    vb2_load_fw_preamble-KeptOrRolled always read_sample after_keyblock

-- An engine that supports no algorithm.
abbrev no_engine : Hwcrypto ℕ
no_engine = record {
  hw_init = λ engine alg size. (engine, error_ex_hwcrypto_unsupported);
  hw_extend = λ engine buf. (engine, 1);
  hw_finalize = λ engine size. ([], 1);
}

-- Hashing of the body, of four bytes, is started on the machine that phase 3 leaves.
abbrev ready : Hashing ℕ ℕ
ready =
    let loaded = (vb2api_fw_phase3 always read_sample start).0 in
    (vb2api_init_hash always no_engine
      (record {
        memory = loaded.memory;
        ctx = loaded.ctx;
        dc = record { state = 0; hash_alg = 0; using_hwcrypto = 0 };
        engine = 0;
      })
      hash_tag_fw_body).0

abbrev body : List (List ℕ)
body = (1 ∷ 2 ∷ []) ∷ (3 ∷ 4 ∷ []) ∷ []

extends : (extend_all always no_engine ready body).1 ≡ vb2_success
unfolding vb2api_fw_phase3 vb2_load_fw_keyblock vb2_workbuf_alloc vb2_workbuf_from_ctx
    vb2_workbuf_init vb2_align wb_round_up vb2_unpack_key vb2_verify_packed_key_inside
    vb2_crypto_to_signature vb2_crypto_to_hash vb2_packed_key_size vb2_aligned vb2_workbuf_realloc
    vb2_workbuf_free vb2_verify_keyblock vb2_check_keyblock same_bytes vb2_offset_of
    vb2_load_fw_preamble vb2_verify_member_inside vb2_verify_signature_inside vb2_verify_fw_preamble
    unpack vb2_digest_size vb2_rsa_sig_size vb2_verify_data vb2api_init_hash vb2api_extend_hash
    extend_all find_hash_key with_hash_space keep_preamble keep_hash_space
extends = refl

checks :
    (vb2api_check_hash always no_engine (extend_all always no_engine ready body).0).1 ≡ vb2_success
unfolding vb2api_fw_phase3 vb2_load_fw_keyblock vb2_workbuf_alloc vb2_workbuf_from_ctx
    vb2_workbuf_init vb2_align wb_round_up vb2_unpack_key vb2_verify_packed_key_inside
    vb2_crypto_to_signature vb2_crypto_to_hash vb2_packed_key_size vb2_aligned vb2_workbuf_realloc
    vb2_workbuf_free vb2_verify_keyblock vb2_check_keyblock same_bytes vb2_offset_of
    vb2_load_fw_preamble vb2_verify_member_inside vb2_verify_signature_inside vb2_verify_fw_preamble
    unpack vb2_digest_size vb2_rsa_sig_size vb2_verify_data vb2api_init_hash vb2api_extend_hash
    extend_all find_hash_key with_hash_space vb2api_check_hash vb2api_check_hash_get_digest
    keep_preamble keep_hash_space
checks = refl

vb2api_check_hash-BodySigned_example :
    let s' = (extend_all always no_engine ready body).0 in
    (total body ≡ ready.ctx.sd.hash_remaining_size)
    × Extended always no_engine ready s' body
    × BodySigned always no_engine s'
vb2api_check_hash-BodySigned_example =
    vb2api_check_hash-BodySigned always no_engine ready body extends checks

-- A TPM that is always cleared.
abbrev clear_owner : Context → ℕ → ℕ × ℕ
clear_owner ctx tpm = (tpm + 1, 0)

vb2_fw_parse_gbb-Parsed_example :
    let r = vb2_fw_parse_gbb read_sample start in
    (0 < r.1) × (r.0.ctx ≡ start.ctx) ⊎ (r.1 ≡ vb2_success) × Parsed read_sample start r.0
vb2_fw_parse_gbb-Parsed_example = vb2_fw_parse_gbb-Parsed read_sample start

-- A buffer for hashing, and the root key in memory.
abbrev pub room : Workbuf
room = record { buf = 0x3000; size = 0x1000 }

pub room-IsRoom : IsRoom room
room-IsRoom = record { aligned = λ more. refl; small = omega arith; within = omega arith }

abbrev pub with_bytes : List ℕ → Memory
with_bytes bytes = store_bytes (λ a. 0) 0x2000 bytes

abbrev pub root : PublicKey
root = record { arrsize = 32; n0inv = 0; n = 0x2028; rr = 0x20a8; sig_alg = 2; hash_alg = 1 }

unpacks : vb2_unpack_key (with_bytes root_key) 0x2000 296 ≡ ok root
unfolding vb2api_fw_phase3 vb2_load_fw_keyblock vb2_workbuf_alloc vb2_workbuf_from_ctx
    vb2_workbuf_init vb2_align wb_round_up vb2_unpack_key vb2_verify_packed_key_inside
    vb2_crypto_to_signature vb2_crypto_to_hash vb2_packed_key_size vb2_aligned vb2_workbuf_realloc
    vb2_workbuf_free vb2_verify_keyblock vb2_check_keyblock same_bytes vb2_offset_of
    vb2_load_fw_preamble vb2_verify_member_inside vb2_verify_signature_inside vb2_verify_fw_preamble
    unpack vb2_digest_size vb2_rsa_sig_size vb2_verify_data
unpacks = refl

vb2_unpack_key-IsKey_example : IsKey 0x2000 296 root
vb2_unpack_key-IsKey_example =
    vb2_unpack_key-IsKey (with_bytes root_key) 0x2000 296 root (omega arith) (omega arith) unpacks

vb2_verify_keyblock_iff_example :
    ((vb2_verify_keyblock always (with_bytes keyblock) 0x2000 504 root room).1 ≡ vb2_success)
    ↔ IsBlock (with_bytes keyblock) 0x2000 504
      × IsSigned always
          (with_bytes keyblock)
          0x2000
          504
          (0x2000 + offset_keyblock_signature)
          root
          room
vb2_verify_keyblock_iff_example =
    vb2_verify_keyblock_iff always (with_bytes keyblock) 0x2000 504 root room (omega arith)
      room-IsRoom

vb2_verify_fw_preamble_iff_example :
    let m = with_bytes preamble in
    let sig_at = 0x2000 + offset_preamble_signature in
    ((vb2_verify_fw_preamble always m 0x2000 628 root room).1 ≡ vb2_success)
    ↔ IsPreamble m 0x2000 628
      × IsSigned always m 0x2000 628 sig_at root room
      × CoversPreamble (vb2_verify_data always m 0x2000 628 sig_at root room).0 0x2000
vb2_verify_fw_preamble_iff_example =
    vb2_verify_fw_preamble_iff always (with_bytes preamble) 0x2000 628 root room (omega arith)
      room-IsRoom
