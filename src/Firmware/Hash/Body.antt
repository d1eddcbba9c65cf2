-- ===== src/Firmware/Hash/Body.antt =====
-- The calls that check the firmware's body, as a caller makes them once vb2api_init_hash has
-- succeeded: vb2api_extend_hash for each buffer and then vb2api_check_hash.
use cbmc_vboot.Prelude.{
  ℕ, ◌+◌, ◌<◌, ◌≡◌, inl, inr, refl, ap, sym, subst, ◌∙◌, truthy, Bool-cases, arith, if◌then◌else◌,
  List, [], ◌∷◌, length, Option, some, none, Result, ok, err,
}
use cbmc_vboot.Context.{vb2_success}
use cbmc_vboot.Common.{Workbuf, add64, vb2_workbuf_alloc}
use cbmc_vboot.Keys.{store_bytes, offset_body_signature}
use cbmc_vboot.Keys.Unpack.{PublicKey, vb2_digest_size, vb2_unpack_key}
use cbmc_vboot.Keys.Verify.{Crypto, vb2_verify_digest}
use cbmc_vboot.Firmware.{vb2_workbuf_from_ctx}
use cbmc_vboot.Firmware.Hash.{Hwcrypto, Hashing, kept_key, extend_digest, vb2api_extend_hash}
use cbmc_vboot.Firmware.Hash.Check.{
  compare_digest, with_check_key, after_finalize, finalize, with_digest_space,
  vb2api_check_hash_get_digest, vb2api_check_hash,
}
use cbmc_vboot.Firmware.Preamble.Reached.{unpack_fails}

-- The bytes of all buffers.
abbrev pub total : List (List ℕ) → ℕ
total [] = 0
total (buf ∷ bufs) = length buf + total bufs

module _ {Digest Engine : Type 0} (crypto : Crypto Digest) (hw : Hwcrypto Engine) where
  -- A call for each buffer, up to the first that fails.
  unfoldable pub extend_all : Hashing Digest Engine → List (List ℕ) → Hashing Digest Engine × ℕ
  extend_all s [] = (s, vb2_success)
  extend_all s (buf ∷ bufs) =
      let extended = vb2api_extend_hash crypto hw s buf in
      let rest = extend_all extended.0 bufs in if truthy extended.1 then extended else rest

  -- The software's state after all buffers.
  abbrev pub extend_states : Digest → List (List ℕ) → Digest
  extend_states state [] = state
  extend_states state (buf ∷ bufs) = extend_states (crypto.digest_extend state buf).0 bufs

  -- The engine's state after all buffers.
  abbrev pub extend_engines : Engine → List (List ℕ) → Engine
  extend_engines engine [] = engine
  extend_engines engine (buf ∷ bufs) = extend_engines (hw.hw_extend engine buf).0 bufs

  -- Each call of the hash function, or of the engine, returned success.
  abbrev pub StatesAccept : Digest → List (List ℕ) → Type 0
  StatesAccept state [] = Unit
  StatesAccept state (buf ∷ bufs) =
      ((crypto.digest_extend state buf).1 ≡ vb2_success)
      × StatesAccept (crypto.digest_extend state buf).0 bufs

  abbrev pub EnginesAccept : Engine → List (List ℕ) → Type 0
  EnginesAccept engine [] = Unit
  EnginesAccept engine (buf ∷ bufs) =
      ((hw.hw_extend engine buf).1 ≡ vb2_success) × EnginesAccept (hw.hw_extend engine buf).0 bufs

  -- What calls that succeed do: they hash the buffers in software or by the engine.
  pub record Extended (s s' : Hashing Digest Engine) (bufs : List (List ℕ)) : Type 0 where
    pub counted : s'.ctx.sd.hash_remaining_size + total bufs ≡ s.ctx.sd.hash_remaining_size
    pub memory : s'.memory ≡ s.memory
    pub same_alg : s'.dc.hash_alg ≡ s.dc.hash_alg
    pub in_software : s'.dc.using_hwcrypto ≡ s.dc.using_hwcrypto
    pub hashed :
        s.dc.using_hwcrypto ≡ 0
        → (s'.dc.state ≡ extend_states s.dc.state bufs) × StatesAccept s.dc.state bufs
    pub by_engine :
        0 < s.dc.using_hwcrypto
        → (s'.engine ≡ extend_engines s.engine bufs) × EnginesAccept s.engine bufs

  extend_one :
      (s : Hashing Digest Engine) (buf : List ℕ)
      → let r = vb2api_extend_hash crypto hw s buf in r.1 ≡ vb2_success → Extended s r.0 (buf ∷ [])
  unfolding vb2api_extend_hash extend_digest
  extend_one s buf h = record {
    counted = ground arith;
    memory = ground arith;
    same_alg = ground arith;
    in_software = ground arith;
    hashed = λ soft. (ground arith, (ground arith, tt));
    by_engine = λ hard. (ground arith, (ground arith, tt));
  }

  extend_all_lem :
      (s : Hashing Digest Engine) (bufs : List (List ℕ))
      → let r = extend_all s bufs in r.1 ≡ vb2_success → Extended s r.0 bufs
  unfolding extend_all
  extend_all_lem s [] h = record {
    counted = omega arith;
    memory = refl;
    same_alg = refl;
    in_software = refl;
    hashed = λ soft. (refl, tt);
    by_engine = λ hard. (refl, tt);
  }
  extend_all_lem s (buf ∷ bufs) h =
      let extended = vb2api_extend_hash crypto hw s buf in
      elim (Bool-cases (truthy extended.1)) [
        | inl bad ↦ absurd (ground (arith, h, bad))
        | inr fine ↦
            let one = extend_one s buf (ground (arith, fine)) in
            let e : extend_all s (buf ∷ bufs) ≡ extend_all extended.0 bufs = rw fine refl in
            let rest =
              extend_all_lem extended.0 bufs
                (sym (ap (λ (r : Hashing Digest Engine × ℕ). r.1) e) ∙ h) in
            subst (λ (r : Hashing Digest Engine × ℕ). Extended s r.0 (buf ∷ bufs)) (sym e)
              (record {
                counted = omega (arith, one.counted, rest.counted);
                memory = rest.memory ∙ one.memory;
                same_alg = rest.same_alg ∙ one.same_alg;
                in_software = rest.in_software ∙ one.in_software;
                hashed = λ soft.
                    let (state, (fine_one, _)) = one.hashed soft in
                    let (states, all) = rest.hashed (one.in_software ∙ soft) in
                    (
                      states ∙ ap (λ state. extend_states state bufs) state,
                      (fine_one, subst (λ state. StatesAccept state bufs) state all),
                    );
                by_engine = λ hard.
                    let (engine, (fine_one, _)) = one.by_engine hard in
                    let (engines, all) = rest.by_engine (omega (arith, hard, one.in_software)) in
                    (
                      engines ∙ ap (λ engine. extend_engines engine bufs) engine,
                      (fine_one, subst (λ engine. EnginesAccept engine bufs) engine all),
                    );
              })
      ]

  -- The digest was finalized from the hash state or by the engine, and stored at `at`. The body's
  -- signature, in the preamble that is kept in the work buffer, is one of that digest under the
  -- data key that is kept there.
  pub record BodySigned (s : Hashing Digest Engine) : Type 0 where
    pub at : ℕ
    pub wb : Workbuf
    pub key : PublicKey
    pub digest : List ℕ
    pub allocated :
        vb2_workbuf_alloc (vb2_workbuf_from_ctx s.ctx) (vb2_digest_size s.dc.hash_alg)
        ≡ (wb, some at)
    pub from_state :
        s.dc.using_hwcrypto ≡ 0
        → crypto.digest_finalize s.dc.state (vb2_digest_size s.dc.hash_alg) ≡ (digest, vb2_success)
    pub from_engine :
        0 < s.dc.using_hwcrypto
        → hw.hw_finalize s.engine (vb2_digest_size s.dc.hash_alg) ≡ (digest, vb2_success)
    pub unpacked :
        vb2_unpack_key
          (store_bytes s.memory at digest)
          (add64 s.ctx.workbuf s.ctx.sd.workbuf_data_key_offset)
          s.ctx.sd.workbuf_data_key_size
        ≡ ok key
    pub accepted :
        (vb2_verify_digest crypto
          (store_bytes s.memory at digest)
          key
          (add64 s.ctx.workbuf s.ctx.sd.workbuf_preamble_offset + offset_body_signature)
          digest
          wb).1
        ≡ vb2_success

  compared :
      (s : Hashing Digest Engine) (digest : List ℕ) (wb : Workbuf) (key : Result PublicKey)
      → kept_key crypto hw s ≡ key
      → (with_check_key crypto hw s digest wb none key).1 ≡ vb2_success
      → (k : PublicKey) × (kept_key crypto hw s ≡ ok k)
        × ((vb2_verify_digest crypto s.memory k
              (add64 s.ctx.workbuf s.ctx.sd.workbuf_preamble_offset + offset_body_signature)
              digest
              wb).1
            ≡ vb2_success)
  unfolding with_check_key compare_digest
  compared s digest wb (err rv) e h = absurd (
      omega (
        arith,
        h,
        unpack_fails s.memory (add64 s.ctx.workbuf s.ctx.sd.workbuf_data_key_offset)
            s.ctx.sd.workbuf_data_key_size rv e,
      ))
  compared s digest wb (ok k) e h = (k, e, ground (arith, h))

  finalized :
      (s : Hashing Digest Engine) (r : List ℕ × ℕ) (wb : Workbuf)
      → (after_finalize crypto hw s r wb none).1 ≡ vb2_success
      → (r.1 ≡ vb2_success)
        × ((with_check_key crypto hw s r.0 wb none (kept_key crypto hw s)).1 ≡ vb2_success)
  unfolding after_finalize
  finalized s (digest, rv) wb h = (ground arith, ground arith)

  allocated_lem :
      (s : Hashing Digest Engine) (a : Workbuf × Option ℕ)
      → vb2_workbuf_alloc (vb2_workbuf_from_ctx s.ctx) (vb2_digest_size s.dc.hash_alg) ≡ a
      → (with_digest_space crypto hw s none a).1 ≡ vb2_success
      → BodySigned s
  unfolding with_digest_space
  allocated_lem s (wb, none) e h = absurd (omega (arith, h))
  allocated_lem s (wb, some at) e h =
      let r = finalize crypto hw s in
      let stored = record s { memory = store_bytes s.memory at r.0 } in
      let (fine, checked) = finalized stored r wb h in
      let (key, unpacked, accepted) =
        compared stored r.0 wb (kept_key crypto hw stored) refl checked in
      record {
        at = at;
        wb = wb;
        key = key;
        allocated = e;
        digest = r.0;
        from_state = λ soft. ground (arith, soft, fine);
        from_engine = λ hard. ground (arith, hard, fine);
        unpacked = unpacked;
        accepted = accepted;
      }

  check_lem :
      (s : Hashing Digest Engine)
      → (vb2api_check_hash crypto hw s).1 ≡ vb2_success
      → (s.ctx.sd.hash_remaining_size ≡ 0)
        × ((with_digest_space crypto hw s none
              (vb2_workbuf_alloc (vb2_workbuf_from_ctx s.ctx) (vb2_digest_size s.dc.hash_alg))).1
            ≡ vb2_success)
  unfolding vb2api_check_hash vb2api_check_hash_get_digest
  check_lem s h = (ground arith, ground arith)

-- If every buffer is accepted by vb2api_extend_hash and then vb2api_check_hash succeeds, the
-- buffers had exactly the size that remained to be hashed. In software the hash state, and
-- otherwise the state of the hardware engine, is that of all buffers in their order, none of which
-- was refused. The digest finalized from it, with the size of the algorithm that hashing was
-- started with, passed vb2_verify_digest for the body's signature in the preamble and the data key
-- that the work buffer has.
pub vb2api_check_hash-BodySigned :
    {Digest Engine : Type 0} (crypto : Crypto Digest) (hw : Hwcrypto Engine)
    (s : Hashing Digest Engine) (bufs : List (List ℕ))
    → let s' = (extend_all crypto hw s bufs).0 in
      (extend_all crypto hw s bufs).1 ≡ vb2_success
      → (vb2api_check_hash crypto hw s').1 ≡ vb2_success
      → (total bufs ≡ s.ctx.sd.hash_remaining_size)
        × Extended crypto hw s s' bufs
        × BodySigned crypto hw s'
vb2api_check_hash-BodySigned crypto hw s bufs h c =
    let s' = (extend_all crypto hw s bufs).0 in
    let extended = extend_all_lem crypto hw s bufs h in
    let (zero, rest) = check_lem crypto hw s' c in
    (
      omega (arith, extended.counted, zero),
      extended,
      allocated_lem crypto hw s'
          (vb2_workbuf_alloc (vb2_workbuf_from_ctx s'.ctx) (vb2_digest_size s'.dc.hash_alg)) refl
          rest,
    )
