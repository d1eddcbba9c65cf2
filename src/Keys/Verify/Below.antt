-- ===== src/Keys/Verify/Below.antt =====
-- lib20/common.c: what the verification of a keyblock writes lies behind the keyblock's start.
use cbmc_vboot.Prelude.{
  ℕ, ◌+◌, ◌^◌, ◌<◌, ◌≡◌, inl, inr, refl, ap, sym, ◌∙◌, arith, not, ◌==◌, truthy, ltb, Bool-cases,
  List, Option, some, none,
}
use cbmc_vboot.Common.{Workbuf, add64, vb2_workbuf_alloc, vb2_workbuf_free}
use cbmc_vboot.Common.Bounds.{IsRoom, vb2_workbuf_free-alloc}
use cbmc_vboot.Keys.{Memory, load_bytes, store_bytes, signature_at}
use cbmc_vboot.Keys.Stores.{store_before}
use cbmc_vboot.Keys.Unpack.{PublicKey, vb2_rsa_sig_size, vb2_digest_size}
use cbmc_vboot.Keys.Verify.{
  Crypto, sizeof_digest_context, vb2_verify_digest, hash_data, check_digest, hash_in_context,
  hash_and_verify, vb2_verify_data,
}
use cbmc_vboot.Firmware.Placed.{alloc-start, alloc-le, alloc-IsRoom}

-- vb2_rsa_verify_digest destroys the signature and uses its work buffer, and changes nothing in
-- front of both.
abbrev pub KeepsBelow : {Digest : Type 0} → Crypto Digest → Type 0
KeepsBelow crypto =
    (m : Memory) (key : PublicKey) (sig : ℕ) (digest : List ℕ) (wb : Workbuf) (x : ℕ)
    → x < sig
    → x < wb.buf
    → (crypto.rsa_verify_digest m key sig digest wb).0 x ≡ m x

module _ {Digest : Type 0} (crypto : Crypto Digest) (keeps : KeepsBelow crypto) (sig_at x : ℕ)
    (low : sig_at < 2 ^ 63 + 2 ^ 34) (before : x < sig_at) where
  verify_digest_below :
      (m : Memory) (key : PublicKey) (digest : List ℕ) (wb : Workbuf)
      → x < wb.buf
      → (vb2_verify_digest crypto m key sig_at digest wb).0 x ≡ m x
  unfolding vb2_verify_digest
  verify_digest_below m key digest wb behind =
      let sig = signature_at m sig_at in
      elim (Bool-cases (not (sig.sig_size == vb2_rsa_sig_size key.sig_alg))) [
        | inl other ↦ rw other refl
        | inr same ↦ rw same (
            keeps m key (add64 sig_at sig.sig_offset) digest wb x (omega (arith, low, before))
              behind)
      ]

  check_digest_below :
      (m : Memory) (key : PublicKey) (digest_at : ℕ) (hashed : List ℕ × ℕ) (wb : Workbuf)
      → x < digest_at
      → x < wb.buf
      → (check_digest crypto m key sig_at digest_at hashed wb).0 x ≡ m x
  unfolding check_digest
  check_digest_below m key digest_at hashed wb h behind = elim (Bool-cases (truthy hashed.1)) [
    | inl bad ↦ rw bad refl
    | inr fine ↦ rw fine (
        verify_digest_below (store_bytes m digest_at hashed.0) key hashed.0 wb behind
        ∙ store_before m digest_at hashed.0 x h)
  ]

  in_context_below :
      (m : Memory) (start : ℕ) (key : PublicKey) (digest_at : ℕ) (left : Workbuf)
      (a : Workbuf × Option ℕ)
      → vb2_workbuf_alloc left sizeof_digest_context ≡ a
      → IsRoom left
      → x < left.buf
      → x < digest_at
      → (hash_in_context crypto m start sig_at key digest_at a).0 x ≡ m x
  unfolding hash_in_context
  in_context_below m start key digest_at left (wb, none) e room behind h = refl
  in_context_below m start key digest_at left (wb, some dc) e room behind h =
      let freed =
        (vb2_workbuf_free-alloc left sizeof_digest_context dc 0 room (omega arith)
          (ap (λ (r : Workbuf × Option ℕ). r.1) e)).0 in
      let back : vb2_workbuf_free wb sizeof_digest_context ≡ left =
        ap (λ (r : Workbuf × Option ℕ). vb2_workbuf_free r.0 sizeof_digest_context) (sym e)
        ∙ freed in
      check_digest_below m key digest_at
        (hash_data crypto key.hash_alg (load_bytes (signature_at m sig_at).data_size m start))
        (vb2_workbuf_free wb sizeof_digest_context) h
        (omega (arith, behind, ap (λ (w : Workbuf). w.buf) back))

  hash_below :
      (m : Memory) (start : ℕ) (key : PublicKey) (a : Workbuf × Option ℕ)
      → IsRoom a.0
      → x < a.0.buf
      → ((digest_at : ℕ) → a.1 ≡ some digest_at → x < digest_at)
      → (hash_and_verify crypto m start sig_at key a).0 x ≡ m x
  unfolding hash_and_verify
  hash_below m start key (wb, none) room behind h = refl
  hash_below m start key (wb, some digest_at) room behind h =
      in_context_below m start key digest_at wb (vb2_workbuf_alloc wb sizeof_digest_context) refl
        room behind (h digest_at refl)

  -- Nothing changes in front of the signature's struct and of the work buffer.
  pub vb2_verify_data_below :
      (m : Memory) (start size : ℕ) (key : PublicKey) (wb : Workbuf)
      → IsRoom wb
      → x < wb.buf
      → (vb2_verify_data crypto m start size sig_at key wb).0 x ≡ m x
  unfolding vb2_verify_data
  vb2_verify_data_below m start size key wb room h =
      let digest_size = vb2_digest_size key.hash_alg in
      elim (Bool-cases (ltb size (signature_at m sig_at).data_size)) [
        | inl short ↦ rw short refl
        | inr enough ↦ elim (Bool-cases (not (truthy digest_size))) [
          | inl unknown ↦ rw (enough, unknown) refl
          | inr known ↦
              rw (enough, known)
                (hash_below m start key (vb2_workbuf_alloc wb digest_size)
                  (alloc-IsRoom wb digest_size room)
                  (omega (arith, h, alloc-le wb digest_size room))
                  (λ digest_at e. omega (arith, h, alloc-start wb digest_size digest_at e)))
        ]
      ]
