-- ===== src/Keys/Verify/Signed.antt =====
-- What lib20/common.c: vb2_verify_data accepts.
use cbmc_vboot.Prelude.{
  ℕ, ◌+◌, ◌-◌, ◌≤◌, ◌<◌, ◌≡◌, ◌↔◌, inl, inr, Bool-cases, arith, ltb, ap, ◌∙◌, sym, subst, List,
  some, none,
}
use cbmc_vboot.Context.{vb2_success}
use cbmc_vboot.Common.{Workbuf, add64, wb_round_up, vb2_workbuf_alloc, vb2_workbuf_free}
use cbmc_vboot.Common.Bounds.{IsRoom, alloc_fits, wb_round_up_lem, vb2_workbuf_free-alloc}
use cbmc_vboot.Keys.{Memory, load_bytes, store_bytes, signature_at}
use cbmc_vboot.Keys.Unpack.{PublicKey, vb2_rsa_sig_size, vb2_digest_size}
use cbmc_vboot.Keys.Verify.{
  Crypto, sizeof_digest_context, vb2_verify_digest, hash_data, check_digest, hash_in_context,
  hash_and_verify, vb2_verify_data,
}

digest_size-le : (hash_alg : ℕ) → vb2_digest_size hash_alg ≤ 64
unfolding vb2_digest_size
digest_size-le hash_alg = ground arith

-- The signature at `sig_at` is one of the data from `start` on: there is room to hash the data, and
-- the digest of data_size bytes, no more than `size`, is what RSA verification accepts.
pub record IsSigned {Digest : Type 0} (crypto : Crypto Digest) (m : Memory) (start size sig_at : ℕ)
    (key : PublicKey) (wb : Workbuf) : Type 0 where
  pub covered : (signature_at m sig_at).data_size ≤ size
  pub known : 0 < vb2_digest_size key.hash_alg
  pub room : wb_round_up (vb2_digest_size key.hash_alg) + sizeof_digest_context ≤ wb.size
  pub hashed :
      (hash_data crypto key.hash_alg (load_bytes (signature_at m sig_at).data_size m start)).1
      ≡ vb2_success
  pub sig_size :
      let digest =
        (hash_data crypto key.hash_alg (load_bytes (signature_at m sig_at).data_size m start)).0 in
      (signature_at (store_bytes m wb.buf digest) sig_at).sig_size ≡ vb2_rsa_sig_size key.sig_alg
  pub accepted :
      let digest =
        (hash_data crypto key.hash_alg (load_bytes (signature_at m sig_at).data_size m start)).0 in
      let stored = store_bytes m wb.buf digest in
      (crypto.rsa_verify_digest stored key
        (add64 sig_at (signature_at stored sig_at).sig_offset)
        digest
        (vb2_workbuf_alloc wb (vb2_digest_size key.hash_alg)).0).1
      ≡ vb2_success

-- A record of an allocation that fits, and the context after it.
alloc-some :
    (wb : Workbuf) (size : ℕ)
    → wb_round_up size ≤ wb.size
    → vb2_workbuf_alloc wb size ≡ (
      record { buf = add64 wb.buf (wb_round_up size); size = wb.size - wb_round_up size },
      some wb.buf,
    )
unfolding vb2_workbuf_alloc
alloc-some wb size h = ground arith

alloc-none :
    (wb : Workbuf) (size : ℕ) → wb.size < wb_round_up size → vb2_workbuf_alloc wb size ≡ (wb, none)
unfolding vb2_workbuf_alloc
alloc-none wb size h = ground arith

module _ {Digest : Type 0} (crypto : Crypto Digest) (m : Memory) (start sig_at : ℕ)
    (key : PublicKey) where
  verify_room :
      (wb : Workbuf) (digest_size : ℕ)
      → IsRoom wb
      → digest_size ≤ 64
      → wb_round_up digest_size + sizeof_digest_context ≤ wb.size
      → hash_and_verify crypto m start sig_at key (vb2_workbuf_alloc wb digest_size)
        ≡ check_digest crypto m key sig_at wb.buf
            (hash_data crypto key.hash_alg (load_bytes (signature_at m sig_at).data_size m start))
            (vb2_workbuf_alloc wb digest_size).0
  unfolding hash_and_verify hash_in_context
  verify_room wb digest_size r d h =
      let u = wb_round_up_lem sizeof_digest_context (omega arith) in
      let rest : Workbuf = record {
        buf = add64 wb.buf (wb_round_up digest_size);
        size = wb.size - wb_round_up digest_size;
      } in
      let first = alloc-some wb digest_size (omega (arith, h)) in
      let second = alloc-some rest sizeof_digest_context (omega (arith, h, u)) in
      let room : IsRoom rest =
        (alloc_fits wb digest_size r (omega (arith, d)) (omega (arith, h))).rest in
      let freed =
        (vb2_workbuf_free-alloc rest sizeof_digest_context rest.buf 0 room (omega arith)
          (ap (λ a. a.1) second)).0 in
      ap (hash_and_verify crypto m start sig_at key) first
      ∙ ap (hash_in_context crypto m start sig_at key wb.buf) second
      ∙ ap
          (check_digest crypto m key sig_at wb.buf
            (hash_data crypto key.hash_alg (load_bytes (signature_at m sig_at).data_size m start)))
          (ap (λ a. vb2_workbuf_free a.0 sizeof_digest_context) (sym second)
            ∙ freed
            ∙ sym (ap (λ a. a.0) first))

  verify_full :
      (wb : Workbuf) (digest_size : ℕ)
      → digest_size ≤ 64
      → wb.size < wb_round_up digest_size + sizeof_digest_context
      → 0 < (hash_and_verify crypto m start sig_at key (vb2_workbuf_alloc wb digest_size)).1
  unfolding hash_and_verify hash_in_context
  verify_full wb digest_size d h = elim (Bool-cases (ltb wb.size (wb_round_up digest_size))) [
    | inl full ↦ rw (alloc-none wb digest_size (ground arith)) (ground arith)
    | inr fits ↦
        let rest : Workbuf = record {
          buf = add64 wb.buf (wb_round_up digest_size);
          size = wb.size - wb_round_up digest_size;
        } in
        let u = wb_round_up_lem sizeof_digest_context (omega arith) in
        subst (λ r. 0 < (hash_and_verify crypto m start sig_at key r).1)
          (sym (alloc-some wb digest_size (ground arith)))
          (subst (λ r. 0 < (hash_in_context crypto m start sig_at key wb.buf r).1)
            (sym (alloc-none rest sizeof_digest_context (omega (arith, h, u)))) (omega arith))
  ]

-- The part before the digest is allocated.
verify_data_iff :
    {Digest : Type 0} (crypto : Crypto Digest) (m : Memory) (start size sig_at : ℕ)
    (key : PublicKey) (wb : Workbuf)
    → ((vb2_verify_data crypto m start size sig_at key wb).1 ≡ vb2_success)
      ↔ ((signature_at m sig_at).data_size ≤ size)
        × (0 < vb2_digest_size key.hash_alg)
        × ((hash_and_verify crypto m start sig_at key
              (vb2_workbuf_alloc wb (vb2_digest_size key.hash_alg))).1
            ≡ vb2_success)
unfolding vb2_verify_data
verify_data_iff crypto m start size sig_at key wb =
    (λ h. (ground arith, ground arith, ground arith), λ h. ground arith)

-- The signature check after hashing.
check_digest_iff :
    {Digest : Type 0} (crypto : Crypto Digest) (m : Memory) (key : PublicKey) (sig_at digest_at : ℕ)
    (hashed : List ℕ × ℕ) (wb : Workbuf)
    → ((check_digest crypto m key sig_at digest_at hashed wb).1 ≡ vb2_success)
      ↔ (hashed.1 ≡ vb2_success)
        × ((signature_at (store_bytes m digest_at hashed.0) sig_at).sig_size
            ≡ vb2_rsa_sig_size key.sig_alg)
        × ((crypto.rsa_verify_digest
              (store_bytes m digest_at hashed.0)
              key
              (add64 sig_at (signature_at (store_bytes m digest_at hashed.0) sig_at).sig_offset)
              hashed.0
              wb).1
            ≡ vb2_success)
unfolding check_digest vb2_verify_digest
check_digest_iff crypto m key sig_at digest_at hashed wb =
    (λ h. (ground arith, ground arith, ground arith), λ h. ground arith)

-- vb2_verify_data succeeds exactly for a signature of the data. IsSigned says it: at most `size`
-- bytes are signed, the hash is known, the buffer has room for digest and hash context, hashing
-- works, and with the digest stored, the signature has its algorithm's size and RSA verification
-- accepts it for that digest.
pub vb2_verify_data_iff :
    {Digest : Type 0} (crypto : Crypto Digest) (m : Memory) (start size sig_at : ℕ)
    (key : PublicKey) (wb : Workbuf)
    → IsRoom wb
    → ((vb2_verify_data crypto m start size sig_at key wb).1 ≡ vb2_success)
      ↔ IsSigned crypto m start size sig_at key wb
vb2_verify_data_iff crypto m start size sig_at key wb r = (sound, complete)
  where
    room_or :
        (vb2_verify_data crypto m start size sig_at key wb).1 ≡ vb2_success
        → wb_round_up (vb2_digest_size key.hash_alg) + sizeof_digest_context ≤ wb.size
    room_or h =
        let (a, b, c) = (verify_data_iff crypto m start size sig_at key wb).0 h in
        let full =
          verify_full crypto m start sig_at key wb (vb2_digest_size key.hash_alg)
            (digest_size-le key.hash_alg) in
        elim (Bool-cases
          (ltb wb.size (wb_round_up (vb2_digest_size key.hash_alg) + sizeof_digest_context))) [
            | inl e ↦ absurd (omega (arith, c, full (ground arith)))
            | inr e ↦ ground arith
          ]

    sound :
        (vb2_verify_data crypto m start size sig_at key wb).1 ≡ vb2_success
        → IsSigned crypto m start size sig_at key wb
    sound h =
        let (a, b, c) = (verify_data_iff crypto m start size sig_at key wb).0 h in
        let room = room_or h in
        let e =
          verify_room crypto m start sig_at key wb (vb2_digest_size key.hash_alg) r
            (digest_size-le key.hash_alg) room in
        let (hashed, sig_size, accepted) =
          (check_digest_iff crypto m key sig_at wb.buf
              (hash_data crypto key.hash_alg (load_bytes (signature_at m sig_at).data_size m start))
              (vb2_workbuf_alloc wb (vb2_digest_size key.hash_alg)).0).0
            (sym (ap (λ x. x.1) e) ∙ c) in
        record {
          covered = a;
          known = b;
          room = room;
          hashed = hashed;
          sig_size = sig_size;
          accepted = accepted;
        }

    complete :
        IsSigned crypto m start size sig_at key wb
        → (vb2_verify_data crypto m start size sig_at key wb).1 ≡ vb2_success
    complete i =
        let e =
          verify_room crypto m start sig_at key wb (vb2_digest_size key.hash_alg) r
            (digest_size-le key.hash_alg) i.room in
        (verify_data_iff crypto m start size sig_at key wb).1 (
          i.covered,
          i.known,
          ap (λ x. x.1) e
              ∙ (check_digest_iff crypto m key sig_at wb.buf
                    (hash_data crypto key.hash_alg
                      (load_bytes (signature_at m sig_at).data_size m start))
                    (vb2_workbuf_alloc wb (vb2_digest_size key.hash_alg)).0).1
                  (i.hashed, i.sig_size, i.accepted),
        )
