-- ===== src/Sha/Digest/Sizes.antt =====
-- firmware/2lib/2sha_utility.c: the digest that is written has the size of the algorithm.
use cbmc_vboot.Prelude.{
  ℕ, ◌*◌, ◌≡◌, inl, inr, refl, ap, ◌∙◌, arith, ltb, truthy, ◌==◌, Bool-cases, List, length,
}
use cbmc_vboot.Context.{vb2_success}
use cbmc_vboot.Keys.Unpack.{hash_sha1, hash_sha256, hash_sha512, vb2_digest_size}
use cbmc_vboot.Sha.Blocks.{finalize}
use cbmc_vboot.Sha.Digest.{
  DigestState, sha1, sha256, sha512, unknown, hash_alg_of, vb2_digest_init, vb2_digest_extend,
  vb2_digest_finalize, vb2_digest_buffer, write_digest,
}
use cbmc_vboot.Sha.Sha1.{vb2_sha1_init}
use cbmc_vboot.Sha.Rounds.{
  sha256_compress, sha512_compress, vb2_sha256_init, vb2_sha256_update, vb2_sha256_finalize,
  vb2_sha512_init, vb2_sha512_update, vb2_sha512_finalize,
}
use cbmc_vboot.Sha.Rounds.Sizes.{
  length-update, length-finalize, sha256_keeps, sha512_keeps, length-unpack_words32,
  length-unpack_words64,
}
use cbmc_vboot.Sha.Sha1.Sizes.{length-sha1_update, length-sha1_finalize}

-- The state of the algorithm is whole.
HasWords : DigestState → Type 0
HasWords (sha1 ctx) = length ctx.state ≡ 5
HasWords (sha256 ctx) = length ctx.h ≡ 8
HasWords (sha512 ctx) = length ctx.h ≡ 8
HasWords (unknown hash_alg) = Unit

digest_init-HasWords : (hash_alg : ℕ) → HasWords (vb2_digest_init hash_alg).0
unfolding HasWords vb2_digest_init vb2_sha1_init vb2_sha256_init vb2_sha512_init
digest_init-HasWords hash_alg = elim (Bool-cases (hash_alg == hash_sha1)) [
  | inl e ↦ rw e refl
  | inr n ↦ elim (Bool-cases (hash_alg == hash_sha256)) [
    | inl e ↦ rw n (rw e refl)
    | inr n' ↦ elim (Bool-cases (hash_alg == hash_sha512)) [
      | inl e ↦ rw n (rw n' (rw e refl))
      | inr n'' ↦ rw n (rw n' (rw n'' tt))
    ]
  ]
]

hash_alg_of_init : (hash_alg : ℕ) → hash_alg_of (vb2_digest_init hash_alg).0 ≡ hash_alg
unfolding vb2_digest_init
hash_alg_of_init hash_alg = elim (Bool-cases (hash_alg == hash_sha1)) [
  | inl e ↦ rw e (ground (arith, e))
  | inr n ↦ elim (Bool-cases (hash_alg == hash_sha256)) [
    | inl e ↦ rw n (rw e (ground (arith, e)))
    | inr n' ↦ elim (Bool-cases (hash_alg == hash_sha512)) [
      | inl e ↦ rw n (rw n' (rw e (ground (arith, e))))
      | inr n'' ↦ rw n (rw n' (rw n'' refl))
    ]
  ]
]

digest_extend-HasWords :
    (d : DigestState) (buf : List ℕ)
    → HasWords d
    → HasWords (vb2_digest_extend d buf).0
      × (hash_alg_of (vb2_digest_extend d buf).0 ≡ hash_alg_of d)
unfolding HasWords vb2_digest_extend vb2_sha256_update vb2_sha512_update
digest_extend-HasWords (sha1 ctx) buf h = (length-sha1_update ctx buf ∙ h, refl)
digest_extend-HasWords (sha256 ctx) buf h =
    (length-update 64 8 sha256_compress sha256_keeps ctx buf ∙ h, refl)
digest_extend-HasWords (sha512 ctx) buf h =
    (length-update 128 16 sha512_compress sha512_keeps ctx buf ∙ h, refl)
digest_extend-HasWords (unknown hash_alg) buf h = (tt, refl)

length-write_digest :
    (d : DigestState)
    → HasWords d
    → (write_digest d).1 ≡ vb2_success
    → length (write_digest d).0 ≡ vb2_digest_size (hash_alg_of d)
unfolding HasWords write_digest vb2_digest_size vb2_sha256_finalize vb2_sha512_finalize
length-write_digest (sha1 ctx) h e = length-sha1_finalize ctx ∙ ap (λ k. 4 * k) h
length-write_digest (sha256 ctx) h e =
    length-unpack_words32 (finalize 64 8 sha256_compress ctx)
    ∙ ap (λ k. 4 * k) (length-finalize 64 8 sha256_compress sha256_keeps ctx ∙ h)
length-write_digest (sha512 ctx) h e =
    length-unpack_words64 (finalize 128 16 sha512_compress ctx)
    ∙ ap (λ k. 8 * k) (length-finalize 128 16 sha512_compress sha512_keeps ctx ∙ h)
length-write_digest (unknown hash_alg) h e = absurd (omega (arith, e))

length-digest_finalize :
    (d : DigestState) (size : ℕ)
    → HasWords d
    → (vb2_digest_finalize d size).1 ≡ vb2_success
    → length (vb2_digest_finalize d size).0 ≡ vb2_digest_size (hash_alg_of d)
unfolding vb2_digest_finalize
length-digest_finalize d size h e = elim (Bool-cases (ltb size (vb2_digest_size (hash_alg_of d)))) [
  | inl short ↦ absurd (ground (arith, e, short))
  | inr room ↦ rw room (length-write_digest d h (ground (arith, e, room)))
]

-- A digest that vb2_digest_buffer gives with success has the size of its algorithm.
pub length-digest_buffer :
    (buf : List ℕ) (hash_alg size : ℕ)
    → (vb2_digest_buffer buf hash_alg size).1 ≡ vb2_success
    → length (vb2_digest_buffer buf hash_alg size).0 ≡ vb2_digest_size hash_alg
unfolding vb2_digest_buffer
length-digest_buffer buf hash_alg size e =
    let start = vb2_digest_init hash_alg in
    let extended = vb2_digest_extend start.0 buf in
    let (words, same) = digest_extend-HasWords start.0 buf (digest_init-HasWords hash_alg) in
    elim (Bool-cases (truthy start.1)) [
      | inl bad ↦ absurd (ground (arith, e, bad))
      | inr fine ↦ elim (Bool-cases (truthy extended.1)) [
        | inl bad ↦ absurd (ground (arith, e, fine, bad))
        | inr fine' ↦ rw fine (
            rw fine' (
              length-digest_finalize extended.0 size words (ground (arith, e, fine, fine'))
              ∙ ap vb2_digest_size (same ∙ hash_alg_of_init hash_alg)))
      ]
    ]
