-- ===== src/Sha/Digest/Streams.antt =====
-- firmware/2lib/2sha_utility.c: a digest does not depend on how the data are cut.
use cbmc_vboot.Prelude.{
  ℕ, ◌^◌, ◌<◌, ◌≡◌, inl, inr, refl, ap, ap₂, sym, subst, ◌∙◌, arith, ltb, ◌==◌, Bool-cases,
  if◌then◌else◌, List, [], ◌∷◌, length,
}
use cbmc_vboot.Context.{vb2_success}
use cbmc_vboot.Keys.Unpack.{hash_sha1, hash_sha256, hash_sha512, vb2_digest_size}
use cbmc_vboot.Sha.Sha1.{vb2_sha1_update, vb2_sha1_init}
use cbmc_vboot.Sha.Sha1.Streams.{sha1_from_start}
use cbmc_vboot.Sha.Blocks.Lists.{concat}
use cbmc_vboot.Sha.Rounds.{vb2_sha256_init, vb2_sha256_update, vb2_sha512_init, vb2_sha512_update}
use cbmc_vboot.Sha.Rounds.Reference.{update_all, sha256_lem, sha512_lem, sha256_once, sha512_once}
use cbmc_vboot.Sha.Digest.{
  DigestState, sha1, sha256, sha512, vb2_digest_init, vb2_digest_extend, vb2_digest_finalize,
  write_digest, vb2_digest_buffer, hash_alg_of, error_sha_finalize_digest_size,
}

-- One call of vb2_digest_extend for each piece.
unfoldable pub extend_all : DigestState → List (List ℕ) → DigestState
extend_all dc xs = update_all (λ d x. (vb2_digest_extend d x).0) dc xs

lift_all :
    {A : Type 0} (wrap : A → DigestState) (step : A → List ℕ → A)
    → ((ctx : A) (x : List ℕ) → (vb2_digest_extend (wrap ctx) x).0 ≡ wrap (step ctx x))
    → (ctx : A) (xs : List (List ℕ)) → extend_all (wrap ctx) xs ≡ wrap (update_all step ctx xs)
unfolding update_all extend_all
lift_all wrap step h ctx [] = refl
lift_all wrap step h ctx (x ∷ xs) =
    ap (λ d. extend_all d xs) (h ctx x) ∙ lift_all wrap step h (step ctx x) xs

finalize_eq :
    (d e : DigestState) (size : ℕ)
    → hash_alg_of d ≡ hash_alg_of e
    → write_digest d ≡ write_digest e
    → vb2_digest_finalize d size ≡ vb2_digest_finalize e size
unfolding vb2_digest_finalize
finalize_eq d e size h k =
    ap₂
      (λ (a : ℕ) (w : List ℕ × ℕ).
        if ltb size (vb2_digest_size a) then ([], error_sha_finalize_digest_size) else w)
      h k

abbrev streamed : List (List ℕ) → (hash_alg size : ℕ) → List ℕ × ℕ
streamed xs hash_alg size = vb2_digest_finalize (extend_all (vb2_digest_init hash_alg).0 xs) size

streamed_sha1 :
    (xs : List (List ℕ)) (size : ℕ)
    → streamed xs hash_sha1 size ≡ vb2_digest_buffer (concat xs) hash_sha1 size
streamed_sha1 xs size =
    let run : extend_all (vb2_digest_init hash_sha1).0 xs
        ≡ sha1 (update_all vb2_sha1_update vb2_sha1_init xs) =
      unfold vb2_digest_init in
      lift_all sha1 vb2_sha1_update (λ ctx x. unfold vb2_digest_extend in refl) vb2_sha1_init xs in
    let whole : vb2_digest_buffer (concat xs) hash_sha1 size
        ≡ vb2_digest_finalize (sha1 (vb2_sha1_update vb2_sha1_init (concat xs))) size =
      unfold vb2_digest_buffer vb2_digest_init vb2_digest_extend in refl in
    ap (λ d. vb2_digest_finalize d size) (run ∙ ap sha1 (sha1_from_start xs)) ∙ sym whole

streamed_sha256 :
    (xs : List (List ℕ)) (size : ℕ)
    → length (concat xs) < 2 ^ 29
    → streamed xs hash_sha256 size ≡ vb2_digest_buffer (concat xs) hash_sha256 size
streamed_sha256 xs size bound =
    let all = concat xs in
    let run : extend_all (vb2_digest_init hash_sha256).0 xs
        ≡ sha256 (update_all vb2_sha256_update vb2_sha256_init xs) =
      unfold vb2_digest_init in
      lift_all sha256 vb2_sha256_update (λ ctx x. unfold vb2_digest_extend in refl) vb2_sha256_init
        xs in
    let whole : vb2_digest_buffer all hash_sha256 size
        ≡ vb2_digest_finalize (sha256 (vb2_sha256_update vb2_sha256_init all)) size =
      unfold vb2_digest_buffer vb2_digest_init vb2_digest_extend in refl in
    ap (λ d. vb2_digest_finalize d size) run
    ∙ finalize_eq (sha256 (update_all vb2_sha256_update vb2_sha256_init xs))
        (sha256 (vb2_sha256_update vb2_sha256_init all)) size refl
        (unfold write_digest in
          ap (λ m. (m, vb2_success)) (sha256_lem xs bound ∙ sym (sha256_once all bound)))
    ∙ sym whole

streamed_sha512 :
    (xs : List (List ℕ)) (size : ℕ)
    → length (concat xs) < 2 ^ 29
    → streamed xs hash_sha512 size ≡ vb2_digest_buffer (concat xs) hash_sha512 size
streamed_sha512 xs size bound =
    let all = concat xs in
    let run : extend_all (vb2_digest_init hash_sha512).0 xs
        ≡ sha512 (update_all vb2_sha512_update vb2_sha512_init xs) =
      unfold vb2_digest_init in
      lift_all sha512 vb2_sha512_update (λ ctx x. unfold vb2_digest_extend in refl) vb2_sha512_init
        xs in
    let whole : vb2_digest_buffer all hash_sha512 size
        ≡ vb2_digest_finalize (sha512 (vb2_sha512_update vb2_sha512_init all)) size =
      unfold vb2_digest_buffer vb2_digest_init vb2_digest_extend in refl in
    ap (λ d. vb2_digest_finalize d size) run
    ∙ finalize_eq (sha512 (update_all vb2_sha512_update vb2_sha512_init xs))
        (sha512 (vb2_sha512_update vb2_sha512_init all)) size refl
        (unfold write_digest in
          ap (λ m. (m, vb2_success)) (sha512_lem xs bound ∙ sym (sha512_once all bound)))
    ∙ sym whole

-- For each of the three algorithms, the digest of fewer than 2 ^ 29 bytes, passed piece by piece, is
-- the one that vb2_digest_buffer gives for all of them.
pub vb2_digest_buffer_lem :
    (xs : List (List ℕ)) (hash_alg size : ℕ)
    → 0 < vb2_digest_size hash_alg
    → length (concat xs) < 2 ^ 29
    → vb2_digest_finalize (extend_all (vb2_digest_init hash_alg).0 xs) size
      ≡ vb2_digest_buffer (concat xs) hash_alg size
unfolding vb2_digest_size
vb2_digest_buffer_lem xs hash_alg size known bound =
    let back : (k : ℕ)
        → k ≡ hash_alg
        → streamed xs k size ≡ vb2_digest_buffer (concat xs) k size
        → streamed xs hash_alg size ≡ vb2_digest_buffer (concat xs) hash_alg size =
      λ k e p. subst (λ a. streamed xs a size ≡ vb2_digest_buffer (concat xs) a size) e p in
    elim (Bool-cases (hash_alg == hash_sha1)) [
      | inl e ↦ back hash_sha1 (ground (arith, e)) (streamed_sha1 xs size)
      | inr n ↦ elim (Bool-cases (hash_alg == hash_sha256)) [
        | inl e ↦ back hash_sha256 (ground (arith, e)) (streamed_sha256 xs size bound)
        | inr n' ↦ elim (Bool-cases (hash_alg == hash_sha512)) [
          | inl e ↦ back hash_sha512 (ground (arith, e)) (streamed_sha512 xs size bound)
          | inr n'' ↦ absurd (ground (arith, known, n, n', n''))
        ]
      ]
    ]
