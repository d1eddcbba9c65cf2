-- ===== src/Sha/Sha1/Zeros.antt =====
-- firmware/2lib/2sha1.c: the loop of vb2_sha1_finalize that appends zero bytes ends.
use cbmc_vboot.Prelude.{
  ℕ, zero, suc, ◌+◌, ◌-◌, ◌%◌, ◌^◌, ◌≤◌, ◌≡◌, inl, inr, refl, ap, sym, ◌∙◌, arith, true, false,
  ◌==◌, Bool-cases, [], ◌∷◌,
}
use cbmc_vboot.Sha.Sha1.{Sha1Context, vb2_sha1_update, sha1_zeros}
use cbmc_vboot.Sha.Sha1.Streams.{sha1_update-count}

-- The zero bytes that are missing.
abbrev missing : Sha1Context → ℕ
missing ctx = (120 - ctx.count % 64) % 64

next_missing :
    (ctx : Sha1Context) (fuel : ℕ)
    → (ctx.count % 64 == 56) ≡ false
    → missing ctx ≤ suc fuel
    → missing (vb2_sha1_update ctx (0 ∷ [])) ≤ fuel
next_missing ctx fuel more h =
    let count : (vb2_sha1_update ctx (0 ∷ [])).count ≡ (ctx.count + 1) % 2 ^ 32 =
      sha1_update-count ctx (0 ∷ []) in
    let other : ¬ (ctx.count % 64 ≡ 56) = ground (arith, more) in rw count (omega (arith, other, h))

reaches :
    (fuel : ℕ) (ctx : Sha1Context) → missing ctx ≤ fuel → (sha1_zeros fuel ctx).count % 64 ≡ 56
unfolding sha1_zeros
reaches zero ctx h = omega (arith, h)
reaches (suc fuel) ctx h = elim (Bool-cases (ctx.count % 64 == 56)) [
  | inl done ↦ rw done (ground (arith, done))
  | inr more ↦ rw more (reaches fuel (vb2_sha1_update ctx (0 ∷ [])) (next_missing ctx fuel more h))
]

stays : (fuel : ℕ) (ctx : Sha1Context) → (ctx.count % 64 == 56) ≡ true → sha1_zeros fuel ctx ≡ ctx
unfolding sha1_zeros
stays zero ctx done = refl
stays (suc fuel) ctx done = rw done refl

settles :
    (fuel extra : ℕ) (ctx : Sha1Context)
    → missing ctx ≤ fuel
    → sha1_zeros (fuel + extra) ctx ≡ sha1_zeros fuel ctx
unfolding sha1_zeros
settles zero extra ctx h = elim (Bool-cases (ctx.count % 64 == 56)) [
  | inl done ↦ stays (0 + extra) ctx done
  | inr more ↦ absurd (ground (arith, more, h))
]
settles (suc fuel) extra ctx h = elim (Bool-cases (ctx.count % 64 == 56)) [
  | inl done ↦ stays (suc fuel + extra) ctx done ∙ sym (stays (suc fuel) ctx done)
  | inr more ↦
      let next = vb2_sha1_update ctx (0 ∷ []) in
      let longer : suc fuel + extra ≡ suc (fuel + extra) = omega arith in
      let step : sha1_zeros (suc (fuel + extra)) ctx ≡ sha1_zeros (suc fuel) ctx =
        rw more (settles fuel extra next (next_missing ctx fuel more h)) in
      ap (λ k. sha1_zeros k ctx) longer ∙ step
]

-- From any context the loop that appends zero bytes ends within 63 rounds: after them 56 bytes of the
-- block are in use, which is the condition of the loop's end, and more rounds change nothing.
pub sha1_zeros_end :
    (ctx : Sha1Context) (extra : ℕ)
    → ((sha1_zeros 63 ctx).count % 64 ≡ 56) × (sha1_zeros (63 + extra) ctx ≡ sha1_zeros 63 ctx)
sha1_zeros_end ctx extra = (reaches 63 ctx (omega arith), settles 63 extra ctx (omega arith))
