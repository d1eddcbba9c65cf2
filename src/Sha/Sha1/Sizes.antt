-- ===== src/Sha/Sha1/Sizes.antt =====
-- firmware/2lib/2sha1.c: the sizes of the state and of what is written.
use cbmc_vboot.Prelude.{
  ℕ, zero, suc, ◌+◌, ◌*◌, ◌%◌, ◌^◌, ◌≡◌, inl, inr, refl, ap, sym, ◌∙◌, arith, ◌==◌, Bool-cases,
  List, [], ◌∷◌, length, reverse, set,
}
use cbmc_vboot.Common.{add32}
use cbmc_vboot.Sha.Sha1.{
  Sha1Context, rol, sha1_mix, sha1_add, sha1_schedule, sha1_rounds, sha1_transform, sha1_byte,
  next_position, sha1_bytes, vb2_sha1_update, sha1_zeros, vb2_sha1_finalize,
}
use cbmc_vboot.Sha.Rounds.{pack32, unpack_words32}
use cbmc_vboot.Sha.Rounds.Sizes.{length-unpack_words32}

length-sha1_rounds : (t : ℕ) (w state : List ℕ) → length (sha1_rounds t w state) ≡ length state
unfolding sha1_rounds
length-sha1_rounds t [] state = refl
length-sha1_rounds t (w ∷ ws) [] = refl
length-sha1_rounds t (w ∷ ws) (a ∷ []) = refl
length-sha1_rounds t (w ∷ ws) (a ∷ b ∷ []) = refl
length-sha1_rounds t (w ∷ ws) (a ∷ b ∷ c ∷ []) = refl
length-sha1_rounds t (w ∷ ws) (a ∷ b ∷ c ∷ d ∷ []) = refl
length-sha1_rounds t (w ∷ ws) (a ∷ b ∷ c ∷ d ∷ e ∷ []) =
    length-sha1_rounds (t + 1) ws
      ((rol 5 a + e + w + sha1_mix t b c d) % 2 ^ 32 ∷ a ∷ rol 30 b ∷ c ∷ d ∷ [])
length-sha1_rounds t (w ∷ ws) (a ∷ b ∷ c ∷ d ∷ e ∷ f ∷ state) = refl

length-sha1_add :
    (state sums : List ℕ) → length state ≡ length sums → length (sha1_add state sums) ≡ length state
length-sha1_add [] sums e = refl
length-sha1_add (x ∷ state) [] e = absurd (omega (arith, e))
length-sha1_add (x ∷ state) (y ∷ sums) e = ap suc (length-sha1_add state sums (omega (arith, e)))

length-sha1_transform : (ctx : Sha1Context) → length (sha1_transform ctx).state ≡ length ctx.state
unfolding sha1_transform
length-sha1_transform ctx =
    let w = reverse (sha1_schedule 64 (reverse (pack32 ctx.buf))) in
    length-sha1_add ctx.state (sha1_rounds 0 w ctx.state) (sym (length-sha1_rounds 0 w ctx.state))

length-sha1_byte :
    (ctx : Sha1Context) (i b : ℕ) → length (sha1_byte ctx i b).state ≡ length ctx.state
unfolding sha1_byte
length-sha1_byte ctx i b = elim (Bool-cases (i + 1 == 64)) [
  | inl full ↦ rw full (length-sha1_transform (record ctx { buf = set ctx.buf i b }))
  | inr part ↦ rw part refl
]

length-sha1_bytes :
    (ctx : Sha1Context) (i : ℕ) (bytes : List ℕ)
    → length (sha1_bytes ctx i bytes).state ≡ length ctx.state
unfolding sha1_bytes
length-sha1_bytes ctx i [] = refl
length-sha1_bytes ctx i (b ∷ bytes) =
    length-sha1_bytes (sha1_byte ctx i b) (next_position i) bytes ∙ length-sha1_byte ctx i b

pub length-sha1_update :
    (ctx : Sha1Context) (bytes : List ℕ)
    → length (vb2_sha1_update ctx bytes).state ≡ length ctx.state
unfolding vb2_sha1_update
length-sha1_update ctx bytes =
    length-sha1_bytes (record ctx { count = add32 ctx.count (length bytes) }) (ctx.count % 64) bytes

length-sha1_zeros :
    (fuel : ℕ) (ctx : Sha1Context) → length (sha1_zeros fuel ctx).state ≡ length ctx.state
unfolding sha1_zeros
length-sha1_zeros zero ctx = refl
length-sha1_zeros (suc fuel) ctx = elim (Bool-cases (ctx.count % 64 == 56)) [
  | inl done ↦ rw done refl
  | inr more ↦
      rw more
        (length-sha1_zeros fuel (vb2_sha1_update ctx (0 ∷ [])) ∙ length-sha1_update ctx (0 ∷ []))
]

pub length-sha1_finalize :
    (ctx : Sha1Context) → length (vb2_sha1_finalize ctx) ≡ 4 * length ctx.state
unfolding vb2_sha1_finalize
length-sha1_finalize ctx =
    let cnt = ctx.count * 8 % 2 ^ 32 in
    let marked = vb2_sha1_update ctx (0x80 ∷ []) in
    let padded = sha1_zeros 63 marked in
    let size = 0 ∷ 0 ∷ 0 ∷ 0 ∷ unpack_words32 (cnt ∷ []) in
    length-unpack_words32 (vb2_sha1_update padded size).state
    ∙ ap (λ k. 4 * k)
        (length-sha1_update padded size
          ∙ length-sha1_zeros 63 marked
          ∙ length-sha1_update ctx (0x80 ∷ []))
