-- ===== src/Sha/Rounds/Sizes.antt =====
-- firmware/2lib/2sha256.c and 2sha512.c: the sizes of the state and of what is written.
use cbmc_vboot.Prelude.{
  ℕ, zero, suc, ◌*◌, ◌-◌, ◌/◌, ◌≡◌, inl, inr, refl, ap, sym, ◌∙◌, arith, ltb, Bool-cases,
  if◌then◌else◌, List, [], ◌∷◌, length, take, drop, reverse,
}
use cbmc_vboot.Common.{add32}
use cbmc_vboot.Sha.Constants.{sha256_k, sha512_k}
use cbmc_vboot.Sha.Blocks.{
  BlockContext, copy, transform, fill_block, update, finalize, final_blocks, pad_block,
}
use cbmc_vboot.Sha.Rounds.{
  pack32, pack64, Words, sha256_words, sha512_words, schedule, round, run_rounds, add_words,
  compress_words, sha256_compress, sha512_compress, unpack_words32, unpack_words64,
}

length-round : (words : Words) (k w : ℕ) (wv : List ℕ) → length (round words k w wv) ≡ length wv
unfolding round
length-round words k w [] = refl
length-round words k w (a ∷ []) = refl
length-round words k w (a ∷ b ∷ []) = refl
length-round words k w (a ∷ b ∷ c ∷ []) = refl
length-round words k w (a ∷ b ∷ c ∷ d ∷ []) = refl
length-round words k w (a ∷ b ∷ c ∷ d ∷ e ∷ []) = refl
length-round words k w (a ∷ b ∷ c ∷ d ∷ e ∷ f ∷ []) = refl
length-round words k w (a ∷ b ∷ c ∷ d ∷ e ∷ f ∷ g ∷ []) = refl
length-round words k w (a ∷ b ∷ c ∷ d ∷ e ∷ f ∷ g ∷ h ∷ []) = refl
length-round words k w (a ∷ b ∷ c ∷ d ∷ e ∷ f ∷ g ∷ h ∷ i ∷ wv) = refl

length-run_rounds : (words : Words) (k w wv : List ℕ) → length (run_rounds words k w wv) ≡ length wv
unfolding run_rounds
length-run_rounds words [] w wv = refl
length-run_rounds words (k ∷ ks) [] wv = refl
length-run_rounds words (k ∷ ks) (w ∷ ws) wv =
    length-run_rounds words ks ws (round words k w wv) ∙ length-round words k w wv

length-add_words :
    (words : Words) (h wv : List ℕ)
    → length h ≡ length wv
    → length (add_words words h wv) ≡ length h
length-add_words words [] wv e = refl
length-add_words words (x ∷ h) [] e = absurd (omega (arith, e))
length-add_words words (x ∷ h) (y ∷ wv) e = ap suc (length-add_words words h wv (omega (arith, e)))

length-compress_words :
    (words : Words) (extra : ℕ) (k h w : List ℕ)
    → length (compress_words words extra k h w) ≡ length h
unfolding compress_words
length-compress_words words extra k h w =
    let rounds = run_rounds words k (reverse (schedule words extra (reverse w))) h in
    length-add_words words h rounds
      (sym (length-run_rounds words k (reverse (schedule words extra (reverse w))) h))

module _ (block_size field : ℕ) (compress : List ℕ → List ℕ → List ℕ)
    (keeps : (h block : List ℕ) → length (compress h block) ≡ length h) where
  length-transform :
      (block_nb : ℕ) (h message : List ℕ)
      → length (transform block_size field compress block_nb h message) ≡ length h
  unfolding transform
  length-transform zero h message = refl
  length-transform (suc block_nb) h message =
      length-transform block_nb (compress h (take block_size message)) (drop block_size message)
      ∙ keeps h (take block_size message)

  length-fill_block :
      (ctx : BlockContext) (block shifted_data : List ℕ) (new_size : ℕ)
      → length (fill_block block_size field compress ctx block shifted_data new_size).h
        ≡ length ctx.h
  unfolding fill_block
  length-fill_block ctx block shifted_data new_size =
      length-transform (new_size / block_size) (transform block_size field compress 1 ctx.h block)
        shifted_data
      ∙ length-transform 1 ctx.h block

  pub length-update :
      (ctx : BlockContext) (bytes : List ℕ)
      → length (update block_size field compress ctx bytes).h ≡ length ctx.h
  unfolding update
  length-update ctx bytes =
      let size = length bytes in
      let tmp_size = block_size - ctx.size in
      let rem_size = if ltb size tmp_size then size else tmp_size in
      let block = copy ctx.block ctx.size (take rem_size bytes) in
      elim (Bool-cases (ltb (add32 ctx.size size) block_size)) [
        | inl less ↦ rw less refl
        | inr full ↦ rw full (length-fill_block ctx block (drop rem_size bytes) (size - rem_size))
      ]

  pub length-finalize :
      (ctx : BlockContext) → length (finalize block_size field compress ctx) ≡ length ctx.h
  unfolding finalize
  length-finalize ctx =
      let block_nb = final_blocks block_size field compress ctx in
      length-transform block_nb ctx.h
        (pad_block block_size field compress ctx (block_nb * block_size))

pub sha256_keeps : (h block : List ℕ) → length (sha256_compress h block) ≡ length h
unfolding sha256_compress
sha256_keeps h block = length-compress_words sha256_words 48 sha256_k h (pack32 block)

pub sha512_keeps : (h block : List ℕ) → length (sha512_compress h block) ≡ length h
unfolding sha512_compress
sha512_keeps h block = length-compress_words sha512_words 64 sha512_k h (pack64 block)

pub length-unpack_words32 : (ws : List ℕ) → length (unpack_words32 ws) ≡ 4 * length ws
length-unpack_words32 [] = refl
length-unpack_words32 (w ∷ ws) = omega (arith, length-unpack_words32 ws)

pub length-unpack_words64 : (ws : List ℕ) → length (unpack_words64 ws) ≡ 8 * length ws
length-unpack_words64 [] = refl
length-unpack_words64 (w ∷ ws) = omega (arith, length-unpack_words64 ws)
