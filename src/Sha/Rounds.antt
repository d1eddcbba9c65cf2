-- ===== src/Sha/Rounds.antt =====
-- firmware/2lib/2sha256.c and 2sha512.c: the macros, the rounds, and the functions of the two files.
pub mod Sizes
pub mod Reference
use cbmc_vboot.Prelude.{
  ℕ, zero, suc, ◌+◌, ◌-◌, ◌*◌, ◌/◌, ◌%◌, ◌^◌, bit_and, bit_or, bit_xor, List, [], ◌∷◌, ◌++◌, get_or,
  reverse, replicate,
}
use cbmc_vboot.Sha.Constants.{sha256_h0, sha256_k, sha512_h0, sha512_k}
use cbmc_vboot.Sha.Blocks.{BlockContext, update, finalize}

-- ROTR, CH and MAJ on words of `bits` bits.
abbrev rotr : (bits x n : ℕ) → ℕ
rotr bits x n = bit_or (x / 2 ^ n) (x * 2 ^ (bits - n) % 2 ^ bits)

abbrev ch : (bits x y z : ℕ) → ℕ
ch bits x y z = bit_xor (bit_and x y) (bit_and (2 ^ bits - 1 - x) z)

abbrev maj : (x y z : ℕ) → ℕ
maj x y z = bit_xor (bit_xor (bit_and x y) (bit_and x z)) (bit_and y z)

-- The width of the words, and the four functions F1 to F4.
pub record Words : Type 0 where
  pub bits : ℕ
  pub f1 : ℕ → ℕ
  pub f2 : ℕ → ℕ
  pub f3 : ℕ → ℕ
  pub f4 : ℕ → ℕ

abbrev pub sha256_words : Words
sha256_words = record {
  bits = 32;
  f1 = λ x. bit_xor (bit_xor (rotr 32 x 2) (rotr 32 x 13)) (rotr 32 x 22);
  f2 = λ x. bit_xor (bit_xor (rotr 32 x 6) (rotr 32 x 11)) (rotr 32 x 25);
  f3 = λ x. bit_xor (bit_xor (rotr 32 x 7) (rotr 32 x 18)) (x / 2 ^ 3);
  f4 = λ x. bit_xor (bit_xor (rotr 32 x 17) (rotr 32 x 19)) (x / 2 ^ 10);
}

abbrev pub sha512_words : Words
sha512_words = record {
  bits = 64;
  f1 = λ x. bit_xor (bit_xor (rotr 64 x 28) (rotr 64 x 34)) (rotr 64 x 39);
  f2 = λ x. bit_xor (bit_xor (rotr 64 x 14) (rotr 64 x 18)) (rotr 64 x 41);
  f3 = λ x. bit_xor (bit_xor (rotr 64 x 1) (rotr 64 x 8)) (x / 2 ^ 7);
  f4 = λ x. bit_xor (bit_xor (rotr 64 x 19) (rotr 64 x 61)) (x / 2 ^ 6);
}

-- PACK32 for each word of a block.
abbrev pub pack32 : List ℕ → List ℕ
pack32 (b3 ∷ b2 ∷ b1 ∷ b0 ∷ bs) = (b0 + b1 * 2 ^ 8 + b2 * 2 ^ 16 + b3 * 2 ^ 24) ∷ pack32 bs
pack32 _ = []

-- PACK64 for each word of a block.
abbrev pub pack64 : List ℕ → List ℕ
pack64 (b7 ∷ b6 ∷ b5 ∷ b4 ∷ b3 ∷ b2 ∷ b1 ∷ b0 ∷ bs) =
    (b0
      + b1 * 2 ^ 8
      + b2 * 2 ^ 16
      + b3 * 2 ^ 24
      + b4 * 2 ^ 32
      + b5 * 2 ^ 40
      + b6 * 2 ^ 48
      + b7 * 2 ^ 56)
    ∷ pack64 bs
pack64 _ = []

module _ (words : Words) where
  -- w[16] to the end, with the words so far from the last one back.
  unfoldable pub schedule : ℕ → List ℕ → List ℕ
  schedule zero w = w
  schedule (suc rounds) w =
      let next =
        (words.f4 (get_or w 1 0) + get_or w 6 0 + words.f3 (get_or w 14 0) + get_or w 15 0)
        % 2 ^ words.bits in
      schedule rounds (next ∷ w)

  -- One round on wv.
  unfoldable pub round : (k w : ℕ) → List ℕ → List ℕ
  round k w (a ∷ b ∷ c ∷ d ∷ e ∷ f ∷ g ∷ h ∷ []) =
      let t1 = (h + words.f2 e + ch words.bits e f g + k + w) % 2 ^ words.bits in
      let t2 = (words.f1 a + maj a b c) % 2 ^ words.bits in
      (t1 + t2) % 2 ^ words.bits ∷ a ∷ b ∷ c ∷ (d + t1) % 2 ^ words.bits ∷ e ∷ f ∷ g ∷ []
  round k w wv = wv

  unfoldable pub run_rounds : (k w wv : List ℕ) → List ℕ
  unfolding round
  run_rounds (k ∷ ks) (w ∷ ws) wv = run_rounds ks ws (round k w wv)
  run_rounds _ _ wv = wv

  -- ctx->h[j] += wv[j]
  abbrev pub add_words : (h wv : List ℕ) → List ℕ
  add_words (x ∷ h) (y ∷ wv) = (x + y) % 2 ^ words.bits ∷ add_words h wv
  add_words _ _ = []

  -- The body of the transform function's loop, with the first 16 words of w.
  unfoldable pub compress_words : (extra : ℕ) → (k h w : List ℕ) → List ℕ
  unfolding schedule run_rounds
  compress_words extra k h w = add_words h (run_rounds k (reverse (schedule extra (reverse w))) h)

unfoldable pub sha256_compress : (h sub_block : List ℕ) → List ℕ
unfolding compress_words
sha256_compress h sub_block = compress_words sha256_words 48 sha256_k h (pack32 sub_block)

unfoldable pub sha512_compress : (h sub_block : List ℕ) → List ℕ
unfolding compress_words
sha512_compress h sub_block = compress_words sha512_words 64 sha512_k h (pack64 sub_block)

-- What the struct's block holds before, the functions do not read.
unfoldable pub vb2_sha256_init : BlockContext
vb2_sha256_init = record { h = sha256_h0; total_size = 0; size = 0; block = replicate 128 0 }

unfoldable pub vb2_sha256_update : BlockContext → List ℕ → BlockContext
unfolding update
vb2_sha256_update ctx data_bytes = update 64 8 sha256_compress ctx data_bytes

-- UNPACK32 and UNPACK64 for each word.
abbrev pub unpack_words32 : List ℕ → List ℕ
unpack_words32 [] = []
unpack_words32 (x ∷ h) =
    x / 2 ^ 24 % 2 ^ 8 ∷ x / 2 ^ 16 % 2 ^ 8 ∷ x / 2 ^ 8 % 2 ^ 8 ∷ x % 2 ^ 8 ∷ unpack_words32 h

abbrev pub unpack_words64 : List ℕ → List ℕ
unpack_words64 [] = []
unpack_words64 (x ∷ h) =
    x / 2 ^ 56 % 2 ^ 8
    ∷ x / 2 ^ 48 % 2 ^ 8
    ∷ x / 2 ^ 40 % 2 ^ 8
    ∷ x / 2 ^ 32 % 2 ^ 8
    ∷ x / 2 ^ 24 % 2 ^ 8
    ∷ x / 2 ^ 16 % 2 ^ 8
    ∷ x / 2 ^ 8 % 2 ^ 8
    ∷ x % 2 ^ 8
    ∷ unpack_words64 h

unfoldable pub vb2_sha256_finalize : BlockContext → List ℕ
unfolding finalize
vb2_sha256_finalize ctx = unpack_words32 (finalize 64 8 sha256_compress ctx)

unfoldable pub vb2_sha512_init : BlockContext
vb2_sha512_init = record { h = sha512_h0; total_size = 0; size = 0; block = replicate 256 0 }

unfoldable pub vb2_sha512_update : BlockContext → List ℕ → BlockContext
unfolding update
vb2_sha512_update ctx data_bytes = update 128 16 sha512_compress ctx data_bytes

unfoldable pub vb2_sha512_finalize : BlockContext → List ℕ
unfolding finalize
vb2_sha512_finalize ctx = unpack_words64 (finalize 128 16 sha512_compress ctx)
