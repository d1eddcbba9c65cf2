-- ===== src/Sha/Sha1.antt =====
-- firmware/2lib/2sha1.c, the version for any byte order.
pub mod Sizes
pub mod Streams
pub mod Zeros
use cbmc_vboot.Prelude.{
  ℕ, zero, suc, ◌+◌, ◌-◌, ◌*◌, ◌/◌, ◌%◌, ◌^◌, bit_and, bit_or, bit_xor, List, [], ◌∷◌, ◌++◌, get_or,
  length, set, reverse, replicate, ltb, ◌==◌, if◌then◌else◌,
}
use cbmc_vboot.Common.{add32}
use cbmc_vboot.Sha.Rounds.{pack32, unpack_words32}

-- struct vb2_sha1_context
pub record Sha1Context : Type 0 where
  pub count : ℕ
  pub state : List ℕ
  pub buf : List ℕ

abbrev pub rol : (bits value : ℕ) → ℕ
rol bits value = bit_or (value * 2 ^ bits % 2 ^ 32) (value / 2 ^ (32 - bits))

-- W[16] to W[79], with the words so far from the last one back.
unfoldable pub sha1_schedule : ℕ → List ℕ → List ℕ
sha1_schedule zero w = w
sha1_schedule (suc rounds) w =
    let mixed =
      bit_xor (bit_xor (bit_xor (get_or w 2 0) (get_or w 7 0)) (get_or w 13 0)) (get_or w 15 0) in
    sha1_schedule rounds (rol 1 mixed ∷ w)

-- What lines 218-225 add in round t.
abbrev pub sha1_mix : (t b c d : ℕ) → ℕ
sha1_mix t b c d =
    if ltb t 20
    then bit_xor d (bit_and b (bit_xor c d)) + 0x5A827999
    else if ltb t 40
    then bit_xor (bit_xor b c) d + 0x6ED9EBA1
    else if ltb t 60
    then bit_or (bit_and b c) (bit_and d (bit_or b c)) + 0x8F1BBCDC
    else bit_xor (bit_xor b c) d + 0xCA62C1D6

-- The rounds from t on.
unfoldable pub sha1_rounds : (t : ℕ) → (w state : List ℕ) → List ℕ
sha1_rounds t (w ∷ ws) (a ∷ b ∷ c ∷ d ∷ e ∷ []) =
    sha1_rounds (t + 1) ws
      ((rol 5 a + e + w + sha1_mix t b c d) % 2 ^ 32 ∷ a ∷ rol 30 b ∷ c ∷ d ∷ [])
sha1_rounds t _ state = state

abbrev pub sha1_add : (state sums : List ℕ) → List ℕ
sha1_add (x ∷ state) (y ∷ sums) = (x + y) % 2 ^ 32 ∷ sha1_add state sums
sha1_add _ _ = []

unfoldable pub sha1_transform : Sha1Context → Sha1Context
unfolding sha1_schedule sha1_rounds
sha1_transform ctx =
    let w = reverse (sha1_schedule 64 (reverse (pack32 ctx.buf))) in
    record ctx { state = sha1_add ctx.state (sha1_rounds 0 w ctx.state) }

-- A round of the loop over the data, and the position i after it.
unfoldable pub sha1_byte : Sha1Context → (i b : ℕ) → Sha1Context
unfolding sha1_transform
sha1_byte ctx i b =
    let stored = record ctx { buf = set ctx.buf i b } in
    if i + 1 == 64 then sha1_transform stored else stored

abbrev pub next_position : ℕ → ℕ
next_position i = if i + 1 == 64 then 0 else i + 1

-- The loop over the data, with the position i in the buffer.
unfoldable pub sha1_bytes : Sha1Context → (i : ℕ) → List ℕ → Sha1Context
sha1_bytes ctx i [] = ctx
sha1_bytes ctx i (b ∷ bs) = sha1_bytes (sha1_byte ctx i b) (next_position i) bs

unfoldable pub vb2_sha1_update : Sha1Context → List ℕ → Sha1Context
unfolding sha1_bytes sha1_byte
vb2_sha1_update ctx data_bytes =
    sha1_bytes (record ctx { count = add32 ctx.count (length data_bytes) }) (ctx.count % 64)
      data_bytes

-- The loop that appends zero bytes, at most `fuel` of them. The count rises by one in each round
-- modulo 2 ^ 32, which 64 divides, so 63 rounds are enough.
unfoldable pub sha1_zeros : (fuel : ℕ) → Sha1Context → Sha1Context
unfolding vb2_sha1_update
sha1_zeros zero ctx = ctx
sha1_zeros (suc fuel) ctx =
    let rest = sha1_zeros fuel (vb2_sha1_update ctx (0 ∷ [])) in
    if ctx.count % 64 == 64 - 8 then ctx else rest

-- The eight calls that append one byte of the size each are one call here.
unfoldable pub vb2_sha1_finalize : Sha1Context → List ℕ
unfolding vb2_sha1_update sha1_zeros
vb2_sha1_finalize ctx =
    let cnt = ctx.count * 8 % 2 ^ 32 in
    let padded = sha1_zeros 63 (vb2_sha1_update ctx (0x80 ∷ [])) in
    let size = 0 ∷ 0 ∷ 0 ∷ 0 ∷ unpack_words32 (cnt ∷ []) in
    unpack_words32 (vb2_sha1_update padded size).state

unfoldable pub vb2_sha1_init : Sha1Context
vb2_sha1_init = record {
  count = 0;
  state = 0x67452301 ∷ 0xefcdab89 ∷ 0x98badcfe ∷ 0x10325476 ∷ 0xc3d2e1f0 ∷ [];
  buf = replicate 64 0;
}
