-- ===== src/Sha/Rounds/Reference.antt =====
-- firmware/2lib/2sha256.c and 2sha512.c: however a message is cut, the digest is that of the message
-- padded as a whole.
use cbmc_vboot.Prelude.{
  ℕ, ◌+◌, ◌-◌, ◌*◌, ◌%◌, ◌^◌, ◌≤◌, ◌<◌, ◌≡◌, inl, inr, refl, ap, sym, subst, ◌∙◌, arith, ltb,
  Bool-cases, if◌then◌else◌, List, [], ◌∷◌, ◌++◌, length, length-append,
}
use mathlib.Core.List.{append_assoc, append-nil}
use cbmc_vboot.Sha.Constants.{sha256_h0, sha512_h0}
use cbmc_vboot.Sha.Blocks.{BlockContext, update}
use cbmc_vboot.Sha.Blocks.Lists.{concat, length-concat}
use cbmc_vboot.Sha.Blocks.Represents.{absorb, Represents, update-Represents}
use cbmc_vboot.Sha.Blocks.Padded.{padding, absorb_all, finalize_lem}
use cbmc_vboot.Sha.Rounds.{
  unpack_words32, unpack_words64, sha256_compress, sha512_compress, vb2_sha256_init,
  vb2_sha256_update, vb2_sha256_finalize, vb2_sha512_init, vb2_sha512_update, vb2_sha512_finalize,
}

-- A context is updated with one piece after the other.
unfoldable pub update_all : {A : Type 0} → (A → List ℕ → A) → A → List (List ℕ) → A
update_all step ctx [] = ctx
update_all step ctx (x ∷ xs) = update_all step (step ctx x) xs

module _ (block_size field : ℕ) (compress : List ℕ → List ℕ → List ℕ) (start : List ℕ)
    (pos : 0 < block_size) (small : block_size ≤ 2 ^ 29) where
  update_all-Represents :
      (ctx : BlockContext) (m : List ℕ) (xs : List (List ℕ))
      → Represents block_size field compress start ctx m
      → length m + length (concat xs) < 2 ^ 29
      → Represents block_size field compress start
          (update_all (update block_size field compress) ctx xs)
          (m ++ concat xs)
  unfolding update_all
  update_all-Represents ctx m [] r bound =
      subst (Represents block_size field compress start ctx) (sym (append-nil m)) r
  update_all-Represents ctx m (x ∷ xs) r bound =
      let count = length-append x (concat xs) in
      let next =
        update-Represents block_size field compress start pos small ctx m x r
          (omega (arith, bound, count)) in
      subst
        (Represents block_size field compress start (
          update_all (update block_size field compress) (update block_size field compress ctx x)
            xs))
        (append_assoc m x (concat xs))
        (update_all-Represents (update block_size field compress ctx x) (m ++ x) xs next
          (omega (arith, bound, count, length-append m x)))

-- The zeros that make a message of `bytes` bytes, a byte, and the length field fill whole blocks.
abbrev pub zeros_for : (block_size field bytes : ℕ) → ℕ
zeros_for block_size field bytes = (block_size - (bytes + 1 + field) % block_size) % block_size

-- SHA-256 and SHA-512 of a message of less than 2 ^ 29 bytes: the message is padded and compressed
-- block by block.
unfoldable pub sha256_of : List ℕ → List ℕ
sha256_of m = unpack_words32 (
    absorb_all 64 sha256_compress sha256_h0 (m ++ padding (zeros_for 64 8 (length m)) 4 (length m)))

unfoldable pub sha512_of : List ℕ → List ℕ
sha512_of m = unpack_words64 (
    absorb_all 128 sha512_compress sha512_h0
      (m ++ padding (zeros_for 128 16 (length m)) 12 (length m)))

sha256_start : Represents 64 8 sha256_compress sha256_h0 vb2_sha256_init []
unfolding vb2_sha256_init absorb
sha256_start = record {
  blocks = [];
  rest = [];
  whole = refl;
  sizes = tt;
  absorbed = refl;
  size = refl;
  less = omega arith;
  kept = refl;
  total = refl;
  room = refl;
}

sha512_start : Represents 128 16 sha512_compress sha512_h0 vb2_sha512_init []
unfolding vb2_sha512_init absorb
sha512_start = record {
  blocks = [];
  rest = [];
  whole = refl;
  sizes = tt;
  absorbed = refl;
  size = refl;
  less = omega arith;
  kept = refl;
  total = refl;
  room = refl;
}

-- The rest of a message is its size modulo the size of a block.
rest_size :
    (block_size field : ℕ) (compress : List ℕ → List ℕ → List ℕ) (start : List ℕ)
    (ctx : BlockContext) (m : List ℕ)
    → (r : Represents block_size field compress start ctx m)
    → length m ≡ length r.blocks * block_size + ctx.size
rest_size block_size field compress start ctx m r =
    ap length r.whole
    ∙ omega (
      arith,
      length-append (concat r.blocks) r.rest,
      length-concat block_size r.blocks r.sizes,
      r.size,
    )

one_or_two64 :
    (s n k : ℕ)
    → n ≡ k * 64 + s
    → s < 64
    → let block_nb : ℕ = if ltb (64 - (8 + 1)) (s % 64) then 2 else 1 in
      s + 1 + zeros_for 64 8 n + 8 ≡ block_nb * 64
one_or_two64 s n k e l = elim (Bool-cases (ltb (64 - (8 + 1)) (s % 64))) [
  | inl two ↦ rw two (let more : 55 < s = ground (arith, two) in omega arith)
  | inr one ↦ rw one (let few : s ≤ 55 = ground (arith, one) in omega arith)
]

one_or_two128 :
    (s n k : ℕ)
    → n ≡ k * 128 + s
    → s < 128
    → let block_nb : ℕ = if ltb (128 - (16 + 1)) (s % 128) then 2 else 1 in
      s + 1 + zeros_for 128 16 n + 16 ≡ block_nb * 128
one_or_two128 s n k e l = elim (Bool-cases (ltb (128 - (16 + 1)) (s % 128))) [
  | inl two ↦ rw two (let more : 111 < s = ground (arith, two) in omega arith)
  | inr one ↦ rw one (let few : s ≤ 111 = ground (arith, one) in omega arith)
]

pub sha256_lem :
    (xs : List (List ℕ))
    → length (concat xs) < 2 ^ 29
    → vb2_sha256_finalize (update_all vb2_sha256_update vb2_sha256_init xs) ≡ sha256_of (concat xs)
unfolding vb2_sha256_update vb2_sha256_finalize sha256_of
sha256_lem xs bound =
    let m = concat xs in
    let ctx = update_all (update 64 8 sha256_compress) vb2_sha256_init xs in
    let r =
      update_all-Represents 64 8 sha256_compress sha256_h0 (omega arith) (omega arith)
        vb2_sha256_init [] xs sha256_start (omega (arith, bound)) in
    let size = rest_size 64 8 sha256_compress sha256_h0 ctx m r in
    ap unpack_words32 (
      finalize_lem 64 8 sha256_compress sha256_h0 (omega arith) (omega arith) ctx m
        (zeros_for 64 8 (length m)) r bound
        (one_or_two64 ctx.size (length m) (length r.blocks) size (omega (arith, r.size, r.less))))

pub sha512_lem :
    (xs : List (List ℕ))
    → length (concat xs) < 2 ^ 29
    → vb2_sha512_finalize (update_all vb2_sha512_update vb2_sha512_init xs) ≡ sha512_of (concat xs)
unfolding vb2_sha512_update vb2_sha512_finalize sha512_of
sha512_lem xs bound =
    let m = concat xs in
    let ctx = update_all (update 128 16 sha512_compress) vb2_sha512_init xs in
    let r =
      update_all-Represents 128 16 sha512_compress sha512_h0 (omega arith) (omega arith)
        vb2_sha512_init [] xs sha512_start (omega (arith, bound)) in
    let size = rest_size 128 16 sha512_compress sha512_h0 ctx m r in
    ap unpack_words64 (
      finalize_lem 128 16 sha512_compress sha512_h0 (omega arith) (omega arith) ctx m
        (zeros_for 128 16 (length m)) r bound
        (one_or_two128 ctx.size (length m) (length r.blocks) size (omega (arith, r.size, r.less))))

-- SHA-256 of a message in one piece.
pub sha256_once :
    (m : List ℕ)
    → length m < 2 ^ 29
    → vb2_sha256_finalize (vb2_sha256_update vb2_sha256_init m) ≡ sha256_of m
unfolding update_all
sha256_once m bound =
    let one : concat (m ∷ []) ≡ m = append-nil m in
    subst (λ x. vb2_sha256_finalize (vb2_sha256_update vb2_sha256_init m) ≡ sha256_of x) one
      (sha256_lem (m ∷ []) (subst (λ x. length x < 2 ^ 29) (sym one) bound))

-- SHA-512 of a message in one piece.
pub sha512_once :
    (m : List ℕ)
    → length m < 2 ^ 29
    → vb2_sha512_finalize (vb2_sha512_update vb2_sha512_init m) ≡ sha512_of m
unfolding update_all
sha512_once m bound =
    let one : concat (m ∷ []) ≡ m = append-nil m in
    subst (λ x. vb2_sha512_finalize (vb2_sha512_update vb2_sha512_init m) ≡ sha512_of x) one
      (sha512_lem (m ∷ []) (subst (λ x. length x < 2 ^ 29) (sym one) bound))

-- However a message of less than 2 ^ 29 bytes is cut into pieces, SHA-256 and SHA-512 with the pieces
-- as updates give the digest of the message that is padded as a whole and compressed block by block.
pub sha2_lem :
    (xs : List (List ℕ))
    → length (concat xs) < 2 ^ 29
    → (vb2_sha256_finalize (update_all vb2_sha256_update vb2_sha256_init xs)
        ≡ sha256_of (concat xs))
      × (vb2_sha512_finalize (update_all vb2_sha512_update vb2_sha512_init xs)
          ≡ sha512_of (concat xs))
sha2_lem xs bound = (sha256_lem xs bound, sha512_lem xs bound)
