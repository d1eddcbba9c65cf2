-- ===== src/Sha/Sha1/Streams.antt =====
-- firmware/2lib/2sha1.c: the state after a message does not depend on how the message is cut.
use cbmc_vboot.Prelude.{
  ℕ, ◌+◌, ◌%◌, ◌<◌, ◌≡◌, inl, inr, refl, ap, ap₂, sym, ◌∙◌, arith, ◌==◌, Bool-cases, List, [], ◌∷◌,
  ◌++◌, length, length-append,
}
use mathlib.Core.List.{append-nil}
use cbmc_vboot.Common.{add32}
use cbmc_vboot.Sha.Blocks.Lists.{concat}
use cbmc_vboot.Sha.Rounds.Reference.{update_all}
use cbmc_vboot.Sha.Sha1.{
  Sha1Context, sha1_byte, next_position, sha1_bytes, vb2_sha1_update, vb2_sha1_init,
}

-- SHA-1: the position in the buffer after some bytes.
position : ℕ → List ℕ → ℕ
position i [] = i
position i (x ∷ xs) = position (next_position i) xs

position_lem : (i : ℕ) (xs : List ℕ) → i < 64 → position i xs ≡ (i + length xs) % 64
unfolding position
position_lem i [] h = omega arith
position_lem i (x ∷ xs) h = elim (Bool-cases (i + 1 == 64)) [
  | inl full ↦ rw full (position_lem 0 xs (omega arith) ∙ ground (arith, full))
  | inr part ↦
      rw part (position_lem (i + 1) xs (ground (arith, part, h)) ∙ ap (λ k. k % 64) (omega arith))
]

sha1_bytes-append :
    (ctx : Sha1Context) (i : ℕ) (xs ys : List ℕ)
    → sha1_bytes ctx i (xs ++ ys) ≡ sha1_bytes (sha1_bytes ctx i xs) (position i xs) ys
unfolding sha1_bytes position
sha1_bytes-append ctx i [] ys = refl
sha1_bytes-append ctx i (x ∷ xs) ys = sha1_bytes-append (sha1_byte ctx i x) (next_position i) xs ys

abbrev with_count : ℕ → Sha1Context → Sha1Context
with_count n ctx = record ctx { count = n }

sha1_byte-count :
    (ctx : Sha1Context) (i n x : ℕ)
    → sha1_byte (with_count n ctx) i x ≡ with_count n (sha1_byte ctx i x)
unfolding sha1_byte
sha1_byte-count ctx i n x = elim (Bool-cases (i + 1 == 64)) [
  | inl full ↦ rw full refl
  | inr part ↦ rw part refl
]

sha1_bytes-count :
    (ctx : Sha1Context) (i n : ℕ) (xs : List ℕ)
    → sha1_bytes (with_count n ctx) i xs ≡ with_count n (sha1_bytes ctx i xs)
unfolding sha1_bytes
sha1_bytes-count ctx i n [] = refl
sha1_bytes-count ctx i n (x ∷ xs) =
    ap (λ c. sha1_bytes c (next_position i) xs) (sha1_byte-count ctx i n x)
    ∙ sha1_bytes-count (sha1_byte ctx i x) (next_position i) n xs

pub sha1_update-count :
    (ctx : Sha1Context) (xs : List ℕ) → (vb2_sha1_update ctx xs).count ≡ add32 ctx.count (length xs)
unfolding vb2_sha1_update
sha1_update-count ctx xs =
    ap (λ c. c.count) (sha1_bytes-count ctx (ctx.count % 64) (add32 ctx.count (length xs)) xs)

sha1_update-append :
    (ctx : Sha1Context) (xs ys : List ℕ)
    → vb2_sha1_update (vb2_sha1_update ctx xs) ys ≡ vb2_sha1_update ctx (xs ++ ys)
sha1_update-append ctx xs ys =
    let i = ctx.count % 64 in
    let n = add32 ctx.count (length xs) in
    let k = add32 ctx.count (length (xs ++ ys)) in
    let first : vb2_sha1_update ctx xs ≡ with_count n (sha1_bytes ctx i xs) =
      unfold vb2_sha1_update in sha1_bytes-count ctx i n xs in
    let second : vb2_sha1_update (with_count n (sha1_bytes ctx i xs)) ys
        ≡ with_count (add32 n (length ys)) (sha1_bytes (sha1_bytes ctx i xs) (n % 64) ys) =
      unfold vb2_sha1_update in
      sha1_bytes-count (sha1_bytes ctx i xs) (n % 64) (add32 n (length ys)) ys in
    let whole : vb2_sha1_update ctx (xs ++ ys) ≡ with_count k (sha1_bytes ctx i (xs ++ ys)) =
      unfold vb2_sha1_update in sha1_bytes-count ctx i k (xs ++ ys) in
    let counts : add32 n (length ys) ≡ k = omega (arith, length-append xs ys) in
    let place : n % 64 ≡ position i xs = omega (arith, position_lem i xs (omega arith)) in
    ap (λ c. vb2_sha1_update c ys) first
    ∙ second
    ∙ ap₂ (λ c p. with_count c (sha1_bytes (sha1_bytes ctx i xs) p ys)) counts place
    ∙ ap (with_count k) (sym (sha1_bytes-append ctx i xs ys))
    ∙ sym whole

sha1_update_all :
    (ctx : Sha1Context) (x : List ℕ) (xs : List (List ℕ))
    → update_all vb2_sha1_update ctx (x ∷ xs) ≡ vb2_sha1_update ctx (x ++ concat xs)
unfolding update_all
sha1_update_all ctx x [] = ap (vb2_sha1_update ctx) (sym (append-nil x))
sha1_update_all ctx x (y ∷ ys) =
    sha1_update_all (vb2_sha1_update ctx x) y ys ∙ sha1_update-append ctx x (y ++ concat ys)

pub sha1_from_start :
    (xs : List (List ℕ))
    → update_all vb2_sha1_update vb2_sha1_init xs ≡ vb2_sha1_update vb2_sha1_init (concat xs)
sha1_from_start [] = unfold update_all vb2_sha1_update vb2_sha1_init sha1_bytes in refl
sha1_from_start (x ∷ xs) = sha1_update_all vb2_sha1_init x xs
