-- ===== src/Rsa/Bytes.antt =====
-- 2lib/2rsa.c: the arrays of words from big-endian bytes and back, and the last subtraction of modpowF4.
use cbmc_vboot.Prelude.{
  ℕ, zero, suc, ◌+◌, ◌*◌, ◌≤◌, ◌<◌, ◌≡◌, ◌⊎◌, inl, inr, refl, ap, ap₂, sym, subst₂, ◌∙◌, arith,
  true, List, [], ◌∷◌, ◌++◌, length, length-append, reverse, All, IsByte, truthy, ltb,
  if◌then◌else◌, Bool-cases,
}
use native.Mathlib.Nat.{mul-le-mul, mul-add}
use cbmc_vboot.Rsa.{words_of, bytes_of, ge_words, vb2_mont_ge, sub_words, sub_m}
use cbmc_vboot.Rsa.Value.{IsWord, value, scale, value-lt, sub_words_lem}
use cbmc_vboot.Rsa.Montgomery.{value-snoc, words-snoc, scale-length}

-- The number that big-endian bytes stand for.
unfoldable pub number : List ℕ → ℕ
number bytes = value (reverse (words_of bytes))

reverse-snoc : (xs : List ℕ) (x : ℕ) → reverse (xs ++ (x ∷ [])) ≡ x ∷ reverse xs
reverse-snoc [] x = refl
reverse-snoc (y ∷ xs) x = ap (λ r. r ++ (y ∷ [])) (reverse-snoc xs x)

pub reverse-reverse : (xs : List ℕ) → reverse (reverse xs) ≡ xs
reverse-reverse [] = refl
reverse-reverse (x ∷ xs) = reverse-snoc (reverse xs) x ∙ ap (λ r. x ∷ r) (reverse-reverse xs)

pub length-reverse : (xs : List ℕ) → length (reverse xs) ≡ length xs
length-reverse [] = refl
length-reverse (x ∷ xs) = length-append (reverse xs) (x ∷ []) ∙ omega (arith, length-reverse xs)

pub reverse-words : (xs : List ℕ) → All IsWord xs → All IsWord (reverse xs)
reverse-words [] h = tt
reverse-words (x ∷ xs) (h, hs) = words-snoc (reverse xs) x (reverse-words xs hs) h

pub words_of-bytes_of : (ws : List ℕ) → All IsWord ws → words_of (bytes_of ws) ≡ ws
words_of-bytes_of [] h = refl
words_of-bytes_of (w ∷ ws) (h, hs) = ap₂ ◌∷◌ (omega arith) (words_of-bytes_of ws hs)

pub words_of-words :
    (k : ℕ) (bytes : List ℕ)
    → All IsByte bytes
    → length bytes ≡ 4 * k
    → (All IsWord (words_of bytes)) × (length (words_of bytes) ≡ k)
words_of-words zero [] h l = (tt, refl)
words_of-words (suc k) [] h l = absurd (omega (arith, l))
words_of-words k (a ∷ []) h l = absurd (omega (arith, l))
words_of-words k (a ∷ b ∷ []) h l = absurd (omega (arith, l))
words_of-words k (a ∷ b ∷ c ∷ []) h l = absurd (omega (arith, l))
words_of-words zero (a ∷ b ∷ c ∷ d ∷ bytes) h l = absurd (omega (arith, l))
words_of-words (suc k) (a ∷ b ∷ c ∷ d ∷ bytes) (ha, (hb, (hc, (hd, hs)))) l =
    let (words, count) = words_of-words k bytes hs (omega (arith, l)) in
    ((omega arith, words), ap suc count)

digit_le : (x y v w s : ℕ) → v < s → x < y → v + s * x ≤ w + s * y
digit_le x y v w s hv h =
    let more : s * suc x ≤ s * y = mul-le-mul {n₂ = s} {m₂ = y} (omega arith) (omega (arith, h)) in
    omega (arith, more, hv, mul-add s x 1)

-- Where the comparison, from the highest word on, says so, the number is not smaller.
ge_words_lem :
    (a n : List ℕ)
    → All IsWord a
    → All IsWord n
    → length a ≡ length n
    → truthy (ge_words a n) ≡ true
    → value (reverse n) ≤ value (reverse a)
unfolding ge_words
ge_words_lem [] [] ha hn l h = omega arith
ge_words_lem [] (y ∷ n) ha hn l h = absurd (omega (arith, l))
ge_words_lem (x ∷ a) [] ha hn l h = absurd (omega (arith, l))
ge_words_lem (x ∷ a) (y ∷ n) (hx, ha) (hy, hn) l h =
    let counts : length (reverse a) ≡ length (reverse n) =
      length-reverse a ∙ omega (arith, l) ∙ sym (length-reverse n) in
    let scales = scale-length (reverse a) (reverse n) counts in
    let below = value-lt (reverse n) (reverse-words n hn) in
    let more : value (reverse n) + scale (reverse n) * y
        ≤ value (reverse a) + scale (reverse n) * x =
      elim (Bool-cases (ltb y x)) [
        | inl less ↦
            digit_le y x (value (reverse n)) (value (reverse a)) (scale (reverse n)) below
              (ground (arith, less))
        | inr not_less ↦
            let same : x ≡ y = ground (arith, not_less, h) in
            let rest : value (reverse n) ≤ value (reverse a) =
              ge_words_lem a n ha hn (omega (arith, l)) (ground (arith, not_less, h)) in
            omega (arith, rest, ap (λ z. scale (reverse n) * z) same)
      ] in
    omega (arith, more, value-snoc (reverse n) y, value-snoc (reverse a) x, ap (λ s. s * x) scales)

no_borrow : (r m v s k : ℕ) → k ≤ 1 → r + m ≡ v + s * k → m ≤ v → r < s → r + m ≡ v
no_borrow r m v s zero h e le lt = omega (arith, e)
no_borrow r m v s (suc zero) h e le lt = absurd (omega (arith, e, le, lt))
no_borrow r m v s (suc (suc k)) h e le lt = absurd (omega (arith, h))

-- A number that is not smaller than n is made smaller by n.
pub reduce_lem :
    (n a : List ℕ)
    → All IsWord a
    → All IsWord n
    → length a ≡ length n
    → let r = if truthy (vb2_mont_ge n a) then sub_m n a else a in
      (All IsWord r) × (length r ≡ length n) × ((value r ≡ value a) ⊎ (value r + value n ≡ value a))
unfolding vb2_mont_ge sub_m
reduce_lem n a ha hn l = elim (Bool-cases (truthy (vb2_mont_ge n a))) [
  | inr less ↦ rw less (ha, l, inl refl)
  | inl more ↦
      let sub = sub_words_lem a n 0 (omega arith) ha hn l in
      let counts : length (reverse a) ≡ length (reverse n) =
        length-reverse a ∙ l ∙ sym (length-reverse n) in
      let ge : value n ≤ value a =
        subst₂ (λ x y. value x ≤ value y) (reverse-reverse n) (reverse-reverse a)
          (ge_words_lem (reverse a) (reverse n) (reverse-words a ha) (reverse-words n hn) counts
            more) in
      let below = value-lt (sub_words 0 a n) sub.words in
      let difference : value (sub_words 0 a n) + value n ≡ value a =
        no_borrow (value (sub_words 0 a n)) (value n) (value a) (scale n) sub.borrow sub.small
          (omega (arith, sub.difference)) ge (omega (arith, below, sub.same)) in
      rw more (sub.words, sub.count, inr difference)
]
