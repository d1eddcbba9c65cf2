-- ===== src/Rsa/Montgomery.antt =====
-- 2lib/2rsa.c: montMulAdd is a step of Montgomery multiplication.
use cbmc_vboot.Prelude.{
  ℕ, zero, suc, ◌+◌, ◌-◌, ◌*◌, ◌/◌, ◌%◌, ◌^◌, ◌≤◌, ◌<◌, ◌≡◌, inl, inr, refl, ap, sym, ◌∙◌, arith,
  List, [], ◌∷◌, ◌++◌, length, length-append, All, truthy, Bool-cases, get_or,
}
use native.Mathlib.Nat.{mul-add, mul_left_comm, mul_assoc, mul_comm, mul-le-mul}
use cbmc_vboot.Rsa.{sub_words, sub_m, mont_words, mont_end, mont_mul_add}
use cbmc_vboot.Rsa.Value.{
  IsWord, value, scale, value-lt, word_product, product-value, mont_words_lem, sub_words_lem,
}

-- n0inv is minus the inverse of the lowest word, so adding d0 times that word gives a zero word.
low_word_zero :
    (x n0 n0inv : ℕ) → n0 * n0inv % 2 ^ 32 ≡ 2 ^ 32 - 1 → (x * n0inv % 2 ^ 32 * n0 + x) % 2 ^ 32 ≡ 0
low_word_zero x n0 n0inv h =
    let q = x * n0inv / 2 ^ 32 in
    let t = n0 * n0inv / 2 ^ 32 in
    let d = x * n0inv % 2 ^ 32 in
    let whole : x * n0inv ≡ 2 ^ 32 * q + d = omega arith in
    let inverse : n0 * n0inv + 1 ≡ 2 ^ 32 * (t + 1) = omega (arith, h) in
    let left : n0 * (x * n0inv) ≡ 2 ^ 32 * (n0 * q) + d * n0 =
      ap (λ y. n0 * y) whole
      ∙ omega (arith, mul-add n0 (2 ^ 32 * q) d, mul_left_comm n0 (2 ^ 32) q, mul_comm n0 d) in
    let right : n0 * (x * n0inv) + x ≡ 2 ^ 32 * (x * (t + 1)) = omega (
      arith,
      mul_left_comm n0 x n0inv,
      mul-add x (n0 * n0inv) 1,
      ap (λ y. x * y) inverse,
      mul_left_comm x (2 ^ 32) (t + 1),
    ) in
    omega (arith, left, right)

-- A word more, above the others.
pub value-snoc : (ws : List ℕ) (w : ℕ) → value (ws ++ (w ∷ [])) ≡ value ws + scale ws * w
unfolding value scale
value-snoc [] w = omega arith
value-snoc (v ∷ ws) w = omega (arith, value-snoc ws w, mul_assoc (2 ^ 32) (scale ws) w)

pub words-snoc : (ws : List ℕ) (w : ℕ) → All IsWord ws → w < 2 ^ 32 → All IsWord (ws ++ (w ∷ []))
words-snoc [] w hs h = (h, tt)
words-snoc (v ∷ ws) w (hv, hs) h = (hv, words-snoc ws w hs h)

-- What a step gives: c' with 2 ^ 32 * c' congruent to the sum, below 2 ^ 32 to the number of words.
pub record Reduced (r n : List ℕ) (total : ℕ) : Type 0 where
  pub multiple : ℕ
  pub subtracted : ℕ
  pub small : subtracted ≤ 1
  pub exact : 2 ^ 32 * (value r + subtracted * value n) ≡ total + multiple * value n
  pub words : All IsWord r
  pub same : length r ≡ length n

pub scale-length : (a b : List ℕ) → length a ≡ length b → scale a ≡ scale b
unfolding scale
scale-length [] [] h = refl
scale-length (x ∷ a) (y ∷ b) h = ap (λ s. 2 ^ 32 * s) (scale-length a b (omega (arith, h)))
scale-length [] (y ∷ b) h = absurd (omega (arith, h))
scale-length (x ∷ a) [] h = absurd (omega (arith, h))

-- The end: the total is the words' value with the top sum, below the modulus and one more digit.
record Ended (r n : List ℕ) (total : ℕ) : Type 0 where
  subtracted : ℕ
  small : subtracted ≤ 1
  exact : value r + subtracted * value n ≡ total
  words : All IsWord r
  same : length r ≡ length n

fits :
    (n words : List ℕ) (sum : ℕ)
    → All IsWord words
    → suc (length words) ≡ length n
    → sum < 2 ^ 32
    → Ended (words ++ (sum % 2 ^ 32 ∷ [])) n (value words + scale words * sum)
fits n words sum hw l h =
    let digit : sum % 2 ^ 32 ≡ sum = omega (arith, h) in
    rw digit (record {
      subtracted = 0;
      small = omega arith;
      exact = omega (arith, value-snoc words sum);
      words = words-snoc words sum hw h;
      same = length-append words (sum ∷ []) ∙ omega (arith, l);
    })

scale-suc : (words n : List ℕ) → suc (length words) ≡ length n → scale n ≡ 2 ^ 32 * scale words
unfolding scale
scale-suc words n h = sym (scale-length (0 ∷ words) n h)

-- A number below the modulus needs the borrow.
borrow_one : (r m v s k : ℕ) → k ≤ 1 → r + m + 0 ≡ v + s * k → v < m → k ≡ 1
borrow_one r m v s zero h e lt = absurd (omega (arith, e, lt))
borrow_one r m v s (suc zero) h e lt = refl
borrow_one r m v s (suc (suc k)) h e lt = absurd (omega (arith, h))

overflows :
    (n words : List ℕ) (sum : ℕ)
    → All IsWord words
    → All IsWord n
    → suc (length words) ≡ length n
    → 2 ^ 32 ≤ sum
    → sum < 2 ^ 33
    → value words + scale words * sum < value n + scale n
    → Ended (sub_m n (words ++ (sum % 2 ^ 32 ∷ []))) n (value words + scale words * sum)
unfolding sub_m
overflows n words sum hw hn l low high bound =
    let digit = sum % 2 ^ 32 in
    let c = words ++ (digit ∷ []) in
    let split : sum ≡ 2 ^ 32 + digit = omega (arith, low, high) in
    let count : length c ≡ length n = length-append words (digit ∷ []) ∙ omega (arith, l) in
    let sub =
      sub_words_lem c n 0 (omega arith) (words-snoc words digit hw (omega arith)) hn count in
    let whole : scale n ≡ scale words * 2 ^ 32 = omega (arith, scale-suc words n l) in
    let total : value words + scale words * sum ≡ value c + scale n =
      ap (λ s. value words + scale words * s) split
      ∙ omega (arith, mul-add (scale words) (2 ^ 32) digit, value-snoc words digit, whole) in
    let borrows : sub.borrow ≡ 1 =
      borrow_one (value (sub_words 0 c n)) (value n) (value c) (scale n) sub.borrow sub.small
        sub.difference (omega (arith, bound, total)) in
    record {
      subtracted = 1;
      small = omega arith;
      exact = omega (arith, total, sub.difference, ap (λ k. scale n * k) borrows);
      words = sub.words;
      same = sub.count;
    }

mont_end_lem :
    (n words : List ℕ) (end_a end_b : ℕ)
    → All IsWord words
    → All IsWord n
    → suc (length words) ≡ length n
    → end_a < 2 ^ 64
    → end_b < 2 ^ 64
    → value words + scale words * (end_a / 2 ^ 32 + end_b / 2 ^ 32) < value n + scale n
    → Ended
        (mont_end n (words, end_a, end_b))
        n
        (value words + scale words * (end_a / 2 ^ 32 + end_b / 2 ^ 32))
unfolding mont_end
mont_end_lem n words end_a end_b hw hn l ha hb bound =
    let sum = end_a / 2 ^ 32 + end_b / 2 ^ 32 in
    elim (Bool-cases (truthy (sum / 2 ^ 32))) [
      | inl over ↦
          rw over (overflows n words sum hw hn l (ground (arith, over)) (omega arith) bound)
      | inr fit ↦ rw fit (fits n words sum hw l (ground (arith, fit)))
    ]

-- The sum before the division by 2 ^ 32 is that of the row, and is below the bound.
row_bound :
    (c a b d n s : ℕ)
    → c < s
    → b < s
    → a < 2 ^ 32
    → d < 2 ^ 32
    → 0 < s
    → c + a * b + d * n < 2 ^ 32 * (n + s)
row_bound c a b d n s hc hb ha hd hs =
    let rows : a * b ≤ 0xffff_ffff * s =
      mul-le-mul {n₂ = 0xffff_ffff} {m₂ = s} (omega (arith, ha)) (omega (arith, hb)) in
    let multiples : d * n ≤ 0xffff_ffff * n =
      mul-le-mul {n₂ = 0xffff_ffff} {m₂ = n} (omega (arith, hd)) (omega arith) in
    omega (arith, rows, multiples, hc, hs)

-- On arrays of one length, at least one word, of words, with a word `a` and with n0inv minus the
-- inverse of the lowest word of n modulo 2 ^ 32, montMulAdd gives words of the same length whose
-- value c', up to one subtraction of n, is exactly (c + a * b + d * n) / 2 ^ 32 for some d: so 2 ^
-- 32 * c' is congruent to c + a * b modulo n.
pub mont_mul_add-Reduced :
    (n0inv : ℕ) (n c : List ℕ) (a : ℕ) (b : List ℕ)
    → 0 < length n
    → length c ≡ length n
    → length b ≡ length n
    → All IsWord n
    → All IsWord c
    → All IsWord b
    → a < 2 ^ 32
    → get_or n 0 0 * n0inv % 2 ^ 32 ≡ 2 ^ 32 - 1
    → Reduced (mont_mul_add n0inv n c a b) n (value c + a * value b)
unfolding mont_mul_add value
mont_mul_add-Reduced n0inv [] c a b pos lc lb hn hc hb ha inv = absurd (omega (arith, pos))
mont_mul_add-Reduced n0inv (n0 ∷ n) [] a b pos lc lb hn hc hb ha inv = absurd (omega (arith, lc))
mont_mul_add-Reduced n0inv (n0 ∷ n) (c0 ∷ c) a [] pos lc lb hn hc hb ha inv =
    absurd (omega (arith, lb))
mont_mul_add-Reduced n0inv (n0 ∷ n) (c0 ∷ c) a (b0 ∷ b) pos lc lb (hn0, hn) (hc0, hc) (hb0, hb) ha
      inv =
    let sum_a = (a * b0 + c0) % 2 ^ 64 in
    let exact_a : sum_a ≡ a * b0 + c0 = omega (arith, word_product a b0 ha hb0) in
    let low = sum_a % 2 ^ 32 in
    let d0 = low * n0inv % 2 ^ 32 in
    let sum_b = (d0 * n0 + low) % 2 ^ 64 in
    let exact_b : sum_b ≡ d0 * n0 + low = omega (arith, word_product d0 n0 (omega arith) hn0) in
    let zero_word : (d0 * n0 + low) % 2 ^ 32 ≡ 0 = low_word_zero low n0 n0inv inv in
    let row =
      mont_words_lem a d0 sum_a sum_b b c n ha (omega arith) (omega arith) (omega arith) hb hc hn
        (omega (arith, lb)) (omega (arith, lc)) in
    let shifted : 2 ^ 32 * (sum_a / 2 ^ 32 + sum_b / 2 ^ 32 + a * value b + d0 * value n + value c)
        ≡ (c0 + 2 ^ 32 * value c) + a * (b0 + 2 ^ 32 * value b) + d0 * (n0 + 2 ^ 32 * value n) =
      omega (
        arith,
        exact_a,
        exact_b,
        zero_word,
        product-value a b0 (value b),
        product-value d0 n0 (value n),
      ) in
    let below_c : value c < scale n =
      omega (arith, value-lt c hc, scale-length c n (omega (arith, lc))) in
    let below_b : value b < scale n =
      omega (arith, value-lt b hb, scale-length b n (omega (arith, lb))) in
    let bound =
      row_bound (c0 + 2 ^ 32 * value c) a (b0 + 2 ^ 32 * value b) d0 (n0 + 2 ^ 32 * value n)
        (2 ^ 32 * scale n) (omega (arith, hc0, below_c)) (omega (arith, hb0, below_b)) ha
        (omega arith) (omega (arith, below_c)) in
    let r = mont_words a d0 sum_a sum_b b c n in
    let ended =
      mont_end_lem (n0 ∷ n) r.0 r.1 r.2 row.words (hn0, hn) (ap suc row.count) row.end_a row.end_b
        (omega (arith, row.sum, shifted, bound, scale-suc n (n0 ∷ n) refl)) in
    record {
      multiple = d0;
      subtracted = ended.subtracted;
      small = ended.small;
      exact = ap (λ x. 2 ^ 32 * x) ended.exact ∙ ap (λ x. 2 ^ 32 * x) row.sum ∙ shifted;
      words = ended.words;
      same = ended.same;
    }
