-- ===== src/Rsa/Value.antt =====
-- The number that an array of 32-bit words stands for, and what the loops of 2lib/2rsa.c do to it.
use cbmc_vboot.Prelude.{
  ℕ, suc, ◌+◌, ◌-◌, ◌*◌, ◌/◌, ◌%◌, ◌^◌, ◌≤◌, ◌<◌, ◌≡◌, inl, inr, refl, ap, arith, ltb, List, [],
  ◌∷◌, length, All, Bool-cases,
}
use native.Mathlib.Nat.{mul-add, mul_left_comm, mul_assoc, mul-le-mul}
use cbmc_vboot.Rsa.{shift_signed, sub_words, mont_words}

abbrev pub IsWord : ℕ → Type 0
IsWord w = w < 2 ^ 32

unfoldable pub value : List ℕ → ℕ
value [] = 0
value (w ∷ ws) = w + 2 ^ 32 * value ws

-- 2 ^ 32 to the number of words.
unfoldable pub scale : List ℕ → ℕ
scale [] = 1
scale (w ∷ ws) = 2 ^ 32 * scale ws

pub value-lt : (ws : List ℕ) → All IsWord ws → value ws < scale ws
unfolding value scale
value-lt [] h = omega arith
value-lt (w ∷ ws) (h, hs) = omega (arith, h, value-lt ws hs)

-- (2 ^ 32 - 1) squared bounds a product of two words.
pub word_product : (a b : ℕ) → a < 2 ^ 32 → b < 2 ^ 32 → a * b ≤ 0xffff_ffff * 0xffff_ffff
word_product a b h k = mul-le-mul {n₂ = 0xffff_ffff} {m₂ = 0xffff_ffff} (omega arith) (omega arith)

pub product-value : (a w v : ℕ) → a * (w + 2 ^ 32 * v) ≡ a * w + 2 ^ 32 * (a * v)
product-value a w v = omega (arith, mul-add a w (2 ^ 32 * v), mul_left_comm a (2 ^ 32) v)

-- The words and the carries after them are the sum of all that went in.
pub record Summed (r : List ℕ × ℕ × ℕ) (total : ℕ) (n : List ℕ) : Type 0 where
  pub sum : value r.0 + scale r.0 * (r.1 / 2 ^ 32 + r.2 / 2 ^ 32) ≡ total
  pub words : All IsWord r.0
  pub same : scale r.0 ≡ scale n
  pub count : length r.0 ≡ length n
  pub end_a : r.1 < 2 ^ 64
  pub end_b : r.2 < 2 ^ 64

pub mont_words_lem :
    (a d0 carry_a carry_b : ℕ) (b c n : List ℕ)
    → a < 2 ^ 32
    → d0 < 2 ^ 32
    → carry_a < 2 ^ 64
    → carry_b < 2 ^ 64
    → All IsWord b
    → All IsWord c
    → All IsWord n
    → length b ≡ length n
    → length c ≡ length n
    → Summed
        (mont_words a d0 carry_a carry_b b c n)
        (carry_a / 2 ^ 32 + carry_b / 2 ^ 32 + a * value b + d0 * value n + value c)
        n
unfolding value scale mont_words
mont_words_lem a d0 ca cb [] [] [] ha hd hca hcb hb hc hn lb lc = record {
  sum = omega arith;
  words = tt;
  same = refl;
  count = refl;
  end_a = hca;
  end_b = hcb;
}
mont_words_lem a d0 ca cb (b ∷ bs) (c ∷ cs) (n ∷ ns) ha hd hca hcb (hb, hbs) (hc, hcs) (hn, hns) lb
      lc =
    let sum_a = (ca / 2 ^ 32 + a * b + c) % 2 ^ 64 in
    let sum_b = (cb / 2 ^ 32 + d0 * n + sum_a % 2 ^ 32) % 2 ^ 64 in
    let exact_a : sum_a ≡ ca / 2 ^ 32 + a * b + c = omega (arith, word_product a b ha hb) in
    let exact_b : sum_b ≡ cb / 2 ^ 32 + d0 * n + sum_a % 2 ^ 32 =
      omega (arith, word_product d0 n hd hn) in
    let rest =
      mont_words_lem a d0 sum_a sum_b bs cs ns ha hd (omega arith) (omega arith) hbs hcs hns
        (omega (arith, lb)) (omega (arith, lc)) in
    record {
      sum = omega (
        arith,
        exact_a,
        exact_b,
        rest.sum,
        product-value a b (value bs),
        product-value d0 n (value ns),
        mul_assoc (2 ^ 32) (scale (mont_words a d0 sum_a sum_b bs cs ns).0) (
            (mont_words a d0 sum_a sum_b bs cs ns).1 / 2 ^ 32
            + (mont_words a d0 sum_a sum_b bs cs ns).2 / 2 ^ 32),
      );
      words = (omega arith, rest.words);
      same = ap (λ x. 2 ^ 32 * x) rest.same;
      count = ap suc rest.count;
      end_a = rest.end_a;
      end_b = rest.end_b;
    }
mont_words_lem a d0 ca cb [] (c ∷ cs) [] ha hd hca hcb hb hc hn lb lc = absurd (omega (arith, lc))
mont_words_lem a d0 ca cb [] c (n ∷ ns) ha hd hca hcb hb hc hn lb lc = absurd (omega (arith, lb))
mont_words_lem a d0 ca cb (b ∷ bs) c [] ha hd hca hcb hb hc hn lb lc = absurd (omega (arith, lb))
mont_words_lem a d0 ca cb (b ∷ bs) [] (n ∷ ns) ha hd hca hcb hb hc hn lb lc =
    absurd (omega (arith, lc))

-- A difference up to a borrow, which is 0 or 1.
pub record Subtracted (r a n : List ℕ) (borrowed : ℕ) : Type 0 where
  pub borrow : ℕ
  pub small : borrow ≤ 1
  pub difference : value r + value n + borrowed ≡ value a + scale n * borrow
  pub words : All IsWord r
  pub same : scale r ≡ scale n
  pub count : length r ≡ length n

-- The carry of the loop is minus the borrow.
next_borrow :
    (x y borrowed : ℕ)
    → x < 2 ^ 32
    → y < 2 ^ 32
    → borrowed ≤ 1
    → let sum = ((2 ^ 64 - borrowed) % 2 ^ 64 + x + (2 ^ 64 - y)) % 2 ^ 64 in
      (k : ℕ) × (k ≤ 1)
      × (shift_signed sum ≡ (2 ^ 64 - k) % 2 ^ 64)
      × (sum % 2 ^ 32 + y + borrowed ≡ x + 2 ^ 32 * k)
next_borrow x y borrowed hx hy hb = elim (Bool-cases (ltb x (y + borrowed))) [
  | inl less ↦ (1, omega arith, ground (arith, less), ground (arith, less))
  | inr more ↦ (0, omega arith, ground (arith, more), ground (arith, more))
]

pub sub_words_lem :
    (a n : List ℕ) (borrowed : ℕ)
    → borrowed ≤ 1
    → All IsWord a
    → All IsWord n
    → length a ≡ length n
    → Subtracted (sub_words ((2 ^ 64 - borrowed) % 2 ^ 64) a n) a n borrowed
unfolding value scale sub_words
sub_words_lem [] [] borrowed hb ha hn l = record {
  borrow = borrowed;
  small = hb;
  difference = omega arith;
  words = tt;
  same = refl;
  count = refl;
}
sub_words_lem (x ∷ a) (y ∷ n) borrowed hb (hx, ha) (hy, hn) l =
    let (k, hk, shifted, digit) = next_borrow x y borrowed hx hy hb in
    let rest = sub_words_lem a n k hk ha hn (omega (arith, l)) in
    rw shifted (record {
      borrow = rest.borrow;
      small = rest.small;
      difference = omega (arith, digit, rest.difference, mul_assoc (2 ^ 32) (scale n) rest.borrow);
      words = (omega arith, rest.words);
      same = ap (λ x. 2 ^ 32 * x) rest.same;
      count = ap suc rest.count;
    })
sub_words_lem (x ∷ a) [] borrowed hb ha hn l = absurd (omega (arith, l))
sub_words_lem [] (y ∷ n) borrowed hb ha hn l = absurd (omega (arith, l))
