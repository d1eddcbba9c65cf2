-- ===== src/Rsa/Product.antt =====
-- 2lib/2rsa.c: montMul is Montgomery multiplication.
use cbmc_vboot.Prelude.{
  ℕ, zero, suc, ◌+◌, ◌-◌, ◌*◌, ◌%◌, ◌^◌, ◌<◌, ◌≡◌, refl, ap, arith, List, [], ◌∷◌, length,
  replicate, All, get_or,
}
use native.Mathlib.Nat.{add-mul, mul_assoc}
use cbmc_vboot.Rsa.{mont_mul_add, mont_rows, mont_mul}
use cbmc_vboot.Rsa.Value.{IsWord, value, scale}
use cbmc_vboot.Rsa.Montgomery.{mont_mul_add-Reduced}

-- `r`, scaled by 2 ^ 32 for each word of `a`, is `total` up to multiples of n.
pub record Product (r n a : List ℕ) (total : ℕ) : Type 0 where
  pub removed : ℕ
  pub added : ℕ
  pub exact : scale a * value r + removed * value n ≡ total + added * value n
  pub words : All IsWord r
  pub same : length r ≡ length n

multiples : (x y v : ℕ) → (2 ^ 32 * x + y) * v ≡ 2 ^ 32 * (x * v) + y * v
multiples x y v = omega (arith, add-mul (2 ^ 32 * x) y v, mul_assoc (2 ^ 32) x v)

rows_lem :
    (n0inv : ℕ) (n c a b : List ℕ)
    → 0 < length n
    → length c ≡ length n
    → length b ≡ length n
    → All IsWord n
    → All IsWord c
    → All IsWord a
    → All IsWord b
    → get_or n 0 0 * n0inv % 2 ^ 32 ≡ 2 ^ 32 - 1
    → Product (mont_rows n0inv n c a b) n a (value c + value a * value b)
unfolding mont_rows value scale
rows_lem n0inv n c [] b pos lc lb hn hc ha hb inv = record {
  removed = 0;
  added = 0;
  exact = omega arith;
  words = hc;
  same = lc;
}
rows_lem n0inv n c (x ∷ a) b pos lc lb hn hc (hx, ha) hb inv =
    let step = mont_mul_add-Reduced n0inv n c x b pos lc lb hn hc hb hx inv in
    let c1 = mont_mul_add n0inv n c x b in
    let rest = rows_lem n0inv n c1 a b pos step.same lb hn step.words ha hb inv in
    let r = mont_rows n0inv n c1 a b in
    record {
      removed = 2 ^ 32 * (rest.removed + step.subtracted) + 0;
      added = 2 ^ 32 * rest.added + step.multiple;
      exact = omega (
        arith,
        step.exact,
        rest.exact,
        multiples (rest.removed + step.subtracted) 0 (value n),
        add-mul rest.removed step.subtracted (value n),
        multiples rest.added step.multiple (value n),
        multiples (value a) x (value b),
        mul_assoc (2 ^ 32) (scale a) (value r),
      );
      words = rest.words;
      same = rest.same;
    }

zeros :
    (k : ℕ)
    → (All IsWord (replicate k 0))
      × (value (replicate k 0) ≡ 0)
      × (length {A = ℕ} (replicate k 0) ≡ k)
unfolding value
zeros zero = (tt, refl, refl)
zeros (suc k) =
    let (words, none, count) = zeros k in ((omega arith, words), omega (arith, none), ap suc count)

-- For arrays of words of one length, at least one, and n0inv minus the inverse of the lowest word
-- of n modulo 2 ^ 32, montMul gives words of that length whose value, times 2 ^ 32 to the number of
-- words, is the product of a and b up to multiples of n.
pub mont_mul-Product :
    (n0inv : ℕ) (n a b : List ℕ)
    → 0 < length n
    → length b ≡ length n
    → All IsWord n
    → All IsWord a
    → All IsWord b
    → get_or n 0 0 * n0inv % 2 ^ 32 ≡ 2 ^ 32 - 1
    → Product (mont_mul n0inv n a b) n a (value a * value b)
unfolding mont_mul
mont_mul-Product n0inv n a b pos lb hn ha hb inv =
    let (words, none, count) = zeros (length n) in
    let rows = rows_lem n0inv n (replicate (length n) 0) a b pos count lb hn words ha hb inv in
    record {
      removed = rows.removed;
      added = rows.added;
      exact = omega (arith, rows.exact, none);
      words = rows.words;
      same = rows.same;
    }
