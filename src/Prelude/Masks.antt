-- ===== src/Prelude/Masks.antt =====
-- Numbers cut by a mask of ones, and differences of digits.
use Prim.Native.Nat.{ℕ, zero, suc, ◌+◌, ◌-◌, ◌*◌, ◌/◌, ◌%◌, ◌^◌, ◌<◌, bit_and, bit_or, bit_xor}
use mathlib.Core.Path.{◌≡◌, refl, ap}
use native.Mathlib.Omega.{arith}
use native.Mathlib.Nat.{pow-suc}
use cbmc_vboot.Prelude.Bits.Digits.{bit_and_digit}
use cbmc_vboot.Prelude.Bits.{
  testbit, testbit_le, testbit-or, testbit-xor, testbit-zero, testbit_ext, and-zero, and-le_left,
}

-- The digits under a mask and those under its complement make up the number.
pub and_split : (w v m n : ℕ) → v < 2 ^ w → m + n + 1 ≡ 2 ^ w → bit_and v m + bit_and v n ≡ v
and_split zero v m n h e = omega (arith, and-le_left v m, and-le_left v n)
and_split (suc w) v m n h e = omega (
  arith,
  bit_and_digit v m,
  bit_and_digit v n,
  pow-suc 2 w,
  and_split w (v / 2) (m / 2) (n / 2) (omega (arith, pow-suc 2 w)) (omega (arith, pow-suc 2 w)),
)

-- One digit more of a mask of ones.
and_ones : (v m : ℕ) → bit_and v (2 * m + 1) ≡ 2 * bit_and (v / 2) m + v % 2
and_ones v m =
    let half : (2 * m + 1) / 2 ≡ m = omega arith in
    omega (arith, bit_and_digit v (2 * m + 1), ap (bit_and (v / 2)) half)

-- v & 3, v & 15, and v & ~15 in 32 digits.
pub and_3 : (v : ℕ) → bit_and v 3 ≡ v % 4
and_3 v = omega (arith, and_ones v 1, and_ones (v / 2) 0, and-zero (v / 2 / 2))

pub and_15 : (v : ℕ) → bit_and v 15 ≡ v % 16
and_15 v = omega (arith, and_ones v 7, and_ones (v / 2) 3, and_3 (v / 2 / 2))

pub and_not15 : (v : ℕ) → v < 2 ^ 32 → bit_and v 0xffff_fff0 ≡ v - v % 16
and_not15 v h = omega (arith, and_split 32 v 15 0xffff_fff0 h refl, and_15 v)

-- Two numbers are equal exactly if their difference in digits is zero.
pub xor_zero : (a b : ℕ) → bit_xor a b ≡ 0 → a ≡ b
xor_zero a b h = testbit_ext a b λ k. omega (
  arith,
  testbit-xor k a b,
  ap (λ t. testbit t k) h,
  testbit-zero k,
  testbit_le k a,
  testbit_le k b,
)

pub xor_self : (a : ℕ) → bit_xor a a ≡ 0
xor_self a = testbit_ext _ _ λ k. omega (arith, testbit-xor k a a, testbit-zero k, testbit_le k a)

-- An or is zero exactly if both its parts are.
pub or-zero_left : (a b : ℕ) → bit_or a b ≡ 0 → a ≡ 0
or-zero_left a b h =
    testbit_ext a 0 λ k. omega (arith, testbit-or k a b, ap (λ t. testbit t k) h, testbit-zero k)

pub or_comm : (a b : ℕ) → bit_or a b ≡ bit_or b a
or_comm a b = testbit_ext _ _ λ k. omega (arith, testbit-or k a b, testbit-or k b a)
