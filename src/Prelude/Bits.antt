-- ===== src/Prelude/Bits.antt =====
-- Binary digits, and the laws of `&`, `|` and `^` that follow from them.
pub mod Digits
use Prim.Native.Nat.{
  ℕ, zero, suc, ◌+◌, ◌-◌, ◌*◌, ◌/◌, ◌%◌, ◌^◌, ◌≤◌, ◌<◌, min, max, bit_and, bit_or, bit_xor, differ,
}
use mathlib.Core.Path.{◌≡◌, refl, sym, ◌∙◌, ap, ap₂}
use native.Mathlib.Omega.{arith}
use native.Mathlib.Nat.{pow-suc, mul-one}
use Digits.{bit_and_digit, bit_or_digit, bit_xor_digit}

-- Digit `k` of `x`, counted from the lowest.
pub testbit : ℕ → ℕ → ℕ
testbit x zero = x % 2
testbit x (suc k) = testbit (x / 2) k

pub testbit_le : (k x : ℕ) → testbit x k ≤ 1
unfolding testbit
testbit_le zero x = omega arith
testbit_le (suc k) x = testbit_le k (x / 2)

differ_digits : (x y : ℕ) → x ≤ 1 → y ≤ 1 → differ x y ≡ (x + y) % 2
differ_digits zero y h k = omega arith
differ_digits (suc zero) zero h k = refl
differ_digits (suc zero) (suc zero) h k = refl
differ_digits (suc zero) (suc (suc y)) h k = absurd (omega arith)
differ_digits (suc (suc x)) y h k = absurd (omega arith)

differ_lem : (a b : ℕ) → differ (a % 2) (b % 2) ≡ (a + b) % 2
differ_lem a b = omega (arith, differ_digits (a % 2) (b % 2) (omega arith) (omega arith))

differ-le : (a b : ℕ) → differ (a % 2) (b % 2) ≤ 1
differ-le a b = omega (arith, differ_lem a b)

and_half : (a b : ℕ) → bit_and a b / 2 ≡ bit_and (a / 2) (b / 2)
and_half a b = omega (arith, bit_and_digit a b)

or_half : (a b : ℕ) → bit_or a b / 2 ≡ bit_or (a / 2) (b / 2)
or_half a b = omega (arith, bit_or_digit a b)

xor_half : (a b : ℕ) → bit_xor a b / 2 ≡ bit_xor (a / 2) (b / 2)
xor_half a b = omega (arith, bit_xor_digit a b, differ-le a b)

testbit-and : (k a b : ℕ) → testbit (bit_and a b) k ≡ min (testbit a k) (testbit b k)
unfolding testbit
testbit-and zero a b = omega (arith, bit_and_digit a b)
testbit-and (suc k) a b = rw (and_half a b) (testbit-and k (a / 2) (b / 2))

pub testbit-or : (k a b : ℕ) → testbit (bit_or a b) k ≡ max (testbit a k) (testbit b k)
unfolding testbit
testbit-or zero a b = omega (arith, bit_or_digit a b)
testbit-or (suc k) a b = rw (or_half a b) (testbit-or k (a / 2) (b / 2))

pub testbit-xor : (k a b : ℕ) → testbit (bit_xor a b) k ≡ (testbit a k + testbit b k) % 2
unfolding testbit
testbit-xor zero a b = omega (arith, bit_xor_digit a b, differ_lem a b)
testbit-xor (suc k) a b = rw (xor_half a b) (testbit-xor k (a / 2) (b / 2))

pub testbit-zero : (k : ℕ) → testbit 0 k ≡ 0
unfolding testbit
testbit-zero zero = refl
testbit-zero (suc k) = testbit-zero k

-- Numbers with the same digits are equal.
ext_fuel : (n a b : ℕ) → a + b ≤ n → ((k : ℕ) → testbit a k ≡ testbit b k) → a ≡ b
unfolding testbit
ext_fuel zero a b h e = omega arith
ext_fuel (suc n) zero zero h e = refl
ext_fuel (suc n) zero (suc b) h e =
    omega (arith, ext_fuel n 0 (suc b / 2) (omega arith) (λ k. e (suc k)), e 0)
ext_fuel (suc n) (suc a) b h e =
    omega (arith, ext_fuel n (suc a / 2) (b / 2) (omega arith) (λ k. e (suc k)), e 0)

pub testbit_ext : (a b : ℕ) → ((k : ℕ) → testbit a k ≡ testbit b k) → a ≡ b
testbit_ext a b = ext_fuel (a + b) a b (omega arith)

pub and-or_distrib : (a b c : ℕ) → bit_and (bit_or a b) c ≡ bit_or (bit_and a c) (bit_and b c)
and-or_distrib a b c = testbit_ext _ _ λ k. omega (
  arith,
  testbit-and k (bit_or a b) c,
  testbit-or k a b,
  testbit-or k (bit_and a c) (bit_and b c),
  testbit-and k a c,
  testbit-and k b c,
)

pub and_assoc : (a b c : ℕ) → bit_and (bit_and a b) c ≡ bit_and a (bit_and b c)
and_assoc a b c = testbit_ext _ _ λ k. omega (
  arith,
  testbit-and k (bit_and a b) c,
  testbit-and k a b,
  testbit-and k a (bit_and b c),
  testbit-and k b c,
)

pub and_comm : (a b : ℕ) → bit_and a b ≡ bit_and b a
and_comm a b = testbit_ext _ _ λ k. omega (arith, testbit-and k a b, testbit-and k b a)

pub and-zero : (a : ℕ) → bit_and a 0 ≡ 0
and-zero a = testbit_ext _ _ λ k. omega (arith, testbit-and k a 0, testbit-zero k)

pub or-zero : (a : ℕ) → bit_or a 0 ≡ a
or-zero a = testbit_ext _ _ λ k. omega (arith, testbit-or k a 0, testbit-zero k)

pub zero-or : (a : ℕ) → bit_or 0 a ≡ a
zero-or a = testbit_ext _ _ λ k. omega (arith, testbit-or k 0 a, testbit-zero k)

pub xor_cancel : (a b : ℕ) → bit_xor (bit_xor a b) b ≡ a
xor_cancel a b = testbit_ext _ _ λ k.
    omega (arith, testbit-xor k (bit_xor a b) b, testbit-xor k a b, testbit_le k a, testbit_le k b)

pub xor_comm : (a b : ℕ) → bit_xor a b ≡ bit_xor b a
xor_comm a b = testbit_ext _ _ λ k. omega (arith, testbit-xor k a b, testbit-xor k b a)

pub or-lt : (w a b : ℕ) → a < 2 ^ w → b < 2 ^ w → bit_or a b < 2 ^ w
or-lt zero zero zero h k = omega arith
or-lt zero zero (suc b) h k = absurd (omega arith)
or-lt zero (suc a) b h k = absurd (omega arith)
or-lt (suc w) a b h k = omega (
  arith,
  pow-suc 2 w,
  bit_or_digit a b,
  or-lt w (a / 2) (b / 2) (omega (arith, pow-suc 2 w)) (omega (arith, pow-suc 2 w)),
)

pub xor-lt : (w a b : ℕ) → a < 2 ^ w → b < 2 ^ w → bit_xor a b < 2 ^ w
xor-lt zero zero zero h k = omega arith
xor-lt zero zero (suc b) h k = absurd (omega arith)
xor-lt zero (suc a) b h k = absurd (omega arith)
xor-lt (suc w) a b h k = omega (
  arith,
  pow-suc 2 w,
  bit_xor_digit a b,
  differ-le a b,
  xor-lt w (a / 2) (b / 2) (omega (arith, pow-suc 2 w)) (omega (arith, pow-suc 2 w)),
)

pub and-le : (a b : ℕ) → bit_and a b ≤ b
and-le a b = and-le_fuel b a b (omega arith)
  where
    and-le_fuel : (n x y : ℕ) → y ≤ n → bit_and x y ≤ y
    and-le_fuel zero x zero h = omega (arith, and-zero x)
    and-le_fuel zero x (suc y) h = absurd (omega arith)
    and-le_fuel (suc n) x zero h = omega (arith, and-zero x)
    and-le_fuel (suc n) x (suc y) h =
        omega (arith, bit_and_digit x (suc y), and-le_fuel n (x / 2) (suc y / 2) (omega arith))

pub and-le_left : (a b : ℕ) → bit_and a b ≤ a
and-le_left a b = omega (arith, and_comm a b, and-le b a)

pub and_mask : (w a m : ℕ) → m < 2 ^ w → bit_and a m < 2 ^ w
and_mask w a m h = omega (arith, and-le a m)

xor_double : (a b : ℕ) → bit_xor (2 * a) (2 * b) ≡ 2 * bit_xor a b
xor_double a b = omega (
  arith,
  bit_xor_digit (2 * a) (2 * b),
  differ_lem (2 * a) (2 * b),
  ap₂ bit_xor (twice_half a) (twice_half b),
)
  where
    twice_half : (x : ℕ) → 2 * x / 2 ≡ x
    twice_half x = omega arith

pub xor_shift : (w a b : ℕ) → bit_xor (a * 2 ^ w) (b * 2 ^ w) ≡ bit_xor a b * 2 ^ w
xor_shift zero a b = omega (arith, ap₂ bit_xor (mul-one a) (mul-one b))
xor_shift (suc w) a b = omega (
  arith,
  ap₂ bit_xor (shifted a) (shifted b),
  xor_double (a * 2 ^ w) (b * 2 ^ w),
  xor_shift w a b,
  shifted (bit_xor a b),
)
  where
    shifted : (x : ℕ) → x * 2 ^ suc w ≡ 2 * (x * 2 ^ w)
    shifted x = omega (arith, ap (λ (t : ℕ). x * t) (pow-suc 2 w))

pub and_self : (a : ℕ) → bit_and a a ≡ a
and_self a = testbit_ext _ _ λ k. omega (arith, testbit-and k a a)

pub or_absorb : (a m : ℕ) → bit_or (bit_and a m) m ≡ m
or_absorb a m = testbit_ext _ _ λ k. omega (arith, testbit-or k (bit_and a m) m, testbit-and k a m)

-- `|` of digits below `2 ^ w` and digits from there on is a sum.
pub or_shift : (w a b : ℕ) → a < 2 ^ w → bit_or a (b * 2 ^ w) ≡ a + b * 2 ^ w
or_shift zero zero b h = omega (arith, zero-or (b * 1))
or_shift zero (suc a) b h = absurd (omega arith)
or_shift (suc w) a b h =
    let doubled : b * 2 ^ suc w ≡ 2 * (b * 2 ^ w) =
      omega (arith, ap (λ (t : ℕ). b * t) (pow-suc 2 w)) in
    let halved : b * 2 ^ suc w / 2 ≡ b * 2 ^ w = omega arith in
    omega (
      arith,
      doubled,
      bit_or_digit a (b * 2 ^ suc w),
      ap (bit_or (a / 2)) halved,
      or_shift w (a / 2) b (omega (arith, pow-suc 2 w)),
    )

-- A flag that is set reads as set, and other flags keep what they read.
pub flag_self : (f m : ℕ) → bit_and (bit_or f m) m ≡ m
flag_self f m = rw (and-or_distrib, and_self, or_absorb)

pub flag_other : (f m m' : ℕ) → bit_and m m' ≡ 0 → bit_and (bit_or f m) m' ≡ bit_and f m'
flag_other f m m' h = rw (and-or_distrib, h, or-zero)

-- A field of a word is replaced by clearing its mask and or-ing the new digits in. With the mask
-- `m`, the complement `n` and digits `w` under the mask, the field then reads `w`.
pub field_self :
    (p n w m : ℕ) → bit_and n m ≡ 0 → bit_and w m ≡ w → bit_and (bit_or (bit_and p n) w) m ≡ w
field_self p n w m nm wm = rw (and-or_distrib, and_assoc, nm, and-zero, wm, zero-or)

-- A field outside the mask keeps what it reads.
pub field_other :
    (p n w m m' : ℕ)
    → bit_and w m ≡ w
    → bit_and m m' ≡ 0
    → bit_and n m' ≡ m'
    → bit_and (bit_or (bit_and p n) w) m' ≡ bit_and p m'
field_other p n w m m' wm mm' nm' = rw (and-or_distrib, and_assoc p n m', nm', outside, or-zero)
  where
    outside : bit_and w m' ≡ 0
    outside = ap (λ t. bit_and t m') (sym wm) ∙ and_assoc w m m' ∙ ap (bit_and w) mm' ∙ and-zero w
