-- ===== src/Prelude/Bits/Digits.antt =====
-- The native `&`, `|` and `^` stand for a recursion on binary digits with fuel. Here the fuel goes:
-- the lowest digit of the result, and the rest.
use Prim.Native.Nat.{
  ℕ, zero, suc, ◌+◌, ◌*◌, ◌/◌, ◌%◌, ◌≤◌, min, max, bit_and, bit_or, bit_xor, digits, differ,
  bit_and-bitwise, bit_or-bitwise, bit_xor-bitwise,
}
use mathlib.Core.Path.{◌≡◌, refl}
use native.Mathlib.Omega.{arith}

module _ (rest : ℕ → ℕ) (digit : ℕ → ℕ → ℕ) where
  -- Any two amounts of fuel from `a` on agree.
  enough : (s t a b : ℕ) → a ≤ s → a ≤ t → digits rest digit s a b ≡ digits rest digit t a b
  enough zero zero a b _ _ = refl
  enough zero (suc t) zero b _ _ = refl
  enough (suc s) zero zero b _ _ = refl
  enough (suc s) (suc t) zero b _ _ = refl
  enough zero _ (suc a) b h _ = absurd (omega arith)
  enough (suc s) zero (suc a) b _ h = absurd (omega arith)
  enough (suc s) (suc t) (suc a) b h k =
      omega (arith, enough s t (suc a / 2) (b / 2) (omega arith) (omega arith))

pub bit_and_digit : (a b : ℕ) → bit_and a b ≡ 2 * bit_and (a / 2) (b / 2) + min (a % 2) (b % 2)
bit_and_digit zero b = omega (arith, bit_and-bitwise 0 b, bit_and-bitwise 0 (b / 2))
bit_and_digit (suc a) b =
    let half : ℕ = suc a / 2 in
    omega (
      arith,
      bit_and-bitwise (suc a) b,
      bit_and-bitwise half (b / 2),
      enough (λ _. 0) min a half half (b / 2) (omega arith) (omega arith),
    )

pub bit_or_digit : (a b : ℕ) → bit_or a b ≡ 2 * bit_or (a / 2) (b / 2) + max (a % 2) (b % 2)
bit_or_digit zero b = omega (arith, bit_or-bitwise 0 b, bit_or-bitwise 0 (b / 2))
bit_or_digit (suc a) b =
    let half : ℕ = suc a / 2 in
    omega (
      arith,
      bit_or-bitwise (suc a) b,
      bit_or-bitwise half (b / 2),
      enough (λ y. y) max a half half (b / 2) (omega arith) (omega arith),
    )

pub bit_xor_digit : (a b : ℕ) → bit_xor a b ≡ 2 * bit_xor (a / 2) (b / 2) + differ (a % 2) (b % 2)
bit_xor_digit zero b = omega (arith, bit_xor-bitwise 0 b, bit_xor-bitwise 0 (b / 2))
bit_xor_digit (suc a) b =
    let half : ℕ = suc a / 2 in
    omega (
      arith,
      bit_xor-bitwise (suc a) b,
      bit_xor-bitwise half (b / 2),
      enough (λ y. y) differ a half half (b / 2) (omega arith) (omega arith),
    )
