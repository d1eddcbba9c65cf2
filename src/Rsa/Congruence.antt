-- ===== src/Rsa/Congruence.antt =====
-- Congruence modulo n, powers, and the inverse of 2 ^ 32 that firmware/2lib/2rsa.c relies on.
use cbmc_vboot.Prelude.{
  ℕ, zero, suc, ◌+◌, ◌-◌, ◌*◌, ◌/◌, ◌%◌, ◌^◌, ◌<◌, ◌≡◌, refl, ap, sym, subst, subst₂, ◌∙◌, arith,
  List, [], ◌∷◌, length, get_or,
}
use native.Mathlib.Nat.{add-mul, mul_assoc, mul-add, mul_comm, add-zero, pow-zero, pow-suc}
use cbmc_vboot.Rsa.Value.{value, scale, product-value}

-- Congruence modulo n.
unfoldable pub Congruent : (n x y : ℕ) → Type 0
Congruent n x y = (i : ℕ) × (j : ℕ) × (x + i * n ≡ y + j * n)

module _ (n : ℕ) where
  pub Congruent-refl : (x : ℕ) → Congruent n x x
  unfolding Congruent
  Congruent-refl x = (0, 0, refl)

  pub Congruent-sym : (x y : ℕ) → Congruent n x y → Congruent n y x
  unfolding Congruent
  Congruent-sym x y (i, j, e) = (j, i, sym e)

  pub Congruent-trans : (x y z : ℕ) → Congruent n x y → Congruent n y z → Congruent n x z
  unfolding Congruent
  Congruent-trans x y z (i, j, e) (k, l, f) =
      (i + k, l + j, omega (arith, e, f, add-mul i k n, add-mul l j n))

  pub Congruent-mul : (a x y : ℕ) → Congruent n x y → Congruent n (a * x) (a * y)
  unfolding Congruent
  Congruent-mul a x y (i, j, e) = (
    a * i,
    a * j,
    omega (
      arith,
      ap (λ z. a * z) e,
      mul-add a x (i * n),
      mul-add a y (j * n),
      mul_assoc a i n,
      mul_assoc a j n,
    ),
  )

  pub Congruent-mul2 :
      (x x' y y' : ℕ) → Congruent n x x' → Congruent n y y' → Congruent n (x * y) (x' * y')
  Congruent-mul2 x x' y y' e f =
      Congruent-trans (x * y) (x * y') (x' * y') (Congruent-mul x y y' f)
        (subst₂ (Congruent n) (mul_comm y' x) (mul_comm y' x') (Congruent-mul y' x x' e))

  -- A factor that has an inverse can be taken away.
  pub cancel : (r u x y : ℕ) → Congruent n (u * r) 1 → Congruent n (r * x) (r * y) → Congruent n x y
  cancel r u x y inv e =
      Congruent-trans x (u * (r * x)) y (Congruent-sym (u * (r * x)) x (unit x))
        (Congruent-trans (u * (r * x)) (u * (r * y)) y (Congruent-mul u (r * x) (r * y) e) (unit y))
    where
      unit : (z : ℕ) → Congruent n (u * (r * z)) z
      unit z =
          let whole : z * (u * r) ≡ u * (r * z) = mul_comm z (u * r) ∙ mul_assoc u r z in
          let one : z * 1 ≡ z = omega arith in
          subst₂ (Congruent n) whole one (Congruent-mul z (u * r) 1 inv)

pub pow-one : (t : ℕ) → t ^ 1 ≡ t
pow-one t = pow-suc t 0 ∙ ap (λ z. z * t) (pow-zero t) ∙ omega arith

pub pow-add : (t a b : ℕ) → t ^ a * t ^ b ≡ t ^ (a + b)
pow-add t a zero = rw (pow-zero, add-zero) (omega arith)
pow-add t a (suc b) =
    ap (λ z. t ^ a * z) (pow-suc t b)
    ∙ sym (mul_assoc (t ^ a) (t ^ b) t)
    ∙ ap (λ z. z * t) (pow-add t a b)
    ∙ sym (pow-suc t (a + b))
    ∙ ap (λ z. t ^ z) (omega arith)

-- 2 ^ 32 has an inverse modulo n, as n has one modulo 2 ^ 32.
pub digit_inverse :
    (n0inv : ℕ) (n : List ℕ)
    → 0 < length n
    → get_or n 0 0 * n0inv % 2 ^ 32 ≡ 2 ^ 32 - 1
    → (y : ℕ) × Congruent (value n) (y * 2 ^ 32) 1
unfolding Congruent value
digit_inverse n0inv [] pos inv = absurd (omega (arith, pos))
digit_inverse n0inv (n0 ∷ n) pos inv = (
  n0 * n0inv / 2 ^ 32 + 1 + value n * n0inv,
  (
    0,
    n0inv,
    omega
        (arith, inv, product-value n0inv n0 (value n), mul_comm n0inv n0, mul_comm n0inv (value n)),
  ),
)

regroup : (a b c d : ℕ) → a * b * (c * d) ≡ a * c * (d * b)
regroup a b c d =
    mul_assoc a b (c * d)
    ∙ ap (λ z. a * z) (mul_comm b (c * d) ∙ mul_assoc c d b)
    ∙ sym (mul_assoc a c (d * b))

pub scale_inverse :
    (n y : ℕ) (ws : List ℕ) → Congruent n (y * 2 ^ 32) 1 → (u : ℕ) × Congruent n (u * scale ws) 1
unfolding scale
scale_inverse n y [] e = (1, Congruent-refl n 1)
scale_inverse n y (w ∷ ws) e =
    let (u, f) = scale_inverse n y ws e in
    (
      u * y,
      subst (λ z. Congruent n z 1) (regroup u (scale ws) y (2 ^ 32))
          (Congruent-mul2 n (u * scale ws) 1 (y * 2 ^ 32) 1 f e),
    )
