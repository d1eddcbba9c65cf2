-- ===== src/Rsa/Power.antt =====
-- firmware/2lib/2rsa.c: modpowF4 raises to the power 65537.
use cbmc_vboot.Prelude.{
  ℕ, zero, suc, ◌+◌, ◌-◌, ◌*◌, ◌%◌, ◌^◌, ◌<◌, ◌≡◌, refl, ap, ap₂, sym, subst, subst₂, ◌∙◌, arith,
  List, [], ◌∷◌, length, All, get_or, reverse, IsByte, ◌⊎◌, inl, inr, truthy, if◌then◌else◌,
}
use native.Mathlib.Nat.{mul_assoc, mul_comm, mul_left_comm, pow-suc}
use cbmc_vboot.Rsa.{words_of, bytes_of, vb2_mont_ge, sub_m, mont_mul, square_twice, modpow_f4}
use cbmc_vboot.Rsa.Value.{IsWord, value, scale}
use cbmc_vboot.Rsa.Montgomery.{scale-length}
use cbmc_vboot.Rsa.Product.{mont_mul-Product}
use cbmc_vboot.Rsa.Bytes.{
  number, length-reverse, reverse-words, reverse-reverse, words_of-words, words_of-bytes_of,
  reduce_lem,
}
use cbmc_vboot.Rsa.Congruence.{
  Congruent, Congruent-refl, Congruent-trans, Congruent-mul, Congruent-mul2, cancel, pow-one,
  pow-add, digit_inverse, scale_inverse,
}

-- The exponent after k rounds of squaring twice.
abbrev quadruple : ℕ → ℕ → ℕ
quadruple zero e = e
quadruple (suc k) e = quadruple k (e + e + (e + e))

module _ (n0inv : ℕ) (n : List ℕ) (pos : 0 < length n) (hn : All IsWord n)
    (inv : get_or n 0 0 * n0inv % 2 ^ 32 ≡ 2 ^ 32 - 1) (u : ℕ)
    (invertible : Congruent (value n) (u * scale n) 1) where
  -- t in Montgomery form.
  record Form (x : List ℕ) (t : ℕ) : Type 0 where
    words : All IsWord x
    same : length x ≡ length n
    form : Congruent (value n) (value x) (t * scale n)

  product :
      (a b : List ℕ)
      → All IsWord a
      → length a ≡ length n
      → All IsWord b
      → length b ≡ length n
      → (All IsWord (mont_mul n0inv n a b))
        × (length (mont_mul n0inv n a b) ≡ length n)
        × Congruent (value n) (scale n * value (mont_mul n0inv n a b)) (value a * value b)
  unfolding Congruent
  product a b ha la hb lb =
      let p = mont_mul-Product n0inv n a b pos lb hn ha hb inv in
      (
        p.words,
        p.same,
        (
          p.removed,
          p.added,
          ap (λ s. s * value (mont_mul n0inv n a b) + p.removed * value n)
                (sym (scale-length a n la))
              ∙ p.exact,
        ),
      )

  mont-Form : (a b : List ℕ) (s t : ℕ) → Form a s → Form b t → Form (mont_mul n0inv n a b) (s * t)
  mont-Form a b s t f g =
      let (words, same, e) = product a b f.words f.same g.words g.same in
      let r = value (mont_mul n0inv n a b) in
      let k = scale n in
      let forms = Congruent-mul2 (value n) (value a) (s * k) (value b) (t * k) f.form g.form in
      let rearranged : s * k * (t * k) ≡ k * (s * t * k) = omega (
        arith,
        mul_comm (s * k) (t * k),
        mul_assoc t k (s * k),
        mul_left_comm t k (s * k),
        mul_assoc t s k,
        mul_comm t s,
        ap (λ z. k * z) (sym (mul_assoc t s k) ∙ ap (λ z. z * k) (mul_comm t s)),
      ) in
      record {
        words = words;
        same = same;
        form = cancel (value n) k u r (s * t * k) invertible (
            Congruent-trans (value n) (k * r) (value a * value b) (k * (s * t * k)) e
              (subst (λ z. Congruent (value n) (value a * value b) z) rearranged forms));
      }

  square-Form :
      (k : ℕ) (x : List ℕ) (b e : ℕ)
      → Form x (b ^ e)
      → Form (square_twice k n0inv n x) (b ^ quadruple k e)
  unfolding square_twice
  square-Form zero x b e f = f
  square-Form (suc k) x b e f =
      let y = mont_mul n0inv n x x in
      let g = mont-Form x x (b ^ e) (b ^ e) f f in
      let h = mont-Form y y (b ^ e * b ^ e) (b ^ e * b ^ e) g g in
      let power : b ^ e * b ^ e * (b ^ e * b ^ e) ≡ b ^ (e + e + (e + e)) =
        ap₂ ◌*◌ (pow-add b e e) (pow-add b e e) ∙ pow-add b (e + e) (e + e) in
      square-Form k (mont_mul n0inv n y y) b (e + e + (e + e))
        (subst (λ t. Form (mont_mul n0inv n y y) t) power h)

  -- The first product puts the number in Montgomery form, if rr is the square of the scale.
  enter-Form :
      (a rr : List ℕ)
      → All IsWord a
      → length a ≡ length n
      → All IsWord rr
      → length rr ≡ length n
      → Congruent (value n) (value rr) (scale n * scale n)
      → Form (mont_mul n0inv n a rr) (value a ^ 1)
  enter-Form a rr ha la hr lr e =
      let (words, same, p) = product a rr ha la hr lr in
      let r = value (mont_mul n0inv n a rr) in
      let k = scale n in
      let squared : value a * (k * k) ≡ k * (value a ^ 1 * k) =
        mul_left_comm (value a) k k ∙ ap (λ z. k * (z * k)) (sym (pow-one (value a))) in
      record {
        words = words;
        same = same;
        form = cancel (value n) k u r (value a ^ 1 * k) invertible (
            Congruent-trans (value n) (k * r) (value a * value rr) (k * (value a ^ 1 * k)) p (
              subst (λ z. Congruent (value n) (value a * value rr) z) squared
                (Congruent-mul (value n) (value a) (value rr) (k * k) e)));
      }

  -- The last product, with the number itself, takes it out of that form.
  leave :
      (x a : List ℕ) (t : ℕ)
      → Form x t
      → All IsWord a
      → length a ≡ length n
      → Congruent (value n) (value (mont_mul n0inv n x a)) (t * value a)
  leave x a t f ha la =
      let (words, same, p) = product x a f.words f.same ha la in
      let r = value (mont_mul n0inv n x a) in
      let k = scale n in
      let rearranged : t * k * value a ≡ k * (t * value a) =
        mul_assoc t k (value a) ∙ mul_left_comm t k (value a) in
      cancel (value n) k u r (t * value a) invertible (
        Congruent-trans (value n) (k * r) (value x * value a) (k * (t * value a)) p (
          subst (λ z. Congruent (value n) (value x * value a) z) rearranged
            (Congruent-mul2 (value n) (value x) (t * k) (value a) (value a) f.form
              (Congruent-refl (value n) (value a)))))

reduced-Congruent : (n r x : ℕ) → (r ≡ x) ⊎ (r + n ≡ x) → Congruent n r x
unfolding Congruent
reduced-Congruent n r x (inl e) = (0, 0, ap (λ z. z + 0 * n) e)
reduced-Congruent n r x (inr e) = (1, 0, omega (arith, e))

length-bytes_of : (ws : List ℕ) → length (bytes_of ws) ≡ 4 * length ws
length-bytes_of [] = refl
length-bytes_of (w ∷ ws) = omega (arith, length-bytes_of ws)

modpow_f4_lem :
    (n0inv : ℕ) (n rr inout : List ℕ)
    → 0 < length n
    → All IsWord n
    → All IsWord rr
    → length rr ≡ length n
    → All IsByte inout
    → length inout ≡ 4 * length n
    → get_or n 0 0 * n0inv % 2 ^ 32 ≡ 2 ^ 32 - 1
    → Congruent (value n) (value rr) (scale n * scale n)
    → (length (modpow_f4 n0inv n rr inout) ≡ 4 * length n)
      × Congruent (value n) (number (modpow_f4 n0inv n rr inout)) (number inout ^ 65537)
unfolding modpow_f4 number
modpow_f4_lem n0inv n rr inout pos hn hr lr hi li inv square =
    let (y, digit) = digit_inverse n0inv n pos inv in
    let (u, invertible) = scale_inverse (value n) y n digit in
    let (w, lw) = words_of-words (length n) inout hi li in
    let a = reverse (words_of inout) in
    let ha = reverse-words (words_of inout) w in
    let la : length a ≡ length n = length-reverse (words_of inout) ∙ lw in
    let entered = enter-Form n0inv n pos hn inv u invertible a rr ha la hr lr square in
    let squared =
      square-Form n0inv n pos hn inv u invertible 8 (mont_mul n0inv n a rr) (value a) 1 entered in
    let aR = square_twice 8 n0inv n (mont_mul n0inv n a rr) in
    let left = leave n0inv n pos hn inv u invertible aR a (value a ^ 65536) squared ha la in
    let (hp, lp, _) =
      product n0inv n pos hn inv u invertible aR a squared.words squared.same ha la in
    let reduced = reduce_lem n (mont_mul n0inv n aR a) hp hn lp in
    let result =
      if truthy (vb2_mont_ge n (mont_mul n0inv n aR a))
      then sub_m n (mont_mul n0inv n aR a)
      else mont_mul n0inv n aR a in
    let count : length result ≡ length n = reduced.1 in
    let read_back : value (reverse (words_of (bytes_of (reverse result)))) ≡ value result =
      ap (λ ws. value (reverse ws))
        (words_of-bytes_of (reverse result) (reverse-words result reduced.0))
      ∙ ap value (reverse-reverse result) in
    let last =
      reduced-Congruent (value n) (value result) (value (mont_mul n0inv n aR a)) reduced.2 in
    (
      length-bytes_of (reverse result) ∙ ap (λ k. 4 * k) (length-reverse result ∙ count),
      subst₂ (Congruent (value n)) (sym read_back) (sym (pow-suc (value a) 65536)) (
          Congruent-trans (value n) (value result) (value (mont_mul n0inv n aR a))
            (value a ^ 65536 * value a) last left),
    )

pub length-modpow_f4 :
    (n0inv : ℕ) (n rr inout : List ℕ)
    → 0 < length n
    → All IsWord n
    → All IsWord rr
    → length rr ≡ length n
    → All IsByte inout
    → length inout ≡ 4 * length n
    → get_or n 0 0 * n0inv % 2 ^ 32 ≡ 2 ^ 32 - 1
    → Congruent (value n) (value rr) (scale n * scale n)
    → length (modpow_f4 n0inv n rr inout) ≡ 4 * length n
length-modpow_f4 n0inv n rr inout pos hn hr lr hi li inv square =
    (modpow_f4_lem n0inv n rr inout pos hn hr lr hi li inv square).0

-- For a modulus n of one word or more, n0inv minus the inverse of its lowest word modulo 2 ^ 32, rr
-- congruent to the square of 2 ^ 32 to the number of words, and an input of four bytes for each word,
-- modpowF4 gives bytes whose number is congruent modulo n to the input's number to the power 65537.
pub modpow_f4-Power :
    (n0inv : ℕ) (n rr inout : List ℕ)
    → 0 < length n
    → All IsWord n
    → All IsWord rr
    → length rr ≡ length n
    → All IsByte inout
    → length inout ≡ 4 * length n
    → get_or n 0 0 * n0inv % 2 ^ 32 ≡ 2 ^ 32 - 1
    → Congruent (value n) (value rr) (scale n * scale n)
    → Congruent (value n) (number (modpow_f4 n0inv n rr inout)) (number inout ^ 65537)
modpow_f4-Power n0inv n rr inout pos hn hr lr hi li inv square =
    (modpow_f4_lem n0inv n rr inout pos hn hr lr hi li inv square).1
