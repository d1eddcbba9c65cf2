-- ===== src/Common/Compare.antt =====
-- vb2_safe_memcmp says whether two buffers are equal.
use cbmc_vboot.Prelude.{
  ℕ, ◌≡◌, refl, ap, ap₂, sym, ◌∙◌, ◌↔◌, bit_or, bit_xor, List, [], ◌∷◌, length, arith,
}
use cbmc_vboot.Prelude.Bits.{or-zero}
use cbmc_vboot.Prelude.Masks.{xor_zero, xor_self, or-zero_left, or_comm}
use cbmc_vboot.Common.{memcmp_bytes, vb2_safe_memcmp}

-- The result of the loop only grows, and on equal buffers it stays.
kept : (result : ℕ) (s1 s2 : List ℕ) → memcmp_bytes result s1 s2 ≡ 0 → result ≡ 0
unfolding memcmp_bytes
kept result [] s2 h = h
kept result (a ∷ s1) [] h = h
kept result (a ∷ s1) (b ∷ s2) h =
    or-zero_left result (bit_xor a b) (kept (bit_or result (bit_xor a b)) s1 s2 h)

same : (s : List ℕ) → memcmp_bytes 0 s s ≡ 0
unfolding memcmp_bytes
same [] = refl
same (a ∷ s) = rw (xor_self a, or-zero) (same s)

differs :
    (result : ℕ) (s1 s2 : List ℕ) → length s1 ≡ length s2 → memcmp_bytes result s1 s2 ≡ 0 → s1 ≡ s2
unfolding memcmp_bytes
differs result [] [] n h = refl
differs result [] (b ∷ s2) n h = absurd (omega (arith, n))
differs result (a ∷ s1) [] n h = absurd (omega (arith, n))
differs result (a ∷ s1) (b ∷ s2) n h =
    let clear = kept (bit_or result (bit_xor a b)) s1 s2 h in
    let equal =
      xor_zero a b (or-zero_left (bit_xor a b) result (or_comm (bit_xor a b) result ∙ clear)) in
    ap₂ ◌∷◌ equal (differs (bit_or result (bit_xor a b)) s1 s2 (omega (arith, n)) h)

-- On buffers of the same size, vb2_safe_memcmp returns 0 exactly if they are equal.
pub vb2_safe_memcmp_iff :
    (s1 s2 : List ℕ) → length s1 ≡ length s2 → (vb2_safe_memcmp s1 s2 ≡ 0) ↔ (s1 ≡ s2)
unfolding vb2_safe_memcmp
vb2_safe_memcmp_iff s1 s2 n = (
  λ h. differs 0 s1 s2 n (ground (arith, h)),
  λ e. ground (arith, ap (memcmp_bytes 0 s1) (sym e), same s1),
)
