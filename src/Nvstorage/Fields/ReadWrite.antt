-- ===== src/Nvstorage/Fields/ReadWrite.antt =====
-- What vb2_nv_get reads after vb2_nv_set wrote: the same parameter, and every other.
use cbmc_vboot.Prelude.{
  ℕ, ◌+◌, ◌*◌, ◌/◌, ◌%◌, ◌^◌, ◌<◌, ◌≡◌, refl, subst, sym, ap, ◌∙◌, inl, inr, bit_and, bit_or, Bool,
  true, false, ◌&&◌, ◌||◌, List, ◌==◌, truthy, if◌then◌else◌, set, length, arith, Bool-cases,
  get_or-set_self, get_or-set_ne, length-set,
}
use cbmc_vboot.Prelude.Bits.{
  and_assoc, and-zero, flag_self, flag_other, field_self, field_other, or_shift,
}
use cbmc_vboot.Nvstorage.{
  NvParam, firmware_settings_reset, try_count, fw_result, fw_prev_result, recovery_request,
  recovery_subcode, localization_index, kernel_field, dev_default_boot, offs_kernel, not8, byte_at,
  read_param, write_param,
}
use cbmc_vboot.Nvstorage.Layout.{
  offs_of, mask_of, is_whole, same, same_iff, layout_separate, layout_apart,
}
use cbmc_vboot.Nvstorage.Fields.{
  stored_value, placed, flipped, replaced, new_byte, owned, decode, read-decode, write-set,
  placed-mask,
}

flipped-owned :
    (m v x : ℕ) → bit_and (not8 m) m ≡ 0 → bit_and (flipped m v x) m ≡ (if truthy v then m else 0)
unfolding flipped
flipped-owned m v x h = elim (Bool-cases (truthy v)) [
  | inl e ↦ rw e (flag_self x m)
  | inr e ↦ rw (e, and_assoc, h) (and-zero x)
]

flipped-other :
    (m v x m' : ℕ)
    → bit_and m m' ≡ 0
    → bit_and (not8 m) m' ≡ m'
    → bit_and (flipped m v x) m' ≡ bit_and x m'
unfolding flipped
flipped-other m v x m' h k = elim (Bool-cases (truthy v)) [
  | inl e ↦ rw e (flag_other x m m' h)
  | inr e ↦ rw (e, and_assoc, k) refl
]

new_byte-owned : (p : NvParam) (v x : ℕ) → owned p (new_byte p v x) ≡ placed p v
unfolding owned new_byte replaced
new_byte-owned firmware_settings_reset v x = unfold placed in flipped-owned 0x20 v x refl
new_byte-owned try_count v x = field_self x 0xf0 _ 0x0f refl (placed-mask try_count v refl)
new_byte-owned fw_result v x = field_self x 0xfc _ 0x03 refl (placed-mask fw_result v refl)
new_byte-owned fw_prev_result v x =
    field_self x 0xcf _ 0x30 refl (placed-mask fw_prev_result v refl)
new_byte-owned dev_default_boot v x =
    field_self x 0xcf _ 0x30 refl (placed-mask dev_default_boot v refl)
new_byte-owned recovery_request v x = refl
new_byte-owned recovery_subcode v x = refl
new_byte-owned localization_index v x = refl
new_byte-owned kernel_field v x = refl
new_byte-owned p v x = unfold placed in flipped-owned (mask_of p) v x refl

pub new_byte-other :
    (p : NvParam) (v x m' : ℕ)
    → is_whole p ≡ false
    → bit_and (mask_of p) m' ≡ 0
    → bit_and (not8 (mask_of p)) m' ≡ m'
    → bit_and (new_byte p v x) m' ≡ bit_and x m'
unfolding new_byte replaced
new_byte-other firmware_settings_reset v x m' w h k = flipped-other 0x20 v x m' h k
new_byte-other try_count v x m' w h k = field_other x 0xf0 _ 0x0f m' (placed-mask try_count v w) h k
new_byte-other fw_result v x m' w h k = field_other x 0xfc _ 0x03 m' (placed-mask fw_result v w) h k
new_byte-other fw_prev_result v x m' w h k =
    field_other x 0xcf _ 0x30 m' (placed-mask fw_prev_result v w) h k
new_byte-other dev_default_boot v x m' w h k =
    field_other x 0xcf _ 0x30 m' (placed-mask dev_default_boot v w) h k
new_byte-other recovery_request v x m' w h k = cc
new_byte-other recovery_subcode v x m' w h k = cc
new_byte-other localization_index v x m' w h k = cc
new_byte-other kernel_field v x m' w h k = cc
new_byte-other p v x m' w h k = flipped-other (mask_of p) v x m' h k

decode-placed :
    (p : NvParam) (v : ℕ) → same p kernel_field ≡ false → decode p (placed p v) ≡ stored_value p v
unfolding decode placed
decode-placed firmware_settings_reset v h = ground arith
decode-placed try_count v h = ground arith
decode-placed fw_result v h = ground arith
decode-placed fw_prev_result v h = ground arith
decode-placed dev_default_boot v h = ground arith
decode-placed recovery_request v h = ground arith
decode-placed recovery_subcode v h = ground arith
decode-placed localization_index v h = ground arith
decode-placed kernel_field v h = cc
decode-placed _ v h = ground arith

-- Byte `i` holds some of parameter `q`.
abbrev pub owns : NvParam → ℕ → Bool
owns q i =
    (offs_of q == i)
    || (same q kernel_field
        && ((i == offs_kernel + 1) || (i == offs_kernel + 2) || (i == offs_kernel + 3)))

kernel-set_ne :
    (nv : List ℕ) (i c : ℕ)
    → owns kernel_field i ≡ false
    → read_param (set nv i c) kernel_field ≡ read_param nv kernel_field
unfolding read_param
kernel-set_ne nv i c h = rw (
  get_or-set_ne nv i 11 c 0 (ground arith),
  get_or-set_ne nv i 12 c 0 (ground arith),
  get_or-set_ne nv i 13 c 0 (ground arith),
  get_or-set_ne nv i 14 c 0 (ground arith),
)

-- A byte that holds none of a parameter may change.
pub read-set_ne :
    (nv : List ℕ) (q : NvParam) (i c : ℕ)
    → owns q i ≡ false
    → read_param (set nv i c) q ≡ read_param nv q
read-set_ne nv q i c h = elim (Bool-cases (same q kernel_field)) [
  | inl k ↦
      subst (λ p. owns p i ≡ false → read_param (set nv i c) p ≡ read_param nv p)
        (sym (same_iff q kernel_field k)) (kernel-set_ne nv i c) h
  | inr k ↦
      read-decode (set nv i c) q k
      ∙ ap (λ b. decode q (owned q b)) (get_or-set_ne nv i (offs_of q) c 0 (ground arith))
      ∙ sym (read-decode nv q k)
]

-- Below a kernel field, the other parameters.
other-write_kernel :
    (nv : List ℕ) (q : NvParam) (v : ℕ)
    → same q kernel_field ≡ false
    → read_param (write_param nv kernel_field v) q ≡ read_param nv q
unfolding write_param
other-write_kernel nv q v k =
    let (b0, b1, b2, b3) = bytes in
    read-set_ne _ q 14 _ b3
    ∙ read-set_ne _ q 13 _ b2
    ∙ read-set_ne _ q 12 _ b1
    ∙ read-set_ne nv q 11 _ b0
  where
    bytes : (owns q 11 ≡ false) × (owns q 12 ≡ false) × (owns q 13 ≡ false) × (owns q 14 ≡ false)
    bytes = ground (arith, layout_separate q kernel_field k, layout_apart q)

-- Two parameters in one byte, under disjoint masks.
same_byte :
    (nv : List ℕ) (p q : NvParam) (v : ℕ)
    → same p kernel_field ≡ false
    → same q kernel_field ≡ false
    → same p q ≡ false
    → offs_of p ≡ offs_of q
    → owned q (new_byte p v (byte_at nv (offs_of p))) ≡ owned q (byte_at nv (offs_of p))
unfolding owned
same_byte nv p q v kp kq h e =
    ground (arith, layout_separate p q h, new_byte-other p v (byte_at nv (offs_of p)) (mask_of q))

in_range : (nv : List ℕ) (p : NvParam) → length nv ≡ 16 → offs_of p < length nv
in_range nv p h = ground (arith, layout_apart p)

not_kernel : (p : NvParam) → same p kernel_field ≡ false → owns kernel_field (offs_of p) ≡ false
not_kernel p h = ground (arith, layout_separate p kernel_field h, layout_apart p)

other-write :
    (nv : List ℕ) (p q : NvParam) (v : ℕ)
    → length nv ≡ 16
    → same p kernel_field ≡ false
    → same p q ≡ false
    → read_param (write_param nv p v) q ≡ read_param nv q
other-write nv p q v n kp h =
    ap (λ l. read_param l q) (write-set nv p v kp) ∙ elim (Bool-cases (owns q (offs_of p))) [
      | inr apart ↦ read-set_ne nv q (offs_of p) _ apart
      | inl shared ↦
          read-decode _ q (kq shared)
          ∙ ap (λ b. decode q (owned q b)) (byte_after shared)
          ∙ ap (decode q) (
              same_byte nv p q v kp (kq shared) h (eq shared)
              ∙ ap (λ o. owned q (byte_at nv o)) (eq shared))
          ∙ sym (read-decode nv q (kq shared))
    ]
  where
    kq : owns q (offs_of p) ≡ true → same q kernel_field ≡ false
    kq s = elim (Bool-cases (same q kernel_field)) [
      | inr other ↦ other
      | inl k ↦
          cc (subst (λ r. owns r (offs_of p) ≡ true) (same_iff q kernel_field k) s, not_kernel p kp)
    ]

    eq : owns q (offs_of p) ≡ true → offs_of p ≡ offs_of q
    eq s = ground (arith, layout_apart p)

    byte_after :
        owns q (offs_of p) ≡ true
        → byte_at (set nv (offs_of p) (new_byte p v (byte_at nv (offs_of p)))) (offs_of q)
          ≡ new_byte p v (byte_at nv (offs_of p))
    byte_after s =
        ap (byte_at _) (sym (eq s)) ∙ get_or-set_self nv (offs_of p) _ 0 (in_range nv p n)

pub read-write_other :
    (nv : List ℕ) (p q : NvParam) (v : ℕ)
    → length nv ≡ 16
    → same p q ≡ false
    → read_param (write_param nv p v) q ≡ read_param nv q
read-write_other nv p q v n h = elim (Bool-cases (same p kernel_field)) [
  | inr other ↦ other-write nv p q v n other h
  | inl k ↦ kernel (same_iff p kernel_field k)
]
  where
    kernel : p ≡ kernel_field → read_param (write_param nv p v) q ≡ read_param nv q
    kernel e =
        subst (λ r. same r q ≡ false → read_param (write_param nv r v) q ≡ read_param nv q) (sym e)
          (λ h'. other-write_kernel nv q v (ground arith)) h

abbrev four_set : List ℕ → ℕ → ℕ → ℕ → ℕ → List ℕ
four_set nv b0 b1 b2 b3 = set (set (set (set nv 11 b0) 12 b1) 13 b2) 14 b3

four_set_lem :
    (nv : List ℕ) (b0 b1 b2 b3 : ℕ)
    → length nv ≡ 16
    → let l = four_set nv b0 b1 b2 b3 in
      (byte_at l 11 ≡ b0) × (byte_at l 12 ≡ b1) × (byte_at l 13 ≡ b2) × (byte_at l 14 ≡ b3)
four_set_lem nv b0 b1 b2 b3 n = (
  get_or-set_ne s2 14 11 b3 0 (omega arith)
      ∙ get_or-set_ne s1 13 11 b2 0 (omega arith)
      ∙ get_or-set_ne s0 12 11 b1 0 (omega arith)
      ∙ get_or-set_self nv 11 b0 0 (omega arith),
  get_or-set_ne s2 14 12 b3 0 (omega arith)
      ∙ get_or-set_ne s1 13 12 b2 0 (omega arith)
      ∙ get_or-set_self s0 12 b1 0 (omega (arith, l0)),
  get_or-set_ne s2 14 13 b3 0 (omega arith) ∙ get_or-set_self s1 13 b2 0 (omega (arith, l1)),
  get_or-set_self s2 14 b3 0 (omega (arith, l2)),
)
  where
    s0 : List ℕ
    s0 = set nv 11 b0

    s1 : List ℕ
    s1 = set s0 12 b1

    s2 : List ℕ
    s2 = set s1 13 b2

    l0 : length (set nv 11 b0) ≡ 16
    l0 = length-set nv 11 b0 ∙ n

    l1 : length (set (set nv 11 b0) 12 b1) ≡ 16
    l1 = length-set _ 12 b1 ∙ l0

    l2 : length (set (set (set nv 11 b0) 12 b1) 13 b2) ≡ 16
    l2 = length-set _ 13 b2 ∙ l1

four_or :
    (a b c d : ℕ)
    → a < 256
    → b < 256
    → c < 256
    → bit_or (bit_or (bit_or a (b * 2 ^ 8)) (c * 2 ^ 16)) (d * 2 ^ 24)
      ≡ a + b * 2 ^ 8 + c * 2 ^ 16 + d * 2 ^ 24
four_or a b c d ha hb hc =
    rw (or_shift 8 a b ha, or_shift 16 (a + b * 2 ^ 8) c (omega arith))
      (or_shift 24 (a + b * 2 ^ 8 + c * 2 ^ 16) d (omega arith))

-- Four bytes make a word.
pub four_or-lt :
    (a b c d : ℕ)
    → a < 256
    → b < 256
    → c < 256
    → d < 256
    → bit_or (bit_or (bit_or a (b * 2 ^ 8)) (c * 2 ^ 16)) (d * 2 ^ 24) < 2 ^ 32
four_or-lt a b c d ha hb hc hd = omega (arith, four_or a b c d ha hb hc)

kernel-write_self :
    (nv : List ℕ) (v : ℕ)
    → length nv ≡ 16
    → read_param (write_param nv kernel_field v) kernel_field ≡ v % 2 ^ 32
unfolding read_param write_param
kernel-write_self nv v n =
    let (e0, e1, e2, e3) =
      four_set_lem nv (v % 2 ^ 8) (v / 2 ^ 8 % 2 ^ 8) (v / 2 ^ 16 % 2 ^ 8) (v / 2 ^ 24 % 2 ^ 8) n in
    rw (e0, e1, e2, e3)
      (four_or (v % 2 ^ 8) (v / 2 ^ 8 % 2 ^ 8) (v / 2 ^ 16 % 2 ^ 8) (v / 2 ^ 24 % 2 ^ 8)
          (omega arith) (omega arith) (omega arith)
        ∙ omega arith)

self-write :
    (nv : List ℕ) (p : NvParam) (v : ℕ)
    → length nv ≡ 16
    → same p kernel_field ≡ false
    → read_param (write_param nv p v) p ≡ stored_value p v
self-write nv p v n k =
    ap (λ l. read_param l p) (write-set nv p v k)
    ∙ read-decode _ p k
    ∙ ap (λ b. decode p (owned p b)) (get_or-set_self nv (offs_of p) _ 0 (in_range nv p n))
    ∙ ap (decode p) (new_byte-owned p v (byte_at nv (offs_of p)))
    ∙ decode-placed p v k

pub read-write_self :
    (nv : List ℕ) (p : NvParam) (v : ℕ)
    → length nv ≡ 16
    → read_param (write_param nv p v) p ≡ stored_value p v
read-write_self nv p v n = elim (Bool-cases (same p kernel_field)) [
  | inr other ↦ self-write nv p v n other
  | inl k ↦
      subst (λ r. read_param (write_param nv r v) r ≡ stored_value r v)
        (sym (same_iff p kernel_field k)) (kernel-write_self nv v n)
]
