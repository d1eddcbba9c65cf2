-- ===== src/Nvstorage/Fields/Ranges.antt =====
-- The storage stays sixteen bytes, and what is read from it is in range.
use cbmc_vboot.Prelude.{
  ℕ, ◌<◌, ◌≡◌, refl, sym, ap, ◌∙◌, ◌≢◌, ◌⊎◌, inl, inr, bit_and, subst, true, false, List, [], ◌∷◌,
  ◌==◌, set, length, All, IsByte, arith, Bool-cases, get_or-set_self, get_or-set_ne, length-set,
  All-set, All-get_or,
}
use cbmc_vboot.Prelude.Bits.{and-le, and-le_left, or-lt}
use cbmc_vboot.Nvstorage.{
  NvParam, firmware_settings_reset, try_count, fw_result, fw_prev_result, recovery_request,
  recovery_subcode, localization_index, kernel_field, dev_default_boot, not8, byte_at, read_param,
  write_param,
}
use cbmc_vboot.Nvstorage.Layout.{offs_of, mask_of, same, same_iff, layout_off_signature}
use cbmc_vboot.Nvstorage.Fields.{stored_value, placed, flipped, replaced, new_byte, write-set}
use cbmc_vboot.Nvstorage.Fields.ReadWrite.{four_or-lt, new_byte-other}

-- Sixteen bytes.
pub record IsNv (nv : List ℕ) : Type 0 where
  pub sized : length nv ≡ 16
  pub bytes : All IsByte nv

pub byte_at-lt : (nv : List ℕ) (i : ℕ) → All IsByte nv → byte_at nv i < 256
byte_at-lt nv i h = All-get_or IsByte nv i 0 (omega arith) h

pub set-IsNv : (nv : List ℕ) (i v : ℕ) → v < 256 → IsNv nv → IsNv (set nv i v)
set-IsNv nv i v h w = record {
  sized = length-set nv i v ∙ w.sized;
  bytes = All-set IsByte nv i v h w.bytes;
}

flipped-lt : (m v x : ℕ) → m < 256 → x < 256 → flipped m v x < 256
unfolding flipped
flipped-lt m v x h k = ground (arith, or-lt 8 x m, and-le_left x (not8 m))

replaced-lt : (p : NvParam) (v x : ℕ) → x < 256 → placed p v < 256 → replaced p v x < 256
unfolding replaced
replaced-lt p v x h k =
    or-lt 8 (bit_and x (not8 (mask_of p))) (placed p v)
      (omega (arith, and-le_left x (not8 (mask_of p)))) k

new_byte-lt : (p : NvParam) (v x : ℕ) → x < 256 → new_byte p v x < 256
unfolding new_byte
new_byte-lt firmware_settings_reset v x h = flipped-lt 0x20 v x (omega arith) h
new_byte-lt try_count v x h = replaced-lt try_count v x h (unfold placed in omega arith)
new_byte-lt fw_result v x h = replaced-lt fw_result v x h (unfold placed in omega arith)
new_byte-lt fw_prev_result v x h = replaced-lt fw_prev_result v x h (unfold placed in omega arith)
new_byte-lt dev_default_boot v x h =
    replaced-lt dev_default_boot v x h (unfold placed in omega arith)
new_byte-lt recovery_request v x h = unfold placed in omega arith
new_byte-lt recovery_subcode v x h = unfold placed in omega arith
new_byte-lt localization_index v x h = unfold placed in omega arith
new_byte-lt kernel_field v x h = unfold placed in omega arith
new_byte-lt p v x h = flipped-lt (mask_of p) v x (omega arith) h

kernel-IsNv : (nv : List ℕ) (v : ℕ) → IsNv nv → IsNv (write_param nv kernel_field v)
unfolding write_param
kernel-IsNv nv v w = set-IsNv _ 14 _ (omega arith) (
    set-IsNv _ 13 _ (omega arith)
      (set-IsNv _ 12 _ (omega arith) (set-IsNv nv 11 _ (omega arith) w)))

pub write-IsNv : (nv : List ℕ) (p : NvParam) (v : ℕ) → IsNv nv → IsNv (write_param nv p v)
write-IsNv nv p v w = elim (Bool-cases (same p kernel_field)) [
  | inl k ↦
      subst (λ r. IsNv (write_param nv r v)) (sym (same_iff p kernel_field k)) (kernel-IsNv nv v w)
  | inr k ↦
      subst IsNv (sym (write-set nv p v k))
        (set-IsNv nv (offs_of p) _ (new_byte-lt p v _ (byte_at-lt nv (offs_of p) w.bytes)) w)
]

-- What is read is in range already.
pub read_in_range :
    (nv : List ℕ) (p : NvParam) → All IsByte nv → stored_value p (read_param nv p) ≡ read_param nv p
unfolding read_param
read_in_range nv firmware_settings_reset h = ground arith
read_in_range nv try_count h = ground (arith, and-le (byte_at nv 1) 0x0f)
read_in_range nv fw_result h = ground (arith, and-le (byte_at nv 7) 0x03)
read_in_range nv fw_prev_result h = ground (arith, and-le (byte_at nv 7) 0x30)
read_in_range nv dev_default_boot h = ground (arith, and-le (byte_at nv 4) 0x30)
read_in_range nv recovery_request h = ground (arith, byte_at-lt nv 2 h)
read_in_range nv recovery_subcode h = ground (arith, byte_at-lt nv 6 h)
read_in_range nv localization_index h = ground (arith, byte_at-lt nv 3 h)
read_in_range nv kernel_field h = omega (
  arith,
  four_or-lt (byte_at nv 11) (byte_at nv 12) (byte_at nv 13) (byte_at nv 14) (byte_at-lt nv 11 h)
      (byte_at-lt nv 12 h) (byte_at-lt nv 13 h) (byte_at-lt nv 14 h),
)
read_in_range nv _ h = ground arith

-- The header's signature is no parameter's.
signature-set :
    (nv : List ℕ) (i v : ℕ)
    → i ≢ 0
    → bit_and (byte_at (set nv i v) 0) 0xc0 ≡ bit_and (byte_at nv 0) 0xc0
signature-set nv i v h = ap (λ b. bit_and b 0xc0) (get_or-set_ne nv i 0 v 0 h)

kernel-signature :
    (nv : List ℕ) (v : ℕ)
    → bit_and (byte_at (write_param nv kernel_field v) 0) 0xc0 ≡ bit_and (byte_at nv 0) 0xc0
unfolding write_param
kernel-signature [] v = refl
kernel-signature (b ∷ nv) v = refl

-- A byte is written at the start: its signature bits stay.
head-signature :
    (nv : List ℕ) (p : NvParam) (v : ℕ)
    → 0 < length nv
    → offs_of p ≡ 0
    → bit_and (byte_at (set nv (offs_of p) (new_byte p v (byte_at nv (offs_of p)))) 0) 0xc0
      ≡ bit_and (byte_at nv 0) 0xc0
head-signature nv p v n e = rw e (
    ap (λ b. bit_and b 0xc0) (get_or-set_self nv 0 (new_byte p v (byte_at nv 0)) 0 n)
    ∙ ground (arith, layout_off_signature p, new_byte-other p v (byte_at nv 0) 0xc0))

pub write-signature :
    (nv : List ℕ) (p : NvParam) (v : ℕ)
    → 0 < length nv
    → bit_and (byte_at (write_param nv p v) 0) 0xc0 ≡ bit_and (byte_at nv 0) 0xc0
write-signature nv p v n = elim (Bool-cases (same p kernel_field)) [
  | inl k ↦
      subst (λ r. bit_and (byte_at (write_param nv r v) 0) 0xc0 ≡ bit_and (byte_at nv 0) 0xc0)
        (sym (same_iff p kernel_field k)) (kernel-signature nv v)
  | inr k ↦
      ap (λ l. bit_and (byte_at l 0) 0xc0) (write-set nv p v k)
      ∙ placed_at (Bool-cases (offs_of p == 0))
]
  where
    placed_at :
        ((offs_of p == 0) ≡ true) ⊎ ((offs_of p == 0) ≡ false)
        → bit_and (byte_at (set nv (offs_of p) (new_byte p v (byte_at nv (offs_of p)))) 0) 0xc0
          ≡ bit_and (byte_at nv 0) 0xc0
    placed_at (inl e) = head-signature nv p v n (ground arith)
    placed_at (inr e) = signature-set nv (offs_of p) _ (ground arith)
