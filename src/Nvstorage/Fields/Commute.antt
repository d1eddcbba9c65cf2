-- ===== src/Nvstorage/Fields/Commute.antt =====
-- A write of a parameter and one of a byte that is not the parameter's commute.
use cbmc_vboot.Prelude.{
  ℕ, ◌/◌, ◌%◌, ◌^◌, ◌≡◌, subst, sym, ap, ◌∙◌, inl, inr, false, List, set, arith, Bool-cases,
  get_or-set_ne, set-set_ne,
}
use cbmc_vboot.Nvstorage.{NvParam, kernel_field, byte_at, write_param}
use cbmc_vboot.Nvstorage.Layout.{offs_of, same, same_iff}
use cbmc_vboot.Nvstorage.Fields.{new_byte, write-set}
use cbmc_vboot.Nvstorage.Fields.ReadWrite.{owns}

kernel-write-set_ne :
    (nv : List ℕ) (v i c : ℕ)
    → owns kernel_field i ≡ false
    → write_param (set nv i c) kernel_field v ≡ set (write_param nv kernel_field v) i c
unfolding write_param
kernel-write-set_ne nv v i c h = rw (
  set-set_ne nv i 11 c (v % 2 ^ 8) (ground arith),
  set-set_ne (set nv 11 (v % 2 ^ 8)) i 12 c (v / 2 ^ 8 % 2 ^ 8) (ground arith),
  set-set_ne (set (set nv 11 (v % 2 ^ 8)) 12 (v / 2 ^ 8 % 2 ^ 8)) i 13 c (v / 2 ^ 16 % 2 ^ 8)
      (ground arith),
  set-set_ne (set (set (set nv 11 (v % 2 ^ 8)) 12 (v / 2 ^ 8 % 2 ^ 8)) 13 (v / 2 ^ 16 % 2 ^ 8)) i 14
      c (v / 2 ^ 24 % 2 ^ 8) (ground arith),
)

-- A write of a parameter and one of a byte that holds none of it commute.
pub write-set_ne :
    (nv : List ℕ) (q : NvParam) (v i c : ℕ)
    → owns q i ≡ false
    → write_param (set nv i c) q v ≡ set (write_param nv q v) i c
write-set_ne nv q v i c h = elim (Bool-cases (same q kernel_field)) [
  | inl k ↦
      subst (λ p. owns p i ≡ false → write_param (set nv i c) p v ≡ set (write_param nv p v) i c)
        (sym (same_iff q kernel_field k)) (kernel-write-set_ne nv v i c) h
  | inr k ↦
      write-set (set nv i c) q v k
      ∙ ap (λ b. set (set nv i c) (offs_of q) (new_byte q v b))
          (get_or-set_ne nv i (offs_of q) c 0 (ground arith))
      ∙ set-set_ne nv i (offs_of q) c (new_byte q v (byte_at nv (offs_of q))) (ground arith)
      ∙ ap (λ l. set l i c) (sym (write-set nv q v k))
]
