-- ===== src/Keys/Inside/Members.antt =====
-- lib20: a packed key and a signature whose data lie in a buffer.
use cbmc_vboot.Prelude.{ℕ, ◌+◌, ◌%◌, ◌^◌, ◌≤◌, ◌<◌, ◌≡◌, ◌↔◌, arith}
use cbmc_vboot.Context.{vb2_success}
use cbmc_vboot.Keys.{
  Memory, load32, signature_at, packed_key_at, sizeof_signature, sizeof_packed_key,
}
use cbmc_vboot.Keys.Inside.{vb2_verify_packed_key_inside, vb2_verify_signature_inside}
use cbmc_vboot.Keys.Inside.Bounds.{Inside, vb2_verify_member_inside_iff}

pub load32-lt : (m : Memory) (a : ℕ) → load32 m a < 2 ^ 32
load32-lt m a = omega arith

-- The data of a packed key and of a signature, from their structs' addresses.
pub KeyInside : Memory → (parent parent_size key_at : ℕ) → Type 0
KeyInside m parent parent_size key_at =
    let key = packed_key_at m key_at in
    Inside parent parent_size key_at sizeof_packed_key ((key_at + key.key_offset) % 2 ^ 64)
      key.key_size

pub SignatureInside : Memory → (parent parent_size sig_at : ℕ) → Type 0
SignatureInside m parent parent_size sig_at =
    let sig = signature_at m sig_at in
    Inside parent parent_size sig_at sizeof_signature ((sig_at + sig.sig_offset) % 2 ^ 64)
      sig.sig_size

pub KeyInside-iff :
    (m : Memory) (parent parent_size key_at : ℕ)
    → parent < 2 ^ 64
    → parent_size < 2 ^ 63
    → key_at < 2 ^ 64
    → (vb2_verify_packed_key_inside parent parent_size key_at (packed_key_at m key_at)
        ≡ vb2_success)
      ↔ KeyInside m parent parent_size key_at
unfolding vb2_verify_packed_key_inside KeyInside
KeyInside-iff m parent parent_size key_at p ps k =
    vb2_verify_member_inside_iff parent parent_size key_at sizeof_packed_key (load32 m key_at)
      (load32 m (key_at + 8)) p ps k (omega arith) (omega (arith, load32-lt m key_at))
      (omega (arith, load32-lt m (key_at + 8)))

pub SignatureInside-iff :
    (m : Memory) (parent parent_size sig_at : ℕ)
    → parent < 2 ^ 64
    → parent_size < 2 ^ 63
    → sig_at < 2 ^ 64
    → (vb2_verify_signature_inside parent parent_size sig_at (signature_at m sig_at) ≡ vb2_success)
      ↔ SignatureInside m parent parent_size sig_at
unfolding vb2_verify_signature_inside SignatureInside
SignatureInside-iff m parent parent_size sig_at p ps k =
    vb2_verify_member_inside_iff parent parent_size sig_at sizeof_signature (load32 m sig_at)
      (load32 m (sig_at + 8)) p ps k (omega arith) (omega (arith, load32-lt m sig_at))
      (omega (arith, load32-lt m (sig_at + 8)))

-- The whole block holds what its first part holds.
pub KeyInside-larger :
    (m : Memory) (parent small large key_at : ℕ)
    → small ≤ large
    → parent + large < 2 ^ 64
    → KeyInside m parent small key_at
    → KeyInside m parent large key_at
unfolding KeyInside
KeyInside-larger m parent small large key_at le lt i = record {
  space = lt;
  after = i.after;
  member_end = omega (arith, i.member_end);
  apart = i.apart;
  data_after = i.data_after;
  data_end = omega (arith, i.data_end);
}
