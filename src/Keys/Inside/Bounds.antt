-- ===== src/Keys/Inside/Bounds.antt =====
-- What vb2_verify_member_inside guarantees of the addresses that are read afterwards.
use cbmc_vboot.Prelude.{ℕ, ◌+◌, ◌%◌, ◌^◌, ◌≤◌, ◌<◌, ◌≡◌, ◌↔◌, arith}
use cbmc_vboot.Context.{vb2_success}
use cbmc_vboot.Common.{vb2_offset_of}
use cbmc_vboot.Keys.Inside.{vb2_verify_member_inside}

-- The member and its data lie in the parent, in the address space, and the data do not start inside
-- the member.
pub record Inside (parent parent_size member member_size start size : ℕ) : Type 0 where
  pub space : parent + parent_size < 2 ^ 64
  pub after : parent ≤ member
  pub member_end : member + member_size ≤ parent + parent_size
  pub apart : 0 < size → member + member_size ≤ start
  pub data_after : parent ≤ start
  pub data_end : start + size ≤ parent + parent_size

-- For a parent of less than 2 ^ 63 bytes and any 64-bit pointers, sizes and offset, the check
-- succeeds exactly if the parent, the member and the data that starts at the offset from the member
-- (around the address space) are so placed.
pub vb2_verify_member_inside_iff :
    (parent parent_size member member_size offset size : ℕ)
    → parent < 2 ^ 64
    → parent_size < 2 ^ 63
    → member < 2 ^ 64
    → member_size < 2 ^ 64
    → offset < 2 ^ 64
    → size < 2 ^ 64
    → (vb2_verify_member_inside parent parent_size member member_size offset size ≡ vb2_success)
      ↔ Inside parent parent_size member member_size ((member + offset) % 2 ^ 64) size
unfolding vb2_verify_member_inside vb2_offset_of
vb2_verify_member_inside_iff parent parent_size member member_size offset size p ps m ms o s =
    (sound, complete)
  where
    sound :
        vb2_verify_member_inside parent parent_size member member_size offset size ≡ vb2_success
        → Inside parent parent_size member member_size ((member + offset) % 2 ^ 64) size
    sound h = record {
      space = ground arith;
      after = ground arith;
      member_end = ground arith;
      apart = λ c. ground arith;
      data_after = ground arith;
      data_end = ground arith;
    }

    complete :
        Inside parent parent_size member member_size ((member + offset) % 2 ^ 64) size
        → vb2_verify_member_inside parent parent_size member member_size offset size ≡ vb2_success
    complete i = ground (arith, i)
