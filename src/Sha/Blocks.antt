-- ===== src/Sha/Blocks.antt =====
-- firmware/2lib/2sha256.c and 2sha512.c: the part that the two share, which collects the message in
-- blocks. `compress` is the loop body of the transform function, and `field` the size of the length
-- field of a padded message.
pub mod Lists
pub mod Represents
pub mod Padded
use cbmc_vboot.Prelude.{
  ℕ, zero, suc, ◌+◌, ◌-◌, ◌*◌, ◌/◌, ◌%◌, ◌^◌, List, [], ◌∷◌, ◌++◌, length, take, drop, set,
  replicate, ltb, if◌then◌else◌,
}
use cbmc_vboot.Common.{add32}

-- struct vb2_sha256_context, struct vb2_sha512_context
pub record BlockContext : Type 0 where
  pub h : List ℕ
  pub total_size : ℕ
  pub size : ℕ
  pub block : List ℕ

-- memcpy to an array, from the position `at` on.
abbrev pub copy : List ℕ → (position : ℕ) → List ℕ → List ℕ
copy block position bytes = take position block ++ bytes ++ drop (position + length bytes) block

-- UNPACK32
abbrev pub unpack32 : ℕ → List ℕ
unpack32 x = x / 2 ^ 24 % 2 ^ 8 ∷ x / 2 ^ 16 % 2 ^ 8 ∷ x / 2 ^ 8 % 2 ^ 8 ∷ x % 2 ^ 8 ∷ []

module _ (block_size field : ℕ) (compress : List ℕ → List ℕ → List ℕ) where
  -- The outer loop of the transform function: the first block_nb blocks of the message.
  unfoldable pub transform : (block_nb : ℕ) → (h message : List ℕ) → List ℕ
  transform zero h message = h
  transform (suc block_nb) h message =
      transform block_nb (compress h (take block_size message)) (drop block_size message)

  -- From the block that is full on.
  unfoldable pub fill_block :
      BlockContext → (block shifted_data : List ℕ) → (new_size : ℕ) → BlockContext
  unfolding transform
  fill_block ctx block shifted_data new_size =
      let block_nb = new_size / block_size in
      let rem_size = new_size % block_size in
      record {
        h = transform block_nb (transform 1 ctx.h block) shifted_data;
        total_size = add32 ctx.total_size ((block_nb + 1) * block_size);
        size = rem_size;
        block = copy block 0 (take rem_size (drop (block_nb * block_size) shifted_data));
      }

  -- The data are `size` bytes.
  unfoldable pub update : BlockContext → (data_bytes : List ℕ) → BlockContext
  update ctx data_bytes =
      let size = length data_bytes in
      let tmp_size = block_size - ctx.size in
      let rem_size = if ltb size tmp_size then size else tmp_size in
      let block = copy ctx.block ctx.size (take rem_size data_bytes) in
      if ltb (add32 ctx.size size) block_size
      then record ctx { size = add32 ctx.size size; block = block }
      else fill_block ctx block (drop rem_size data_bytes) (size - rem_size)

  -- The block with the padding, which may take a second block.
  unfoldable pub pad_block : BlockContext → (pm_size : ℕ) → List ℕ
  pad_block ctx pm_size =
      let size_b = add32 ctx.total_size ctx.size * 8 % 2 ^ 32 in
      let cleared = copy ctx.block ctx.size (replicate (pm_size - ctx.size) 0) in
      copy (set cleared ctx.size 0x80) (pm_size - 4) (unpack32 size_b)

  -- block_nb of the finalize function.
  abbrev pub final_blocks : BlockContext → ℕ
  final_blocks ctx = if ltb (block_size - (field + 1)) (ctx.size % block_size) then 2 else 1

  -- What is in `h` when the digest is written.
  unfoldable pub finalize : BlockContext → List ℕ
  unfolding pad_block transform
  finalize ctx =
      let block_nb = final_blocks ctx in
      transform block_nb ctx.h (pad_block ctx (block_nb * block_size))
