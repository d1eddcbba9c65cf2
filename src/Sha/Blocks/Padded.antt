-- ===== src/Sha/Blocks/Padded.antt =====
-- The padding of a message, and that the finalize function hashes the padded message.
use cbmc_vboot.Prelude.{
  ℕ, ◌+◌, ◌-◌, ◌*◌, ◌/◌, ◌%◌, ◌^◌, ◌≤◌, ◌<◌, ◌≡◌, ap, ap₂, sym, ◌∙◌, arith, List, [], ◌∷◌, ◌++◌,
  length, length-append, take, drop, set, replicate,
}
use cbmc_vboot.Prelude.Slices.{length-replicate}
use native.Mathlib.Nat.{mul-div_cancel, add-mul}
use mathlib.Core.List.{append_assoc, append-nil}
use cbmc_vboot.Common.{add32}
use cbmc_vboot.Sha.Blocks.{BlockContext, copy, unpack32, pad_block, final_blocks, finalize}
use cbmc_vboot.Sha.Blocks.Lists.{
  concat, blocks_of, take-append, blocks_of-front, blocks_of-concat, length-concat, replicate-add,
  set-append,
}
use cbmc_vboot.Sha.Blocks.Represents.{absorb, absorb-append, Represents, transform_lem}

-- A one bit, `zeros` bytes, and the size in bits, in a field of four bytes after `upper` zero bytes.
abbrev pub padding : (zeros upper bytes : ℕ) → List ℕ
padding zeros upper bytes =
    (0x80 ∷ replicate zeros 0) ++ (replicate upper 0 ++ unpack32 (8 * bytes))

-- The blocks of a padded message, one after the other.
abbrev pub absorb_all :
    (block_size : ℕ) → (compress : List ℕ → List ℕ → List ℕ) → (start padded : List ℕ) → List ℕ
absorb_all block_size compress start padded =
    absorb compress start (blocks_of block_size (length padded / block_size) padded)

length-padding :
    (zeros upper bytes : ℕ) → length (padding zeros upper bytes) ≡ 1 + zeros + upper + 4
length-padding zeros upper bytes =
    length-append (0x80 ∷ replicate zeros 0) (replicate upper 0 ++ unpack32 (8 * bytes))
    ∙ omega (
      arith,
      length-replicate zeros 0,
      length-replicate upper 0,
      length-append (replicate upper 0) (unpack32 (8 * bytes)),
    )

-- The array with the padding starts with the padded rest of the message.
padded_array :
    (block rest : List ℕ) (k a pm bytes : ℕ)
    → take k block ≡ rest
    → length rest ≡ k
    → pm ≡ k + 1 + a + 4
    → (tail : List ℕ) × (copy
          (set (copy block k (replicate (pm - k) 0)) k 0x80)
          (pm - 4)
          (unpack32 bytes)
        ≡ (rest ++ ((0x80 ∷ replicate a 0) ++ unpack32 bytes)) ++ tail)
padded_array block rest k a pm bytes e l size =
    let zeros : List ℕ = replicate (pm - k) 0 in
    let after = drop (k + length zeros) block in
    let count : pm - k ≡ 1 + (a + 4) = omega (arith, size) in
    let split : zeros ≡ 0 ∷ (replicate a 0 ++ replicate 4 0) =
      ap (λ n. replicate n 0) count
      ∙ replicate-add 1 (a + 4) 0
      ∙ ap (λ t. 0 ∷ t) (replicate-add a 4 0) in
    let front = rest ++ (0x80 ∷ replicate a 0) in
    let back = replicate 4 0 ++ after in
    let cleared : copy block k zeros ≡ rest ++ (0 ∷ ((replicate a 0 ++ replicate 4 0) ++ after)) =
      ap₂ (λ t z. (t ++ z) ++ after) e split
      ∙ append_assoc rest (0 ∷ (replicate a 0 ++ replicate 4 0)) after in
    let marked : set (copy block k zeros) k 0x80 ≡ front ++ back =
      ap (λ t. set t k 0x80) cleared
      ∙ set-append rest ((replicate a 0 ++ replicate 4 0) ++ after) 0 0x80 k l
      ∙ simp (append_assoc) in
    let front_size : length front ≡ pm - 4 =
      omega (arith, l, size, length-append rest (0x80 ∷ replicate a 0), length-replicate a 0) in
    let last = drop (pm - 4 + length (unpack32 bytes)) (front ++ back) in
    (
      last,
      ap (λ t. copy t (pm - 4) (unpack32 bytes)) marked
          ∙ ap (λ t. (t ++ unpack32 bytes) ++ last) (take-append front back (pm - 4) front_size)
          ∙ ap (λ t. t ++ last) (append_assoc rest (0x80 ∷ replicate a 0) (unpack32 bytes)),
    )

module _ (block_size field : ℕ) (compress : List ℕ → List ℕ → List ℕ) (start : List ℕ)
    (pos : 0 < block_size) (wide : 4 ≤ field) where
  -- With as many zeros as fill `block_nb` blocks after the rest.
  pub finalize_lem :
      (ctx : BlockContext) (m : List ℕ) (zeros : ℕ)
      → Represents block_size field compress start ctx m
      → length m < 2 ^ 29
      → let block_nb = final_blocks block_size field compress ctx in
        ctx.size + 1 + zeros + field ≡ block_nb * block_size
        → finalize block_size field compress ctx
          ≡ absorb_all block_size compress start (m ++ padding zeros (field - 4) (length m))
  unfolding finalize pad_block
  finalize_lem ctx m zeros r bound fills =
      let block_nb = final_blocks block_size field compress ctx in
      let pm = block_nb * block_size in
      let bytes = length m in
      let sizes : bytes ≡ ctx.total_size + ctx.size =
        ap length r.whole
        ∙ length-append (concat r.blocks) r.rest
        ∙ omega (arith, r.total, r.size) in
      let bits : add32 ctx.total_size ctx.size * 8 % 2 ^ 32 ≡ 8 * bytes =
        omega (arith, sizes, bound) in
      let (tail, array) =
        padded_array ctx.block r.rest ctx.size (zeros + (field - 4)) pm (8 * bytes)
          (ap (λ k. take k ctx.block) r.size ∙ r.kept) (sym r.size) (omega (arith, fills, wide)) in
      let pad = padding zeros (field - 4) bytes in
      let pad_eq : (0x80 ∷ replicate (zeros + (field - 4)) 0) ++ unpack32 (8 * bytes) ≡ pad =
        ap (λ t. (0x80 ∷ t) ++ unpack32 (8 * bytes)) (replicate-add zeros (field - 4) 0)
        ∙ append_assoc (0x80 ∷ replicate zeros 0) (replicate (field - 4) 0)
            (unpack32 (8 * bytes)) in
      let padded : pad_block block_size field compress ctx pm ≡ (r.rest ++ pad) ++ tail =
        ap
          (λ b.
            copy (set (copy ctx.block ctx.size (replicate (pm - ctx.size) 0)) ctx.size 0x80)
              (pm - 4) (unpack32 b))
          bits
        ∙ array
        ∙ ap (λ t. (r.rest ++ t) ++ tail) pad_eq in
      let filled : length (r.rest ++ pad) ≡ pm =
        length-append r.rest pad
        ∙ omega (arith, length-padding zeros (field - 4) bytes, r.size, fills, wide) in
      let h_eq : finalize block_size field compress ctx
          ≡ absorb compress (absorb compress start r.blocks)
              (blocks_of block_size block_nb (r.rest ++ pad)) =
        transform_lem block_size field compress start block_nb ctx.h
          (pad_block block_size field compress ctx pm)
        ∙ ap₂ (λ h t. absorb compress h (blocks_of block_size block_nb t)) r.absorbed padded
        ∙ ap (absorb compress (absorb compress start r.blocks))
            (blocks_of-front block_size block_nb (r.rest ++ pad) tail filled) in
      let message : m ++ pad ≡ concat r.blocks ++ ((r.rest ++ pad) ++ []) =
        ap (λ t. t ++ pad) r.whole ∙ simp (append_assoc, append-nil) in
      let total : length (m ++ pad) ≡ (length r.blocks + block_nb) * block_size = omega (
        arith,
        ap length message,
        length-append (concat r.blocks) ((r.rest ++ pad) ++ []),
        ap length (append-nil (r.rest ++ pad)),
        filled,
        length-concat block_size r.blocks r.sizes,
        add-mul (length r.blocks) block_nb block_size,
      ) in
      let count : length (m ++ pad) / block_size ≡ length r.blocks + block_nb =
        ap (λ n. n / block_size) total ∙ mul-div_cancel (length r.blocks + block_nb) pos in
      h_eq
      ∙ sym (absorb-append compress start r.blocks (blocks_of block_size block_nb (r.rest ++ pad)))
      ∙ ap (absorb compress start) (
          sym (
            ap₂ (λ n t. blocks_of block_size n t) count message
            ∙ blocks_of-concat block_size block_nb r.blocks (r.rest ++ pad) [] r.sizes filled))
