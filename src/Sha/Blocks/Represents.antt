-- ===== src/Sha/Blocks/Represents.antt =====
-- What a hash context stands for, and that the update keeps it.
use cbmc_vboot.Prelude.{
  ℕ, zero, suc, ◌+◌, ◌-◌, ◌*◌, ◌/◌, ◌%◌, ◌^◌, ◌≤◌, ◌<◌, ◌≡◌, inl, inr, refl, ap, ap₂, sym, subst,
  subst₂, ◌∙◌, arith, true, false, ltb, Bool-cases, List, [], ◌∷◌, ◌++◌, length, length-append,
  take, drop, All, All-append,
}
use cbmc_vboot.Prelude.Slices.{length-drop, length-take, take_all}
use native.Mathlib.Nat.{suc-mul, div-add-mod', mod-lt}
use mathlib.Core.List.{append_assoc}
use cbmc_vboot.Common.{add32}
use cbmc_vboot.Sha.Blocks.{BlockContext, copy, transform, fill_block, update}
use cbmc_vboot.Sha.Blocks.Lists.{
  concat, concat-append, blocks_of, take-append, take-drop, concat-blocks_of, blocks_of-sizes,
}

-- The blocks one after the other.
unfoldable pub absorb : (compress : List ℕ → List ℕ → List ℕ) → List ℕ → List (List ℕ) → List ℕ
absorb compress h [] = h
absorb compress h (b ∷ bs) = absorb compress (compress h b) bs

module _ (block_size field : ℕ) (compress : List ℕ → List ℕ → List ℕ) (start : List ℕ) where
  -- The message is what was compressed, in blocks, and the bytes at the front of the array.
  pub record Represents (ctx : BlockContext) (message : List ℕ) : Type 0 where
    pub blocks : List (List ℕ)
    pub rest : List ℕ
    pub whole : message ≡ concat blocks ++ rest
    pub sizes : All (λ b. length b ≡ block_size) blocks
    pub absorbed : ctx.h ≡ absorb compress start blocks
    pub size : ctx.size ≡ length rest
    pub less : length rest < block_size
    pub kept : take (length rest) ctx.block ≡ rest
    pub total : ctx.total_size ≡ length (concat blocks)
    pub room : length ctx.block ≡ block_size + block_size

  pub transform_lem :
      (n : ℕ) (h m : List ℕ)
      → transform block_size field compress n h m ≡ absorb compress h (blocks_of block_size n m)
  unfolding transform absorb
  transform_lem zero h m = refl
  transform_lem (suc n) h m = transform_lem n (compress h (take block_size m)) (drop block_size m)

pub absorb-append :
    (compress : List ℕ → List ℕ → List ℕ) (h : List ℕ) (bs cs : List (List ℕ))
    → absorb compress h (bs ++ cs) ≡ absorb compress (absorb compress h bs) cs
unfolding absorb
absorb-append compress h [] cs = refl
absorb-append compress h (b ∷ bs) cs = absorb-append compress (compress h b) bs cs

-- Bytes that are written to the array after its first part.
copy_lem :
    (block rest bytes : List ℕ) (k : ℕ)
    → take k block ≡ rest
    → length rest ≡ k
    → k + length bytes ≤ length block
    → (take (length (rest ++ bytes)) (copy block k bytes) ≡ rest ++ bytes)
      × (length (copy block k bytes) ≡ length block)
copy_lem block rest bytes k e l h =
    let tail = drop (k + length bytes) block in
    let front : copy block k bytes ≡ (rest ++ bytes) ++ tail = ap (λ r. (r ++ bytes) ++ tail) e in
    let count = length-append rest bytes in
    (
      ap (take (length (rest ++ bytes))) front
          ∙ take-append (rest ++ bytes) tail (length (rest ++ bytes)) refl,
      ap length front
          ∙ omega (
            arith,
            h,
            l,
            count,
            length-append (rest ++ bytes) tail,
            length-drop (k + length bytes) block,
          ),
    )

module _ (block_size field : ℕ) (compress : List ℕ → List ℕ → List ℕ) (start : List ℕ)
    (pos : 0 < block_size) (small : block_size ≤ 2 ^ 29) where
  -- The data fit in the block that is begun.
  collect :
      (ctx : BlockContext) (m x : List ℕ)
      → Represents block_size field compress start ctx m
      → length m + length x < 2 ^ 29
      → ctx.size + length x < block_size
      → Represents block_size field compress start
          (record ctx { size = add32 ctx.size (length x); block = copy ctx.block ctx.size x })
          (m ++ x)
  collect ctx m x r bound fits =
      let written =
        copy_lem ctx.block r.rest x ctx.size (ap (λ k. take k ctx.block) r.size ∙ r.kept)
          (sym r.size) (omega (arith, fits, r.room)) in
      record {
        blocks = r.blocks;
        rest = r.rest ++ x;
        whole = ap (λ t. t ++ x) r.whole ∙ append_assoc (concat r.blocks) r.rest x;
        sizes = r.sizes;
        absorbed = r.absorbed;
        size = omega (arith, r.size, fits, small, length-append r.rest x);
        less = omega (arith, r.size, fits, length-append r.rest x);
        kept = written.0;
        total = r.total;
        room = written.1 ∙ r.room;
      }

  -- The block is filled with x, and y follows.
  fill :
      (ctx : BlockContext) (m x y : List ℕ)
      → Represents block_size field compress start ctx m
      → length m + length x + length y < 2 ^ 29
      → ctx.size + length x ≡ block_size
      → Represents block_size field compress start
          (fill_block block_size field compress ctx (copy ctx.block ctx.size x) y (length y))
          (m ++ (x ++ y))
  unfolding fill_block absorb
  fill ctx m x y r bound full =
      let written =
        copy_lem ctx.block r.rest x ctx.size (ap (λ k. take k ctx.block) r.size ∙ r.kept)
          (sym r.size) (omega (arith, full, r.room)) in
      let b = r.rest ++ x in
      let block = copy ctx.block ctx.size x in
      let size : length b ≡ block_size = omega (arith, length-append r.rest x, r.size, full) in
      let n = length y / block_size in
      let parts = blocks_of block_size n y in
      let rest = drop (n * block_size) y in
      let count : n * block_size + length y % block_size ≡ length y =
        div-add-mod' (length y) block_size in
      let less : length y % block_size < block_size = mod-lt (length y) pos in
      let left : length rest ≡ length y % block_size =
        omega (arith, count, length-drop (n * block_size) y) in
      let copied : take (length y % block_size) rest ≡ rest =
        take_all rest (length y % block_size) left in
      let last =
        copy_lem block [] rest 0 refl refl (omega (arith, left, less, written.1, r.room)) in
      let sized = blocks_of-sizes block_size n y (omega (arith, count)) in
      let whole : m ++ (x ++ y) ≡ concat (r.blocks ++ (b ∷ parts)) ++ rest =
        ap (λ t. t ++ (x ++ y)) r.whole
        ∙ simp (append_assoc, concat-append, concat-blocks_of block_size n y) in
      let first : take block_size block ≡ b = ap (λ k. take k block) (sym size) ∙ written.0 in
      let rounds : (n + 1) * block_size ≡ n * block_size + block_size =
        ap (λ k. k * block_size) (omega arith) ∙ suc-mul n block_size in
      record {
        blocks = r.blocks ++ (b ∷ parts);
        rest = rest;
        whole = whole;
        sizes = All-append (λ t. length t ≡ block_size) r.blocks (b ∷ parts) r.sizes (size, sized);
        absorbed =
            transform_lem block_size field compress start n (compress ctx.h (take block_size block))
              y
            ∙ ap₂ (λ h c. absorb compress (compress h c) parts) r.absorbed first
            ∙ sym (absorb-append compress start r.blocks (b ∷ parts));
        size = sym left;
        less = omega (arith, left, less);
        kept = ap (λ t. take (length rest) (copy block 0 t)) copied ∙ last.0;
        total = omega (
          arith,
          bound,
          rounds,
          r.total,
          r.size,
          full,
          left,
          count,
          ap length r.whole,
          ap length whole,
          length-append (concat r.blocks) r.rest,
          length-append m (x ++ y),
          length-append x y,
          length-append (concat (r.blocks ++ (b ∷ parts))) rest,
        );
        room = ap (λ t. length (copy block 0 t)) copied ∙ last.1 ∙ written.1 ∙ r.room;
      }

  pub update-Represents :
      (ctx : BlockContext) (m bytes : List ℕ)
      → Represents block_size field compress start ctx m
      → length m + length bytes < 2 ^ 29
      → Represents block_size field compress start
          (update block_size field compress ctx bytes)
          (m ++ bytes)
  unfolding update
  update-Represents ctx m bytes r bound =
      let tmp = block_size - ctx.size in
      elim (Bool-cases (ltb (add32 ctx.size (length bytes)) block_size)) [
        | inl fits ↦
            let sum : ctx.size + length bytes < block_size =
              ground (arith, fits, r.size, r.less, small, bound) in
            let short : ltb (length bytes) tmp ≡ true = ground (arith, sum) in
            let e : update block_size field compress ctx bytes ≡ record ctx {
              size = add32 ctx.size (length bytes);
              block = copy ctx.block ctx.size bytes;
            } =
              rw (fits, short)
                (ap
                  (λ t. record ctx {
                    size = add32 ctx.size (length bytes);
                    block = copy ctx.block ctx.size t;
                  })
                  (take_all bytes (length bytes) refl)) in
            subst (λ c. Represents block_size field compress start c (m ++ bytes)) (sym e)
              (collect ctx m bytes r bound sum)
        | inr full ↦
            let sum : block_size ≤ ctx.size + length bytes = ground (arith, full) in
            let long : ltb (length bytes) tmp ≡ false = ground (arith, sum) in
            let x = take tmp bytes in
            let y = drop tmp bytes in
            let x_size : length x ≡ tmp = length-take tmp bytes (omega (arith, sum)) in
            let y_size : length y ≡ length bytes - tmp = length-drop tmp bytes in
            let e : update block_size field compress ctx bytes
                ≡ fill_block block_size field compress ctx (copy ctx.block ctx.size x) y
                    (length y) =
              rw (full, long)
                (ap (fill_block block_size field compress ctx (copy ctx.block ctx.size x) y)
                  (sym y_size)) in
            subst₂ (λ c b. Represents block_size field compress start c (m ++ b)) (sym e)
              (take-drop tmp bytes)
              (fill ctx m x y r (omega (arith, bound, x_size, y_size))
                (omega (arith, x_size, sum, r.size, r.less)))
      ]
