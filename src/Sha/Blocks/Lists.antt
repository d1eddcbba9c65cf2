-- ===== src/Sha/Blocks/Lists.antt =====
-- Lists in blocks of one size, and parts of arrays that are written over.
use cbmc_vboot.Prelude.{
  ℕ, zero, suc, ◌+◌, ◌*◌, ◌≤◌, ◌≡◌, refl, ap, ap₂, sym, ◌∙◌, arith, List, [], ◌∷◌, ◌++◌, length,
  length-append, take, drop, set, replicate, All,
}
use cbmc_vboot.Prelude.Slices.{chunk, length-drop, length-take, drop-drop}
use mathlib.Core.List.{append_assoc}
use native.Mathlib.Nat.{suc-mul}

abbrev pub concat : List (List ℕ) → List ℕ
concat [] = []
concat (b ∷ bs) = b ++ concat bs

pub concat-append : (bs cs : List (List ℕ)) → concat (bs ++ cs) ≡ concat bs ++ concat cs
concat-append [] cs = refl
concat-append (b ∷ bs) cs =
    ap (λ r. b ++ r) (concat-append bs cs) ∙ sym (append_assoc b (concat bs) (concat cs))

-- The first n blocks of a list.
abbrev pub blocks_of : (block_size n : ℕ) → List ℕ → List (List ℕ)
blocks_of block_size zero m = []
blocks_of block_size (suc n) m = take block_size m ∷ blocks_of block_size n (drop block_size m)

pub take-append : (xs ys : List ℕ) (k : ℕ) → length xs ≡ k → take k (xs ++ ys) ≡ xs
take-append xs ys k l =
    ((chunk k (xs ++ ys) xs ys l (omega (arith, length-append xs ys, l))).0 refl).0

pub drop-append : (xs ys : List ℕ) (k : ℕ) → length xs ≡ k → drop k (xs ++ ys) ≡ ys
drop-append xs ys k l =
    ((chunk k (xs ++ ys) xs ys l (omega (arith, length-append xs ys, l))).0 refl).1

pub take-drop : (k : ℕ) (xs : List ℕ) → take k xs ++ drop k xs ≡ xs
take-drop zero xs = refl
take-drop (suc k) [] = refl
take-drop (suc k) (x ∷ xs) = ap (λ r. x ∷ r) (take-drop k xs)

pub concat-blocks_of :
    (block_size n : ℕ) (m : List ℕ)
    → concat (blocks_of block_size n m) ++ drop (n * block_size) m ≡ m
concat-blocks_of block_size zero m =
    let none : 0 * block_size ≡ 0 = omega arith in ap (λ k. drop k m) none
concat-blocks_of block_size (suc n) m =
    let first = take block_size m in
    let rest = concat (blocks_of block_size n (drop block_size m)) in
    append_assoc first rest (drop (suc n * block_size) m)
    ∙ ap (λ t. first ++ (rest ++ t))
        (ap (λ k. drop k m) (suc-mul n block_size) ∙ sym (drop-drop (n * block_size) block_size m))
    ∙ ap (λ t. first ++ t) (concat-blocks_of block_size n (drop block_size m))
    ∙ take-drop block_size m

pub blocks_of-sizes :
    (block_size n : ℕ) (m : List ℕ)
    → n * block_size ≤ length m
    → All (λ b. length b ≡ block_size) (blocks_of block_size n m)
blocks_of-sizes block_size zero m h = tt
blocks_of-sizes block_size (suc n) m h = (
  length-take block_size m (omega (arith, suc-mul n block_size)),
  blocks_of-sizes block_size n (drop block_size m)
      (omega (arith, suc-mul n block_size, length-drop block_size m)),
)

pub take-front : (k : ℕ) (xs ys : List ℕ) → k ≤ length xs → take k (xs ++ ys) ≡ take k xs
take-front zero xs ys h = refl
take-front (suc k) [] ys h = absurd (omega (arith, h))
take-front (suc k) (x ∷ xs) ys h = ap (λ r. x ∷ r) (take-front k xs ys (omega (arith, h)))

pub drop-front : (k : ℕ) (xs ys : List ℕ) → k ≤ length xs → drop k (xs ++ ys) ≡ drop k xs ++ ys
drop-front zero xs ys h = refl
drop-front (suc k) [] ys h = absurd (omega (arith, h))
drop-front (suc k) (x ∷ xs) ys h = drop-front k xs ys (omega (arith, h))

pub blocks_of-front :
    (block_size n : ℕ) (rest tail : List ℕ)
    → length rest ≡ n * block_size
    → blocks_of block_size n (rest ++ tail) ≡ blocks_of block_size n rest
blocks_of-front block_size zero rest tail l = refl
blocks_of-front block_size (suc n) rest tail l =
    let size : block_size ≤ length rest = omega (arith, l, suc-mul n block_size) in
    ap₂ (λ (b : List ℕ) bs. b ∷ bs) (take-front block_size rest tail size)
      (ap (blocks_of block_size n) (drop-front block_size rest tail size)
        ∙ blocks_of-front block_size n (drop block_size rest) tail
            (omega (arith, l, suc-mul n block_size, length-drop block_size rest)))

-- The blocks in front, and what follows.
pub blocks_of-concat :
    (block_size n : ℕ) (bs : List (List ℕ)) (rest tail : List ℕ)
    → All (λ b. length b ≡ block_size) bs
    → length rest ≡ n * block_size
    → blocks_of block_size (length bs + n) (concat bs ++ (rest ++ tail))
      ≡ bs ++ blocks_of block_size n rest
blocks_of-concat block_size n [] rest tail h l =
    ap (λ k. blocks_of block_size k (rest ++ tail)) (omega arith)
    ∙ blocks_of-front block_size n rest tail l
blocks_of-concat block_size n (b ∷ bs) rest tail (hb, hs) l =
    let whole : (b ++ concat bs) ++ (rest ++ tail) ≡ b ++ (concat bs ++ (rest ++ tail)) =
      append_assoc b (concat bs) (rest ++ tail) in
    let count : suc (length bs) + n ≡ suc (length bs + n) = omega arith in
    let inner = concat bs ++ (rest ++ tail) in
    ap₂ (λ k m. blocks_of block_size k m) count whole
    ∙ ap₂ (λ (x : List ℕ) xs. x ∷ xs) (take-append b inner block_size hb)
        (ap (blocks_of block_size (length bs + n)) (drop-append b inner block_size hb)
          ∙ blocks_of-concat block_size n bs rest tail hs l)

pub length-concat :
    (block_size : ℕ) (bs : List (List ℕ))
    → All (λ b. length b ≡ block_size) bs
    → length (concat bs) ≡ length bs * block_size
length-concat block_size [] h = omega arith
length-concat block_size (b ∷ bs) (hb, hs) =
    length-append b (concat bs)
    ∙ omega (arith, hb, length-concat block_size bs hs, suc-mul (length bs) block_size)

pub replicate-add : (a b : ℕ) (v : ℕ) → replicate (a + b) v ≡ replicate a v ++ replicate b v
replicate-add zero b v = ap (λ n. replicate n v) (omega arith)
replicate-add (suc a) b v =
    let e : suc a + b ≡ suc (a + b) = omega arith in
    ap (λ n. replicate n v) e ∙ ap (λ r. v ∷ r) (replicate-add a b v)

pub set-append :
    (xs ys : List ℕ) (y v : ℕ) (k : ℕ) → length xs ≡ k → set (xs ++ (y ∷ ys)) k v ≡ xs ++ (v ∷ ys)
set-append [] ys y v zero l = refl
set-append [] ys y v (suc k) l = absurd (omega (arith, l))
set-append (x ∷ xs) ys y v zero l = absurd (omega (arith, l))
set-append (x ∷ xs) ys y v (suc k) l = ap (λ r. x ∷ r) (set-append xs ys y v k (omega (arith, l)))
