-- ===== src/Prelude/Slices.antt =====
-- Lists of numbers cut with take and drop.
use Prim.Native.Nat.{ℕ, zero, suc, ◌+◌, ◌-◌, ◌≤◌}
use mathlib.Core.Path.{◌≡◌, refl, ap, ap₂, ◌∙◌}
use mathlib.Core.Logic.{◌↔◌}
use mathlib.Core.List.{List, [], ◌∷◌, ◌++◌}
use native.Mathlib.Omega.{arith}
use cbmc_vboot.Prelude.Lists.{length, take, drop, replicate, get_or}

pub chunk :
    (k : ℕ) (s xs ys : List ℕ)
    → length xs ≡ k
    → k ≤ length s
    → (s ≡ xs ++ ys) ↔ (take k s ≡ xs) × (drop k s ≡ ys)
chunk zero s [] ys l h = (λ e. (refl, e), λ (_, e). e)
chunk zero s (x ∷ xs) ys l h = absurd (omega (arith, l))
chunk (suc k) s [] ys l h = absurd (omega (arith, l))
chunk (suc k) [] (x ∷ xs) ys l h = absurd (omega (arith, h))
chunk (suc k) (y ∷ s) (x ∷ xs) ys l h =
    let rest = chunk k s xs ys (omega (arith, l)) (omega (arith, h)) in
    (
      λ e.
          let (taken, dropped) = rest.0 (ap (drop 1) e) in
          (ap₂ (λ (z : ℕ) zs. z ∷ zs) (ap (λ t. get_or t 0 0) e) taken, dropped),
      λ (taken, dropped).
          ap₂ (λ (z : ℕ) zs. z ∷ zs) (ap (λ t. get_or t 0 0) taken)
            (rest.1 (ap (drop 1) taken, dropped)),
    )

pub length-drop : (k : ℕ) (s : List ℕ) → length (drop k s) ≡ length s - k
length-drop zero s = omega arith
length-drop (suc k) [] = omega arith
length-drop (suc k) (x ∷ s) = omega (arith, length-drop k s)

pub length-take : (k : ℕ) (s : List ℕ) → k ≤ length s → length (take k s) ≡ k
length-take zero s h = refl
length-take (suc k) [] h = absurd (omega (arith, h))
length-take (suc k) (x ∷ s) h = ap suc (length-take k s (omega (arith, h)))

pub length-replicate : (k b : ℕ) → length (replicate k b) ≡ k
length-replicate zero b = refl
length-replicate (suc k) b = ap suc (length-replicate k b)

pub drop-drop : (a b : ℕ) (s : List ℕ) → drop a (drop b s) ≡ drop (a + b) s
drop-drop a zero s = let e : a ≡ a + 0 = omega arith in ap (λ k. drop k s) e
drop-drop zero (suc b) s = let e : suc b ≡ 0 + suc b = omega arith in ap (λ k. drop k s) e
drop-drop (suc a) (suc b) [] =
    let e : suc (a + suc b) ≡ suc a + suc b = omega arith in ap (λ k. drop k []) e
drop-drop (suc a) (suc b) (x ∷ s) =
    let e : suc (suc a + b) ≡ suc a + suc b = omega arith in
    drop-drop (suc a) b s ∙ ap (λ k. drop k (x ∷ s)) e

pub take_all : (s : List ℕ) (k : ℕ) → length s ≡ k → take k s ≡ s
take_all [] zero l = refl
take_all [] (suc k) l = refl
take_all (x ∷ s) zero l = absurd (omega (arith, l))
take_all (x ∷ s) (suc k) l = ap (λ t. x ∷ t) (take_all s k (omega (arith, l)))
