-- ===== src/Prelude/Results.antt =====
-- Return codes, and a function that stores a value only when it returns VB2_SUCCESS.
use Prim.Native.Nat.{ℕ, zero, suc, ◌/◌, ◌%◌, bit_and}
use mathlib.Core.Bool.{Bool}
use mathlib.Core.List.{List, [], ◌∷◌}
use cbmc_vboot.Prelude.Tests.{truthy}

pub data Result {ℓ} (A : Type ℓ) : Type ℓ where
  ok : A → Result A
  err : ℕ → Result A

-- `f & m` as a condition.
abbrev pub has_flag : ℕ → ℕ → Bool
has_flag f m = truthy (bit_and f m)

-- The `n` bytes of a number in memory, lowest first.
abbrev pub le_bytes : ℕ → ℕ → List ℕ
le_bytes zero v = []
le_bytes (suc n) v = v % 256 ∷ le_bytes n (v / 256)
