-- ===== src/Keys/Stores.antt =====
-- What is loaded from memory after stores, for the copies of packed keys (struct vb2_packed_key of
-- lib20/include/vb2_struct.h) that lib20/misc.c and lib20/kernel.c make.
use cbmc_vboot.Prelude.{
  ℕ, zero, suc, ◌+◌, ◌-◌, ◌%◌, ◌^◌, ◌≤◌, ◌<◌, ◌≡◌, refl, ap, ap₂, sym, ◌∙◌, arith, List, ◌∷◌,
  length, get_or, le_bytes,
}
use cbmc_vboot.Keys.{
  Memory, load8, load32, load_bytes, store_bytes, store32, packed_key_at, sizeof_packed_key,
}

pub store_before : (m : Memory) (a : ℕ) (bs : List ℕ) (x : ℕ) → x < a → store_bytes m a bs x ≡ m x
store_before m a bs x h = ground arith

pub store_after :
    (m : Memory) (a : ℕ) (bs : List ℕ) (x : ℕ) → a + length bs ≤ x → store_bytes m a bs x ≡ m x
store_after m a bs x h = ground arith

store_at :
    (m : Memory) (a : ℕ) (bs : List ℕ) (i : ℕ)
    → i < length bs
    → store_bytes m a bs (a + i) ≡ get_or bs i 0
store_at m a bs i h =
    let e : a + i - a ≡ i = omega arith in ground (arith, ap (λ k. get_or bs k 0) e)

pub length-load_bytes : (n : ℕ) (m : Memory) (a : ℕ) → length (load_bytes n m a) ≡ n
length-load_bytes zero m a = refl
length-load_bytes (suc n) m a = ap suc (length-load_bytes n m (a + 1))

get_or-load_bytes :
    (n : ℕ) (m : Memory) (a i : ℕ) → i < n → get_or (load_bytes n m a) i 0 ≡ load8 m (a + i)
get_or-load_bytes zero m a i h = absurd (omega (arith, h))
get_or-load_bytes (suc n) m a zero h = let e : a ≡ a + 0 = omega arith in ap (load8 m) e
get_or-load_bytes (suc n) m a (suc i) h =
    let e : a + 1 + i ≡ a + suc i = omega arith in
    get_or-load_bytes n m (a + 1) i (omega (arith, h)) ∙ ap (load8 m) e

-- `n` bytes from `a` on are those that the other memory has from `a'` on.
abbrev pub SameBytes : (n : ℕ) (m : Memory) (a : ℕ) (m' : Memory) (a' : ℕ) → Type 0
SameBytes n m a m' a' = (i : ℕ) → i < n → load8 m (a + i) ≡ load8 m' (a' + i)

pub load_bytes-SameBytes :
    (n : ℕ) (m : Memory) (a : ℕ) (m' : Memory) (a' : ℕ)
    → SameBytes n m a m' a'
    → load_bytes n m a ≡ load_bytes n m' a'
load_bytes-SameBytes zero m a m' a' h = refl
load_bytes-SameBytes (suc n) m a m' a' h =
    let at : a + 0 ≡ a = omega arith in
    let at' : a' + 0 ≡ a' = omega arith in
    ap₂ (λ (b : ℕ) bs. b ∷ bs) (ap (load8 m) (sym at) ∙ h 0 (omega arith) ∙ ap (load8 m') at')
      (load_bytes-SameBytes n m (a + 1) m' (a' + 1) (λ i lt.
        let next : a + 1 + i ≡ a + suc i = omega arith in
        let next' : a' + suc i ≡ a' + 1 + i = omega arith in
        ap (load8 m) next ∙ h (suc i) (omega (arith, lt)) ∙ ap (load8 m') next'))

pub load32-SameBytes :
    (n k : ℕ) (m : Memory) (a : ℕ) (m' : Memory) (a' : ℕ)
    → k + 4 ≤ n
    → SameBytes n m a m' a'
    → load32 m (a + k) ≡ load32 m' (a' + k)
load32-SameBytes n k m a m' a' fits h =
    let b : (j : ℕ) → j < 4 → load8 m (a + k + j) ≡ load8 m' (a' + k + j) = λ j lt.
      let e : a + k + j ≡ a + (k + j) = omega arith in
      let e' : a' + (k + j) ≡ a' + k + j = omega arith in
      ap (load8 m) e ∙ h (k + j) (omega (arith, fits, lt)) ∙ ap (load8 m') e' in
    let z : a + k + 0 ≡ a + k = omega arith in
    let z' : a' + k + 0 ≡ a' + k = omega arith in
    omega (
      arith,
      ap (load8 m) (sym z) ∙ b 0 (omega arith) ∙ ap (load8 m') z',
      b 1 (omega arith),
      b 2 (omega arith),
      b 3 (omega arith),
    )

-- Bytes that are copied are the same.
pub SameBytes-copy :
    (n : ℕ) (m : Memory) (a : ℕ) (m' : Memory) (a' : ℕ)
    → SameBytes n (store_bytes m a (load_bytes n m' a')) a m' a'
SameBytes-copy n m a m' a' i h =
    let stored =
      store_at m a (load_bytes n m' a') i (omega (arith, length-load_bytes n m' a', h)) in
    omega (arith, stored, get_or-load_bytes n m' a' i h)

pub load32-store32 : (m : Memory) (a v : ℕ) → load32 (store32 m a v) a ≡ v % 2 ^ 32
load32-store32 m a v =
    let z : a + 0 ≡ a = omega arith in
    omega (
      arith,
      ap (store32 m a v) (sym z) ∙ store_at m a (le_bytes 4 v) 0 (omega arith),
      store_at m a (le_bytes 4 v) 1 (omega arith),
      store_at m a (le_bytes 4 v) 2 (omega arith),
      store_at m a (le_bytes 4 v) 3 (omega arith),
    )

-- Memories that agree on the bytes loaded.
pub load32-agree :
    (m m' : Memory) (a : ℕ) → ((x : ℕ) → a ≤ x → x < a + 4 → m x ≡ m' x) → load32 m a ≡ load32 m' a
load32-agree m m' a h = omega (
  arith,
  h a (omega arith) (omega arith),
  h (a + 1) (omega arith) (omega arith),
  h (a + 2) (omega arith) (omega arith),
  h (a + 3) (omega arith) (omega arith),
)

pub load_bytes-agree :
    (n : ℕ) (m m' : Memory) (a : ℕ)
    → ((x : ℕ) → a ≤ x → m x ≡ m' x)
    → load_bytes n m a ≡ load_bytes n m' a
load_bytes-agree n m m' a h =
    load_bytes-SameBytes n m a m' a (λ i lt. omega (arith, h (a + i) (omega arith)))

-- The packed key at `at` is that at `from` in the memory `m`, with its bytes behind its header.
pub record IsKeyCopy (m : Memory) (from : ℕ) (m' : Memory) (at : ℕ) : Type 0 where
  pub algorithm : (packed_key_at m' at).algorithm ≡ (packed_key_at m from).algorithm
  pub key_version : (packed_key_at m' at).key_version ≡ (packed_key_at m from).key_version
  pub key_size : (packed_key_at m' at).key_size ≡ (packed_key_at m from).key_size
  pub after_header : sizeof_packed_key ≤ (packed_key_at m' at).key_offset
  pub bytes :
      load_bytes (packed_key_at m from).key_size m' (at + (packed_key_at m' at).key_offset)
      ≡ load_bytes (packed_key_at m from).key_size m (from + (packed_key_at m from).key_offset)
