-- ===== src/Firmware/Reads.antt =====
-- What holds after a read of a resource (vb2ex_read_resource) whose code the caller returns.
use cbmc_vboot.Prelude.{ℕ, ◌<◌, List, inl, inr, truthy, Bool-cases, arith}
use cbmc_vboot.Keys.{Memory, store_bytes}
use cbmc_vboot.Firmware.{Machine, Resource, ReadResource, read_to, and_then}

-- A read succeeds, or its code is returned.
pub after_read :
    (read : ReadResource) (P : Machine × ℕ → Type 0) (s : Machine) (index : Resource)
    (offset buf size : ℕ) (rest : Machine → Machine × ℕ)
    → ((m : Memory) (rv : ℕ) → 0 < rv → P (record s { memory = m }, rv))
    → ((m : Memory) → P (rest (record s { memory = m })))
    → P (and_then (read_to read s index offset buf size) rest)
after_read read P s index offset buf size rest stop k =
    let (bytes, rv) = read s.ctx index offset size in
    let m = store_bytes s.memory buf bytes in
    elim (Bool-cases (truthy rv)) [
      | inl bad ↦ rw bad (stop m rv (ground arith))
      | inr fine ↦ rw fine (k m)
    ]

-- The same, where it matters what memory is left: that with bytes stored to the buffer.
pub after_read_bytes :
    (read : ReadResource) (P : Machine × ℕ → Type 0) (s : Machine) (index : Resource)
    (offset buf size : ℕ) (rest : Machine → Machine × ℕ)
    → ((m : Memory) (rv : ℕ) → 0 < rv → P (record s { memory = m }, rv))
    → ((bytes : List ℕ) → P (rest (record s { memory = store_bytes s.memory buf bytes })))
    → P (and_then (read_to read s index offset buf size) rest)
after_read_bytes read P s index offset buf size rest stop k =
    let (bytes, rv) = read s.ctx index offset size in
    elim (Bool-cases (truthy rv)) [
      | inl bad ↦ rw bad (stop (store_bytes s.memory buf bytes) rv (ground arith))
      | inr fine ↦ rw fine (k bytes)
    ]
