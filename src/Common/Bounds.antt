-- ===== src/Common/Bounds.antt =====
-- The work buffer's allocations lie inside it, one after the other.
use cbmc_vboot.Prelude.{
  ℕ, ◌+◌, ◌-◌, ◌%◌, ◌^◌, ◌≤◌, ◌<◌, ◌≡◌, ◌⊎◌, inl, inr, refl, ap, Bool-cases, none, some, ltb, arith,
}
use cbmc_vboot.Prelude.Bits.{and-le}
use cbmc_vboot.Prelude.Masks.{and_15, and_not15}
use cbmc_vboot.Common.{
  Workbuf, has_room, vb2_align, vb2_workbuf_init, wb_round_up, vb2_workbuf_alloc, vb2_workbuf_free,
  vb2_workbuf_realloc,
}

-- The buffer is aligned if anything is left of it, and does not wrap around the address space.
pub record IsRoom (wb : Workbuf) : Type 0 where
  pub aligned : 0 < wb.size → wb.buf % 16 ≡ 0
  pub small : wb.size < 2 ^ 32
  pub within : wb.buf + wb.size < 2 ^ 64

-- Sizes that rounding up does not wrap around to zero.
pub wb_round_up_lem :
    (v : ℕ)
    → v ≤ 2 ^ 32 - 16
    → (v ≤ wb_round_up v)
      × (wb_round_up v < v + 16)
      × (wb_round_up v % 16 ≡ 0)
      × (wb_round_up v < 2 ^ 32)
unfolding wb_round_up
wb_round_up_lem v h =
    let low : (v + 15) % 2 ^ 32 ≡ v + 15 = omega arith in
    omega (arith, and_not15 ((v + 15) % 2 ^ 32) (omega arith), low)

wb_round_up-wraps : (v : ℕ) → 2 ^ 32 - 16 < v → v < 2 ^ 32 → wb_round_up v ≡ 0
unfolding wb_round_up
wb_round_up-wraps v h k = omega (arith, and_not15 ((v + 15) % 2 ^ 32) (omega arith))

wb_round_up-lt : (v : ℕ) → wb_round_up v < 2 ^ 32
unfolding wb_round_up
wb_round_up-lt v = omega (arith, and-le ((v + 15) % 2 ^ 32) 0xffff_fff0)

-- What is known of an allocation: the block starts where the buffer did, has the size asked for and
-- ends where the rest begins, and the end of the buffer stays.
pub record Allocated (wb wb' : Workbuf) (size ptr : ℕ) : Type 0 where
  pub start : ptr ≡ wb.buf
  pub block : ptr + size ≤ wb'.buf
  pub end : wb'.buf + wb'.size ≡ wb.buf + wb.size
  pub rest : IsRoom wb'
  pub rounded : wb'.buf ≡ wb.buf + wb_round_up size

pub alloc_fits :
    (wb : Workbuf) (size : ℕ)
    → IsRoom wb
    → size ≤ 2 ^ 32 - 16
    → wb_round_up size ≤ wb.size
    → Allocated wb
        (record { buf = (wb.buf + wb_round_up size) % 2 ^ 64; size = wb.size - wb_round_up size })
        size
        wb.buf
alloc_fits wb size r h f =
    let u = wb_round_up_lem size h in
    record {
      start = refl;
      block = omega (arith, u, f, r.within);
      end = omega (arith, u, f, r.within);
      rest = record {
        aligned = λ more. omega (arith, u, f, r.within, more, r.aligned (omega (arith, more)));
        small = omega (arith, r.small);
        within = omega (arith, u, f, r.within);
      };
      rounded = omega (arith, u, f, r.within);
    }

-- In a buffer that, if anything is left of it, is aligned, and that does not wrap around,
-- vb2_workbuf_alloc of at most 2 ^ 32 - 16 bytes fails and changes nothing, exactly if the size
-- rounded up to 16 exceeds what is left; otherwise it gives a block of that size at the start of
-- the buffer, in front of what is left. A larger size wraps around to zero: the allocation succeeds
-- and reserves nothing.
pub vb2_workbuf_alloc_lem :
    (wb : Workbuf) (size : ℕ)
    → IsRoom wb
    → size < 2 ^ 32
    → let r = vb2_workbuf_alloc wb size in
      (size ≤ 2 ^ 32 - 16)
        × ((wb.size < wb_round_up size) × (r.1 ≡ none) × (r.0 ≡ wb)
            ⊎ (wb_round_up size ≤ wb.size)
              × ((ptr : ℕ) × (r.1 ≡ some ptr) × Allocated wb r.0 size ptr))
      ⊎ (2 ^ 32 - 16 < size) × (r.1 ≡ some wb.buf) × (r.0 ≡ wb)
unfolding vb2_workbuf_alloc
vb2_workbuf_alloc_lem wb size r h = elim (Bool-cases (ltb (2 ^ 32 - 16) size)) [
  | inl big ↦
      let zero_size = wb_round_up-wraps size (ground arith) h in
      inr (ground arith, ground (arith, zero_size), ground (arith, zero_size, r.within))
  | inr small ↦ inl (
    ground arith,
    elim (Bool-cases (ltb wb.size (wb_round_up size))) [
      | inl full ↦ rw full (inl (ground arith, refl, refl))
      | inr fits ↦
          rw fits
            (inr (ground arith, (wb.buf, refl, alloc_fits wb size r (ground arith) (ground arith))))
    ],
  )
]

-- Freeing the block that was allocated last gives the buffer back as it was, and a reallocation is
-- an allocation in that buffer.
pub vb2_workbuf_free-alloc :
    (wb : Workbuf) (size ptr newsize : ℕ)
    → IsRoom wb
    → size < 2 ^ 32
    → (vb2_workbuf_alloc wb size).1 ≡ some ptr
    → (vb2_workbuf_free (vb2_workbuf_alloc wb size).0 size ≡ wb)
      × (vb2_workbuf_realloc (vb2_workbuf_alloc wb size).0 size newsize
          ≡ vb2_workbuf_alloc wb newsize)
unfolding vb2_workbuf_realloc vb2_workbuf_free vb2_workbuf_alloc
vb2_workbuf_free-alloc wb size ptr newsize r h e =
    (freed, ap (λ w. vb2_workbuf_alloc w newsize) freed)
  where
    freed : vb2_workbuf_free (vb2_workbuf_alloc wb size).0 size ≡ wb
    freed = ground (arith, e, r.within, r.small, wb_round_up-lt size)

-- A work buffer set up on memory that does not wrap around is aligned and lies inside it.
pub vb2_workbuf_init_lem :
    (buf size : ℕ)
    → buf + size < 2 ^ 64
    → size < 2 ^ 32
    → let wb = vb2_workbuf_init buf size in
      IsRoom wb × (buf ≤ wb.buf) × (wb.buf + wb.size ≤ buf + size)
unfolding vb2_workbuf_init vb2_align has_room
vb2_workbuf_init_lem buf size h k =
    let low = and_15 buf in
    (
      record {
        aligned = λ more. ground (arith, low, more);
        small = ground (arith, low);
        within = ground (arith, low);
      },
      ground (arith, low),
      ground (arith, low),
    )
