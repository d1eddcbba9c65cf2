-- ===== src/Common.antt =====
-- firmware/2lib/2common.c: comparison, alignment and the work buffer. A pointer is its address, a
-- uintptr_t of 64 bits; VB2_WORKBUF_ALIGN is __BIGGEST_ALIGNMENT__, 16 on x86-64.
pub mod Compare
pub mod Bounds
use cbmc_vboot.Prelude.{
  ℕ, ◌+◌, ◌-◌, ◌%◌, ◌^◌, bit_and, bit_or, bit_xor, Bool, List, [], ◌∷◌, Option, none, some, ltb,
  truthy, not, if◌then◌else◌,
}
use cbmc_vboot.Context.{vb2_success}
use cbmc_vboot.Codes.{error_align_bigger_than_size, error_align_size}

-- struct vb2_workbuf
pub record Workbuf : Type 0 where
  pub buf : ℕ
  pub size : ℕ

abbrev pub workbuf_align : ℕ
workbuf_align = 16

-- a + b and a - b in a uintptr_t, and in a uint32_t.
abbrev pub add64 : ℕ → ℕ → ℕ
add64 a b = (a + b) % 2 ^ 64

abbrev pub sub64 : ℕ → ℕ → ℕ
sub64 a b = (a + 2 ^ 64 - b) % 2 ^ 64

abbrev pub add32 : ℕ → ℕ → ℕ
add32 a b = (a + b) % 2 ^ 32

abbrev pub sub32 : ℕ → ℕ → ℕ
sub32 a b = (a + 2 ^ 32 - b) % 2 ^ 32

-- The loop of vb2_safe_memcmp, on two buffers of `size` bytes.
memcmp_bytes : ℕ → List ℕ → List ℕ → ℕ
memcmp_bytes result (a ∷ s1) (b ∷ s2) = memcmp_bytes (bit_or result (bit_xor a b)) s1 s2
memcmp_bytes result _ _ = result

unfoldable pub vb2_safe_memcmp : List ℕ → List ℕ → ℕ
unfolding memcmp_bytes
vb2_safe_memcmp s1 s2 = if truthy (memcmp_bytes 0 s1 s2) then 1 else 0

-- vb2_aligned(ptr, align)
unfoldable pub vb2_aligned : ℕ → ℕ → Bool
vb2_aligned ptr align = not (truthy (bit_and ptr (align - 1)))

-- The last test of vb2_align.
has_room : ℕ → ℕ → ℕ → (ℕ × ℕ) × ℕ
has_room ptr size want_size =
    ((ptr, size), if ltb size want_size then error_align_size else vb2_success)

-- vb2_align: the pointer and the size after it, and the code.
unfoldable pub vb2_align : ℕ → ℕ → ℕ → ℕ → (ℕ × ℕ) × ℕ
unfolding has_room
vb2_align ptr size align want_size =
    let offs = bit_and ptr (align - 1) in
    let skip = align - offs in
    if truthy offs
    then (if ltb size skip
        then ((ptr, size), error_align_bigger_than_size)
        else has_room (add64 ptr skip) (size - skip) want_size)
    else has_room ptr size want_size

unfoldable pub vb2_workbuf_init : ℕ → ℕ → Workbuf
vb2_workbuf_init buf size =
    let aligned = vb2_align buf size workbuf_align 0 in
    record { buf = aligned.0.0; size = if truthy aligned.1 then 0 else aligned.0.1 }

-- v + 15 & ~15 in a uint32_t.
unfoldable pub wb_round_up : ℕ → ℕ
wb_round_up v = bit_and (add32 v (workbuf_align - 1)) (2 ^ 32 - workbuf_align)

-- The buffer after it, and the pointer or NULL.
unfoldable pub vb2_workbuf_alloc : Workbuf → ℕ → Workbuf × Option ℕ
vb2_workbuf_alloc wb size =
    let rounded = wb_round_up size in
    if ltb wb.size rounded
    then (wb, none)
    else (record { buf = add64 wb.buf rounded; size = wb.size - rounded }, some wb.buf)

unfoldable pub vb2_workbuf_free : Workbuf → ℕ → Workbuf
vb2_workbuf_free wb size =
    let rounded = wb_round_up size in
    record { buf = sub64 wb.buf rounded; size = add32 wb.size rounded }

unfoldable pub vb2_workbuf_realloc : Workbuf → ℕ → ℕ → Workbuf × Option ℕ
vb2_workbuf_realloc wb oldsize newsize = vb2_workbuf_alloc (vb2_workbuf_free wb oldsize) newsize

-- A ptrdiff_t, as its bit pattern.
unfoldable pub vb2_offset_of : ℕ → ℕ → ℕ
vb2_offset_of base ptr = sub64 ptr base
