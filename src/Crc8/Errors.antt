-- ===== src/Crc8/Errors.antt =====
-- What the CRC-8 detects: a change of one byte.
use cbmc_vboot.Prelude.{
  ℕ, zero, suc, ◌*◌, ◌/◌, ◌^◌, ◌<◌, bit_and, bit_xor, ◌≡◌, refl, sym, ap, ◌∙◌, ◌≢◌, true, ◌&&◌,
  List, [], ◌∷◌, ◌++◌, length, IsByte, All, All-append, take-length, take-set_ge, set, ◌≤◌, arith,
  ltb, ◌==◌, truthy, if◌then◌else◌, all_below, all_below_sound,
}
use cbmc_vboot.Prelude.Bits.{xor_cancel, xor_comm, xor-lt, xor_shift}
use cbmc_vboot.Crc8.{crc_bit, crc_rounds, crc_bytes, vb2_crc8}

-- The eight rounds on a register that holds `x` in its second byte.
byte_step : ℕ → ℕ
unfolding crc_rounds crc_bit
byte_step x = crc_rounds 8 (x * 2 ^ 8) / 2 ^ 8

-- The rounds run backwards: the polynomial's low term shows which of them subtracted it.
undo_bit : ℕ → ℕ
undo_bit s = if truthy (bit_and s 0x100) then bit_xor (s / 2) 0x8380 else s / 2

undo_rounds : ℕ → ℕ → ℕ
undo_rounds zero s = s
undo_rounds (suc i) s = undo_bit (undo_rounds i s)

unstep : ℕ → ℕ
unfolding undo_rounds undo_bit
unstep y = undo_rounds 8 (y * 2 ^ 8) / 2 ^ 8

step_table :
    all_below 256 (λ x.
      (crc_rounds 8 (x * 2 ^ 8) == byte_step x * 2 ^ 8)
      && ltb (byte_step x) 256
      && (unstep (byte_step x) == x))
    ≡ true
unfolding all_below byte_step unstep crc_rounds crc_bit
step_table = refl

step_facts :
    (x : ℕ)
    → x < 256
    → (crc_rounds 8 (x * 2 ^ 8) ≡ byte_step x * 2 ^ 8)
      × (byte_step x < 256)
      × (unstep (byte_step x) ≡ x)
step_facts x h = ground (arith, all_below_sound 256 _ x h step_table)

-- One byte into the register.
fold_step : ℕ → ℕ → ℕ
unfolding byte_step
fold_step h b = byte_step (bit_xor h b)

fold_bytes : ℕ → List ℕ → ℕ
fold_bytes h [] = h
fold_bytes h (b ∷ bs) = fold_bytes (fold_step h b) bs

fold_step-lt : (h b : ℕ) → h < 256 → b < 256 → fold_step h b < 256
unfolding fold_step
fold_step-lt h b p q = (step_facts (bit_xor h b) (xor-lt 8 h b p q)).1

rounds-fold_step :
    (h b : ℕ)
    → h < 256
    → b < 256
    → crc_rounds 8 (bit_xor (h * 2 ^ 8) (b * 2 ^ 8)) ≡ fold_step h b * 2 ^ 8
unfolding fold_step
rounds-fold_step h b p q =
    ap (crc_rounds 8) (xor_shift 8 h b) ∙ (step_facts (bit_xor h b) (xor-lt 8 h b p q)).0

-- The register always holds a byte, shifted up by eight.
crc_bytes-fold :
    (h : ℕ) (bs : List ℕ)
    → h < 256
    → All IsByte bs
    → (crc_bytes (h * 2 ^ 8) bs ≡ fold_bytes h bs * 2 ^ 8) × (fold_bytes h bs < 256)
unfolding crc_bytes fold_bytes
crc_bytes-fold h [] p q = (refl, p)
crc_bytes-fold h (b ∷ bs) p q =
    let rest = crc_bytes-fold (fold_step h b) bs (fold_step-lt h b p q.0) q.1 in
    (ap (λ c. crc_bytes c bs) (rounds-fold_step h b p q.0) ∙ rest.0, rest.1)

vb2_crc8-fold : (bs : List ℕ) → All IsByte bs → vb2_crc8 bs (length bs) ≡ fold_bytes 0 bs
unfolding vb2_crc8
vb2_crc8-fold bs q =
    omega (arith, crc_bytes-fold 0 bs (omega arith) q, ap (crc_bytes 0) (take-length bs))

-- A checksum is a byte.
pub vb2_crc8-lt : (bs : List ℕ) (size : ℕ) → vb2_crc8 bs size < 256
unfolding vb2_crc8
vb2_crc8-lt bs size = omega arith

fold_step-ne :
    (h k b c : ℕ)
    → bit_xor h b < 256
    → bit_xor k c < 256
    → bit_xor h b ≢ bit_xor k c
    → fold_step h b ≢ fold_step k c
unfolding fold_step
fold_step-ne h k b c p q ne e = ne (sym (step_facts _ p).2 ∙ ap unstep e ∙ (step_facts _ q).2)

xor-ne_left : (h k b : ℕ) → h ≢ k → bit_xor h b ≢ bit_xor k b
xor-ne_left h k b ne e = ne (sym (xor_cancel h b) ∙ ap (λ t. bit_xor t b) e ∙ xor_cancel k b)

xor-ne_right : (h b c : ℕ) → b ≢ c → bit_xor h b ≢ bit_xor h c
xor-ne_right h b c ne e = xor-ne_left b c h ne (xor_comm b h ∙ e ∙ xor_comm h c)

fold_bytes-ne :
    (h k : ℕ) (bs : List ℕ)
    → h < 256
    → k < 256
    → All IsByte bs
    → h ≢ k
    → fold_bytes h bs ≢ fold_bytes k bs
unfolding fold_bytes
fold_bytes-ne h k [] p q bytes ne = ne
fold_bytes-ne h k (b ∷ bs) p q bytes ne =
    fold_bytes-ne (fold_step h b) (fold_step k b) bs (fold_step-lt h b p bytes.0)
      (fold_step-lt k b q bytes.0) bytes.1
      (fold_step-ne h k b b (xor-lt 8 h b p bytes.0) (xor-lt 8 k b q bytes.0)
        (xor-ne_left h k b ne))

fold_bytes-change :
    (h : ℕ) (pre post : List ℕ) (x y : ℕ)
    → h < 256
    → All IsByte pre
    → All IsByte post
    → x < 256
    → y < 256
    → x ≢ y
    → fold_bytes h (pre ++ x ∷ post) ≢ fold_bytes h (pre ++ y ∷ post)
unfolding fold_bytes
fold_bytes-change h [] post x y p bs cs xb yb ne =
    fold_bytes-ne (fold_step h x) (fold_step h y) post (fold_step-lt h x p xb)
      (fold_step-lt h y p yb) cs
      (fold_step-ne h h x y (xor-lt 8 h x p xb) (xor-lt 8 h y p yb) (xor-ne_right h x y ne))
fold_bytes-change h (b ∷ bs) post x y p q cs xb yb ne =
    fold_bytes-change (fold_step h b) bs post x y (fold_step-lt h b p q.0) q.1 cs xb yb ne

-- Two byte strings of one length that differ in exactly one byte have different checksums.
pub vb2_crc8-change :
    (pre post : List ℕ) (x y : ℕ)
    → All IsByte pre
    → All IsByte post
    → x < 256
    → y < 256
    → x ≢ y
    → vb2_crc8 (pre ++ x ∷ post) (length (pre ++ x ∷ post))
      ≢ vb2_crc8 (pre ++ y ∷ post) (length (pre ++ y ∷ post))
vb2_crc8-change pre post x y bs cs xb yb ne e =
    fold_bytes-change 0 pre post x y (omega arith) bs cs xb yb ne (
      sym (vb2_crc8-fold _ (All-append _ pre (x ∷ post) bs (xb, cs)))
      ∙ e
      ∙ vb2_crc8-fold _ (All-append _ pre (y ∷ post) bs (yb, cs)))

-- A byte behind the checked range does not count.
pub vb2_crc8-set_ge :
    (bs : List ℕ) (size i v : ℕ) → size ≤ i → vb2_crc8 (set bs i v) size ≡ vb2_crc8 bs size
unfolding vb2_crc8
vb2_crc8-set_ge bs size i v h = rw (take-set_ge size bs i v h)
