-- ===== src/Rsa/Padding.antt =====
-- 2lib/2rsa.c: what vb2_check_padding and the comparison after it accept.
use cbmc_vboot.Prelude.{
  ℕ, zero, suc, ◌+◌, ◌-◌, ◌*◌, ◌≤◌, ◌<◌, ◌≡◌, ◌↔◌, ◌⊎◌, inl, inr, refl, ap, ap₂, sym, ◌∙◌, arith,
  bit_or, bit_xor, List, [], ◌∷◌, ◌++◌, length, replicate, take, drop, get_or, ◌==◌, Bool-cases,
  if◌then◌else◌,
}
use cbmc_vboot.Prelude.Slices.{
  chunk, length-drop, length-take, length-replicate, drop-drop, take_all,
}
use cbmc_vboot.Prelude.Masks.{xor_zero, or-zero_left, or_comm}
use cbmc_vboot.Context.{vb2_success}
use cbmc_vboot.Codes.{error_rsa_padding}
use cbmc_vboot.Common.{vb2_safe_memcmp}
use cbmc_vboot.Common.Compare.{vb2_safe_memcmp_iff}
use cbmc_vboot.Keys.Unpack.{
  PublicKey, hash_sha1, hash_sha256, hash_sha512, vb2_rsa_sig_size, vb2_digest_size,
}
use cbmc_vboot.Rsa.{
  pad_bytes, check_tail, vb2_check_padding, check_decrypted, sha1_tail, sha256_tail, sha512_tail,
}

or_zero_both : (a b : ℕ) → bit_or a b ≡ 0 → (a ≡ 0) × (b ≡ 0)
or_zero_both a b h = (or-zero_left a b h, or-zero_left b a (or_comm b a ∙ h))

pad_bytes_iff :
    (count result : ℕ) (sig : List ℕ)
    → count ≤ length sig
    → (pad_bytes count result sig ≡ 0) ↔ (result ≡ 0) × (take count sig ≡ replicate count 0xff)
unfolding pad_bytes
pad_bytes_iff zero result sig h = (λ e. (e, refl), λ (e, _). e)
pad_bytes_iff (suc count) result [] h = absurd (omega (arith, h))
pad_bytes_iff (suc count) result (x ∷ sig) h =
    let rest = pad_bytes_iff count (bit_or result (bit_xor x 0xff)) sig (omega (arith, h)) in
    (
      λ e.
          let (zero_or, same) = rest.0 e in
          let (none, differs) = or_zero_both result (bit_xor x 0xff) zero_or in
          (none, ap₂ (λ (y : ℕ) ys. y ∷ ys) (xor_zero x 0xff differs) same),
      λ (none, same). rest.1 (
        ap₂ (λ r y. bit_or r (bit_xor y 0xff)) none (ap (λ l. get_or l 0 0) same),
        ap (λ l. drop 1 l) same,
      ),
    )

-- The padding up to the digest: 0x00 0x01, bytes of 0xff and the tail.
check_tail_iff :
    (x y : ℕ) (s : List ℕ) (count : ℕ) (tail : List ℕ)
    → count + length tail ≤ length s
    → (check_tail (x ∷ y ∷ s) count tail ≡ vb2_success)
      ↔ (x ∷ y ∷ s ≡ 0 ∷ 1 ∷ (replicate count 0xff ++ (tail ++ drop (length tail) (drop count s))))
unfolding check_tail
check_tail_iff x y s count tail h =
    let start = bit_or (bit_xor x 0x00) (bit_xor y 0x01) in
    let end = drop (length tail) (drop count s) in
    let pads = pad_bytes_iff count start s (omega (arith, h)) in
    let room : length tail ≤ length (drop count s) = omega (arith, length-drop count s, h) in
    let tails =
      vb2_safe_memcmp_iff (take (length tail) (drop count s)) tail
        (length-take (length tail) (drop count s) room) in
    let first =
      chunk count s (replicate count 0xff) (tail ++ end) (length-replicate count 0xff)
        (omega (arith, h)) in
    let second = chunk (length tail) (drop count s) tail end refl room in
    (
      λ e.
          let (padded, compared) =
            or_zero_both (pad_bytes count start s)
              (vb2_safe_memcmp (take (length tail) (drop count s)) tail) (ground (arith, e)) in
          let (none, ones) = pads.0 padded in
          let (zero_x, one_y) = or_zero_both (bit_xor x 0x00) (bit_xor y 0x01) none in
          ap₂ (λ (z : ℕ) zs. z ∷ zs) (xor_zero x 0 zero_x)
            (ap₂ (λ (z : ℕ) zs. z ∷ zs) (xor_zero y 1 one_y)
              (first.1 (ones, second.1 (tails.0 compared, refl)))),
      λ e.
          let (ones, after) = first.0 (ap (drop 2) e) in
          let (same, _) = second.0 after in
          let none : start ≡ 0 =
            ap₂ (λ u v. bit_or (bit_xor u 0x00) (bit_xor v 0x01)) (ap (λ l. get_or l 0 0) e)
              (ap (λ l. get_or l 1 0) e) in
          ground (arith, pads.1 (none, ones), tails.1 same),
    )

-- The tail and the digest after it.
padded_iff :
    (x y : ℕ) (s : List ℕ) (count : ℕ) (tail digest : List ℕ)
    → length s ≡ count + length tail + length digest
    → (check_tail (x ∷ y ∷ s) count tail ≡ vb2_success)
        × (drop (length tail) (drop count s) ≡ digest)
      ↔ (x ∷ y ∷ s ≡ 0 ∷ 1 ∷ (replicate count 0xff ++ (tail ++ digest)))
padded_iff x y s count tail digest l =
    let checked = check_tail_iff x y s count tail (omega (arith, l)) in
    let room : length tail ≤ length (drop count s) = omega (arith, length-drop count s, l) in
    let first =
      chunk count s (replicate count 0xff) (tail ++ digest) (length-replicate count 0xff)
        (omega (arith, l)) in
    let second = chunk (length tail) (drop count s) tail digest refl room in
    let whole = λ (end : List ℕ). 0 ∷ 1 ∷ (replicate count 0xff ++ (tail ++ end)) in
    (
      λ (c, e). checked.0 c ∙ ap whole e,
      λ e.
          let end = (second.0 (first.0 (ap (drop 2) e)).1).1 in
          (checked.1 (e ∙ ap whole (sym end)), end),
    )

abbrev pub tail_of : ℕ → List ℕ
tail_of hash_alg =
    if hash_alg == hash_sha1
    then sha1_tail
    else if hash_alg == hash_sha256
    then sha256_tail
    else sha512_tail

-- The encoding of PKCS #1 1.5, from the standard: bytes of 0xff fill it to the signature's size.
abbrev pub encoded : PublicKey → List ℕ → List ℕ
encoded key digest =
    let tail = tail_of key.hash_alg in
    let count = vb2_rsa_sig_size key.sig_alg - vb2_digest_size key.hash_alg - length tail - 2 in
    0 ∷ 1 ∷ (replicate count 0xff ++ (tail ++ digest))

sizes :
    (sig_alg hash_alg : ℕ)
    → 0 < vb2_rsa_sig_size sig_alg
    → 0 < vb2_digest_size hash_alg
    → (128 ≤ vb2_rsa_sig_size sig_alg)
      × (vb2_rsa_sig_size sig_alg ≤ 1024)
      × (vb2_digest_size hash_alg ≤ 64)
      × (length (tail_of hash_alg) ≤ 20)
unfolding vb2_rsa_sig_size vb2_digest_size
sizes sig_alg hash_alg s h = ground arith

check_padding_lem :
    (sig : List ℕ) (key : PublicKey)
    → 0 < vb2_rsa_sig_size key.sig_alg
    → 0 < vb2_digest_size key.hash_alg
    → vb2_check_padding sig key
      ≡ check_tail sig
          (vb2_rsa_sig_size key.sig_alg
            - vb2_digest_size key.hash_alg
            - length (tail_of key.hash_alg)
            - 2)
          (tail_of key.hash_alg)
unfolding vb2_check_padding vb2_digest_size
check_padding_lem sig key s h = elim (Bool-cases (key.hash_alg == hash_sha1)) [
  | inl one ↦ rw one (ground (arith, one, s, sizes key.sig_alg hash_sha1 s (ground arith)))
  | inr not_one ↦ elim (Bool-cases (key.hash_alg == hash_sha256)) [
    | inl two ↦
        rw (not_one, two) (ground (arith, two, s, sizes key.sig_alg hash_sha256 s (ground arith)))
    | inr not_two ↦ elim (Bool-cases (key.hash_alg == hash_sha512)) [
      | inl three ↦
          rw (not_one, not_two, three)
            (ground (arith, three, s, sizes key.sig_alg hash_sha512 s (ground arith)))
      | inr not_three ↦ absurd (ground (arith, h, not_one, not_two, not_three))
    ]
  ]
]

check_tail_codes :
    (sig : List ℕ) (count : ℕ) (tail : List ℕ)
    → (check_tail sig count tail ≡ vb2_success) ⊎ (check_tail sig count tail ≡ error_rsa_padding)
unfolding check_tail
check_tail_codes sig count tail = ground arith

decrypted_iff :
    (key : PublicKey) (sig digest : List ℕ)
    → 0 < vb2_rsa_sig_size key.sig_alg
    → 0 < vb2_digest_size key.hash_alg
    → key.arrsize * 4 ≡ vb2_rsa_sig_size key.sig_alg
    → length sig ≡ vb2_rsa_sig_size key.sig_alg
    → length digest ≡ vb2_digest_size key.hash_alg
    → let pad_size = vb2_rsa_sig_size key.sig_alg - vb2_digest_size key.hash_alg in
      (check_decrypted key sig digest ≡ vb2_success)
      ↔ (check_tail sig (pad_size - length (tail_of key.hash_alg) - 2) (tail_of key.hash_alg)
          ≡ vb2_success)
        × (drop pad_size sig ≡ digest)
unfolding check_decrypted
decrypted_iff key sig digest s h a ls ld =
    let pad_size = vb2_rsa_sig_size key.sig_alg - vb2_digest_size key.hash_alg in
    let size = key.arrsize * 4 - pad_size in
    let bounds = sizes key.sig_alg key.hash_alg s h in
    let whole : size ≡ length digest = omega (arith, bounds, a, ld) in
    let end : length (drop pad_size sig) ≡ size =
      omega (arith, length-drop pad_size sig, bounds, a, ls) in
    let padded = check_padding_lem sig key s h in
    let codes =
      check_tail_codes sig (pad_size - length (tail_of key.hash_alg) - 2) (tail_of key.hash_alg) in
    let compared = vb2_safe_memcmp_iff (take size (drop pad_size sig)) (take size digest) (
      length-take size (drop pad_size sig) (omega (arith, end))
      ∙ sym (length-take size digest (omega (arith, whole)))) in
    let taken = take_all (drop pad_size sig) size end in
    let taken' = take_all digest size (sym whole) in
    (
      λ e. (
        ground (arith, e, padded, codes),
        sym taken ∙ compared.0 (ground (arith, e, padded, codes)) ∙ taken',
      ),
      λ (checked, same). ground (arith, padded, checked, compared.1 (taken ∙ same ∙ sym taken')),
    )

-- For a key of a known signature and hash algorithm, a signature of its size and a digest of the
-- hash's size, the check of the decrypted signature succeeds exactly if it is, byte for byte, the
-- PKCS #1 1.5 encoding of the digest.
pub check_decrypted_iff :
    (key : PublicKey) (sig digest : List ℕ)
    → 0 < vb2_rsa_sig_size key.sig_alg
    → 0 < vb2_digest_size key.hash_alg
    → key.arrsize * 4 ≡ vb2_rsa_sig_size key.sig_alg
    → length sig ≡ vb2_rsa_sig_size key.sig_alg
    → length digest ≡ vb2_digest_size key.hash_alg
    → (check_decrypted key sig digest ≡ vb2_success) ↔ (sig ≡ encoded key digest)
check_decrypted_iff key [] digest s h a ls ld = absurd (omega (arith, s, ls))
check_decrypted_iff key (x ∷ []) digest s h a ls ld =
    absurd (omega (arith, sizes key.sig_alg key.hash_alg s h, ls))
check_decrypted_iff key (x ∷ y ∷ sig) digest s h a ls ld =
    let bounds = sizes key.sig_alg key.hash_alg s h in
    let tail = tail_of key.hash_alg in
    let pad_size = vb2_rsa_sig_size key.sig_alg - vb2_digest_size key.hash_alg in
    let count = pad_size - length tail - 2 in
    let split = decrypted_iff key (x ∷ y ∷ sig) digest s h a ls ld in
    let padded = padded_iff x y sig count tail digest (omega (arith, bounds, ls, ld)) in
    let place : length tail + (count + 2) ≡ pad_size = omega (arith, bounds) in
    let end : drop (length tail) (drop count sig) ≡ drop pad_size (x ∷ y ∷ sig) =
      ap (drop (length tail)) (drop-drop count 2 (x ∷ y ∷ sig))
      ∙ drop-drop (length tail) (count + 2) (x ∷ y ∷ sig)
      ∙ ap (λ k. drop k (x ∷ y ∷ sig)) place in
    (
      λ e. let (checked, same) = split.0 e in padded.0 (checked, end ∙ same),
      λ e. let (checked, same) = padded.1 e in split.1 (checked, sym end ∙ same),
    )
