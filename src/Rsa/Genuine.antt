-- ===== src/Rsa/Genuine.antt =====
-- firmware/2lib/2rsa.c: a signature that vb2_rsa_verify_digest accepts is one of the digest.
use cbmc_vboot.Prelude.{
  ℕ, zero, suc, ◌+◌, ◌-◌, ◌*◌, ◌%◌, ◌^◌, ◌<◌, ◌≡◌, inl, inr, refl, ap, sym, subst, ◌∙◌, arith,
  Bool-cases, truthy, ◌==◌, List, length, All, IsByte, get_or, Option, some, none,
}
use cbmc_vboot.Context.{vb2_success}
use cbmc_vboot.Codes.{error_rsa_verify_workbuf}
use cbmc_vboot.Common.{Workbuf, vb2_workbuf_alloc}
use cbmc_vboot.Keys.{Memory, load_bytes}
use cbmc_vboot.Keys.Unpack.{PublicKey, vb2_rsa_sig_size, vb2_digest_size}
use cbmc_vboot.Rsa.{load_words, modpow_f4, decrypt_and_check, vb2_rsa_verify_digest}
use cbmc_vboot.Rsa.Value.{IsWord, value, scale}
use cbmc_vboot.Rsa.Bytes.{number}
use cbmc_vboot.Rsa.Congruence.{Congruent}
use cbmc_vboot.Rsa.Power.{length-modpow_f4, modpow_f4-Power}
use cbmc_vboot.Rsa.Padding.{encoded, check_decrypted_iff}

abbrev pub modulus_of : Memory → PublicKey → List ℕ
modulus_of m key = load_words key.arrsize m key.n

-- What a key's precomputed numbers are to be: n0inv minus the inverse of the lowest word of the
-- modulus, rr the square of 2 ^ 32 to the number of words, modulo the modulus.
pub record IsRsaKey (m : Memory) (key : PublicKey) : Type 0 where
  pub some_words : 0 < key.arrsize
  pub few_words : key.arrsize < 2 ^ 30
  pub known_hash : 0 < vb2_digest_size key.hash_alg
  pub inverse : get_or (modulus_of m key) 0 0 * key.n0inv % 2 ^ 32 ≡ 2 ^ 32 - 1
  pub square :
      Congruent
        (value (modulus_of m key))
        (value (load_words key.arrsize m key.rr))
        (scale (modulus_of m key) * scale (modulus_of m key))

load_words-All : (count : ℕ) (m : Memory) (at : ℕ) → All IsWord (load_words count m at)
load_words-All zero m at = tt
load_words-All (suc count) m at = (omega arith, load_words-All count m (at + 4))

length-load_words : (count : ℕ) (m : Memory) (at : ℕ) → length (load_words count m at) ≡ count
length-load_words zero m at = refl
length-load_words (suc count) m at = ap suc (length-load_words count m (at + 4))

load_bytes-All : (count : ℕ) (m : Memory) (at : ℕ) → All IsByte (load_bytes count m at)
load_bytes-All zero m at = tt
load_bytes-All (suc count) m at = (omega arith, load_bytes-All count m (at + 1))

length-load_bytes : (count : ℕ) (m : Memory) (at : ℕ) → length (load_bytes count m at) ≡ count
length-load_bytes zero m at = refl
length-load_bytes (suc count) m at = ap suc (length-load_bytes count m (at + 1))

-- The result with the place that the work buffer has.
abbrev with_room : Memory → Memory × ℕ → Option ℕ → Memory × ℕ
with_room m result room = elim room [
  | none ↦ (m, error_rsa_verify_workbuf)
  | some workbuf32 ↦ result
]

room_given :
    (m : Memory) (result : Memory × ℕ) (room : Option ℕ)
    → (with_room m result room).1 ≡ vb2_success
    → result.1 ≡ vb2_success
room_given m result none h = absurd (omega (arith, h))
room_given m result (some workbuf32) h = h

-- What vb2_rsa_verify_digest has checked where it succeeds.
rsa_checked :
    (m : Memory) (key : PublicKey) (sig : ℕ) (digest : List ℕ) (wb : Workbuf)
    → key.arrsize < 2 ^ 30
    → (vb2_rsa_verify_digest m key sig digest wb).1 ≡ vb2_success
    → (0 < vb2_rsa_sig_size key.sig_alg)
      × (key.arrsize * 4 ≡ vb2_rsa_sig_size key.sig_alg)
      × ((decrypt_and_check m key sig digest).1 ≡ vb2_success)
unfolding vb2_rsa_verify_digest
rsa_checked m key sig digest wb few h = elim (Bool-cases (truthy (vb2_rsa_sig_size key.sig_alg))) [
  | inr unknown ↦ absurd (ground (arith, h, unknown))
  | inl sized ↦ elim (Bool-cases (key.arrsize * 4 % 2 ^ 32 == vb2_rsa_sig_size key.sig_alg)) [
    | inr other ↦ absurd (ground (arith, h, sized, other))
    | inl same ↦
        let key_bytes = key.arrsize * 4 % 2 ^ 32 in
        let result = decrypt_and_check m key sig digest in
        let room = (vb2_workbuf_alloc wb (3 * key_bytes)).1 in
        let given : (with_room m result room).1 ≡ vb2_success = ground (arith, h, sized, same) in
        (ground (arith, sized), ground (arith, same, few), room_given m result room given)
  ]
]

-- If vb2_rsa_verify_digest succeeds with a key whose precomputed numbers are right, and the digest has
-- the size of the key's hash, then the signature's number to the power 65537 is congruent, modulo the
-- key's modulus, to the number of the PKCS #1 1.5 encoding of the digest.
pub vb2_rsa_verify_digest-Genuine :
    (m : Memory) (key : PublicKey) (sig : ℕ) (digest : List ℕ) (wb : Workbuf)
    → IsRsaKey m key
    → length digest ≡ vb2_digest_size key.hash_alg
    → (vb2_rsa_verify_digest m key sig digest wb).1 ≡ vb2_success
    → Congruent
        (value (modulus_of m key))
        (number (encoded key digest))
        (number (load_bytes (key.arrsize * 4) m sig) ^ 65537)
vb2_rsa_verify_digest-Genuine m key sig digest wb k size h =
    let (sized, same, checked) = rsa_checked m key sig digest wb k.few_words h in
    let n = modulus_of m key in
    let rr = load_words key.arrsize m key.rr in
    let bytes = load_bytes (key.arrsize * 4) m sig in
    let ln : length n ≡ key.arrsize = length-load_words key.arrsize m key.n in
    let pos : 0 < length n = omega (arith, ln, k.some_words) in
    let lr : length rr ≡ length n = length-load_words key.arrsize m key.rr ∙ sym ln in
    let lb : length bytes ≡ 4 * length n =
      omega (arith, length-load_bytes (key.arrsize * 4) m sig, ln) in
    let hn = load_words-All key.arrsize m key.n in
    let hr = load_words-All key.arrsize m key.rr in
    let hb = load_bytes-All (key.arrsize * 4) m sig in
    let ld = length-modpow_f4 key.n0inv n rr bytes pos hn hr lr hb lb k.inverse k.square in
    let power = modpow_f4-Power key.n0inv n rr bytes pos hn hr lr hb lb k.inverse k.square in
    let padded : modpow_f4 key.n0inv n rr bytes ≡ encoded key digest =
      (check_decrypted_iff key (modpow_f4 key.n0inv n rr bytes) digest sized k.known_hash same
          (omega (arith, ld, ln, same)) size).0
        (unfold decrypt_and_check in checked) in
    subst (λ x. Congruent (value n) (number x) (number bytes ^ 65537)) padded power
