-- ===== src/Keys/Unpack/Bounds.antt =====
-- An unpacked key's arrays lie in the buffer that the key came from.
use cbmc_vboot.Prelude.{
  ℕ, ◌+◌, ◌*◌, ◌%◌, ◌^◌, ◌≤◌, ◌<◌, ◌≡◌, ◌≢◌, inl, inr, truthy, Bool-cases, arith, ok, All-get_or,
}
use cbmc_vboot.Prelude.Masks.{and_3}
use cbmc_vboot.Common.{vb2_aligned}
use cbmc_vboot.Keys.{Memory, load32, packed_key_at, PackedKey, sizeof_packed_key}
use cbmc_vboot.Keys.Inside.{vb2_verify_packed_key_inside}
use cbmc_vboot.Keys.Inside.Bounds.{Inside, vb2_verify_member_inside_iff}
use cbmc_vboot.Keys.Unpack.{
  PublicKey, crypto_to_hash, vb2_crypto_to_signature, vb2_crypto_to_hash, vb2_rsa_sig_size,
  vb2_packed_key_size, vb2_digest_size, unpack, vb2_unpack_key,
}

-- A key that may be used with a buffer: the arrays `n` and `rr` are aligned, stand behind each
-- other and behind the key's header, and end in the buffer; their length is that of a signature.
pub record IsKey (buf size : ℕ) (key : PublicKey) : Type 0 where
  pub after : buf + sizeof_packed_key + 8 ≤ key.n
  pub follows : key.rr ≡ key.n + key.arrsize * 4
  pub end : key.rr + key.arrsize * 4 ≤ buf + size
  pub aligned : key.n % 4 ≡ 0
  pub length_is : key.arrsize * 4 ≡ vb2_rsa_sig_size key.sig_alg
  pub some_words : 0 < key.arrsize
  pub hashes : 0 < vb2_digest_size key.hash_alg

load32-lt : (m : Memory) (a : ℕ) → load32 m a < 2 ^ 32
load32-lt m a = omega arith

packed_key_size_lem :
    (sig_alg : ℕ)
    → vb2_packed_key_size sig_alg ≢ 0
    → (vb2_packed_key_size sig_alg ≡ 2 * vb2_rsa_sig_size sig_alg + 8)
      × (0 < vb2_rsa_sig_size sig_alg)
unfolding vb2_packed_key_size
packed_key_size_lem sig_alg h = ground arith

hash_lem : (a : ℕ) → vb2_crypto_to_hash a ≢ 0 → 0 < vb2_digest_size (vb2_crypto_to_hash a)
unfolding vb2_crypto_to_hash vb2_digest_size
hash_lem a h =
    ground (arith, h, All-get_or (λ k. k ≤ 3) crypto_to_hash a 0 (omega arith) (omega arith))

unpack-IsKey :
    (m : Memory) (buf size : ℕ) (p : PackedKey) (key : PublicKey)
    → Inside buf size buf sizeof_packed_key ((buf + p.key_offset) % 2 ^ 64) p.key_size
    → unpack m buf p ≡ ok key
    → IsKey buf size key
unfolding unpack vb2_aligned
unpack-IsKey m buf size p key i e =
    let sizes = packed_key_size_lem (vb2_crypto_to_signature p.algorithm) in
    record {
      after = ground (arith, e, i, sizes);
      follows = ground (arith, e);
      end = ground (arith, e, i, sizes);
      aligned = ground (arith, e, and_3 ((buf + p.key_offset) % 2 ^ 64));
      length_is = ground (arith, e);
      some_words = ground (arith, e, sizes);
      hashes = ground (arith, e, hash_lem p.algorithm);
    }

-- A key that vb2_unpack_key unpacks from a buffer of less than 2 ^ 32 bytes can be used with it.
pub vb2_unpack_key-IsKey :
    (m : Memory) (buf size : ℕ) (key : PublicKey)
    → buf < 2 ^ 64
    → size < 2 ^ 32
    → vb2_unpack_key m buf size ≡ ok key
    → IsKey buf size key
unfolding vb2_unpack_key vb2_verify_packed_key_inside
vb2_unpack_key-IsKey m buf size key b s e =
    let p = packed_key_at m buf in
    elim (Bool-cases (truthy (vb2_verify_packed_key_inside buf size buf p))) [
      | inl bad ↦ absurd (ground (arith, bad, e))
      | inr fine ↦
          unpack-IsKey m buf size p key
            ((vb2_verify_member_inside_iff buf size buf 32 p.key_offset p.key_size b (omega arith) b
                (omega arith) (omega (arith, load32-lt m buf))
                (omega (arith, load32-lt m (buf + 8)))).0
              (ground (arith, fine)))
            (ground (arith, fine, e))
    ]
