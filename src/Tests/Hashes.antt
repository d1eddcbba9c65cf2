-- ===== src/Tests/Hashes.antt =====
-- The test vectors "abc" of FIPS 180.
use cbmc_vboot.Prelude.{◌≡◌, ◌+◌, ◌%◌, ◌<◌, refl, arith, List, [], ◌∷◌, ℕ}
use cbmc_vboot.Sha.Rounds.{
  vb2_sha256_init, vb2_sha256_update, vb2_sha256_finalize, vb2_sha512_init, vb2_sha512_update,
  vb2_sha512_finalize, sha256_compress, sha512_compress,
}
use cbmc_vboot.Keys.Unpack.{vb2_digest_size}
use cbmc_vboot.Sha.Rounds.Reference.{update_all, sha256_of, sha512_of, sha2_lem}
use cbmc_vboot.Sha.Digest.{vb2_digest_init, vb2_digest_buffer, vb2_digest_finalize}
use cbmc_vboot.Sha.Digest.Streams.{extend_all, vb2_digest_buffer_lem}
use cbmc_vboot.Sha.Sha1.{vb2_sha1_init, vb2_sha1_update, vb2_sha1_finalize, sha1_zeros}
use cbmc_vboot.Sha.Sha1.Zeros.{sha1_zeros_end}

abbrev abc : List ℕ
abc = 0x61 ∷ 0x62 ∷ 0x63 ∷ []

sha256_abc :
    vb2_sha256_finalize (vb2_sha256_update vb2_sha256_init abc)
    ≡ 0xba ∷ 0x78 ∷ 0x16 ∷ 0xbf ∷ 0x8f ∷ 0x1 ∷ 0xcf ∷ 0xea ∷ 0x41 ∷ 0x41 ∷ 0x40 ∷ 0xde ∷ 0x5d ∷ 0xae
      ∷ 0x22 ∷ 0x23 ∷ 0xb0 ∷ 0x3 ∷ 0x61 ∷ 0xa3 ∷ 0x96 ∷ 0x17 ∷ 0x7a ∷ 0x9c ∷ 0xb4 ∷ 0x10 ∷ 0xff
      ∷ 0x61 ∷ 0xf2 ∷ 0x0 ∷ 0x15 ∷ 0xad ∷ []
unfolding vb2_sha256_init vb2_sha256_update vb2_sha256_finalize sha256_compress
sha256_abc = refl

sha512_abc :
    vb2_sha512_finalize (vb2_sha512_update vb2_sha512_init abc)
    ≡ 0xdd ∷ 0xaf ∷ 0x35 ∷ 0xa1 ∷ 0x93 ∷ 0x61 ∷ 0x7a ∷ 0xba ∷ 0xcc ∷ 0x41 ∷ 0x73 ∷ 0x49 ∷ 0xae
      ∷ 0x20 ∷ 0x41 ∷ 0x31 ∷ 0x12 ∷ 0xe6 ∷ 0xfa ∷ 0x4e ∷ 0x89 ∷ 0xa9 ∷ 0x7e ∷ 0xa2 ∷ 0xa ∷ 0x9e
      ∷ 0xee ∷ 0xe6 ∷ 0x4b ∷ 0x55 ∷ 0xd3 ∷ 0x9a ∷ 0x21 ∷ 0x92 ∷ 0x99 ∷ 0x2a ∷ 0x27 ∷ 0x4f ∷ 0xc1
      ∷ 0xa8 ∷ 0x36 ∷ 0xba ∷ 0x3c ∷ 0x23 ∷ 0xa3 ∷ 0xfe ∷ 0xeb ∷ 0xbd ∷ 0x45 ∷ 0x4d ∷ 0x44 ∷ 0x23
      ∷ 0x64 ∷ 0x3c ∷ 0xe8 ∷ 0xe ∷ 0x2a ∷ 0x9a ∷ 0xc9 ∷ 0x4f ∷ 0xa5 ∷ 0x4c ∷ 0xa4 ∷ 0x9f ∷ []
unfolding vb2_sha512_init vb2_sha512_update vb2_sha512_finalize sha512_compress
sha512_abc = refl

sha1_abc :
    vb2_sha1_finalize (vb2_sha1_update vb2_sha1_init abc)
    ≡ 0xa9 ∷ 0x99 ∷ 0x3e ∷ 0x36 ∷ 0x47 ∷ 0x6 ∷ 0x81 ∷ 0x6a ∷ 0xba ∷ 0x3e ∷ 0x25 ∷ 0x71 ∷ 0x78 ∷ 0x50
      ∷ 0xc2 ∷ 0x6c ∷ 0x9c ∷ 0xd0 ∷ 0xd8 ∷ 0x9d ∷ []
unfolding vb2_sha1_init vb2_sha1_update vb2_sha1_finalize
sha1_abc = refl

abbrev pieces : List (List ℕ)
pieces = (0x61 ∷ []) ∷ [] ∷ (0x62 ∷ 0x63 ∷ []) ∷ []

sha2_lem_example :
    (vb2_sha256_finalize (update_all vb2_sha256_update vb2_sha256_init pieces) ≡ sha256_of abc)
    × (vb2_sha512_finalize (update_all vb2_sha512_update vb2_sha512_init pieces) ≡ sha512_of abc)
sha2_lem_example = sha2_lem pieces (omega arith)

sha1_size : 0 < vb2_digest_size 1
unfolding vb2_digest_size
sha1_size = omega arith

vb2_digest_buffer_lem_example :
    vb2_digest_finalize (extend_all (vb2_digest_init 1).0 pieces) 20 ≡ vb2_digest_buffer abc 1 20
vb2_digest_buffer_lem_example = vb2_digest_buffer_lem pieces 1 20 sha1_size (omega arith)

sha1_zeros_end_example :
    let ctx = vb2_sha1_update vb2_sha1_init abc in
    ((sha1_zeros 63 ctx).count % 64 ≡ 56) × (sha1_zeros (63 + 5) ctx ≡ sha1_zeros 63 ctx)
sha1_zeros_end_example = sha1_zeros_end (vb2_sha1_update vb2_sha1_init abc) 5
