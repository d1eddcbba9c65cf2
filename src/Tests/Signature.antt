-- ===== src/Tests/Signature.antt =====
-- A signature of the SHA-1 digest of "abc", with RSA 1024 and the modulus 2 ^ 1024 - 0x69.
use cbmc_vboot.Prelude.{
  ℕ, ◌+◌, ◌-◌, ◌^◌, ◌≡◌, refl, arith, leb, if◌then◌else◌, List, [], ◌∷◌, replicate, get_or,
}
use cbmc_vboot.Context.{vb2_success}
use cbmc_vboot.Common.{Workbuf, vb2_workbuf_alloc, wb_round_up, vb2_safe_memcmp, vb2_workbuf_free}
use cbmc_vboot.Keys.{Memory, load_bytes, store_bytes}
use cbmc_vboot.Keys.Unpack.{PublicKey, vb2_rsa_sig_size, vb2_digest_size}
use cbmc_vboot.Rsa.{vb2_rsa_verify_digest, modpow_f4, mont_mul, mont_mul_add, vb2_mont_ge, sub_m}
use cbmc_vboot.Rsa.Value.{value, scale}
use cbmc_vboot.Rsa.Congruence.{Congruent}
use cbmc_vboot.Sha.Digest.{vb2_digest_init, vb2_digest_extend, vb2_digest_finalize}
use cbmc_vboot.Sha.Sha1.{vb2_sha1_finalize, vb2_sha1_init}
use cbmc_vboot.Rsa.Genuine.{IsRsaKey}
use cbmc_vboot.Common.Bounds.{IsRoom}
use cbmc_vboot.Keys.Verify.{vb2_verify_data}
use cbmc_vboot.Trust.{vboot_crypto, digest_of, IsGenuine, vb2_verify_data-Genuine}

abbrev modulus_bytes : List ℕ
modulus_bytes = 0x97 ∷ replicate 127 0xff

abbrev sig_bytes : List ℕ
sig_bytes =
    0x10 ∷ 0xae ∷ 0x25 ∷ 0xcb ∷ 0xf2 ∷ 0x45 ∷ 0xdd ∷ 0x90 ∷ 0x93 ∷ 0x23 ∷ 0x2b ∷ 0xbf ∷ 0xd ∷ 0xd1
    ∷ 0xc ∷ 0x27 ∷ 0xd1 ∷ 0x71 ∷ 0x66 ∷ 0xeb ∷ 0xca ∷ 0x7e ∷ 0x68 ∷ 0x23 ∷ 0x37 ∷ 0x9c ∷ 0x89 ∷ 0xf3
    ∷ 0x88 ∷ 0xbe ∷ 0xb7 ∷ 0x7b ∷ 0x96 ∷ 0xc7 ∷ 0x1 ∷ 0x94 ∷ 0x4e ∷ 0xa5 ∷ 0xb5 ∷ 0x75 ∷ 0x5c ∷ 0xa6
    ∷ 0x83 ∷ 0x57 ∷ 0xca ∷ 0x49 ∷ 0xb8 ∷ 0xe3 ∷ 0x40 ∷ 0xa9 ∷ 0x39 ∷ 0x26 ∷ 0xe9 ∷ 0x2b ∷ 0x58
    ∷ 0x89 ∷ 0x93 ∷ 0x0 ∷ 0x8f ∷ 0x55 ∷ 0xbd ∷ 0x8d ∷ 0x7c ∷ 0x58 ∷ 0x60 ∷ 0xd1 ∷ 0x18 ∷ 0xff ∷ 0xd7
    ∷ 0x40 ∷ 0x77 ∷ 0x67 ∷ 0x5b ∷ 0xac ∷ 0x9d ∷ 0xdd ∷ 0xa8 ∷ 0x7f ∷ 0xd2 ∷ 0xc6 ∷ 0x6e ∷ 0xab
    ∷ 0xb8 ∷ 0x7f ∷ 0x26 ∷ 0x2d ∷ 0x38 ∷ 0x82 ∷ 0xde ∷ 0x27 ∷ 0x7c ∷ 0x2c ∷ 0xd3 ∷ 0x71 ∷ 0xc4
    ∷ 0x25 ∷ 0x37 ∷ 0xb4 ∷ 0x48 ∷ 0x92 ∷ 0xde ∷ 0x57 ∷ 0x1f ∷ 0x9c ∷ 0x52 ∷ 0x38 ∷ 0x46 ∷ 0xb4
    ∷ 0x30 ∷ 0x6e ∷ 0xbf ∷ 0x5a ∷ 0x3 ∷ 0x91 ∷ 0xde ∷ 0x88 ∷ 0x71 ∷ 0xe ∷ 0xe2 ∷ 0x7f ∷ 0x82 ∷ 0x47
    ∷ 0x2d ∷ 0x75 ∷ 0xe9 ∷ 0x35 ∷ 0x64 ∷ 0x9b ∷ []

-- The data are at 0x800, the signature's struct at 0x900 and its bytes at 0x3000.
abbrev memory : Memory
memory = λ x.
    if leb 0x3000 x
    then get_or sig_bytes (x - 0x3000) 0
    else if leb 0x2000 x
    then get_or (0x11 ∷ 0x2b ∷ []) (x - 0x2000) 0
    else if leb 0x1000 x
    then get_or modulus_bytes (x - 0x1000) 0
    else if leb 0x900 x
    then get_or (0 ∷ 0x27 ∷ 0 ∷ 0 ∷ 0 ∷ 0 ∷ 0 ∷ 0 ∷ 128 ∷ 0 ∷ 0 ∷ 0 ∷ 0 ∷ 0 ∷ 0 ∷ 0 ∷ 3 ∷ [])
        (x - 0x900) 0
    else get_or (0x61 ∷ 0x62 ∷ 0x63 ∷ []) (x - 0x800) 0

abbrev key : PublicKey
key = record {
  arrsize = 32;
  n0inv = 0xd8fd8fd9;
  n = 0x1000;
  rr = 0x2000;
  sig_alg = 2;
  hash_alg = 1;
}

abbrev room : Workbuf
room = record { buf = 0x4000; size = 0x1000 }

room-IsRoom : IsRoom room
room-IsRoom = record { aligned = λ more. refl; small = omega arith; within = omega arith }

accepts : (vb2_verify_data vboot_crypto memory 0x800 3 0x900 key room).1 ≡ vb2_success
unfolding vb2_verify_data vb2_rsa_verify_digest vb2_rsa_sig_size vb2_workbuf_alloc wb_round_up
    vb2_digest_size modpow_f4 vb2_mont_ge mont_mul mont_mul_add sub_m vb2_safe_memcmp
    vb2_digest_init vb2_digest_extend vb2_digest_finalize vb2_workbuf_free vb2_sha1_finalize
    vb2_sha1_init
accepts = refl

key_numbers : IsRsaKey (store_bytes memory 0x4000 (digest_of 1 (load_bytes 3 memory 0x800))) key
unfolding Congruent value scale vb2_digest_size
key_numbers = record {
  some_words = omega arith;
  few_words = omega arith;
  known_hash = omega arith;
  inverse = refl;
  square = (2 ^ 1024 + 0x69, 0, refl);
}

vb2_verify_data-Genuine_example : IsGenuine memory 0x800 3 0x900 key room
vb2_verify_data-Genuine_example =
    vb2_verify_data-Genuine memory 0x800 3 0x900 key room room-IsRoom key_numbers accepts
