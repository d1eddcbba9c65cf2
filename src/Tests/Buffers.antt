-- ===== src/Tests/Buffers.antt =====
-- The bounds of the work buffer and of a struct's members, and the arithmetic of RSA.
use cbmc_vboot.Prelude.{
  ℕ, ◌+◌, ◌-◌, ◌*◌, ◌%◌, ◌^◌, ◌≤◌, ◌<◌, ◌≡◌, ◌⊎◌, ◌↔◌, refl, arith, List, [], ◌∷◌, replicate, some,
  none,
}
use cbmc_vboot.Context.{vb2_success}
use cbmc_vboot.Common.{Workbuf, wb_round_up, vb2_workbuf_alloc}
use cbmc_vboot.Common.Bounds.{IsRoom, Allocated, vb2_workbuf_alloc_lem}
use cbmc_vboot.Keys.Inside.{vb2_verify_member_inside}
use cbmc_vboot.Keys.Inside.Bounds.{Inside, vb2_verify_member_inside_iff}
use cbmc_vboot.Keys.Unpack.{PublicKey, vb2_rsa_sig_size, vb2_digest_size}
use cbmc_vboot.Rsa.{mont_mul, modpow_f4, check_decrypted}
use cbmc_vboot.Rsa.Value.{value, scale}
use cbmc_vboot.Rsa.Product.{Product, mont_mul-Product}
use cbmc_vboot.Rsa.Bytes.{number}
use cbmc_vboot.Rsa.Congruence.{Congruent}
use cbmc_vboot.Rsa.Power.{modpow_f4-Power}
use cbmc_vboot.Rsa.Padding.{encoded, check_decrypted_iff}

abbrev room : Workbuf
room = record { buf = 0x3000; size = 0x1000 }

room-IsRoom : IsRoom room
room-IsRoom = record { aligned = λ more. refl; small = omega arith; within = omega arith }

vb2_workbuf_alloc_lem_example :
    let r = vb2_workbuf_alloc room 5 in
    (5 ≤ 2 ^ 32 - 16)
      × ((room.size < wb_round_up 5) × (r.1 ≡ none) × (r.0 ≡ room)
          ⊎ (wb_round_up 5 ≤ room.size) × ((ptr : ℕ) × (r.1 ≡ some ptr) × Allocated room r.0 5 ptr))
    ⊎ (2 ^ 32 - 16 < 5) × (r.1 ≡ some room.buf) × (r.0 ≡ room)
vb2_workbuf_alloc_lem_example = vb2_workbuf_alloc_lem room 5 room-IsRoom (omega arith)

allocates : (vb2_workbuf_alloc room 5).1 ≡ some 0x3000
unfolding vb2_workbuf_alloc wb_round_up
allocates = refl

vb2_verify_member_inside_iff_example :
    (vb2_verify_member_inside 0x1000 0x100 0x1010 0x20 0x20 0x40 ≡ vb2_success)
    ↔ Inside 0x1000 0x100 0x1010 0x20 ((0x1010 + 0x20) % 2 ^ 64) 0x40
vb2_verify_member_inside_iff_example =
    vb2_verify_member_inside_iff 0x1000 0x100 0x1010 0x20 0x20 0x40 (omega arith) (omega arith)
      (omega arith) (omega arith) (omega arith) (omega arith)

-- The modulus 2 ^ 32 + 1, with n0inv = -1.
abbrev modulus : List ℕ
modulus = 1 ∷ 1 ∷ []

mont_mul-Product_example :
    Product
      (mont_mul 0xffff_ffff modulus (3 ∷ 0 ∷ []) (5 ∷ 7 ∷ []))
      modulus
      (3 ∷ 0 ∷ [])
      (value (3 ∷ 0 ∷ []) * value (5 ∷ 7 ∷ []))
mont_mul-Product_example =
    mont_mul-Product 0xffff_ffff modulus (3 ∷ 0 ∷ []) (5 ∷ 7 ∷ []) (omega arith) refl
      (omega arith, (omega arith, tt)) (omega arith, (omega arith, tt))
      (omega arith, (omega arith, tt)) refl

-- 2 ^ 64 is 1 modulo this modulus, and so is its square.
rr_square : Congruent (value modulus) (value (1 ∷ 0 ∷ [])) (scale modulus * scale modulus)
unfolding Congruent value scale
rr_square = (79228162495817593524129366015, 0, refl)

abbrev message : List ℕ
message = 0 ∷ 0 ∷ 0 ∷ 1 ∷ 0 ∷ 0 ∷ 0 ∷ 2 ∷ []

modpow_f4-Power_example :
    Congruent
      (value modulus)
      (number (modpow_f4 0xffff_ffff modulus (1 ∷ 0 ∷ []) message))
      (number message ^ 65537)
modpow_f4-Power_example =
    modpow_f4-Power 0xffff_ffff modulus (1 ∷ 0 ∷ []) message (omega arith)
      (omega arith, (omega arith, tt)) (omega arith, (omega arith, tt)) refl (omega arith) refl refl
      rr_square

-- RSA 1024 with SHA-1.
abbrev key : PublicKey
key = record { arrsize = 32; n0inv = 0; n = 0; rr = 0; sig_alg = 2; hash_alg = 1 }

known : (0 < vb2_rsa_sig_size 2) × (0 < vb2_digest_size 1)
unfolding vb2_rsa_sig_size vb2_digest_size
known = (omega arith, omega arith)

key_size : (32 * 4 ≡ vb2_rsa_sig_size 2) × (20 ≡ vb2_digest_size 1)
unfolding vb2_rsa_sig_size vb2_digest_size
key_size = (refl, refl)

abbrev some_sig : List ℕ
some_sig = replicate 128 7

abbrev some_digest : List ℕ
some_digest = replicate 20 9

check_decrypted_iff_example :
    (check_decrypted key some_sig some_digest ≡ vb2_success) ↔ (some_sig ≡ encoded key some_digest)
check_decrypted_iff_example =
    check_decrypted_iff key some_sig some_digest known.0 known.1 key_size.0 key_size.0 key_size.1
