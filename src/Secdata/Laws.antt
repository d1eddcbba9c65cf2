-- ===== src/Secdata/Laws.antt =====
-- What the firmware space of the secure storage promises to its callers.
use cbmc_vboot.Prelude.{
  ℕ, suc, ◌≡◌, refl, ◌∙◌, ap, ◌≢◌, ◌⊎◌, inl, inr, false, List, [], ◌∷◌, ◌++◌, length, All, IsByte,
  ◌<◌, arith, has_flag, ok,
}
use cbmc_vboot.Prelude.Bits.{flag_self}
use cbmc_vboot.Crc8.{vb2_crc8}
use cbmc_vboot.Crc8.Errors.{vb2_crc8-change}
use cbmc_vboot.Context.{Context, vb2_success, status_secdata_init}
use cbmc_vboot.Secdata.{
  SecdataParam, flags, versions, other, error_secdata_crc, secdata_bytes, secdata_crc,
  vb2_secdata_check_crc, vb2_secdata_create, vb2_secdata_get, vb2_secdata_init, vb2_secdata_set,
}

length_change :
    (pre : List ℕ) (x y : ℕ) (post : List ℕ) → length (pre ++ x ∷ post) ≡ length (pre ++ y ∷ post)
length_change [] x y post = refl
length_change (p ∷ pre) x y post = ap suc (length_change pre x y post)

-- The struct passes its check.
abbrev pub IsValid : Context → Type 0
IsValid ctx = vb2_secdata_check_crc ctx ≡ vb2_success

-- Whatever is set, and whatever the result, a struct that passes its check still passes it.
pub vb2_secdata_set-IsValid :
    (ctx : Context) (param : SecdataParam) (value : ℕ)
    → IsValid ctx
    → IsValid (vb2_secdata_set ctx param value).0
unfolding vb2_secdata_set vb2_secdata_check_crc secdata_crc secdata_bytes
vb2_secdata_set-IsValid ctx flags value v = ground arith
vb2_secdata_set-IsValid ctx versions value v = ground arith
vb2_secdata_set-IsValid ctx (other n) value v = ground arith

-- If setting a parameter succeeds, it then reads as the value set, and the other parameters read
-- as before.
pub vb2_secdata_get-set :
    (ctx : Context) (param q : SecdataParam) (value : ℕ)
    → (vb2_secdata_set ctx param value).1 ≡ vb2_success
    → let ctx' = (vb2_secdata_set ctx param value).0 in
      (vb2_secdata_get ctx' param ≡ ok value)
      × ((q ≡ param) ⊎ (vb2_secdata_get ctx' q ≡ vb2_secdata_get ctx q))
unfolding vb2_secdata_set vb2_secdata_get
vb2_secdata_get-set ctx flags flags value h = (ground arith, inl refl)
vb2_secdata_get-set ctx versions versions value h = (ground arith, inl refl)
vb2_secdata_get-set ctx (other n) q value h = absurd (ground arith)
vb2_secdata_get-set ctx param q value h = (ground arith, inr (ground arith))

-- If setting a parameter fails, the context is untouched; and it fails only if the space was not
-- initialised, the parameter is none of the two, or the flags do not fit a byte.
pub vb2_secdata_set_fails :
    (ctx : Context) (param : SecdataParam) (value : ℕ)
    → (vb2_secdata_set ctx param value).1 ≢ vb2_success
    → ((vb2_secdata_set ctx param value).0 ≡ ctx)
      × ((has_flag ctx.sd.status status_secdata_init ≡ false)
          ⊎ ((param ≡ flags) × (0xff < value))
          ⊎ ((n : ℕ) × (param ≡ other n)))
unfolding vb2_secdata_set vb2_secdata_get
vb2_secdata_set_fails ctx flags value h = ground arith
vb2_secdata_set_fails ctx versions value h = ground arith
vb2_secdata_set_fails ctx (other n) value h = (ground arith, inr (inr (n, refl)))

-- A struct that was just created passes vb2_secdata_init, and then both parameters read as zero.
pub vb2_secdata_init-create :
    (ctx : Context)
    → let (ctx', code) = vb2_secdata_init (vb2_secdata_create ctx).0 in
      (code ≡ vb2_success)
      × (vb2_secdata_get ctx' flags ≡ ok 0)
      × (vb2_secdata_get ctx' versions ≡ ok 0)
      × (ctx'.sd.fw_version_secdata ≡ 0)
unfolding vb2_secdata_init vb2_secdata_create vb2_secdata_check_crc vb2_secdata_get secdata_crc
    secdata_bytes vb2_crc8
vb2_secdata_init-create ctx = ground (arith, flag_self ctx.sd.status status_secdata_init)

-- If a struct passes its check, no change of a single byte of its body does, with the checksum
-- left as it was: the result is VB2_ERROR_SECDATA_CRC.
pub vb2_secdata_check_crc-change :
    (ctx ctx' : Context) (pre post : List ℕ) (x y : ℕ)
    → secdata_bytes ctx.secdata ≡ pre ++ x ∷ post
    → secdata_bytes ctx'.secdata ≡ pre ++ y ∷ post
    → length (pre ++ x ∷ post) ≡ 9
    → All IsByte pre
    → All IsByte post
    → x < 256
    → y < 256
    → x ≢ y
    → ctx'.secdata.crc8 ≡ ctx.secdata.crc8
    → IsValid ctx
    → vb2_secdata_check_crc ctx' ≡ error_secdata_crc
unfolding vb2_secdata_check_crc secdata_crc
vb2_secdata_check_crc-change ctx ctx' pre post x y e e' n bs cs xb yb ne c v = ground (
  arith,
  vb2_crc8-change pre post x y bs cs xb yb ne,
  n,
  length_change pre x y post,
  ap (λ l. vb2_crc8 l 9) e,
  ap (λ l. vb2_crc8 l 9) e',
  ap (vb2_crc8 (pre ++ x ∷ post)) n,
  ap (vb2_crc8 (pre ++ y ∷ post)) (length_change pre y x post ∙ n),
)
