-- ===== src/Secdatak/Laws.antt =====
-- What the kernel space of the secure storage promises to its callers.
use cbmc_vboot.Prelude.{ℕ, ◌≡◌, arith, ok}
use cbmc_vboot.Prelude.Bits.{flag_self}
use cbmc_vboot.Context.{Context, vb2_success, status_secdatak_init}
use cbmc_vboot.Secdatak.{
  SecdatakParam, versions, other, secdatak_uid, secdatak_bytes, secdatak_crc,
  vb2_secdatak_check_crc, vb2_secdatak_create, vb2_secdatak_get, vb2_secdatak_init,
  vb2_secdatak_set,
}

-- The struct passes the checks of vb2_secdatak_init.
pub record IsValid (ctx : Context) : Type 0 where
  pub checked : vb2_secdatak_check_crc ctx ≡ vb2_success
  pub identified : ctx.secdatak.uid ≡ secdatak_uid

-- Whatever is set, and whatever the result, a struct that passes the checks still passes them.
pub vb2_secdatak_set-IsValid :
    (ctx : Context) (param : SecdatakParam) (value : ℕ)
    → IsValid ctx
    → IsValid (vb2_secdatak_set ctx param value).0
unfolding vb2_secdatak_set vb2_secdatak_check_crc secdatak_crc secdatak_bytes
vb2_secdatak_set-IsValid ctx versions value v = ground arith
vb2_secdatak_set-IsValid ctx (other n) value v = ground arith

-- On a new machine: create the space, initialise it, and set the kernel version. Every step
-- succeeds, the version reads back, and the struct passes the checks of the next boot.
pub vb2_secdatak_set-create :
    (ctx : Context) (value : ℕ)
    → let start = vb2_secdatak_init (vb2_secdatak_create ctx).0 in
      let end = vb2_secdatak_set start.0 versions value in
      (start.1 ≡ vb2_success)
      × (end.1 ≡ vb2_success)
      × (vb2_secdatak_get end.0 versions ≡ ok value)
      × IsValid end.0
unfolding vb2_secdatak_init vb2_secdatak_create vb2_secdatak_set vb2_secdatak_get
    vb2_secdatak_check_crc secdatak_crc secdatak_bytes
vb2_secdatak_set-create ctx value = ground (arith, flag_self ctx.sd.status status_secdatak_init)
