-- ===== src/Secdatak.antt =====
-- firmware/2lib/2secdatak.c: the kernel space of the secure storage.
pub mod Laws
use cbmc_vboot.Prelude.{
  ℕ, not, Bool, List, ◌∷◌, ◌++◌, ◌==◌, truthy, if◌then◌else◌, has_flag, le_bytes, replicate, Result,
  ok, err,
}
use cbmc_vboot.Crc8.{vb2_crc8}
use cbmc_vboot.Context.{
  Context, Secdatak, vb2_success, status_secdatak_init, context_secdatak_changed, or_flags,
  or_status,
}
use cbmc_vboot.Secdata.{reads_as}

abbrev pub error_secdatak_crc : ℕ
error_secdatak_crc = 0x10040008

abbrev pub error_secdatak_uid : ℕ
error_secdatak_uid = 0x1004000a

abbrev pub error_secdatak_get_param : ℕ
error_secdatak_get_param = 0x1004000b

abbrev pub error_secdatak_set_param : ℕ
error_secdatak_set_param = 0x1004000c

abbrev pub error_secdatak_get_uninitialized : ℕ
error_secdatak_get_uninitialized = 0x1004000e

abbrev pub error_secdatak_set_uninitialized : ℕ
error_secdatak_set_uninitialized = 0x1004000f

abbrev pub secdatak_uid : ℕ
secdatak_uid = 0x4752574c

-- enum vb2_secdatak_param; `other` is any further value of the C type.
pub data SecdatakParam : Type 0 where
  versions : SecdatakParam
  other : ℕ → SecdatakParam

-- The bytes of the packed struct before `crc8`.
unfoldable pub secdatak_bytes : Secdatak → List ℕ
secdatak_bytes s = s.struct_version ∷ le_bytes 4 s.uid ++ le_bytes 4 s.kernel_versions ++ s.reserved

-- vb2_crc8(sec, offsetof(struct vb2_secdatak, crc8))
unfoldable pub secdatak_crc : Secdatak → ℕ
secdatak_crc s = vb2_crc8 (secdatak_bytes s) 12

unfoldable pub vb2_secdatak_check_crc : Context → ℕ
vb2_secdatak_check_crc ctx =
    if not (ctx.secdatak.crc8 == secdatak_crc ctx.secdatak) then error_secdatak_crc else vb2_success

-- "Calculate / regenerate CRC", the changed flag and the successful return.
unfoldable pub store_secdatak : Context → Secdatak → Context × ℕ
store_secdatak ctx s = (
  or_flags (record ctx { secdatak = record s { crc8 = secdatak_crc s } }) context_secdatak_changed,
  vb2_success,
)

-- memset(sec, 0, sizeof(*sec)), the version and the UID.
unfoldable pub vb2_secdatak_create : Context → Context × ℕ
unfolding store_secdatak
vb2_secdatak_create ctx = store_secdatak ctx (record {
  struct_version = 2;
  uid = secdatak_uid;
  kernel_versions = 0;
  reserved = replicate 3 0;
  crc8 = 0;
})

unfoldable pub vb2_secdatak_init : Context → Context × ℕ
vb2_secdatak_init ctx =
    let rv = vb2_secdatak_check_crc ctx in
    if truthy rv
    then (ctx, rv)
    else if not (ctx.secdatak.uid == secdatak_uid)
    then (ctx, error_secdatak_uid)
    else (or_status ctx status_secdatak_init, vb2_success)

unfoldable pub vb2_secdatak_get : Context → SecdatakParam → Result ℕ
vb2_secdatak_get ctx versions =
    if not (has_flag ctx.sd.status status_secdatak_init)
    then err error_secdatak_get_uninitialized
    else ok ctx.secdatak.kernel_versions
vb2_secdatak_get ctx (other n) =
    if not (has_flag ctx.sd.status status_secdatak_init)
    then err error_secdatak_get_uninitialized
    else err error_secdatak_get_param

-- The switch of vb2_secdatak_set.
set_param : Context → SecdatakParam → ℕ → Context × ℕ
set_param ctx versions value = store_secdatak ctx (record ctx.secdatak { kernel_versions = value })
set_param ctx (other n) value = (ctx, error_secdatak_set_param)

unfoldable pub vb2_secdatak_set : Context → SecdatakParam → ℕ → Context × ℕ
unfolding set_param store_secdatak
vb2_secdatak_set ctx param value =
    if not (has_flag ctx.sd.status status_secdatak_init)
    then (ctx, error_secdatak_set_uninitialized)
    else if reads_as (vb2_secdatak_get ctx param) value
    then (ctx, vb2_success)
    else set_param ctx param value
