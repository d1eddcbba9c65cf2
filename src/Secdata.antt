-- ===== src/Secdata.antt =====
-- firmware/2lib/2secdata.c: the firmware space of the secure storage.
pub mod Laws
use cbmc_vboot.Prelude.{
  ℕ, zero, suc, bit_or, Bool, true, false, not, ◌&&◌, List, [], ◌∷◌, ◌++◌, ltb, ◌==◌, truthy,
  if◌then◌else◌, has_flag, le_bytes, replicate, Result, ok, err,
}
use cbmc_vboot.Crc8.{vb2_crc8}
use cbmc_vboot.Context.{
  Context, Secdata, vb2_success, status_secdata_init, context_secdata_changed, or_flags, or_status,
}

abbrev pub error_secdata_crc : ℕ
error_secdata_crc = 0x10040001

abbrev pub error_secdata_zero : ℕ
error_secdata_zero = 0x10040002

abbrev pub error_secdata_get_param : ℕ
error_secdata_get_param = 0x10040003

abbrev pub error_secdata_set_param : ℕ
error_secdata_set_param = 0x10040004

abbrev pub error_secdata_set_flags : ℕ
error_secdata_set_flags = 0x10040005

abbrev pub error_secdata_get_uninitialized : ℕ
error_secdata_get_uninitialized = 0x10040006

abbrev pub error_secdata_set_uninitialized : ℕ
error_secdata_set_uninitialized = 0x10040007

-- enum vb2_secdata_param; `other` is any further value of the C type.
pub data SecdataParam : Type 0 where
  flags versions : SecdataParam
  other : ℕ → SecdataParam

-- The bytes of the packed struct before `crc8`.
unfoldable pub secdata_bytes : Secdata → List ℕ
secdata_bytes s = s.struct_version ∷ s.flags ∷ le_bytes 4 s.fw_versions ++ s.reserved

-- vb2_crc8(sec, offsetof(struct vb2_secdata, crc8))
unfoldable pub secdata_crc : Secdata → ℕ
secdata_crc s = vb2_crc8 (secdata_bytes s) 9

unfoldable pub vb2_secdata_check_crc : Context → ℕ
vb2_secdata_check_crc ctx =
    if not (ctx.secdata.crc8 == secdata_crc ctx.secdata)
    then error_secdata_crc
    else if not (truthy ctx.secdata.struct_version)
    then error_secdata_zero
    else vb2_success

-- "Calculate / regenerate CRC", the changed flag and the successful return.
unfoldable pub store_secdata : Context → Secdata → Context × ℕ
store_secdata ctx s = (
  or_flags (record ctx { secdata = record s { crc8 = secdata_crc s } }) context_secdata_changed,
  vb2_success,
)

-- memset(sec, 0, sizeof(*sec)) and the version.
unfoldable pub vb2_secdata_create : Context → Context × ℕ
unfolding store_secdata
vb2_secdata_create ctx =
    store_secdata ctx (record {
      struct_version = 2;
      flags = 0;
      fw_versions = 0;
      reserved = replicate 3 0;
      crc8 = 0;
    })

unfoldable pub vb2_secdata_get : Context → SecdataParam → Result ℕ
vb2_secdata_get ctx flags =
    if not (has_flag ctx.sd.status status_secdata_init)
    then err error_secdata_get_uninitialized
    else ok ctx.secdata.flags
vb2_secdata_get ctx versions =
    if not (has_flag ctx.sd.status status_secdata_init)
    then err error_secdata_get_uninitialized
    else ok ctx.secdata.fw_versions
vb2_secdata_get ctx (other n) =
    if not (has_flag ctx.sd.status status_secdata_init)
    then err error_secdata_get_uninitialized
    else err error_secdata_get_param

-- vb2_secdata_get(ctx, param, &now) == VB2_SUCCESS && now == value
abbrev pub reads_as : Result ℕ → ℕ → Bool
reads_as (ok now) value = now == value
reads_as (err e) value = false

-- The end of vb2_secdata_init: what was read goes to the shared data.
read_version : Context → Result ℕ → Context × ℕ
read_version ctx (ok v) =
    (record ctx { sd = record ctx.sd { fw_version_secdata = v } }, vb2_success)
read_version ctx (err rv) = (ctx, rv)

unfoldable pub vb2_secdata_init : Context → Context × ℕ
unfolding read_version
vb2_secdata_init ctx =
    let rv = vb2_secdata_check_crc ctx in
    let started = or_status ctx status_secdata_init in
    if truthy rv then (ctx, rv) else read_version started (vb2_secdata_get started versions)

-- The switch of vb2_secdata_set.
set_param : Context → SecdataParam → ℕ → Context × ℕ
set_param ctx flags value =
    if ltb 0xff value
    then (ctx, error_secdata_set_flags)
    else store_secdata ctx (record ctx.secdata { flags = value })
set_param ctx versions value = store_secdata ctx (record ctx.secdata { fw_versions = value })
set_param ctx (other n) value = (ctx, error_secdata_set_param)

unfoldable pub vb2_secdata_set : Context → SecdataParam → ℕ → Context × ℕ
unfolding set_param store_secdata
vb2_secdata_set ctx param value =
    if not (has_flag ctx.sd.status status_secdata_init)
    then (ctx, error_secdata_set_uninitialized)
    else if reads_as (vb2_secdata_get ctx param) value
    then (ctx, vb2_success)
    else set_param ctx param value
