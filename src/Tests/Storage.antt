-- ===== src/Tests/Storage.antt =====
-- The laws of the checksums, the settings and the secure storage at concrete inputs.
use cbmc_vboot.Prelude.{◌≡◌, ◌≢◌, ◌⊎◌, refl, [], ◌∷◌, arith, ok}
use cbmc_vboot.Crc8.{vb2_crc8}
use cbmc_vboot.Crc8.Errors.{vb2_crc8-change}
use cbmc_vboot.Context.{vb2_success}
use cbmc_vboot.Secdata.{
  flags, versions, secdata_bytes, secdata_crc, vb2_secdata_check_crc, vb2_secdata_get,
  vb2_secdata_set,
}
use cbmc_vboot.Secdata.Laws.{IsValid, vb2_secdata_set-IsValid, vb2_secdata_get-set}
use cbmc_vboot.Nvstorage.{try_count, vb2_nv_get, vb2_nv_set}
use cbmc_vboot.Nvstorage.Fields.{stored_value}
use cbmc_vboot.Nvstorage.Fields.Ranges.{IsNv}
use cbmc_vboot.Nvstorage.Laws.{vb2_nv_get-set}
use cbmc_vboot.Tests.{sample}

vb2_crc8-change_example : vb2_crc8 (1 ∷ 2 ∷ 3 ∷ []) 3 ≢ vb2_crc8 (1 ∷ 4 ∷ 3 ∷ []) 3
vb2_crc8-change_example =
    vb2_crc8-change (1 ∷ []) (3 ∷ []) 2 4 (omega arith, tt) (omega arith, tt) (omega arith)
      (omega arith) (omega arith)

sample-IsValid : IsValid sample
unfolding vb2_secdata_check_crc secdata_crc secdata_bytes vb2_crc8
sample-IsValid = refl

vb2_secdata_set-IsValid_example : IsValid (vb2_secdata_set sample versions 0x0001_0002).0
vb2_secdata_set-IsValid_example = vb2_secdata_set-IsValid sample versions 0x0001_0002 sample-IsValid

sample_sets : (vb2_secdata_set sample versions 0x0001_0002).1 ≡ vb2_success
unfolding vb2_secdata_set vb2_secdata_get
sample_sets = refl

vb2_secdata_get-set_example :
    let ctx' = (vb2_secdata_set sample versions 0x0001_0002).0 in
    (vb2_secdata_get ctx' versions ≡ ok 0x0001_0002)
    × ((flags ≡ versions) ⊎ (vb2_secdata_get ctx' flags ≡ vb2_secdata_get sample flags))
vb2_secdata_get-set_example = vb2_secdata_get-set sample versions flags 0x0001_0002 sample_sets

pub sample-IsNv : IsNv sample.nvdata
sample-IsNv = record { sized = refl; bytes = ground arith }

vb2_nv_get-set_example :
    vb2_nv_get (vb2_nv_set sample try_count 20) try_count ≡ stored_value try_count 20
vb2_nv_get-set_example = vb2_nv_get-set sample try_count try_count 20 sample-IsNv
