-- ===== src/Tests/OldStorage.antt =====
-- The same settings through the older code and through the newer one.
use cbmc_vboot.Prelude.{ℕ, ◌≡◌, refl, List, [], ◌∷◌, bit_and}
use cbmc_vboot.Context.{context_nvdata_changed}
use cbmc_vboot.Nvstorage.{vb2_nv_get, vb2_nv_init}
use cbmc_vboot.Nvstorage.Writes.{writes}
use cbmc_vboot.VbootNvstorage.{
  VbNvContext, VbNvParam, try_b_count, recovery_request, other, vb_nv_get, vb_nv_setup,
  vb_nv_teardown,
}
use cbmc_vboot.VbootNvstorage.Agrees.{
  new_param, map_param, vb_nv_sets, translate, vb_nv_sets-vb2_nv_set,
}
use cbmc_vboot.Tests.{sample, sample_nvdata}

abbrev old_sample : VbNvContext
old_sample = record { raw = sample_nvdata; raw_changed = 7; regenerate_crc = 9 }

-- One of the calls has no such parameter.
abbrev some_sets : List (VbNvParam × ℕ)
some_sets = (try_b_count, 3) ∷ (other 40, 1) ∷ (recovery_request, 0x142) ∷ []

vb_nv_sets-vb2_nv_set_example :
    let session = vb_nv_sets (vb_nv_setup old_sample) some_sets in
    let end = writes (vb2_nv_init sample) (translate some_sets) in
    ((vb_nv_teardown session).raw ≡ end.nvdata)
    × ((vb_nv_teardown session).raw_changed ≡ bit_and end.flags context_nvdata_changed)
    × (vb_nv_get session recovery_request ≡ map_param (vb2_nv_get end) (new_param recovery_request))
vb_nv_sets-vb2_nv_set_example =
    vb_nv_sets-vb2_nv_set old_sample sample some_sets recovery_request refl refl
