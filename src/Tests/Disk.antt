-- ===== src/Tests/Disk.antt =====
-- The laws of the partition table at concrete inputs.
use cbmc_vboot.Prelude.{ℕ, ◌≡◌, ◌≢◌, ◌⊎◌, ◌↔◌, refl, true, some, get_elem?}
use cbmc_vboot.Crc32.{crc32}
use cbmc_vboot.Gpt.{
  GptData, GptEntry, gpt_success, same_bytes, is_kernel_entry, is_unused_entry, header_bytes,
  entries_bytes,
}
use cbmc_vboot.Gpt.Header.{
  check_parameters, check_header, readable, header_crc, well_sized, well_placed, usable,
}
use cbmc_vboot.Gpt.Attributes.{
  get_entry_successful, get_entry_priority, stored_priority, get_entry_tries,
}
use cbmc_vboot.Gpt.Attributes.Laws.{attributes}
use cbmc_vboot.Gpt.Entries.{check_entries, entries_crc}
use cbmc_vboot.Gpt.Entries.Table.{IsTable, check_entries_iff}
use cbmc_vboot.Gpt.Sanity.{check_primary, check_secondary, gpt_init}
use cbmc_vboot.Gpt.Sanity.Repaired.{gpt_init_lem}
use cbmc_vboot.Gpt.Kernel.{gpt_next_kernel_entry, may_boot}
use cbmc_vboot.Gpt.Kernel.Sequence.{Outcome, gpt_next_kernel_entry_lem}
use cbmc_vboot.Gpt.Update.{update_entry_try, gpt_update_kernel_entry}
use cbmc_vboot.Gpt.Update.Laws.{after_try, gpt_update_kernel_entry-try}
use cbmc_vboot.Tests.{sample_gpt, sample_entries, sample_header, sample_kernel}

sample_starts : (gpt_init sample_gpt).1 ≡ gpt_success
unfolding gpt_init check_parameters check_primary check_secondary check_header readable same_bytes
    header_crc crc32 header_bytes well_sized well_placed usable check_entries entries_crc
    entries_bytes is_unused_entry
sample_starts = refl

gpt_init_lem_example :
    (check_primary (gpt_init sample_gpt).0 ≡ 0) × (check_secondary (gpt_init sample_gpt).0 ≡ 0)
gpt_init_lem_example = gpt_init_lem sample_gpt sample_starts

check_entries_iff_example :
    (check_entries (some sample_entries) sample_header ≡ gpt_success)
    ↔ IsTable sample_header sample_entries
check_entries_iff_example = check_entries_iff sample_entries sample_header

-- The board has no opinion on priorities.
abbrev no_override : GptEntry → ℕ
no_override e = 0

abbrev offered : GptData
offered = (gpt_next_kernel_entry no_override sample_gpt).0

-- The second kernel is offered after the first, which has the same priority.
second_offer : offered.current_kernel ≡ some 0
unfolding gpt_next_kernel_entry is_kernel_entry same_bytes stored_priority get_entry_successful
    get_entry_tries may_boot get_entry_priority
second_offer = refl

gpt_next_kernel_entry_lem_example :
    Outcome no_override offered
      (gpt_next_kernel_entry no_override offered).0
      (gpt_next_kernel_entry no_override offered).1
gpt_next_kernel_entry_lem_example = gpt_next_kernel_entry_lem no_override offered

abbrev booting : GptData
booting = record sample_gpt { current_kernel = some 1 }

abbrev kernel : GptEntry
kernel = sample_kernel 2 50 59

kernel_is : is_kernel_entry kernel ≡ true
unfolding is_kernel_entry same_bytes
kernel_is = refl

gpt_update_kernel_entry-try_example :
    let r = gpt_update_kernel_entry booting update_entry_try in
    (r.1 ≡ gpt_success)
    × ((get_entry_successful kernel ≢ 0) × (r.0 ≡ booting)
        ⊎ (get_entry_successful kernel ≡ 0)
          × ((e' : GptEntry) × (get_elem? r.0.primary_entries 1 ≡ some e')
              × (attributes e' ≡ after_try (attributes kernel))))
gpt_update_kernel_entry-try_example =
    gpt_update_kernel_entry-try booting 1 kernel refl refl kernel_is
