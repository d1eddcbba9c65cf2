-- ===== src/Gpt/Update.antt =====
-- cgptlib.c: GptUpdateKernelWithEntry and GptUpdateKernelEntry. The entry that is updated is one of
-- the primary table, named by its index; an index outside the buffer is an error here.
pub mod Laws
use cbmc_vboot.Prelude.{
  ℕ, ◌-◌, Bool, true, false, not, List, Option, none, some, ltb, ◌==◌, truthy, if◌then◌else◌,
  get_elem?, set,
}
use cbmc_vboot.Gpt.{GptEntry, GptData, gpt_success, error_invalid_update_type, is_kernel_entry}
use cbmc_vboot.Gpt.Attributes.{
  get_entry_successful, get_entry_tries, set_entry_successful, set_entry_priority, set_entry_tries,
}
use cbmc_vboot.Gpt.Sanity.{gpt_modified}

abbrev pub update_entry_try : ℕ
update_entry_try = 1

abbrev pub update_entry_bad : ℕ
update_entry_bad = 2

abbrev pub update_entry_reset : ℕ
update_entry_reset = 3

abbrev pub update_entry_invalid : ℕ
update_entry_invalid = 4

-- Lines 147-159: the entry after it, if it is modified.
give_up : GptEntry → Option GptEntry
give_up e =
    if truthy (get_entry_successful e)
    then none
    else some (set_entry_priority (set_entry_tries e 0) 0)

-- Lines 128-146.
use_up_try : GptEntry → Option GptEntry
unfolding give_up
use_up_try e =
    if truthy (get_entry_successful e)
    then none
    else if ltb 1 (get_entry_tries e)
    then some (set_entry_tries e (get_entry_tries e - 1))
    else give_up e

-- The switch: no result for an unknown type, and the entry if it is modified.
unfoldable pub update_entry : GptEntry → ℕ → Option (Option GptEntry)
unfolding give_up use_up_try
update_entry e update_type =
    if update_type == update_entry_try
    then some (use_up_try e)
    else if update_type == update_entry_bad
    then some (give_up e)
    else if update_type == update_entry_reset
    then some (some (set_entry_successful (set_entry_priority (set_entry_tries e 15) 1) 1))
    else if update_type == update_entry_invalid
    then some (some (set_entry_successful (set_entry_priority (set_entry_tries e 0) 0) 0))
    else none

-- Lines 186-190.
write_entry : GptData → ℕ → Option (Option GptEntry) → GptData × ℕ
write_entry gpt k none = (gpt, error_invalid_update_type)
write_entry gpt k (some none) = (gpt, gpt_success)
write_entry gpt k (some (some e)) =
    (gpt_modified (record gpt { primary_entries = set gpt.primary_entries k e }), gpt_success)

-- The entry at index `k`, and the current kernel, if there are such.
update_at : GptData → ℕ → Option GptEntry → ℕ → GptData × ℕ
unfolding update_entry write_entry
update_at gpt k none update_type = (gpt, error_invalid_update_type)
update_at gpt k (some e) update_type =
    if not (is_kernel_entry e)
    then (gpt, error_invalid_update_type)
    else write_entry gpt k (update_entry e update_type)

unfoldable pub gpt_update_kernel_with_entry : GptData → ℕ → ℕ → GptData × ℕ
unfolding update_at
gpt_update_kernel_with_entry gpt k update_type =
    update_at gpt k (get_elem? gpt.primary_entries k) update_type

update_current : GptData → Option ℕ → ℕ → GptData × ℕ
unfolding gpt_update_kernel_with_entry
update_current gpt none update_type = (gpt, error_invalid_update_type)
update_current gpt (some k) update_type = gpt_update_kernel_with_entry gpt k update_type

unfoldable pub gpt_update_kernel_entry : GptData → ℕ → GptData × ℕ
unfolding update_current
gpt_update_kernel_entry gpt update_type = update_current gpt gpt.current_kernel update_type
