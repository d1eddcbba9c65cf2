-- ===== src/Gpt/Attributes.antt =====
-- cgptlib_internal.c: the attribute bits of an entry. `override` is VbExOverrideGptEntryPriority.
pub mod Laws
use cbmc_vboot.Prelude.{
  ℕ, zero, suc, ◌+◌, ◌-◌, ◌*◌, ◌/◌, ◌%◌, ◌^◌, ◌≤◌, ◌<◌, ◌≡◌, refl, sym, ap, ◌∙◌, bit_and, bit_or,
  Bool, true, false, ◌&&◌, ltb, truthy, if◌then◌else◌, arith, all_below, all_below_sound, ◌==◌,
  ==_iff,
}
use cbmc_vboot.Prelude.Bits.{
  and_assoc, and-zero, and-le, flag_self, flag_other, field_self, field_other,
}
use cbmc_vboot.Gpt.{GptEntry}

abbrev pub successful_mask : ℕ
successful_mask = 0x100

abbrev pub tries_mask : ℕ
tries_mask = 0xf0

abbrev pub priority_mask : ℕ
priority_mask = 0x0f

-- ~mask, in a uint16_t.
abbrev pub not16 : ℕ → ℕ
not16 mask = 0xffff - mask

unfoldable pub get_entry_successful : GptEntry → ℕ
get_entry_successful e = bit_and e.gpt_att successful_mask / 2 ^ 8

-- The priority in the attributes.
unfoldable pub stored_priority : GptEntry → ℕ
stored_priority e = bit_and e.gpt_att priority_mask / 2 ^ 0

unfoldable pub get_entry_priority : (GptEntry → ℕ) → GptEntry → ℕ
get_entry_priority override e =
    if ltb 0 (override e) && ltb (override e) 16 then override e else stored_priority e

unfoldable pub get_entry_tries : GptEntry → ℕ
get_entry_tries e = bit_and e.gpt_att tries_mask / 2 ^ 4

abbrev with_att : GptEntry → ℕ → GptEntry
with_att e att = record e { gpt_att = att }

unfoldable pub set_entry_successful : GptEntry → ℕ → GptEntry
set_entry_successful e successful =
    if truthy successful
    then with_att e (bit_or e.gpt_att successful_mask)
    else with_att e (bit_and e.gpt_att (not16 successful_mask))

unfoldable pub set_entry_priority : GptEntry → ℕ → GptEntry
set_entry_priority e priority =
    with_att e
      (bit_or (bit_and e.gpt_att (not16 priority_mask)) (bit_and (priority * 2 ^ 0) priority_mask))

unfoldable pub set_entry_tries : GptEntry → ℕ → GptEntry
set_entry_tries e tries =
    with_att e (bit_or (bit_and e.gpt_att (not16 tries_mask)) (bit_and (tries * 2 ^ 4) tries_mask))
