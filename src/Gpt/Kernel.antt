-- ===== src/Gpt/Kernel.antt =====
-- cgptlib.c: GptNextKernelEntry and GptFindNthEntry. `override` is VbExOverrideGptEntryPriority.
pub mod Order
pub mod Sequence
use cbmc_vboot.Prelude.{
  ℕ, zero, suc, ◌+◌, ◌-◌, ◌%◌, ◌^◌, Bool, true, false, not, ◌&&◌, ◌||◌, List, [], ◌∷◌, Option, none,
  some, ltb, leb, ◌==◌, truthy, if◌then◌else◌, take, drop, get_elem?, Result, ok, err,
}
use cbmc_vboot.Gpt.{
  GptHeader, GptEntry, GptData, error_no_valid_kernel, sub64, same_bytes, is_kernel_entry,
}
use cbmc_vboot.Gpt.Attributes.{get_entry_successful, get_entry_tries, get_entry_priority}

-- GetEntrySuccessful(e) || GetEntryTries(e)
unfoldable pub may_boot : GptEntry → Bool
may_boot e = truthy (get_entry_successful e) || truthy (get_entry_tries e)

-- The entries that the loops look at.
abbrev pub table : GptData → List GptEntry
table gpt = take gpt.primary_header.number_of_entries gpt.primary_entries

-- The sectors written through the pointers.
abbrev pub extent : GptEntry → ℕ × ℕ
extent e = (e.starting_lba, (sub64 e.ending_lba e.starting_lba + 1) % 2 ^ 64)

-- GptFindNthEntry: the n-th entry of a type.
find_nth : List GptEntry → List ℕ → ℕ → Option GptEntry
find_nth [] guid n = none
find_nth (e ∷ es) guid n =
    let here = find_nth es guid (n - 1) in
    let next = find_nth es guid n in
    if same_bytes e.type guid then (if n == 0 then some e else here) else next

unfoldable pub gpt_find_nth_entry : GptData → List ℕ → ℕ → Option GptEntry
unfolding find_nth
gpt_find_nth_entry gpt guid n = find_nth (table gpt) guid n

module _ (override : GptEntry → ℕ) where
  -- Lines 48-67, from index `i` on.
  pub find_same : ℕ → ℕ → List GptEntry → Option ℕ
  find_same priority i [] = none
  find_same priority i (e ∷ es) =
      let rest = find_same priority (i + 1) es in
      if not (is_kernel_entry e)
      then rest
      else if not (may_boot e)
      then rest
      else if get_entry_priority override e == priority
      then some i
      else rest

  -- Lines 74-93, from index `i` on, with new_kernel and new_prio.
  pub find_best : ℕ → Option ℕ → ℕ → ℕ → List GptEntry → Option ℕ × ℕ
  find_best limit new_kernel new_prio i [] = (new_kernel, new_prio)
  find_best limit new_kernel new_prio i (e ∷ es) =
      let current_prio = get_entry_priority override e in
      let skip = find_best limit new_kernel new_prio (i + 1) es in
      let take_it = find_best limit (some i) current_prio (i + 1) es in
      if not (is_kernel_entry e)
      then skip
      else if not (may_boot e)
      then skip
      else if leb limit current_prio
      then skip
      else if ltb new_prio current_prio
      then take_it
      else skip

  -- The entry that was chosen, and what is returned of it.
  found : GptData → Option ℕ → Result (ℕ × ℕ)
  found gpt none = err error_no_valid_kernel
  found gpt (some i) = elim (get_elem? (table gpt) i) [
    | some e ↦ ok (extent e)
    | none ↦ err error_no_valid_kernel
  ]

  -- Lines 70-112.
  next_lower : GptData → GptData × Result (ℕ × ℕ)
  unfolding found find_best
  next_lower gpt =
      let (new_kernel, new_prio) = find_best gpt.current_priority none 0 0 (table gpt) in
      (
        record gpt { current_kernel = new_kernel; current_priority = new_prio },
        found gpt new_kernel,
      )

  -- The entries that the first loop looks at, and what it finds.
  same_priority : GptData → Option ℕ → Option ℕ
  same_priority gpt none = none
  same_priority gpt (some k) = find_same gpt.current_priority (k + 1) (drop (k + 1) (table gpt))

  -- Lines 60-112: from what the first loop finds.
  step : GptData → Option ℕ → GptData × Result (ℕ × ℕ)
  unfolding next_lower found find_best
  step gpt none = next_lower gpt
  step gpt (some i) = (record gpt { current_kernel = some i }, found gpt (some i))

  unfoldable pub gpt_next_kernel_entry : GptData → GptData × Result (ℕ × ℕ)
  unfolding same_priority next_lower found find_same find_best step
  gpt_next_kernel_entry gpt = step gpt (same_priority gpt gpt.current_kernel)
