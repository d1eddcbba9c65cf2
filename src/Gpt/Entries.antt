-- ===== src/Gpt/Entries.antt =====
-- cgptlib_internal.c: CheckEntries. The buffer holds `number_of_entries` entries at least.
pub mod Table
use cbmc_vboot.Prelude.{
  ℕ, suc, ◌+◌, Bool, true, false, not, ◌&&◌, ◌||◌, List, [], ◌∷◌, Option, none, some, ltb, leb,
  ◌==◌, truthy, if◌then◌else◌, take,
}
use cbmc_vboot.Crc32.{crc32}
use cbmc_vboot.Gpt.{
  GptHeader, GptEntry, gpt_success, error_invalid_entries, error_crc_corrupted, error_out_of_region,
  error_start_lba_overlap, error_end_lba_overlap, error_dup_guid, mul32, same_bytes,
  is_unused_entry, entries_bytes,
}

-- Lines 193-203: two entries in use, at different indices.
check_pair : GptEntry → GptEntry → ℕ
check_pair e e2 =
    if leb e2.starting_lba e.starting_lba && leb e.starting_lba e2.ending_lba
    then error_start_lba_overlap
    else if leb e2.starting_lba e.ending_lba && leb e.ending_lba e2.ending_lba
    then error_end_lba_overlap
    else if same_bytes e.unique e2.unique
    then error_dup_guid
    else gpt_success

-- The inner loop, from index `i2` on.
check_others : GptEntry → ℕ → ℕ → List GptEntry → ℕ
check_others e i i2 [] = gpt_success
check_others e i i2 (e2 ∷ rest) =
    let next = check_others e i (i2 + 1) rest in
    let code = check_pair e e2 in
    if (i2 == i) || is_unused_entry e2 then next else if truthy code then code else next

-- Lines 182-185.
out_of_region : GptHeader → GptEntry → Bool
out_of_region h e =
    ltb e.starting_lba h.first_usable_lba
    || ltb h.last_usable_lba e.ending_lba
    || ltb e.ending_lba e.starting_lba

-- The outer loop, from index `i` on.
check_from : GptHeader → List GptEntry → ℕ → List GptEntry → ℕ
check_from h all i [] = gpt_success
check_from h all i (e ∷ rest) =
    let next = check_from h all (i + 1) rest in
    let code = check_others e i 0 all in
    if is_unused_entry e
    then next
    else if out_of_region h e
    then error_out_of_region
    else if truthy code
    then code
    else next

unfoldable pub entries_crc : List GptEntry → GptHeader → ℕ
entries_crc entries h = crc32 (entries_bytes entries) (mul32 h.size_of_entry h.number_of_entries)

unfoldable pub check_entries : Option (List GptEntry) → GptHeader → ℕ
unfolding check_from check_others check_pair out_of_region
check_entries none h = error_invalid_entries
check_entries (some entries) h =
    if not (entries_crc entries h == h.entries_crc32)
    then error_crc_corrupted
    else check_from h (take h.number_of_entries entries) 0 (take h.number_of_entries entries)
