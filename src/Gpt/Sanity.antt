-- ===== src/Gpt/Sanity.antt =====
-- cgptlib_internal.c: GptSanityCheck, GptRepair and GptModified; cgptlib.c: GptInit. The headers
-- and the entries are there: the pointers are not NULL. GptRepair copies whole entries, as its
-- headers have entries of 128 bytes, and the struct of a header but not what follows it in its
-- sector.
pub mod Repaired
use cbmc_vboot.Prelude.{
  ℕ, ◌+◌, ◌-◌, ◌/◌, ◌%◌, ◌^◌, Bool, true, false, not, ◌&&◌, ◌||◌, List, ◌++◌, none, some, ◌==◌,
  truthy, if◌then◌else◌, bit_and, bit_or, has_flag, take, drop,
}
use cbmc_vboot.Gpt.{
  GptHeader, GptEntry, GptData, gpt_success, error_invalid_headers, error_invalid_entries, mul32,
  sub64,
}
use cbmc_vboot.Gpt.Header.{
  calculate_entries_sectors, check_parameters, header_crc, check_header, header_fields_same,
}
use cbmc_vboot.Gpt.Entries.{entries_crc, check_entries}

abbrev pub mask_primary : ℕ
mask_primary = 1

abbrev pub mask_secondary : ℕ
mask_secondary = 2

abbrev pub mask_both : ℕ
mask_both = 3

abbrev pub modified_header1 : ℕ
modified_header1 = 0x1

abbrev pub modified_header2 : ℕ
modified_header2 = 0x2

abbrev pub modified_entries1 : ℕ
modified_entries1 = 0x4

abbrev pub modified_entries2 : ℕ
modified_entries2 = 0x8

-- CheckHeader on each copy, and the mask of those that are valid.
unfoldable pub check_primary : GptData → ℕ
check_primary gpt =
    check_header (some gpt.primary_header) false gpt.streaming_drive_sectors gpt.gpt_drive_sectors
      gpt.flags

unfoldable pub check_secondary : GptData → ℕ
check_secondary gpt =
    check_header (some gpt.secondary_header) true gpt.streaming_drive_sectors gpt.gpt_drive_sectors
      gpt.flags

masks : ℕ → ℕ → ℕ
masks primary secondary =
    (if primary == 0 then mask_primary else 0) + (if secondary == 0 then mask_secondary else 0)

headers_mask : GptData → ℕ
unfolding masks
headers_mask gpt = masks (check_primary gpt) (check_secondary gpt)

-- CheckEntries on each copy with one header.
entries_mask : GptData → GptHeader → ℕ
unfolding masks
entries_mask gpt h =
    masks (check_entries (some gpt.primary_entries) h)
      (check_entries (some gpt.secondary_entries) h)

-- Lines 301-312.
compare_headers : GptData → ℕ → ℕ → GptData × ℕ
compare_headers gpt headers entries =
    if entries == 0
    then (record gpt { valid_headers = headers; valid_entries = entries }, error_invalid_entries)
    else if (headers == mask_both)
        && truthy (header_fields_same gpt.primary_header gpt.secondary_header)
    then (record gpt { valid_headers = mask_primary; valid_entries = entries }, gpt_success)
    else (record gpt { valid_headers = headers; valid_entries = entries }, gpt_success)

-- Lines 269-312, with the mask of the valid headers.
check_tables : GptData → ℕ → GptData × ℕ
unfolding entries_mask compare_headers
check_tables gpt headers =
    let good = if has_flag headers mask_primary then gpt.primary_header else gpt.secondary_header in
    let entries = entries_mask gpt good in
    let entries2 = entries_mask gpt gpt.secondary_header in
    if (headers == mask_both) && (entries == 0)
    then compare_headers gpt (if entries2 == 0 then headers else mask_secondary) entries2
    else compare_headers gpt headers entries

unfoldable pub gpt_sanity_check : GptData → GptData × ℕ
unfolding headers_mask check_tables
gpt_sanity_check gpt =
    let reset = record gpt { valid_headers = 0; valid_entries = 0 } in
    let code = check_parameters reset in
    let headers = headers_mask reset in
    if truthy code
    then (reset, code)
    else if headers == 0
    then (reset, error_invalid_headers)
    else check_tables reset headers

-- The header with its checksum made new.
unfoldable pub sealed : GptHeader → GptHeader
sealed h = record h { header_crc32 = header_crc h }

-- Lines 327-347.
unfoldable pub repair_headers : GptData → GptData
unfolding sealed
repair_headers gpt =
    let my_lba = sub64 gpt.gpt_drive_sectors 1 in
    if gpt.valid_headers == mask_primary
    then record gpt {
      secondary_header = sealed (record gpt.primary_header {
        my_lba = my_lba;
        alternate_lba = 1;
        entries_lba = sub64 my_lba (calculate_entries_sectors gpt.primary_header);
        padding = gpt.secondary_header.padding;
      });
      modified = bit_or gpt.modified modified_header2;
    }
    else if gpt.valid_headers == mask_secondary
    then record gpt {
      primary_header = sealed (record gpt.secondary_header {
        my_lba = 1;
        alternate_lba = sub64 gpt.streaming_drive_sectors 1;
        entries_lba = 2;
        padding = gpt.primary_header.padding;
      });
      modified = bit_or gpt.modified modified_header1;
    }
    else gpt

-- Memcpy of `size` bytes from one table to another.
copy_entries : ℕ → List GptEntry → List GptEntry → List GptEntry
copy_entries size from to = take (size / 128) from ++ drop (size / 128) to

-- Lines 350-362.
repair_entries : GptData → GptData
unfolding copy_entries
repair_entries gpt =
    let size = mul32 gpt.primary_header.size_of_entry gpt.primary_header.number_of_entries in
    if gpt.valid_entries == mask_primary
    then record gpt {
      secondary_entries = copy_entries size gpt.primary_entries gpt.secondary_entries;
      modified = bit_or gpt.modified modified_entries2;
      valid_entries = mask_both;
    }
    else if gpt.valid_entries == mask_secondary
    then record gpt {
      primary_entries = copy_entries size gpt.secondary_entries gpt.primary_entries;
      modified = bit_or gpt.modified modified_entries1;
      valid_entries = mask_both;
    }
    else record gpt { valid_entries = mask_both }

unfoldable pub gpt_repair : GptData → GptData
unfolding repair_headers repair_entries
gpt_repair gpt =
    if (gpt.valid_headers == 0) || (gpt.valid_entries == 0)
    then gpt
    else repair_entries (record (repair_headers gpt) { valid_headers = mask_both })

unfoldable pub gpt_init : GptData → GptData × ℕ
unfolding gpt_sanity_check gpt_repair
gpt_init gpt =
    let checked =
      gpt_sanity_check
        (record gpt { modified = 0; current_kernel = none; current_priority = 999 }) in
    if truthy checked.1 then checked else (gpt_repair checked.0, gpt_success)

unfoldable pub gpt_modified : GptData → GptData
unfolding sealed gpt_repair
gpt_modified gpt =
    let header = record gpt.primary_header {
      entries_crc32 = entries_crc gpt.primary_entries gpt.primary_header;
    } in
    gpt_repair (record gpt {
      primary_header = sealed header;
      modified = bit_or gpt.modified (bit_or modified_header1 modified_entries1);
      valid_headers = mask_primary;
      valid_entries = mask_primary;
    })
