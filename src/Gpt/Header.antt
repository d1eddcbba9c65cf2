-- ===== src/Gpt/Header.antt =====
-- cgptlib_internal.c: CalculateEntriesSectors, CheckParameters, HeaderCrc, CheckHeader and
-- HeaderFieldsSame.
use cbmc_vboot.Prelude.{
  ℕ, ◌+◌, ◌-◌, ◌*◌, ◌/◌, ◌%◌, ◌^◌, Bool, not, ◌&&◌, ◌||◌, Option, none, some, ltb, ◌==◌, truthy,
  if◌then◌else◌, has_flag,
}
use cbmc_vboot.Crc32.{crc32}
use cbmc_vboot.Gpt.{
  GptHeader, GptData, gpt_success, error_invalid_sector_size, error_invalid_sector_number,
  flag_external, min_number_of_entries, max_number_of_entries, mul32, sub64, same_bytes,
  header_signature, header_signature2, header_bytes,
}

unfoldable pub calculate_entries_sectors : GptHeader → ℕ
calculate_entries_sectors h = (mul32 h.number_of_entries h.size_of_entry + 512 - 1) / 512

unfoldable pub check_parameters : GptData → ℕ
check_parameters gpt =
    if not (gpt.sector_bytes == 512)
    then error_invalid_sector_size
    else if (gpt.gpt_drive_sectors == 0)
        || (not (has_flag gpt.flags flag_external)
            && not (gpt.gpt_drive_sectors == gpt.streaming_drive_sectors))
    then error_invalid_sector_number
    else if ltb gpt.gpt_drive_sectors (1 + 2 * (1 + min_number_of_entries / (512 / 128)))
    then error_invalid_sector_number
    else gpt_success

-- The CRC is that of the header with the CRC field zero.
unfoldable pub header_crc : GptHeader → ℕ
header_crc h = crc32 (header_bytes (record h { header_crc32 = 0 })) h.size

-- The tests up to the checksum (lines 77-89).
unfoldable pub readable : GptHeader → Bool
readable h =
    (same_bytes h.signature header_signature || same_bytes h.signature header_signature2)
    && (h.revision == 0x0001_0000)
    && not (ltb h.size 92 || ltb 512 h.size)
    && (header_crc h == h.header_crc32)

-- Lines 91-107.
unfoldable pub well_sized : GptHeader → ℕ → Bool
well_sized h flags =
    not (truthy h.reserved_zero)
    && (h.size_of_entry == 128)
    && not (
        ltb h.number_of_entries min_number_of_entries
        || ltb max_number_of_entries h.number_of_entries
        || not (has_flag flags flag_external) && not (h.number_of_entries == max_number_of_entries))

-- Lines 114-124.
unfoldable pub well_placed : GptHeader → Bool → ℕ → Bool
well_placed h is_secondary gpt_drive_sectors =
    if is_secondary
    then (h.my_lba == sub64 gpt_drive_sectors 1)
      && (h.entries_lba == sub64 h.my_lba (calculate_entries_sectors h))
    else (h.my_lba == 1) && not (ltb h.entries_lba ((h.my_lba + 1) % 2 ^ 64))

-- Lines 126-150.
unfoldable pub usable : GptHeader → ℕ → ℕ → Bool
usable h streaming_drive_sectors flags =
    not (ltb h.last_usable_lba h.first_usable_lba)
    && (if has_flag flags flag_external
        then ltb h.last_usable_lba streaming_drive_sectors
        else not (ltb h.first_usable_lba (2 + calculate_entries_sectors h))
          && ltb h.last_usable_lba
              (sub64 (sub64 streaming_drive_sectors 1) (calculate_entries_sectors h)))

-- Zero if the header is valid; every failed test returns 1.
unfoldable pub check_header : Option GptHeader → Bool → ℕ → ℕ → ℕ → ℕ
check_header none is_secondary streaming_drive_sectors gpt_drive_sectors flags = 1
check_header (some h) is_secondary streaming_drive_sectors gpt_drive_sectors flags =
    if readable h
      && well_sized h flags
      && well_placed h is_secondary gpt_drive_sectors
      && usable h streaming_drive_sectors flags
    then 0
    else 1

-- Zero if the headers agree in all fields but the three addresses and the checksum.
unfoldable pub header_fields_same : GptHeader → GptHeader → ℕ
header_fields_same h1 h2 =
    if same_bytes h1.signature h2.signature
      && (h1.revision == h2.revision)
      && (h1.size == h2.size)
      && (h1.reserved_zero == h2.reserved_zero)
      && (h1.first_usable_lba == h2.first_usable_lba)
      && (h1.last_usable_lba == h2.last_usable_lba)
      && same_bytes h1.disk_uuid h2.disk_uuid
      && (h1.number_of_entries == h2.number_of_entries)
      && (h1.size_of_entry == h2.size_of_entry)
      && (h1.entries_crc32 == h2.entries_crc32)
    then 0
    else 1
