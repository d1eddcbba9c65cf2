-- ===== src/Gpt/Disk.antt =====
-- firmware/lib/gpt_misc.c: the partition table is read from the disk and written back. VbExDiskRead and
-- VbExDiskWrite are the interface `Disk`, over any type of disks; a header is the sector that holds it,
-- and entries are the sectors of their table.
use cbmc_vboot.Prelude.{
  ℕ, ◌+◌, ◌*◌, ◌%◌, ◌^◌, ◌/◌, Bool, true, false, not, ◌&&◌, ◌||◌, List, some, truthy, ◌==◌,
  if◌then◌else◌, has_flag, replicate, ◌-◌,
}
use cbmc_vboot.Gpt.{GptHeader, GptEntry, GptData, header_signature2, mul32, sub64, same_bytes}
use cbmc_vboot.Gpt.Header.{check_header}
use cbmc_vboot.Gpt.Sanity.{modified_header1, modified_header2, modified_entries1, modified_entries2}

-- A read gives what the buffer holds after it, and its code; `old` is what it held.
pub record Disk (D : Type 0) : Type 0 where
  pub read_header_sector : D → (lba : ℕ) → GptHeader × ℕ
  pub read_entry_sectors : D → (lba sectors : ℕ) → (old : List GptEntry) → List GptEntry × ℕ
  pub write_header_sector : D → (lba : ℕ) → GptHeader → D × ℕ
  pub write_entry_sectors : D → (lba sectors : ℕ) → List GptEntry → D × ℕ

-- Memset(header, 0, sector_bytes)
abbrev zero_header : (sector_bytes : ℕ) → GptHeader
zero_header sector_bytes = record {
  signature = replicate 8 0;
  revision = 0;
  size = 0;
  header_crc32 = 0;
  reserved_zero = 0;
  my_lba = 0;
  alternate_lba = 0;
  first_usable_lba = 0;
  last_usable_lba = 0;
  disk_uuid = replicate 16 0;
  entries_lba = 0;
  number_of_entries = 0;
  size_of_entry = 0;
  entries_crc32 = 0;
  padding = replicate (sector_bytes - 92) 0;
}

abbrev entries_sectors : GptData → GptHeader → ℕ
entries_sectors gpt h = mul32 h.number_of_entries h.size_of_entry / gpt.sector_bytes

module _ {D : Type 0} (disk : Disk D) (d : D) where
  -- One copy: its header, its entries, and whether both could be read.
  abbrev read_header_at : GptData → (lba : ℕ) → GptHeader
  read_header_at gpt lba =
      let (header, code) = disk.read_header_sector d lba in
      if truthy code then zero_header gpt.sector_bytes else header

  abbrev read_copy :
      (is_secondary : Bool) → GptData → GptHeader → (old : List GptEntry) → List GptEntry × Bool
  read_copy is_secondary gpt header old =
      let (entries, code) =
        disk.read_entry_sectors d header.entries_lba (entries_sectors gpt header) old in
      if check_header (some header) is_secondary gpt.streaming_drive_sectors gpt.gpt_drive_sectors
          gpt.flags
        == 0
      then (entries, not (truthy code))
      else (old, false)

  -- The entries of `gpt` are what the new buffers hold.
  unfoldable pub alloc_and_read_gpt_data : GptData → GptData × ℕ
  alloc_and_read_gpt_data gpt =
      let header1 = read_header_at gpt 1 in
      let (entries1, primary_valid) = read_copy false gpt header1 gpt.primary_entries in
      let header2 = read_header_at gpt (sub64 gpt.gpt_drive_sectors 1) in
      let (entries2, secondary_valid) = read_copy true gpt header2 gpt.secondary_entries in
      (
        record gpt {
          modified = 0;
          primary_header = header1;
          primary_entries = entries1;
          secondary_header = header2;
          secondary_entries = entries2;
        },
        if primary_valid || secondary_valid then 0 else 1,
      )

-- A write where the condition holds; `goto fail` returns 1.
abbrev or_fail : {D : Type 0} → (condition : Bool) → (D → D × ℕ) → D → (D → D × ℕ) → D × ℕ
or_fail condition write d rest =
    let (d', code) = write d in
    if condition then if truthy code then (d', 1) else rest d' else rest d

unfoldable pub write_and_free_gpt_data : {D : Type 0} → Disk D → D → GptData → D × ℕ
unfolding same_bytes
write_and_free_gpt_data disk d gpt =
    let sectors = entries_sectors gpt gpt.primary_header in
    let legacy = truthy gpt.modified && same_bytes gpt.primary_header.signature header_signature2 in
    or_fail (has_flag gpt.modified modified_header1 && not legacy)
      (λ d0. disk.write_header_sector d0 1 gpt.primary_header) d
      (λ d1.
        or_fail (has_flag gpt.modified modified_entries1 && not legacy)
          (λ d0.
            disk.write_entry_sectors d0 gpt.primary_header.entries_lba sectors gpt.primary_entries)
          d1
          (λ d2.
            or_fail (has_flag gpt.modified modified_header2)
              (λ d0.
                disk.write_header_sector d0 (sub64 gpt.gpt_drive_sectors 1) gpt.secondary_header)
              d2
              (λ d3.
                or_fail (has_flag gpt.modified modified_entries2)
                  (λ d0.
                    disk.write_entry_sectors d0 gpt.secondary_header.entries_lba sectors
                      gpt.secondary_entries)
                  d3 (λ d4. (d4, 0)))))

-- The size of a partition, in sectors and in bytes; size_t has 64 bits.
abbrev pub gpt_get_entry_size_lba : GptEntry → ℕ
gpt_get_entry_size_lba e = (sub64 e.ending_lba e.starting_lba + 1) % 2 ^ 64

abbrev pub gpt_get_entry_size_bytes : GptData → GptEntry → ℕ
gpt_get_entry_size_bytes gpt e = gpt_get_entry_size_lba e * gpt.sector_bytes % 2 ^ 64
