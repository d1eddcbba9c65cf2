-- ===== src/Gpt.antt =====
-- The GUID partition table: the data of firmware/include/gpt.h and gpt_misc.h. The children model
-- firmware/lib/cgptlib/cgptlib_internal.c and cgptlib.c. Each header lies in a buffer of one
-- sector; `padding` is what follows the struct there. A GUID is its 16 bytes. The host is little
-- endian.
pub mod Header
pub mod Entries
pub mod Attributes
pub mod Sanity
pub mod Kernel
pub mod Update
pub mod Disk
use cbmc_vboot.Prelude.{
  ℕ, zero, suc, ◌+◌, ◌-◌, ◌*◌, ◌%◌, ◌^◌, Bool, true, false, ◌&&◌, List, [], ◌∷◌, ◌++◌, Option, ◌==◌,
  le_bytes, replicate,
}

pub record GptHeader : Type 0 where
  pub signature : List ℕ
  pub revision : ℕ
  pub size : ℕ
  pub header_crc32 : ℕ
  pub reserved_zero : ℕ
  pub my_lba : ℕ
  pub alternate_lba : ℕ
  pub first_usable_lba : ℕ
  pub last_usable_lba : ℕ
  pub disk_uuid : List ℕ
  pub entries_lba : ℕ
  pub number_of_entries : ℕ
  pub size_of_entry : ℕ
  pub entries_crc32 : ℕ
  pub padding : List ℕ

pub record GptEntry : Type 0 where
  pub type : List ℕ
  pub unique : List ℕ
  pub starting_lba : ℕ
  pub ending_lba : ℕ
  pub reserved : List ℕ
  pub gpt_att : ℕ
  pub name : List ℕ

-- `current_kernel` is `none` for CGPT_KERNEL_ENTRY_NOT_FOUND.
pub record GptData : Type 0 where
  pub primary_header : GptHeader
  pub secondary_header : GptHeader
  pub primary_entries : List GptEntry
  pub secondary_entries : List GptEntry
  pub sector_bytes : ℕ
  pub streaming_drive_sectors : ℕ
  pub gpt_drive_sectors : ℕ
  pub flags : ℕ
  pub modified : ℕ
  pub current_kernel : Option ℕ
  pub valid_headers : ℕ
  pub valid_entries : ℕ
  pub current_priority : ℕ

abbrev pub gpt_success : ℕ
gpt_success = 0

abbrev pub error_no_valid_kernel : ℕ
error_no_valid_kernel = 1

abbrev pub error_invalid_headers : ℕ
error_invalid_headers = 2

abbrev pub error_invalid_entries : ℕ
error_invalid_entries = 3

abbrev pub error_invalid_sector_size : ℕ
error_invalid_sector_size = 4

abbrev pub error_invalid_sector_number : ℕ
error_invalid_sector_number = 5

abbrev pub error_invalid_update_type : ℕ
error_invalid_update_type = 6

abbrev pub error_crc_corrupted : ℕ
error_crc_corrupted = 7

abbrev pub error_out_of_region : ℕ
error_out_of_region = 8

abbrev pub error_start_lba_overlap : ℕ
error_start_lba_overlap = 9

abbrev pub error_end_lba_overlap : ℕ
error_end_lba_overlap = 10

abbrev pub error_dup_guid : ℕ
error_dup_guid = 11

abbrev pub flag_external : ℕ
flag_external = 0x1

abbrev pub max_number_of_entries : ℕ
max_number_of_entries = 128

abbrev pub min_number_of_entries : ℕ
min_number_of_entries = 16

-- uint32_t a * b, and uint64_t a - b.
abbrev pub mul32 : ℕ → ℕ → ℕ
mul32 a b = a * b % 2 ^ 32

abbrev pub sub64 : ℕ → ℕ → ℕ
sub64 a b = (a + 2 ^ 64 - b) % 2 ^ 64

-- !Memcmp(a, b, n) on buffers of n bytes.
unfoldable pub same_bytes : List ℕ → List ℕ → Bool
same_bytes [] [] = true
same_bytes (a ∷ as') (b ∷ bs) = (a == b) && same_bytes as' bs
same_bytes _ _ = false

-- "EFI PART" and "CHROMEOS".
abbrev pub header_signature : List ℕ
header_signature = 0x45 ∷ 0x46 ∷ 0x49 ∷ 0x20 ∷ 0x50 ∷ 0x41 ∷ 0x52 ∷ 0x54 ∷ []

abbrev pub header_signature2 : List ℕ
header_signature2 = 0x43 ∷ 0x48 ∷ 0x52 ∷ 0x4f ∷ 0x4d ∷ 0x45 ∷ 0x4f ∷ 0x53 ∷ []

-- GPT_ENT_TYPE_CHROMEOS_KERNEL
abbrev pub chromeos_kernel : List ℕ
chromeos_kernel =
    0x5d ∷ 0x2a ∷ 0x3a ∷ 0xfe ∷ 0x32 ∷ 0x4f ∷ 0xa7 ∷ 0x41 ∷ 0xb7 ∷ 0x25 ∷ 0xac ∷ 0xcc ∷ 0x32 ∷ 0x85
    ∷ 0xa3 ∷ 0x09 ∷ []

unfoldable pub is_kernel_entry : GptEntry → Bool
unfolding same_bytes
is_kernel_entry e = same_bytes e.type chromeos_kernel

unfoldable pub is_unused_entry : GptEntry → Bool
unfolding same_bytes
is_unused_entry e = same_bytes (replicate 16 0) e.type

-- The sector that holds a header.
unfoldable pub header_bytes : GptHeader → List ℕ
header_bytes h =
    h.signature
    ++ le_bytes 4 h.revision
    ++ le_bytes 4 h.size
    ++ le_bytes 4 h.header_crc32
    ++ le_bytes 4 h.reserved_zero
    ++ le_bytes 8 h.my_lba
    ++ le_bytes 8 h.alternate_lba
    ++ le_bytes 8 h.first_usable_lba
    ++ le_bytes 8 h.last_usable_lba
    ++ h.disk_uuid
    ++ le_bytes 8 h.entries_lba
    ++ le_bytes 4 h.number_of_entries
    ++ le_bytes 4 h.size_of_entry
    ++ le_bytes 4 h.entries_crc32
    ++ h.padding

abbrev words : List ℕ → List ℕ
words [] = []
words (w ∷ ws) = le_bytes 2 w ++ words ws

unfoldable pub entry_bytes : GptEntry → List ℕ
entry_bytes e =
    e.type
    ++ e.unique
    ++ le_bytes 8 e.starting_lba
    ++ le_bytes 8 e.ending_lba
    ++ words e.reserved
    ++ le_bytes 2 e.gpt_att
    ++ words e.name

unfoldable pub entries_bytes : List GptEntry → List ℕ
unfolding entry_bytes
entries_bytes [] = []
entries_bytes (e ∷ es) = entry_bytes e ++ entries_bytes es
