-- ===== src/Tests.antt =====
-- Concrete inputs: a context with valid storage, and a small disk with two kernels.
pub mod Storage
pub mod Slots
pub mod Disk
pub mod Firmware
pub mod Buffers
pub mod Kernel
pub mod Hashes
pub mod Signature
pub mod Rollback
pub mod OldStorage
use cbmc_vboot.Prelude.{ℕ, List, [], ◌∷◌, replicate, some, none}
use cbmc_vboot.Context.{Context, Secdata, Secdatak, SharedData}
use cbmc_vboot.Gpt.{GptHeader, GptEntry, GptData, chromeos_kernel, header_signature}

-- Two tries of slot A; settings bytes with their checksum.
abbrev pub sample_nvdata : List ℕ
sample_nvdata = 0x70 ∷ 0x02 ∷ 0 ∷ 0 ∷ 0 ∷ 0 ∷ 0 ∷ 0 ∷ 0 ∷ 0 ∷ 0 ∷ 0 ∷ 0 ∷ 0 ∷ 0 ∷ 0xed ∷ []

abbrev pub sample_secdata : Secdata
sample_secdata = record {
  struct_version = 2;
  flags = 0;
  fw_versions = 0x0001_0001;
  reserved = 0 ∷ 0 ∷ 0 ∷ [];
  crc8 = 0x4f;
}

abbrev pub sample_secdatak : Secdatak
sample_secdatak = record {
  struct_version = 2;
  uid = 0x4752574c;
  kernel_versions = 0;
  reserved = 0 ∷ 0 ∷ 0 ∷ [];
  crc8 = 0xe8;
}

-- All storage is initialised, and slot A was chosen.
abbrev pub sample_sd : SharedData
sample_sd = record {
  flags = 0;
  gbb_flags = 0;
  recovery_reason = 0;
  last_fw_slot = 0;
  last_fw_result = 0;
  fw_slot = 0;
  fw_version = 0;
  fw_version_secdata = 0;
  status = 0x1e;
  kernel_version = 0;
  kernel_version_secdatak = 0;
  gbb_rootkey_offset = 0;
  gbb_rootkey_size = 0;
  gbb_hwid_digest = [];
  vblock_preamble_offset = 0;
  workbuf_data_key_offset = 0;
  workbuf_data_key_size = 0;
  workbuf_preamble_offset = 0;
  workbuf_preamble_size = 0;
  workbuf_hash_offset = 0;
  workbuf_hash_size = 0;
  hash_tag = 0;
  hash_remaining_size = 0;
  workbuf_kernel_key_offset = 0;
  workbuf_kernel_key_size = 0;
}

abbrev pub sample : Context
sample = record {
  flags = 0;
  workbuf = 0x1000;
  workbuf_size = 0x4000;
  workbuf_used = 0x100;
  nvdata = sample_nvdata;
  secdata = sample_secdata;
  secdatak = sample_secdatak;
  sd = sample_sd;
}

-- A kernel of priority 2 with one try.
abbrev pub sample_kernel : ℕ → ℕ → ℕ → GptEntry
sample_kernel id first last = record {
  type = chromeos_kernel;
  unique = replicate 16 id;
  starting_lba = first;
  ending_lba = last;
  reserved = 0 ∷ 0 ∷ 0 ∷ [];
  gpt_att = 0x12;
  name = replicate 36 0;
}

abbrev pub unused : GptEntry
unused = record {
  type = replicate 16 0;
  unique = replicate 16 0;
  starting_lba = 0;
  ending_lba = 0;
  reserved = 0 ∷ 0 ∷ 0 ∷ [];
  gpt_att = 0;
  name = replicate 36 0;
}

abbrev pub sample_entries : List GptEntry
sample_entries = sample_kernel 1 40 49 ∷ sample_kernel 2 50 59 ∷ replicate 14 unused

abbrev pub sample_header : GptHeader
sample_header = record {
  signature = header_signature;
  revision = 0x0001_0000;
  size = 92;
  header_crc32 = 0xd548e29a;
  reserved_zero = 0;
  my_lba = 1;
  alternate_lba = 99;
  first_usable_lba = 34;
  last_usable_lba = 89;
  disk_uuid = 0 ∷ 1 ∷ 2 ∷ 3 ∷ 4 ∷ 5 ∷ 6 ∷ 7 ∷ 8 ∷ 9 ∷ 10 ∷ 11 ∷ 12 ∷ 13 ∷ 14 ∷ 15 ∷ [];
  entries_lba = 2;
  number_of_entries = 16;
  size_of_entry = 128;
  entries_crc32 = 0xbbc1abda;
  padding = replicate 420 0;
}

-- An external drive whose second table was wiped.
abbrev pub sample_gpt : GptData
sample_gpt = record {
  primary_header = sample_header;
  secondary_header = record sample_header { signature = replicate 8 0 };
  primary_entries = sample_entries;
  secondary_entries = replicate 16 unused;
  sector_bytes = 512;
  streaming_drive_sectors = 100;
  gpt_drive_sectors = 100;
  flags = 1;
  modified = 0;
  current_kernel = none;
  valid_headers = 0;
  valid_entries = 0;
  current_priority = 999;
}
