-- ===== src/Keys.antt =====
-- The packed structs of firmware/2lib/include/2struct.h and lib20/include/vb2_struct.h in memory. A
-- memory gives the byte at each address; the host is little endian. The children model
-- lib20/packed_key.c and lib20/common.c.
pub mod Inside
pub mod Stores
pub mod Unpack
pub mod Verify
pub mod Block
pub mod Preamble
use cbmc_vboot.Prelude.{
  ℕ, zero, suc, ◌+◌, ◌-◌, ◌*◌, ◌%◌, ◌^◌, ◌&&◌, List, [], ◌∷◌, leb, ltb, get_or, length, le_bytes,
  if◌then◌else◌,
}

abbrev pub Memory : Type 0
Memory = ℕ → ℕ

-- A load of one byte, of a uint32_t and of `n` bytes.
abbrev pub load8 : Memory → ℕ → ℕ
load8 m a = m a % 2 ^ 8

abbrev pub load32 : Memory → ℕ → ℕ
load32 m a =
    load8 m a + load8 m (a + 1) * 2 ^ 8 + load8 m (a + 2) * 2 ^ 16 + load8 m (a + 3) * 2 ^ 24

abbrev pub load_bytes : ℕ → Memory → ℕ → List ℕ
load_bytes zero m a = []
load_bytes (suc n) m a = load8 m a ∷ load_bytes n m (a + 1)

-- A store of bytes from an address on.
abbrev pub store_bytes : Memory → ℕ → List ℕ → Memory
store_bytes m a bs = λ x. if leb a x && ltb (x - a) (length bs) then get_or bs (x - a) 0 else m x

abbrev pub store32 : Memory → ℕ → ℕ → Memory
store32 m a v = store_bytes m a (le_bytes 4 v)

-- struct vb2_packed_key
pub record PackedKey : Type 0 where
  pub key_offset : ℕ
  pub key_size : ℕ
  pub algorithm : ℕ
  pub key_version : ℕ

abbrev pub sizeof_packed_key : ℕ
sizeof_packed_key = 32

abbrev pub packed_key_at : Memory → ℕ → PackedKey
packed_key_at m a = record {
  key_offset = load32 m a;
  key_size = load32 m (a + 8);
  algorithm = load32 m (a + 16);
  key_version = load32 m (a + 24);
}

-- struct vb2_signature
pub record Signature : Type 0 where
  pub sig_offset : ℕ
  pub sig_size : ℕ
  pub data_size : ℕ

abbrev pub sizeof_signature : ℕ
sizeof_signature = 24

abbrev pub signature_at : Memory → ℕ → Signature
signature_at m a = record {
  sig_offset = load32 m a;
  sig_size = load32 m (a + 8);
  data_size = load32 m (a + 16);
}

-- struct vb2_keyblock: the two structs in it are at their addresses.
pub record Keyblock : Type 0 where
  pub magic : List ℕ
  pub header_version_major : ℕ
  pub keyblock_size : ℕ
  pub keyblock_signature : Signature
  pub keyblock_flags : ℕ
  pub data_key : PackedKey

abbrev pub sizeof_keyblock : ℕ
sizeof_keyblock = 112

abbrev pub offset_keyblock_signature : ℕ
offset_keyblock_signature = 24

abbrev pub offset_keyblock_hash : ℕ
offset_keyblock_hash = 48

abbrev pub offset_data_key : ℕ
offset_data_key = 80

abbrev pub keyblock_at : Memory → ℕ → Keyblock
keyblock_at m a = record {
  magic = load_bytes 8 m a;
  header_version_major = load32 m (a + 8);
  keyblock_size = load32 m (a + 16);
  keyblock_signature = signature_at m (a + offset_keyblock_signature);
  keyblock_flags = load32 m (a + 72);
  data_key = packed_key_at m (a + offset_data_key);
}

-- struct vb2_fw_preamble
pub record FwPreamble : Type 0 where
  pub preamble_size : ℕ
  pub preamble_signature : Signature
  pub header_version_major : ℕ
  pub header_version_minor : ℕ
  pub firmware_version : ℕ
  pub kernel_subkey : PackedKey
  pub body_signature : Signature
  pub flags : ℕ

abbrev pub sizeof_fw_preamble : ℕ
sizeof_fw_preamble = 108

abbrev pub offset_preamble_signature : ℕ
offset_preamble_signature = 8

abbrev pub offset_kernel_subkey : ℕ
offset_kernel_subkey = 48

abbrev pub offset_body_signature : ℕ
offset_body_signature = 80

abbrev pub fw_preamble_at : Memory → ℕ → FwPreamble
fw_preamble_at m a = record {
  preamble_size = load32 m a;
  preamble_signature = signature_at m (a + offset_preamble_signature);
  header_version_major = load32 m (a + 32);
  header_version_minor = load32 m (a + 36);
  firmware_version = load32 m (a + 40);
  kernel_subkey = packed_key_at m (a + offset_kernel_subkey);
  body_signature = signature_at m (a + offset_body_signature);
  flags = load32 m (a + 104);
}
