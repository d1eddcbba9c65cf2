-- ===== src/Lib.antt =====
-- A verification library for the core of verified boot: the parts of
-- _vboot_reference/firmware that decide, from bytes which survive a power cycle or which an attacker may
-- write, what the machine boots. Paths below are relative to that directory.
--
-- The parts and how they interact. The firmware keeps settings in 16 bytes of storage (2nvstorage.c)
-- and two small structs in the TPM (2secdata.c, 2secdatak.c); each carries a checksum (2crc8.c). At
-- boot, vb2_check_recovery reads and clears the recovery request, vb2_check_dev_switch settles the mode,
-- and vb2_select_fw_slot chooses one of two firmware slots by tries that it counts down in the settings;
-- vb2_fail is called when a boot fails, and writes the settings that the next boot reads (all 2misc.c).
-- The three phases of 2lib/2api.c and lib20/api.c call these, and load the firmware's headers: phase 1
-- reads the GBB, which holds the root key; phase 3 reads the keyblock, signed with the root key, and the
-- preamble, signed with the keyblock's data key (lib20/misc.c, lib20/common.c, lib20/packed_key.c), into
-- a work buffer (2common.c); then the body is hashed piece by piece (2sha_utility.c, 2sha1.c, 2sha256.c,
-- 2sha512.c) and compared with its signature (2rsa.c). lib20/api_kernel.c and lib20/kernel.c do the same
-- for a kernel: the kernel subkey of the firmware's preamble, or the recovery key of the GBB, verifies
-- the kernel's keyblock, its data key the kernel's preamble and body, and phase 3 raises the version in
-- the TPM. GptInit checks and repairs the two copies of the disk's partition table,
-- GptNextKernelEntry offers the kernels in order of priority, and GptUpdateKernelEntry counts down a
-- kernel's tries (lib/cgptlib, with crc32.c).
--
-- The older library in lib/ works on the same storage. vboot_nvstorage.c reads and sets the 16 bytes,
-- and vboot_nvstorage_rollback.c keeps some of them in a third space of the TPM. rollback_index.c owns the
-- two structs in the TPM: SetupTPM reads the firmware's at boot, clears the TPM's owner when the mode
-- changed, and defines the spaces of a new TPM; other functions read, write and lock the versions.
--
-- Which file models which part:
--   Context            the context, shared data, secure structs, flags and codes (2lib/include)
--   Crc8, Crc32        vb2_crc8 and Crc32; bytes are a list of numbers below 256
--   Secdata, Secdatak  the two secure structs: check, create, init, get and set
--   Nvstorage          the 16 bytes; read_param and write_param are the switches of vb2_nv_get and
--                      vb2_nv_set; Layout and Fields restate them as a table of masks for the proofs
--   Boot               vb2_fail, vb2_check_recovery, vb2_select_fw_slot; Boot/Slot.antt has the abstract
--                      choice `select` on a record of six settings
--   DevSwitch          vb2_check_dev_switch and vb2_check_tpm_clear
--   Gpt                the data; Header, Entries, Attributes, Sanity (GptSanityCheck, GptRepair, GptInit,
--                      GptModified), Kernel (GptNextKernelEntry), Update (GptUpdateKernelEntry), Disk
--                      (lib/gpt_misc.c, which reads and writes the copies)
--   Common             2common.c: the work buffer, alignment and the comparison of buffers
--   Keys               the structs of vb2_struct.h in memory; Inside, Unpack, Verify, Block and Preamble
--                      are the checks of common.c and packed_key.c; Stores says what is loaded after
--                      stores, and what a copy of a packed key is
--   Firmware           the machine (memory and context), vb2_init_context; Gbb, Keyblock and Preamble
--                      load and check; Phases has vb2api_fw_phase1 to 3, Hash the hashing of the body,
--                      Pcr the digest for the TPM. A function of C with many early returns is a chain of
--                      functions here, one from each point where the code may return
--   Kernel             lib20/kernel.c (Keyblock, Preamble) and lib20/api_kernel.c (Phases, Data)
--   VbootNvstorage     lib/vboot_nvstorage.c, the older code for the 16 bytes, with lib/crc8.c in
--                      Crc8/Vboot.antt; Backup has lib/vboot_nvstorage_rollback.c
--   RollbackIndex      lib/rollback_index.c: reads and writes of the two spaces; Setup has SetupTPM and
--                      the functions that boot calls, Settled what SetupTPM leaves
--   Rsa                2rsa.c; Value gives the number that an array of words stands for, Power the
--                      power modulo a key, Genuine what an accepted signature is
--   Sha                Blocks has what 2sha256.c and 2sha512.c share, the collecting of a message in
--                      blocks; Rounds the words and rounds of both; Sha1 2sha1.c, Digest 2sha_utility.c
--   Trust              lib20/common.c with the hash functions and RSA of 2lib in place of `Crypto`
--   Codes              the return codes of these parts
--   Prelude            shared names, Boolean tests, lists, bits and results
--   Tests              concrete inputs, at which each result is applied
--
-- How state is modelled. A function that writes through ctx takes a Context and returns the new one,
-- paired with its code where it returns one. The shared data, which the C code finds in the work buffer,
-- is a field of the Context. Machine numbers are natural numbers with the wrap-around written out where
-- the code can wrap. A pointer to a partition entry is its index in the primary table; a partition
-- header comes with the rest of its sector, and the host is little endian. A loop is a recursion over
-- the list that it walks or on its count. Only the loop of vb2_sha1_finalize that appends zero bytes takes
-- fuel, 63: a byte is appended until 56 of a block of 64 are in use, and the count of the bytes goes up by
-- one each time, modulo 2^32, which 64 divides. Of the hash functions, the versions are modelled that
-- 2sha256.c and 2sha512.c have for loops that are not unrolled, and 2sha1.c for any byte order.
--
-- Code outside: vb2ex_tpm_clear_owner is the parameter `clear_owner`, any function of the context and
-- the TPM's state; VbExOverrideGptEntryPriority is the parameter `override`; vb2ex_read_resource is
-- `read`, the bytes that it writes and its code; VbExDiskRead and VbExDiskWrite are the record
-- `Disk`; the hardware's digest engine is a record of three functions. Nothing is assumed of any of
-- them. The TPM commands of lib/tpm_lite/tlcl.c are the record `Tlcl` over any type of states; IsTpm
-- of RollbackIndex/Spaces.antt says what is relied on of a TPM, that a space keeps the bytes last
-- written to it and that a cleared owner stays cleared. A read of a space is tried three times and a
-- write three times, as in the code. The hash functions and RSA are the record `Crypto`, any
-- functions, in the modules on keys and loading; Rsa and Sha model them by themselves, and
-- vboot_crypto of Trust.antt is the record with the models, so that what is shown of any `Crypto`
-- holds of them. Only where the place of the data key matters, in phase 3, is something relied on:
-- KeepsBelow of Keys/Verify/Below.antt, that the RSA function changes nothing in front of the
-- signature and of its work buffer. IsPlaced of Firmware/Placed.antt is what is relied on of the
-- caller's work buffer there.
--
-- The memory is a function from addresses to bytes. The structs that live in the work buffer are read
-- from it at their addresses, little endian and packed; the shared data and a hash context, which C also
-- keeps there, are separate values, so that no write through another pointer changes them.
--
-- Not modelled: the second struct format (lib21), the TPM commands (lib/tpm_lite), the user interface
-- and the older kernel loading (lib/vboot_kernel.c), and outside firmware/ the host tools and the
-- model checking harnesses. The hardware, debug output and the text of error messages are left out.
pub mod Prelude
pub mod Crc8
pub mod Codes
pub mod Common
pub mod Context
pub mod Secdata
pub mod Secdatak
pub mod Keys
pub mod Firmware
pub mod Kernel
pub mod Rsa
pub mod Sha
pub mod Trust
pub mod Nvstorage
pub mod VbootNvstorage
pub mod RollbackIndex
pub mod Boot
pub mod DevSwitch
pub mod Crc32
pub mod Gpt
pub mod Tests
