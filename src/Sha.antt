-- ===== src/Sha.antt =====
-- The hash functions: firmware/2lib/2sha256.c and 2sha512.c with the loops not unrolled, 2sha1.c in
-- its version for any byte order, and 2sha_utility.c. A context's arrays are lists; the digest is the
-- list of the bytes that are written.
pub mod Blocks
pub mod Constants
pub mod Rounds
pub mod Sha1
pub mod Digest
