-- ===== src/Keys/Block/Accepted.antt =====
-- What lib20/common.c accepts as a keyblock: vb2_check_keyblock, and vb2_verify_keyblock for the
-- signature.
use cbmc_vboot.Prelude.{ℕ, ◌+◌, ◌^◌, ◌≤◌, ◌<◌, ◌≡◌, ◌↔◌, true, arith}
use cbmc_vboot.Context.{vb2_success}
use cbmc_vboot.Gpt.{same_bytes}
use cbmc_vboot.Keys.{
  Memory, keyblock_at, sizeof_keyblock, offset_keyblock_signature, offset_data_key,
}
use cbmc_vboot.Keys.Inside.Members.{
  load32-lt, KeyInside, SignatureInside, KeyInside-iff, SignatureInside-iff, KeyInside-larger,
}
use cbmc_vboot.Keys.Block.{
  key_block_magic, key_block_header_version_major, check_members, vb2_check_keyblock,
  vb2_verify_keyblock,
}
use cbmc_vboot.Common.{Workbuf}
use cbmc_vboot.Common.Bounds.{IsRoom}
use cbmc_vboot.Keys.Unpack.{PublicKey}
use cbmc_vboot.Keys.Verify.{Crypto}
use cbmc_vboot.Keys.Verify.Signed.{IsSigned, vb2_verify_data_iff}

-- A keyblock of at least the struct's size whose signature and data key lie in it, the data key in
-- the part that is signed.
pub record IsBlock (m : Memory) (block size : ℕ) : Type 0 where
  pub room : sizeof_keyblock ≤ size
  pub chromeos : same_bytes (keyblock_at m block).magic key_block_magic ≡ true
  pub version : (keyblock_at m block).header_version_major ≡ key_block_header_version_major
  pub fits : (keyblock_at m block).keyblock_size ≤ size
  pub covered :
      (keyblock_at m block).keyblock_signature.data_size ≤ (keyblock_at m block).keyblock_size
  pub covers : sizeof_keyblock ≤ (keyblock_at m block).keyblock_signature.data_size
  pub signature :
      SignatureInside m block
        (keyblock_at m block).keyblock_size
        (block + offset_keyblock_signature)
  pub signed_key :
      KeyInside m block (keyblock_at m block).keyblock_signature.data_size (block + offset_data_key)

-- vb2_check_keyblock succeeds, on a buffer in the address space, exactly for a keyblock: the buffer
-- has room for the struct and for keyblock_size bytes, magic and major version are the known ones,
-- the signature lies in the block, at least the struct is signed and at most the block, and the
-- data key lies in the signed part.
pub vb2_check_keyblock_iff :
    (m : Memory) (block size : ℕ)
    → block + size < 2 ^ 64
    → (vb2_check_keyblock m block size (block + offset_keyblock_signature) ≡ vb2_success)
      ↔ IsBlock m block size
unfolding vb2_check_keyblock check_members
vb2_check_keyblock_iff m block size b = (sound, complete)
  where
    sound :
        vb2_check_keyblock m block size (block + offset_keyblock_signature) ≡ vb2_success
        → IsBlock m block size
    sound h = record {
      room = ground arith;
      chromeos = ground arith;
      version = ground arith;
      fits = ground arith;
      covered = ground arith;
      covers = ground arith;
      signature =
          (SignatureInside-iff m block (keyblock_at m block).keyblock_size
              (block + offset_keyblock_signature) (omega arith)
              (omega (arith, load32-lt m (block + 16))) (ground arith)).0
            (ground arith);
      signed_key =
          (KeyInside-iff m block (keyblock_at m block).keyblock_signature.data_size
              (block + offset_data_key) (omega arith)
              (omega (arith, load32-lt m (block + offset_keyblock_signature + 16)))
              (ground arith)).0
            (ground arith);
    }

    complete :
        IsBlock m block size
        → vb2_check_keyblock m block size (block + offset_keyblock_signature) ≡ vb2_success
    complete i =
        let signed =
          (SignatureInside-iff m block (keyblock_at m block).keyblock_size
              (block + offset_keyblock_signature) (omega arith)
              (omega (arith, load32-lt m (block + 16))) (omega (arith, i.room))).1
            i.signature in
        let small =
          (KeyInside-iff m block (keyblock_at m block).keyblock_signature.data_size
              (block + offset_data_key) (omega arith)
              (omega (arith, load32-lt m (block + offset_keyblock_signature + 16)))
              (omega (arith, i.room))).1
            i.signed_key in
        let large =
          (KeyInside-iff m block (keyblock_at m block).keyblock_size (block + offset_data_key)
              (omega arith) (omega (arith, load32-lt m (block + 16))) (omega (arith, i.room))).1
            (KeyInside-larger m block (keyblock_at m block).keyblock_signature.data_size
              (keyblock_at m block).keyblock_size (block + offset_data_key) i.covered
              (omega (arith, i.fits)) i.signed_key) in
        ground
          (arith, signed, small, large, i.room, i.chromeos, i.version, i.fits, i.covered, i.covers)

-- vb2_verify_keyblock succeeds, on a buffer in the address space and with a work buffer of that
-- form, exactly for a keyblock whose signature is one of its data under the key.
pub vb2_verify_keyblock_iff :
    {Digest : Type 0} (crypto : Crypto Digest) (m : Memory) (block size : ℕ) (key : PublicKey)
    (wb : Workbuf)
    → block + size < 2 ^ 64
    → IsRoom wb
    → ((vb2_verify_keyblock crypto m block size key wb).1 ≡ vb2_success)
      ↔ IsBlock m block size
        × IsSigned crypto m block size (block + offset_keyblock_signature) key wb
unfolding vb2_verify_keyblock
vb2_verify_keyblock_iff crypto m block size key wb b r =
    let (checked, block_of) = vb2_check_keyblock_iff m block size b in
    let (signed, data_of) =
      vb2_verify_data_iff crypto m block size (block + offset_keyblock_signature) key wb r in
    (
      λ h. (checked (ground arith), signed (ground arith)),
      λ (i, s). ground (arith, block_of i, data_of s),
    )
