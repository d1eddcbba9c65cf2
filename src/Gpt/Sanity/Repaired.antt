-- ===== src/Gpt/Sanity/Repaired.antt =====
-- What GptInit leaves: both headers pass CheckHeader.
use cbmc_vboot.Prelude.{
  ℕ, Bool, List, ◌≡◌, ◌<◌, ◌≤◌, ◌&&◌, ◌||◌, has_flag, if◌then◌else◌, ◌≢◌, inl, inr, true, false,
  arith, Bool-cases, ◌==◌, none, some, truthy,
}
use cbmc_vboot.Gpt.{GptHeader, GptData, gpt_success, sub64}
use cbmc_vboot.Gpt.Header.{
  check_header, readable, well_sized, well_placed, usable, header_crc, calculate_entries_sectors,
  check_parameters,
}
use cbmc_vboot.Gpt.Sanity.{
  mask_primary, mask_secondary, mask_both, check_primary, check_secondary, headers_mask,
  entries_mask, compare_headers, check_tables, gpt_sanity_check, repair_headers, repair_entries,
  gpt_repair, gpt_init, sealed,
}

-- A valid header is valid in the place of the secondary one, and in that of the primary one.
sealed_secondary :
    (h : GptHeader) (is_secondary : Bool) (padding : List ℕ) (streaming drive flags : ℕ)
    → check_header (some h) is_secondary streaming drive flags ≡ 0
    → check_header
        (some (
          sealed (record h {
            my_lba = sub64 drive 1;
            alternate_lba = 1;
            entries_lba = sub64 (sub64 drive 1) (calculate_entries_sectors h);
            padding = padding;
          })))
        true
        streaming
        drive
        flags
      ≡ 0
unfolding check_header sealed readable well_sized well_placed usable calculate_entries_sectors
    header_crc
sealed_secondary h is_secondary padding streaming drive flags e = ground arith

sealed_primary :
    (h : GptHeader) (is_secondary : Bool) (padding : List ℕ) (alternate streaming drive flags : ℕ)
    → check_header (some h) is_secondary streaming drive flags ≡ 0
    → check_header
        (some (
          sealed (record h {
            my_lba = 1;
            alternate_lba = alternate;
            entries_lba = 2;
            padding = padding;
          })))
        false
        streaming
        drive
        flags
      ≡ 0
unfolding check_header sealed readable well_sized well_placed usable calculate_entries_sectors
    header_crc
sealed_primary h is_secondary padding alternate streaming drive flags e = ground arith

-- The headers that are marked valid are valid, one is, and some entries are.
record Judged (gpt : GptData) : Type 0 where
  primary : gpt.valid_headers ≢ mask_secondary → check_primary gpt ≡ 0
  secondary : gpt.valid_headers ≢ mask_primary → check_secondary gpt ≡ 0
  headers : 0 < gpt.valid_headers
  mask : gpt.valid_headers ≤ mask_both
  entries : 0 < gpt.valid_entries

compare_headers-Judged :
    (gpt : GptData) (headers entries : ℕ)
    → (headers ≢ mask_secondary → check_primary gpt ≡ 0)
    → (headers ≢ mask_primary → check_secondary gpt ≡ 0)
    → 0 < headers
    → headers ≤ mask_both
    → (compare_headers gpt headers entries).1 ≡ gpt_success
    → Judged (compare_headers gpt headers entries).0
unfolding compare_headers check_primary check_secondary
compare_headers-Judged gpt headers entries p s h m e = record {
  primary = λ n. ground (arith, p);
  secondary = λ n. ground (arith, s);
  headers = ground arith;
  mask = ground arith;
  entries = ground arith;
}

check_tables-Judged :
    (gpt : GptData) (headers : ℕ)
    → (headers ≢ mask_secondary → check_primary gpt ≡ 0)
    → (headers ≢ mask_primary → check_secondary gpt ≡ 0)
    → 0 < headers
    → headers ≤ mask_both
    → (check_tables gpt headers).1 ≡ gpt_success
    → Judged (check_tables gpt headers).0
unfolding check_tables
check_tables-Judged gpt headers p s h m =
    let good = if has_flag headers mask_primary then gpt.primary_header else gpt.secondary_header in
    let entries = entries_mask gpt good in
    let entries2 = entries_mask gpt gpt.secondary_header in
    elim (Bool-cases ((headers == mask_both) && (entries == 0))) [
      | inl both ↦ rw both (
          compare_headers-Judged gpt (if entries2 == 0 then headers else mask_secondary) entries2
            (ground (arith, p)) (ground (arith, s, both)) (ground arith) (ground arith))
      | inr one ↦ rw one (compare_headers-Judged gpt headers entries p s h m)
    ]

gpt_sanity_check-Judged :
    (gpt : GptData) → (gpt_sanity_check gpt).1 ≡ gpt_success → Judged (gpt_sanity_check gpt).0
unfolding gpt_sanity_check
gpt_sanity_check-Judged gpt =
    let reset = record gpt { valid_headers = 0; valid_entries = 0 } in
    elim (Bool-cases (truthy (check_parameters reset))) [
      | inl bad ↦ rw bad (λ e. absurd (ground (arith, bad, e)))
      | inr fine ↦ elim (Bool-cases (headers_mask reset == 0)) [
        | inl bad ↦ rw (fine, bad) (λ e. absurd (ground arith))
        | inr some_header ↦
            rw (fine, some_header)
              (check_tables-Judged reset (headers_mask reset) (λ n. ground arith)
                (λ n. ground arith) (ground arith) (ground arith))
      ]
    ]

-- Both headers are valid.
record Both (gpt : GptData) : Type 0 where
  primary : check_primary gpt ≡ 0
  secondary : check_secondary gpt ≡ 0

repair_headers-Both : (gpt : GptData) → Judged gpt → Both (repair_headers gpt)
unfolding repair_headers check_primary check_secondary
repair_headers-Both gpt j = elim (Bool-cases (gpt.valid_headers == mask_primary)) [
  | inl one ↦ rw one (record {
    primary = j.primary (ground arith);
    secondary = sealed_secondary gpt.primary_header false _ _ _ _ (j.primary (ground arith));
  })
  | inr not_one ↦ elim (Bool-cases (gpt.valid_headers == mask_secondary)) [
    | inl two ↦
        rw (not_one, two)
          (record {
            primary =
                sealed_primary gpt.secondary_header true _ _ _ _ _ (j.secondary (ground arith));
            secondary = j.secondary (ground arith);
          })
    | inr not_two ↦
        rw (not_one, not_two)
          (record { primary = j.primary (ground arith); secondary = j.secondary (ground arith) })
  ]
]

repair_entries-Both : (gpt : GptData) → Both gpt → Both (repair_entries gpt)
unfolding repair_entries check_primary check_secondary
repair_entries-Both gpt b = record {
  primary = ground (arith, b.primary);
  secondary = ground (arith, b.secondary);
}

gpt_repair-Both : (gpt : GptData) → Judged gpt → Both (gpt_repair gpt)
unfolding gpt_repair check_primary check_secondary
gpt_repair-Both gpt j =
    let b = repair_headers-Both gpt j in
    let masked : Both (record (repair_headers gpt) { valid_headers = mask_both }) = record {
      primary = b.primary;
      secondary = b.secondary;
    } in
    let known : ((gpt.valid_headers == 0) || (gpt.valid_entries == 0)) ≡ false =
      ground (arith, j.headers, j.entries) in
    rw known
      (repair_entries-Both (record (repair_headers gpt) { valid_headers = mask_both }) masked)

-- If GptInit succeeds, both headers that it leaves pass CheckHeader.
pub gpt_init_lem :
    (gpt : GptData)
    → (gpt_init gpt).1 ≡ gpt_success
    → let g = (gpt_init gpt).0 in (check_primary g ≡ 0) × (check_secondary g ≡ 0)
unfolding gpt_init
gpt_init_lem gpt =
    let start = record gpt { modified = 0; current_kernel = none; current_priority = 999 } in
    elim (Bool-cases (truthy (gpt_sanity_check start).1)) [
      | inl bad ↦ rw bad (λ e. absurd (ground (arith, bad, e)))
      | inr fine ↦ rw fine (λ _.
          let b =
            gpt_repair-Both (gpt_sanity_check start).0
              (gpt_sanity_check-Judged start (ground (arith, fine))) in
          (b.primary, b.secondary))
    ]
