-- ===== src/Gpt/Entries/Table.antt =====
-- What CheckEntries accepts.
use cbmc_vboot.Prelude.{
  ℕ, zero, suc, ◌+◌, ◌≤◌, ◌≡◌, ◌≢◌, ◌↔◌, inl, inr, refl, ap, ◌∙◌, false, ◌||◌, List, [], ◌∷◌, some,
  ◌==◌, Bool-cases, take, get_elem?, arith, subst,
}
use cbmc_vboot.Gpt.{GptHeader, GptEntry, gpt_success, same_bytes, is_unused_entry}
use cbmc_vboot.Gpt.Entries.{
  check_pair, check_others, out_of_region, check_from, entries_crc, check_entries,
}

-- An entry `e` that may stand beside `e2`: its first and its last sector lie outside `e2`, and the
-- two have different identities.
pub record Apart (e e2 : GptEntry) : Type 0 where
  pub start : ¬ ((e2.starting_lba ≤ e.starting_lba) × (e.starting_lba ≤ e2.ending_lba))
  pub end : ¬ ((e2.starting_lba ≤ e.ending_lba) × (e.ending_lba ≤ e2.ending_lba))
  pub identity : same_bytes e.unique e2.unique ≡ false

-- The sectors of an entry are in order and among the usable ones.
pub record InRegion (h : GptHeader) (e : GptEntry) : Type 0 where
  pub low : h.first_usable_lba ≤ e.starting_lba
  pub ordered : e.starting_lba ≤ e.ending_lba
  pub high : e.ending_lba ≤ h.last_usable_lba

check_pair_sound : (e e2 : GptEntry) → check_pair e e2 ≡ gpt_success → Apart e e2
unfolding check_pair
check_pair_sound e e2 h = record {
  start = λ b. ground (arith, b);
  end = λ b. ground (arith, b);
  identity = ground arith;
}

check_pair_complete : (e e2 : GptEntry) → Apart e e2 → check_pair e e2 ≡ gpt_success
unfolding check_pair
check_pair_complete e e2 a = ground (arith, a.start, a.end, a.identity)

-- The entries in use other than the one at index `i`, from index `i2` on, are apart from `e`.
Others : GptEntry → ℕ → ℕ → List GptEntry → Type 0
Others e i i2 rest =
    (d : ℕ) (e2 : GptEntry)
    → get_elem? rest d ≡ some e2
    → is_unused_entry e2 ≡ false
    → i2 + d ≢ i
    → Apart e e2

check_others_sound :
    (e : GptEntry) (i i2 : ℕ) (rest : List GptEntry)
    → check_others e i i2 rest ≡ gpt_success
    → Others e i i2 rest
unfolding check_others Others
check_others_sound e i i2 [] h zero e2 at u n = cc
check_others_sound e i i2 [] h (suc d) e2 at u n = cc
check_others_sound e i i2 (x ∷ rest) h zero e2 at u n =
    let same : x ≡ e2 = ground (arith, at) in
    let used : is_unused_entry x ≡ false = ap is_unused_entry same ∙ u in
    let code : check_pair e x ≡ gpt_success = ground (arith, h, used, n) in
    subst (Apart e) same (check_pair_sound e x code)
check_others_sound e i i2 (x ∷ rest) h (suc d) e2 at u n =
    check_others_sound e i (i2 + 1) rest (ground (arith, h)) d e2 at u (omega (arith, n))

check_others_complete :
    (e : GptEntry) (i i2 : ℕ) (rest : List GptEntry)
    → Others e i i2 rest
    → check_others e i i2 rest ≡ gpt_success
unfolding check_others Others
check_others_complete e i i2 [] o = refl
check_others_complete e i i2 (x ∷ rest) o =
    let later : check_others e i (i2 + 1) rest ≡ gpt_success =
      check_others_complete e i (i2 + 1) rest
        (λ d e2 at u n. o (suc d) e2 at u (omega (arith, n))) in
    elim (Bool-cases ((i2 == i) || is_unused_entry x)) [
      | inl skip ↦ rw skip later
      | inr look ↦
          let code : check_pair e x ≡ gpt_success =
            check_pair_complete e x (o 0 x refl (ground (arith, look)) (ground (arith, look))) in
          rw (look, code) later
    ]

-- What the outer loop accepts, from index `i` on.
Accepted : GptHeader → List GptEntry → ℕ → List GptEntry → Type 0
Accepted h all i es =
    (d : ℕ) (e : GptEntry)
    → get_elem? es d ≡ some e
    → is_unused_entry e ≡ false
    → InRegion h e × Others e (i + d) 0 all

out_of_region_iff : (h : GptHeader) (e : GptEntry) → (out_of_region h e ≡ false) ↔ InRegion h e
unfolding out_of_region
out_of_region_iff h e = (
  λ r. record { low = ground arith; ordered = ground arith; high = ground arith },
  λ r. ground (arith, r.low, r.ordered, r.high),
)

check_from_sound :
    (h : GptHeader) (all : List GptEntry) (i : ℕ) (es : List GptEntry)
    → check_from h all i es ≡ gpt_success
    → Accepted h all i es
unfolding check_from Accepted
check_from_sound h all i [] c zero e at u = cc
check_from_sound h all i [] c (suc d) e at u = cc
check_from_sound h all i (x ∷ es) c zero e at u =
    let same : x ≡ e = ground (arith, at) in
    let used : is_unused_entry x ≡ false = ap is_unused_entry same ∙ u in
    let inside : out_of_region h x ≡ false = ground (arith, c, used) in
    let code : check_others x i 0 all ≡ gpt_success = ground (arith, c, used, inside) in
    subst (λ e. InRegion h e × Others e (i + 0) 0 all) same
      (
        (out_of_region_iff h x).0 inside,
        subst (λ j. Others x j 0 all) (omega arith) (check_others_sound x i 0 all code),
      )
check_from_sound h all i (x ∷ es) c (suc d) e at u =
    let (inside, others) = check_from_sound h all (i + 1) es (ground (arith, c)) d e at u in
    (inside, subst (λ j. Others e j 0 all) (omega arith) others)

check_from_complete :
    (h : GptHeader) (all : List GptEntry) (i : ℕ) (es : List GptEntry)
    → Accepted h all i es
    → check_from h all i es ≡ gpt_success
unfolding check_from Accepted
check_from_complete h all i [] a = refl
check_from_complete h all i (x ∷ es) a =
    let later : check_from h all (i + 1) es ≡ gpt_success =
      check_from_complete h all (i + 1) es (λ d e at u.
        let (inside, others) = a (suc d) e at u in
        (inside, subst (λ j. Others e j 0 all) (omega arith) others)) in
    elim (Bool-cases (is_unused_entry x)) [
      | inl unused ↦ rw unused later
      | inr used ↦
          let (inside, others) = a 0 x refl used in
          let region : out_of_region h x ≡ false = (out_of_region_iff h x).1 inside in
          let code : check_others x i 0 all ≡ gpt_success =
            check_others_complete x i 0 all (subst (λ j. Others x j 0 all) (omega arith) others) in
          rw (used, region, code) later
    ]

-- A table that may be used with a header: the checksum is that of the header, and each entry in use
-- lies among the usable sectors and is apart from every other.
pub record IsTable (h : GptHeader) (entries : List GptEntry) : Type 0 where
  pub checksum : entries_crc entries h ≡ h.entries_crc32
  pub region :
      (i : ℕ) (e : GptEntry)
      → get_elem? (take h.number_of_entries entries) i ≡ some e
      → is_unused_entry e ≡ false
      → InRegion h e
  pub apart :
      (i j : ℕ) (e e2 : GptEntry)
      → get_elem? (take h.number_of_entries entries) i ≡ some e
      → get_elem? (take h.number_of_entries entries) j ≡ some e2
      → is_unused_entry e ≡ false
      → is_unused_entry e2 ≡ false
      → j ≢ i
      → Apart e e2

-- CheckEntries returns success for a header and entries exactly if the checksum of the entries is
-- the one in the header, each entry in use has its sectors in order among the usable ones, and each
-- two entries in use at different indices are apart.
pub check_entries_iff :
    (entries : List GptEntry) (h : GptHeader)
    → (check_entries (some entries) h ≡ gpt_success) ↔ IsTable h entries
unfolding check_entries Accepted Others
check_entries_iff entries h = (sound, complete)
  where
    table : List GptEntry
    table = take h.number_of_entries entries

    sound : check_entries (some entries) h ≡ gpt_success → IsTable h entries
    sound c =
        let crc : entries_crc entries h ≡ h.entries_crc32 = ground (arith, c) in
        let all : check_from h table 0 table ≡ gpt_success = ground (arith, c, crc) in
        let accepted = check_from_sound h table 0 table all in
        record {
          checksum = crc;
          region = λ i e at u. (accepted i e at u).0;
          apart = λ i j e e2 at at2 u u2 n.
              (accepted i e at u).1 j e2 at2 u2 (λ s. n (omega (arith, s)));
        }

    complete : IsTable h entries → check_entries (some entries) h ≡ gpt_success
    complete t =
        let all = check_from_complete h table 0 table (λ d e at u. (
          t.region d e at u,
          λ d2 e2 at2 u2 n. t.apart d d2 e e2 at at2 u u2 (λ s. n (omega (arith, s))),
        )) in
        ground (arith, t.checksum, all)
