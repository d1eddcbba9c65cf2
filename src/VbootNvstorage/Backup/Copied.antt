-- ===== src/VbootNvstorage/Backup/Copied.antt =====
-- firmware/lib/vboot_nvstorage_rollback.c: the loop that copies settings to the backup and from it.
use cbmc_vboot.Prelude.{
  ℕ, ◌≡◌, refl, ap, sym, subst, ◌∙◌, inl, inr, arith, bit_and, get_or, ◌⊎◌, Bool, false, ◌||◌, List,
  [], ◌∷◌, ◌==◌, if◌then◌else◌, Bool-cases, Option, none, some,
}
use cbmc_vboot.Nvstorage.{NvParam, read_param, write_param}
use cbmc_vboot.Nvstorage.Layout.{same, same_iff}
use cbmc_vboot.Nvstorage.Fields.Ranges.{IsNv, write-IsNv, read_in_range, write-signature}
use cbmc_vboot.Nvstorage.Fields.ReadWrite.{read-write_self, read-write_other}
use cbmc_vboot.VbootNvstorage.{VbNvContext, VbNvParam, get_param, vb_nv_get, vb_nv_set}
use cbmc_vboot.VbootNvstorage.Agrees.{new_param, map_param, get_same, set_known, set_unknown}
use cbmc_vboot.VbootNvstorage.Backup.{backup_params, found_value, copy_params}

-- A parameter of the list stands for the newer code's `r`.
abbrev names : Option NvParam → NvParam → Bool
names none r = false
names (some q) r = same q r

abbrev pub covers : List VbNvParam → NvParam → Bool
covers [] r = false
covers (p ∷ params) r = names (new_param p) r || covers params r

abbrev pub covered : Option NvParam → Bool
covered none = false
covered (some r) = covers backup_params r

-- A parameter of which a backup is kept.
abbrev pub backed_up : VbNvParam → Bool
backed_up p = covered (new_param p)

-- After VbNvSet, with a value that is the parameter's.
set-read :
    (old : VbNvContext) (p : VbNvParam) (q r : NvParam) (source : List ℕ)
    → new_param p ≡ some q
    → IsNv old.raw
    → IsNv source
    → read_param (vb_nv_set old p (read_param source q)).0.raw r
      ≡ (if same q r then read_param source r else read_param old.raw r)
set-read old p q r source e w s =
    let v = read_param source q in
    rw (set_known old p q v e) (elim (Bool-cases (same q r)) [
      | inl own ↦
          let same_param = same_iff q r own in
          rw own (
            subst
              (λ x.
                read_param
                  (if read_param old.raw q == v
                    then old
                    else record old { raw = write_param old.raw q v; regenerate_crc = 1 }).raw
                  x
                ≡ read_param source x)
              same_param
              (elim (Bool-cases (read_param old.raw q == v)) [
                | inl unchanged ↦ rw unchanged (ground (arith, unchanged))
                | inr changed ↦
                    rw changed
                      (read-write_self old.raw q v w.sized ∙ read_in_range source q s.bytes)
              ]))
      | inr other ↦ rw other (elim (Bool-cases (read_param old.raw q == v)) [
        | inl unchanged ↦ rw unchanged refl
        | inr changed ↦ rw changed (read-write_other old.raw q r v w.sized other)
      ])
    ])

write-value-IsNv :
    (old : VbNvContext) (p : VbNvParam) (v : ℕ) (o : Option NvParam)
    → new_param p ≡ o
    → IsNv old.raw
    → IsNv (vb_nv_set old p v).0.raw
write-value-IsNv old p v none e w = subst (λ c. IsNv c.raw) (sym (set_unknown old p v e)) w
write-value-IsNv old p v (some q) e w =
    rw (set_known old p q v e) (elim (Bool-cases (read_param old.raw q == v)) [
      | inl unchanged ↦ rw unchanged w
      | inr changed ↦ rw changed (write-IsNv old.raw q v w)
    ])

-- One round of the loop.
step-read :
    (old source : VbNvContext) (p : VbNvParam) (value : ℕ) (r : NvParam) (o : Option NvParam)
    → new_param p ≡ o
    → IsNv old.raw
    → IsNv source.raw
    → read_param (vb_nv_set old p (found_value (vb_nv_get source p) value)).0.raw r
      ≡ (if names o r then read_param source.raw r else read_param old.raw r)
unfolding vb_nv_get
step-read old source p value r none e w s =
    ap (λ c. read_param c.raw r) (set_unknown old p (found_value (vb_nv_get source p) value) e)
step-read old source p value r (some q) e w s =
    let found : found_value (vb_nv_get source p) value ≡ read_param source.raw q =
      ap (λ o. found_value o value)
        (get_same source.raw p ∙ ap (map_param (λ x. read_param source.raw x)) e) in
    ap (λ v. read_param (vb_nv_set old p v).0.raw r) found ∙ set-read old p q r source.raw e w s

-- The loop gives the target the source's values of the parameters in the list, and no others.
pub copy_params-read :
    (params : List VbNvParam) (value : ℕ) (source target : VbNvContext) (r : NvParam)
    → IsNv source.raw
    → IsNv target.raw
    → read_param (copy_params params value source target).raw r
      ≡ (if covers params r then read_param source.raw r else read_param target.raw r)
unfolding copy_params
copy_params-read [] value source target r s w = refl
copy_params-read (p ∷ params) value source target r s w =
    let value' = found_value (vb_nv_get source p) value in
    let next = (vb_nv_set target p value').0 in
    let rest =
      copy_params-read params value' source next r s
        (write-value-IsNv target p value' (new_param p) refl w) in
    let one = step-read target source p value r (new_param p) refl w s in
    elim (Bool-cases (names (new_param p) r)) [
      | inl now ↦ elim (Bool-cases (covers params r)) [
        | inl later ↦ rw now (rest ∙ rw later refl)
        | inr last ↦ rw now (rest ∙ rw last (one ∙ rw now refl))
      ]
      | inr other ↦ elim (Bool-cases (covers params r)) [
        | inl later ↦ rw (other, later) (rest ∙ rw later refl)
        | inr last ↦ rw (other, last) (rest ∙ rw last (one ∙ rw other refl))
      ]
    ]

-- The loop sets the checksum aside: it keeps the signature and the flag for changed bytes, and leaves
-- all as it is, or asks for a new checksum.
pub record Kept (before after : VbNvContext) : Type 0 where
  pub is_nv : IsNv after.raw
  pub signature : bit_and (get_or after.raw 0 0) 0xc0 ≡ bit_and (get_or before.raw 0 0) 0xc0
  pub changed : after.raw_changed ≡ before.raw_changed
  pub same_or_dirty : (after ≡ before) ⊎ (after.regenerate_crc ≡ 1)

set-Kept :
    (old : VbNvContext) (p : VbNvParam) (v : ℕ) (o : Option NvParam)
    → new_param p ≡ o
    → IsNv old.raw
    → Kept old (vb_nv_set old p v).0
set-Kept old p v none e w =
    subst (Kept old) (sym (set_unknown old p v e))
      (record { is_nv = w; signature = refl; changed = refl; same_or_dirty = inl refl })
set-Kept old p v (some q) e w =
    subst (Kept old) (sym (set_known old p q v e)) (elim (Bool-cases (read_param old.raw q == v)) [
      | inl unchanged ↦
          rw unchanged
            (record { is_nv = w; signature = refl; changed = refl; same_or_dirty = inl refl })
      | inr other ↦ rw other (record {
        is_nv = write-IsNv old.raw q v w;
        signature = write-signature old.raw q v (omega (arith, w.sized));
        changed = refl;
        same_or_dirty = inr refl;
      })
    ])

pub copy_params-Kept :
    (params : List VbNvParam) (value : ℕ) (source target : VbNvContext)
    → IsNv target.raw
    → Kept target (copy_params params value source target)
unfolding copy_params
copy_params-Kept [] value source target w = record {
  is_nv = w;
  signature = refl;
  changed = refl;
  same_or_dirty = inl refl;
}
copy_params-Kept (p ∷ params) value source target w =
    let value' = found_value (vb_nv_get source p) value in
    let one = set-Kept target p value' (new_param p) refl w in
    let rest = copy_params-Kept params value' source (vb_nv_set target p value').0 one.is_nv in
    record {
      is_nv = rest.is_nv;
      signature = rest.signature ∙ one.signature;
      changed = rest.changed ∙ one.changed;
      same_or_dirty = elim rest.same_or_dirty [
        | inr dirty ↦ inr dirty
        | inl same_rest ↦ elim one.same_or_dirty [
          | inl same_one ↦ inl (same_rest ∙ same_one)
          | inr dirty ↦ inr (ap (λ c. c.regenerate_crc) same_rest ∙ dirty)
        ]
      ];
    }

-- What VbNvGet reads after the loop over the backed up parameters.
pub copied-get :
    (source target copied : VbNvContext) (p : VbNvParam) (o : Option NvParam)
    → new_param p ≡ o
    → ((q : NvParam)
        → read_param copied.raw q
          ≡ (if covers backup_params q then read_param source.raw q else read_param target.raw q))
    → vb_nv_get copied p ≡ (if covered o then vb_nv_get source p else vb_nv_get target p)
unfolding vb_nv_get
copied-get source target copied p o e f =
    let reads : (c : VbNvContext) → get_param c.raw p ≡ map_param (λ q. read_param c.raw q) o =
      λ c. get_same c.raw p ∙ ap (map_param (λ q. read_param c.raw q)) e in
    rw (reads source, reads target, reads copied) (copied_values o)
  where
    copied_values :
        (o : Option NvParam)
        → map_param (λ q. read_param copied.raw q) o ≡ (
            if covered o
            then map_param (λ q. read_param source.raw q) o
            else map_param (λ q. read_param target.raw q) o)
    copied_values none = refl
    copied_values (some q) = elim (Bool-cases (covers backup_params q)) [
      | inl kept ↦ rw kept (ap some (f q ∙ rw kept refl))
      | inr other ↦ rw other (ap some (f q ∙ rw other refl))
    ]
