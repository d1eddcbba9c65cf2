-- ===== src/Gpt/Attributes/Laws.antt =====
-- The attribute bits of an entry: what is set is read, and the other fields stay.
use cbmc_vboot.Prelude.{
  ℕ, ◌*◌, ◌/◌, ◌^◌, ◌<◌, ◌≡◌, refl, ap, ◌∙◌, bit_and, all_below, all_below_sound, ◌==◌, ==_iff,
  truthy, Bool-cases, inl, inr, if◌then◌else◌,
}
use cbmc_vboot.Prelude.Bits.{and_assoc, and-zero, flag_self, flag_other, field_self, field_other}
use cbmc_vboot.Gpt.{GptEntry}
use cbmc_vboot.Gpt.Attributes.{
  successful_mask, tries_mask, priority_mask, not16, get_entry_successful, stored_priority,
  get_entry_tries, set_entry_successful, set_entry_priority, set_entry_tries,
}

-- Successful, priority and tries of an entry.
unfoldable pub attributes : GptEntry → ℕ × ℕ × ℕ
attributes e = (get_entry_successful e, stored_priority e, get_entry_tries e)

digits : (v : ℕ) → v < 16 → bit_and (v * 2 ^ 4) tries_mask / 2 ^ 4 ≡ v
unfolding all_below
digits v l =
    (==_iff _ _).0 (all_below_sound 16 (λ v. bit_and (v * 2 ^ 4) tries_mask / 2 ^ 4 == v) v l refl)

low_digits : (v : ℕ) → v < 16 → bit_and (v * 2 ^ 0) priority_mask / 2 ^ 0 ≡ v
unfolding all_below
low_digits v l =
    (==_iff _ _).0
      (all_below_sound 16 (λ v. bit_and (v * 2 ^ 0) priority_mask / 2 ^ 0 == v) v l refl)

under : (x m : ℕ) → bit_and m m ≡ m → bit_and (bit_and x m) m ≡ bit_and x m
under x m h = and_assoc x m m ∙ ap (bit_and x) h

-- For a number below 16, SetEntryTries makes the tries that number, and the successful flag and the
-- stored priority read as before.
pub set_entry_tries-attributes :
    (e : GptEntry) (v : ℕ)
    → v < 16
    → attributes (set_entry_tries e v) ≡ (get_entry_successful e, stored_priority e, v)
unfolding attributes set_entry_tries get_entry_tries get_entry_successful stored_priority
set_entry_tries-attributes e v l =
    let w = bit_and (v * 2 ^ 4) tries_mask in
    let u = under (v * 2 ^ 4) tries_mask refl in
    λ i. (
      (ap (λ t. t / 2 ^ 8)
            (field_other e.gpt_att (not16 tries_mask) w tries_mask successful_mask u refl refl))
          i,
      (ap (λ t. t / 2 ^ 0)
            (field_other e.gpt_att (not16 tries_mask) w tries_mask priority_mask u refl refl))
          i,
      (ap (λ t. t / 2 ^ 4) (field_self e.gpt_att (not16 tries_mask) w tries_mask refl u)
            ∙ digits v l)
          i,
    )

-- For a number below 16, SetEntryPriority makes the stored priority that number, and the successful
-- flag and the tries read as before.
pub set_entry_priority-attributes :
    (e : GptEntry) (v : ℕ)
    → v < 16
    → attributes (set_entry_priority e v) ≡ (get_entry_successful e, v, get_entry_tries e)
unfolding attributes set_entry_priority get_entry_tries get_entry_successful stored_priority
set_entry_priority-attributes e v l =
    let w = bit_and (v * 2 ^ 0) priority_mask in
    let u = under (v * 2 ^ 0) priority_mask refl in
    λ i. (
      (ap (λ t. t / 2 ^ 8)
            (field_other e.gpt_att (not16 priority_mask) w priority_mask successful_mask u refl
              refl))
          i,
      (ap (λ t. t / 2 ^ 0) (field_self e.gpt_att (not16 priority_mask) w priority_mask refl u)
            ∙ low_digits v l)
          i,
      (ap (λ t. t / 2 ^ 4)
            (field_other e.gpt_att (not16 priority_mask) w priority_mask tries_mask u refl refl))
          i,
    )

-- SetEntrySuccessful sets the successful flag to 1 for any value but zero and to 0 for zero, and
-- the stored priority and the tries read as before.
pub set_entry_successful-attributes :
    (e : GptEntry) (v : ℕ)
    → attributes (set_entry_successful e v)
      ≡ (if truthy v then 1 else 0, stored_priority e, get_entry_tries e)
unfolding attributes set_entry_successful get_entry_tries get_entry_successful stored_priority
set_entry_successful-attributes e v = elim (Bool-cases (truthy v)) [
  | inl on ↦ rw on (λ i. (
    (ap (λ t. t / 2 ^ 8) (flag_self e.gpt_att successful_mask)) i,
    (ap (λ t. t / 2 ^ 0) (flag_other e.gpt_att successful_mask priority_mask refl)) i,
    (ap (λ t. t / 2 ^ 4) (flag_other e.gpt_att successful_mask tries_mask refl)) i,
  ))
  | inr off ↦ rw off (λ i. (
    (ap (λ t. t / 2 ^ 8)
          (cleared successful_mask ∙ ap (bit_and e.gpt_att) refl ∙ and-zero e.gpt_att))
        i,
    (ap (λ t. t / 2 ^ 0) (and_assoc e.gpt_att (not16 successful_mask) priority_mask)) i,
    (ap (λ t. t / 2 ^ 4) (and_assoc e.gpt_att (not16 successful_mask) tries_mask)) i,
  ))
]
  where
    cleared :
        (m : ℕ)
        → bit_and (bit_and e.gpt_att (not16 successful_mask)) m
          ≡ bit_and e.gpt_att (bit_and (not16 successful_mask) m)
    cleared m = and_assoc e.gpt_att (not16 successful_mask) m
