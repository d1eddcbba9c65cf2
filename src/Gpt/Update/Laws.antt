-- ===== src/Gpt/Update/Laws.antt =====
-- A boot attempt uses up a try of the kernel, and the last one takes the kernel out of the race.
use cbmc_vboot.Prelude.{
  ℕ, zero, suc, ◌-◌, ◌<◌, ◌≡◌, ◌≢◌, ◌⊎◌, inl, inr, refl, ap, ◌∙◌, true, List, [], ◌∷◌, none, some,
  ltb, truthy, if◌then◌else◌, Bool-cases, get_elem?, set, arith,
}
use cbmc_vboot.Prelude.Bits.{and-le}
use cbmc_vboot.Gpt.{GptEntry, GptData, gpt_success, is_kernel_entry}
use cbmc_vboot.Gpt.Attributes.{
  get_entry_successful, get_entry_tries, set_entry_priority, set_entry_tries, tries_mask,
}
use cbmc_vboot.Gpt.Attributes.Laws.{
  attributes, set_entry_tries-attributes, set_entry_priority-attributes,
}
use cbmc_vboot.Gpt.Sanity.{gpt_modified}
use cbmc_vboot.Gpt.Update.{
  update_entry_try, give_up, use_up_try, update_entry, write_entry, gpt_update_kernel_with_entry,
  gpt_update_kernel_entry, update_at, update_current,
}

get_elem?-set :
    (es : List GptEntry) (k : ℕ) (e e' : GptEntry)
    → get_elem? es k ≡ some e
    → get_elem? (set es k e') k ≡ some e'
get_elem?-set [] k e e' h = cc
get_elem?-set (x ∷ es) zero e e' h = refl
get_elem?-set (x ∷ es) (suc k) e e' h = get_elem?-set es k e e' h

-- The attributes after a try.
unfoldable pub after_try : ℕ × ℕ × ℕ → ℕ × ℕ × ℕ
after_try (successful, priority, tries) =
    if ltb 1 tries then (successful, priority, tries - 1) else (successful, 0, 0)

get_entry_tries-lt : (e : GptEntry) → get_entry_tries e - 1 < 16
unfolding get_entry_tries
get_entry_tries-lt e = omega (arith, and-le e.gpt_att tries_mask)

give_up-attributes :
    (e : GptEntry)
    → attributes (set_entry_priority (set_entry_tries e 0) 0) ≡ (get_entry_successful e, 0, 0)
unfolding attributes
give_up-attributes e =
    let tried = set_entry_tries-attributes e 0 (omega arith) in
    set_entry_priority-attributes (set_entry_tries e 0) 0 (omega arith)
    ∙ (λ i. let (s, p, t) = tried i in (s, 0, t))

-- What a try makes of an entry.
use_up_try_lem :
    (e : GptEntry)
    → (get_entry_successful e ≢ 0) × (use_up_try e ≡ none)
      ⊎ (get_entry_successful e ≡ 0)
        × ((e' : GptEntry) × (use_up_try e ≡ some e') × (attributes e' ≡ after_try (attributes e)))
unfolding use_up_try give_up attributes after_try
use_up_try_lem e = elim (Bool-cases (truthy (get_entry_successful e))) [
  | inl booted ↦ rw booted (inl (ground (arith, booted), refl))
  | inr fresh ↦ elim (Bool-cases (ltb 1 (get_entry_tries e))) [
    | inl left ↦
        rw (fresh, left)
          (inr (
            ground (arith, fresh),
            (
              set_entry_tries e (get_entry_tries e - 1),
              refl,
              set_entry_tries-attributes e (get_entry_tries e - 1) (get_entry_tries-lt e),
            ),
          ))
    | inr last ↦
        rw (fresh, last)
          (inr (
            ground (arith, fresh),
            (set_entry_priority (set_entry_tries e 0) 0, refl, give_up-attributes e),
          ))
  ]
]

gpt_modified-entries : (gpt : GptData) → (gpt_modified gpt).primary_entries ≡ gpt.primary_entries
unfolding gpt_modified
gpt_modified-entries gpt = refl

-- Which entry the update is about.
to_write :
    (gpt : GptData) (k : ℕ) (e : GptEntry)
    → gpt.current_kernel ≡ some k
    → get_elem? gpt.primary_entries k ≡ some e
    → is_kernel_entry e ≡ true
    → gpt_update_kernel_entry gpt update_entry_try ≡ write_entry gpt k (some (use_up_try e))
unfolding gpt_update_kernel_entry update_current gpt_update_kernel_with_entry update_at update_entry
to_write gpt k e current at kernel =
    ap (λ c. update_current gpt c update_entry_try) current
    ∙ ap (λ x. update_at gpt k x update_entry_try) at
    ∙ rw kernel refl

-- Where the current kernel is an entry of the primary table of the kernel type, an update for a
-- boot attempt returns success. Either the entry was successful before, and nothing changes; or it
-- has one try fewer, and loses priority and tries with its last try.
pub gpt_update_kernel_entry-try :
    (gpt : GptData) (k : ℕ) (e : GptEntry)
    → gpt.current_kernel ≡ some k
    → get_elem? gpt.primary_entries k ≡ some e
    → is_kernel_entry e ≡ true
    → let r = gpt_update_kernel_entry gpt update_entry_try in
      (r.1 ≡ gpt_success)
      × ((get_entry_successful e ≢ 0) × (r.0 ≡ gpt)
          ⊎ (get_entry_successful e ≡ 0)
            × ((e' : GptEntry) × (get_elem? r.0.primary_entries k ≡ some e')
                × (attributes e' ≡ after_try (attributes e))))
unfolding write_entry
gpt_update_kernel_entry-try gpt k e current at kernel =
    let code = to_write gpt k e current at kernel in
    elim (use_up_try_lem e) [
      | inl (booted, same) ↦ rw (code, same) (refl, inl (booted, refl))
      | inr (fresh, (e', is_e', tried)) ↦
          rw (code, is_e')
            (
              refl,
              inr (
                fresh,
                (
                  e',
                  ap (λ es. get_elem? es k)
                        (gpt_modified-entries
                          (record gpt { primary_entries = set gpt.primary_entries k e' }))
                      ∙ get_elem?-set gpt.primary_entries k e e' at,
                  tried,
                ),
              ),
            )
    ]
