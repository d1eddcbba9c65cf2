-- ===== src/Gpt/Kernel/Sequence.antt =====
-- GptNextKernelEntry offers the kernels one after the other.
use cbmc_vboot.Prelude.{
  ℕ, zero, suc, ◌+◌, ◌-◌, ◌≤◌, ◌<◌, ◌≡◌, refl, sym, ap, ◌∙◌, ◌≢◌, inl, inr, List, [], ◌∷◌, Option,
  none, some, take, drop, get_elem?, arith, subst, subst₂, Result, ok, err, Bool-cases, leb,
}
use cbmc_vboot.Gpt.{GptEntry, GptData, error_no_valid_kernel}
use cbmc_vboot.Gpt.Kernel.{
  table, extent, find_same, found, next_lower, same_priority, gpt_next_kernel_entry, step,
}
use cbmc_vboot.Gpt.Kernel.Order.{
  Bootable, priority, Empty, First, Same, find_same_lem, Best, Next, find_best_lem,
}

get_elem?-take :
    (n : ℕ) (es : List GptEntry) (i : ℕ) → i < n → get_elem? (take n es) i ≡ get_elem? es i
get_elem?-take zero es i l = absurd (omega (arith, l))
get_elem?-take (suc n) [] i l = refl
get_elem?-take (suc n) (x ∷ es) zero l = refl
get_elem?-take (suc n) (x ∷ es) (suc i) l = get_elem?-take n es i (omega (arith, l))

add_one : (n i : ℕ) → suc (n + i) ≡ suc n + i
add_one n i = omega arith

get_elem?-drop :
    (n : ℕ) (es : List GptEntry) (i : ℕ) → get_elem? (drop n es) i ≡ get_elem? es (n + i)
get_elem?-drop zero es i = ap (get_elem? es) (omega arith)
get_elem?-drop (suc n) [] zero = refl
get_elem?-drop (suc n) [] (suc i) = refl
get_elem?-drop (suc n) (x ∷ es) i = get_elem?-drop n es i ∙ ap (get_elem? (x ∷ es)) (add_one n i)

module _ (override : GptEntry → ℕ) where
  -- A kernel of priority `p` at index `i` that is still to be offered.
  pub data Remaining (gpt : GptData) (p i : ℕ) : Type 0 where
    lower : 0 < p → p < gpt.current_priority → Remaining gpt p i
    next :
        (k : ℕ) → gpt.current_kernel ≡ some k → k < i → p ≡ gpt.current_priority → Remaining gpt p i

  -- The kernel at index `i` is offered: it is the first of the highest priority that remains.
  pub record Offered (gpt : GptData) (i : ℕ) (e : GptEntry) : Type 0 where
    pub here : get_elem? (table gpt) i ≡ some e
    pub bootable : Bootable override e
    pub remaining : Remaining gpt (priority override e) i
    pub highest :
        (i' : ℕ) (e' : GptEntry)
        → get_elem? (table gpt) i' ≡ some e'
        → Bootable override e'
        → Remaining gpt (priority override e') i'
        → priority override e' ≤ priority override e
    pub first :
        (i' : ℕ) (e' : GptEntry)
        → get_elem? (table gpt) i' ≡ some e'
        → Bootable override e'
        → Remaining gpt (priority override e') i'
        → priority override e' ≡ priority override e
        → i ≤ i'

  First-le :
      {p : ℕ} {es : List GptEntry} {d : ℕ}
      → First override p es d
      → (d' : ℕ) (e : GptEntry) → get_elem? es d' ≡ some e
      → Bootable override e
      → priority override e ≡ p
      → d ≤ d'
  unfolding Empty
  First-le {p} {es} {d} f d' e at b q = elim (Bool-cases (leb d d')) [
    | inl l ↦ ground arith
    | inr l ↦ absurd (f.before d' e (get_elem?-take d es d' (ground arith) ∙ at) b q)
  ]

  -- What a call does: it offers a kernel and notes it, or none remains.
  pub data Outcome (gpt : GptData) : GptData → Result (ℕ × ℕ) → Type 0 where
    offer :
        (i : ℕ) (e : GptEntry)
        → Offered gpt i e
        → Outcome gpt
            (record gpt { current_kernel = some i; current_priority = priority override e })
            (ok (extent e))
    exhausted :
        ((i : ℕ) (e : GptEntry)
          → get_elem? (table gpt) i ≡ some e
          → Bootable override e
          → ¬ Remaining gpt (priority override e) i)
        → Outcome gpt
            (record gpt { current_kernel = none; current_priority = 0 })
            (err error_no_valid_kernel)

  -- A kernel after the current one, seen from there.
  after :
      (gpt : GptData) (k i : ℕ)
      → k < i
      → get_elem? (drop (k + 1) (table gpt)) (i - (k + 1)) ≡ get_elem? (table gpt) i
  after gpt k i l =
      get_elem?-drop (k + 1) (table gpt) (i - (k + 1))
      ∙ ap (get_elem? (table gpt)) (omega (arith, l))

  -- The first loop's find is offered.
  same-Offered :
      (gpt : GptData) (k d : ℕ)
      → gpt.current_kernel ≡ some k
      → (f : First override gpt.current_priority (drop (k + 1) (table gpt)) d)
      → Offered gpt (k + 1 + d) f.entry
  same-Offered gpt k d c f = record {
    here = sym (get_elem?-drop (k + 1) (table gpt) d) ∙ f.here;
    bootable = f.bootable;
    remaining = next k c (ground arith) f.priority_is;
    highest = highest_of;
    first = first_of;
  }
    where
      highest_of :
          (i' : ℕ) (e' : GptEntry)
          → get_elem? (table gpt) i' ≡ some e'
          → Bootable override e'
          → Remaining gpt (priority override e') i'
          → priority override e' ≤ priority override f.entry
      highest_of i' e' at b (lower _ l) = omega (arith, l, f.priority_is)
      highest_of i' e' at b (next _ _ _ q) = omega (arith, q, f.priority_is)

      first_of :
          (i' : ℕ) (e' : GptEntry)
          → get_elem? (table gpt) i' ≡ some e'
          → Bootable override e'
          → Remaining gpt (priority override e') i'
          → priority override e' ≡ priority override f.entry
          → k + 1 + d ≤ i'
      first_of i' e' at b (lower _ l) q = absurd (omega (arith, l, q, f.priority_is))
      first_of i' e' at b (next k' c' l q') q =
          let same : k ≡ k' = ground (arith, c, c') in
          let l' : k < i' = ground (arith, same, l) in
          omega
            (arith, l', First-le f (i' - (k + 1)) e' (after gpt k i' l' ∙ at) b (q ∙ f.priority_is))

  -- No kernel of the current priority is left after the current one.
  PassedBy : GptData → Type 0
  PassedBy gpt =
      (k i : ℕ) (e : GptEntry)
      → gpt.current_kernel ≡ some k
      → k < i
      → get_elem? (table gpt) i ≡ some e
      → Bootable override e
      → priority override e ≢ gpt.current_priority

  -- What the second loop chooses is offered.
  module _ (gpt : GptData) (passed : PassedBy gpt) {k : Option ℕ} {p : ℕ}
      (best : Best override gpt.current_priority none 0 0 (table gpt) k p) where
    below :
        (i : ℕ) (e : GptEntry)
        → get_elem? (table gpt) i ≡ some e
        → Bootable override e
        → Remaining gpt (priority override e) i
        → (0 < priority override e) × (priority override e ≤ p)
    unfolding PassedBy
    below i e at b (lower o l) = (o, best.top i e at b l)
    below i e at b (next k' c l q) = absurd (passed k' i e c l at b q)

    lower-Offered :
        (d : ℕ) (n : Next override gpt.current_priority 0 p (table gpt) d)
        → Offered gpt d n.chosen.entry
    lower-Offered d n = record {
      here = n.chosen.here;
      bootable = n.chosen.bootable;
      remaining =
          lower (omega (arith, n.over, n.chosen.priority_is))
            (omega (arith, n.under, n.chosen.priority_is));
      highest = λ i' e' at b r. omega (arith, (below i' e' at b r).1, n.chosen.priority_is);
      first = λ i' e' at b r q. First-le n.chosen i' e' at b (q ∙ n.chosen.priority_is);
    }

    none-Remaining :
        p ≡ 0
        → (i : ℕ) (e : GptEntry) → get_elem? (table gpt) i ≡ some e
        → Bootable override e
        → ¬ Remaining gpt (priority override e) i
    none-Remaining z i e at b r = let (o, l) = below i e at b r in omega (arith, z, o, l)

  -- What the first loop tells.
  Scan : GptData → Option ℕ → Type 0
  Scan gpt none = PassedBy gpt
  Scan gpt (some i) =
      (e : GptEntry) × Offered gpt i e × (priority override e ≡ gpt.current_priority)

  Same-Scan :
      (gpt : GptData) (k : ℕ) (r : Option ℕ)
      → gpt.current_kernel ≡ some k
      → Same override gpt.current_priority (k + 1) (drop (k + 1) (table gpt)) r
      → Scan gpt r
  unfolding Scan Same PassedBy Empty
  Same-Scan gpt k none c s = λ k' i e c' l at b.
      let same : k ≡ k' = ground (arith, c, c') in
      let l' : k < i = ground (arith, same, l) in s (i - (k + 1)) e (after gpt k i l' ∙ at) b
  Same-Scan gpt k (some j) c (d, j_is, f) = (
    f.entry,
    subst (λ i. Offered gpt i f.entry) (sym j_is) (same-Offered gpt k d c f),
    f.priority_is,
  )

  same_priority-Scan :
      (gpt : GptData) (ck : Option ℕ)
      → gpt.current_kernel ≡ ck
      → Scan gpt (same_priority override gpt ck)
  unfolding same_priority Scan PassedBy
  same_priority-Scan gpt none c = λ k i e c' l at b. absurd (ground (arith, c, c'))
  same_priority-Scan gpt (some k) c =
      Same-Scan gpt k (find_same override gpt.current_priority (k + 1) (drop (k + 1) (table gpt))) c
        (find_same_lem override gpt.current_priority (k + 1) (drop (k + 1) (table gpt)))

  found-extent :
      (gpt : GptData) (i : ℕ) (e : GptEntry)
      → get_elem? (table gpt) i ≡ some e
      → found override gpt (some i) ≡ ok (extent e)
  unfolding found
  found-extent gpt i e at = rw (at, found) refl

  -- An offer, with what is stored and returned written another way.
  offered :
      (gpt : GptData) (i : ℕ) (e : GptEntry) (p : ℕ) (k : Option ℕ)
      → k ≡ some i
      → Offered gpt i e
      → priority override e ≡ p
      → Outcome gpt (record gpt { current_kernel = k; current_priority = p }) (found override gpt k)
  offered gpt i e p k k_is o q =
      subst
        (λ k.
          Outcome gpt (record gpt { current_kernel = k; current_priority = p })
            (found override gpt k))
        (sym k_is)
        (subst₂
          (λ p r. Outcome gpt (record gpt { current_kernel = some i; current_priority = p }) r) q
          (sym (found-extent gpt i e o.here)) (offer i e o))

  next_lower_lem :
      (gpt : GptData) → PassedBy gpt → let r = next_lower override gpt in Outcome gpt r.0 r.1
  unfolding next_lower found
  next_lower_lem gpt passed =
      let best = find_best_lem override gpt.current_priority none 0 0 (table gpt) in
      elim best.choice [
        | inl (e, f) ↦ rw (e, f) (exhausted (none-Remaining gpt passed best f))
        | inr (d, e, n) ↦
            offered gpt d n.chosen.entry _ _ (e ∙ ap some (omega arith))
              (lower-Offered gpt passed best d n) n.chosen.priority_is
      ]

  -- A call of GptNextKernelEntry offers the first of the bootable kernels of highest priority that
  -- remain, returns its extent and makes it the current one; or no kernel remains, and the call
  -- returns GPT_ERROR_NO_VALID_KERNEL and sets the current priority to 0. A kernel remains if its
  -- priority is below the current one and not 0, or it is the current one and the kernel stands
  -- after the current kernel.
  pub gpt_next_kernel_entry_lem :
      (gpt : GptData) → let r = gpt_next_kernel_entry override gpt in Outcome gpt r.0 r.1
  unfolding gpt_next_kernel_entry step Scan
  gpt_next_kernel_entry_lem gpt =
      first (same_priority override gpt gpt.current_kernel)
        (same_priority-Scan gpt gpt.current_kernel refl)
    where
      first : (r : Option ℕ) → Scan gpt r → let s = step override gpt r in Outcome gpt s.0 s.1
      first none s = next_lower_lem gpt s
      first (some i) (e, o, q) = offered gpt i e gpt.current_priority (some i) refl o q
