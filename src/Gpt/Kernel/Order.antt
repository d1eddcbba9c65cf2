-- ===== src/Gpt/Kernel/Order.antt =====
-- The order in which GptNextKernelEntry offers the kernels.
use cbmc_vboot.Prelude.{
  ℕ, zero, suc, ◌+◌, ◌≤◌, ◌<◌, ◌≡◌, refl, sym, ◌≢◌, ◌⊎◌, inl, inr, true, List, [], ◌∷◌, Option,
  none, some, ltb, leb, ◌==◌, Bool-cases, take, get_elem?, arith,
}
use cbmc_vboot.Gpt.{GptEntry, is_kernel_entry}
use cbmc_vboot.Gpt.Attributes.{get_entry_priority}
use cbmc_vboot.Gpt.Kernel.{may_boot, find_same, find_best}

module _ (override : GptEntry → ℕ) where
  abbrev pub priority : GptEntry → ℕ
  priority = get_entry_priority override

  -- A kernel that may be booted.
  pub record Bootable (e : GptEntry) : Type 0 where
    pub kernel : is_kernel_entry e ≡ true
    pub allowed : may_boot e ≡ true

  -- No kernel of priority `p` in the list.
  unfoldable pub Empty : ℕ → List GptEntry → Type 0
  Empty p es = (d : ℕ) (e : GptEntry) → get_elem? es d ≡ some e → Bootable e → priority e ≢ p

  -- At distance `d`, the first kernel of priority `p`.
  pub record First (p : ℕ) (es : List GptEntry) (d : ℕ) : Type 0 where
    pub entry : GptEntry
    pub here : get_elem? es d ≡ some entry
    pub bootable : Bootable entry
    pub priority_is : priority entry ≡ p
    pub before : Empty p (take d es)

  -- The head of a list is not a kernel of priority `p`.
  Passed : ℕ → GptEntry → Type 0
  Passed p e = Bootable e → priority e ≢ p

  Empty-∷ : (p : ℕ) (x : GptEntry) (es : List GptEntry) → Passed p x → Empty p es → Empty p (x ∷ es)
  unfolding Empty Passed
  Empty-∷ p x es h t zero e at b = ground (arith, h)
  Empty-∷ p x es h t (suc d) e at b = t d e at b

  First-∷ :
      {p : ℕ} {es : List GptEntry} {d : ℕ} (x : GptEntry)
      → Passed p x
      → First p es d
      → First p (x ∷ es) (suc d)
  First-∷ {p} {es} {d} x h f = record {
    entry = f.entry;
    here = f.here;
    bootable = f.bootable;
    priority_is = f.priority_is;
    before = Empty-∷ p x (take d es) h f.before;
  }

  -- What the first loop gives.
  unfoldable pub Same : ℕ → ℕ → List GptEntry → Option ℕ → Type 0
  unfolding Empty
  Same p i es none = Empty p es
  Same p i es (some j) = (d : ℕ) × (j ≡ i + d) × First p es d

  Same-∷ :
      (p i : ℕ) (x : GptEntry) (es : List GptEntry) (r : Option ℕ)
      → Passed p x
      → Same p (i + 1) es r
      → Same p i (x ∷ es) r
  unfolding Same
  Same-∷ p i x es none h s = Empty-∷ p x es h s
  Same-∷ p i x es (some j) h (d, e, f) = (suc d, ground arith, First-∷ x h f)

  none_at : (d : ℕ) {e : GptEntry} → get_elem? {A = GptEntry} [] d ≡ some e → ⊥
  none_at zero h = cc
  none_at (suc d) h = cc

  First-here :
      (p : ℕ) (x : GptEntry) (es : List GptEntry) → Bootable x → priority x ≡ p → First p (x ∷ es) 0
  unfolding Empty
  First-here p x es b q = record {
    entry = x;
    here = refl;
    bootable = b;
    priority_is = q;
    before = λ d e at. absurd (none_at d at);
  }

  pub find_same_lem : (p i : ℕ) (es : List GptEntry) → Same p i es (find_same override p i es)
  unfolding find_same Same Passed Empty
  find_same_lem p i [] = λ d e at b. absurd (none_at d at)
  find_same_lem p i (x ∷ es) =
      let rest = find_same_lem p (i + 1) es in
      let passed = Same-∷ p i x es (find_same override p (i + 1) es) in
      elim (Bool-cases (is_kernel_entry x)) [
        | inr k ↦ rw k (passed (λ b. ground (arith, k, b)) rest)
        | inl k ↦ elim (Bool-cases (may_boot x)) [
          | inr m ↦ rw (k, m) (passed (λ b. ground (arith, m, b)) rest)
          | inl m ↦ elim (Bool-cases (priority x == p)) [
            | inr q ↦ rw (k, m, q) (passed (λ b. ground arith) rest)
            | inl q ↦
                rw (k, m, q)
                  ((
                    0,
                    ground arith,
                    First-here p x es (record { kernel = k; allowed = m }) (ground arith),
                  ))
          ]
        ]
      ]

  -- A kernel that the second loop takes into account, and one it takes.
  pub record Next (limit above p : ℕ) (es : List GptEntry) (d : ℕ) : Type 0 where
    pub chosen : First p es d
    pub under : p < limit
    pub over : above < p

  -- What the second loop gives, from a choice `k0` of priority `p0`.
  pub record Best (limit : ℕ) (k0 : Option ℕ) (p0 i : ℕ) (es : List GptEntry) (k : Option ℕ) (p : ℕ)
      : Type 0 where
    pub grows : p0 ≤ p
    pub top :
        (d : ℕ) (e : GptEntry)
        → get_elem? es d ≡ some e
        → Bootable e
        → priority e < limit
        → priority e ≤ p
    pub choice : ((k ≡ k0) × (p ≡ p0)) ⊎ ((d : ℕ) × (k ≡ some (i + d)) × Next limit p0 p es d)

  -- The head is not taken.
  Skipped : ℕ → ℕ → GptEntry → Type 0
  Skipped limit p0 x = Bootable x → priority x < limit → priority x ≤ p0

  Best-skip :
      {limit : ℕ} {k0 : Option ℕ} {p0 i : ℕ} {es : List GptEntry} {k : Option ℕ} {p : ℕ}
      (x : GptEntry)
      → Skipped limit p0 x
      → Best limit k0 p0 (i + 1) es k p
      → Best limit k0 p0 i (x ∷ es) k p
  unfolding Skipped Passed
  Best-skip {limit} {k0} {p0} {i} {es} {k} {p} x h b = record {
    grows = b.grows;
    top = top_of;
    choice = elim b.choice [
      | inl e ↦ inl e
      | inr (d, e, n) ↦ inr (
        suc d,
        ground arith,
        record { chosen = First-∷ x (passed d n) n.chosen; under = n.under; over = n.over },
      )
    ];
  }
    where
      passed : (d : ℕ) → Next limit p0 p es d → Passed p x
      passed d n c = ground (arith, h c, n.under, n.over)

      top_of :
          (d : ℕ) (e : GptEntry)
          → get_elem? (x ∷ es) d ≡ some e
          → Bootable e
          → priority e < limit
          → priority e ≤ p
      top_of zero e at c l = ground (arith, h, b.grows)
      top_of (suc d) e at c l = b.top d e at c l

  Best-take :
      {limit : ℕ} (k0 : Option ℕ) (p0 : ℕ) {i : ℕ} {es : List GptEntry} {k : Option ℕ} {p : ℕ}
      (x : GptEntry)
      → Bootable x
      → priority x < limit
      → p0 < priority x
      → Best limit (some i) (priority x) (i + 1) es k p
      → Best limit k0 p0 i (x ∷ es) k p
  unfolding Passed
  Best-take {limit} k0 p0 {i} {es} {k} {p} x c l o b = record {
    grows = omega (arith, b.grows);
    top = top_of;
    choice = elim b.choice [
      | inl (e, f) ↦ inr (
        0,
        ground arith,
        record { chosen = First-here p x es c (sym f); under = ground arith; over = ground arith },
      )
      | inr (d, e, n) ↦ inr (
        suc d,
        ground arith,
        record {
          chosen = First-∷ x (passed d n) n.chosen;
          under = n.under;
          over = omega (arith, n.over);
        },
      )
    ];
  }
    where
      passed : (d : ℕ) → Next limit (priority x) p es d → Passed p x
      passed d n c' = omega (arith, n.over)

      top_of :
          (d : ℕ) (e : GptEntry)
          → get_elem? (x ∷ es) d ≡ some e
          → Bootable e
          → priority e < limit
          → priority e ≤ p
      top_of zero e at c' l' = ground (arith, b.grows)
      top_of (suc d) e at c' l' = b.top d e at c' l'

  pub find_best_lem :
      (limit : ℕ) (k0 : Option ℕ) (p0 i : ℕ) (es : List GptEntry)
      → let r = find_best override limit k0 p0 i es in Best limit k0 p0 i es r.0 r.1
  unfolding find_best Skipped
  find_best_lem limit k0 p0 i [] = record {
    grows = ground arith;
    top = λ d e at. absurd (none_at d at);
    choice = inl (refl, refl);
  }
  find_best_lem limit k0 p0 i (x ∷ es) =
      let skip = λ (h : Skipped limit p0 x). Best-skip x h (find_best_lem limit k0 p0 (i + 1) es) in
      let taken = find_best_lem limit (some i) (priority x) (i + 1) es in
      elim (Bool-cases (is_kernel_entry x)) [
        | inr k ↦ rw (k) (skip (λ b l. ground (arith, k, b)))
        | inl k ↦ elim (Bool-cases (may_boot x)) [
          | inr m ↦ rw (k, m) (skip (λ b l. ground (arith, m, b)))
          | inl m ↦ elim (Bool-cases (leb limit (priority x))) [
            | inl q ↦ rw (k, m, q) (skip (λ b l. ground (arith, q, l)))
            | inr q ↦ elim (Bool-cases (ltb p0 (priority x))) [
              | inr o ↦ rw (k, m, q, o) (skip (λ b l. ground (arith, o)))
              | inl o ↦
                  rw (k, m, q, o)
                    (Best-take k0 p0 x (record { kernel = k; allowed = m }) (ground arith)
                      (ground arith) taken)
            ]
          ]
        ]
      ]
