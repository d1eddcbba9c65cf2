-- ===== src/Nvstorage/Writes.antt =====
-- A run of calls of vb2_nv_set, and what it leaves.
use cbmc_vboot.Prelude.{
  ℕ, ◌≡◌, refl, ap, ◌∙◌, inl, inr, bit_and, List, [], ◌∷◌, ◌==◌, if◌then◌else◌, Bool-cases,
}
use cbmc_vboot.Prelude.Bits.{flag_other}
use cbmc_vboot.Context.{Context}
use cbmc_vboot.Nvstorage.{NvParam, vb2_nv_get, vb2_nv_set, vb2_nv_regen_crc}
use cbmc_vboot.Nvstorage.Layout.{same}
use cbmc_vboot.Nvstorage.Fields.{stored_value}
use cbmc_vboot.Nvstorage.Fields.Ranges.{IsNv}
use cbmc_vboot.Nvstorage.Laws.{vb2_nv_get-set, vb2_nv_set-IsNv}

abbrev pub writes : Context → List (NvParam × ℕ) → Context
writes ctx [] = ctx
writes ctx ((p, v) ∷ ws) = writes (vb2_nv_set ctx p v) ws

-- The value of `q` after the writes, from its value before.
abbrev pub value_after : List (NvParam × ℕ) → NvParam → ℕ → ℕ
value_after [] q d = d
value_after ((p, v) ∷ ws) q d = value_after ws q (if same p q then stored_value p v else d)

pub writes-IsNv :
    (ctx : Context) (ws : List (NvParam × ℕ)) → IsNv ctx.nvdata → IsNv (writes ctx ws).nvdata
writes-IsNv ctx [] w = w
writes-IsNv ctx ((p, v) ∷ ws) w = writes-IsNv (vb2_nv_set ctx p v) ws (vb2_nv_set-IsNv ctx p v w)

pub get-writes :
    (ctx : Context) (ws : List (NvParam × ℕ)) (q : NvParam)
    → IsNv ctx.nvdata
    → vb2_nv_get (writes ctx ws) q ≡ value_after ws q (vb2_nv_get ctx q)
get-writes ctx [] q w = refl
get-writes ctx ((p, v) ∷ ws) q w =
    get-writes (vb2_nv_set ctx p v) ws q (vb2_nv_set-IsNv ctx p v w)
    ∙ ap (value_after ws q) (vb2_nv_get-set ctx p q v w)

-- The shared data, the secure storage and the flags but the first are left alone.
pub record Untouched (ctx ctx' : Context) : Type 0 where
  pub same_sd : ctx'.sd ≡ ctx.sd
  pub same_secdata : ctx'.secdata ≡ ctx.secdata
  pub same_flags : (m : ℕ) → bit_and 1 m ≡ 0 → bit_and ctx'.flags m ≡ bit_and ctx.flags m

vb2_nv_set-Untouched : (ctx : Context) (p : NvParam) (v : ℕ) → Untouched ctx (vb2_nv_set ctx p v)
unfolding vb2_nv_set vb2_nv_regen_crc
vb2_nv_set-Untouched ctx p v = elim (Bool-cases (vb2_nv_get ctx p == v)) [
  | inl e ↦ record { same_sd = rw e; same_secdata = rw e; same_flags = λ m h. rw e }
  | inr e ↦ record {
    same_sd = rw e;
    same_secdata = rw e;
    same_flags = λ m h. rw e (flag_other ctx.flags 1 m h);
  }
]

pub writes-Untouched : (ctx : Context) (ws : List (NvParam × ℕ)) → Untouched ctx (writes ctx ws)
writes-Untouched ctx [] = record { same_sd = refl; same_secdata = refl; same_flags = λ m h. refl }
writes-Untouched ctx ((p, v) ∷ ws) =
    let first = vb2_nv_set-Untouched ctx p v in
    let rest = writes-Untouched (vb2_nv_set ctx p v) ws in
    record {
      same_sd = rest.same_sd ∙ first.same_sd;
      same_secdata = rest.same_secdata ∙ first.same_secdata;
      same_flags = λ m h. rest.same_flags m h ∙ first.same_flags m h;
    }
