-- ===== src/Sched/Gpus/Assigning.antt =====
-- Alternate frame rendering as the strategy of the scheduler's loop.
use mvgal.Base.{ℕ, ◌≡◌, refl, inl, inr, Option, none, some, update, ltb, ◌==◌, Bool-cases, eq-or-ne}
use mvgal.Sched.Types.{Workload, Heap}
use mvgal.Sched.State.{Strategy}
use mvgal.Sched.Process.Step.{update-hit, update-miss}
use mvgal.Sched.Gpus.{Afr, assign_best, assign_next, distribute_afr, no_gpu}

-- Only the assignment of a block may differ.
abbrev pub Assigned : Workload → Workload → Type 0
Assigned v v' = v' ≡ record v {
  assigned_gpu = v'.assigned_gpu;
  assigned_gpu_count = v'.assigned_gpu_count;
  assigned_gpus = v'.assigned_gpus;
}

pub update-Assigned :
    (h : Heap) (w : ℕ) (v : Workload) → Assigned (h w) v → (y : ℕ) → Assigned (h y) (update h w v y)
update-Assigned h w v e y = elim (eq-or-ne y w) [
  | inl y=w ↦ rw (y=w, update-hit h w v) e
  | inr d ↦ rw (update-miss h w y v d) refl
]

pub assign_best-Assigned :
    (h : Heap) (w : ℕ) (best : Option ℕ) (y : ℕ) → Assigned (h y) (assign_best h w best y)
assign_best-Assigned h w none y = refl
assign_best-Assigned h w (some i) y = update-Assigned h w _ refl y

assign_next-Assigned :
    (h : Heap) (w : ℕ) (best : Option ℕ) (p : ℕ × Afr) (y : ℕ)
    → Assigned (h y) ((assign_next h w best p).1 y)
assign_next-Assigned h w best (i, a) y = elim (Bool-cases (i == no_gpu)) [
  | inl t ↦ rw t (assign_best-Assigned h w best y)
  | inr f ↦ rw f (update-Assigned h w _ refl y)
]

module _ (best : Workload → Option ℕ) where
  pub afr-Assigned :
      (a : Afr) (h : Heap) (w y : ℕ) → Assigned (h y) ((distribute_afr best a h w).1 y)
  unfolding distribute_afr
  afr-Assigned a h w y = elim (Bool-cases (ltb 0 (h w).assigned_gpu_count)) [
    | inl t ↦ rw t (update-Assigned h w _ refl y)
    | inr f ↦ rw f (assign_next-Assigned h w (best (h w)) _ y)
  ]

  -- mvgal_scheduler_apply_strategy where the strategy is alternate frame rendering.
  abbrev pub afr_strategy : Strategy Afr
  afr_strategy = record {
    apply = λ a h w.
        let (status, h', a') = distribute_afr best a h w in
        record { state = a'; heap = h'; status = status };
    assigns = afr-Assigned;
  }
