-- ===== src/Sched/Strategies/Applying.antt =====
-- mvgal_scheduler_apply_strategy as the strategy of the scheduler's loop.
use mvgal.Base.{
  ℕ, refl, ap, ◌∙◌, Bool, Option, none, some, List, [], ◌∷◌, ltb, ◌==◌, if_elim, update, not,
}
use mvgal.Status.{Status}
use mvgal.Sched.Types.{Workload, Heap}
use mvgal.Sched.State.{Strategy}
use mvgal.Sched.Settings.{
  Distribution, afr, sfr, task, compute_offload, hybrid, single_gpu, auto, custom,
}
use mvgal.Sched.Gpus.{Gpus, assign_best, max_gpus}
use mvgal.Sched.Gpus.Assigning.{Assigned, update-Assigned, assign_best-Assigned, afr-Assigned}
use mvgal.Sched.Frames.{SplitFloats}
use mvgal.Sched.Frames.Distribute.{
  FrameData, Distributed, usable_from, with_gpus, split_among, distribute_sfr,
}
use mvgal.Sched.Strategies.Hybrid.{
  pick_offload, distribute_compute_offload, hybrid_select_strategy, dispatch, distribute_hybrid,
}
use mvgal.Sched.Strategies.{
  StrategyState, assign_task, pick_task, distribute_task, best, resolved, apply_selected,
  apply_strategy,
}

-- Between two heaps only the assignment of GPUs to blocks differs.
abbrev pub AllAssigned : Heap → Heap → Type 0
AllAssigned h h' = (y : ℕ) → Assigned (h y) (h' y)

Assigned-trans : (u v w : Workload) → Assigned u v → Assigned v w → Assigned u w
Assigned-trans u v w a b =
    b
    ∙ ap {B = Workload}
        (λ (x : Workload). record x {
          assigned_gpu = w.assigned_gpu;
          assigned_gpu_count = w.assigned_gpu_count;
          assigned_gpus = w.assigned_gpus;
        })
        a

module _ {F : Type 0} (fl : SplitFloats F) (g : Gpus F) (dynamic_load_balance : Bool)
    (calloc : ℕ → Bool) where
  assign_task-Assigned :
      (h : Heap) (w : ℕ) (o : Option ℕ) → AllAssigned h (assign_task fl.base h w o)
  assign_task-Assigned h w none y = refl
  assign_task-Assigned h w (some i) y = update-Assigned h w _ refl y

  task-Assigned : (h : Heap) (w : ℕ) → AllAssigned h (distribute_task fl.base g h w).1
  unfolding distribute_task
  task-Assigned h w y =
      if_elim (λ (o : Status × Heap). Assigned (h y) (o.1 y)) (ltb 0 (h w).assigned_gpu_count) _ _
        (λ _. update-Assigned h w _ refl y)
        (λ _. assign_task-Assigned h w (pick_task fl.base g (h w).kind) y)

  split_among-Assigned :
      (choose : Workload → Option ℕ) (ok : Bool) (frames : FrameData) (h : Heap) (w : ℕ)
      (gpus : List ℕ)
      → AllAssigned h (split_among fl choose g dynamic_load_balance ok frames h w gpus).2
  unfolding split_among
  split_among-Assigned choose ok frames h w [] y = assign_best-Assigned h w (choose (h w)) y
  split_among-Assigned choose ok frames h w (first ∷ gpus) y =
      let h1 : Heap = update h w (with_gpus (first ∷ gpus) (h w)) in
      let h2 : Heap = update h1 w (record (h1 w) { assigned_gpu = first }) in
      Assigned-trans (h y) (h1 y) (h2 y) (update-Assigned h w _ refl y)
        (update-Assigned h1 w _ refl y)

  sfr-Assigned :
      (choose : Workload → Option ℕ) (ok : Bool) (frames : FrameData) (h : Heap) (w : ℕ)
      → AllAssigned h (distribute_sfr fl choose g dynamic_load_balance ok frames h w).2
  unfolding distribute_sfr
  sfr-Assigned choose ok frames h w y =
      let Q : Distributed → Type 0 = λ o. Assigned (h y) (o.2 y) in
      if_elim Q (ltb 0 (h w).assigned_gpu_count) _ _
        (λ _. if_elim Q (not ok) _ _ (λ _. refl) (λ _. update-Assigned h w _ refl y))
        (λ _.
          if_elim Q (g.gpu_count == 0) _ _ (λ _. assign_best-Assigned h w (choose (h w)) y)
            (λ _. split_among-Assigned choose ok frames h w (usable_from g max_gpus 0) y))

  best-Assigned :
      (h : Heap) (w : ℕ)
      → AllAssigned h (assign_best h w (best fl g dynamic_load_balance calloc (h w)))
  best-Assigned h w y = assign_best-Assigned h w _ y

  apply_selected-Assigned :
      (d : Distribution) (s : StrategyState) (h : Heap) (w : ℕ)
      → AllAssigned h (apply_selected fl g dynamic_load_balance calloc d s h w).2
  unfolding apply_selected
  apply_selected-Assigned afr s h w y =
      afr-Assigned (best fl g dynamic_load_balance calloc) s.rotation h w y
  apply_selected-Assigned sfr s h w y =
      sfr-Assigned (best fl g dynamic_load_balance calloc) (calloc w) s.frames h w y
  apply_selected-Assigned task s h w y = task-Assigned h w y
  apply_selected-Assigned compute_offload s h w y = best-Assigned h w y
  apply_selected-Assigned hybrid s h w y = best-Assigned h w y
  apply_selected-Assigned single_gpu s h w y = best-Assigned h w y
  apply_selected-Assigned auto s h w y = refl
  apply_selected-Assigned custom s h w y = refl

  offload-Assigned : (h : Heap) (w : ℕ) → AllAssigned h (distribute_compute_offload fl.base g h w).1
  unfolding distribute_compute_offload
  offload-Assigned h w y =
      if_elim (λ (o : Status × Heap). Assigned (h y) (o.1 y)) (ltb 0 (h w).assigned_gpu_count) _ _
        (λ _. update-Assigned h w _ refl y)
        (λ _. assign_task-Assigned h w (pick_offload fl.base g) y)

  dispatch-Assigned :
      (d : Distribution) (s : StrategyState) (h : Heap) (w : ℕ)
      → AllAssigned h (dispatch fl g dynamic_load_balance calloc d s h w).2
  dispatch-Assigned compute_offload s h w = offload-Assigned h w
  dispatch-Assigned afr s h w = apply_selected-Assigned afr s h w
  dispatch-Assigned sfr s h w = apply_selected-Assigned sfr s h w
  dispatch-Assigned task s h w = apply_selected-Assigned task s h w
  dispatch-Assigned hybrid s h w = apply_selected-Assigned single_gpu s h w
  dispatch-Assigned single_gpu s h w = apply_selected-Assigned single_gpu s h w
  dispatch-Assigned auto s h w = apply_selected-Assigned single_gpu s h w
  dispatch-Assigned custom s h w = apply_selected-Assigned single_gpu s h w

  strategy-Assigned :
      (d : Distribution) (s : StrategyState) (h : Heap) (w : ℕ)
      → AllAssigned h (apply_strategy fl g dynamic_load_balance calloc d s h w).2
  unfolding apply_strategy
  strategy-Assigned d s h w = apply_selected-Assigned (resolved d (h w).kind) s h w

  hybrid-Assigned :
      (s : StrategyState) (h : Heap) (w : Option ℕ)
      → AllAssigned h (distribute_hybrid fl g dynamic_load_balance calloc s h w).2
  unfolding distribute_hybrid
  hybrid-Assigned s h none = λ y. refl
  hybrid-Assigned s h (some w) =
      dispatch-Assigned (hybrid_select_strategy fl.base fl.div g (h w)) s h w

  -- Whatever strategy is configured, or selected for the workload's type, applying it changes of all
  -- blocks at most the assignment of GPUs; and so does the hybrid distribution, whatever it selects.
  pub apply_strategy-AllAssigned :
      (d : Distribution) (s : StrategyState) (h : Heap) (w : ℕ)
      → AllAssigned h (apply_strategy fl g dynamic_load_balance calloc d s h w).2
        × AllAssigned h (distribute_hybrid fl g dynamic_load_balance calloc s h (some w)).2
  apply_strategy-AllAssigned d s h w = (strategy-Assigned d s h w, hybrid-Assigned s h (some w))

  -- The strategy of the loop of mvgal_scheduler_process_internal.
  abbrev pub scheduler_strategy : Distribution → Strategy StrategyState
  scheduler_strategy d = record {
    apply = λ s h w.
        let (status, s', h') = apply_strategy fl g dynamic_load_balance calloc d s h w in
        record { state = s'; heap = h'; status = status };
    assigns = λ s h w. (apply_strategy-AllAssigned d s h w).0;
  }
