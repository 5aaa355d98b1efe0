-- ===== src/Sched/Strategies/Hybrid.antt =====
-- src/userspace/scheduler/strategy/compute_offload.c and strategy/hybrid.c.
use mvgal.Base.{
  ℕ, zero, suc, ◌+◌, ◌/◌, ◌%◌, ◌^◌, Bool, true, false, not, ◌&&◌, Option, none, some, ltb, leb,
  ◌==◌, if◌then◌else◌, update,
}
use mvgal.Status.{Status, success, invalid_argument}
use mvgal.Sched.Types.{Workload, WorkloadType, graphics, compute, video, ai, Heap}
use mvgal.Sched.Settings.{Distribution, afr, sfr, task, compute_offload, single_gpu}
use mvgal.Sched.Gpus.{Floats, Gpu, Gpus, no_gpu, in_mask, best_status}
use mvgal.Sched.Frames.{SplitFloats}
use mvgal.Sched.Strategies.{
  is_usable, search_from, assign_task, StrategyState, after_task, apply_selected,
}

module _ {F : Type 0} (fl : Floats F) where
  -- The score of a GPU for a computation.
  abbrev pub adjusted_score : Gpu F → F
  adjusted_score u = fl.mul u.compute_score (fl.sub (fl.lit 1 1) u.utilization)

  -- MVGAL_FEATURE_COMPUTE
  abbrev pub can_compute : Gpu F → Bool
  can_compute u = is_usable fl u && in_mask u.features 5

  -- The second loop, which runs where the first found no GPU.
  abbrev pub or_usable : Gpus F → Option ℕ → Option ℕ
  or_usable g none =
      search_from fl (is_usable fl) adjusted_score g.gpus g.gpu_count 0 (fl.negative (fl.lit 1 1))
        none
  or_usable g (some i) = some i

  -- The GPU for a computation.
  unfoldable pub pick_offload : Gpus F → Option ℕ
  pick_offload g = or_usable g (
      search_from fl can_compute adjusted_score g.gpus g.gpu_count 0 (fl.negative (fl.lit 1 1))
        none)

  -- mvgal_scheduler_distribute_compute_offload
  unfoldable pub distribute_compute_offload : Gpus F → Heap → ℕ → Status × Heap
  unfolding pick_offload
  distribute_compute_offload g h w =
      if ltb 0 (h w).assigned_gpu_count
      then (success, update h w (record (h w) { assigned_gpu = (h w).assigned_gpus 0 }))
      else (best_status (pick_offload g), assign_task fl h w (pick_offload g))

  -- g_hybrid_criteria: the threshold of the utilization, by default that of graphics.
  abbrev pub utilization_threshold : WorkloadType → F
  utilization_threshold compute = fl.lit 8 10
  utilization_threshold video = fl.lit 6 10
  utilization_threshold _ = fl.lit 7 10

  -- __builtin_popcount, of the `n` lowest bits
  abbrev pub popcount : ℕ → ℕ → ℕ
  popcount zero mask = 0
  popcount (suc n) mask = mask % 2 + popcount n (mask / 2)

  -- The sum of the utilizations of the GPUs in use, and their number.
  pub record Load : Type 0 where
    pub total : F
    pub active : ℕ

  unfoldable pub load_from : (ℕ → Gpu F) → ℕ → ℕ → Load → Load
  load_from gpus zero i l = l
  load_from gpus (suc n) i l = load_from gpus n (suc i) (
      if (gpus i).available && (gpus i).enabled
      then record { total = fl.add l.total (gpus i).utilization; active = (l.active + 1) % 2 ^ 32 }
      else l)

  -- The strategy by the utilization: `low` says that it is low and several GPUs are in use.
  abbrev pub by_load : Bool → WorkloadType → Distribution
  by_load true graphics = afr
  by_load true _ = sfr
  by_load false compute = compute_offload
  by_load false ai = compute_offload
  by_load false _ = single_gpu

  -- hybrid_select_strategy for a workload; `div` is the division of floats.
  unfoldable pub hybrid_select_strategy : (F → F → F) → Gpus F → Workload → Distribution
  unfolding load_from
  hybrid_select_strategy div g w =
      let l : Load = load_from g.gpus g.gpu_count 0 (record { total = fl.lit 0 1; active = 0 }) in
      let average : F = if ltb 0 l.active then div l.total (fl.of_u32 l.active) else l.total in
      if ltb 1 w.assigned_gpu_count
      then afr
      else if not (w.gpu_mask == no_gpu) && ltb 1 (popcount 32 w.gpu_mask)
      then sfr
      else by_load (fl.gt (utilization_threshold w.kind) average && leb 2 l.active) w.kind

module _ {F : Type 0} (fl : SplitFloats F) (g : Gpus F) (dynamic_load_balance : Bool)
    (calloc : ℕ → Bool) where
  -- The switch of mvgal_scheduler_distribute_hybrid.
  abbrev pub dispatch : Distribution → StrategyState → Heap → ℕ → Status × StrategyState × Heap
  dispatch afr s h w = apply_selected fl g dynamic_load_balance calloc afr s h w
  dispatch sfr s h w = apply_selected fl g dynamic_load_balance calloc sfr s h w
  dispatch task s h w = apply_selected fl g dynamic_load_balance calloc task s h w
  dispatch compute_offload s h w =
      after_task fl g dynamic_load_balance calloc s (distribute_compute_offload fl.base g h w)
  dispatch _ s h w = apply_selected fl g dynamic_load_balance calloc single_gpu s h w

  -- mvgal_scheduler_distribute_hybrid
  unfoldable pub distribute_hybrid : StrategyState → Heap → Option ℕ → Status × StrategyState × Heap
  unfolding hybrid_select_strategy distribute_compute_offload
  distribute_hybrid s h none = (invalid_argument, s, h)
  distribute_hybrid s h (some w) = dispatch (hybrid_select_strategy fl.base fl.div g (h w)) s h w
