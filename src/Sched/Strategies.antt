-- ===== src/Sched/Strategies.antt =====
-- The distribution strategies of src/userspace/scheduler together: the task mapping of strategy/task.c,
-- and the switch of mvgal_scheduler_apply_strategy in scheduler.c.
pub mod Applying
pub mod Picking
pub mod Hybrid
use mvgal.Base.{
  ℕ, zero, suc, ◌+◌, ◌/◌, ◌%◌, ◌^◌, Bool, true, false, not, ◌&&◌, ◌||◌, Option, none, some, List,
  [], ◌∷◌, ltb, ◌==◌, if◌then◌else◌, update,
}
use mvgal.Status.{Status, success, not_supported}
use mvgal.Sched.Types.{
  Workload, WorkloadType, graphics, compute, video, ai, trace, transfer, other, Heap,
}
use mvgal.Sched.Settings.{
  Distribution, afr, sfr, task, compute_offload, hybrid, single_gpu, auto, custom,
}
use mvgal.Sched.Gpus.{
  Floats, Gpu, Gpus, Afr, in_mask, assign_best, best_status, find_best_gpu, distribute_afr,
}
use mvgal.Sched.Frames.{SplitFloats}
use mvgal.Sched.Frames.Distribute.{FrameData, Distributed, distribute_sfr}

-- task_type_mapping_t, less the memory weight, which nobody reads; `required` lists the bits of the
-- features.
pub record TaskMapping (F : Type 0) : Type 0 where
  pub required : List ℕ
  pub compute_weight : F
  pub graphics_weight : F

-- All bits of the list are set.
abbrev pub has_bits : ℕ → List ℕ → Bool
has_bits features [] = true
has_bits features (b ∷ bs) = in_mask features b && has_bits features bs

module _ {F : Type 0} (fl : Floats F) where
  -- g_task_mappings with get_task_mapping, and the first entry for a type that is not in it.
  abbrev pub get_task_mapping : WorkloadType → TaskMapping F
  get_task_mapping graphics = record {
    required = 4 ∷ [];
    compute_weight = fl.lit 2 10;
    graphics_weight = fl.lit 7 10;
  }
  get_task_mapping compute = record {
    required = 5 ∷ [];
    compute_weight = fl.lit 8 10;
    graphics_weight = fl.lit 1 10;
  }
  get_task_mapping video = record {
    required = 6 ∷ 7 ∷ [];
    compute_weight = fl.lit 5 10;
    graphics_weight = fl.lit 3 10;
  }
  get_task_mapping ai = record {
    required = 8 ∷ [];
    compute_weight = fl.lit 9 10;
    graphics_weight = fl.lit 0 1;
  }
  get_task_mapping trace = record {
    required = 9 ∷ [];
    compute_weight = fl.lit 6 10;
    graphics_weight = fl.lit 4 10;
  }
  get_task_mapping transfer = record {
    required = [];
    compute_weight = fl.lit 1 10;
    graphics_weight = fl.lit 1 10;
  }
  get_task_mapping other = record {
    required = 4 ∷ [];
    compute_weight = fl.lit 2 10;
    graphics_weight = fl.lit 7 10;
  }

  -- What priority and utilization add to a score and take from it.
  abbrev pub adjusted : Gpu F → F → F
  adjusted u score =
      fl.sub (fl.add score (fl.mul (fl.of_u32 u.priority) (fl.lit 1 100)))
        (fl.mul u.utilization (fl.lit 50 1))

  -- The score of a GPU for a task.
  abbrev pub task_score : TaskMapping F → Gpu F → F
  task_score m u = adjusted u (
      fl.add (fl.add (fl.lit 0 1) (fl.mul u.compute_score m.compute_weight))
        (fl.mul u.graphics_score m.graphics_weight))

  -- The score without a mapping.
  abbrev pub any_score : Gpu F → F
  any_score u =
      adjusted u
        (fl.add (fl.mul u.compute_score (fl.lit 5 10)) (fl.mul u.graphics_score (fl.lit 5 10)))

  abbrev pub is_usable : Gpu F → Bool
  is_usable u = not (not u.available || not u.enabled)

  -- A search over the GPUs from `i` on, with `n` to go.
  unfoldable pub search_from :
      (Gpu F → Bool) → (Gpu F → F) → (ℕ → Gpu F) → ℕ → ℕ → F → Option ℕ → Option ℕ
  search_from suits score gpus zero i best_score best = best
  search_from suits score gpus (suc n) i best_score best =
      let better : Bool = suits (gpus i) && fl.gt (score (gpus i)) best_score in
      search_from suits score gpus n (suc i) (if better then score (gpus i) else best_score)
        (if better then some i else best)

  -- The fallback to any GPU.
  abbrev pub or_any : Gpus F → Option ℕ → Option ℕ
  or_any g none =
      search_from is_usable any_score g.gpus g.gpu_count 0 (fl.negative (fl.lit 1000 1)) none
  or_any g (some i) = some i

  -- The GPU for a task.
  unfoldable pub pick_task : Gpus F → WorkloadType → Option ℕ
  pick_task g kind =
      let m : TaskMapping F = get_task_mapping kind in
      or_any g (
        search_from (λ u. is_usable u && has_bits u.features m.required) (task_score m) g.gpus
          g.gpu_count 0 (fl.negative (fl.lit 1000 1)) none)

  abbrev pub assign_task : Heap → ℕ → Option ℕ → Heap
  assign_task h w none = h
  assign_task h w (some i) = update h w (record (h w) {
    assigned_gpu = i;
    assigned_gpu_count = 1;
    assigned_gpus = update (h w).assigned_gpus 0 i;
  })

  -- mvgal_scheduler_distribute_task
  unfoldable pub distribute_task : Gpus F → Heap → ℕ → Status × Heap
  distribute_task g h w =
      if ltb 0 (h w).assigned_gpu_count
      then (success, update h w (record (h w) { assigned_gpu = (h w).assigned_gpus 0 }))
      else (best_status (pick_task g (h w).kind), assign_task h w (pick_task g (h w).kind))

-- The state of the strategies.
pub record StrategyState : Type 0 where
  pub rotation : Afr
  pub frames : FrameData

-- The strategy that AUTO selects for a type.
abbrev pub auto_for : WorkloadType → Distribution
auto_for graphics = afr
auto_for compute = compute_offload
auto_for video = sfr
auto_for ai = single_gpu
auto_for trace = single_gpu
auto_for transfer = single_gpu
auto_for other = single_gpu

abbrev pub resolved : Distribution → WorkloadType → Distribution
resolved auto kind = auto_for kind
resolved d kind = d

module _ {F : Type 0} (fl : SplitFloats F) (g : Gpus F) (dynamic_load_balance : Bool)
    (calloc : ℕ → Bool) where
  abbrev pub best : Workload → Option ℕ
  best v = find_best_gpu fl.base g v

  abbrev pub after_afr : StrategyState → Status × Heap × Afr → Status × StrategyState × Heap
  after_afr s (st, h, a) = (st, record s { rotation = a }, h)

  abbrev pub after_sfr : StrategyState → Distributed → Status × StrategyState × Heap
  after_sfr s (st, frames, h) = (st, record s { frames = frames }, h)

  abbrev pub after_task : StrategyState → Status × Heap → Status × StrategyState × Heap
  after_task s (st, h) = (st, s, h)

  -- The second switch, by the strategy that was selected.
  unfoldable pub apply_selected :
      Distribution → StrategyState → Heap → ℕ → Status × StrategyState × Heap
  apply_selected afr s h w = after_afr s (distribute_afr best s.rotation h w)
  apply_selected sfr s h w =
      after_sfr s (distribute_sfr fl best g dynamic_load_balance (calloc w) s.frames h w)
  apply_selected task s h w = after_task s (distribute_task fl.base g h w)
  apply_selected compute_offload s h w = (best_status (best (h w)), s, assign_best h w (best (h w)))
  apply_selected hybrid s h w = (best_status (best (h w)), s, assign_best h w (best (h w)))
  apply_selected single_gpu s h w = (best_status (best (h w)), s, assign_best h w (best (h w)))
  apply_selected auto s h w = (not_supported, s, h)
  apply_selected custom s h w = (not_supported, s, h)

  -- mvgal_scheduler_apply_strategy
  unfoldable pub apply_strategy :
      Distribution → StrategyState → Heap → ℕ → Status × StrategyState × Heap
  apply_strategy strategy s h w = apply_selected (resolved strategy (h w).kind) s h w
