-- ===== src/Sched/Settings.antt =====
-- The configuration calls of src/userspace/scheduler/scheduler.c, and the manual assignment of GPUs.
pub mod Assignment
pub mod Configure
use mvgal.Base.{
  ℕ, zero, suc, ◌+◌, ◌^◌, Bool, true, false, ◌||◌, Option, none, some, List, [], ◌∷◌, length, ltb,
  leb, ◌==◌, if◌then◌else◌, update,
}
use mvgal.Status.{Status, success, invalid_argument}
use mvgal.Sched.Types.{Workload, Heap}
use mvgal.Sched.Gpus.{max_gpus, in_mask}

-- mvgal_distribution_strategy_t; `custom` is every other value, since the switches treat them alike.
pub data Distribution : Type 0 where
  afr sfr task compute_offload hybrid single_gpu auto custom : Distribution

-- mvgal_scheduler_config_t; the threshold is a float.
pub record Config (F : Type 0) : Type 0 where
  pub strategy : Distribution
  pub dynamic_load_balance : Bool
  pub thermal_aware : Bool
  pub power_aware : Bool
  pub load_balance_threshold : F
  pub max_queued_workloads : ℕ
  pub quantum_ns : ℕ

-- What these calls read and write of the global state: the configuration, the priorities that it
-- holds, the priorities of the GPUs, and whether scheduling is paused.
pub record Settings (F : Type 0) : Type 0 where
  pub config : Config F
  pub gpu_priorities : ℕ → ℕ
  pub priorities : ℕ → ℕ
  pub paused : Bool

module _ {F : Type 0} where
  -- mvgal_scheduler_configure
  unfoldable pub configure : Settings F → Option (Config F) → Status × Settings F
  configure s none = (invalid_argument, s)
  configure s (some c) = (
    success,
    record s {
      config = record {
        strategy = c.strategy;
        dynamic_load_balance = c.dynamic_load_balance;
        thermal_aware = c.thermal_aware;
        power_aware = c.power_aware;
        load_balance_threshold = c.load_balance_threshold;
        max_queued_workloads = c.max_queued_workloads;
        quantum_ns = c.quantum_ns;
      };
    },
  )

  -- mvgal_scheduler_get_config, where the caller's pointer is not NULL.
  unfoldable pub get_config : Settings F → Config F
  get_config s = record {
    strategy = s.config.strategy;
    dynamic_load_balance = s.config.dynamic_load_balance;
    thermal_aware = s.config.thermal_aware;
    power_aware = s.config.power_aware;
    load_balance_threshold = s.config.load_balance_threshold;
    max_queued_workloads = s.config.max_queued_workloads;
    quantum_ns = s.config.quantum_ns;
  }

  -- mvgal_scheduler_set_strategy
  unfoldable pub set_strategy : Settings F → Distribution → Settings F
  set_strategy s d = record s { config = record s.config { strategy = d } }

  -- mvgal_scheduler_get_strategy
  unfoldable pub get_strategy : Settings F → Distribution
  get_strategy s = s.config.strategy

  -- mvgal_scheduler_set_gpu_priority
  unfoldable pub set_gpu_priority : Settings F → ℕ → ℕ → Status × Settings F
  set_gpu_priority s i priority =
      if leb max_gpus i || ltb 100 priority then (invalid_argument, s) else (
        success,
        record s {
          gpu_priorities = update s.gpu_priorities i priority;
          priorities = update s.priorities i priority;
        },
      )

  -- mvgal_scheduler_pause
  unfoldable pub pause : Settings F → Settings F
  pause s = record s { paused = true }

  -- mvgal_scheduler_resume
  unfoldable pub resume : Settings F → Settings F
  resume s = record s { paused = false }

-- `mask | (1 << i)`
abbrev pub with_gpu : ℕ → ℕ → ℕ
with_gpu mask i = if in_mask mask i then mask else mask + 2 ^ i

-- One round of the loop of mvgal_workload_assign_gpus.
abbrev pub assign_one : ℕ → ℕ → Workload → Workload
assign_one i gpu w =
    if ltb gpu max_gpus
    then record w {
      assigned_gpus = update w.assigned_gpus i gpu;
      gpu_mask = with_gpu w.gpu_mask gpu;
    }
    else w

-- The loop from entry `i` on.
unfoldable pub assign_from : ℕ → List ℕ → Workload → Workload
assign_from i [] w = w
assign_from i (gpu ∷ gpus) w = assign_from (suc i) gpus (assign_one i gpu w)

-- The assignment where there is only one.
abbrev pub assign_only : List ℕ → Workload → Workload
assign_only (gpu ∷ []) w = record w { assigned_gpu = gpu }
assign_only _ w = w

-- mvgal_workload_assign_gpus, with an array of GPU indices that is not NULL.
unfoldable pub assign_gpus : Heap → Option ℕ → List ℕ → Status × Heap
assign_gpus h none gpus = (invalid_argument, h)
assign_gpus h (some w) gpus =
    if (length gpus == 0) || ltb max_gpus (length gpus) then (invalid_argument, h) else (
      success,
      update h w (
          assign_only gpus
            (assign_from 0 gpus (record (h w) { assigned_gpu_count = length gpus }))),
    )
