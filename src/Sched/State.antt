-- ===== src/Sched/State.antt =====
-- The global state of src/userspace/scheduler/scheduler.c, and what the scheduler asks of a
-- distribution strategy.
use mvgal.Base.{ℕ, ◌≡◌, Bool, List}
use mvgal.Status.{Status}
use mvgal.Sched.Types.{Heap, WorkloadQueue}
use mvgal.Sched.Queue.{Linked}

-- mvgal_scheduler_stats_t, as far as the scheduler counts
pub record Stats : Type 0 where
  pub submitted : ℕ
  pub completed : ℕ
  pub failed : ℕ

-- A call of a workload's callback: the callback, the workload, the result.
pub record Call : Type 0 where
  pub callback : ℕ
  pub workload : ℕ
  pub result : Status

-- mvgal_scheduler_state_t with the workloads it points to. `strategy_state` holds the configuration,
-- the GPUs and the state of the strategies; `called` lists the calls of callbacks, the last first;
-- `readings` counts the readings of the clock.
pub record Scheduler (S : Type 0) : Type 0 where
  pub heap : Heap
  pub ready : WorkloadQueue
  pub initialized : Bool
  pub paused : Bool
  pub thread_running : Bool
  pub next_workload_id : ℕ
  pub stats : Stats
  pub strategy_state : S
  pub called : List Call
  pub readings : ℕ

pub record Applied (S : Type 0) : Type 0 where
  pub state : S
  pub heap : Heap
  pub status : Status

-- mvgal_scheduler_apply_strategy, as the scheduler's loop uses it: only the GPU assignment of
-- workloads changes.
pub record Strategy (S : Type 0) : Type 0 where
  pub apply : S → Heap → ℕ → Applied S
  pub assigns :
      (s : S) (h : Heap) (w y : ℕ)
      → (apply s h w).heap y ≡ record (h y) {
        assigned_gpu = ((apply s h w).heap y).assigned_gpu;
        assigned_gpu_count = ((apply s h w).heap y).assigned_gpu_count;
        assigned_gpus = ((apply s h w).heap y).assigned_gpus;
      }

-- The scheduler with the store and the ready queue of a queue operation.
abbrev pub relink : {S : Type 0} → Scheduler S → Linked → Scheduler S
relink s l = record s { heap = l.heap; ready = l.queue }
