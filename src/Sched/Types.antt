-- ===== src/Sched/Types.antt =====
-- The workloads of src/userspace/scheduler/scheduler_internal.h, on a heap of addresses. NULL is
-- `none`. Fields that no code of the scheduler reads are left out.
use mvgal.Base.{ℕ, Bool, Option, ◌^◌, update}
use mvgal.Status.{Status}

-- mvgal_workload_state_t
pub data WorkloadState : Type 0 where
  pending queued running completed failed cancelled : WorkloadState

-- mvgal_workload_type_t; `other` stands for the values that no switch names.
pub data WorkloadType : Type 0 where
  graphics compute video ai trace transfer other : WorkloadType

-- struct mvgal_workload. `freed` marks a block that was given to free().
pub record Workload : Type 0 where
  pub refcount : ℕ
  pub state : WorkloadState
  pub id : ℕ
  pub kind : WorkloadType
  pub priority : ℕ
  pub gpu_mask : ℕ
  pub submission_time : ℕ
  pub deadline : ℕ
  pub assigned_gpu : ℕ
  pub descriptor_completed : Bool
  pub descriptor_result : Status
  pub descriptor_end_time : ℕ
  pub callback : Option ℕ
  pub assigned_gpu_count : ℕ
  pub assigned_gpus : ℕ → ℕ
  pub queue_time : ℕ
  pub end_time : ℕ
  pub completion_signaled : Bool
  pub completion_status : Status
  pub next : Option ℕ
  pub prev : Option ℕ
  pub freed : Bool

abbrev pub Heap : Type 0
Heap = ℕ → Workload

-- mvgal_workload_queue_t
pub record WorkloadQueue : Type 0 where
  pub head : Option ℕ
  pub tail : Option ℕ
  pub count : ℕ
  pub total_priority : ℕ

abbrev pub u32_mod : ℕ
u32_mod = 2 ^ 32

abbrev pub u64_mod : ℕ
u64_mod = 2 ^ 64

-- MVGAL_SCHEDULER_MAX_QUEUED
abbrev pub max_queued : ℕ
max_queued = 1024

-- `w->next = p` and `w->prev = p`
abbrev pub set_next : Heap → ℕ → Option ℕ → Heap
set_next h w p = update h w (record (h w) { next = p })

abbrev pub set_prev : Heap → ℕ → Option ℕ → Heap
set_prev h w p = update h w (record (h w) { prev = p })

-- The same, where the pointer may be NULL and is then not followed.
abbrev pub set_next? : Heap → Option ℕ → Option ℕ → Heap
set_next? h Option.none p = h
set_next? h (Option.some w) p = set_next h w p

abbrev pub set_prev? : Heap → Option ℕ → Option ℕ → Heap
set_prev? h Option.none p = h
set_prev? h (Option.some w) p = set_prev h w p

-- `p == NULL ? a : b`
abbrev pub if_null : Option ℕ → Option ℕ → Option ℕ → Option ℕ
if_null Option.none a b = a
if_null (Option.some w) a b = b
