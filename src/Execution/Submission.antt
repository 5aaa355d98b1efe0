-- ===== src/Execution/Submission.antt =====
-- mvgal_execution_submit and mvgal_execution_present of src/userspace/execution/execution.c, with the
-- scheduler's calls that they make. The calls of other threads between the locked parts are left out.
pub mod Changes
pub mod Running
use mvgal.Base.{
  ℕ, zero, suc, ◌+◌, ◌%◌, ◌^◌, Bool, true, false, not, ◌&&◌, ◌||◌, Option, none, some, List, [],
  ◌∷◌, length, set, ltb, ◌==◌, if◌then◌else◌,
}
use mvgal.Status.{Status, success, invalid_argument, not_found}
use mvgal.Sched.Types.{Workload, Heap}
use mvgal.Sched.Queue.{release}
use mvgal.Sched.Settings.{
  Distribution, afr, sfr, task, compute_offload, hybrid, single_gpu, auto, custom,
}
use mvgal.Sched.State.{Scheduler, Strategy}
use mvgal.Sched.Calls as Calls
use mvgal.Sched.Calls.{submit}
use mvgal.Execution.Frames.{
  Api, vulkan, cuda, opencl, d3d11, d3d12, metal, webgpu, Frame, Statistics, Execution, Core,
  u64_mod, BeginInfo, find_frame_state, enter, begin_frame,
}
use mvgal.Execution.Planning.{
  Kind, graphics, scheduled_kind, SubmitInfo, GpuManager, enabled_mask, mask_from,
  normalize_workload_type, estimate_duration_ns, unless_auto, choose_strategy, detect_cross_vendor,
  unknown_vendor, selected_gpus,
}

-- mvgal_execution_plan_t
pub record Plan : Type 0 where
  pub frame_id : ℕ
  pub workload_id : ℕ
  pub api : Api
  pub workload_type : Kind
  pub requested_strategy : Distribution
  pub applied_strategy : Distribution
  pub migration_method : ℕ
  pub selected_gpus : List ℕ
  pub selected_gpu_mask : ℕ
  pub estimated_bytes : ℕ
  pub estimated_duration_ns : ℕ
  pub steam_mode : Bool
  pub proton_mode : Bool
  pub frame_pacing_enabled : Bool
  pub cross_vendor : Bool

-- MVGAL_MEMORY_COPY_CPU
abbrev pub copy_cpu : ℕ
copy_cpu = 0

abbrev pub paces : Distribution → Bool
paces afr = true
paces sfr = true
paces _ = false

-- The method of migration between the first two GPUs.
abbrev pub migration : GpuManager → List ℕ → ℕ
migration m (a ∷ b ∷ gs) = m.copy_method a b
migration m _ = copy_cpu

-- The plan of a submission before the scheduler has it.
unfoldable pub planned : GpuManager → Frame → SubmitInfo → Plan
unfolding choose_strategy normalize_workload_type estimate_duration_ns
planned m frame info =
    let bytes : ℕ = (info.resource_bytes + info.data_size) % u64_mod in
    let applied : Distribution = choose_strategy m frame info in
    record {
      frame_id = frame.frame_id;
      workload_id = 0;
      api = info.api;
      workload_type = normalize_workload_type info;
      requested_strategy = unless_auto info.requested_strategy frame.requested_strategy;
      applied_strategy = applied;
      migration_method = copy_cpu;
      selected_gpus = [];
      selected_gpu_mask = 0;
      estimated_bytes = bytes;
      estimated_duration_ns =
          estimate_duration_ns (normalize_workload_type info) bytes info.command_buffer_count;
      steam_mode = frame.steam_mode;
      proton_mode = frame.proton_mode;
      frame_pacing_enabled = frame.low_latency && paces applied;
      cross_vendor = false;
    }

-- The plan with what the scheduler made of its workload.
unfoldable pub assigned_plan : GpuManager → Plan → Workload → Plan
unfolding selected_gpus detect_cross_vendor
assigned_plan m plan w = record plan {
  workload_id = w.id;
  selected_gpus = selected_gpus m w;
  selected_gpu_mask = mask_from 0 (selected_gpus m w);
  cross_vendor = detect_cross_vendor m unknown_vendor (selected_gpus m w);
  migration_method = migration m (selected_gpus m w);
}

abbrev pub priority_of : SubmitInfo → ℕ
priority_of info = if info.is_present then 95 else if info.is_frame_end then 90 else 70

-- The scheduler's submission for a plan.
abbrev pub workload_info : GpuManager → ℕ → SubmitInfo → Plan → Calls.SubmitInfo
workload_info m now info plan = record {
  kind = scheduled_kind plan.workload_type;
  priority = priority_of info;
  deadline = if info.is_present then (now + 16_000_000) % u64_mod else 0;
  gpu_mask = if info.gpu_mask == 0 then enabled_mask m else info.gpu_mask;
}

-- The counters of the APIs.
abbrev pub count_api : Api → Statistics → Statistics
count_api vulkan s = record s { vulkan_workloads = (s.vulkan_workloads + 1) % u64_mod }
count_api cuda s = record s { cuda_kernels = (s.cuda_kernels + 1) % u64_mod }
count_api opencl s = record s { opencl_kernels = (s.opencl_kernels + 1) % u64_mod }
count_api d3d11 s = record s { d3d_workloads = (s.d3d_workloads + 1) % u64_mod }
count_api d3d12 s = record s { d3d_workloads = (s.d3d_workloads + 1) % u64_mod }
count_api metal s = record s { metal_workloads = (s.metal_workloads + 1) % u64_mod }
count_api webgpu s = record s { webgpu_workloads = (s.webgpu_workloads + 1) % u64_mod }
count_api _ s = s

-- A frame after a submission with this plan.
abbrev pub scheduled_frame : Plan → Frame → Frame
scheduled_frame plan f = record f {
  submit_count = (f.submit_count + 1) % 2 ^ 32;
  bytes_scheduled = (f.bytes_scheduled + plan.estimated_bytes) % u64_mod;
  applied_strategy = plan.applied_strategy;
  selected_gpus = plan.selected_gpus;
}

abbrev pub store : Option (ℕ × Frame) → (Frame → Frame) → List Frame → List Frame
store none change fs = fs
store (some (i, f)) change fs = set fs i (change f)

-- The last locked part of mvgal_execution_submit.
unfoldable pub record_submission : ℕ → Plan → Api → Execution → Execution
record_submission id plan api s = record s {
  frames = store (find_frame_state id s.frames) (scheduled_frame plan) s.frames;
  stats =
      count_api api
        (record s.stats { workloads_distributed = (s.stats.workloads_distributed + 1) % u64_mod });
}

-- A frame for a submission that names none.
abbrev pub begin_info : Core → SubmitInfo → BeginInfo
begin_info core info = record {
  api = info.api;
  requested_strategy = info.requested_strategy;
  steam_mode = core.steam;
  proton_mode = core.proton;
  low_latency = info.is_present;
}

-- The result of a call, the plan as far as it was written, and both states. The fuel of the scheduler's
-- loop may run out.
abbrev pub Outcome : Type 0 → Type 0
Outcome S = Option (Status × Option Plan × Execution × Scheduler S)

module _ {S : Type 0} (clock : ℕ → ℕ) (strategy : Strategy S) (get_strategy : S → Distribution)
    (set_strategy : S → Distribution → S) (m : GpuManager) (core : Core) (now : ℕ) where
  -- mvgal_scheduler_set_strategy
  abbrev pub with_strategy : Distribution → Scheduler S → Scheduler S
  with_strategy d s = record s { strategy_state = set_strategy s.strategy_state d }

  -- What submit_scheduler_workload does with the workload it was given.
  abbrev pub scheduled :
      Plan
      → Distribution
      → Option (Status × Option ℕ × Scheduler S)
      → Option (Status × Plan × Scheduler S)
  scheduled plan previous none = none
  scheduled plan previous (some (success, some w, s)) = some (
    success,
    assigned_plan m plan (s.heap w),
    record (with_strategy previous s) { heap = release s.heap (some w) },
  )
  scheduled plan previous (some (success, none, s)) = some (success, plan, with_strategy previous s)
  scheduled plan previous (some (err, handle, s)) = some (err, plan, with_strategy previous s)

  -- submit_scheduler_workload; `fresh` is the block of the workload.
  unfoldable pub submit_scheduler_workload :
      ℕ → Option ℕ → SubmitInfo → Plan → Scheduler S → Option (Status × Plan × Scheduler S)
  submit_scheduler_workload fuel fresh info plan s =
      let previous : Distribution = get_strategy s.strategy_state in
      scheduled plan previous (
        submit clock strategy fuel (with_strategy plan.applied_strategy s)
          (workload_info m now info plan) none fresh)

  abbrev pub recorded :
      ℕ → SubmitInfo → Execution → Option (Status × Plan × Scheduler S) → Outcome S
  recorded id info x none = none
  recorded id info x (some (success, plan, s)) =
      some (success, some plan, record_submission id plan info.api x, s)
  recorded id info x (some (err, plan, s)) = some (err, some plan, x, s)

  abbrev pub submit_found :
      ℕ → Option ℕ → ℕ → SubmitInfo → Execution → Scheduler S → Option (ℕ × Frame) → Outcome S
  submit_found fuel fresh id info x s none = some (not_found, none, x, s)
  submit_found fuel fresh id info x s (some (i, frame)) =
      recorded id info x (submit_scheduler_workload fuel fresh info (planned m frame info) s)

  -- The part from the first lock on, for a frame's id.
  unfoldable pub submit_for : ℕ → Option ℕ → ℕ → SubmitInfo → Execution → Scheduler S → Outcome S
  unfolding submit_scheduler_workload record_submission planned
  submit_for fuel fresh id info x s =
      submit_found fuel fresh id info x s (find_frame_state id x.frames)

  abbrev pub submit_begun :
      ℕ → Option ℕ → SubmitInfo → Scheduler S → Status × Option ℕ × Execution → Outcome S
  submit_begun fuel fresh info s (success, some id, x) = submit_for fuel fresh id info x s
  submit_begun fuel fresh info s (err, id, x) = some (err, none, x, s)

  abbrev pub submit_entered :
      ℕ → Option ℕ → SubmitInfo → Scheduler S → Status × Option ℕ × Execution → Outcome S
  submit_entered fuel fresh info s (err, none, x) = some (err, none, x, s)
  submit_entered fuel fresh info s (err, some context, x) =
      if info.frame_id == 0
      then submit_begun fuel fresh info s
          (begin_frame core now (some context) (some (begin_info core info)) x)
      else submit_for fuel fresh info.frame_id info x s

  -- mvgal_execution_submit
  unfoldable pub execution_submit :
      ℕ → Option ℕ → Option ℕ → Option SubmitInfo → Execution → Scheduler S → Outcome S
  unfolding submit_for enter begin_frame
  execution_submit fuel fresh context none x s = some (invalid_argument, none, x, s)
  execution_submit fuel fresh context (some info) x s =
      submit_entered fuel fresh info s (enter core context x)

-- The plan of a presented frame.
unfoldable pub present_plan : GpuManager → Api → Frame → Plan
unfolding estimate_duration_ns detect_cross_vendor
present_plan m api f = record {
  frame_id = f.frame_id;
  workload_id = 0;
  api = api;
  workload_type = graphics;
  requested_strategy = f.requested_strategy;
  applied_strategy = f.applied_strategy;
  migration_method = migration m f.selected_gpus;
  selected_gpus = f.selected_gpus;
  selected_gpu_mask = mask_from 0 f.selected_gpus;
  estimated_bytes = f.bytes_scheduled;
  estimated_duration_ns = estimate_duration_ns graphics f.bytes_scheduled f.submit_count;
  steam_mode = f.steam_mode;
  proton_mode = f.proton_mode;
  frame_pacing_enabled =
      f.low_latency && ltb 1 (length f.selected_gpus) && paces f.applied_strategy;
  cross_vendor = detect_cross_vendor m unknown_vendor f.selected_gpus;
}

abbrev pub presented_frame : ℕ → Frame → Frame
presented_frame now f = record f {
  present_count = (f.present_count + 1) % 2 ^ 32;
  active = false;
  end_time_ns = now;
}

abbrev pub present_found :
    GpuManager → ℕ → Api → Execution → Option (ℕ × Frame) → Status × Option Plan × Execution
present_found m now api x none = (not_found, none, x)
present_found m now api x (some (i, f)) = (
  success,
  some (present_plan m api f),
  record x {
    frames = set x.frames i (presented_frame now f);
    stats = record x.stats { frames_completed = (x.stats.frames_completed + 1) % u64_mod };
  },
)

abbrev pub present_entered :
    GpuManager → ℕ → ℕ → Api → Status × Option ℕ × Execution → Status × Option Plan × Execution
present_entered m now id api (err, none, x) = (err, none, x)
present_entered m now id api (err, some context, x) =
    present_found m now api x (find_frame_state id x.frames)

-- mvgal_execution_present
unfoldable pub present :
    GpuManager → Core → ℕ → Option ℕ → ℕ → Api → Execution → Status × Option Plan × Execution
unfolding enter present_plan
present m core now context id api x =
    if id == 0
    then (invalid_argument, none, x)
    else present_entered m now id api (enter core context x)
