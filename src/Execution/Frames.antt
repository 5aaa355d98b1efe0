-- ===== src/Execution/Frames.antt =====
-- The table of frames of src/userspace/execution/execution.c. A call that holds the lock throughout is
-- one step; a pointer that the caller passes for a result is not NULL.
pub mod Table
pub mod Changing
use mvgal.Base.{
  ℕ, zero, suc, ◌+◌, ◌%◌, ◌^◌, Bool, true, false, not, ◌&&◌, ◌||◌, Option, none, some, List, [],
  ◌∷◌, length, set, replicate, ltb, ◌==◌, if◌then◌else◌,
}
use mvgal.Status.{Status, is_success, success, invalid_argument, already_initialized}
use mvgal.Sched.Settings.{
  Distribution, afr, sfr, task, compute_offload, hybrid, single_gpu, auto, custom,
}

-- mvgal_api_type_t, as far as the statistics tell its values apart.
pub data Api : Type 0 where
  unknown_api vulkan cuda opencl d3d11 d3d12 metal webgpu other_api : Api

-- mvgal_execution_frame_state_t, less the application's name and the last plan, which no call reads.
pub record Frame : Type 0 where
  pub in_use : Bool
  pub frame_id : ℕ
  pub context : ℕ
  pub api : Api
  pub requested_strategy : Distribution
  pub applied_strategy : Distribution
  pub submit_count : ℕ
  pub present_count : ℕ
  pub selected_gpus : List ℕ
  pub bytes_scheduled : ℕ
  pub bytes_migrated : ℕ
  pub start_time_ns : ℕ
  pub end_time_ns : ℕ
  pub active : Bool
  pub steam_mode : Bool
  pub proton_mode : Bool
  pub low_latency : Bool

-- mvgal_statistics_t, as far as this file counts.
pub record Statistics : Type 0 where
  pub frames_submitted : ℕ
  pub frames_completed : ℕ
  pub workloads_distributed : ℕ
  pub vulkan_workloads : ℕ
  pub cuda_kernels : ℕ
  pub opencl_kernels : ℕ
  pub d3d_workloads : ℕ
  pub metal_workloads : ℕ
  pub webgpu_workloads : ℕ

-- mvgal_execution_state_t
pub record Execution : Type 0 where
  pub initialized : Bool
  pub next_frame_id : ℕ
  pub frames : List Frame
  pub stats : Statistics

-- MVGAL_EXECUTION_MAX_FRAMES
abbrev pub max_frames : ℕ
max_frames = 64

abbrev pub u64_mod : ℕ
u64_mod = 2 ^ 64

-- A frame and statistics after memset(); its strategy 0 is ROUND_ROBIN, which `custom` stands for.
abbrev pub no_frame : Frame
no_frame = record {
  in_use = false;
  frame_id = 0;
  context = 0;
  api = unknown_api;
  requested_strategy = custom;
  applied_strategy = custom;
  submit_count = 0;
  present_count = 0;
  selected_gpus = [];
  bytes_scheduled = 0;
  bytes_migrated = 0;
  start_time_ns = 0;
  end_time_ns = 0;
  active = false;
  steam_mode = false;
  proton_mode = false;
  low_latency = false;
}

abbrev pub no_statistics : Statistics
no_statistics = record {
  frames_submitted = 0;
  frames_completed = 0;
  workloads_distributed = 0;
  vulkan_workloads = 0;
  cuda_kernels = 0;
  opencl_kernels = 0;
  d3d_workloads = 0;
  metal_workloads = 0;
  webgpu_workloads = 0;
}

-- mvgal_execution_module_init
unfoldable pub module_init : Execution → Status × Execution
module_init s = if s.initialized then (already_initialized, s) else (
  success,
  record {
    initialized = true;
    next_frame_id = 1;
    frames = replicate max_frames no_frame;
    stats = no_statistics;
  },
)

abbrev pub shifted : Option (ℕ × Frame) → Option (ℕ × Frame)
shifted none = none
shifted (some (i, f)) = some (suc i, f)

-- find_frame_state: the index of the frame, and the frame.
unfoldable pub find_frame_state : ℕ → List Frame → Option (ℕ × Frame)
find_frame_state id [] = none
find_frame_state id (f ∷ fs) =
    if f.in_use && (f.frame_id == id) then some (0, f) else shifted (find_frame_state id fs)

-- The loop of allocate_frame_state from slot `i` on.
unfoldable pub free_slot : List Frame → ℕ → ℕ → ℕ
free_slot [] i replacement = replacement
free_slot (f ∷ fs) i replacement =
    let rest : ℕ = free_slot fs (suc i) (if not f.active then i else replacement) in
    if not f.in_use then i else rest

-- allocate_frame_state: the index of the slot.
unfoldable pub allocate_frame_state : List Frame → ℕ
unfolding free_slot
allocate_frame_state fs = free_slot fs 0 0

-- What the engine asks of the library's core, src/userspace/api/mvgal_api.c, and of the environment:
-- whether it is initialized and how an attempt ends, the current context, what the creation of one gives
-- and how it becomes the current one, a context's strategy, and the modes that the variables of the
-- environment show.
pub record Core : Type 0 where
  pub is_initialized : Bool
  pub init : Status
  pub current : Option ℕ
  pub create : Status × ℕ
  pub set_current : Status
  pub strategy : ℕ → Distribution
  pub steam : Bool
  pub proton : Bool

abbrev pub is_ready : Status → Bool
is_ready already_initialized = true
is_ready st = is_success st

-- ensure_execution_initialized
unfoldable pub ensure_execution_initialized : Core → Execution → Status × Execution
unfolding module_init
ensure_execution_initialized core s =
    if not core.is_initialized && not (is_ready core.init)
    then (core.init, s)
    else if not s.initialized
    then module_init s
    else (success, s)

abbrev pub created_context : Core → Status × ℕ → Status × ℕ
created_context core (success, c) = (core.set_current, c)
created_context core (err, c) = (err, c)

-- The current context, or a new one.
abbrev pub current_or_new : Core → Option ℕ → Status × ℕ
current_or_new core (some c) = (success, c)
current_or_new core none = created_context core core.create

-- resolve_context, with a pointer that is not NULL.
unfoldable pub resolve_context : Core → Option ℕ → Status × ℕ
resolve_context core (some c) = (success, c)
resolve_context core none = current_or_new core core.current

abbrev pub with_context : Execution → Status × ℕ → Status × Option ℕ × Execution
with_context s (success, c) = (success, some c, s)
with_context s (err, c) = (err, none, s)

-- How begin_frame, submit and present start: an error, or a context.
unfoldable pub enter : Core → Option ℕ → Execution → Status × Option ℕ × Execution
unfolding ensure_execution_initialized resolve_context
enter core context s =
    let (err, s1) = ensure_execution_initialized core s in
    if is_ready err then with_context s1 (resolve_context core context) else (err, none, s1)

-- mvgal_execution_frame_begin_info_t, less the application's name.
pub record BeginInfo : Type 0 where
  pub api : Api
  pub requested_strategy : Distribution
  pub steam_mode : Bool
  pub proton_mode : Bool
  pub low_latency : Bool

abbrev pub or_default : Distribution → Distribution → Distribution
or_default auto d = d
or_default requested d = requested

-- The new frame.
abbrev pub new_frame : Core → ℕ → ℕ → ℕ → BeginInfo → Frame
new_frame core now id context info =
    let steam : Bool = info.steam_mode || core.steam in
    let proton : Bool = info.proton_mode || core.proton in
    let requested : Distribution = or_default info.requested_strategy (core.strategy context) in
    record no_frame {
      in_use = true;
      active = true;
      frame_id = id;
      context = context;
      api = info.api;
      requested_strategy = requested;
      applied_strategy = requested;
      steam_mode = steam;
      proton_mode = proton;
      low_latency = info.low_latency || (steam || proton);
      start_time_ns = now;
    }

-- The part of mvgal_execution_begin_frame with the lock held.
abbrev pub begun : Core → ℕ → ℕ → BeginInfo → Execution → Execution
begun core now context info s = record s {
  next_frame_id = (s.next_frame_id + 1) % u64_mod;
  frames =
      set s.frames (allocate_frame_state s.frames)
        (new_frame core now s.next_frame_id context info);
  stats = record s.stats { frames_submitted = (s.stats.frames_submitted + 1) % u64_mod };
}

abbrev pub begin_entered :
    Core → ℕ → BeginInfo → Status × Option ℕ × Execution → Status × Option ℕ × Execution
begin_entered core now info (err, none, s) = (err, none, s)
begin_entered core now info (err, some context, s) =
    (success, some s.next_frame_id, begun core now context info s)

-- mvgal_execution_begin_frame: the id where the code writes it.
unfoldable pub begin_frame :
    Core → ℕ → Option ℕ → Option BeginInfo → Execution → Status × Option ℕ × Execution
unfolding enter
begin_frame core now context none s = (invalid_argument, none, s)
begin_frame core now context (some info) s = begin_entered core now info (enter core context s)
