-- ===== src/Execution/Planning.antt =====
-- The pure parts of the plans in src/userspace/execution/execution.c: the workload's type, the estimate
-- of its time, the choice of a strategy and the selected GPUs.
pub mod Choice
use mvgal.Base.{
  ℕ, zero, suc, ◌+◌, ◌-◌, ◌*◌, ◌/◌, ◌%◌, ◌^◌, Bool, true, false, not, ◌&&◌, ◌||◌, Option, none,
  some, List, [], ◌∷◌, length, ltb, leb, ◌==◌, if◌then◌else◌,
}
use mvgal.Sched.Types.{Workload, WorkloadType}
use mvgal.Sched.Settings.{
  Distribution, afr, sfr, task, compute_offload, hybrid, single_gpu, auto, custom, with_gpu,
}
use mvgal.Execution.Frames.{Api, Frame, u64_mod}

-- mvgal_workload_type_t, as far as this file tells its values apart.
pub data Kind : Type 0 where
  unknown graphics compute video ai trace transfer vulkan vulkan_cmd d3d_queue d3d_pipeline : Kind
  cuda_kernel opencl_kernel other : Kind

-- The type as the scheduler's switches see it.
abbrev pub scheduled_kind : Kind → WorkloadType
scheduled_kind graphics = WorkloadType.graphics
scheduled_kind compute = WorkloadType.compute
scheduled_kind video = WorkloadType.video
scheduled_kind ai = WorkloadType.ai
scheduled_kind trace = WorkloadType.trace
scheduled_kind transfer = WorkloadType.transfer
scheduled_kind _ = WorkloadType.other

-- mvgal_execution_submit_info_t with the parts of its telemetry that are read.
pub record SubmitInfo : Type 0 where
  pub frame_id : ℕ
  pub api : Api
  pub requested_strategy : Distribution
  pub kind : Kind
  pub is_present : Bool
  pub is_frame_end : Bool
  pub data_size : ℕ
  pub resource_bytes : ℕ
  pub command_buffer_count : ℕ
  pub queue_family_flags : ℕ
  pub gpu_mask : ℕ

-- What mvgal_gpu_get_count (0 where it is negative), mvgal_gpu_is_enabled and the vendor of
-- mvgal_gpu_get_descriptor say, and mvgal_dmabuf_get_copy_method.
pub record GpuManager : Type 0 where
  pub count : ℕ
  pub is_enabled : ℕ → Bool
  pub vendor : ℕ → Option ℕ
  pub copy_method : ℕ → ℕ → ℕ

-- MVGAL_EXECUTION_MAX_GPUS
abbrev pub max_gpus : ℕ
max_gpus = 16

-- The loop of build_enabled_gpu_mask from GPU `i` on, with `n` to go and room for so many.
unfoldable pub enabled_from : GpuManager → ℕ → ℕ → ℕ → List ℕ
enabled_from m zero i room = []
enabled_from m (suc n) i zero = []
enabled_from m (suc n) i (suc room) =
    let taken : List ℕ = i ∷ enabled_from m n (suc i) room in
    let rest : List ℕ = enabled_from m n (suc i) (suc room) in
    if m.is_enabled i then taken else rest

-- build_enabled_gpu_mask: the list that it fills in.
unfoldable pub enabled_gpus : GpuManager → List ℕ
unfolding enabled_from
enabled_gpus m = enabled_from m m.count 0 max_gpus

abbrev pub mask_from : ℕ → List ℕ → ℕ
mask_from mask [] = mask
mask_from mask (i ∷ is) = mask_from (with_gpu mask i) is

-- The mask that build_enabled_gpu_mask returns.
abbrev pub enabled_mask : GpuManager → ℕ
enabled_mask m = mask_from 0 (enabled_gpus m)

-- The type where the telemetry has none.
abbrev pub guessed_type : SubmitInfo → Kind
guessed_type info =
    if (info.queue_family_flags % 2 == 1) || info.is_present
    then graphics
    else if (info.queue_family_flags / 2) % 2 == 1
    then compute
    else if ltb 0 info.data_size
    then transfer
    else graphics

abbrev pub or_guessed : Kind → Kind → Kind
or_guessed unknown guessed = guessed
or_guessed kind guessed = kind

-- normalize_workload_type
unfoldable pub normalize_workload_type : SubmitInfo → Kind
normalize_workload_type info = or_guessed info.kind (guessed_type info)

abbrev pub base_ns : Kind → ℕ
base_ns graphics = 2_000_000
base_ns vulkan = 2_000_000
base_ns vulkan_cmd = 2_000_000
base_ns d3d_queue = 2_000_000
base_ns d3d_pipeline = 2_000_000
base_ns compute = 1_500_000
base_ns ai = 1_500_000
base_ns cuda_kernel = 1_500_000
base_ns opencl_kernel = 1_500_000
base_ns transfer = 800_000
base_ns _ = 500_000

-- estimate_duration_ns
unfoldable pub estimate_duration_ns : Kind → ℕ → ℕ → ℕ
estimate_duration_ns kind resource_bytes command_buffer_count =
    ((base_ns kind + command_buffer_count * 250_000) % u64_mod
      + resource_bytes / 1_048_576 * 150_000 % u64_mod)
    % u64_mod

-- The strategy where the given one is AUTO.
abbrev pub unless_auto : Distribution → Distribution → Distribution
unless_auto auto d = d
unless_auto requested d = requested

abbrev pub needs_gpus : Distribution → Bool
needs_gpus afr = true
needs_gpus sfr = true
needs_gpus task = true
needs_gpus hybrid = true
needs_gpus compute_offload = true
needs_gpus _ = false

abbrev pub is_hybrid : Distribution → Bool
is_hybrid hybrid = true
is_hybrid _ = false

abbrev pub is_graphics : Kind → Bool
is_graphics graphics = true
is_graphics _ = false

abbrev pub is_computing : Kind → Bool
is_computing compute = true
is_computing ai = true
is_computing _ = false

abbrev pub is_transfer : Kind → Bool
is_transfer transfer = true
is_transfer _ = false

-- The strategy that HYBRID stands for.
unfoldable pub hybrid_choice : ℕ → Frame → Kind → ℕ → Distribution
hybrid_choice enabled frame kind resource_bytes =
    let several : Bool = ltb 1 enabled in
    if ((frame.steam_mode || frame.proton_mode) && is_graphics kind) && several
    then afr
    else if is_computing kind && several
    then compute_offload
    else if is_transfer kind && several
    then task
    else if (is_graphics kind && leb 67_108_864 resource_bytes) && several
    then sfr
    else if several
    then afr
    else single_gpu

-- The strategy from what was requested, where AUTO is none any more.
unfoldable pub choose_from : Distribution → ℕ → Frame → Kind → ℕ → Distribution
unfolding hybrid_choice
choose_from requested enabled frame kind resource_bytes =
    if leb enabled 1 && needs_gpus requested
    then single_gpu
    else if not (is_hybrid requested)
    then requested
    else hybrid_choice enabled frame kind resource_bytes

-- choose_strategy; its callers have a frame.
unfoldable pub choose_strategy : GpuManager → Frame → SubmitInfo → Distribution
unfolding choose_from enabled_gpus normalize_workload_type
choose_strategy m frame info =
    choose_from (unless_auto (unless_auto info.requested_strategy frame.requested_strategy) hybrid)
      (length (enabled_gpus m)) frame (normalize_workload_type info) info.resource_bytes

-- MVGAL_VENDOR_UNKNOWN
abbrev pub unknown_vendor : ℕ
unknown_vendor = 0

-- The loop of detect_cross_vendor, with the first vendor.
unfoldable pub detect_cross_vendor : GpuManager → ℕ → List ℕ → Bool
detect_cross_vendor m first [] = false
detect_cross_vendor m first (g ∷ gs) = elim (m.vendor g) [
  | none ↦ detect_cross_vendor m first gs
  | some v ↦
      let rest : Bool = detect_cross_vendor m (if first == unknown_vendor then v else first) gs in
      if not (first == unknown_vendor) && not (v == first) then true else rest
]

-- The first entries of an array.
abbrev pub entries : ℕ → (ℕ → ℕ) → ℕ → List ℕ
entries zero a i = []
entries (suc n) a i = a i ∷ entries n a (suc i)

abbrev pub first_of : List ℕ → List ℕ
first_of [] = []
first_of (g ∷ gs) = g ∷ []

-- populate_plan_gpu_selection: the selected GPUs.
unfoldable pub selected_gpus : GpuManager → Workload → List ℕ
unfolding enabled_gpus
selected_gpus m w =
    if ltb 0 w.assigned_gpu_count
    then entries w.assigned_gpu_count w.assigned_gpus 0
    else if not (w.assigned_gpu == 2 ^ 32 - 1)
    then w.assigned_gpu ∷ []
    else first_of (enabled_gpus m)
