-- ===== src/Execution/Reports.antt =====
-- The statistics of src/userspace/execution/execution.c, and the end of the module.
use mvgal.Base.{
  ℕ, ◌≡◌, ◌≢◌, refl, Bool, true, false, not, Option, none, some, List, replicate, ◌==◌,
  if◌then◌else◌, arith,
}
use mvgal.Status.{Status, success, invalid_argument, not_initialized, not_found}
use mvgal.Sched.Settings.{Distribution}
use mvgal.Execution.Frames.{
  Api, Frame, Statistics, Execution, no_statistics, no_frame, max_frames, find_frame_state,
}
use mvgal.Execution.Submission.Changes.{Changed}

-- mvgal_execution_frame_stats_t, less the application's name.
pub record FrameStats : Type 0 where
  pub frame_id : ℕ
  pub api : Api
  pub applied_strategy : Distribution
  pub submit_count : ℕ
  pub present_count : ℕ
  pub selected_gpus : List ℕ
  pub bytes_scheduled : ℕ
  pub bytes_migrated : ℕ
  pub start_time_ns : ℕ
  pub end_time_ns : ℕ
  pub active : Bool
  pub steam_mode : Bool
  pub proton_mode : Bool
  pub low_latency : Bool

abbrev pub frame_stats : Frame → FrameStats
frame_stats f = record {
  frame_id = f.frame_id;
  api = f.api;
  applied_strategy = f.applied_strategy;
  submit_count = f.submit_count;
  present_count = f.present_count;
  selected_gpus = f.selected_gpus;
  bytes_scheduled = f.bytes_scheduled;
  bytes_migrated = f.bytes_migrated;
  start_time_ns = f.start_time_ns;
  end_time_ns = f.end_time_ns;
  active = f.active;
  steam_mode = f.steam_mode;
  proton_mode = f.proton_mode;
  low_latency = f.low_latency;
}

abbrev pub stats_of : Option (ℕ × Frame) → Status × Option FrameStats
stats_of none = (not_found, none)
stats_of (some (i, f)) = (success, some (frame_stats f))

-- mvgal_execution_get_frame_stats, where the pointer for the result is not NULL.
unfoldable pub get_frame_stats : ℕ → Execution → Status × Option FrameStats
get_frame_stats id x =
    if id == 0
    then (invalid_argument, none)
    else if not x.initialized
    then (not_initialized, none)
    else stats_of (find_frame_state id x.frames)

-- mvgal_execution_get_stats_internal, where the pointer is not NULL.
unfoldable pub get_stats_internal : Execution → Status × Statistics
get_stats_internal x = (success, if not x.initialized then no_statistics else x.stats)

-- mvgal_execution_reset_stats_internal
unfoldable pub reset_stats_internal : Execution → Execution
reset_stats_internal x = if not x.initialized then x else record x { stats = no_statistics }

-- mvgal_execution_module_shutdown; an engine that is not initialized is all zeros.
unfoldable pub module_shutdown : Execution → Execution
module_shutdown x = if not x.initialized then x else record {
  initialized = false;
  next_frame_id = 0;
  frames = replicate max_frames no_frame;
  stats = no_statistics;
}

-- After a change of one frame, its statistics are those of the new frame.
get_frame_stats-Changed :
    (x x' : Execution) (id i : ℕ) (g : Frame)
    → Changed x id i g x'
    → x'.initialized ≡ true
    → id ≢ 0
    → get_frame_stats id x' ≡ (success, some (frame_stats g))
unfolding get_frame_stats
get_frame_stats-Changed x x' id i g c init pos =
    let named : (id == 0) ≡ false = ground (arith, pos) in
    let same : (id == id) ≡ true = ground arith in rw (named, init, c.lookups id, same) refl
