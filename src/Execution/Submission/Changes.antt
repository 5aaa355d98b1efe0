-- ===== src/Execution/Submission/Changes.antt =====
-- A submission and a presentation change one frame of the table.
use mvgal.Base.{
  ◌+◌, ◌%◌, ◌≤◌, length, ℕ, ◌≡◌, ◌≢◌, refl, ap, ◌∙◌, true, false, some, set, ◌==◌, if◌then◌else◌,
  arith,
}
use mvgal.Status.{success}
use mvgal.Execution.Frames.{Frame, Api, Execution, Core, find_frame_state, u64_mod}
use mvgal.Execution.Frames.Table.{IsTable, enter-success}
use mvgal.Execution.Frames.Changing.{find-change, change-IsTable}
use mvgal.Execution.Planning.{GpuManager, graphics}
use mvgal.Execution.Submission.{
  Plan, scheduled_frame, record_submission, present, present_plan, presented_frame,
}

-- Only the frame under this id changed: it is found where it was, all others as before, and the table
-- stays well-formed.
pub record Changed (x : Execution) (id i : ℕ) (g : Frame) (x' : Execution) : Type 0 where
  pub lookups :
      (other : ℕ)
      → find_frame_state other x'.frames
        ≡ (if other == id then some (i, g) else find_frame_state other x.frames)
  pub table : IsTable x'

Changed-set :
    (x x' : Execution) (id i : ℕ) (f g : Frame)
    → IsTable x
    → find_frame_state id x.frames ≡ some (i, f)
    → g.in_use ≡ f.in_use
    → g.frame_id ≡ f.frame_id
    → x'.frames ≡ set x.frames i g
    → x'.next_frame_id ≡ x.next_frame_id
    → Changed x id i g x'
Changed-set x x' id i f g t e u k fe ne = record {
  lookups = λ other. ap (find_frame_state other) fe ∙ find-change id other i f g x.frames e u k;
  table = change-IsTable x x' id i f g e u k fe ne t;
}

-- The plan of a presentation, by the frame's fields.
pub record IsPresented (m : GpuManager) (api : Api) (f : Frame) (plan : Plan) : Type 0 where
  pub frame : plan.frame_id ≡ f.frame_id
  pub api_of : plan.api ≡ api
  pub kind : plan.workload_type ≡ graphics
  pub requested : plan.requested_strategy ≡ f.requested_strategy
  pub applied : plan.applied_strategy ≡ f.applied_strategy
  pub bytes : plan.estimated_bytes ≡ f.bytes_scheduled
  pub gpus : plan.selected_gpus ≡ f.selected_gpus
  pub alone : length f.selected_gpus ≤ 1 → plan.frame_pacing_enabled ≡ false
  pub paced : plan.frame_pacing_enabled ≡ true → f.low_latency ≡ true

present_plan-IsPresented :
    (m : GpuManager) (api : Api) (f : Frame) → IsPresented m api f (present_plan m api f)
unfolding present_plan
present_plan-IsPresented m api f = record {
  frame = refl;
  api_of = refl;
  kind = refl;
  requested = refl;
  applied = refl;
  bytes = refl;
  gpus = refl;
  alone = λ l. ground (arith, l);
  paced = λ e. ground (arith, e);
}

-- On an initialized engine with a well-formed table, in a given context: presenting a frame that is
-- there succeeds. Of the table only this frame changes: it is not active any more, its count of
-- presentations grows by one modulo 2^32, and its end is now. Of the statistics only the completed
-- frames grow, by one modulo 2^64. The plan has the frame's id, strategies, bytes and GPUs, the type
-- GRAPHICS and the caller's API; pacing is off with one GPU or none and for a frame that does not ask for
-- low latency.
pub present-Changed :
    (m : GpuManager) (core : Core) (now context id i : ℕ) (api : Api) (x : Execution) (f : Frame)
    → core.is_initialized ≡ true
    → x.initialized ≡ true
    → IsTable x
    → id ≢ 0
    → find_frame_state id x.frames ≡ some (i, f)
    → (plan : Plan) × (x' : Execution) × (present m core now (some context) id api x
        ≡ (success, some plan, x'))
      × IsPresented m api f plan
      × Changed x id i
          (record f {
            present_count = (f.present_count + 1) % 4_294_967_296;
            active = false;
            end_time_ns = now;
          })
          x'
      × (x'.stats ≡ record x.stats {
        frames_completed = (x.stats.frames_completed + 1) % 18_446_744_073_709_551_616;
      })
unfolding present
present-Changed m core now context id i api x f c init t pos e =
    let named : (id == 0) ≡ false = ground (arith, pos) in
    let x' : Execution = record x {
      frames = set x.frames i (presented_frame now f);
      stats = record x.stats { frames_completed = (x.stats.frames_completed + 1) % u64_mod };
    } in
    (
      present_plan m api f,
      x',
      rw (named, enter-success core context x c init, e) refl,
      present_plan-IsPresented m api f,
      Changed-set x x' id i f (presented_frame now f) t e refl refl refl refl,
      refl,
    )

pub record_submission-Changed :
    (id i : ℕ) (plan : Plan) (api : Api) (x : Execution) (f : Frame)
    → IsTable x
    → find_frame_state id x.frames ≡ some (i, f)
    → Changed x id i (scheduled_frame plan f) (record_submission id plan api x)
unfolding record_submission
record_submission-Changed id i plan api x f t e =
    Changed-set x _ id i f (scheduled_frame plan f) t e refl refl (rw e refl) refl
