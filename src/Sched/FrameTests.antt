-- ===== src/Sched/FrameTests.antt =====
-- The theorems on split frame rendering and on the strategies together, with two GPUs and fixed-point numbers for `float`.
use mvgal.Base.{
  ℕ, ◌+◌, ◌-◌, ◌*◌, ◌/◌, ◌≡◌, refl, true, false, none, some, List, [], ◌∷◌, arith, leb, ltb, leb→le,
  update,
}
use mvgal.Status.{success}
use mvgal.Sched.Types.{Workload, pending, graphics, Heap}
use mvgal.Sched.Gpus.{Floats, Gpu, Gpus, no_gpu}
use mvgal.Sched.Frames.{Region, SplitFloats, split_frame, horizontal, vertical}
use mvgal.Sched.Frames.Strips.{Rows, Columns, split_frame-Rows}
use mvgal.Sched.Frames.Distribute.{FrameData, distribute_sfr, usable_from}
use mvgal.Sched.Frames.Sharing.{Shared, distribute_sfr-Shared}
use mvgal.Sched.Strategies.{StrategyState}

-- Thousandths.
abbrev fixed : Floats ℕ
fixed = record {
  lit = λ n d. n * 1000 / d;
  negative = λ a. 0;
  of_u32 = λ n. n * 1000;
  add = λ a b. a + b;
  sub = λ a b. a - b;
  mul = λ a b. a * b / 1000;
  gt = λ a b. ltb b a;
}

abbrev thousandths : SplitFloats ℕ
thousandths = record {
  base = fixed;
  div = λ a b. a * 1000 / b;
  le = λ a b. leb a b;
  lt = λ a b. ltb a b;
  sqrt = λ a. a;
  ceil = λ a. a;
  to_u32 = λ a. a / 1000;
}

-- Three for the first GPU, one for each other.
abbrev weights : ℕ → ℕ
weights i = if_first i 3000 1000
  where
    if_first : ℕ → ℕ → ℕ → ℕ
    if_first i a b = update (λ j. b) 0 a i

split_frame-Rows_example :
    ((rs : List Region) × (split_frame thousandths 0 1920 1080 2 (some weights) horizontal 64
        ≡ some rs)
      × Rows 1920 1080 rs)
    × ((rs : List Region) × (split_frame thousandths 0 1920 1080 2 (some weights) vertical 64
          ≡ some rs)
        × Columns 1920 1080 rs)
split_frame-Rows_example =
    split_frame-Rows thousandths 0 1920 1080 1 64 (some weights) (omega arith) (omega arith)
      (omega arith) (leb→le _ 1920 refl) (leb→le _ 1080 refl)

abbrev gpu : ℕ → Gpu ℕ
gpu score = record {
  available = true;
  enabled = true;
  utilization = 500;
  temperature = 40_000;
  compute_score = 1000;
  graphics_score = score;
  priority = 1;
  features = 48;
}

abbrev two_gpus : Gpus ℕ
two_gpus = record {
  gpu_count = 2;
  gpus = update (λ i. gpu 1000) 1 (gpu 3000);
  thermal_aware = false;
}

abbrev frame : Workload
frame = record {
  refcount = 1;
  state = pending;
  id = 1;
  kind = graphics;
  priority = 50;
  gpu_mask = no_gpu;
  submission_time = 0;
  deadline = 0;
  assigned_gpu = no_gpu;
  descriptor_completed = false;
  descriptor_result = success;
  descriptor_end_time = 0;
  callback = none;
  assigned_gpu_count = 0;
  assigned_gpus = λ i. 0;
  queue_time = 0;
  end_time = 0;
  completion_signaled = false;
  completion_status = success;
  next = none;
  prev = none;
  freed = false;
}

abbrev no_frames : FrameData
no_frames w = none

two_usable : usable_from two_gpus 16 0 ≡ 0 ∷ 1 ∷ []
unfolding usable_from
two_usable = refl

distribute_sfr-Shared_example :
    (frames : FrameData) × (h : Heap) × (distribute_sfr thousandths
        (λ v. none)
        two_gpus
        true
        true
        no_frames
        (λ w. frame)
        4
      ≡ (success, frames, h))
    × Shared two_gpus 0 (1 ∷ []) 4 frames h
distribute_sfr-Shared_example =
    distribute_sfr-Shared thousandths (λ v. none) two_gpus true no_frames (λ w. frame) 4 0 (1 ∷ [])
      refl (λ e. omega (arith, e)) two_usable (leb→le _ 1080 refl)

abbrev fresh : StrategyState
fresh = record {
  rotation = record {
    current_gpu_index = 0;
    frame_counter = 0;
    gpu_count = 0;
    gpu_indices = λ i. 0;
    initialized = false;
  };
  frames = no_frames;
}
