-- ===== src/Sched/Frames/Distribute.antt =====
-- Split frame rendering, src/userspace/scheduler/strategy/sfr.c: the split that is kept for a workload.
use mvgal.Base.{
  ℕ, zero, suc, ◌+◌, ◌-◌, ◌*◌, ◌/◌, ◌%◌, Bool, true, false, not, ◌&&◌, Option, none, some, List, [],
  ◌∷◌, ltb, ◌==◌, if◌then◌else◌, update, length, get_or,
}
use mvgal.Status.{Status, success, invalid_argument, out_of_memory}
use mvgal.Sched.Types.{Workload, Heap}
use mvgal.Sched.Gpus.{Gpu, Gpus, max_gpus, assign_best, best_status}
use mvgal.Sched.Frames.{SfrMode, horizontal, Region, SplitFloats, split_frame, sub_u32}

-- sfr_workload_data_t; `regions` has the first region_count entries, and `freed` marks a block
-- that was given to free().
pub record SplitData : Type 0 where
  pub regions : List Region
  pub original_width : ℕ
  pub original_height : ℕ
  pub freed : Bool

-- The strategy_data of the workloads.
abbrev pub FrameData : Type 0
FrameData = ℕ → Option SplitData

-- The data of a workload after free(), which does nothing to NULL.
abbrev pub freed_data : Option SplitData → Option SplitData
freed_data none = none
freed_data (some d) = some (record d { freed = true })

-- The regions with the GPUs of the workload, from number `i` on.
unfoldable pub assign_regions : Workload → List Region → ℕ → List Region
assign_regions w [] i = []
assign_regions w (r ∷ rs) i =
    record r { gpu_index = w.assigned_gpus (i % w.assigned_gpu_count) }
    ∷ assign_regions w rs (i + 1)

-- The room of an array of regions.
abbrev pub max_regions : ℕ
max_regions = max_gpus * 4

abbrev pub stored_split :
    ℕ → ℕ → ℕ → Workload → Option (List Region) → FrameData → Option (Status × FrameData)
stored_split w width height block none frames = none
stored_split w width height block (some rs) frames = some (
  success,
  update frames w (
      some (record {
        regions = assign_regions block rs 0;
        original_width = width;
        original_height = height;
        freed = false;
      })),
)

module _ {F : Type 0} (fl : SplitFloats F) where
  -- sfr_create_split_data, with no weights, and sfr_create_split_data_weighted; `calloc` says whether
  -- the allocation succeeds. The split that there was before is freed first, and if the allocation
  -- then fails the workload still points to it.
  unfoldable pub create_split_data :
      ℕ
      → Bool
      → FrameData
      → Heap
      → Option ℕ
      → ℕ
      → ℕ
      → SfrMode
      → Option (ℕ → F)
      → Option (Status × FrameData)
  create_split_data fuel calloc frames h none width height mode weights =
      some (invalid_argument, frames)
  create_split_data fuel calloc frames h (some w) width height mode weights =
      if (h w).assigned_gpu_count == 0
      then some (invalid_argument, frames)
      else if not calloc
      then some (out_of_memory, update frames w (freed_data (frames w)))
      else stored_split w width height (h w)
          (split_frame fl fuel width height (h w).assigned_gpu_count weights mode max_regions)
          frames

-- sfr_get_region_for_gpu
unfoldable pub find_region : List Region → ℕ → Option Region
find_region [] gpu_index = none
find_region (r ∷ rs) gpu_index =
    let rest : Option Region = find_region rs gpu_index in
    if r.gpu_index == gpu_index then some r else rest

abbrev pub find_in : Option SplitData → ℕ → Option Region
find_in none gpu_index = none
find_in (some d) gpu_index = find_region d.regions gpu_index

unfoldable pub get_region_for_gpu : FrameData → Option ℕ → ℕ → Option Region
unfolding find_region
get_region_for_gpu frames none gpu_index = none
get_region_for_gpu frames (some w) gpu_index = find_in (frames w) gpu_index

-- sfr_cleanup
unfoldable pub cleanup : FrameData → Option ℕ → FrameData
cleanup frames none = frames
cleanup frames (some w) = update frames w none

-- The GPUs that are available and enabled, `n` from `i` on.
unfoldable pub usable_from : {F : Type 0} → Gpus F → ℕ → ℕ → List ℕ
usable_from g zero i = []
usable_from g (suc n) i =
    let rest : List ℕ = usable_from g n (suc i) in
    if ltb i g.gpu_count && ((g.gpus i).available && (g.gpus i).enabled) then i ∷ rest else rest

-- The equal strips of a workload whose GPUs were assigned before: `left` from `i` on.
unfoldable pub equal_strips : Workload → ℕ → ℕ → ℕ → List Region
equal_strips v count zero i = []
equal_strips v count (suc left) i =
    let region_height : ℕ = 1080 / count in
    record {
      x = 0;
      y = i * region_height;
      width = 1920;
      height = if i == count - 1 then sub_u32 1080 (i * region_height) else region_height;
      gpu_index = v.assigned_gpus i;
    }
    ∷ equal_strips v count left (i + 1)

-- The workload with the GPUs of a list.
abbrev pub with_gpus : List ℕ → Workload → Workload
with_gpus gpus v = record v {
  assigned_gpu_count = length gpus;
  assigned_gpus = λ i. get_or gpus i (v.assigned_gpus i);
}

-- The status, the splits and the heap after a call.
abbrev pub Distributed : Type 0
Distributed = Status × FrameData × Heap

module _ {F : Type 0} (fl : SplitFloats F) (best : Workload → Option ℕ) (g : Gpus F)
    (dynamic_load_balance : Bool) where
  -- The weight of a GPU.
  abbrev pub weight : ℕ → F
  weight i =
      let u : Gpu F = g.gpus i in
      let score : F =
        if fl.le u.graphics_score (fl.base.lit 0 1) then fl.base.lit 1 1 else u.graphics_score in
      let util : F =
        if fl.lt u.utilization (fl.base.lit 1 100) then fl.base.lit 1 100 else u.utilization in
      if dynamic_load_balance then fl.base.mul score (fl.div (fl.base.lit 1 1) util) else score

  abbrev pub to_best : FrameData → Heap → ℕ → Distributed
  to_best frames h w = (best_status (best (h w)), frames, assign_best h w (best (h w)))

  abbrev pub frames_of : Option (Status × FrameData) → FrameData → FrameData
  frames_of none frames = frames
  frames_of (some (st, split)) frames = split

  -- The split among the GPUs of the list.
  unfoldable pub split_among : Bool → FrameData → Heap → ℕ → List ℕ → Distributed
  split_among calloc frames h w [] = to_best frames h w
  split_among calloc frames h w (first ∷ gpus) =
      let h1 : Heap = update h w (with_gpus (first ∷ gpus) (h w)) in
      (
        success,
        frames_of
            (create_split_data fl 0 calloc frames h1 (some w) 1920 1080 horizontal
              (some (λ i. weight (get_or (first ∷ gpus) i 0))))
            frames,
        update h1 w (record (h1 w) { assigned_gpu = first }),
      )

  -- mvgal_scheduler_distribute_sfr. The split by strips needs no fuel.
  unfoldable pub distribute_sfr : Bool → FrameData → Heap → ℕ → Distributed
  unfolding split_among
  distribute_sfr calloc frames h w =
      let count : ℕ = (h w).assigned_gpu_count in
      if ltb 0 count
      then (if not calloc then (out_of_memory, update frames w (freed_data (frames w)), h) else (
        success,
        update frames w (
            some (record {
              regions = equal_strips (h w) count count 0;
              original_width = 1920;
              original_height = 1080;
              freed = false;
            })),
        update h w (record (h w) { assigned_gpu = (h w).assigned_gpus 0 }),
      ))
      else if g.gpu_count == 0
      then to_best frames h w
      else split_among calloc frames h w (usable_from g max_gpus 0)
