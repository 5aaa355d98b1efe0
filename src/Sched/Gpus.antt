-- ===== src/Sched/Gpus.antt =====
-- The choice of a GPU: the search for the best one in src/userspace/scheduler/scheduler.c and the
-- alternate frame rendering of src/userspace/scheduler/strategy/afr.c.
pub mod Searching
pub mod Best
pub mod Rotation
pub mod Assigning
use mvgal.Base.{
  ℕ, zero, suc, ◌+◌, ◌-◌, ◌/◌, ◌%◌, ◌^◌, Bool, true, false, not, ◌&&◌, ◌||◌, Option, none, some,
  List, [], ◌∷◌, ltb, leb, if◌then◌else◌, ◌==◌, update, length, get_or,
}
use mvgal.Status.{Status, success, invalid_argument, no_gpus}
use mvgal.Sched.Types.{
  Workload, WorkloadType, graphics, compute, video, ai, trace, transfer, other, Heap, u32_mod,
}

-- The operations of `float` that the scores are made of; `lit n d` is the literal n/d.
pub record Floats (F : Type 0) : Type 0 where
  pub lit : ℕ → ℕ → F
  pub negative : F → F
  pub of_u32 : ℕ → F
  pub add : F → F → F
  pub sub : F → F → F
  pub mul : F → F → F
  pub gt : F → F → Bool

-- mvgal_gpu_state_t, as far as the scores read it
pub record Gpu (F : Type 0) : Type 0 where
  pub available : Bool
  pub enabled : Bool
  pub utilization : F
  pub temperature : F
  pub compute_score : F
  pub graphics_score : F
  pub priority : ℕ
  pub features : ℕ

pub record Gpus (F : Type 0) : Type 0 where
  pub gpu_count : ℕ
  pub gpus : ℕ → Gpu F
  pub thermal_aware : Bool

-- MVGAL_SCHEDULER_MAX_GPUS
abbrev pub max_gpus : ℕ
max_gpus = 16

abbrev pub no_gpu : ℕ
no_gpu = 2 ^ 32 - 1

-- `mask & (1 << i)`
abbrev pub in_mask : ℕ → ℕ → Bool
in_mask mask i = (mask / 2 ^ i) % 2 == 1

module _ {F : Type 0} (fl : Floats F) (g : Gpus F) where
  -- mvgal_scheduler_gpu_suitable
  unfoldable pub gpu_suitable : ℕ → Workload → Bool
  gpu_suitable i w =
      if leb g.gpu_count i
      then false
      else if not (g.gpus i).enabled || not (g.gpus i).available
      then false
      else if w.gpu_mask == no_gpu
      then true
      else in_mask w.gpu_mask i

  -- The part of a score that depends on the workload's type.
  abbrev pub type_score : WorkloadType → Gpu F → F
  type_score compute u = fl.mul u.compute_score (fl.lit 1 100)
  type_score ai u = fl.mul u.compute_score (fl.lit 1 100)
  type_score graphics u = fl.mul u.graphics_score (fl.lit 1 100)
  type_score trace u = fl.mul u.graphics_score (fl.lit 1 100)
  type_score video u = fl.mul (fl.add u.compute_score u.graphics_score) (fl.lit 5 1000)
  type_score transfer u = fl.mul (fl.add u.compute_score u.graphics_score) (fl.lit 5 1000)
  type_score other u = fl.mul (fl.add u.compute_score u.graphics_score) (fl.lit 5 1000)

  -- mvgal_scheduler_calculate_score
  unfoldable pub calculate_score : ℕ → Workload → F
  calculate_score i w =
      let u : Gpu F = g.gpus i in
      let base : F = fl.add (fl.lit 0 1) (fl.mul (fl.of_u32 u.priority) (fl.lit 1 10)) in
      let typed : F = fl.add base (type_score w.kind u) in
      let score : F = fl.sub typed (fl.mul u.utilization (fl.lit 100 1)) in
      if leb g.gpu_count i
      then fl.negative (fl.lit 1 1)
      else if g.thermal_aware && fl.gt u.temperature (fl.lit 80 1)
      then fl.sub score (fl.mul (fl.sub u.temperature (fl.lit 80 1)) (fl.lit 5 10))
      else score

  -- The loop of mvgal_scheduler_find_best_gpu from `i` on, with `n` GPUs to go.
  unfoldable pub best_from : Workload → ℕ → ℕ → F → Option ℕ → Option ℕ
  best_from w zero i best_score best = best
  best_from w (suc n) i best_score best =
      let better : Bool = gpu_suitable i w && fl.gt (calculate_score i w) best_score in
      best_from w n (suc i) (if better then calculate_score i w else best_score)
        (if better then some i else best)

  -- mvgal_scheduler_find_best_gpu; `none` is MVGAL_ERROR_NO_GPUS, where nothing is written.
  unfoldable pub find_best_gpu : Workload → Option ℕ
  find_best_gpu w = best_from w g.gpu_count 0 (fl.negative (fl.lit 1000 1)) none

-- g_afr_state
pub record Afr : Type 0 where
  pub current_gpu_index : ℕ
  pub frame_counter : ℕ
  pub gpu_count : ℕ
  pub gpu_indices : ℕ → ℕ
  pub initialized : Bool

-- afr_init
unfoldable pub afr_init : Afr → Afr
afr_init a =
    if a.initialized
    then a
    else record a { current_gpu_index = 0; frame_counter = 0; gpu_count = 0; initialized = true }

-- The copy of the indices in afr_configure; an entry behind the given ones keeps its value.
abbrev pub copy_indices : List ℕ → (ℕ → ℕ) → ℕ → ℕ
copy_indices new old i = get_or new i (old i)

-- afr_configure with an array of GPU indices that is not NULL.
unfoldable pub afr_configure : Afr → List ℕ → Status × Afr
afr_configure a indices =
    if (length indices == 0) || ltb max_gpus (length indices) then (invalid_argument, a) else (
      success,
      record (afr_init a) {
        gpu_count = length indices;
        gpu_indices = copy_indices indices (afr_init a).gpu_indices;
        current_gpu_index = 0;
        frame_counter = 0;
      },
    )

-- afr_get_next_gpu
unfoldable pub afr_get_next_gpu : Afr → ℕ × Afr
afr_get_next_gpu a = if a.gpu_count == 0 then (no_gpu, a) else (
  a.gpu_indices a.current_gpu_index,
  record a {
    current_gpu_index = (a.current_gpu_index + 1) % a.gpu_count;
    frame_counter = (a.frame_counter + 1) % u32_mod;
  },
)

-- afr_reset
unfoldable pub afr_reset : Afr → Afr
afr_reset a = record a { current_gpu_index = 0; frame_counter = 0; gpu_count = 0 }

-- The GPUs that a mask names, from `i` on, with `n` to go.
unfoldable pub masked : ℕ → ℕ → ℕ → List ℕ
masked mask zero i = []
masked mask (suc n) i =
    let rest : List ℕ = masked mask n (suc i) in if in_mask mask i then i ∷ rest else rest

-- What the state is when mvgal_scheduler_distribute_afr asks for the next GPU.
unfoldable pub afr_masked : Afr → Workload → Afr
afr_masked a w =
    if w.gpu_mask == no_gpu then a else (afr_configure a (masked w.gpu_mask max_gpus 0)).1

abbrev pub assign_best : Heap → ℕ → Option ℕ → Heap
assign_best h w none = h
assign_best h w (some i) = update h w (record (h w) { assigned_gpu = i })

abbrev pub best_status : Option ℕ → Status
best_status none = no_gpus
best_status (some i) = success

-- The last part of mvgal_scheduler_distribute_afr, for the GPU that the rotation gave.
abbrev pub assign_next : Heap → ℕ → Option ℕ → ℕ × Afr → Status × Heap × Afr
assign_next h w best (i, a) = if i == no_gpu then (best_status best, assign_best h w best, a) else (
  success,
  update h w (record (h w) {
    assigned_gpu = i;
    assigned_gpu_count = 1;
    assigned_gpus = update (h w).assigned_gpus 0 i;
  }),
  a,
)

-- mvgal_scheduler_distribute_afr; `best` is what mvgal_scheduler_find_best_gpu finds.
unfoldable pub distribute_afr : (Workload → Option ℕ) → Afr → Heap → ℕ → Status × Heap × Afr
distribute_afr best a h w =
    if ltb 0 (h w).assigned_gpu_count
    then (success, update h w (record (h w) { assigned_gpu = (h w).assigned_gpus 0 }), afr_init a)
    else assign_next h w (best (h w)) (afr_get_next_gpu (afr_masked (afr_init a) (h w)))
