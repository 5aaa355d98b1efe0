-- ===== src/Kernel/Dispatch.antt =====
-- kernel/mvgal_scheduler.c: the choice of a GPU and the dispatcher, which runs while no other thread
-- adds workloads. The four vendors' submit_cs under kernel/vendors have the same body.
pub mod Best
pub mod Stages
pub mod Runs
pub mod Livelock
pub mod Drain
use mvgal.Base.{
  ℕ, zero, suc, ◌+◌, ◌-◌, ◌/◌, ◌%◌, ◌^◌, Bool, true, false, not, ◌&&◌, Option, none, some, List, [],
  ◌∷◌, ◌++◌, ltb, ◌==◌, if◌then◌else◌, update,
}
use mvgal.Kernel.Sync.{u32}
use mvgal.Kernel.Workloads.{
  Workload, Scheduler, ScheduleState, running, einval, with_workload, signal, num_queues,
}

-- struct mvgal_gpu_device: the fields that this code reads. `ops` says that the vendor's operations have
-- a submit_cs, and `vendor_priv` that the private data is not NULL.
pub record Gpu : Type 0 where
  pub devfn : ℕ
  pub enabled : Bool
  pub available : Bool
  pub utilization : ℕ
  pub gpu_index : ℕ
  pub ops : Bool
  pub vendor_priv : Bool

-- INT_MAX
abbrev pub int_max : ℕ
int_max = 2 ^ 31 - 1

-- `mask & (1 << i)`
abbrev pub has_bit : ℕ → ℕ → Bool
has_bit mask i = (mask / 2 ^ i) % 2 == 1

-- The GPU is in the mask, enabled and available.
abbrev pub is_candidate : ℕ → Gpu → Bool
is_candidate gpu_mask g = has_bit gpu_mask (g.devfn % 2 ^ 5) && (g.enabled && g.available)

-- The loop of mvgal_find_available_gpu, with the best GPU so far and its utilization.
unfoldable pub find_from : ℕ → List Gpu → ℕ → Option Gpu → Option Gpu
find_from gpu_mask [] best_utilization best_gpu = best_gpu
find_from gpu_mask (g ∷ gpus) best_utilization best_gpu =
    let with_this = find_from gpu_mask gpus g.utilization (some g) in
    let without = find_from gpu_mask gpus best_utilization best_gpu in
    if is_candidate gpu_mask g && ltb g.utilization best_utilization then with_this else without

-- mvgal_find_available_gpu
unfoldable pub find_available_gpu : List Gpu → ℕ → Option Gpu
find_available_gpu gpus gpu_mask = find_from gpu_mask gpus int_max none

-- mvgal_amd_submit_cs, and those of the other vendors, for a workload that is not NULL.
unfoldable pub submit_cs : Gpu → ℕ
submit_cs g = if not g.vendor_priv then einval else 0

-- The part of mvgal_scheduler_dispatch that submits the workload to the GPU, or simulates it.
abbrev pub run_on : Gpu → ℕ
run_on g = if g.ops then submit_cs g else 0

abbrev pub lock : Scheduler → Scheduler
lock s = record s { held = true }

abbrev pub unlock : Scheduler → Scheduler
unlock s = record s {
  held = false;
  bad_unlocks = if s.held then s.bad_unlocks else s.bad_unlocks + 1;
}

abbrev pub from_some : Workload → Option Workload → Workload
from_some v none = v
from_some v (some u) = u

abbrev pub and_then : Option Scheduler → (Scheduler → Option Scheduler) → Option Scheduler
and_then none f = none
and_then (some s) f = f s

module _ (clock : ℕ → ℕ) (gpus : List Gpu) where
  -- The workload at each of the stages of mvgal_scheduler_dispatch.
  abbrev pub executed : ℕ → Gpu → Workload → Workload
  executed tick g v =
      let v1 : Workload = record v {
        state = running;
        target_gpu_index = g.gpu_index;
        assigned_gpu = some g.gpu_index;
        start_time = clock tick;
      } in
      let v2 : Workload = record v1 { end_time = clock (tick + 1) } in
      from_some v2 (signal (some v2) (run_on g))

  -- What mvgal_scheduler_dispatch does with a workload that it has taken from queue `i`: it requeues it,
  -- and goes on without the lock, or it runs it on the GPU, and takes the lock again.
  unfoldable pub dispatch_one : ℕ → ℕ → Option Gpu → Scheduler → Scheduler
  dispatch_one i w none s =
      let s1 : Scheduler = lock s in
      unlock (record s1 { queues = update s1.queues i (s1.queues i ++ w ∷ []) })
  dispatch_one i w (some g) s =
      let s1 : Scheduler = with_workload s w (executed s.tick g (s.heap w)) in
      lock (record s1 { tick = s1.tick + 2; submitted = s1.submitted ++ w ∷ [] })

  -- One round of the inner loop, where `w` is the first of queue `i` and `rest` are the others.
  unfoldable pub round : ℕ → ℕ → List ℕ → Scheduler → Scheduler
  unfolding dispatch_one
  round i w rest s =
      dispatch_one i w (find_available_gpu gpus (s.heap w).gpu_mask)
        (unlock (record s { queues = update s.queues i rest }))

  -- The inner loop on queue `i`, on fuel, with the workloads that are in it.
  unfoldable pub drain : ℕ → ℕ → List ℕ → Scheduler → Option Scheduler
  unfolding round
  drain zero i ws s = none
  drain (suc fuel) i [] s = some s
  drain (suc fuel) i (w ∷ ws) s = let t : Scheduler = round i w ws s in drain fuel i (t.queues i) t

  -- The outer loop's body: one queue, from the lock to the unlock.
  unfoldable pub serve : ℕ → ℕ → Scheduler → Option Scheduler
  unfolding drain
  serve fuel i s = and_then (drain fuel i (s.queues i) (lock s)) (λ t. some (unlock t))

  -- The queues below `n`, from the highest to the lowest.
  unfoldable pub serve_below : ℕ → ℕ → Scheduler → Option Scheduler
  unfolding serve
  serve_below fuel zero s = some s
  serve_below fuel (suc i) s = and_then (serve fuel i s) (serve_below fuel i)

  -- mvgal_scheduler_dispatch, each inner loop on fuel.
  unfoldable pub dispatch : ℕ → Scheduler → Option Scheduler
  unfolding serve_below
  dispatch fuel s = serve_below fuel num_queues s
