-- ===== src/Kernel/Dispatch/Stages.antt =====
-- What a run of the dispatcher does to a workload.
use mvgal.Base.{◌<◌, ◌≡◌, sym, ◌∙◌, ap, ◌⊎◌, inl, inr, true, some, List, ◌==◌, if◌then◌else◌}
use mvgal.Kernel.Workloads.{Workload, ScheduleState, complete}
use mvgal.Kernel.Dispatch.{Gpu, find_available_gpu, run_on}

-- A GPU is there for the workload.
abbrev pub HasGpu : List Gpu → Workload → Type 0
HasGpu gpus v = (g : Gpu) × (find_available_gpu gpus v.gpu_mask ≡ some g)

-- What a run leaves of the workload as it was.
pub record SameWork (u v : Workload) : Type 0 where
  pub id : v.id ≡ u.id
  pub priority : v.priority ≡ u.priority
  pub gpu_mask : v.gpu_mask ≡ u.gpu_mask
  pub addr : v.command_buffer_addr ≡ u.command_buffer_addr
  pub size : v.command_buffer_size ≡ u.command_buffer_size
  pub freed : v.freed ≡ u.freed

-- The workload was `u`, and it has been run on the GPU that was chosen for it, with the result of its
-- submission, which tells its state; its waiters are woken.
pub record Executed (gpus : List Gpu) (u v : Workload) : Type 0 where
  pub gpu : Gpu
  pub found : find_available_gpu gpus u.gpu_mask ≡ some gpu
  pub assigned : v.assigned_gpu ≡ some gpu.gpu_index
  pub result : v.result ≡ run_on gpu
  pub state : v.state ≡ (if run_on gpu == 0 then complete else ScheduleState.error)
  pub signaled : v.signaled ≡ true
  pub done : 0 < v.done
  pub same : SameWork u v

-- At any time of a run a workload is as it was, or has been run.
abbrev pub Stage : List Gpu → Workload → Workload → Type 0
Stage gpus u v = (v ≡ u) ⊎ Executed gpus u v

module _ (gpus : List Gpu) where
  pub SameWork-trans : (u v w : Workload) → SameWork u v → SameWork v w → SameWork u w
  SameWork-trans u v w a b = record {
    id = b.id ∙ a.id;
    priority = b.priority ∙ a.priority;
    gpu_mask = b.gpu_mask ∙ a.gpu_mask;
    addr = b.addr ∙ a.addr;
    size = b.size ∙ a.size;
    freed = b.freed ∙ a.freed;
  }

  pub Executed-trans : (u v w : Workload) → SameWork u v → Executed gpus v w → Executed gpus u w
  Executed-trans u v w a b = record {
    gpu = b.gpu;
    found = ap (find_available_gpu gpus) (sym a.gpu_mask) ∙ b.found;
    assigned = b.assigned;
    result = b.result;
    state = b.state;
    signaled = b.signaled;
    done = b.done;
    same = SameWork-trans u v w a b.same;
  }

  pub Executed-Stage : (u v w : Workload) → Executed gpus u v → Stage gpus v w → Executed gpus u w
  Executed-Stage u v w a (inl e) = rw e a
  Executed-Stage u v w a (inr b) = Executed-trans u v w a.same b

  pub Stage-trans : (u v w : Workload) → Stage gpus u v → Stage gpus v w → Stage gpus u w
  Stage-trans u v w (inl e) b = rw⁻¹ e b
  Stage-trans u v w (inr a) b = inr (Executed-Stage u v w a b)

  pub Stage-Executed : (u v w : Workload) → Stage gpus u v → Executed gpus v w → Executed gpus u w
  Stage-Executed u v w (inl e) b = rw⁻¹ e b
  Stage-Executed u v w (inr a) b = Executed-trans u v w a.same b

  Stage-mask : (u v : Workload) → Stage gpus u v → v.gpu_mask ≡ u.gpu_mask
  Stage-mask u v (inl e) = ap (λ x. Workload.gpu_mask x) e
  Stage-mask u v (inr a) = a.same.gpu_mask

  pub HasGpu-Stage : (u v : Workload) → Stage gpus u v → HasGpu gpus u → HasGpu gpus v
  HasGpu-Stage u v st (g, e) = (g, ap (find_available_gpu gpus) (Stage-mask u v st) ∙ e)
