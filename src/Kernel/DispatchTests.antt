-- ===== src/Kernel/DispatchTests.antt =====
-- The theorems on kernel/mvgal_scheduler.c at concrete workloads and GPUs.
use mvgal.Base.{
  ℕ, zero, suc, ◌*◌, ◌<◌, ◌≡◌, refl, inl, true, false, none, some, List, [], ◌∷◌, arith, All,
  length, update,
}
use mvgal.Base.Wait.{Wakeup, woke, etimedout}
use mvgal.Kernel.Workloads.{Workload, Scheduler, new_workload, num_queues}
use mvgal.Kernel.Dispatch.{Gpu, int_max, find_available_gpu, find_from, dispatch}
use mvgal.Kernel.Dispatch.Best.{Found, find_available_gpu-Found}
use mvgal.Kernel.Dispatch.Stages.{HasGpu}
use mvgal.Kernel.Dispatch.Drain.{Dispatched, dispatch-Dispatched}
use mvgal.Kernel.Dispatch.Livelock.{dispatch_never}
use mvgal.Kernel.Submit.{Args, Copies, ioctl_submit_workload}
use mvgal.Kernel.Submit.Ends.{Ended, ioctl_submit_workload-Ended}

abbrev busy : Gpu
busy = record {
  devfn = 8;
  enabled = true;
  available = true;
  utilization = 70;
  gpu_index = 0;
  ops = true;
  vendor_priv = true;
}

abbrev idle : Gpu
idle = record busy { devfn = 33; utilization = 5; gpu_index = 1 }

abbrev gpus : List Gpu
gpus = busy ∷ idle ∷ []

find_available_gpu-Found_example : Found 3 gpus int_max none (find_available_gpu gpus 3)
find_available_gpu-Found_example = find_available_gpu-Found gpus 3

abbrev clock : ℕ → ℕ
clock n = 100 * n

-- Workload 1 is for the idle GPU only, 2 for any, 3 for none; 2 has the highest priority.
abbrev heap : ℕ → Workload
heap =
    update
      (update (update new_workload 1 (record (new_workload 1) { gpu_mask = 2; priority = 3 })) 2
        (record (new_workload 2) { priority = 15 }))
      3 (record (new_workload 3) { gpu_mask = 4 })

abbrev no_queues : ℕ → List ℕ
no_queues i = []

abbrev two_queued : Scheduler
two_queued = record {
  queues = update (update no_queues 0 (1 ∷ [])) 3 (2 ∷ []);
  heap = heap;
  next_workload_id = 4;
  held = false;
  bad_unlocks = 0;
  tick = 0;
  submitted = [];
}

abbrev three_queued : Scheduler
three_queued = record two_queued { queues = update two_queued.queues 2 (3 ∷ []) }

two_queued-lengths : (j : ℕ) → j < num_queues → length (two_queued.queues j) < 2
two_queued-lengths zero l = omega arith
two_queued-lengths (suc zero) l = omega arith
two_queued-lengths (suc (suc zero)) l = omega arith
two_queued-lengths (suc (suc (suc zero))) l = omega arith
two_queued-lengths (suc (suc (suc (suc j)))) l = absurd (omega arith)

two_queued-HasGpu :
    (j : ℕ) → j < num_queues → All (λ w. HasGpu gpus (two_queued.heap w)) (two_queued.queues j)
unfolding find_available_gpu find_from
two_queued-HasGpu zero l = ((idle, refl), tt)
two_queued-HasGpu (suc zero) l = tt
two_queued-HasGpu (suc (suc zero)) l = tt
two_queued-HasGpu (suc (suc (suc zero))) l = ((idle, refl), tt)
two_queued-HasGpu (suc (suc (suc (suc j)))) l = absurd (omega arith)

dispatch-Dispatched_example :
    (t : Scheduler) × (dispatch clock gpus 2 two_queued ≡ some t)
    × Dispatched clock gpus two_queued t
dispatch-Dispatched_example =
    dispatch-Dispatched clock gpus 2 two_queued refl two_queued-lengths two_queued-HasGpu

nothing_for_three : find_available_gpu gpus (three_queued.heap 3).gpu_mask ≡ none
unfolding find_available_gpu find_from
nothing_for_three = refl

dispatch_never_example : dispatch clock gpus 1000 three_queued ≡ none
dispatch_never_example =
    dispatch_never clock gpus 1000 2 3 three_queued (omega arith) (inl refl) nothing_for_three

abbrev args : Args
args = record {
  workload_id = 0;
  workload_type = 1;
  priority = 9;
  gpu_mask = 3;
  flags = 1;
  timeout_ms = 20;
  result = 0;
  command_buffer_addr = 4096;
  command_buffer_size = 512;
}

abbrev all_copied : Copies
all_copied = record { addr = true; size = true; priority = true; gpu_mask = true }

-- A wakeup that another thread does not signal, then the end of the time.
abbrev schedule : List (Wakeup Workload)
schedule = record { ret = woke; others = λ v. v } ∷ record { ret = etimedout; others = λ v. v } ∷ []

ioctl_submit_workload-Ended_example :
    Ended
      (some 9)
      args
      (some (4 ∷ []))
      three_queued
      (ioctl_submit_workload schedule all_copied gpus args (some (4 ∷ [])) (some 9) three_queued)
ioctl_submit_workload-Ended_example =
    ioctl_submit_workload-Ended schedule all_copied gpus args (some (4 ∷ [])) three_queued (some 9)
      (λ v a. a, (λ v a. a, tt))

found_idle : find_available_gpu gpus 3 ≡ some idle
unfolding find_available_gpu find_from
found_idle = refl
