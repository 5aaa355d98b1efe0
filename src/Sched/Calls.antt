-- ===== src/Sched/Calls.antt =====
-- The calls on workloads of src/userspace/scheduler/scheduler.c. A call that holds the scheduler's
-- or the workload's lock throughout is one step.
pub mod Submit
pub mod Cancel
use mvgal.Base.{
  ℕ, ◌+◌, ◌-◌, ◌*◌, ◌/◌, ◌%◌, ◌^◌, Bool, true, false, Option, none, some, List, [], ltb,
  if◌then◌else◌, ◌==◌, ◌||◌, update,
}
use mvgal.Base.Wait.{Wakeup, Waited, ready, timeout, error, blocked, wait_loop, timed_loop}
use mvgal.Status.{
  Status, success, invalid_argument, out_of_memory, timed_out, interrupted, not_supported,
  already_initialized,
}
use mvgal.Sched.Types.{
  Workload, WorkloadState, pending, queued, running, completed, failed, cancelled, WorkloadType,
  Heap, WorkloadQueue, u32_mod, u64_mod,
}
use mvgal.Sched.Queue.{empty, enqueue, release, Linked}
use mvgal.Sched.State.{Stats, Scheduler, Strategy, relink}
use mvgal.Sched.Process.{process_internal}

-- mvgal_workload_submit_info_t
pub record SubmitInfo : Type 0 where
  pub kind : WorkloadType
  pub priority : ℕ
  pub deadline : ℕ
  pub gpu_mask : ℕ

-- The block that mvgal_workload_create_internal fills in.
abbrev pub new_workload : SubmitInfo → ℕ → ℕ → Workload
new_workload info id now = record {
  refcount = 1;
  state = pending;
  id = id % u32_mod;
  kind = info.kind;
  priority = info.priority;
  gpu_mask = info.gpu_mask;
  submission_time = now;
  deadline = info.deadline;
  assigned_gpu = 2 ^ 32 - 1;
  descriptor_completed = false;
  descriptor_result = success;
  descriptor_end_time = 0;
  callback = none;
  assigned_gpu_count = 0;
  assigned_gpus = λ i. 0;
  queue_time = 0;
  end_time = 0;
  completion_signaled = false;
  completion_status = success;
  next = none;
  prev = none;
  freed = false;
}

-- The tests of the states that mvgal_workload_cancel and mvgal_workload_set_priority make.
abbrev pub is_queued : WorkloadState → Bool
is_queued queued = true
is_queued _ = false

abbrev pub is_waiting : WorkloadState → Bool
is_waiting pending = true
is_waiting queued = true
is_waiting _ = false

module _ {S : Type 0} where
  -- mvgal_scheduler_module_init; `scan` is what configuration and GPUs are set to.
  unfoldable pub module_init : S → Scheduler S → Status × Scheduler S
  module_init scan s = if s.initialized then (already_initialized, s) else (
    success,
    record s {
      paused = false;
      thread_running = false;
      ready = empty;
      stats = record { submitted = 0; completed = 0; failed = 0 };
      next_workload_id = 1;
      strategy_state = scan;
      initialized = true;
    },
  )

  -- mvgal_workload_cancel
  unfoldable pub cancel : Scheduler S → Option ℕ → Status × Scheduler S
  cancel s none = (invalid_argument, s)
  cancel s (some w) =
      if is_waiting (s.heap w).state
      then (
        success,
        record s {
          heap = update s.heap w (record (s.heap w) {
            state = cancelled;
            completion_signaled = true;
            completion_status = interrupted;
          });
          stats = record s.stats { failed = (s.stats.failed + 1) % u64_mod };
        },
      )
      else (not_supported, s)

  -- mvgal_workload_set_priority
  unfoldable pub set_priority : Scheduler S → Option ℕ → ℕ → Status × Scheduler S
  set_priority s none priority = (invalid_argument, s)
  set_priority s (some w) priority = if ltb 100 priority then (invalid_argument, s) else (
    success,
    record s {
      heap = update s.heap w (record (s.heap w) { priority = priority });
      ready =
          if is_queued (s.heap w).state
          then record s.ready {
            total_priority =
                ((s.ready.total_priority + u64_mod - (s.heap w).priority) % u64_mod + priority)
                % u64_mod;
          }
          else s.ready;
    },
  )

-- mvgal_workload_is_completed
unfoldable pub is_completed : Heap → Option ℕ → Bool
is_completed h none = true
is_completed h (some w) = (h w).completion_signaled

-- mvgal_workload_get_result
unfoldable pub get_result : Heap → Option ℕ → Status
get_result h none = invalid_argument
get_result h (some w) = (h w).completion_status

-- The result of mvgal_workload_wait once its loop has ended; `none` means that the caller is blocked.
abbrev pub wait_result : Waited Workload → Option Status
wait_result (ready w) = some w.completion_status
wait_result (timeout w) = some timed_out
wait_result (error w) = some w.completion_status
wait_result (blocked w) = none

-- mvgal_workload_wait, with the schedule of its wakeups.
unfoldable pub wait : List (Wakeup Workload) → Heap → Option ℕ → ℕ → Option Status
wait ws h none timeout_ms = some invalid_argument
wait ws h (some w) timeout_ms =
    if (h w).completion_signaled
    then some (h w).completion_status
    else wait_result (
        if timeout_ms == 0
        then wait_loop (λ v. v.completion_signaled) ws (h w)
        else timed_loop (λ v. v.completion_signaled) ws (h w))

module _ {S : Type 0} (clock : ℕ → ℕ) (strategy : Strategy S) where
  -- The new block as mvgal_workload_submit queues it.
  abbrev pub queued_workload : Scheduler S → SubmitInfo → Option ℕ → Workload
  queued_workload s info callback =
      let queue_time : ℕ = clock (s.readings + 1) in
      record (new_workload info s.next_workload_id (clock s.readings)) {
        callback = callback;
        state = queued;
        queue_time = queue_time;
        submission_time = queue_time;
      }

  -- What mvgal_workload_submit writes before it queues the new block.
  abbrev pub place : Scheduler S → SubmitInfo → Option ℕ → ℕ → Scheduler S
  place s info callback w = record s {
    heap = update s.heap w (queued_workload s info callback);
    next_workload_id = (s.next_workload_id + 1) % u64_mod;
    readings = s.readings + 2;
  }

  -- The handle is given out when the processing has succeeded.
  abbrev pub submitted :
      ℕ → Option (Status × Scheduler S) → Option (Status × Option ℕ × Scheduler S)
  submitted w none = none
  submitted w (some (success, s)) = some (success, some w, s)
  submitted w (some (err, s)) = some (err, none, s)

  -- The rest of the call, from the result of the queueing on.
  unfoldable pub submit_queued :
      ℕ → Scheduler S → ℕ → Status × Linked → Option (Status × Option ℕ × Scheduler S)
  submit_queued fuel s w (success, l) =
      let counted : Scheduler S = record (relink s l) {
        stats = record s.stats { submitted = (s.stats.submitted + 1) % u64_mod };
      } in
      if s.thread_running
      then some (success, some w, counted)
      else submitted w (process_internal clock strategy fuel counted)
  submit_queued fuel s w (err, l) = some (
    err,
    none,
    record (relink s l) { heap = update l.heap w (record (l.heap w) { freed = true }) },
  )

  -- mvgal_workload_submit and mvgal_workload_submit_with_callback on an initialized scheduler: `fresh`
  -- is what calloc returns. The handle is `none` where the code does not write it, and the outer `none`
  -- means that the fuel ran out.
  unfoldable pub submit :
      ℕ → Scheduler S → SubmitInfo → Option ℕ → Option ℕ → Option (Status × Option ℕ × Scheduler S)
  submit fuel s info callback none = some (out_of_memory, none, s)
  submit fuel s info callback (some w) =
      let p : Scheduler S = place s info callback w in
      submit_queued fuel p w (enqueue p.heap p.ready (some w))
