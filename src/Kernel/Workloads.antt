-- ===== src/Kernel/Workloads.antt =====
-- kernel/mvgal_scheduler.c: workloads and the priority queues. A workload is an address, with 0 never
-- used; each call that holds the scheduler's lock throughout is one step. An int32_t or int is its bits,
-- a number below 2^32.
use mvgal.Base.{
  ℕ, ◌+◌, ◌-◌, ◌/◌, ◌%◌, ◌^◌, Bool, true, false, Option, none, some, List, [], ◌∷◌, ◌++◌, ltb, leb,
  ◌==◌, if◌then◌else◌, update,
}
use mvgal.Base.Wait.{Wakeup, Waited, wait_loop, timed_loop}
use mvgal.Kernel.Sync.{u32}

-- The result `-e`.
abbrev pub minus : ℕ → ℕ
minus e = u32 - e

abbrev pub einval : ℕ
einval = minus 22

abbrev pub enomem : ℕ
enomem = minus 12

abbrev pub efault : ℕ
efault = minus 14

abbrev pub enodev : ℕ
enodev = minus 19

abbrev pub etimedout : ℕ
etimedout = minus 110

-- `n < 0`
abbrev pub is_negative : ℕ → Bool
is_negative n = leb (2 ^ 31) n

-- enum mvgal_schedule_state
pub data ScheduleState : Type 0 where
  pending running complete error : ScheduleState

-- struct mvgal_workload, less the fields that no code reads or writes. The header does not declare
-- `target_gpu_index`, which the code writes. `done` is the count of the completion, and `freed` marks a
-- block that was given to kfree().
pub record Workload : Type 0 where
  pub id : ℕ
  pub priority : ℕ
  pub gpu_mask : ℕ
  pub kind : ℕ
  pub command_buffer_addr : ℕ
  pub command_buffer_size : ℕ
  pub num_memory_resources : ℕ
  pub done : ℕ
  pub signaled : Bool
  pub state : ScheduleState
  pub result : ℕ
  pub target_gpu_index : ℕ
  pub assigned_gpu : Option ℕ
  pub start_time : ℕ
  pub end_time : ℕ
  pub freed : Bool

-- scheduler, with the blocks of the workloads. `held` says that the dispatcher holds the lock,
-- `bad_unlocks` counts the unlocks of a lock that is not held, `tick` counts the readings of the clock,
-- and `submitted` lists the workloads that were given to a GPU.
pub record Scheduler : Type 0 where
  pub queues : ℕ → List ℕ
  pub heap : ℕ → Workload
  pub next_workload_id : ℕ
  pub held : Bool
  pub bad_unlocks : ℕ
  pub tick : ℕ
  pub submitted : List ℕ

-- MVGAL_NUM_PRIORITY_QUEUES
abbrev pub num_queues : ℕ
num_queues = 4

-- MVGAL_DEFAULT_PRIORITY
abbrev pub default_priority : ℕ
default_priority = 8

-- MVGAL_MAX_PRIORITY
abbrev pub max_priority : ℕ
max_priority = 15

-- mvgal_scheduler_init; `wq` says that the workqueue could be created.
unfoldable pub scheduler_init : Bool → (ℕ → Workload) → ℕ × Scheduler
scheduler_init wq heap = (
  if wq then 0 else enomem,
  record {
    queues = λ i. [];
    heap = heap;
    next_workload_id = 1;
    held = false;
    bad_unlocks = 0;
    tick = 0;
    submitted = [];
  },
)

-- The block of a new workload.
abbrev pub new_workload : ℕ → Workload
new_workload id = record {
  id = id;
  priority = default_priority;
  gpu_mask = u32 - 1;
  kind = 0;
  command_buffer_addr = 0;
  command_buffer_size = 0;
  num_memory_resources = 0;
  done = 0;
  signaled = false;
  state = pending;
  result = 0;
  target_gpu_index = 0;
  assigned_gpu = none;
  start_time = 0;
  end_time = 0;
  freed = false;
}

-- The workload at address `w` after a write to it.
abbrev pub with_workload : Scheduler → ℕ → Workload → Scheduler
with_workload s w v = record s { heap = update s.heap w v }

-- mvgal_workload_alloc; `fresh` is what kzalloc returns.
unfoldable pub alloc : Scheduler → Option ℕ → Option ℕ × Scheduler
alloc s none = (none, s)
alloc s (some w) = (
  some w,
  record s {
    heap = update s.heap w (new_workload s.next_workload_id);
    next_workload_id = (s.next_workload_id + 1) % u32;
  },
)

-- mvgal_workload_free
unfoldable pub free : Scheduler → Option ℕ → Scheduler
free s none = s
free s (some w) = with_workload s w (record (s.heap w) { freed = true })

-- The clamped priority of mvgal_workload_submit.
abbrev pub clamped : ℕ → ℕ
clamped priority = if ltb max_priority priority then max_priority else priority

-- The queue of a priority.
abbrev pub queue_of : ℕ → ℕ
queue_of priority =
    let queue : ℕ = priority / 2 ^ 2 in if leb num_queues queue then num_queues - 1 else queue

-- mvgal_workload_submit
unfoldable pub submit : Scheduler → Option ℕ → ℕ × Scheduler
submit s none = (einval, s)
submit s (some w) =
    let priority : ℕ = clamped (s.heap w).priority in
    let queue : ℕ = queue_of priority in
    (
      0,
      record s {
        heap = update s.heap w (record (s.heap w) { priority = priority });
        queues = update s.queues queue (s.queues queue ++ w ∷ []);
      },
    )

-- `state == COMPLETE || state == ERROR`
abbrev pub is_over : ScheduleState → Bool
is_over complete = true
is_over error = true
is_over pending = false
is_over running = false

-- The completion has been signaled.
abbrev pub is_done : Workload → Bool
is_done v = ltb 0 v.done

-- The end of a wait for the completion, which takes one of its count.
unfoldable pub after_wait : Waited Workload → Option ℕ × Workload
after_wait (Waited.ready v) = (some v.result, record v { done = v.done - 1 })
after_wait (Waited.timeout v) = (some etimedout, v)
after_wait (Waited.error v) = (none, v)
after_wait (Waited.blocked v) = (none, v)

-- mvgal_workload_wait: the result, if there is one yet, and the workload then. The timeout of a wait
-- is an end of the schedule.
unfoldable pub wait : List (Wakeup Workload) → Option Workload → ℕ → Option ℕ × Option Workload
unfolding after_wait
wait ws none timeout_ms = (some einval, none)
wait ws (some v) timeout_ms =
    let end : Option ℕ × Workload =
      if timeout_ms == 0
      then after_wait (wait_loop is_done ws v)
      else after_wait (timed_loop is_done ws v) in
    if is_over v.state then (some v.result, some v) else (end.0, some end.1)

-- mvgal_workload_signal
unfoldable pub signal : Option Workload → ℕ → Option Workload
signal none result = none
signal (some v) result = some (record v {
  result = result;
  state = if result == 0 then complete else error;
  signaled = true;
  done = v.done + 1;
})
