-- ===== src/Sched/Process.antt =====
-- The processing of workloads in src/userspace/scheduler/scheduler.c: mvgal_workload_complete and
-- mvgal_scheduler_process_internal. One thread runs; the clock gives `clock n` at its n-th reading.
pub mod Step
pub mod Order
pub mod Drain
pub mod Livelock
use mvgal.Base.{
  ℕ, zero, suc, ◌+◌, ◌%◌, Bool, true, false, Option, none, some, List, ◌∷◌, ltb, if◌then◌else◌,
  update,
}
use mvgal.Status.{Status, success, not_initialized, is_success}
use mvgal.Sched.Types.{Workload, WorkloadState, completed, failed, Heap, u64_mod, max_queued}
use mvgal.Sched.Queue.{release, dequeue_priority, Linked}
use mvgal.Sched.State.{Stats, Call, Scheduler, Strategy, Applied, relink}

-- The walk over a queue of at most 1024 workloads looks once behind the last.
abbrev pub walk_fuel : ℕ
walk_fuel = suc max_queued

-- The fields that mvgal_workload_complete writes.
abbrev pub completed_workload : Workload → Status → ℕ → Workload
completed_workload w result now = record w {
  end_time = now;
  state = if is_success result then completed else failed;
  descriptor_completed = true;
  descriptor_result = result;
  descriptor_end_time = now;
  completion_signaled = true;
  completion_status = result;
}

abbrev pub notify : Option ℕ → ℕ → Status → List Call → List Call
notify none w result called = called
notify (some f) w result called = record { callback = f; workload = w; result = result } ∷ called

abbrev pub and_then : {A B : Type 0} → Option A → (A → Option B) → Option B
and_then none f = none
and_then (some a) f = f a

abbrev pub with_success : {S : Type 0} → Option (Scheduler S) → Option (Status × Scheduler S)
with_success none = none
with_success (some s) = some (success, s)

module _ {S : Type 0} (clock : ℕ → ℕ) where
  -- mvgal_workload_complete
  unfoldable pub complete : Scheduler S → Option ℕ → Status → Scheduler S
  complete s none result = s
  complete s (some w) result = record s {
    heap = update s.heap w (completed_workload (s.heap w) result (clock s.readings));
    readings = s.readings + 1;
    stats = record s.stats {
      completed = (s.stats.completed + 1) % u64_mod;
      failed = if is_success result then s.stats.failed else (s.stats.failed + 1) % u64_mod;
    };
    called = notify (s.heap w).callback w result s.called;
  }

  module _ (strategy : Strategy S) where
    -- The body of the loop, for a workload that was dequeued.
    unfoldable pub process_one : Scheduler S → ℕ → Scheduler S
    process_one s w =
        let a : Applied S = strategy.apply s.strategy_state s.heap w in
        let done : Scheduler S =
          complete (record s { heap = a.heap; strategy_state = a.state }) (some w) success in
        record done { heap = release done.heap (some w) }

    -- What a round of the loop does with the workload that was dequeued, or with NULL.
    unfoldable pub after_dequeue : Scheduler S → Option (Option ℕ × Linked) → Option (Scheduler S)
    after_dequeue s none = none
    after_dequeue s (some (none, l)) = some (relink s l)
    after_dequeue s (some (some w, l)) = some (process_one (relink s l) w)

    -- The loop of mvgal_scheduler_process_internal on fuel; `none` means that the fuel ran out.
    unfoldable pub process_loop : ℕ → Scheduler S → Option (Scheduler S)
    process_loop zero s = none
    process_loop (suc fuel) s =
        if ltb 0 s.ready.count
        then and_then (after_dequeue s (dequeue_priority walk_fuel s.heap s.ready))
            (process_loop fuel)
        else some s

    -- mvgal_scheduler_process_internal
    unfoldable pub process_internal : ℕ → Scheduler S → Option (Status × Scheduler S)
    process_internal fuel s =
        if s.initialized then with_success (process_loop fuel s) else some (not_initialized, s)
