-- ===== src/Sched/ThreadTests.antt =====
-- The theorem on interleavings, at a workload that is submitted, runs and is released.
use mvgal.Base.{ℕ, ◌+◌, ◌≡◌, refl, true, false, none, some, List, arith, update, []}
use mvgal.Status.{success}
use mvgal.Sched.Types.{Workload, pending, compute}
use mvgal.Sched.Queue.{empty, release}
use mvgal.Sched.Queue.Links.{IsQueue}
use mvgal.Sched.State.{Scheduler, Strategy}
use mvgal.Sched.Calls.{SubmitInfo, submit}
use mvgal.Sched.Calls.Submit.{submit-Finished}
use mvgal.Sched.Gpus.{Afr, no_gpu}
use mvgal.Sched.Gpus.Assigning.{afr_strategy}
use mvgal.Sched.Threads.{World, Reach, start, next, submits, releases, given}
use mvgal.Sched.Threads.References.{Owned, count}
use mvgal.Sched.Threads.Safety.{references_counted}

abbrev free_block : Workload
free_block = record {
  refcount = 0;
  state = pending;
  id = 0;
  kind = compute;
  priority = 0;
  gpu_mask = 0;
  submission_time = 0;
  deadline = 0;
  assigned_gpu = no_gpu;
  descriptor_completed = false;
  descriptor_result = success;
  descriptor_end_time = 0;
  callback = none;
  assigned_gpu_count = 0;
  assigned_gpus = λ i. 0;
  queue_time = 0;
  end_time = 0;
  completion_signaled = false;
  completion_status = success;
  next = none;
  prev = none;
  freed = true;
}

abbrev rotation : Afr
rotation = record {
  current_gpu_index = 0;
  frame_counter = 0;
  gpu_count = 0;
  gpu_indices = λ i. 0;
  initialized = false;
}

abbrev strategy : Strategy Afr
strategy = afr_strategy (λ w. none)

abbrev clock : ℕ → ℕ
clock n = 100 + n

abbrev info : SubmitInfo
info = record { kind = compute; priority = 50; deadline = 0; gpu_mask = 6 }

abbrev waiting : Scheduler Afr
waiting = record {
  heap = λ y. free_block;
  ready = empty;
  initialized = true;
  paused = false;
  thread_running = false;
  next_workload_id = 1;
  stats = record { submitted = 0; completed = 0; failed = 0 };
  strategy_state = rotation;
  called = [];
  readings = 0;
}

waiting-IsQueue : IsQueue waiting.heap waiting.ready []
waiting-IsQueue = record {
  distinct = tt;
  chain = tt;
  head = refl;
  tail = refl;
  count = refl;
  room = omega arith;
  words = tt;
  total = refl;
}

-- The submission at the address 1: the scheduler after it, and that the call computes to it.
run_of :
    (s' : Scheduler Afr) × (submit clock strategy 9 waiting info none (some 1)
      ≡ some (success, some 1, s'))
run_of =
    let r =
      submit-Finished clock strategy 9 waiting [] info none 1 refl refl waiting-IsQueue tt tt
        (omega arith) (omega arith) (omega arith) (omega arith) in
    (r.0, r.1)

abbrev submitted : World Afr
submitted = record { sched = run_of.0; users = given (some 1) (λ y. 0); flying = λ y. 0 }

submitted-Reach : Reach clock strategy submitted
submitted-Reach =
    next (start waiting refl (λ y. refl))
      (submits 9 info none 1 success (some 1) submitted.sched refl refl (omega arith) run_of.1)

abbrev released : World Afr
released = record {
  sched = record submitted.sched { heap = release submitted.sched.heap (some 1) };
  users = update submitted.users 1 0;
  flying = submitted.flying;
}

released-Reach : Reach clock strategy released
released-Reach = next submitted-Reach (releases 1 (omega arith))

references_counted_example :
    (xs : List ℕ) × IsQueue released.sched.heap released.sched.ready xs
    × ((y : ℕ)
        → Owned
            (released.sched.heap y).freed
            (released.sched.heap y).refcount
            (released.users y + released.flying y + count y xs))
references_counted_example = references_counted clock strategy released-Reach
