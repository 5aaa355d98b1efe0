-- ===== src/Sched/Tests.antt =====
-- The theorems on the scheduler at concrete workloads: two are queued, at the addresses 1 and 2.
use mvgal.Base.{
  ℕ, ◌+◌, ◌-◌, ◌%◌, ◌<◌, ◌≤◌, ◌≡◌, ◌⊎◌, refl, true, false, ◌&&◌, Option, none, some, List, [], ◌∷◌,
  ◌++◌, arith, ltb, ◌==◌, if◌then◌else◌, get_elem?,
}
use mvgal.Status.{success, memory_error, interrupted}
use mvgal.Sched.Types.{Workload, queued, completed, compute, Heap, WorkloadQueue, max_queued}
use mvgal.Sched.Queue.{enqueue, dequeue_priority, unlink, Linked}
use mvgal.Sched.Queue.Links.{IsQueue, SameButLinks}
use mvgal.Sched.Queue.Fifo.{enqueue-IsQueue}
use mvgal.Sched.Queue.Unlink.{unlink-IsQueue}
use mvgal.Sched.Queue.Priority.{Chosen, NotHigher, dequeue_priority-Chosen}
use mvgal.Sched.State.{Scheduler}
use mvgal.Sched.Process.{process_loop}
use mvgal.Sched.Process.Drain.{Drained, process_loop-Drained}
use mvgal.Sched.Process.Livelock.{process_loop_never}
use mvgal.Sched.Calls.{SubmitInfo, submit, cancel, is_completed, get_result}
use mvgal.Sched.Calls.Submit.{submit-Finished}
use mvgal.Sched.Calls.Cancel.{cancel-process_loop}
use mvgal.Sched.Gpus.{
  Afr, Floats, Gpus, find_best_gpu, afr_configure, no_gpu, masked, best_from, gpu_suitable,
  calculate_score,
}
use mvgal.Sched.Strategies.{
  is_usable, has_bits, get_task_mapping, task_score, any_score, pick_task, search_from,
}
use mvgal.Sched.Strategies.Hybrid.{can_compute, adjusted_score, pick_offload}
use mvgal.Sched.Strategies.Picking.{IsPicked, picks-IsPicked}
use mvgal.Sched.Gpus.Best.{IsBest, find_best_gpu-IsBest}
use mvgal.Sched.Gpus.Rotation.{nth_gpu, afr_configure-nth_gpu}
use mvgal.Sched.Gpus.Assigning.{afr_strategy}

abbrev block : ℕ → Option ℕ → Option ℕ → Workload
block priority next prev = record {
  refcount = 2;
  state = queued;
  id = 1;
  kind = compute;
  priority = priority;
  gpu_mask = 6;
  submission_time = 0;
  deadline = 0;
  assigned_gpu = no_gpu;
  descriptor_completed = false;
  descriptor_result = success;
  descriptor_end_time = 0;
  callback = some 7;
  assigned_gpu_count = 0;
  assigned_gpus = λ i. 0;
  queue_time = 0;
  end_time = 0;
  completion_signaled = false;
  completion_status = success;
  next = next;
  prev = prev;
  freed = false;
}

abbrev two : ℕ → ℕ → Heap
two p q y =
    if y == 1
    then block p (some 2) none
    else if y == 2
    then block q none (some 1)
    else block 50 none none

abbrev two_queue : ℕ → WorkloadQueue
two_queue total = record { head = some 1; tail = some 2; count = 2; total_priority = total }

two-IsQueue : IsQueue (two 10 90) (two_queue 100) (1 ∷ 2 ∷ [])
two-IsQueue = record {
  distinct = ((λ e. omega (arith, e), tt), (tt, tt));
  chain = (refl, refl, (refl, refl, tt));
  head = refl;
  tail = refl;
  count = refl;
  room = omega arith;
  words = (omega arith, (omega arith, tt));
  total = refl;
}

idle-IsQueue : IsQueue (two 0 0) (two_queue 0) (1 ∷ 2 ∷ [])
idle-IsQueue = record {
  distinct = ((λ e. omega (arith, e), tt), (tt, tt));
  chain = (refl, refl, (refl, refl, tt));
  head = refl;
  tail = refl;
  count = refl;
  room = omega arith;
  words = (omega arith, (omega arith, tt));
  total = refl;
}

abbrev rotation : Afr
rotation = record {
  current_gpu_index = 0;
  frame_counter = 0;
  gpu_count = 0;
  gpu_indices = λ i. 0;
  initialized = false;
}

abbrev no_best : Workload → Option ℕ
no_best w = none

abbrev busy : Heap → ℕ → Scheduler Afr
busy h total = record {
  heap = h;
  ready = two_queue total;
  initialized = true;
  paused = false;
  thread_running = false;
  next_workload_id = 3;
  stats = record { submitted = 2; completed = 0; failed = 0 };
  strategy_state = rotation;
  called = [];
  readings = 0;
}

abbrev clock : ℕ → ℕ
clock n = 100 + n

abbrev info : SubmitInfo
info = record { kind = compute; priority = 50; deadline = 0; gpu_mask = 6 }

process_loop-Drained_example :
    (s' : Scheduler Afr) × (ys : List ℕ) × (process_loop clock
        (afr_strategy no_best)
        3
        (busy (two 10 90) 100)
      ≡ some s')
    × Drained clock (afr_strategy no_best) (busy (two 10 90) 100) s' (1 ∷ 2 ∷ []) ys
process_loop-Drained_example =
    process_loop-Drained clock (afr_strategy no_best) 3 (busy (two 10 90) 100) (1 ∷ 2 ∷ [])
      two-IsQueue (omega arith, (omega arith, tt)) (omega arith)

process_loop_never_example : process_loop clock (afr_strategy no_best) 99 (busy (two 0 0) 0) ≡ none
process_loop_never_example =
    process_loop_never clock (afr_strategy no_best) 99 (busy (two 0 0) 0) 1 (2 ∷ []) idle-IsQueue
      (omega arith, (omega arith, tt))

dequeue_priority-Chosen_example :
    (NotHigher (two 10 90) 0 (1 ∷ 2 ∷ [])
      × (dequeue_priority 3 (two 10 90) (two_queue 100)
          ≡ some (none, record { heap = two 10 90; queue = two_queue 100 })))
    ⊎ ((x : ℕ) × (c : Chosen (two 10 90) 0 (1 ∷ 2 ∷ []) x) × (l : Linked) × (dequeue_priority 3
            (two 10 90)
            (two_queue 100)
          ≡ some (some x, l))
        × IsQueue l.heap l.queue (c.pre ++ c.post)
        × SameButLinks (two 10 90) l.heap)
dequeue_priority-Chosen_example =
    dequeue_priority-Chosen 3 (two 10 90) (two_queue 100) (1 ∷ 2 ∷ []) two-IsQueue (omega arith)

enqueue-IsQueue_example :
    ((2 < max_queued)
      × (l : Linked) × (enqueue (two 10 90) (two_queue 100) (some 3) ≡ (success, l))
      × IsQueue l.heap l.queue (1 ∷ 2 ∷ 3 ∷ [])
      × ((l.heap 3).refcount ≡ 3)
      × ((y : ℕ) → (l.heap y).priority ≡ (two 10 90 y).priority))
    ⊎ ((max_queued ≤ 2)
        × (enqueue (two 10 90) (two_queue 100) (some 3)
            ≡ (memory_error, record { heap = two 10 90; queue = two_queue 100 })))
enqueue-IsQueue_example =
    enqueue-IsQueue (two 10 90) (two_queue 100) (1 ∷ 2 ∷ []) 3 two-IsQueue
      (λ e. omega (arith, e), (λ e. omega (arith, e), tt)) (omega arith) (omega arith)

unlink-IsQueue_example :
    IsQueue
      (unlink (two 10 90) (two_queue 100) 2 90).heap
      (unlink (two 10 90) (two_queue 100) 2 90).queue
      (1 ∷ [])
unlink-IsQueue_example = unlink-IsQueue (two 10 90) (two_queue 100) (1 ∷ []) 2 [] two-IsQueue

submit-Finished_example :
    (s' : Scheduler Afr) × (submit clock
        (afr_strategy no_best)
        4
        (busy (two 10 90) 100)
        info
        none
        (some 3)
      ≡ some (success, some 3, s'))
    × ((s'.heap 3).state ≡ completed)
    × ((s'.heap 3).completion_signaled ≡ true)
    × ((s'.heap 3).completion_status ≡ success)
    × ((s'.heap 3).refcount ≡ 1)
    × IsQueue s'.heap s'.ready []
submit-Finished_example =
    submit-Finished clock (afr_strategy no_best) 4 (busy (two 10 90) 100) (1 ∷ 2 ∷ []) info none 3
      refl refl two-IsQueue (omega arith, (omega arith, tt))
      (λ e. omega (arith, e), (λ e. omega (arith, e), tt)) (omega arith) (omega arith) (omega arith)
      (omega arith)

cancel-process_loop_example :
    (s1 : Scheduler Afr) × (s2 : Scheduler Afr) × (cancel (busy (two 10 90) 100) (some 2)
      ≡ (success, s1))
    × (is_completed s1.heap (some 2) ≡ true)
    × (get_result s1.heap (some 2) ≡ interrupted)
    × (process_loop clock (afr_strategy no_best) 3 s1 ≡ some s2)
    × ((s2.heap 2).state ≡ completed)
    × (get_result s2.heap (some 2) ≡ success)
cancel-process_loop_example =
    cancel-process_loop clock (afr_strategy no_best) 3 (busy (two 10 90) 100) 2 (1 ∷ []) [] refl
      two-IsQueue (omega arith, (omega arith, tt)) (omega arith)

-- Numbers without a sign stand for floats.
abbrev naturals : Floats ℕ
naturals = record {
  lit = λ n d. n;
  negative = λ a. 0;
  of_u32 = λ n. n;
  add = λ a b. a + b;
  sub = λ a b. a - b;
  mul = λ a b. a;
  gt = λ a b. ltb b a;
}

naturals-trans : (a b c : ℕ) → ltb b a ≡ true → ltb c b ≡ true → ltb c a ≡ true
naturals-trans a b c e f = ground arith

naturals-irrefl : (a : ℕ) → ltb a a ≡ false
naturals-irrefl a = ground arith

abbrev three_gpus : Gpus ℕ
three_gpus = record {
  gpu_count = 3;
  gpus = λ i. record {
    available = true;
    enabled = true;
    utilization = 0;
    temperature = 0;
    compute_score = 10 + i;
    graphics_score = 5;
    priority = 50;
    features = 48;
  };
  thermal_aware = true;
}

find_best_gpu-IsBest_example :
    IsBest naturals naturals-trans naturals-irrefl three_gpus
      (block 50 none none)
      3
      (find_best_gpu naturals three_gpus (block 50 none none))
find_best_gpu-IsBest_example =
    find_best_gpu-IsBest naturals naturals-trans naturals-irrefl three_gpus (block 50 none none)

find_best_gpu_result : find_best_gpu naturals three_gpus (block 50 none none) ≡ some 2
unfolding find_best_gpu best_from gpu_suitable calculate_score
find_best_gpu_result = refl

picks-IsPicked_example :
    IsPicked naturals naturals-trans naturals-irrefl three_gpus
      (λ u.
        is_usable naturals u && has_bits u.features (get_task_mapping naturals compute).required)
      (task_score naturals (get_task_mapping naturals compute))
      (is_usable naturals)
      (any_score naturals)
      0
      (pick_task naturals three_gpus compute)
    × IsPicked naturals naturals-trans naturals-irrefl three_gpus
        (can_compute naturals)
        (adjusted_score naturals)
        (is_usable naturals)
        (adjusted_score naturals)
        0
        (pick_offload naturals three_gpus)
picks-IsPicked_example = picks-IsPicked naturals naturals-trans naturals-irrefl three_gpus compute

pick_offload_result : pick_offload naturals three_gpus ≡ some 2
unfolding pick_offload search_from
pick_offload_result = refl

afr_configure-nth_gpu_example :
    get_elem? (4 ∷ 0 ∷ 2 ∷ []) (5 % 3)
    ≡ some (nth_gpu 5 (afr_configure rotation (4 ∷ 0 ∷ 2 ∷ [])).1)
afr_configure-nth_gpu_example =
    afr_configure-nth_gpu rotation (4 ∷ 0 ∷ 2 ∷ []) 5 (omega arith) (omega arith)

masked_six : masked 6 16 0 ≡ 1 ∷ 2 ∷ []
unfolding masked
masked_six = refl
