-- ===== src/Execution/Submission/Running.antt =====
-- A submission without a scheduler thread, which runs the workload before it returns.
use mvgal.Base.{
  suc, List, [], All, length, ℕ, ◌+◌, ◌%◌, ◌^◌, ◌<◌, ◌≡◌, ◌≢◌, refl, sym, ap, ◌∙◌, true, false,
  none, some, ◌==◌, arith,
}
use mvgal.Status.{success}
use mvgal.Sched.Types.{completed, Workload, WorkloadQueue, Heap, max_queued}
use mvgal.Sched.Queue.{release}
use mvgal.Sched.Settings.{Distribution}
use mvgal.Sched.State.{Scheduler, Strategy}
use mvgal.Sched.Calls.{submit}
use mvgal.Sched.Calls.Submit.{submit-Finished}
use mvgal.Sched.Queue.Links.{IsQueue, NotIn}
use mvgal.Execution.Frames.{Frame, Execution, Core, find_frame_state}
use mvgal.Execution.Frames.Table.{IsTable, enter-success}
use mvgal.Execution.Planning.{SubmitInfo, GpuManager, choose_strategy, selected_gpus}
use mvgal.Execution.Submission.{
  priority_of, Plan, planned, assigned_plan, workload_info, record_submission,
  submit_scheduler_workload, submit_for, with_strategy, execution_submit,
}
use mvgal.Execution.Submission.Changes.{Changed, record_submission-Changed}

nonzero : (n : ℕ) → n ≢ 0 → (n == 0) ≡ false
nonzero n pos = ground (arith, pos)

module _ {S : Type 0} (clock : ℕ → ℕ) (strategy : Strategy S) (get_strategy : S → Distribution)
    (set_strategy : S → Distribution → S) (m : GpuManager) (core : Core) (now fuel w context i : ℕ)
    (info : SubmitInfo) (x : Execution) (s : Scheduler S) (f : Frame) where
  -- A submission for a frame that is there is that of its plan to the scheduler.
  execution_submit-runs :
      (plan : Plan) (x' : Execution) (s' : Scheduler S)
      → record_submission info.frame_id plan info.api x ≡ x'
      → core.is_initialized ≡ true
      → x.initialized ≡ true
      → info.frame_id ≢ 0
      → find_frame_state info.frame_id x.frames ≡ some (i, f)
      → submit_scheduler_workload clock strategy get_strategy set_strategy m core now fuel
          (some w)
          info
          (planned m f info)
          s
        ≡ some (success, plan, s')
      → execution_submit clock strategy get_strategy set_strategy m core now fuel
          (some w)
          (some context)
          (some info)
          x
          s
        ≡ some (success, some plan, x', s')
  unfolding execution_submit submit_for
  execution_submit-runs plan x' s' after c init pos e r =
      rw (enter-success core context x c init, nonzero info.frame_id pos, e, r)
        (ap (λ y. some (success, some plan, y, s')) after)

planned-applied :
    (m : GpuManager) (f : Frame) (info : SubmitInfo) (v : Workload)
    → (assigned_plan m (planned m f info) v).applied_strategy ≡ choose_strategy m f info
unfolding planned assigned_plan
planned-applied m f info v = refl

planned-selected :
    (m : GpuManager) (start : Plan) (v : Workload)
    → (assigned_plan m start v).selected_gpus ≡ selected_gpus m v
unfolding assigned_plan
planned-selected m start v = refl

release-Freed :
    (h : Heap) (w : ℕ)
    → (h w).refcount ≡ 1
    → ((release h (some w) w).freed ≡ true)
      × ((release h (some w) w).state ≡ (h w).state)
      × ((release h (some w) w).completion_status ≡ (h w).completion_status)
unfolding release
release-Freed h w e = ground (arith, e)

empty-IsQueue : (h h' : Heap) (q : WorkloadQueue) → IsQueue h q [] → IsQueue h' q []
empty-IsQueue h h' q v = record {
  distinct = tt;
  chain = tt;
  head = v.head;
  tail = v.tail;
  count = v.count;
  room = v.room;
  words = tt;
  total = v.total;
}

-- What a submission leaves behind: `s1` is the scheduler when the workload has run.
pub record Ran {S : Type 0} (get_strategy : S → Distribution) (m : GpuManager) (info : SubmitInfo)
    (x : Execution) (s : Scheduler S) (i w : ℕ) (f : Frame) (plan : Plan) (x' : Execution)
    (s1 s' : Scheduler S) : Type 0 where
  pub applied : plan.applied_strategy ≡ choose_strategy m f info
  pub planned_id : plan.workload_id ≡ (s1.heap w).id
  pub planned_gpus : plan.selected_gpus ≡ selected_gpus m (s1.heap w)
  pub finished : (s'.heap w).state ≡ completed
  pub status : (s'.heap w).completion_status ≡ success
  pub gone : (s'.heap w).freed ≡ true
  pub queue : IsQueue s'.heap s'.ready []
  pub restored : get_strategy s'.strategy_state ≡ get_strategy s.strategy_state
  pub changed :
      Changed x info.frame_id i
        (record f {
          submit_count = (f.submit_count + 1) % 4_294_967_296;
          bytes_scheduled = (f.bytes_scheduled + plan.estimated_bytes) % 18_446_744_073_709_551_616;
          applied_strategy = plan.applied_strategy;
          selected_gpus = plan.selected_gpus;
        })
        x'

module _ {S : Type 0} (clock : ℕ → ℕ) (strategy : Strategy S) (get_strategy : S → Distribution)
    (set_strategy : S → Distribution → S) (m : GpuManager) (core : Core) (now fuel w : ℕ)
    (info : SubmitInfo) (s : Scheduler S) (plan : Plan) where
  -- The scheduler with the plan's strategy, before the workload, and after it.
  abbrev pub chosen : Scheduler S
  chosen = with_strategy clock strategy get_strategy set_strategy m core now plan.applied_strategy s

  abbrev after : Scheduler S → Scheduler S
  after s1 =
      record (with_strategy clock strategy get_strategy set_strategy m core now
        (get_strategy s.strategy_state) s1) { heap = release s1.heap (some w) }

  workload-ran :
      (s1 : Scheduler S)
      → submit clock strategy fuel chosen (workload_info m now info plan) none (some w)
        ≡ some (success, some w, s1)
      → submit_scheduler_workload clock strategy get_strategy set_strategy m core now fuel
          (some w)
          info
          plan
          s
        ≡ some (success, assigned_plan m plan (s1.heap w), after s1)
  unfolding submit_scheduler_workload
  workload-ran s1 e = rw e refl

priority_of-Range : (info : SubmitInfo) → (0 < priority_of info) × (priority_of info < 2 ^ 32)
priority_of-Range info = ground arith

planned-id :
    (m : GpuManager) (start : Plan) (v : Workload) → (assigned_plan m start v).workload_id ≡ v.id
unfolding assigned_plan
planned-id m start v = refl

planned-chosen :
    {S : Type 0} (clock : ℕ → ℕ) (strategy : Strategy S) (get_strategy : S → Distribution)
    (set_strategy : S → Distribution → S) (m : GpuManager) (core : Core) (now fuel w : ℕ)
    (info : SubmitInfo) (s : Scheduler S) (f : Frame)
    → record s { strategy_state = set_strategy s.strategy_state (choose_strategy m f info) }
      ≡ chosen clock strategy get_strategy set_strategy m core now fuel w info s (planned m f info)
unfolding planned
planned-chosen clock strategy get_strategy set_strategy m core now fuel w info s f = refl

-- If a scheduler's strategy is what was set last, on an initialized engine with a well-formed table and
-- in a given context, with an initialized scheduler without a thread, fewer than 1024 workloads in its
-- queue, all of priority above 0, and fuel for all of them: a submission for a frame that is there, with
-- a new workload in the free block `w`, ends with success. While the chosen strategy is set, the
-- scheduler's submission completes the workload with success; the plan names that strategy, and the
-- workload's id and GPUs as the scheduler left them. Afterwards the queue is empty, the workload's
-- block is freed, the strategy is again the one of before, and of the table only the frame has changed:
-- its submissions and bytes are counted, with the plan's strategy and GPUs.
pub execution_submit-Ran :
    {S : Type 0} (clock : ℕ → ℕ) (strategy : Strategy S) (get_strategy : S → Distribution)
    (set_strategy : S → Distribution → S) (m : GpuManager) (core : Core) (now fuel w context i : ℕ)
    (info : SubmitInfo) (x : Execution) (s : Scheduler S) (f : Frame) (xs : List ℕ)
    → ((t : S) (d : Distribution) → get_strategy (set_strategy t d) ≡ d)
    → core.is_initialized ≡ true
    → x.initialized ≡ true
    → IsTable x
    → info.frame_id ≢ 0
    → find_frame_state info.frame_id x.frames ≡ some (i, f)
    → s.initialized ≡ true
    → s.thread_running ≡ false
    → IsQueue s.heap s.ready xs
    → All (λ y. 0 < (s.heap y).priority) xs
    → NotIn w xs
    → length xs < max_queued
    → suc (length xs) < fuel
    → (plan : Plan) × (x' : Execution) × (s1 : Scheduler S) × (s' : Scheduler S) × (submit clock
          strategy fuel
          (record s { strategy_state = set_strategy s.strategy_state (choose_strategy m f info) })
          (workload_info m now info (planned m f info))
          none
          (some w)
        ≡ some (success, some w, s1))
      × (execution_submit clock strategy get_strategy set_strategy m core now fuel
            (some w)
            (some context)
            (some info)
            x
            s
          ≡ some (success, some plan, x', s'))
      × Ran get_strategy m info x s i w f plan x' s1 s'
execution_submit-Ran clock strategy get_strategy set_strategy m core now fuel w context i info x s f
      xs law c init t pos e ready idle queue positive new room enough =
    let start : Plan = planned m f info in
    let word = priority_of-Range info in
    let prepared : Scheduler _ = record s {
      strategy_state = set_strategy s.strategy_state (choose_strategy m f info);
    } in
    let (s1, sub, state, signaled, status, refs, done) =
      submit-Finished clock strategy fuel prepared xs (workload_info m now info start) none w ready
        idle queue positive new room word.0 word.1 enough in
    let plan : Plan = assigned_plan m start (s1.heap w) in
    let s' : Scheduler _ =
      after clock strategy get_strategy set_strategy m core now fuel w info s start s1 in
    let free = release-Freed s1.heap w refs in
    (
      plan,
      record_submission info.frame_id plan info.api x,
      s1,
      s',
      sub,
      execution_submit-runs clock strategy get_strategy set_strategy m core now fuel w context i
          info x s f plan _ s' refl c init pos e
          (workload-ran clock strategy get_strategy set_strategy m core now fuel w info s start s1 (
            ap (λ y. submit clock strategy fuel y (workload_info m now info start) none (some w))
              (sym (
                planned-chosen clock strategy get_strategy set_strategy m core now fuel w info s f))
            ∙ sub)),
      record {
        applied = planned-applied m f info (s1.heap w);
        planned_id = planned-id m start (s1.heap w);
        planned_gpus = planned-selected m start (s1.heap w);
        finished = free.1 ∙ state;
        status = free.2 ∙ status;
        gone = free.0;
        queue = empty-IsQueue s1.heap s'.heap s1.ready done;
        restored = law _ _;
        changed = record_submission-Changed info.frame_id i plan info.api x f t e;
      },
    )
