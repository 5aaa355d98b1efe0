-- ===== src/Execution/Tests.antt =====
-- The theorems on the execution engine at concrete frames: one graphics frame in a new table, on two GPUs.
use mvgal.Base.{◌≡◌, refl, true, false, none, some, [], length, arith}
use mvgal.Status.{success}
use mvgal.Sched.Types.{pending, compute, Workload}
use mvgal.Sched.Queue.{empty}
use mvgal.Sched.Settings.{Distribution, hybrid, auto}
use mvgal.Sched.State.{Scheduler, Strategy}
use mvgal.Execution.Frames.{
  Frame, Execution, Core, BeginInfo, vulkan, no_statistics, module_init, begin_frame, new_frame,
  find_frame_state, allocate_frame_state,
}
use mvgal.Execution.Frames.Table.{IsTable, Begun, module_init-IsTable, begin_frame-Begun}
use mvgal.Execution.Planning.{SubmitInfo, GpuManager, enabled_gpus, choose_strategy, unknown}
use mvgal.Execution.Planning.Choice.{IsDecided, choose_strategy-IsDecided}
use mvgal.Execution.Submission.{Plan, planned, workload_info, execution_submit, present}
use mvgal.Execution.Submission.Changes.{Changed, IsPresented, present-Changed}
use mvgal.Execution.Submission.Running.{Ran, execution_submit-Ran}
use mvgal.Sched.Calls.{submit}
use mvgal.Sched.Queue.Links.{IsQueue}

abbrev core : Core
core = record {
  is_initialized = true;
  init = success;
  current = some 5;
  create = (success, 6);
  set_current = success;
  strategy = λ c. hybrid;
  steam = false;
  proton = false;
}

abbrev two_gpus : GpuManager
two_gpus = record {
  count = 2;
  is_enabled = λ i. true;
  vendor = λ i. some 1;
  copy_method = λ i j. 0;
}

abbrev begin_info : BeginInfo
begin_info = record {
  api = vulkan;
  requested_strategy = auto;
  steam_mode = false;
  proton_mode = false;
  low_latency = true;
}

abbrev off : Execution
off = record { initialized = false; next_frame_id = 0; frames = []; stats = no_statistics }

abbrev started : Execution
started = (module_init off).1

started-IsTable : IsTable started
started-IsTable = module_init-IsTable off refl

begin_frame-Begun_example :
    let (st, id, s') = begin_frame core 1000 (some 5) (some begin_info) started in
    (st ≡ success) × (id ≡ some 1) × Begun started (new_frame core 1000 1 5 begin_info) s'
unfolding module_init
begin_frame-Begun_example =
    begin_frame-Begun core 1000 5 begin_info started refl refl started-IsTable (omega arith)

abbrev frame : Frame
frame = new_frame core 1000 1 5 begin_info

abbrev one_frame : Execution
one_frame = (begin_frame core 1000 (some 5) (some begin_info) started).2

one_frame-IsTable : IsTable one_frame
one_frame-IsTable = begin_frame-Begun_example.2.table

one_frame_found : find_frame_state 1 one_frame.frames ≡ some (0, frame)
unfolding find_frame_state begin_frame module_init allocate_frame_state
one_frame_found = refl

present-Changed_example :
    (plan : Plan) × (x' : Execution) × (present two_gpus core 2000 (some 5) 1 vulkan one_frame
      ≡ (success, some plan, x'))
    × IsPresented two_gpus vulkan frame plan
    × Changed one_frame 1 0
        (record frame { present_count = 1; active = false; end_time_ns = 2000 })
        x'
    × (x'.stats ≡ record one_frame.stats { frames_completed = 1 })
unfolding begin_frame module_init
present-Changed_example =
    present-Changed two_gpus core 2000 5 1 0 vulkan one_frame frame refl refl one_frame-IsTable
      (λ e. omega (arith, e)) one_frame_found

abbrev info : SubmitInfo
info = record {
  frame_id = 1;
  api = vulkan;
  requested_strategy = auto;
  kind = unknown;
  is_present = false;
  is_frame_end = false;
  data_size = 4096;
  resource_bytes = 134_217_728;
  command_buffer_count = 1;
  queue_family_flags = 1;
  gpu_mask = 0;
}

choose_strategy-IsDecided_example :
    IsDecided (length (enabled_gpus two_gpus)) (choose_strategy two_gpus frame info)
choose_strategy-IsDecided_example = choose_strategy-IsDecided two_gpus frame info

split_frames : choose_strategy two_gpus frame info ≡ Distribution.sfr
unfolding choose_strategy
split_frames = refl

abbrev free_block : Workload
free_block = record {
  refcount = 0;
  state = pending;
  id = 0;
  kind = compute;
  priority = 0;
  gpu_mask = 0;
  submission_time = 0;
  deadline = 0;
  assigned_gpu = 4_294_967_295;
  descriptor_completed = false;
  descriptor_result = success;
  descriptor_end_time = 0;
  callback = none;
  assigned_gpu_count = 0;
  assigned_gpus = λ i. 0;
  queue_time = 0;
  end_time = 0;
  completion_signaled = false;
  completion_status = success;
  next = none;
  prev = none;
  freed = true;
}

-- A strategy that leaves every workload as it is; its state is the strategy's name.
abbrev idle : Strategy Distribution
idle = record {
  apply = λ d h w. record { state = d; heap = h; status = success };
  assigns = λ s h w y. refl;
}

abbrev waiting : Scheduler Distribution
waiting = record {
  heap = λ y. free_block;
  ready = empty;
  initialized = true;
  paused = false;
  thread_running = false;
  next_workload_id = 1;
  stats = record { submitted = 0; completed = 0; failed = 0 };
  strategy_state = hybrid;
  called = [];
  readings = 0;
}

waiting-IsQueue : IsQueue waiting.heap waiting.ready []
waiting-IsQueue = record {
  distinct = tt;
  chain = tt;
  head = refl;
  tail = refl;
  count = refl;
  room = omega arith;
  words = tt;
  total = refl;
}

execution_submit-Ran_example :
    (plan : Plan) × (x' : Execution) × (s1 : Scheduler Distribution) × (s' : Scheduler Distribution)
    × (submit
          (λ n. n)
          idle
          9
          (record waiting { strategy_state = choose_strategy two_gpus frame info })
          (workload_info two_gpus 1500 info (planned two_gpus frame info))
          none
          (some 1)
        ≡ some (success, some 1, s1))
    × (execution_submit
          (λ n. n)
          idle
          (λ t. t)
          (λ t d. d)
          two_gpus
          core
          1500
          9
          (some 1)
          (some 5)
          (some info)
          one_frame
          waiting
        ≡ some (success, some plan, x', s'))
    × Ran (λ t. t) two_gpus info one_frame waiting 0 1 frame plan x' s1 s'
unfolding begin_frame module_init
execution_submit-Ran_example =
    execution_submit-Ran (λ n. n) idle (λ t. t) (λ t d. d) two_gpus core 1500 9 1 5 0 info one_frame
      waiting frame [] (λ t d. refl) refl refl one_frame-IsTable (λ e. omega (arith, e))
      one_frame_found refl refl waiting-IsQueue tt tt (omega arith) (omega arith)
