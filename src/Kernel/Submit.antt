-- ===== src/Kernel/Submit.antt =====
-- kernel/mvgal_scheduler.c: mvgal_ioctl_submit_workload, which gives a workload to a GPU itself, past
-- the queues.
pub mod Ends
use mvgal.Base.{
  ℕ, ◌+◌, ◌*◌, Bool, true, false, not, Option, none, some, List, [], ◌∷◌, ◌++◌, ltb, if◌then◌else◌,
}
use mvgal.Base.Wait.{Wakeup}
use mvgal.Kernel.Workloads.{
  Workload, Scheduler, complete, einval, enomem, efault, enodev, is_negative, alloc, free,
  with_workload, wait,
}
use mvgal.Kernel.Dispatch.{Gpu, has_bit, find_available_gpu, submit_cs}

-- struct mvgal_submit_workload_args, less its number of memory resources, which is not read.
pub record Args : Type 0 where
  pub workload_id : ℕ
  pub workload_type : ℕ
  pub priority : ℕ
  pub gpu_mask : ℕ
  pub flags : ℕ
  pub timeout_ms : ℕ
  pub result : ℕ
  pub command_buffer_addr : ℕ
  pub command_buffer_size : ℕ

-- MVGAL_MAX_WORKLOAD_SIZE
abbrev pub max_workload_size : ℕ
max_workload_size = 16 * 1024 * 1024

-- MVGAL_WORKLOAD_TRANSFER
abbrev pub workload_transfer : ℕ
workload_transfer = 2

-- Whether each copy_from_user copies all of its bytes.
pub record Copies : Type 0 where
  pub addr : Bool
  pub size : Bool
  pub priority : Bool
  pub gpu_mask : Bool

-- The call has returned, with the arguments, the list of the file, if it has one, and the scheduler as
-- they are then, or it is still waiting.
pub data SubmitEnd : Type 0 where
  returned : ℕ → Args → Option (List ℕ) → Scheduler → SubmitEnd
  waiting : Args → Scheduler → SubmitEnd

-- The workload with what was copied into it.
abbrev pub filled : Args → Workload → Workload
filled args v = record v {
  command_buffer_addr = args.command_buffer_addr;
  command_buffer_size = args.command_buffer_size;
  priority = args.priority;
  gpu_mask = args.gpu_mask;
  kind = args.workload_type;
}

-- The copies into the new workload; `none` when one fails, after which the block is freed.
abbrev pub copied : Copies → Args → Workload → Option Workload
copied copies args v =
    if not copies.addr
    then none
    else if not copies.size
    then none
    else if not copies.priority
    then none
    else if not copies.gpu_mask
    then none
    else some (filled args v)

-- The list of the file with one more workload.
abbrev pub stored : ℕ → Option (List ℕ) → Option (List ℕ)
stored w none = none
stored w (some ws) = some (ws ++ w ∷ [])

module _ (ws : List (Wakeup Workload)) (copies : Copies) (gpus : List Gpu) (args : Args)
    (file : Option (List ℕ)) where
  abbrev pub err_free : ℕ → Scheduler → ℕ → SubmitEnd
  err_free w s ret = returned ret args file (free s (some w))

  -- The end of mvgal_workload_wait.
  abbrev pub waited : ℕ → Scheduler → Option ℕ × Option Workload → SubmitEnd
  waited w s (r, none) = waiting args s
  waited w s (none, some v) =
      waiting (record args { workload_id = (s.heap w).id }) (with_workload s w v)
  waited w s (some r, some v) =
      returned 0 (record args { workload_id = (s.heap w).id; result = r }) (stored w file)
        (with_workload s w v)

  -- A submission that was accepted, from the return of the workload's id on.
  unfoldable pub accepted : ℕ → Scheduler → SubmitEnd
  accepted w s =
      if has_bit args.flags 0
      then waited w s (wait ws (some (s.heap w)) args.timeout_ms)
      else returned 0 (record args { workload_id = (s.heap w).id }) (stored w file) s

  -- The workload as the submission to the GPU leaves it.
  abbrev pub given_to : Gpu → Workload → Workload
  given_to g v =
      let v1 : Workload = record v { assigned_gpu = some g.gpu_index } in
      if g.ops then v1 else record v1 { state = complete }

  -- The submission to the GPU that was found.
  unfoldable pub submit_to : ℕ → Scheduler → Option Gpu → SubmitEnd
  unfolding accepted
  submit_to w s none = err_free w s enodev
  submit_to w s (some g) =
      let s1 : Scheduler = with_workload s w (given_to g (s.heap w)) in
      let ret : ℕ = if g.ops then submit_cs g else 0 in
      if is_negative ret then err_free w s1 ret else accepted w s1

  unfoldable pub fill : ℕ → Scheduler → Option Workload → SubmitEnd
  unfolding submit_to
  fill w s none = err_free w s efault
  fill w s (some v) = submit_to w (with_workload s w v) (find_available_gpu gpus v.gpu_mask)

  unfoldable pub with_block : Option ℕ × Scheduler → SubmitEnd
  unfolding fill
  with_block (none, s) = returned enomem args file s
  with_block (some w, s) = fill w s (copied copies args (s.heap w))

  -- mvgal_ioctl_submit_workload; `fresh` is what kzalloc returns.
  unfoldable pub ioctl_submit_workload : Option ℕ → Scheduler → SubmitEnd
  unfolding with_block
  ioctl_submit_workload fresh s =
      if ltb max_workload_size args.command_buffer_size
      then returned einval args file s
      else if ltb workload_transfer args.workload_type
      then returned einval args file s
      else with_block (alloc s fresh)
