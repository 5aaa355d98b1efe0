-- ===== src/Lib.antt =====
-- Verification of MVGAL, the multi-vendor GPU aggregation layer.
--
-- The development models six parts of the program.
-- * The NT synchronization objects for Windows programs, compat/windows/mvgal_ntsync.c:
--   Nt/Event, Nt/Mutex, Nt/Semaphore, Nt/Timer, and in Nt/Multi the wait for several events
--   (mvgal_nt_wait_multiple). Each file has the operations under the functions' names less their
--   prefix, for instance `Nt.Mutex.unlock` for mvgal_nt_mutex_unlock. A part of
--   mvgal_nt_mutex_lock does not take the mutex's own lock, so Nt/Mutex/Steps has its reads and
--   writes as the steps of threads.
-- * The scheduler of src/userspace/scheduler. Sched/Types has struct mvgal_workload on a heap
--   of addresses. Sched/Queue has the queue operations of scheduler.c, an intrusive doubly linked
--   list; Sched/Queue/Links says when it stands for a list. Sched/Process has
--   mvgal_workload_complete and the loop of mvgal_scheduler_process_internal, which takes the
--   strategy as an interface (`Sched.State.Strategy`); Sched/Calls has the public calls on
--   workloads, Sched/Settings the configuration calls and the manual assignment of GPUs;
--   Sched/Gpus has the search for the best GPU and the rotation of strategy/afr.c, which fills
--   the interface in Sched/Gpus/Assigning. Sched/Frames has the split of a frame of
--   strategy/sfr.c and its distribution to GPUs; Sched/Strategies has strategy/task.c and the
--   switch of mvgal_scheduler_apply_strategy, which as a whole fills the interface in
--   Sched/Strategies/Applying; Sched/Strategies/Hybrid has strategy/hybrid.c and
--   strategy/compute_offload.c, which the switch does not call. Sched/Balance has the load
--   balancer of load_balancer.c, and Sched/Splitters the table of custom splitters of
--   workload_splitter.c. Sched/Threads has the users' calls as steps that come in any order,
--   and those of the scheduler thread, which no code creates.
-- * The memory manager, src/userspace/memory. Memory/Fences and Memory/Semaphores have sync.c,
--   again under the functions' names less their prefix; Memory/Aliases has the creation of
--   buffers that share their parent's memory, of allocator.c.
-- * The kernel module. Kernel/Sync has the timelines and fences of kernel/mvgal_sync.c. Of
--   kernel/mvgal_scheduler.c, Kernel/Workloads has the workloads and the four priority queues,
--   Kernel/Dispatch the choice of a GPU and the dispatcher, and Kernel/Submit the ioctl that
--   submits a workload to a GPU past the queues. Kernel/Uva has the allocation of unified virtual
--   addresses of kernel/mvgal_memory.c.
-- * The daemon's messages, src/userspace/daemon/ipc.c. Daemon/Streams says what read() and
--   write() do to a stream, Daemon/Ipc has mvgal_ipc_send and mvgal_ipc_receive, and
--   Daemon/Server the server's loop for a client, which asks the other parts through an interface
--   (`Daemon.Server.Services`); its submission may never return, as
--   mvgal_workload_submit does not for the priority 0.
-- * The execution engine, src/userspace/execution/execution.c. Execution/Frames has the table
--   of frames and mvgal_execution_begin_frame, Execution/Planning the choice of a strategy and
--   the other pure parts of a plan, and Execution/Submission mvgal_execution_submit and
--   mvgal_execution_present; Execution/Reports has the statistics. A submission calls
--   `Sched.Calls.submit`; the library's core and the GPUs are interfaces
--   (`Execution.Frames.Core`, `Execution.Planning.GpuManager`).
-- The scheduler calls its strategy for each workload that its queue gives out. The execution
-- engine submits its workloads to the scheduler and sets its strategy. The NT objects, the memory
-- manager, the kernel module and the messages stand beside them and share no state.
--
-- State is passed explicitly. A pointer is an address or `none` for NULL; a structure is a record
-- of the fields that the code reads; unsigned words wrap around by `%` where the code computes on
-- them. A call that holds its lock throughout is one step. A wait on a condition variable runs
-- along a schedule (Base/Wait): for each wakeup, what the call returned and what other threads
-- did before it; the laws there hold for every schedule. A schedule that is used up means that
-- the caller is blocked.
--
-- Fuel: the walk over a queue has fuel 1025, one more than MVGAL_SCHEDULER_MAX_QUEUED. The
-- processing loop has fuel as an argument, and it is enough to have more than workloads are
-- queued, where their priorities are above 0. The polling wait runs along its rounds. The inner
-- loop of the kernel's dispatcher has fuel as an argument, and it is enough to have more than a
-- queue is long, where each queued workload has a GPU. The lines of the checkerboard mode of a
-- split have fuel too.
--
-- The server's loop runs for as many rounds as it is given, which stands for the flag that ends
-- it.
--
-- Parameters of the model: the limits of each read and write, the kernel's red-black tree,
-- whether calloc and the pthread calls succeed, the clock, timerfd's answers, the arithmetic of
-- `float`, the library's core, its contexts and the environment's modes, the sensors of the GPUs,
-- the splitters' callbacks, the configuration and GPUs that a scan finds. The callbacks of
-- workloads are recorded, not run.
--
-- Not modelled: the recommendation of the hybrid strategy as text, the rest of the memory
-- manager's buffers, their release included, the rest of the daemon, and of the execution engine
-- the migration of memory and the Steam profile are left for later. So are
-- mvgal_workload_set_priority while the scheduler thread runs, and submissions to the kernel's
-- queues while its dispatcher runs. The interception layers, bindings, tools and user interfaces
-- forward to drivers or are other languages. The GPU execution times and other fields that no
-- code modelled here reads are left out of the records; the strategy data of workloads are a
-- table beside the heap, in Sched/Frames/Distribute.
pub mod Base
pub mod Status
pub mod Nt
pub mod Memory
pub mod Sched
pub mod Kernel
pub mod Daemon
pub mod Execution
