-- ===== src/Sched.antt =====
-- The scheduler of src/userspace/scheduler: its workload queues, the loop that processes them, the
-- public calls on workloads, and the choice of a GPU.
pub mod Types
pub mod Queue
pub mod State
pub mod Process
pub mod Calls
pub mod Gpus
pub mod Frames
pub mod Balance
pub mod Splitters
pub mod Settings
pub mod Threads
mod Tests
pub mod Strategies
mod ThreadTests
mod FrameTests
mod BalanceTests
mod SplitterTests
