-- ===== src/Kernel.antt =====
-- The kernel module under kernel/.
pub mod Sync
pub mod Workloads
pub mod Dispatch
pub mod Submit
pub mod Uva
mod Tests
mod DispatchTests
mod UvaTests
