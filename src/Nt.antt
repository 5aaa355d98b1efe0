-- ===== src/Nt.antt =====
-- compat/windows/mvgal_ntsync.c: the Windows NT events, mutexes, semaphores, timers and waits.
pub mod Codes
pub mod Event
pub mod Mutex
pub mod Semaphore
pub mod Timer
pub mod Multi
mod Tests
