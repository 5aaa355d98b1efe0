-- ===== src/Memory.antt =====
-- The userspace memory manager, src/userspace/memory: its fences and semaphores, and the aliases of
-- its buffers.
pub mod Fences
pub mod Semaphores
pub mod Aliases
mod Tests
