-- ===== src/Execution.antt =====
-- The execution engine, src/userspace/execution: the table of frames, the plan for a submission, and the
-- submission to the scheduler.
pub mod Frames
pub mod Planning
pub mod Submission
pub mod Reports
mod Tests
