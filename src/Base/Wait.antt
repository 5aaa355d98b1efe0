-- ===== src/Base/Wait.antt =====
-- A wait on a condition variable gives the lock up, and other threads change the object meanwhile.
-- What they did, and what pthread_cond_timedwait returned, is the schedule: one entry for each
-- return of the wait. A schedule that is used up means that the caller is still blocked.
mod Loops
mod Laws
unfoldable pub use Loops.{wait_loop, timed_loop, checked_loop}
pub use Loops.{CondRet, woke, etimedout, failed, Wakeup, Waited, ready, timeout, error, blocked}
pub use Loops.{state_of, IsReady, IsUntimed, Keeps}
pub use Laws.*
