-- ===== src/Nt/Semaphore.antt =====
-- Semaphores of compat/windows/mvgal_ntsync.c: a uint32_t count and its maximum.
pub mod Release
pub mod Take
use mvgal.Base.{
  ℕ, zero, suc, ◌+◌, ◌-◌, ◌%◌, Bool, true, false, not, ◌&&◌, ◌||◌, Option, none, some, List, ltb,
  leb, ◌==◌, if◌then◌else◌,
}
use mvgal.Base.Wait.{Wakeup, Waited, ready, timeout, error, blocked, wait_loop, timed_loop}
use mvgal.Nt.Codes.{
  Host, Outcome, returned, refused, object_0, wait_timeout, wait_failed, u32_mod, forever,
}

pub record Semaphore : Type 0 where
  pub count : ℕ
  pub max_count : ℕ

unfoldable pub create : Host → ℕ → ℕ → Bool → Option Semaphore
create host initial_count max_count out =
    if not out
    then none
    else if ltb max_count initial_count || max_count == 0
    then none
    else if not host.calloc
    then none
    else if not host.mutex_init
    then none
    else if not host.cond_init
    then none
    else some (record { count = initial_count; max_count = max_count })

-- The loop that wakes waiters, from `i` on with `left` rounds left: the number of signals.
unfoldable pub wakeups : ℕ → ℕ → ℕ → ℕ → ℕ
wakeups old max_count zero i = 0
wakeups old max_count (suc left) i =
    (if ltb ((old + i) % u32_mod) max_count then 1 else 0) + wakeups old max_count left (i + 1)

-- The result of a release: the code is 0 if `accepted`, else -1.
pub record Released : Type 0 where
  pub accepted : Bool
  pub semaphore : Semaphore
  pub previous_count : ℕ
  pub signals : ℕ

-- `none` is -1 for a bad argument, before anything is written.
unfoldable pub release : Option Semaphore → ℕ → Option Released
unfolding wakeups
release none release_count = none
release (some s) release_count =
    let new_count : ℕ = (s.count + release_count) % u32_mod in
    if release_count == 0
    then none
    else if ltb s.max_count new_count
    then some (record { accepted = false; semaphore = s; previous_count = s.count; signals = 0 })
    else some (record {
      accepted = true;
      semaphore = record s { count = new_count };
      previous_count = s.count;
      signals = wakeups s.count s.max_count release_count 0;
    })

abbrev pub available : Semaphore → Bool
available s = not (s.count == 0)

-- atomic_fetch_sub, and the code by the count that it returns.
unfoldable pub take : Semaphore → Outcome Semaphore
take s =
    returned (if ltb 0 s.count then object_0 else wait_timeout)
      (record s { count = (s.count + u32_mod - 1) % u32_mod })

-- After a wait loop. These loops never end by `error`.
unfoldable pub after_wait : Waited Semaphore → Outcome Semaphore
unfolding take
after_wait (ready s) = take s
after_wait (timeout s) = returned wait_timeout s
after_wait (error s) = Outcome.blocked s
after_wait (blocked s) = Outcome.blocked s

unfoldable pub wait : Option Semaphore → ℕ → List (Wakeup Semaphore) → Outcome Semaphore
wait none timeout_ns schedule = refused wait_failed
wait (some s) timeout_ns schedule =
    if ltb 0 s.count
    then returned object_0 (record s { count = s.count - 1 })
    else if timeout_ns == 0
    then returned wait_timeout s
    else if timeout_ns == forever
    then after_wait (wait_loop available schedule s)
    else after_wait (timed_loop available schedule s)

unfoldable pub query : Option Semaphore → Option (ℕ × ℕ)
query none = none
query (some s) = some (s.count, s.max_count)
