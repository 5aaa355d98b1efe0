-- ===== src/Memory/Semaphores.antt =====
-- Semaphores of src/userspace/memory/sync.c. A handle is an `Option`, with `none` for NULL. Each call
-- that holds the semaphore's lock throughout is one step.
pub mod Wait
pub mod Units
use mvgal.Base.{
  ℕ, ◌+◌, ◌-◌, ◌%◌, ◌^◌, Bool, true, false, not, ◌||◌, Option, none, some, List, leb, ◌==◌,
  if◌then◌else◌,
}
use mvgal.Base.Wait.{Wakeup, Waited, ready, timeout, error, blocked, wait_loop, checked_loop}
use mvgal.Nt.Codes.{Host, u64_mod}
use mvgal.Memory.Fences.{int_mod, at_most_one}
use mvgal.Status.{
  Status, success, invalid_argument, out_of_memory, initialization, timed_out, unknown,
}

-- struct mvgal_semaphore. `freed` marks a block that was given to free().
pub record Semaphore : Type 0 where
  pub count : ℕ
  pub refcount : ℕ
  pub freed : Bool

-- mvgal_semaphore_create; `out` says that the caller's pointer for the handle is not NULL.
unfoldable pub create : Host → ℕ → Bool → Status × Option Semaphore
create host initial_value out =
    if not out
    then (invalid_argument, none)
    else if not host.calloc
    then (out_of_memory, none)
    else if not host.mutex_init
    then (initialization, none)
    else if not host.cond_init
    then (initialization, none)
    else (success, some (record { count = initial_value; refcount = 1; freed = false }))

-- mvgal_semaphore_destroy
unfoldable pub destroy : Option Semaphore → Option Semaphore
destroy none = none
destroy (some s) =
    let left : ℕ = (s.refcount + int_mod - 1) % int_mod in
    if at_most_one s.refcount
    then some (record s { refcount = left; freed = true })
    else some (record s { refcount = left })

-- mvgal_semaphore_signal. The last number counts the calls of pthread_cond_signal.
unfoldable pub signal : Option Semaphore → ℕ → Status × Option Semaphore × ℕ
signal none value = (invalid_argument, none, 0)
signal (some s) value =
    if value == 0
    then (invalid_argument, some s, 0)
    else (success, some (record s { count = (s.count + value) % u64_mod }), value)

-- `s->count -= value`
abbrev pub take : ℕ → Semaphore → Semaphore
take value s = record s { count = (s.count + u64_mod - value) % u64_mod }

-- `!(s->count < value)`
abbrev pub covers : ℕ → Semaphore → Bool
covers value s = leb value s.count

-- The end of a wait: its result, where it has one, and the semaphore as it is then.
unfoldable pub after_wait : ℕ → Waited Semaphore → Option Status × Semaphore
after_wait value (ready s) = (some success, take value s)
after_wait value (timeout s) = (some timed_out, s)
after_wait value (error s) = (some unknown, s)
after_wait value (blocked s) = (none, s)

-- mvgal_semaphore_wait on a semaphore, for a value that is not 0, with the schedule of its wakeups.
unfoldable pub wait_on : List (Wakeup Semaphore) → Semaphore → ℕ → ℕ → Option Status × Semaphore
unfolding after_wait
wait_on ws s value timeout_ms =
    if covers value s
    then (some success, take value s)
    else if timeout_ms == 0
    then after_wait value (wait_loop (covers value) ws s)
    else after_wait value (checked_loop (covers value) ws s)

abbrev pub with_handle : Option Status × Semaphore → Option Status × Option Semaphore
with_handle (r, s) = (r, some s)

-- mvgal_semaphore_wait
unfoldable pub wait :
    List (Wakeup Semaphore) → Option Semaphore → ℕ → ℕ → Option Status × Option Semaphore
unfolding wait_on
wait ws none value timeout_ms = (some invalid_argument, none)
wait ws (some s) value timeout_ms =
    if value == 0
    then (some invalid_argument, some s)
    else with_handle (wait_on ws s value timeout_ms)

-- mvgal_semaphore_get_value; `out` says that the caller's pointer is not NULL.
unfoldable pub get_value : Option Semaphore → Bool → Status × Option ℕ
get_value none out = (invalid_argument, none)
get_value (some s) out = if out then (success, some s.count) else (invalid_argument, none)
