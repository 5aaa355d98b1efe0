-- ===== src/Memory/Fences.antt =====
-- Fences of src/userspace/memory/sync.c. A handle is an `Option`, with `none` for NULL. Each call that
-- holds the fence's lock throughout is one step.
pub mod Wait
use mvgal.Base.{
  ℕ, ◌+◌, ◌-◌, ◌%◌, ◌^◌, Bool, true, false, not, ◌||◌, Option, none, some, List, leb, ◌==◌,
  if◌then◌else◌,
}
use mvgal.Base.Wait.{Wakeup, Waited, ready, timeout, error, blocked, wait_loop, checked_loop}
use mvgal.Nt.Codes.{Host}
use mvgal.Status.{
  Status, success, invalid_argument, out_of_memory, initialization, timed_out, unknown,
}

-- struct mvgal_fence. `freed` marks a block that was given to free().
pub record Fence : Type 0 where
  pub signaled : Bool
  pub refcount : ℕ
  pub status : Status
  pub freed : Bool

abbrev pub int_mod : ℕ
int_mod = 2 ^ 32

-- `count <= 1` for the int whose bits are `count`.
abbrev pub at_most_one : ℕ → Bool
at_most_one count = leb count 1 || leb (2 ^ 31) count

-- mvgal_fence_create; `out` says that the caller's pointer for the handle is not NULL.
unfoldable pub create : Host → Bool → Status × Option Fence
create host out =
    if not out
    then (invalid_argument, none)
    else if not host.calloc
    then (out_of_memory, none)
    else if not host.mutex_init
    then (initialization, none)
    else if not host.cond_init
    then (initialization, none)
    else (
      success,
      some (record { signaled = false; refcount = 1; status = success; freed = false }),
    )

-- mvgal_fence_destroy
unfoldable pub destroy : Option Fence → Option Fence
destroy none = none
destroy (some f) =
    let left : ℕ = (f.refcount + int_mod - 1) % int_mod in
    if at_most_one f.refcount
    then some (record f { refcount = left; signaled = true; freed = true })
    else some (record f { refcount = left })

-- The end of a wait: its result, where it has one, and the fence as it is then.
unfoldable pub after_wait : Waited Fence → Option Status × Fence
after_wait (ready f) = (some f.status, f)
after_wait (timeout f) = (some timed_out, f)
after_wait (error f) = (some unknown, f)
after_wait (blocked f) = (none, f)

-- mvgal_fence_wait on a fence, with the schedule of its wakeups.
unfoldable pub wait_on : List (Wakeup Fence) → Fence → ℕ → Option Status × Fence
unfolding after_wait
wait_on ws f timeout_ms =
    if f.signaled
    then (some f.status, f)
    else if timeout_ms == 0
    then after_wait (wait_loop (λ g. g.signaled) ws f)
    else after_wait (checked_loop (λ g. g.signaled) ws f)

abbrev pub with_handle : Option Status × Fence → Option Status × Option Fence
with_handle (r, f) = (r, some f)

-- mvgal_fence_wait
unfoldable pub wait : List (Wakeup Fence) → Option Fence → ℕ → Option Status × Option Fence
wait ws none timeout_ms = (some invalid_argument, none)
wait ws (some f) timeout_ms = with_handle (wait_on ws f timeout_ms)

-- mvgal_fence_check
unfoldable pub check : Option Fence → Bool
check none = true
check (some f) = f.signaled

-- mvgal_fence_reset
unfoldable pub reset : Option Fence → Option Fence
reset none = none
reset (some f) = some (record f { signaled = false; status = success })

-- mvgal_fence_signal_with_status
unfoldable pub signal_with_status : Option Fence → Status → Status × Option Fence
signal_with_status none status = (invalid_argument, none)
signal_with_status (some f) status = (success, some (record f { signaled = true; status = status }))
