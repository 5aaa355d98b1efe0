-- ===== src/Nt/Codes.antt =====
-- Result codes and the limits of the C types, and what the C library answers to a create call.
use mvgal.Base.{ℕ, ◌+◌, ◌*◌, ◌/◌, ◌%◌, ◌^◌, ◌-◌, Bool}

-- mvgal_nt_wait_result_t. A multi-wait adds an index to `object_0`, so the codes are numbers.
abbrev pub object_0 : ℕ
object_0 = 0

abbrev pub wait_timeout : ℕ
wait_timeout = 0x102

abbrev pub wait_abandoned : ℕ
wait_abandoned = 0x080

abbrev pub wait_failed : ℕ
wait_failed = 0xFFFFFFFF

abbrev pub u32_mod : ℕ
u32_mod = 2 ^ 32

abbrev pub u64_mod : ℕ
u64_mod = 2 ^ 64

-- UINT64_MAX, which means to wait for ever.
abbrev pub forever : ℕ
forever = 2 ^ 64 - 1

-- How a wait ends: with a code and the object as it is then, refused for a NULL handle, or not yet.
pub data Outcome (S : Type 0) : Type 0 where
  returned : ℕ → S → Outcome S
  refused : ℕ → Outcome S
  blocked : S → Outcome S

-- Whether calloc, pthread_mutex_init, pthread_cond_init and timerfd_create succeed.
pub record Host : Type 0 where
  pub calloc : Bool
  pub mutex_init : Bool
  pub cond_init : Bool
  pub timerfd : Bool

pub record Timespec : Type 0 where
  pub tv_sec : ℕ
  pub tv_nsec : ℕ

abbrev pub ns_per_sec : ℕ
ns_per_sec = 1_000_000_000

-- The time of a timespec, as the sources add it up in a uint64_t.
abbrev pub to_ns : Timespec → ℕ
to_ns ts = ts.tv_sec * ns_per_sec + ts.tv_nsec

-- mvgal_nt_timeout_to_abs, with the time that clock_gettime gives.
unfoldable pub timeout_to_abs : ℕ → Timespec → Timespec
timeout_to_abs timeout_ns now =
    let ns : ℕ = (to_ns now + timeout_ns) % u64_mod in
    record { tv_sec = ns / ns_per_sec; tv_nsec = ns % ns_per_sec }
