-- ===== src/Nt/Timer.antt =====
-- Timers of compat/windows/mvgal_ntsync.c over a timerfd. What timerfd_settime returns, and what a
-- read of the descriptor gives, are arguments.
pub mod Laws
use mvgal.Base.{
  ℕ, ◌*◌, ◌/◌, ◌%◌, Bool, true, false, not, ◌&&◌, Option, none, some, ltb, ◌==◌, if◌then◌else◌,
}
use mvgal.Nt.Codes.{Host, Timespec, ns_per_sec}

-- mvgal_nt_timer_type_t
pub data TimerType : Type 0 where
  notification synchronization : TimerType

pub record Timer : Type 0 where
  pub kind : TimerType
  pub timer_fd : ℕ
  pub signaled : Bool
  pub periodic : Bool
  pub period_ms : ℕ

pub record Itimerspec : Type 0 where
  pub it_value : Timespec
  pub it_interval : Timespec

abbrev pub zero_time : Timespec
zero_time = record { tv_sec = 0; tv_nsec = 0 }

-- `timer_fd` is the descriptor that timerfd_create gives, if it succeeds.
unfoldable pub create : Host → TimerType → Bool → ℕ → Option Timer
create host kind out timer_fd =
    if not out
    then none
    else if not host.calloc
    then none
    else if not host.mutex_init
    then none
    else if not host.timerfd
    then none
    else some (record {
      kind = kind;
      timer_fd = timer_fd;
      signaled = false;
      periodic = false;
      period_ms = 0;
    })

abbrev pub due_value : ℕ → Timespec
due_value due_time_ns = record {
  tv_sec = due_time_ns / ns_per_sec;
  tv_nsec = due_time_ns % ns_per_sec;
}

abbrev pub interval_of : ℕ → Timespec
interval_of period_ms = record { tv_sec = period_ms / 1000; tv_nsec = period_ms % 1000 * 1_000_000 }

-- What `set` hands to timerfd_settime: the flag TFD_TIMER_ABSTIME and the times.
unfoldable pub request : ℕ → ℕ → Bool → Bool × Itimerspec
request due_time_ns period_ms is_absolute = (
  is_absolute,
  record {
    it_value = due_value due_time_ns;
    it_interval = if ltb 0 period_ms then interval_of period_ms else zero_time;
  },
)

-- The call returns what timerfd_settime returned, 0 if `armed`.
unfoldable pub set :
    (Bool × Itimerspec → Bool) → Option Timer → ℕ → ℕ → Bool → Option (Timer × Bool)
unfolding request
set settime none due_time_ns period_ms is_absolute = none
set settime (some t) due_time_ns period_ms is_absolute =
    let armed : Bool = settime (request due_time_ns period_ms is_absolute) in
    some (
      record t {
        periodic = ltb 0 period_ms;
        period_ms = if ltb 0 period_ms then period_ms else 0;
        signaled = if armed then false else t.signaled;
      },
      armed,
    )

-- The descriptor is disarmed; the result of timerfd_settime is not looked at.
unfoldable pub cancel : Option Timer → Option (Timer × Itimerspec)
cancel none = none
cancel (some t) = some (
  record t { signaled = false; periodic = false },
  record { it_value = zero_time; it_interval = zero_time },
)

abbrev pub is_auto : TimerType → Bool
is_auto synchronization = true
is_auto notification = false

-- `expirations` is what a read of eight bytes gave, `none` if there was nothing to read.
abbrev pub has_expired : Option ℕ → Bool
has_expired none = false
has_expired (some expirations) = ltb 0 expirations

unfoldable pub query : Option Timer → Bool → Option ℕ → Option (Bool × Timer)
query none out expirations = none
query (some t) out expirations =
    let signaled : Bool = if has_expired expirations then true else t.signaled in
    if not out
    then none
    else some
        (signaled, record t { signaled = if signaled && is_auto t.kind then false else signaled })
