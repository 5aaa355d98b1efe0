-- ===== src/Nt/Mutex.antt =====
-- Mutexes of compat/windows/mvgal_ntsync.c: recursive, with an owner. `tid` is the caller's
-- pthread_self(); 0 stands for no owner. Nt/Mutex/Steps has mvgal_nt_mutex_lock.
pub mod Steps
pub mod Exclusion
use mvgal.Base.{ℕ, ◌+◌, ◌-◌, ◌%◌, Bool, true, false, not, Option, none, some, ltb, if◌then◌else◌}
use mvgal.Nt.Codes.{Host, u32_mod}

pub record Mutex : Type 0 where
  pub state : ℕ
  pub owner_thread : ℕ
  pub recursion_count : ℕ
  pub abandon_count : ℕ
  pub abandoned : Bool

unfoldable pub create : Host → Bool → ℕ → Bool → ℕ → Option Mutex
create host initial_owner abandon_wakeup_count out tid =
    if not out
    then none
    else if not host.calloc
    then none
    else if not host.mutex_init
    then none
    else if not host.cond_init
    then none
    else some (record {
      state = if initial_owner then 1 else 0;
      owner_thread = if initial_owner then tid else 0;
      recursion_count = if initial_owner then 1 else 0;
      abandon_count = abandon_wakeup_count;
      abandoned = false;
    })

-- The fields that a first acquisition writes.
abbrev pub acquire : ℕ → Mutex → Mutex
acquire tid m = record m { state = 1; owner_thread = tid; recursion_count = 1; abandoned = false }

-- What a successful trylock writes once it has `state`.
abbrev pub own : ℕ → Mutex → Mutex
own tid m = record m { owner_thread = tid; recursion_count = 1; abandoned = false }

-- A nested lock by the owner; its count is a uint32_t.
abbrev pub relock : Mutex → Mutex
relock m = record m { recursion_count = (m.recursion_count + 1) % u32_mod }

-- The caller is not looked at. `none` is -1; the flag says whether a waiter was signaled.
unfoldable pub unlock : Option Mutex → Option (Mutex × Bool)
unlock none = none
unlock (some m) =
    if ltb 1 m.recursion_count
    then some (record m { recursion_count = m.recursion_count - 1 }, false)
    else some (record m { owner_thread = 0; recursion_count = 0; state = 0 }, true)

unfoldable pub query : Option Mutex → Option (ℕ × ℕ)
query none = none
query (some m) = some (m.owner_thread, m.recursion_count)
