-- ===== src/Nt/Event.antt =====
-- Events of compat/windows/mvgal_ntsync.c. A handle is an `Option`, with `none` for NULL; a call
-- returns `none` for -1. No call of the file waits on an event's condition variable.
pub mod Laws
use mvgal.Base.{Bool, true, false, not, ◌&&◌, Option, none, some, if◌then◌else◌}
use mvgal.Nt.Codes.{Host}

-- mvgal_nt_event_type_t: manual-reset and auto-reset.
pub data EventType : Type 0 where
  notification synchronization : EventType

-- mvgal_nt_event_state_t
pub data EventState : Type 0 where
  state_reset state_signaled : EventState

pub record Event : Type 0 where
  pub kind : EventType
  pub signaled : Bool

-- pthread_cond_broadcast or pthread_cond_signal
pub data Wake : Type 0 where
  broadcast signal : Wake

abbrev pub is_signaled : EventState → Bool
is_signaled state_signaled = true
is_signaled state_reset = false

abbrev pub is_auto : EventType → Bool
is_auto synchronization = true
is_auto notification = false

-- `out` says that the caller's pointer for the handle is not NULL.
unfoldable pub create : Host → EventType → EventState → Bool → Option Event
create host kind initial out =
    if not out
    then none
    else if not host.calloc
    then none
    else if not host.mutex_init
    then none
    else if not host.cond_init
    then none
    else some (record { kind = kind; signaled = is_signaled initial })

abbrev pub wake_for : EventType → Wake
wake_for notification = broadcast
wake_for synchronization = signal

unfoldable pub set : Option Event → Option (Event × Wake)
set none = none
set (some e) = some (record e { signaled = true }, wake_for e.kind)

unfoldable pub reset : Option Event → Option Event
reset none = none
reset (some e) = some (record e { signaled = false })

-- The state is set for the call of the wake only, under the lock.
unfoldable pub pulse : Option Event → Option (Event × Wake)
pulse none = none
pulse (some e) =
    let raised : Event = record e { signaled = true } in
    some (record raised { signaled = false }, wake_for e.kind)

-- The consuming read that `query` and the multi-waits make: what is reported, and the event after.
unfoldable pub consume : Event → Bool × Event
consume e = (e.signaled, if e.signaled && is_auto e.kind then record e { signaled = false } else e)

unfoldable pub query : Option Event → Bool → Option (Bool × Event)
unfolding consume
query none out = none
query (some e) out = if not out then none else some (consume e)
