-- ===== src/Nt/Multi.antt =====
-- mvgal_nt_wait_multiple of compat/windows/mvgal_ntsync.c: a polling wait on an array of events,
-- in which `none` is a NULL entry.
pub mod Any
pub mod Every
use mvgal.Base.{
  ℕ, zero, suc, ◌+◌, ◌%◌, Bool, true, false, not, ◌&&◌, Option, none, some, List, [], ◌∷◌, leb,
  ◌==◌, if◌then◌else◌, length,
}
use mvgal.Nt.Codes.{
  Outcome, returned, refused, blocked, object_0, wait_timeout, wait_failed, u64_mod, forever,
}
use mvgal.Nt.Event.{Event, consume}

-- mvgal_nt_wait_type_t
pub data WaitType : Type 0 where
  all any : WaitType

abbrev pub is_any : WaitType → Bool
is_any any = true
is_any all = false

-- One pass over the array, up to the event that ends a wait for any.
pub record Pass : Type 0 where
  pub hit : Option ℕ
  pub events : List (Option Event)
  pub signaled : ℕ

unfoldable pub scan : WaitType → ℕ → List (Option Event) → Pass
unfolding consume
scan wait_type i [] = record { hit = none; events = []; signaled = 0 }
scan wait_type i (none ∷ es) =
    let rest = scan wait_type (i + 1) es in record rest { events = none ∷ rest.events }
scan wait_type i (some e ∷ es) =
    let (sig, e') = consume e in
    let rest = scan wait_type (i + 1) es in
    if sig && is_any wait_type
    then record { hit = some i; events = some e' ∷ es; signaled = 1 }
    else record {
      hit = rest.hit;
      events = some e' ∷ rest.events;
      signaled = (if sig then 1 else 0) + rest.signaled;
    }

-- The array, and what was written to `*signaled_index`.
pub record Waiting : Type 0 where
  pub events : List (Option Event)
  pub signaled_index : Option ℕ

-- One sleep of the loop: the clock at the check before it, and what other threads do during it.
pub record Round : Type 0 where
  pub now_ns : ℕ
  pub others : List (Option Event) → List (Option Event)

-- The end of a pass, or `otherwise`: the checks up to the one for a zero timeout.
unfoldable pub verdict : WaitType → ℕ → ℕ → Pass → Outcome Waiting → Outcome Waiting
verdict wait_type timeout_ns count pass otherwise = elim pass.hit [
  | some i ↦ returned (object_0 + i) (record { events = pass.events; signaled_index = some i })
  | none ↦
      if not (is_any wait_type) && pass.signaled == count
      then returned object_0 (record { events = pass.events; signaled_index = some 0 })
      else if timeout_ns == 0
      then returned wait_timeout (record { events = pass.events; signaled_index = none })
      else otherwise
]

unfoldable pub poll : WaitType → ℕ → ℕ → ℕ → List Round → List (Option Event) → Outcome Waiting
poll wait_type timeout_ns deadline count [] es =
    let pass = scan wait_type 0 es in
    verdict wait_type timeout_ns count pass
      (blocked (record { events = pass.events; signaled_index = none }))
poll wait_type timeout_ns deadline count (r ∷ rs) es =
    let pass = scan wait_type 0 es in
    let rest = poll wait_type timeout_ns deadline count rs (r.others pass.events) in
    verdict wait_type timeout_ns count pass (
      if not (timeout_ns == forever) && leb deadline r.now_ns
      then returned wait_timeout (record { events = pass.events; signaled_index = none })
      else rest)

-- `start_ns` is the clock at the call; the deadline is a uint64_t, and 0 where it is not read.
unfoldable pub deadline_of : ℕ → ℕ → ℕ
deadline_of timeout_ns start_ns =
    if not (timeout_ns == forever) && not (timeout_ns == 0)
    then (start_ns + timeout_ns) % u64_mod
    else 0

unfoldable pub wait_multiple :
    Option (List (Option Event)) → WaitType → ℕ → ℕ → List Round → Outcome Waiting
wait_multiple none wait_type timeout_ns start_ns rounds = refused wait_failed
wait_multiple (some events) wait_type timeout_ns start_ns rounds =
    if length events == 0
    then refused wait_failed
    else poll wait_type timeout_ns (deadline_of timeout_ns start_ns) (length events) rounds events
