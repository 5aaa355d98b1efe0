-- ===== src/Nt/Multi/Every.antt =====
-- A wait for all events of the array.
use mvgal.Base.{
  ℕ, ◌+◌, ◌<◌, ◌≡◌, refl, false, Option, none, some, List, [], ◌∷◌, map, arith, length, ◌==◌,
  if◌then◌else◌,
}
use mvgal.Nt.Codes.{returned, object_0, wait_timeout}
use mvgal.Nt.Event.{Event, consume}
use mvgal.Nt.Multi.{all, Pass, deadline_of, scan, poll, verdict, wait_multiple, Round}

-- The entry after a consuming read.
abbrev pub consumed : Option Event → Option Event
consumed none = none
consumed (some e) = some (consume e).1

abbrev pub signaled_count : List (Option Event) → ℕ
signaled_count [] = 0
signaled_count (none ∷ es) = signaled_count es
signaled_count (some e ∷ es) = (if e.signaled then 1 else 0) + signaled_count es

scan-all :
    (i : ℕ) (es : List (Option Event))
    → scan all i es ≡ record { hit = none; events = map consumed es; signaled = signaled_count es }
unfolding scan consume
scan-all i [] = refl
scan-all i (none ∷ es) = ground (arith, scan-all (i + 1) es)
scan-all i (some e ∷ es) = ground (arith, scan-all (i + 1) es)

poll-all :
    (deadline count : ℕ) (rounds : List Round) (es : List (Option Event)) (pass : Pass)
    → scan all 0 es ≡ pass
    → pass.hit ≡ none
    → poll all 0 deadline count rounds es ≡ (
        if pass.signaled == count
        then returned object_0 (record { events = pass.events; signaled_index = some 0 })
        else returned wait_timeout (record { events = pass.events; signaled_index = none }))
unfolding poll verdict
poll-all deadline count [] es pass e h = ground arith
poll-all deadline count (r ∷ rs) es pass e h = ground arith

-- A wait for all with a zero timeout succeeds exactly when every entry is a signaled event. Whether
-- it succeeds or times out, every auto-reset event of the array that was signaled is cleared.
pub wait_multiple-all :
    (es : List (Option Event)) (start_ns : ℕ) (rounds : List Round)
    → 0 < length es
    → wait_multiple (some es) all 0 start_ns rounds ≡ (
        if signaled_count es == length es
        then returned object_0 (record { events = map consumed es; signaled_index = some 0 })
        else returned wait_timeout (record { events = map consumed es; signaled_index = none }))
unfolding wait_multiple
wait_multiple-all es start_ns rounds h =
    let nonempty : (length es == 0) ≡ false = ground arith in
    rw nonempty (poll-all (deadline_of 0 start_ns) (length es) rounds es _ (scan-all 0 es) refl)
