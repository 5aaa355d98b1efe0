-- ===== src/Nt/Multi/Any.antt =====
-- A wait for any event of the array.
use mvgal.Base.{
  ℕ, ◌+◌, ◌≡◌, refl, true, false, Option, none, some, List, [], ◌∷◌, ◌++◌, arith, All, length, ◌==◌,
  length-append,
}
use mvgal.Nt.Codes.{returned}
use mvgal.Nt.Event.{Event, consume}
use mvgal.Nt.Multi.{any, Pass, deadline_of, scan, poll, verdict, wait_multiple, Round}

-- A NULL entry, or an event that is not signaled.
abbrev pub IsQuiet : Option Event → Type 0
IsQuiet none = Unit
IsQuiet (some e) = e.signaled ≡ false

scan-any :
    (i : ℕ) (pre post : List (Option Event)) (e : Event)
    → All IsQuiet pre
    → e.signaled ≡ true
    → scan any i (pre ++ some e ∷ post) ≡ record {
      hit = some (i + length pre);
      events = pre ++ some (consume e).1 ∷ post;
      signaled = 1;
    }
unfolding scan consume
scan-any i [] post e q s = ground arith
scan-any i (none ∷ pre) post e q s = ground (arith, scan-any (i + 1) pre post e q.1 s)
scan-any i (some a ∷ pre) post e q s = ground (arith, scan-any (i + 1) pre post e q.1 s)

poll-any :
    (timeout_ns deadline count : ℕ) (rounds : List Round) (es : List (Option Event)) (i : ℕ)
    (pass : Pass)
    → scan any 0 es ≡ pass
    → pass.hit ≡ some (0 + i)
    → poll any timeout_ns deadline count rounds es
      ≡ returned i (record { events = pass.events; signaled_index = some i })
unfolding poll verdict
poll-any timeout_ns deadline count [] es i pass e h = ground arith
poll-any timeout_ns deadline count (r ∷ rs) es i pass e h = ground arith

-- If some event of the array is signaled, the wait returns at once, with the index of the first
-- such event. An auto-reset event at that index is consumed, and no other entry of the array changes.
pub wait_multiple-any :
    (pre post : List (Option Event)) (e : Event) (timeout_ns start_ns : ℕ) (rounds : List Round)
    → All IsQuiet pre
    → e.signaled ≡ true
    → wait_multiple (some (pre ++ some e ∷ post)) any timeout_ns start_ns rounds
      ≡ returned
          (length pre)
          (record { events = pre ++ some (consume e).1 ∷ post; signaled_index = some (length pre) })
unfolding wait_multiple
wait_multiple-any pre post e timeout_ns start_ns rounds q s =
    let es : List (Option Event) = pre ++ some e ∷ post in
    let nonempty : (length es == 0) ≡ false = ground (arith, length-append pre (some e ∷ post)) in
    rw nonempty (
      poll-any timeout_ns (deadline_of timeout_ns start_ns) (length es) rounds es (length pre) _
        (scan-any 0 pre post e q s) refl)
