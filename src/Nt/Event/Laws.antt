-- ===== src/Nt/Event/Laws.antt =====
-- What a waiter sees of an event after it was set, pulsed or reset.
use mvgal.Base.{◌≡◌, Bool, true, false, Option, none, some, refl}
use mvgal.Nt.Event.{EventType, notification, synchronization, Event, set, query}

-- The event after a call that returned 0, and unchanged after one that returned -1.
abbrev pub after {ℓ} : {A : Type ℓ} → Event → Option (Event × A) → Event
after e none = e
after e (some (e', _)) = e'

-- Two queries in a row, given the event.
abbrev pub query_twice : Event → Option (Bool × Bool)
query_twice e = elim (query (some e) true) [
  | none ↦ none
  | some (first, e') ↦ elim (query (some e') true) [
    | none ↦ none
    | some (second, _) ↦ some (first, second)
  ]
]

abbrev pub seen_after_set : EventType → Bool × Bool
seen_after_set notification = (true, true)
seen_after_set synchronization = (true, false)

-- A set event is seen by the next query; the one after it sees it again only if the event is
-- manual-reset.
pub query-set : (e : Event) → query_twice (after e (set (some e))) ≡ some (seen_after_set e.kind)
unfolding set query
query-set e = by_kind e.kind
  where
    by_kind :
        (k : EventType)
        → query_twice (after e (set (some (record e { kind = k })))) ≡ some (seen_after_set k)
    by_kind notification = refl
    by_kind synchronization = refl
