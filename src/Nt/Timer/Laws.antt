-- ===== src/Nt/Timer/Laws.antt =====
-- What is asked of the timerfd, and how expirations are reported.
use mvgal.Base.{
  ℕ, ◌*◌, ◌<◌, ◌≡◌, refl, Bool, true, false, ◌||◌, ◌&&◌, not, Option, none, some, arith, List, [],
  ◌∷◌,
}
use mvgal.Nt.Codes.{Timespec, ns_per_sec, to_ns}
use mvgal.Nt.Timer.{TimerType, Timer, request, query, has_expired, is_auto}

abbrev pub IsNormal : Timespec → Type 0
IsNormal ts = ts.tv_nsec < ns_per_sec

-- The times handed to the timerfd are in normal form, the first is the due time in nanoseconds and
-- the second is the period in milliseconds; the flag is the caller's.
pub request_lem :
    (due_time_ns period_ms : ℕ) (is_absolute : Bool)
    → let (flag, its) = request due_time_ns period_ms is_absolute in
      IsNormal its.it_value
      × IsNormal its.it_interval
      × (to_ns its.it_value ≡ due_time_ns)
      × (to_ns its.it_interval ≡ period_ms * 1_000_000)
      × (flag ≡ is_absolute)
unfolding request
request_lem due_time_ns period_ms is_absolute = ground arith

-- Queries in a row, each with what its read gives: what they report, and the timer after.
pub queries : Timer → List (Option ℕ) → List Bool
unfolding query
queries t [] = []
queries t (r ∷ rs) = elim (query (some t) true r) [
  | none ↦ []
  | some (seen, t') ↦ seen ∷ queries t' rs
]

-- What an auto-reset timer should report: an expiration is seen once, by the query that reads it.
-- A manual-reset timer reports it from then on.
pub reports : TimerType → Bool → List (Option ℕ) → List Bool
reports k pending [] = []
reports k pending (r ∷ rs) =
    (pending || has_expired r) ∷ reports k ((pending || has_expired r) && not (is_auto k)) rs

-- However many queries are made, an auto-reset timer reports each expiration to exactly one of them,
-- and a manual-reset timer to all that follow.
pub queries-reports :
    (t : Timer) (rs : List (Option ℕ)) → queries t rs ≡ reports t.kind t.signaled rs
unfolding queries query reports
queries-reports t [] = refl
queries-reports t (r ∷ rs) = ground (
  arith,
  queries-reports (record t { signaled = false }) rs,
  queries-reports (record t { signaled = true }) rs,
)
