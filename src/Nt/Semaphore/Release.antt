-- ===== src/Nt/Semaphore/Release.antt =====
-- What a release does to the count, on every branch.
use mvgal.Base.{
  ℕ, zero, suc, ◌+◌, ◌≤◌, ◌<◌, ◌≡◌, refl, ◌⊎◌, inl, inr, true, false, Option, none, some, arith,
}
use native.Mathlib.Decide.{dec_le}
use mvgal.Nt.Codes.{u32_mod}
use mvgal.Nt.Semaphore.{Semaphore, Released, release, wakeups}

-- A count within its maximum, which is a uint32_t.
pub record InBounds (s : Semaphore) : Type 0 where
  pub within : s.count ≤ s.max_count
  pub word : s.max_count < u32_mod

wakeups-eq :
    (old max_count left i : ℕ)
    → old + i + left ≤ max_count
    → max_count < u32_mod
    → wakeups old max_count left i ≡ left
unfolding wakeups
wakeups-eq old max_count zero i h w = refl
wakeups-eq old max_count (suc left) i h w =
    ground (arith, wakeups-eq old max_count left (i + 1) (omega arith) w)

-- Within the maximum a release adds its count and signals as many waiters; above it, the count
-- stays and nobody is woken. A release that would not fit in 32 bits is left out.
pub release_lem :
    (s : Semaphore) (n : ℕ)
    → InBounds s
    → 0 < n
    → s.count + n < u32_mod
    → ((s.count + n ≤ s.max_count)
        × (release (some s) n
            ≡ some (record {
              accepted = true;
              semaphore = record s { count = s.count + n };
              previous_count = s.count;
              signals = n;
            })))
      ⊎ ((s.max_count < s.count + n)
          × (release (some s) n
              ≡ some (record {
                accepted = false;
                semaphore = s;
                previous_count = s.count;
                signals = 0;
              })))
unfolding release
release_lem s n v p w = elim (dec_le (s.count + n) s.max_count) [
  | yes fits ↦ inl (fits, ground (arith, wakeups-eq s.count s.max_count n 0))
  | no over ↦ inr (omega arith, ground arith)
]

-- The semaphore after a call, which a refused call leaves alone.
abbrev pub after : Semaphore → Option Released → Semaphore
after s none = s
after s (some r) = r.semaphore

-- Every release keeps the count within the maximum, also one whose sum wraps around.
pub release-InBounds :
    (s : Semaphore) (n : ℕ) → InBounds s → InBounds (after s (release (some s) n))
unfolding release
release-InBounds s n v = ground arith

-- A release whose sum passes 2^32 by no more than the maximum is accepted, and lowers the count.
pub release_wraps :
    (s : Semaphore) (n : ℕ)
    → InBounds s
    → n < u32_mod
    → u32_mod ≤ s.count + n
    → s.count + n ≤ u32_mod + s.max_count
    → (after s (release (some s) n)).count + u32_mod ≡ s.count + n
unfolding release
release_wraps s n v w over h = ground arith
