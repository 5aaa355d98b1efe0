-- ===== src/Nt/Semaphore/Take.antt =====
-- What a wait takes from the count, whatever the other threads do while it sleeps.
use mvgal.Base.{ℕ, ◌+◌, ◌<◌, ◌≡◌, refl, ◌⊎◌, inl, inr, some, arith, List, Bool-cases, ltb, ◌==◌}
use mvgal.Base.Wait.{
  Wakeup, Waited, ready, timeout, error, blocked, IsReady, Keeps, state_of, wait_loop-IsReady,
  timed_loop-IsReady, wait_loop_inv, timed_loop_inv,
}
use mvgal.Nt.Codes.{Outcome, returned, refused, object_0, wait_timeout, u32_mod, forever}
use mvgal.Nt.Semaphore.{Semaphore, wait, after_wait, available}

-- `P` is what the other threads keep. A wait that succeeds found a positive count in such a state
-- and took one unit; one that times out or still sleeps took nothing.
abbrev pub Took : (Semaphore → Type 0) → Outcome Semaphore → Type 0
Took P (returned code t) =
    ((code ≡ object_0)
      × (u : Semaphore) × P u
      × (t.count + 1 ≡ u.count)
      × (t.max_count ≡ u.max_count))
    ⊎ ((code ≡ wait_timeout) × P t)
Took P (refused code) = ⊥
Took P (Outcome.blocked t) = P t

module _ (P : Semaphore → Type 0) (word : (u : Semaphore) → P u → u.count < u32_mod) where
  after_wait-Took :
      (w : Waited Semaphore) → IsReady available w → P (state_of w) → Took P (after_wait w)
  unfolding after_wait
  after_wait-Took (ready s) r p = inl (ground arith, s, p, ground (arith, word s p), refl)
  after_wait-Took (timeout s) r p = inr (refl, p)
  after_wait-Took (error s) r p = p
  after_wait-Took (blocked s) r p = p

  -- Whatever invariant `P` the other threads keep while the caller sleeps, and however the schedule
  -- ends: a wait that reports success has found a positive count in a state where `P` holds, and
  -- the semaphore is that one with one unit less; a timeout took nothing. `P` bounds the count by
  -- 2^32.
  pub wait-Took :
      (s : Semaphore) (timeout_ns : ℕ) (schedule : List (Wakeup Semaphore))
      → Keeps P schedule
      → P s
      → Took P (wait (some s) timeout_ns schedule)
  unfolding wait
  wait-Took s timeout_ns schedule k p = elim (Bool-cases (ltb 0 s.count)) [
    | inl e ↦ rw e (inl (refl, s, p, ground arith, refl))
    | inr e ↦ rw e (elim (Bool-cases (timeout_ns == 0)) [
      | inl z ↦ rw z (inr (refl, p))
      | inr z ↦ rw z (elim (Bool-cases (timeout_ns == forever)) [
        | inl f ↦ rw f (
            after_wait-Took _ (wait_loop-IsReady available schedule s)
              (wait_loop_inv available P schedule s k p))
        | inr f ↦ rw f (
            after_wait-Took _ (timed_loop-IsReady available schedule s)
              (timed_loop_inv available P schedule s k p))
      ])
    ])
  ]
