-- ===== src/Memory/Semaphores/Wait.antt =====
-- What mvgal_semaphore_wait takes from the count, whatever the other threads do while it sleeps.
use mvgal.Base.{
  ℕ, ◌+◌, ◌<◌, ◌≡◌, refl, ◌≢◌, leb→le, ◌⊎◌, inl, inr, true, Option, none, some, List, arith,
  Bool-cases, ◌==◌,
}
use mvgal.Base.Wait.{
  Wakeup, Waited, ready, timeout, error, blocked, IsReady, IsUntimed, Keeps, state_of,
  wait_loop-IsUntimed, wait_loop-IsReady, checked_loop-IsReady, wait_loop_inv, checked_loop_inv,
}
use mvgal.Status.{Status, success, invalid_argument, timed_out, unknown}
use mvgal.Nt.Codes.{u64_mod}
use mvgal.Memory.Semaphores.{Semaphore, wait, wait_on, after_wait, covers, take}

module _ (P : Semaphore → Type 0) where
  -- `P` is what the other threads keep. A wait that succeeds found a count of at least `value` in
  -- such a state and took `value`; every other end took nothing.
  abbrev pub TookOn : ℕ → ℕ → Option Status × Semaphore → Type 0
  TookOn value timeout_ms (r, t) =
      ((r ≡ some success)
        × (u : Semaphore) × P u
        × (t.count + value ≡ u.count)
        × (t.refcount ≡ u.refcount)
        × (t.freed ≡ u.freed))
      ⊎ (P t × (t.count < value) × (r ≡ none))
      ⊎ (P t × (timeout_ms ≢ 0) × ((r ≡ some timed_out) ⊎ (r ≡ some unknown)))

  abbrev pub TookValue : ℕ → ℕ → Option Status × Option Semaphore → Type 0
  TookValue value timeout_ms (r, none) = r ≡ some invalid_argument
  TookValue value timeout_ms (r, some t) =
      ((value ≡ 0) × (r ≡ some invalid_argument) × P t)
      ⊎ ((value ≢ 0) × TookOn value timeout_ms (r, t))

  module _ (word : (u : Semaphore) → P u → u.count < u64_mod) where
    take-TookOn :
        (value timeout_ms : ℕ) (s : Semaphore)
        → covers value s ≡ true
        → P s
        → TookOn value timeout_ms (some success, take value s)
    take-TookOn value timeout_ms s r p =
        inl (refl, s, p, ground (arith, word s p, leb→le value s.count r), refl, refl)

    after_wait-TookValueOn :
        (value timeout_ms : ℕ) (w : Waited Semaphore)
        → (timeout_ms ≢ 0) ⊎ IsUntimed w
        → IsReady (covers value) w
        → P (state_of w)
        → TookOn value timeout_ms (after_wait value w)
    unfolding after_wait
    after_wait-TookValueOn value timeout_ms (ready s) nz r p = take-TookOn value timeout_ms s r p
    after_wait-TookValueOn value timeout_ms (timeout s) (inl nz) r p = inr (inr (p, nz, inl refl))
    after_wait-TookValueOn value timeout_ms (timeout s) (inr bad) r p = elim bad [ ]
    after_wait-TookValueOn value timeout_ms (error s) (inl nz) r p = inr (inr (p, nz, inr refl))
    after_wait-TookValueOn value timeout_ms (error s) (inr bad) r p = elim bad [ ]
    after_wait-TookValueOn value timeout_ms (blocked s) nz r p =
        inr (inl (p, ground (arith, r), refl))

    wait_on-TookOn :
        (s : Semaphore) (value timeout_ms : ℕ) (ws : List (Wakeup Semaphore))
        → Keeps P ws
        → P s
        → TookOn value timeout_ms (wait_on ws s value timeout_ms)
    unfolding wait_on
    wait_on-TookOn s value timeout_ms ws k p = elim (Bool-cases (covers value s)) [
      | inl e ↦ rw e (take-TookOn value timeout_ms s e p)
      | inr e ↦ rw e (elim (Bool-cases (timeout_ms == 0)) [
        | inl z ↦ rw z (
            after_wait-TookValueOn value timeout_ms _
              (inr (wait_loop-IsUntimed (covers value) ws s))
              (wait_loop-IsReady (covers value) ws s) (wait_loop_inv (covers value) P ws s k p))
        | inr z ↦ rw z (
            after_wait-TookValueOn value timeout_ms _ (inl (λ q. ground arith))
              (checked_loop-IsReady (covers value) ws s)
              (checked_loop_inv (covers value) P ws s k p))
      ])
    ]

    -- Whatever invariant `P` the other threads keep while the caller sleeps, if it bounds the count
    -- by 2^64: a wait for a value that is not 0 that succeeds has found a count of at least `value`
    -- in a state where `P` holds, and the semaphore is that one with `value` less. It has no result
    -- only while the count is below `value`, it times out or fails only with a timeout that is not
    -- 0, and in both cases it took nothing. A value of 0 and a NULL semaphore are invalid
    -- arguments.
    pub wait-TookValue :
        (semaphore : Option Semaphore) (value timeout_ms : ℕ) (ws : List (Wakeup Semaphore))
        → Keeps P ws
        → ((s : Semaphore) → semaphore ≡ some s → P s)
        → TookValue value timeout_ms (wait ws semaphore value timeout_ms)
    unfolding wait
    wait-TookValue none value timeout_ms ws k p = refl
    wait-TookValue (some s) value timeout_ms ws k p = elim (Bool-cases (value == 0)) [
      | inl z ↦ rw z (inl (ground arith, refl, p s refl))
      | inr z ↦ rw z (inr (λ q. ground arith, wait_on-TookOn s value timeout_ms ws k (p s refl)))
    ]
