-- ===== src/Memory/Fences/Wait.antt =====
-- What mvgal_fence_wait reports, whatever the other threads do while it sleeps.
use mvgal.Base.{
  ℕ, ◌≡◌, refl, ◌≢◌, ◌⊎◌, inl, inr, true, false, Option, none, some, List, arith, if_elim, ◌==◌,
}
use mvgal.Base.Wait.{
  Wakeup, Waited, ready, timeout, error, blocked, IsReady, IsUntimed, Keeps, state_of,
  wait_loop-IsUntimed, wait_loop-IsReady, checked_loop-IsReady, wait_loop_inv, checked_loop_inv,
}
use mvgal.Status.{Status, invalid_argument, timed_out, unknown}
use mvgal.Memory.Fences.{Fence, wait_on, after_wait, wait, with_handle}

-- The answer of a wait that found the fence `t`: the status of a signaled fence, no answer yet for
-- an unsignaled one, or the end of the time.
abbrev pub Answer : ℕ → Option Status → Fence → Type 0
Answer timeout_ms r t =
    ((t.signaled ≡ true) × (r ≡ some t.status))
    ⊎ ((t.signaled ≡ false) × (r ≡ none))
    ⊎ ((timeout_ms ≢ 0) × ((r ≡ some timed_out) ⊎ (r ≡ some unknown)))

module _ (P : Fence → Type 0) where
  -- A wait on a handle, with the invariant of the other threads.
  abbrev pub Answered : ℕ → Option Status × Option Fence → Type 0
  Answered timeout_ms (r, none) = r ≡ some invalid_argument
  Answered timeout_ms (r, some t) = P t × Answer timeout_ms r t

  after_wait-Answer :
      (timeout_ms : ℕ) (w : Waited Fence)
      → (timeout_ms ≢ 0) ⊎ IsUntimed w
      → IsReady (λ g. g.signaled) w
      → P (state_of w)
      → Answered timeout_ms (with_handle (after_wait w))
  unfolding after_wait
  after_wait-Answer timeout_ms (ready f) nz r p = (p, inl (r, refl))
  after_wait-Answer timeout_ms (timeout f) (inl nz) r p = (p, inr (inr (nz, inl refl)))
  after_wait-Answer timeout_ms (timeout f) (inr bad) r p = elim bad [ ]
  after_wait-Answer timeout_ms (error f) (inl nz) r p = (p, inr (inr (nz, inr refl)))
  after_wait-Answer timeout_ms (error f) (inr bad) r p = elim bad [ ]
  after_wait-Answer timeout_ms (blocked f) nz r p = (p, inr (inl (r, refl)))

  -- Whatever invariant `P` the other threads keep while the caller sleeps: a wait on a fence leaves
  -- it in a state where `P` holds, and reports the fence's own status, which need not be success, if the
  -- fence is signaled, nothing yet if it is not, or a timeout or an error, which it does only with a
  -- timeout that is not 0. A NULL fence is an invalid argument.
  pub wait-Answered :
      (fence : Option Fence) (timeout_ms : ℕ) (ws : List (Wakeup Fence))
      → Keeps P ws
      → ((f : Fence) → fence ≡ some f → P f)
      → Answered timeout_ms (wait ws fence timeout_ms)
  unfolding wait wait_on
  wait-Answered none timeout_ms ws k p = refl
  wait-Answered (some f) timeout_ms ws k p =
      if_elim (λ o. Answered timeout_ms (with_handle o)) f.signaled _ _
        (λ e. (p f refl, inl (e, refl)))
        (λ e.
          if_elim (λ o. Answered timeout_ms (with_handle o)) (timeout_ms == 0) _ _
            (λ z.
              after_wait-Answer timeout_ms _ (inr (wait_loop-IsUntimed (λ g. g.signaled) ws f))
                (wait_loop-IsReady (λ g. g.signaled) ws f)
                (wait_loop_inv (λ g. g.signaled) P ws f k (p f refl)))
            (λ z.
              after_wait-Answer timeout_ms _ (inl (λ q. ground arith))
                (checked_loop-IsReady (λ g. g.signaled) ws f)
                (checked_loop_inv (λ g. g.signaled) P ws f k (p f refl))))
