-- ===== src/Sched/Process/Livelock.antt =====
-- What the loop of mvgal_scheduler_process_internal does with workloads of priority 0.
use mvgal.Base.{
  ℕ, zero, suc, ◌≤◌, ◌≡◌, refl, inl, inr, true, none, some, List, ◌∷◌, arith, ltb, lt→ltb,
}
use mvgal.Sched.Queue.{dequeue_priority}
use mvgal.Sched.Queue.Links.{IsQueue}
use mvgal.Sched.Queue.Unlink.{All-at}
use mvgal.Sched.Queue.Priority.{NotHigher, dequeue_priority-Chosen}
use mvgal.Sched.State.{Scheduler, Strategy}
use mvgal.Sched.Process.{walk_fuel, after_dequeue, process_loop}

module _ {S : Type 0} (clock : ℕ → ℕ) (strategy : Strategy S) where
  stuck_round :
      (s : Scheduler S) (x : ℕ) (xs : List ℕ)
      → IsQueue s.heap s.ready (x ∷ xs)
      → NotHigher s.heap 0 (x ∷ xs)
      → dequeue_priority walk_fuel s.heap s.ready
        ≡ some (none, record { heap = s.heap; queue = s.ready })
  stuck_round s x xs v low =
      elim (dequeue_priority-Chosen walk_fuel s.heap s.ready (x ∷ xs) v (omega (arith, v.room))) [
        | inl (_, e) ↦ e
        | inr (z, c, l, e, lv, links) ↦ absurd (
            omega (
              arith,
              c.above,
              All-at (λ y. (s.heap y).priority ≤ 0) z c.pre c.post (rw⁻¹ c.split low),
            ))
      ]

  -- If every queued workload has priority 0, and there is one, then no amount of fuel ends the loop.
  pub process_loop_never :
      (fuel : ℕ) (s : Scheduler S) (x : ℕ) (xs : List ℕ)
      → IsQueue s.heap s.ready (x ∷ xs)
      → NotHigher s.heap 0 (x ∷ xs)
      → process_loop clock strategy fuel s ≡ none
  unfolding process_loop after_dequeue
  process_loop_never zero s x xs v low = refl
  process_loop_never (suc fuel) s x xs v low =
      let more : ltb 0 s.ready.count ≡ true = lt→ltb 0 s.ready.count (omega (arith, v.count)) in
      rw more (rw (stuck_round s x xs v low) (process_loop_never fuel s x xs v low))
