-- ===== src/Sched/Calls/Cancel.antt =====
-- What becomes of a workload that is cancelled while it is queued.
use mvgal.Base.{
  ℕ, ◌+◌, ◌<◌, ◌%◌, ◌≡◌, refl, ap, true, some, List, ◌∷◌, ◌++◌, arith, All, length, update,
}
use mvgal.Status.{success, interrupted}
use mvgal.Sched.Types.{completed, cancelled, queued, Heap, u64_mod}
use mvgal.Sched.Queue.Links.{IsQueue, IsQueue-same}
use mvgal.Sched.Queue.Unlink.{All-at}
use mvgal.Sched.State.{Scheduler, Strategy}
use mvgal.Sched.Process.{process_loop}
use mvgal.Sched.Process.Step.{Finished}
use mvgal.Sched.Process.Order.{positive-same}
use mvgal.Sched.Process.Drain.{process_loop-Drained}
use mvgal.Sched.Calls.{is_waiting, cancel, get_result, is_completed}

module _ {S : Type 0} (s : Scheduler S) (w : ℕ) where
  abbrev marked : Heap
  marked = update s.heap w (record (s.heap w) {
    state = cancelled;
    completion_signaled = true;
    completion_status = interrupted;
  })

  abbrev after_cancel : Scheduler S
  after_cancel = record s {
    heap = marked;
    stats = record s.stats { failed = (s.stats.failed + 1) % u64_mod };
  }

  cancel-queued : (s.heap w).state ≡ queued → cancel s (some w) ≡ (success, after_cancel)
  unfolding cancel
  cancel-queued q = let test : is_waiting (s.heap w).state ≡ true = ap is_waiting q in rw test refl

  marked-same :
      (y : ℕ)
      → ((marked y).next ≡ (s.heap y).next)
        × ((marked y).prev ≡ (s.heap y).prev)
        × ((marked y).priority ≡ (s.heap y).priority)
  marked-same y = (ground arith, ground arith, ground arith)

module _ {S : Type 0} (clock : ℕ → ℕ) (strategy : Strategy S) where
  -- A queued workload is cancelled, and its result is that it was interrupted. It stays in the queue
  -- all the same: with priorities above 0 and enough fuel, the loop then runs it, and it ends as
  -- completed with success.
  pub cancel-process_loop :
      (fuel : ℕ) (s : Scheduler S) (w : ℕ) (pre post : List ℕ)
      → (s.heap w).state ≡ queued
      → IsQueue s.heap s.ready (pre ++ w ∷ post)
      → All (λ x. 0 < (s.heap x).priority) (pre ++ w ∷ post)
      → length (pre ++ w ∷ post) < fuel
      → (s1 : Scheduler S) × (s2 : Scheduler S) × (cancel s (some w) ≡ (success, s1))
        × (is_completed s1.heap (some w) ≡ true)
        × (get_result s1.heap (some w) ≡ interrupted)
        × (process_loop clock strategy fuel s1 ≡ some s2)
        × ((s2.heap w).state ≡ completed)
        × (get_result s2.heap (some w) ≡ success)
  unfolding get_result is_completed
  cancel-process_loop fuel s w pre post q v pos room =
      let h : Heap = marked s w in
      let s1 : Scheduler S = after_cancel s w in
      let (s2, ys, ends, d) =
        process_loop-Drained clock strategy fuel s1 (pre ++ w ∷ post)
          (IsQueue-same s.heap h (marked-same s w) s.ready (pre ++ w ∷ post) v)
          (positive-same s.heap h (λ y. (marked-same s w y).2) (pre ++ w ∷ post) pos) room in
      let f = All-at (λ x. Finished (h x) (s2.heap x)) w pre post d.finished in
      (s1, s2, cancel-queued s w q, ground arith, ground arith, ends, f.state, f.status)
