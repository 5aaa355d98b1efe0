-- ===== src/Sched/Calls/Submit.antt =====
-- mvgal_workload_submit where no scheduler thread runs.
use mvgal.Base.{
  ℕ, suc, ◌+◌, ◌%◌, ◌<◌, ◌≡◌, refl, ap, inl, inr, true, false, Option, none, some, List, [], ◌∷◌,
  ◌++◌, arith, All, length, length-append,
}
use mvgal.Status.{success}
use mvgal.Sched.Types.{completed, u32_mod, u64_mod, max_queued}
use mvgal.Sched.Queue.{enqueue, Linked}
use mvgal.Sched.Queue.Links.{NotIn, IsQueue, IsQueue-fresh, All-fresh}
use mvgal.Sched.Queue.Unlink.{All-at}
use mvgal.Sched.Queue.Fifo.{enqueue-IsQueue}
use mvgal.Sched.State.{Scheduler, Strategy, relink}
use mvgal.Sched.Process.{process_loop, process_internal}
use mvgal.Sched.Process.Step.{Finished, update-hit}
use mvgal.Sched.Process.Order.{positive-same}
use mvgal.Sched.Process.Drain.{process_loop-Drained}
use mvgal.Sched.Calls.{SubmitInfo, queued_workload, place, submit_queued, submit}

All-append-one {κ} : (P : ℕ → Type κ) (xs : List ℕ) (w : ℕ) → All P xs → P w → All P (xs ++ w ∷ [])
All-append-one P [] w a p = (p, tt)
All-append-one P (x ∷ xs) w a p = (a.0, All-append-one P xs w a.1 p)

module _ {S : Type 0} (clock : ℕ → ℕ) (strategy : Strategy S) where
  pub place-priority :
      (s : Scheduler S) (info : SubmitInfo) (callback : Option ℕ) (w : ℕ)
      → ((place clock strategy s info callback w).heap w).priority ≡ info.priority
  place-priority s info callback w = ap (λ u. u.priority) (update-hit s.heap w _)

  pub place-refcount :
      (s : Scheduler S) (info : SubmitInfo) (callback : Option ℕ) (w : ℕ)
      → ((place clock strategy s info callback w).heap w).refcount ≡ 1
  place-refcount s info callback w = ap (λ u. u.refcount) (update-hit s.heap w _)

  abbrev pub counted_in : Scheduler S → Linked → Scheduler S
  counted_in p l = record (relink p l) {
    stats = record p.stats { submitted = (p.stats.submitted + 1) % u64_mod };
  }

  pub submit-stuck :
      (fuel : ℕ) (s : Scheduler S) (info : SubmitInfo) (callback : Option ℕ) (w : ℕ) (l : Linked)
      → s.initialized ≡ true
      → s.thread_running ≡ false
      → enqueue (place clock strategy s info callback w).heap s.ready (some w) ≡ (success, l)
      → process_loop clock strategy fuel (counted_in (place clock strategy s info callback w) l)
        ≡ none
      → submit clock strategy fuel s info callback (some w) ≡ none
  unfolding submit submit_queued process_internal
  submit-stuck fuel s info callback w l init idle e never = rw e (rw never (rw (idle, init) refl))

  pub submit-runs :
      (fuel : ℕ) (s s' : Scheduler S) (info : SubmitInfo) (callback : Option ℕ) (w : ℕ) (l : Linked)
      → s.initialized ≡ true
      → s.thread_running ≡ false
      → enqueue (place clock strategy s info callback w).heap s.ready (some w) ≡ (success, l)
      → process_loop clock strategy fuel (counted_in (place clock strategy s info callback w) l)
        ≡ some s'
      → submit clock strategy fuel s info callback (some w) ≡ some (success, some w, s')
  unfolding submit submit_queued process_internal
  submit-runs fuel s s' info callback w l init idle e ends = rw e (rw ends (rw (idle, init) refl))

  -- On an initialized scheduler without a thread, with fewer than 1024 workloads queued, all of
  -- priority above 0 like the new one, whose priority fits 32 bits and whose block is not among the
  -- queued, and with fuel for all of them: the call succeeds, gives the new workload out as
  -- completed with success, with the caller's reference alone, and leaves the queue empty.
  pub submit-Finished :
      (fuel : ℕ) (s : Scheduler S) (xs : List ℕ) (info : SubmitInfo) (callback : Option ℕ) (w : ℕ)
      → s.initialized ≡ true
      → s.thread_running ≡ false
      → IsQueue s.heap s.ready xs
      → All (λ x. 0 < (s.heap x).priority) xs
      → NotIn w xs
      → length xs < max_queued
      → 0 < info.priority
      → info.priority < u32_mod
      → suc (length xs) < fuel
      → (s' : Scheduler S) × (submit clock strategy fuel s info callback (some w)
          ≡ some (success, some w, s'))
        × ((s'.heap w).state ≡ completed)
        × ((s'.heap w).completion_signaled ≡ true)
        × ((s'.heap w).completion_status ≡ success)
        × ((s'.heap w).refcount ≡ 1)
        × IsQueue s'.heap s'.ready []
  submit-Finished fuel s xs info callback w init idle v pos new room positive word enough =
      let p : Scheduler S = place clock strategy s info callback w in
      elim (enqueue-IsQueue p.heap p.ready xs w
        (IsQueue-fresh s.heap w (queued_workload clock strategy s info callback) s.ready xs new v)
        new (omega (arith, place-priority s info callback w))
        (omega (arith, place-refcount s info callback w))) [
          | inr (full, _) ↦ absurd (omega arith)
          | inl (fits, l, e, lv, lref, lprio) ↦
              let counted : Scheduler S = counted_in p l in
              let (s', ys, ends, d) =
                process_loop-Drained clock strategy fuel counted (xs ++ w ∷ []) lv
                  (positive-same p.heap l.heap lprio (xs ++ w ∷ []) (
                    All-append-one (λ x. 0 < (p.heap x).priority) xs w
                      (All-fresh s.heap w (queued_workload clock strategy s info callback)
                        (λ n. 0 < n) xs new pos)
                      (omega (arith, place-priority s info callback w))))
                  (omega (arith, length-append xs (w ∷ []))) in
              let f = All-at (λ x. Finished (l.heap x) (s'.heap x)) w xs [] d.finished in
              (
                s',
                submit-runs fuel s s' info callback w l init idle e ends,
                f.state,
                f.signaled,
                f.status,
                omega (arith, f.refcount, lref, place-refcount s info callback w),
                d.queue,
              )
        ]
