-- ===== src/Sched/Threads/Submitting.antt =====
-- A submission keeps the reference counts, whether the queue has room or not.
use mvgal.Base.{
  ℕ, ◌+◌, ◌≡◌, refl, ap, inl, inr, true, Option, none, some, List, [], ◌∷◌, ◌++◌, arith, update,
  update-eq, update-ne, eq-or-ne,
}
use mvgal.Status.{success, memory_error}
use mvgal.Sched.Types.{Workload}
use mvgal.Sched.Queue.{retain, enqueue, append_tail, Linked}
use mvgal.Sched.Queue.Priority.{append_tail-same}
use mvgal.Sched.State.{Scheduler, Strategy}
use mvgal.Sched.Calls.{SubmitInfo, submit, submit_queued, place, queued_workload}
use mvgal.Sched.Calls.Submit.{counted_in}
use mvgal.Sched.Threads.{given}
use mvgal.Sched.Threads.References.{
  count, count-append, AllOwned, AllOwned-retain, AllOwned-same, AllOwned-fresh,
}

module _ {S : Type 0} (clock : ℕ → ℕ) (strategy : Strategy S) (s : Scheduler S) (fuel : ℕ)
    (info : SubmitInfo) (callback : Option ℕ) (w : ℕ) where
  abbrev placed : Scheduler S
  placed = place clock strategy s info callback w

  abbrev block : Workload
  block = queued_workload clock strategy s info callback

  -- A submission that has to take the new block back.
  abbrev pub undone : Scheduler S
  undone = record placed { heap = update placed.heap w (record (placed.heap w) { freed = true }) }

  pub submit-room :
      (l : Linked)
      → s.thread_running ≡ true
      → enqueue placed.heap placed.ready (some w) ≡ (success, l)
      → submit clock strategy fuel s info callback (some w)
        ≡ some (success, some w, counted_in clock strategy placed l)
  unfolding submit submit_queued
  submit-room l running e = rw e (rw running refl)

  pub submit-full :
      enqueue placed.heap placed.ready (some w)
        ≡ (memory_error, record { heap = placed.heap; queue = placed.ready })
      → submit clock strategy fuel s info callback (some w) ≡ some (memory_error, none, undone)
  unfolding submit submit_queued
  submit-full e = rw e refl

  module _ (xs : List ℕ) (users flying : ℕ → ℕ)
      (a : AllOwned s.heap (λ y. users y + flying y + count y xs))
      (nobody : users w + flying w + count w xs ≡ 0) where
    new-count : count w xs ≡ 0
    new-count = omega (arith, nobody)

    pub undone-AllOwned : AllOwned undone.heap (λ y. users y + flying y + count y xs)
    undone-AllOwned y =
        let b : Workload = record (placed.heap w) { freed = true } in
        elim (eq-or-ne y w) [
          | inl q ↦ rw q (inl (ap (λ b. Workload.freed b) (update-eq placed.heap w b), nobody))
          | inr d ↦ rw (update-ne placed.heap w b y d) (rw (update-ne s.heap w block y d) (a y))
        ]

    pub queued-AllOwned :
        AllOwned
          (append_tail (retain placed.heap (some w)) placed.ready w).heap
          (λ y. given (some w) users y + flying y + count y (xs ++ w ∷ []))
    queued-AllOwned =
        let m1 : ℕ → ℕ = λ y. given (some w) users y + flying y + count y xs in
        let m2 : ℕ → ℕ = λ y. given (some w) users y + flying y + count y (xs ++ w ∷ []) in
        let one : (placed.heap w).refcount ≡ 1 =
          ap (λ b. Workload.refcount b) (update-eq s.heap w block) in
        let a1 : AllOwned placed.heap m1 =
          AllOwned-fresh s.heap (λ y. users y + flying y + count y xs) a w block m1
            (inr (refl, ground (arith, nobody), omega arith, omega arith))
            (λ y d. ground (arith, d)) in
        let a2 : AllOwned (retain placed.heap (some w)) m2 =
          AllOwned-retain placed.heap m1 a1 w m2 (ground (arith, count-append w xs (w ∷ [])))
            (ground arith) (omega (arith, one))
            (λ y d. ground (arith, d, count-append y xs (w ∷ []))) in
        AllOwned-same (retain placed.heap (some w)) m2 a2
          (append_tail (retain placed.heap (some w)) placed.ready w).heap m2
          (λ y.
            let e = append_tail-same (retain placed.heap (some w)) placed.ready w y in
            (ap (λ b. Workload.freed b) e, ap (λ b. Workload.refcount b) e))
          (λ y. refl)
