-- ===== src/Sched/Process/Drain.antt =====
-- The loop of mvgal_scheduler_process_internal against the abstract priority queue.
use mvgal.Base.{
  ℕ, zero, suc, ◌<◌, ◌≡◌, refl, ap, ◌∙◌, ◌≢◌, inl, inr, true, some, List, [], ◌∷◌, ◌++◌, arith, All,
  length, length-append, ltb, lt→ltb,
}
use mvgal.Status.{success}
use mvgal.Sched.Queue.{dequeue_priority, Linked}
use mvgal.Sched.Queue.Links.{NotIn, Distinct, IsQueue, SameButLinks, IsQueue-same}
use mvgal.Sched.Queue.Unlink.{NotIn-drop, All-drop}
use mvgal.Sched.Queue.Priority.{Chosen, dequeue_priority-Chosen}
use mvgal.Sched.State.{Scheduler, Strategy, relink}
use mvgal.Sched.Process.{walk_fuel, notify, complete, process_one, after_dequeue, process_loop}
use mvgal.Sched.Process.Order.{
  Drains, drained, take, calls, calls-same, Drains-same, All-insert, positive-same, NotIn-dropped,
  Untouched-trans, Untouched-Finished, Finished-Untouched, All-Untouched-Finished, links-Untouched,
  NotIn-at,
}
use mvgal.Sched.Process.Step.{
  Finished, Untouched, process_one-Finished, process_one-Untouched, process_one-same,
  process_one-called,
}

module _ {S : Type 0} (clock : ℕ → ℕ) (strategy : Strategy S) where
  -- The loop, started in `s` with the queue `xs`, has ended in `s'` and taken `ys` in this order.
  pub record Drained (s s' : Scheduler S) (xs ys : List ℕ) : Type 0 where
    pub queue : IsQueue s'.heap s'.ready []
    pub order : Drains s.heap xs ys
    pub finished : All (λ x. Finished (s.heap x) (s'.heap x)) xs
    pub untouched : (y : ℕ) → NotIn y xs → Untouched (s.heap y) (s'.heap y)
    pub called : s'.called ≡ calls s.heap ys s.called

  process_loop-done :
      (fuel : ℕ) (s : Scheduler S)
      → IsQueue s.heap s.ready []
      → process_loop clock strategy (suc fuel) s ≡ some s
  unfolding process_loop
  process_loop-done fuel s v = rw v.count refl

  process_loop-step :
      (fuel : ℕ) (s : Scheduler S) (x : ℕ) (l : Linked)
      → 0 < s.ready.count
      → dequeue_priority walk_fuel s.heap s.ready ≡ some (some x, l)
      → process_loop clock strategy (suc fuel) s
        ≡ process_loop clock strategy fuel (process_one clock strategy (relink s l) x)
  unfolding process_loop after_dequeue
  process_loop-step fuel s x l c e =
      let more : ltb 0 s.ready.count ≡ true = lt→ltb 0 s.ready.count c in rw more (rw e refl)

  module _ (s : Scheduler S) (x : ℕ) (xs : List ℕ) (c : Chosen s.heap 0 xs x) (l : Linked)
      (d : Distinct xs) (links : SameButLinks s.heap l.heap) where
    abbrev s1 : Scheduler S
    s1 = process_one clock strategy (relink s l) x

    s1-Untouched : (y : ℕ) → y ≢ x → Untouched (s.heap y) (s1.heap y)
    s1-Untouched y n =
        Untouched-trans (s.heap y) (l.heap y) (s1.heap y)
          (links-Untouched (s.heap y) (l.heap y) (links y))
          (process_one-Untouched clock strategy (relink s l) x y n)

    s1-finished : Finished (s.heap x) (s1.heap x)
    s1-finished =
        Untouched-Finished (s.heap x) (l.heap x) (s1.heap x)
          (links-Untouched (s.heap x) (l.heap x) (links x))
          (process_one-Finished clock strategy (relink s l) x)

    s1-callback : (y : ℕ) → (s1.heap y).callback ≡ (s.heap y).callback
    s1-callback y =
        (process_one-same clock strategy (relink s l) x y).3 ∙ ap (λ u. u.callback) (links y)

    s1-priority : (y : ℕ) → (s1.heap y).priority ≡ (s.heap y).priority
    s1-priority y =
        (process_one-same clock strategy (relink s l) x y).2 ∙ ap (λ u. u.priority) (links y)

    s1-called : s1.called ≡ notify (s.heap x).callback x success s.called
    s1-called =
        process_one-called clock strategy (relink s l) x
        ∙ ap (λ u. notify u.callback x success s.called) (links x)

    s1-IsQueue :
        IsQueue l.heap l.queue (c.pre ++ c.post) → IsQueue s1.heap s1.ready (c.pre ++ c.post)
    unfolding process_one complete
    s1-IsQueue v = IsQueue-same l.heap s1.heap same l.queue (c.pre ++ c.post) v
      where
        same :
            (y : ℕ)
            → ((s1.heap y).next ≡ (l.heap y).next)
              × ((s1.heap y).prev ≡ (l.heap y).prev)
              × ((s1.heap y).priority ≡ (l.heap y).priority)
        same y = let e = process_one-same clock strategy (relink s l) x y in (e.0, e.1, e.2)

    s1-positive :
        All (λ y. 0 < (s.heap y).priority) xs
        → All (λ y. 0 < (s1.heap y).priority) (c.pre ++ c.post)
    s1-positive a =
        positive-same s.heap s1.heap s1-priority (c.pre ++ c.post)
          (All-drop (λ y. 0 < (s.heap y).priority) x c.pre c.post (rw⁻¹ c.split a))

    shorter : length xs ≡ suc (length (c.pre ++ c.post))
    shorter =
        ap length c.split
        ∙ omega (arith, length-append c.pre (x ∷ c.post), length-append c.pre c.post)

    parted : Distinct (c.pre ++ x ∷ c.post)
    parted = rw⁻¹ c.split d

    s1-Drained :
        (s' : Scheduler S) (ys : List ℕ)
        → Drained s1 s' (c.pre ++ c.post) ys
        → Drained s s' xs (x ∷ ys)
    s1-Drained s' ys r = record {
      queue = r.queue;
      order = take c (Drains-same s.heap s1.heap s1-priority (c.pre ++ c.post) ys r.order);
      finished = rw c.split (
          All-insert (λ y. Finished (s.heap y) (s'.heap y)) x c.pre c.post
            (Finished-Untouched (s.heap x) (s1.heap x) (s'.heap x) s1-finished
              (r.untouched x (NotIn-dropped x c.pre c.post parted)))
            (All-Untouched-Finished s.heap s1.heap s'.heap x s1-Untouched (c.pre ++ c.post)
              (NotIn-dropped x c.pre c.post parted) r.finished));
      untouched = λ y n.
          Untouched-trans (s.heap y) (s1.heap y) (s'.heap y)
            (s1-Untouched y (NotIn-at y x c.pre c.post (rw⁻¹ c.split n)))
            (r.untouched y (NotIn-drop y x c.pre c.post (rw⁻¹ c.split n)));
      called =
          r.called
          ∙ calls-same s.heap s1.heap s1-callback ys s1.called
          ∙ ap (calls s.heap ys) s1-called;
    }

  -- With fuel for every workload of the queue, whose priorities are above 0, the loop ends. It
  -- takes each workload once, always the first of the highest priority, completes it with success,
  -- drops the queue's reference and calls its callback. It leaves the queue empty, and of the other
  -- workloads it changes at most links and the assignment of GPUs.
  pub process_loop-Drained :
      (fuel : ℕ) (s : Scheduler S) (xs : List ℕ)
      → IsQueue s.heap s.ready xs
      → All (λ x. 0 < (s.heap x).priority) xs
      → length xs < fuel
      → (s' : Scheduler S) × (ys : List ℕ) × (process_loop clock strategy fuel s ≡ some s')
        × Drained s s' xs ys
  process_loop-Drained zero s xs v pos room = absurd (omega arith)
  process_loop-Drained (suc fuel) s [] v pos room = (
    s,
    [],
    process_loop-done fuel s v,
    record { queue = v; order = drained; finished = tt; untouched = λ y n. refl; called = refl },
  )
  process_loop-Drained (suc fuel) s (x ∷ xs) v pos room =
      elim (dequeue_priority-Chosen walk_fuel s.heap s.ready (x ∷ xs) v (omega (arith, v.room))) [
        | inl (low, e) ↦ absurd (omega (arith, low.0, pos.0))
        | inr (z, c, l, e, lv, links) ↦
            let next : Scheduler S = process_one clock strategy (relink s l) z in
            let (s', ys, ends, d) =
              process_loop-Drained fuel next (c.pre ++ c.post)
                (s1-IsQueue s z (x ∷ xs) c l v.distinct links lv)
                (s1-positive s z (x ∷ xs) c l v.distinct links pos)
                (omega (arith, shorter s z (x ∷ xs) c l v.distinct links)) in
            (
              s',
              z ∷ ys,
              process_loop-step fuel s z l (omega (arith, v.count)) e ∙ ends,
              s1-Drained s z (x ∷ xs) c l v.distinct links s' ys d,
            )
      ]
