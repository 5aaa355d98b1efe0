-- ===== src/Kernel/Dispatch/Runs.antt =====
-- Runs of the dispatcher, one after the other.
use mathlib.Core.List.{append_assoc, append-nil}
use mvgal.Base.{ℕ, ◌≡◌, sym, ◌∙◌, ap, inl, List, [], ◌∷◌, ◌++◌, All}
use mvgal.Sched.Queue.Links.{NotIn}
use mvgal.Kernel.Workloads.{Scheduler}
use mvgal.Kernel.Dispatch.{Gpu}
use mvgal.Kernel.Dispatch.Stages.{
  HasGpu, Executed, Stage, Stage-trans, Executed-Stage, Stage-Executed, HasGpu-Stage,
}

module _ (gpus : List Gpu) where
  -- Between `s` and `t` exactly the workloads `ws` were run, in this order.
  pub record Ran (ws : List ℕ) (s t : Scheduler) : Type 0 where
    pub executed : All (λ w. Executed gpus (s.heap w) (t.heap w)) ws
    pub stage : (y : ℕ) → Stage gpus (s.heap y) (t.heap y)
    pub untouched : (y : ℕ) → NotIn y ws → t.heap y ≡ s.heap y
    pub order : t.submitted ≡ s.submitted ++ ws
    pub unlocks : t.bad_unlocks ≡ s.bad_unlocks

  pub All-HasGpu :
      (ws : List ℕ) (s t : Scheduler)
      → ((y : ℕ) → Stage gpus (s.heap y) (t.heap y))
      → All (λ w. HasGpu gpus (s.heap w)) ws
      → All (λ w. HasGpu gpus (t.heap w)) ws
  All-HasGpu [] s t st a = tt
  All-HasGpu (w ∷ ws) s t st (a, rest) =
      (HasGpu-Stage gpus (s.heap w) (t.heap w) (st w) a, All-HasGpu ws s t st rest)

  All-Executed-Stage :
      (ws : List ℕ) (s t u : Scheduler)
      → ((y : ℕ) → Stage gpus (t.heap y) (u.heap y))
      → All (λ w. Executed gpus (s.heap w) (t.heap w)) ws
      → All (λ w. Executed gpus (s.heap w) (u.heap w)) ws
  All-Executed-Stage [] s t u st a = tt
  All-Executed-Stage (w ∷ ws) s t u st (a, rest) = (
    Executed-Stage gpus (s.heap w) (t.heap w) (u.heap w) a (st w),
    All-Executed-Stage ws s t u st rest,
  )

  All-Stage-Executed :
      (ws vs : List ℕ) (s t u : Scheduler)
      → ((y : ℕ) → Stage gpus (s.heap y) (t.heap y))
      → All (λ w. Executed gpus (t.heap w) (u.heap w)) vs
      → All (λ w. Executed gpus (s.heap w) (u.heap w)) ws
      → All (λ w. Executed gpus (s.heap w) (u.heap w)) (ws ++ vs)
  All-Stage-Executed [] [] s t u st a b = tt
  All-Stage-Executed [] (v ∷ vs) s t u st (a, rest) b = (
    Stage-Executed gpus (s.heap v) (t.heap v) (u.heap v) (st v) a,
    All-Stage-Executed [] vs s t u st rest tt,
  )
  All-Stage-Executed (w ∷ ws) vs s t u st a (b, bs) = (b, All-Stage-Executed ws vs s t u st a bs)

  NotIn-parts : (y : ℕ) (ws vs : List ℕ) → NotIn y (ws ++ vs) → NotIn y ws × NotIn y vs
  NotIn-parts y [] vs n = (tt, n)
  NotIn-parts y (w ∷ ws) vs (n, ns) = let (a, b) = NotIn-parts y ws vs ns in ((n, a), b)

  pub Ran-trans :
      (ws vs : List ℕ) (s t u : Scheduler) → Ran ws s t → Ran vs t u → Ran (ws ++ vs) s u
  Ran-trans ws vs s t u a b = record {
    executed =
        All-Stage-Executed ws vs s t u a.stage b.executed
          (All-Executed-Stage ws s t u b.stage a.executed);
    stage = λ y. Stage-trans gpus (s.heap y) (t.heap y) (u.heap y) (a.stage y) (b.stage y);
    untouched = λ y n. let (n1, n2) = NotIn-parts y ws vs n in b.untouched y n2 ∙ a.untouched y n1;
    order = b.order ∙ ap (λ l. l ++ vs) a.order ∙ append_assoc s.submitted ws vs;
    unlocks = b.unlocks ∙ a.unlocks;
  }

  -- The same blocks, and the same counts.
  pub Ran-same :
      (s t : Scheduler)
      → t.heap ≡ s.heap
      → t.submitted ≡ s.submitted
      → t.bad_unlocks ≡ s.bad_unlocks
      → Ran [] s t
  Ran-same s t h e u = record {
    executed = tt;
    stage = λ y. inl (ap (λ f. f y) h);
    untouched = λ y n. ap (λ f. f y) h;
    order = e ∙ sym (append-nil s.submitted);
    unlocks = u;
  }

  -- A step after a run that changes no block and no count.
  pub Ran-end :
      (ws : List ℕ) (s t u : Scheduler)
      → Ran ws s t
      → u.heap ≡ t.heap
      → u.submitted ≡ t.submitted
      → u.bad_unlocks ≡ t.bad_unlocks
      → Ran ws s u
  Ran-end ws s t u r h e b = rw⁻¹ (append-nil ws) (Ran-trans ws [] s t u r (Ran-same t u h e b))
