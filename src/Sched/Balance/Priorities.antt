-- ===== src/Sched/Balance/Priorities.antt =====
-- The priorities of the GPUs and those of the configuration.
use mvgal.Base.{
  ℕ, zero, suc, ◌≤◌, ◌≡◌, inl, inr, refl, sym, ap, ◌∙◌, not, ◌&&◌, leb, ◌==◌, if_elim, update,
  update-eq, update-ne, eq-or-ne, arith,
}
use mvgal.Sched.Gpus.{Floats}
use mvgal.Sched.Balance.{
  GpuLoad, Balancer, Sensors, Extremes, update_gpu_utilization, update_from, extremes_from,
  no_extremes, lowered, raised, with_priority, nudge, rebalance, updated, imbalance, balance_load,
}

-- The priority of a GPU is that of the configuration, and a percentage.
pub record IsInSync {F : Type 0} (b : Balancer F) : Type 0 where
  pub same : (i : ℕ) → b.gpu_priorities i ≡ (b.gpus i).priority
  pub percent : (i : ℕ) → (b.gpus i).priority ≤ 100

module _ {F : Type 0} (fl : Floats F) where
  -- The update of the utilizations keeps the priorities.
  pub update_from-priority :
      (sensors : Sensors F) (n i : ℕ) (gpus : ℕ → GpuLoad F) (j : ℕ)
      → (update_from fl sensors n i gpus j).priority ≡ (gpus j).priority
  unfolding update_from update_gpu_utilization
  update_from-priority sensors zero i gpus j = refl
  update_from-priority sensors (suc n) i gpus j =
      update_from-priority sensors n (suc i)
        (update gpus i (update_gpu_utilization fl sensors i (gpus i))) j
      ∙ elim (eq-or-ne j i) [
        | inl e ↦ rw e (
            ap (λ (u : GpuLoad F). u.priority)
              (update-eq gpus i (update_gpu_utilization fl sensors i (gpus i))))
        | inr d ↦
            ap (λ (u : GpuLoad F). u.priority)
              (update-ne gpus i (update_gpu_utilization fl sensors i (gpus i)) j d)
      ]

  lowered-le : (pri : ℕ) → pri ≤ 100 → lowered fl pri ≤ 100
  lowered-le pri l = ground arith

  raised-le : (pri : ℕ) → raised fl pri ≤ 100
  raised-le pri = ground arith

  with_priority-IsInSync :
      (pri i : ℕ) (b : Balancer F)
      → pri ≤ 100
      → IsInSync b
      → IsInSync (record b {
        gpus = with_priority fl pri b.gpus i;
        gpu_priorities = update b.gpu_priorities i pri;
      })
  with_priority-IsInSync pri i b l s = record {
    same = λ j. elim (eq-or-ne j i) [
      | inl e ↦
          rw
            (
              e,
              update-eq b.gpu_priorities i pri,
              update-eq b.gpus i (record (b.gpus i) { priority = pri }),
            )
            refl
      | inr d ↦
          rw
            (
              update-ne b.gpu_priorities i pri j d,
              update-ne b.gpus i (record (b.gpus i) { priority = pri }) j d,
            )
            (s.same j)
    ];
    percent = λ j. elim (eq-or-ne j i) [
      | inl e ↦ rw (e, update-eq b.gpus i (record (b.gpus i) { priority = pri })) l
      | inr d ↦ rw (update-ne b.gpus i (record (b.gpus i) { priority = pri }) j d) (s.percent j)
    ];
  }

  nudge-IsInSync : (hot cool : ℕ) (b : Balancer F) → IsInSync b → IsInSync (nudge fl hot cool b)
  unfolding nudge
  nudge-IsInSync hot cool b s =
      with_priority-IsInSync (raised fl (b.gpus cool).priority) cool _
        (raised-le (b.gpus cool).priority)
        (with_priority-IsInSync (lowered fl (b.gpus hot).priority) hot b
          (lowered-le (b.gpus hot).priority (s.percent hot)) s)

  rebalance-IsInSync : (b : Balancer F) → IsInSync b → IsInSync (rebalance fl b)
  unfolding rebalance
  rebalance-IsInSync b s =
      let e : Extremes F = extremes_from fl b.gpus b.gpu_count 0 (no_extremes fl) in
      if_elim IsInSync
        ((leb 2 e.active && not (e.idx_hot == e.idx_cool))
          && fl.gt (fl.sub e.util_hot e.util_cool) (fl.lit 5 100))
        _ _ (λ _. nudge-IsInSync e.idx_hot e.idx_cool b s) (λ _. s)

  -- Balancing keeps the priorities of the GPUs equal to those of the configuration, and at most 100,
  -- whatever the sensors give.
  pub balance_load-IsInSync :
      (sensors : Sensors F) (b : Balancer F) → IsInSync b → IsInSync (balance_load fl sensors b)
  unfolding balance_load
  balance_load-IsInSync sensors b s =
      let s1 : IsInSync (updated fl sensors b) = record {
        same = λ i. s.same i ∙ sym (update_from-priority sensors b.gpu_count 0 b.gpus i);
        percent = λ i. rw (update_from-priority sensors b.gpu_count 0 b.gpus i) (s.percent i);
      } in
      if_elim IsInSync (not b.dynamic_load_balance) _ _ (λ _. s)
        (λ _.
          if_elim IsInSync (fl.gt (imbalance fl (updated fl sensors b)) b.load_balance_threshold) _
            _ (λ _. rebalance-IsInSync (updated fl sensors b) s1) (λ _. s1))
