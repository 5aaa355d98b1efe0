-- ===== src/Sched/Balance/Measuring.antt =====
-- What the first loop of mvgal_scheduler_balance_load writes.
use mvgal.Base.{
  ℕ, zero, suc, ◌+◌, ◌≤◌, ◌<◌, ◌≡◌, ◌⊎◌, inl, inr, refl, ap, ◌∙◌, true, false, none, some, arith,
  update-eq, update-ne, eq-or-ne,
}
use mvgal.Sched.Gpus.{Floats}
use mvgal.Sched.Balance.{
  GpuLoad, Balancer, Sensors, clamp, update_gpu_utilization, update_from, updated,
}

module _ {F : Type 0} (fl : Floats F) where
  -- The value `y` is `x` where that is in the range from 0 to 1, and the nearer end where it is not.
  pub record IsClamped (x y : F) : Type 0 where
    pub below : fl.gt (fl.lit 0 1) x ≡ true → y ≡ fl.lit 0 1
    pub above : fl.gt (fl.lit 0 1) x ≡ false → fl.gt x (fl.lit 1 1) ≡ true → y ≡ fl.lit 1 1
    pub inside : fl.gt (fl.lit 0 1) x ≡ false → fl.gt x (fl.lit 1 1) ≡ false → y ≡ x

  -- Seven tenths of the old utilization and three tenths of the new.
  abbrev pub mixed : F → F → F
  mixed old new = fl.add (fl.mul old (fl.lit 7 10)) (fl.mul new (fl.lit 3 10))

  -- The load `v` is `u` after a measurement of GPU `i`.
  pub record IsMeasured (sensors : Sensors F) (i : ℕ) (u v : GpuLoad F) : Type 0 where
    pub by_sensor :
        (percent : F)
        → sensors.utilization i ≡ some percent
        → IsClamped (mixed u.utilization (sensors.div percent (fl.lit 100 1))) v.utilization
    pub by_queue :
        sensors.utilization i ≡ none
        → IsClamped
            (mixed u.utilization (sensors.div (fl.of_u32 u.queue_count) (fl.lit 10 1)))
            v.utilization
    pub warm : (degrees : F) → sensors.temperature i ≡ some degrees → v.temperature ≡ degrees
    pub unknown : sensors.temperature i ≡ none → v.temperature ≡ u.temperature
    pub rest : v ≡ record u { utilization = v.utilization; temperature = v.temperature }

  -- Each GPU of `b` is measured, and nothing else changes.
  pub record AreMeasured (sensors : Sensors F) (b b' : Balancer F) : Type 0 where
    pub gpus : (i : ℕ) → i < b.gpu_count → IsMeasured sensors i (b.gpus i) (b'.gpus i)
    pub beyond : (i : ℕ) → b.gpu_count ≤ i → b'.gpus i ≡ b.gpus i
    pub rest : b' ≡ record b { gpus = b'.gpus }

  module _ (zero_below_one : fl.gt (fl.lit 0 1) (fl.lit 1 1) ≡ false) where
    clamp-IsClamped : (x : F) → IsClamped x (clamp fl x)
    clamp-IsClamped x = record {
      below = λ e. rw (e, zero_below_one) refl;
      above = λ e f. rw (e, f) refl;
      inside = λ e f. rw (e, f) refl;
    }

    update_gpu_utilization-IsMeasured :
        (sensors : Sensors F) (i : ℕ) (u : GpuLoad F)
        → IsMeasured sensors i u (update_gpu_utilization fl sensors i u)
    unfolding update_gpu_utilization
    update_gpu_utilization-IsMeasured sensors i u = record {
      by_sensor = λ percent e. rw e (clamp-IsClamped _);
      by_queue = λ e. rw e (clamp-IsClamped _);
      warm = λ degrees e. rw e refl;
      unknown = λ e. rw e refl;
      rest = refl;
    }

    module _ (sensors : Sensors F) where
      update_from-out :
          (n i : ℕ) (gpus : ℕ → GpuLoad F) (j : ℕ)
          → (j < i) ⊎ (i + n ≤ j)
          → update_from fl sensors n i gpus j ≡ gpus j
      unfolding update_from
      update_from-out zero i gpus j out = refl
      update_from-out (suc n) i gpus j out =
          update_from-out n (suc i) _ j ground (arith, out)
          ∙ update-ne gpus i _ j (λ e. ground (arith, out, e))

      update_from-in :
          (n i : ℕ) (gpus : ℕ → GpuLoad F) (j : ℕ)
          → i ≤ j
          → j < i + n
          → update_from fl sensors n i gpus j ≡ update_gpu_utilization fl sensors j (gpus j)
      unfolding update_from
      update_from-in zero i gpus j le lt = absurd (omega arith)
      update_from-in (suc n) i gpus j le lt = elim (eq-or-ne j i) [
        | inl e ↦ rw e (
            update_from-out n (suc i) _ i (inl (omega arith))
            ∙ update-eq gpus i (update_gpu_utilization fl sensors i (gpus i)))
        | inr ne ↦
            update_from-in n (suc i) _ j (omega (arith, le, ne)) (omega (arith, lt))
            ∙ ap (update_gpu_utilization fl sensors j) (update-ne gpus i _ j ne)
      ]

      pub updated-AreMeasured : (b : Balancer F) → AreMeasured sensors b (updated fl sensors b)
      updated-AreMeasured b = record {
        gpus = λ i lt.
            rw (update_from-in b.gpu_count 0 b.gpus i (omega arith) (omega (arith, lt)))
              (update_gpu_utilization-IsMeasured sensors i (b.gpus i));
        beyond = λ i le. update_from-out b.gpu_count 0 b.gpus i (inr (omega (arith, le)));
        rest = refl;
      }
