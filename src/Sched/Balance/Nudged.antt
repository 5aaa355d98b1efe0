-- ===== src/Sched/Balance/Nudged.antt =====
-- The new priorities of two GPUs.
use mvgal.Base.{
  ℕ, ◌+◌, ◌^◌, ◌≤◌, ◌<◌, ◌≡◌, ◌≢◌, inl, inr, refl, ap, ◌∙◌, arith, update, update-eq, update-ne,
  eq-or-ne,
}
use mvgal.Sched.Gpus.{Floats}
use mvgal.Sched.Balance.{GpuLoad, Balancer, lowered, raised, with_priority, nudge}

-- The hot GPU's priority falls by 3, but not below 10, the cool one's rises by 3, but not above 100, the
-- configuration has the same priorities, and nothing else changes.
pub record Nudged {F : Type 0} (hot cool : ℕ) (b b' : Balancer F) : Type 0 where
  pub falls : 13 < (b.gpus hot).priority → (b'.gpus hot).priority + 3 ≡ (b.gpus hot).priority
  pub bottom : (b.gpus hot).priority ≤ 13 → (b'.gpus hot).priority ≡ 10
  pub rises :
      (b.gpus cool).priority + 3 < 100 → (b'.gpus cool).priority ≡ (b.gpus cool).priority + 3
  pub top :
      100 ≤ (b.gpus cool).priority + 3
      → (b.gpus cool).priority + 3 < 2 ^ 32
      → (b'.gpus cool).priority ≡ 100
  pub configured :
      (b'.gpu_priorities hot ≡ (b'.gpus hot).priority)
      × (b'.gpu_priorities cool ≡ (b'.gpus cool).priority)
  pub others :
      (i : ℕ)
      → i ≢ hot
      → i ≢ cool
      → (b'.gpus i ≡ b.gpus i) × (b'.gpu_priorities i ≡ b.gpu_priorities i)
  pub only_priority : (i : ℕ) → b'.gpus i ≡ record (b.gpus i) { priority = (b'.gpus i).priority }
  pub rest : b' ≡ record b { gpus = b'.gpus; gpu_priorities = b'.gpu_priorities }

module _ {F : Type 0} (fl : Floats F) where
  with_priority-only :
      (pri : ℕ) (gpus : ℕ → GpuLoad F) (i j : ℕ)
      → with_priority fl pri gpus i j
        ≡ record (gpus j) { priority = (with_priority fl pri gpus i j).priority }
  with_priority-only pri gpus i j = elim (eq-or-ne j i) [
    | inl e ↦ rw (e, update-eq gpus i (record (gpus i) { priority = pri })) refl
    | inr n ↦ rw (update-ne gpus i (record (gpus i) { priority = pri }) j n) refl
  ]

  pub nudge-Nudged :
      (hot cool : ℕ) (b : Balancer F) → hot ≢ cool → Nudged hot cool b (nudge fl hot cool b)
  unfolding nudge
  nudge-Nudged hot cool b n =
      let pri_hot : ℕ = lowered fl (b.gpus hot).priority in
      let pri_cool : ℕ = raised fl (b.gpus cool).priority in
      let gpus1 : ℕ → GpuLoad F = with_priority fl pri_hot b.gpus hot in
      let at_hot : with_priority fl pri_cool gpus1 cool hot
          ≡ record (b.gpus hot) { priority = pri_hot } =
        update-ne gpus1 cool (record (gpus1 cool) { priority = pri_cool }) hot n
        ∙ update-eq b.gpus hot (record (b.gpus hot) { priority = pri_hot }) in
      let at_cool : with_priority fl pri_cool gpus1 cool cool
          ≡ record (gpus1 cool) { priority = pri_cool } =
        update-eq gpus1 cool (record (gpus1 cool) { priority = pri_cool }) in
      let table : ℕ → ℕ = update b.gpu_priorities hot pri_hot in
      record {
        falls = λ lt. rw at_hot ground (arith, lt);
        bottom = λ le. rw at_hot ground (arith, le);
        rises = λ lt. rw at_cool ground (arith, lt);
        top = λ le small. rw at_cool ground (arith, le, small);
        configured = (
          rw (at_hot, update-ne table cool pri_cool hot n, update-eq b.gpu_priorities hot pri_hot)
              refl,
          rw (at_cool, update-eq table cool pri_cool) refl,
        );
        others = λ i nh nc. (
          update-ne gpus1 cool (record (gpus1 cool) { priority = pri_cool }) i nc
              ∙ update-ne b.gpus hot (record (b.gpus hot) { priority = pri_hot }) i nh,
          update-ne table cool pri_cool i nc ∙ update-ne b.gpu_priorities hot pri_hot i nh,
        );
        only_priority = λ i.
            with_priority-only pri_cool gpus1 cool i
            ∙ ap
                (λ (u : GpuLoad F). record u {
                  priority = (with_priority fl pri_cool gpus1 cool i).priority;
                })
                (with_priority-only pri_hot b.gpus hot i);
        rest = refl;
      }
