-- ===== src/Sched/Process/Step.antt =====
-- What one round of the loop does to the workload it takes, and to every other.
use mvgal.Base.{
  ℕ, ◌+◌, ◌-◌, ◌%◌, ◌≡◌, refl, ap, ◌∙◌, ◌≢◌, inl, inr, true, arith, update, if◌then◌else◌, ◌==◌,
  eq-or-ne,
}
use mvgal.Status.{success}
use mvgal.Sched.Types.{Workload, completed, Heap, u32_mod}
use mvgal.Sched.Queue.{release}
use mvgal.Sched.State.{Scheduler, Strategy}
use mvgal.Sched.Process.{completed_workload, complete, notify, process_one}

-- What the loop leaves of a workload: it is completed, and one reference is gone.
pub record Finished (before after : Workload) : Type 0 where
  pub state : after.state ≡ completed
  pub signaled : after.completion_signaled ≡ true
  pub status : after.completion_status ≡ success
  pub refcount : after.refcount ≡ (before.refcount + u32_mod - 1) % u32_mod

-- What may change of a workload that the loop does not process.
abbrev pub Untouched : Workload → Workload → Type 0
Untouched before after = after ≡ record before {
  next = after.next;
  prev = after.prev;
  assigned_gpu = after.assigned_gpu;
  assigned_gpu_count = after.assigned_gpu_count;
  assigned_gpus = after.assigned_gpus;
}

pub update-hit {ℓ} : {A : Type ℓ} (f : ℕ → A) (i : ℕ) (a : A) → update f i a i ≡ a
update-hit f i a = ground arith

pub update-miss {ℓ} : {A : Type ℓ} (f : ℕ → A) (i y : ℕ) (a : A) → y ≢ i → update f i a y ≡ f y
update-miss f i y a d = ground (arith, d)

-- The block of a workload after its last step in the loop.
abbrev finished : Workload → ℕ → Workload
finished w now = record (completed_workload w success now) {
  refcount = (w.refcount + u32_mod - 1) % u32_mod;
  freed = if w.refcount == 1 then true else w.freed;
}

-- Two blocks that differ in links and in the assignment of GPUs only.
assigned-Untouched :
    (v v' : Workload)
    → v' ≡ record v {
      assigned_gpu = v'.assigned_gpu;
      assigned_gpu_count = v'.assigned_gpu_count;
      assigned_gpus = v'.assigned_gpus;
    }
    → Untouched v v'
assigned-Untouched v v' e =
    let n : v'.next ≡ v.next = ap (λ u. u.next) e in
    let p : v'.prev ≡ v.prev = ap (λ u. u.prev) e in e ∙ rw (n, p) refl

module _ {S : Type 0} (clock : ℕ → ℕ) (strategy : Strategy S) where
  pub process_one-hit :
      (s : Scheduler S) (w : ℕ)
      → (process_one clock strategy s w).heap w
        ≡ finished ((strategy.apply s.strategy_state s.heap w).heap w) (clock s.readings)
  unfolding process_one complete release
  process_one-hit s w =
      let h : Heap = (strategy.apply s.strategy_state s.heap w).heap in
      let done : Workload = completed_workload (h w) success (clock s.readings) in
      let hit : update h w done w ≡ done = update-hit h w done in
      update-hit (update h w done) w _ ∙ rw hit refl

  pub process_one-miss :
      (s : Scheduler S) (w y : ℕ)
      → y ≢ w
      → (process_one clock strategy s w).heap y ≡ (strategy.apply s.strategy_state s.heap w).heap y
  unfolding process_one complete release
  process_one-miss s w y d =
      let h : Heap = (strategy.apply s.strategy_state s.heap w).heap in
      let done : Workload = completed_workload (h w) success (clock s.readings) in
      update-miss (update h w done) w y _ d ∙ update-miss h w y done d

  pub process_one-Finished :
      (s : Scheduler S) (w : ℕ) → Finished (s.heap w) ((process_one clock strategy s w).heap w)
  process_one-Finished s w = record {
    state = ap (λ v. v.state) (process_one-hit s w);
    signaled = ap (λ v. v.completion_signaled) (process_one-hit s w);
    status = ap (λ v. v.completion_status) (process_one-hit s w);
    refcount =
        ap (λ v. v.refcount) (process_one-hit s w)
        ∙ ap (λ v. (v.refcount + u32_mod - 1) % u32_mod)
            (strategy.assigns s.strategy_state s.heap w w);
  }

  pub process_one-Untouched :
      (s : Scheduler S) (w y : ℕ)
      → y ≢ w
      → Untouched (s.heap y) ((process_one clock strategy s w).heap y)
  process_one-Untouched s w y d =
      rw (process_one-miss s w y d)
        (assigned-Untouched (s.heap y) _ (strategy.assigns s.strategy_state s.heap w y))

  -- A round keeps links, priorities and callbacks.
  pub process_one-same :
      (s : Scheduler S) (w y : ℕ)
      → (((process_one clock strategy s w).heap y).next ≡ (s.heap y).next)
        × (((process_one clock strategy s w).heap y).prev ≡ (s.heap y).prev)
        × (((process_one clock strategy s w).heap y).priority ≡ (s.heap y).priority)
        × (((process_one clock strategy s w).heap y).callback ≡ (s.heap y).callback)
  process_one-same s w y = elim (eq-or-ne y w) [
    | inl y=w ↦ rw y=w hit
    | inr d ↦
        let e = process_one-miss s w y d ∙ strategy.assigns s.strategy_state s.heap w y in
        (ap (λ v. v.next) e, ap (λ v. v.prev) e, ap (λ v. v.priority) e, ap (λ v. v.callback) e)
  ]
    where
      hit :
          (((process_one clock strategy s w).heap w).next ≡ (s.heap w).next)
          × (((process_one clock strategy s w).heap w).prev ≡ (s.heap w).prev)
          × (((process_one clock strategy s w).heap w).priority ≡ (s.heap w).priority)
          × (((process_one clock strategy s w).heap w).callback ≡ (s.heap w).callback)
      hit =
          let e = process_one-hit s w in
          let a = strategy.assigns s.strategy_state s.heap w w in
          (
            ap (λ v. v.next) e ∙ ap (λ v. v.next) a,
            ap (λ v. v.prev) e ∙ ap (λ v. v.prev) a,
            ap (λ v. v.priority) e ∙ ap (λ v. v.priority) a,
            ap (λ v. v.callback) e ∙ ap (λ v. v.callback) a,
          )

  -- A round writes the call of the workload's callback.
  pub process_one-called :
      (s : Scheduler S) (w : ℕ)
      → (process_one clock strategy s w).called ≡ notify (s.heap w).callback w success s.called
  unfolding process_one complete release
  process_one-called s w =
      ap (λ f. notify f w success s.called)
        (ap (λ v. v.callback) (strategy.assigns s.strategy_state s.heap w w))
