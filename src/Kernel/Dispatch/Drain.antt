-- ===== src/Kernel/Dispatch/Drain.antt =====
-- The dispatcher runs every workload that a GPU is there for.
use mvgal.Base.{
  ℕ, zero, suc, ◌≤◌, ◌<◌, ◌≡◌, refl, sym, ◌∙◌, ap, ◌≢◌, inl, inr, true, false, some, List, [], ◌∷◌,
  ◌++◌, arith, All, length, update, eq-or-ne, update-eq, update-ne,
}
use mvgal.Kernel.Workloads.{Workload, Scheduler, signal, num_queues}
use mvgal.Kernel.Dispatch.{
  Gpu, find_available_gpu, lock, unlock, executed, dispatch_one, round, drain, serve, serve_below,
  dispatch,
}
use mvgal.Kernel.Dispatch.Stages.{HasGpu, Executed}
use mvgal.Kernel.Dispatch.Runs.{Ran, Ran-end, Ran-same, Ran-trans, All-HasGpu}

update_same : (f : ℕ → List ℕ) (i : ℕ) (v : List ℕ) → f i ≡ v → (j : ℕ) → f j ≡ update f i v j
update_same f i v e j = elim (eq-or-ne j i) [
  | inl q ↦ rw q (e ∙ sym (update-eq f i v))
  | inr n ↦ sym (update-ne f i v j n)
]

update_twice :
    (f : ℕ → List ℕ) (i : ℕ) (v w : List ℕ) (j : ℕ) → update (update f i v) i w j ≡ update f i w j
update_twice f i v w j = elim (eq-or-ne j i) [
  | inl q ↦ rw q (update-eq (update f i v) i w ∙ sym (update-eq f i w))
  | inr n ↦ update-ne (update f i v) i w j n ∙ update-ne f i v j n ∙ sym (update-ne f i w j n)
]

-- The queues from the highest to the lowest below `n`.
abbrev pub in_order : ℕ → (ℕ → List ℕ) → List ℕ
in_order zero queues = []
in_order (suc i) queues = queues i ++ in_order i queues

in_order_ext :
    (n : ℕ) (f g : ℕ → List ℕ) → ((j : ℕ) → j < n → f j ≡ g j) → in_order n f ≡ in_order n g
in_order_ext zero f g e = refl
in_order_ext (suc i) f g e =
    ap (λ l. l ++ in_order i f) (e i (omega arith))
    ∙ ap (λ l. g i ++ l) (in_order_ext i f g (λ j l. e j (omega arith)))

module _ (clock : ℕ → ℕ) (gpus : List Gpu) where
  executed-Executed :
      (tick : ℕ) (g : Gpu) (v : Workload)
      → find_available_gpu gpus v.gpu_mask ≡ some g
      → Executed gpus v (executed clock gpus tick g v)
  unfolding signal
  executed-Executed tick g v e = record {
    gpu = g;
    found = e;
    assigned = refl;
    result = refl;
    state = refl;
    signaled = refl;
    done = omega arith;
    same = record {
      id = refl;
      priority = refl;
      gpu_mask = refl;
      addr = refl;
      size = refl;
      freed = refl;
    };
  }

  module _ (i w : ℕ) (rest : List ℕ) (s : Scheduler) (g : Gpu) where
    -- The state after a round that runs `w` on `g`.
    abbrev next : Scheduler
    next =
        dispatch_one clock gpus i w (some g) (unlock (record s { queues = update s.queues i rest }))

    next-Ran :
        find_available_gpu gpus (s.heap w).gpu_mask ≡ some g
        → s.held ≡ true
        → Ran gpus (w ∷ []) s next
    unfolding dispatch_one
    next-Ran e h = record {
      executed = (
        rw (update-eq s.heap w (executed clock gpus s.tick g (s.heap w)))
            (executed-Executed s.tick g (s.heap w) e),
        tt,
      );
      stage = λ y. elim (eq-or-ne y w) [
        | inl q ↦ rw q (
            inr (
              rw (update-eq s.heap w (executed clock gpus s.tick g (s.heap w)))
                (executed-Executed s.tick g (s.heap w) e)))
        | inr n ↦ inl (update-ne s.heap w (executed clock gpus s.tick g (s.heap w)) y n)
      ];
      untouched = λ y n. update-ne s.heap w (executed clock gpus s.tick g (s.heap w)) y n.0;
      order = refl;
      unlocks = rw h refl;
    }

    drain-next :
        (fuel : ℕ)
        → find_available_gpu gpus (s.heap w).gpu_mask ≡ some g
        → drain clock gpus (suc fuel) i (w ∷ rest) s ≡ drain clock gpus fuel i rest next
    unfolding drain round dispatch_one
    drain-next fuel e = rw e (rw (update-eq s.queues i rest) refl)

    next-queues : next.queues ≡ update s.queues i rest
    unfolding dispatch_one
    next-queues = refl

    next-held : next.held ≡ true
    unfolding dispatch_one
    next-held = refl

  -- The inner loop on queue `i` has ended in `t`, and has run `ws`.
  record Drained (i : ℕ) (ws : List ℕ) (s t : Scheduler) : Type 0 where
    ran : Ran gpus ws s t
    held : t.held ≡ true
    queues : (j : ℕ) → t.queues j ≡ update s.queues i [] j

  drain-Drained :
      (fuel i : ℕ) (ws : List ℕ) (s : Scheduler)
      → s.held ≡ true
      → s.queues i ≡ ws
      → length ws < fuel
      → All (λ w. HasGpu gpus (s.heap w)) ws
      → (t : Scheduler) × (drain clock gpus fuel i ws s ≡ some t) × Drained i ws s t
  unfolding drain
  drain-Drained zero i ws s h q f a = absurd (omega arith)
  drain-Drained (suc fuel) i [] s h q f a = (
    s,
    refl,
    record {
      ran = Ran-same gpus s s refl refl refl;
      held = h;
      queues = update_same s.queues i [] q;
    },
  )
  drain-Drained (suc fuel) i (w ∷ rest) s h q f ((g, e), a) =
      let r : Ran gpus (w ∷ []) s (next i w rest s g) = next-Ran i w rest s g e h in
      let (t, e', d) =
        drain-Drained fuel i rest (next i w rest s g) (next-held i w rest s g)
          (ap (λ x. x i) (next-queues i w rest s g) ∙ update-eq s.queues i rest) (omega arith)
          (All-HasGpu gpus rest s (next i w rest s g) r.stage a) in
      (
        t,
        drain-next i w rest s g fuel e ∙ e',
        record {
          ran = Ran-trans gpus (w ∷ []) rest s (next i w rest s g) t r d.ran;
          held = d.held;
          queues = λ j. d.queues j ∙ update_twice s.queues i rest [] j;
        },
      )

  -- The queues below `n` were served, from `s` to `t`.
  record Served (n : ℕ) (s t : Scheduler) : Type 0 where
    ran : Ran gpus (in_order n s.queues) s t
    empty : (j : ℕ) → j < n → t.queues j ≡ []
    kept : (j : ℕ) → n ≤ j → t.queues j ≡ s.queues j
    held : s.held ≡ false → t.held ≡ false

  serve-Drained :
      (fuel i : ℕ) (s : Scheduler)
      → length (s.queues i) < fuel
      → All (λ w. HasGpu gpus (s.heap w)) (s.queues i)
      → (t : Scheduler) × (serve clock gpus fuel i s ≡ some t)
        × Ran gpus (s.queues i) s t
        × (t.held ≡ false)
        × ((j : ℕ) → t.queues j ≡ update s.queues i [] j)
  unfolding serve
  serve-Drained fuel i s f a =
      let (t, e, d) = drain-Drained fuel i (s.queues i) (lock s) refl refl f a in
      (
        unlock t,
        rw e refl,
        Ran-trans gpus [] (s.queues i) s (lock s) (unlock t)
            (Ran-same gpus s (lock s) refl refl refl)
            (Ran-end gpus (s.queues i) (lock s) t (unlock t) d.ran refl refl (rw d.held refl)),
        refl,
        d.queues,
      )

  serve_below-Served :
      (fuel n : ℕ) (s : Scheduler)
      → ((j : ℕ) → j < n → length (s.queues j) < fuel)
      → ((j : ℕ) → j < n → All (λ w. HasGpu gpus (s.heap w)) (s.queues j))
      → (t : Scheduler) × (serve_below clock gpus fuel n s ≡ some t) × Served n s t
  unfolding serve_below
  serve_below-Served fuel zero s f a = (
    s,
    refl,
    record {
      ran = Ran-same gpus s s refl refl refl;
      empty = λ j l. absurd (omega arith);
      kept = λ j l. refl;
      held = λ h. h;
    },
  )
  serve_below-Served fuel (suc i) s f a =
      let (t, e, ran, held, queues) =
        serve-Drained fuel i s (f i (omega arith)) (a i (omega arith)) in
      let same : (j : ℕ) → j ≢ i → t.queues j ≡ s.queues j =
        λ j n. queues j ∙ update-ne s.queues i [] j n in
      let (u, e', v) =
        serve_below-Served fuel i t (λ j l. rw (same j (omega arith)) (f j (omega arith)))
          (λ j l.
            rw (same j (omega arith))
              (All-HasGpu gpus (s.queues j) s t ran.stage (a j (omega arith)))) in
      let order : in_order i t.queues ≡ in_order i s.queues =
        in_order_ext i t.queues s.queues (λ j l. same j (omega arith)) in
      (
        u,
        rw e e',
        record {
          ran = Ran-trans gpus (s.queues i) (in_order i s.queues) s t u ran (rw⁻¹ order v.ran);
          empty = λ j l. elim (eq-or-ne j i) [
            | inl q ↦ rw q (v.kept i (omega arith) ∙ queues i ∙ update-eq s.queues i [])
            | inr n ↦ v.empty j (omega (arith, n))
          ];
          kept = λ j l. v.kept j (omega arith) ∙ same j (omega arith);
          held = λ h. v.held held;
        },
      )

  -- The dispatcher started in `s` and ended in `t`.
  pub record Dispatched (s t : Scheduler) : Type 0 where
    pub ran : Ran gpus (in_order num_queues s.queues) s t
    pub empty : (j : ℕ) → j < num_queues → t.queues j ≡ []
    pub held : t.held ≡ false

  -- If there is a GPU for every queued workload, the dispatcher ends, with more fuel than a queue is
  -- long: the queues are empty, the workloads were run in the order of the queues from the highest
  -- to the lowest, and first in, first out in a queue. Each was run on the GPU chosen for its mask,
  -- has the result of its submission and the state that tells it, and has woken its waiters; no other
  -- workload has changed, and each unlock was of a lock that was held.
  pub dispatch-Dispatched :
      (fuel : ℕ) (s : Scheduler)
      → s.held ≡ false
      → ((j : ℕ) → j < num_queues → length (s.queues j) < fuel)
      → ((j : ℕ) → j < num_queues → All (λ w. HasGpu gpus (s.heap w)) (s.queues j))
      → (t : Scheduler) × (dispatch clock gpus fuel s ≡ some t) × Dispatched s t
  unfolding dispatch
  dispatch-Dispatched fuel s h f a =
      let (t, e, v) = serve_below-Served fuel num_queues s f a in
      (t, e, record { ran = v.ran; empty = v.empty; held = v.held h })
