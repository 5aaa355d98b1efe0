-- ===== src/Kernel/Dispatch/Livelock.antt =====
-- What the dispatcher does with a workload that no GPU is there for.
use mvgal.Base.{
  ℕ, zero, suc, ◌<◌, ◌≡◌, refl, sym, ◌∙◌, ap, ◌≢◌, ◌⊎◌, inl, inr, Option, none, some, List, [], ◌∷◌,
  ◌++◌, arith, update, eq-or-ne, Option-cases, update-eq, update-ne,
}
use mvgal.Kernel.Workloads.{Workload, Scheduler, num_queues, signal}
use mvgal.Kernel.Dispatch.{
  Gpu, find_available_gpu, executed, lock, unlock, and_then, dispatch_one, round, drain, serve,
  serve_below, dispatch,
}

-- The list has the workload.
abbrev pub Has : ℕ → List ℕ → Type 0
Has z [] = ⊥
Has z (x ∷ xs) = (z ≡ x) ⊎ Has z xs

Has-last : (z x : ℕ) (xs : List ℕ) → Has z xs ⊎ (z ≡ x) → Has z (xs ++ x ∷ [])
Has-last z x [] (inl h) = elim h [ ]
Has-last z x [] (inr e) = inl e
Has-last z x (y ∷ ys) (inl (inl e)) = inl e
Has-last z x (y ∷ ys) (inl (inr h)) = inr (Has-last z x ys (inl h))
Has-last z x (y ∷ ys) (inr e) = inr (Has-last z x ys (inr e))

module _ (clock : ℕ → ℕ) (gpus : List Gpu) where
  -- What serving queue `i` keeps.
  record Kept (i : ℕ) (s t : Scheduler) : Type 0 where
    masks : (y : ℕ) → (t.heap y).gpu_mask ≡ (s.heap y).gpu_mask
    others : (j : ℕ) → j ≢ i → t.queues j ≡ s.queues j

  Kept-trans : (i : ℕ) (s t u : Scheduler) → Kept i s t → Kept i t u → Kept i s u
  Kept-trans i s t u a b = record {
    masks = λ y. b.masks y ∙ a.masks y;
    others = λ j n. b.others j n ∙ a.others j n;
  }

  -- The state in which the dispatcher looks for a GPU, with the first workload taken.
  abbrev opened : ℕ → List ℕ → Scheduler → Scheduler
  opened i rest s = unlock (record s { queues = update s.queues i rest })

  module _ (i w : ℕ) (rest : List ℕ) (s : Scheduler) where
    dispatch_one-Kept :
        (o : Option Gpu) → Kept i s (dispatch_one clock gpus i w o (opened i rest s))
    unfolding dispatch_one signal
    dispatch_one-Kept none = record {
      masks = λ y. refl;
      others = λ j n.
          update-ne (update s.queues i rest) i (update s.queues i rest i ++ w ∷ []) j n
          ∙ update-ne s.queues i rest j n;
    }
    dispatch_one-Kept (some g) = record {
      masks = λ y. elim (eq-or-ne y w) [
        | inl q ↦ rw q (
            ap (λ v. Workload.gpu_mask v)
              (update-eq s.heap w (executed clock gpus s.tick g (s.heap w))))
        | inr n ↦
            ap (λ v. Workload.gpu_mask v)
              (update-ne s.heap w (executed clock gpus s.tick g (s.heap w)) y n)
      ];
      others = λ j n. update-ne s.queues i rest j n;
    }

    dispatch_one-Has :
        (z : ℕ) (o : Option Gpu)
        → Has z rest ⊎ ((z ≡ w) × (o ≡ none))
        → Has z ((dispatch_one clock gpus i w o (opened i rest s)).queues i)
    unfolding dispatch_one
    dispatch_one-Has z none h =
        rw (update-eq (update s.queues i rest) i (update s.queues i rest i ++ w ∷ []))
          (rw (update-eq s.queues i rest) (Has-last z w rest (without h)))
      where
        without : Has z rest ⊎ ((z ≡ w) × (Path (Option Gpu) none none)) → Has z rest ⊎ (z ≡ w)
        without (inl k) = inl k
        without (inr (e, _)) = inr e
    dispatch_one-Has z (some g) (inl h) = rw (update-eq s.queues i rest) h
    dispatch_one-Has z (some g) (inr (e, bad)) = absurd (cc)

    round-Kept : Kept i s (round clock gpus i w rest s)
    unfolding round
    round-Kept = dispatch_one-Kept (find_available_gpu gpus (s.heap w).gpu_mask)

    round-Has :
        (z : ℕ)
        → find_available_gpu gpus (s.heap z).gpu_mask ≡ none
        → Has z (w ∷ rest)
        → Has z ((round clock gpus i w rest s).queues i)
    unfolding round
    round-Has z e (inl q) =
        dispatch_one-Has z (find_available_gpu gpus (s.heap w).gpu_mask)
          (inr (q, ap (λ y. find_available_gpu gpus (s.heap y).gpu_mask) (sym q) ∙ e))
    round-Has z e (inr h) = dispatch_one-Has z (find_available_gpu gpus (s.heap w).gpu_mask) (inl h)

  Kept-NoGpu :
      (i z : ℕ) (s t : Scheduler)
      → Kept i s t
      → find_available_gpu gpus (s.heap z).gpu_mask ≡ none
      → find_available_gpu gpus (t.heap z).gpu_mask ≡ none
  Kept-NoGpu i z s t k e = ap (find_available_gpu gpus) (k.masks z) ∙ e

  drain_never :
      (fuel i z : ℕ) (ws : List ℕ) (s : Scheduler)
      → find_available_gpu gpus (s.heap z).gpu_mask ≡ none
      → Has z ws
      → drain clock gpus fuel i ws s ≡ none
  unfolding drain
  drain_never zero i z ws s e h = refl
  drain_never (suc fuel) i z [] s e h = elim h [ ]
  drain_never (suc fuel) i z (w ∷ rest) s e h =
      let t : Scheduler = round clock gpus i w rest s in
      drain_never fuel i z (t.queues i) t (Kept-NoGpu i z s t (round-Kept i w rest s) e)
        (round-Has i w rest s z e h)

  drain-Kept :
      (fuel i : ℕ) (ws : List ℕ) (s t : Scheduler)
      → drain clock gpus fuel i ws s ≡ some t
      → Kept i s t
  unfolding drain
  drain-Kept zero i ws s t e = absurd (cc)
  drain-Kept (suc fuel) i [] s t e =
      let q : s ≡ t = cc in rw⁻¹ q (record { masks = λ y. refl; others = λ j n. refl })
  drain-Kept (suc fuel) i (w ∷ rest) s t e =
      let u : Scheduler = round clock gpus i w rest s in
      Kept-trans i s u t (round-Kept i w rest s) (drain-Kept fuel i (u.queues i) u t e)

  serve_never :
      (fuel i z : ℕ) (s : Scheduler)
      → find_available_gpu gpus (s.heap z).gpu_mask ≡ none
      → Has z (s.queues i)
      → serve clock gpus fuel i s ≡ none
  unfolding serve
  serve_never fuel i z s e h = rw (drain_never fuel i z (s.queues i) (lock s) e h) refl

  and_then-some :
      (o : Option Scheduler) (f : Scheduler → Option Scheduler) (t : Scheduler)
      → and_then o f ≡ some t
      → (u : Scheduler) × (o ≡ some u) × (f u ≡ some t)
  and_then-some none f t e = absurd (cc)
  and_then-some (some u) f t e = (u, refl, e)

  serve-Kept : (fuel i : ℕ) (s t : Scheduler) → serve clock gpus fuel i s ≡ some t → Kept i s t
  unfolding serve
  serve-Kept fuel i s t e =
      let (u, q, r) = and_then-some (drain clock gpus fuel i (s.queues i) (lock s)) _ t e in
      let k : Kept i (lock s) u = drain-Kept fuel i (s.queues i) (lock s) u q in
      let last : unlock u ≡ t = cc in rw⁻¹ last (record { masks = k.masks; others = k.others })

  serve_below_never :
      (fuel n i z : ℕ) (s : Scheduler)
      → i < n
      → find_available_gpu gpus (s.heap z).gpu_mask ≡ none
      → Has z (s.queues i)
      → serve_below clock gpus fuel n s ≡ none
  unfolding serve_below
  serve_below_never fuel zero i z s l e h = absurd (omega arith)
  serve_below_never fuel (suc n) i z s l e h = elim (eq-or-ne i n) [
    | inl q ↦ rw (serve_never fuel n z s e (rw⁻¹ q h)) refl
    | inr d ↦ elim (Option-cases (serve clock gpus fuel n s)) [
      | inl none_left ↦ rw none_left refl
      | inr (t, q) ↦
          let k = serve-Kept fuel n s t q in
          rw q (
            serve_below_never fuel n i z t (omega (arith, d)) (Kept-NoGpu n z s t k e)
              (rw (k.others i d) h))
    ]
  ]

  -- If one of the queues has a workload that no GPU is there for, the dispatcher never ends: it has no
  -- result with any fuel.
  pub dispatch_never :
      (fuel i z : ℕ) (s : Scheduler)
      → i < num_queues
      → Has z (s.queues i)
      → find_available_gpu gpus (s.heap z).gpu_mask ≡ none
      → dispatch clock gpus fuel s ≡ none
  unfolding dispatch
  dispatch_never fuel i z s l h e = serve_below_never fuel num_queues i z s l e h
