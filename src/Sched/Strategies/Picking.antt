-- ===== src/Sched/Strategies/Picking.antt =====
-- The searches of strategy/task.c and strategy/compute_offload.c find the best GPU, first among those
-- with the features.
use mvgal.Base.{
  ℕ, zero, suc, ◌+◌, ◌≡◌, ◌⊎◌, inl, inr, refl, Bool, true, false, ◌&&◌, Option, none, some, arith,
  Bool-cases, and-true,
}
use mvgal.Sched.Types.{WorkloadType}
use mvgal.Sched.Gpus.{Floats, Gpu, Gpus}
use mvgal.Sched.Gpus.Searching as Searching
use mvgal.Sched.Strategies.{
  search_from, is_usable, has_bits, get_task_mapping, task_score, any_score, or_any, pick_task,
}
use mvgal.Sched.Strategies.Hybrid.{adjusted_score, can_compute, or_usable, pick_offload}

module _ {F : Type 0} (fl : Floats F)
    (gt-trans : (a b c : F) → fl.gt a b ≡ true → fl.gt b c ≡ true → fl.gt a c ≡ true)
    (gt-irrefl : (a : F) → fl.gt a a ≡ false) (g : Gpus F) where
  module _ (suits : Gpu F → Bool) (score : Gpu F → F) (floor : F) where
    -- What a search says of the GPUs below `n`.
    abbrev pub IsBest : ℕ → Option ℕ → Type 0
    IsBest =
        Searching.IsBest fl.gt gt-trans gt-irrefl (λ i. suits (g.gpus i)) (λ i. score (g.gpus i))
          floor

    abbrev top : Option ℕ → F
    top =
        Searching.score_of fl.gt gt-trans gt-irrefl (λ i. suits (g.gpus i)) (λ i. score (g.gpus i))
          floor

    search_from-IsBest :
        (n i m : ℕ) (o : Option ℕ)
        → m ≡ i + n
        → IsBest i o
        → IsBest m (search_from fl suits score g.gpus n i (top o) o)
    unfolding search_from
    search_from-IsBest zero i m o e b = let m=i : m ≡ i = omega (arith, e) in rw m=i b
    search_from-IsBest (suc n) i m o e b =
        elim (Bool-cases (suits (g.gpus i) && fl.gt (score (g.gpus i)) (top o))) [
          | inl t ↦
              let (s, above) = and-true (suits (g.gpus i)) _ t in
              rw t (
                search_from-IsBest n (suc i) m (some i) (omega (arith, e)) (
                  Searching.better fl.gt gt-trans gt-irrefl (λ i. suits (g.gpus i))
                    (λ i. score (g.gpus i)) floor i o b s above))
          | inr f ↦ rw f (
              search_from-IsBest n (suc i) m o (omega (arith, e)) (
                Searching.kept fl.gt gt-trans gt-irrefl (λ i. suits (g.gpus i))
                  (λ i. score (g.gpus i)) floor i o b f))
        ]

    abbrev pub searched : Option ℕ
    searched = search_from fl suits score g.gpus g.gpu_count 0 floor none

    searched-IsBest : IsBest g.gpu_count searched
    searched-IsBest =
        search_from-IsBest g.gpu_count 0 g.gpu_count none (omega arith)
          (λ j l s. absurd (omega arith))

  -- A first search finds the best GPU; or it finds none, and a second one gives the result.
  abbrev pub IsPicked :
      (Gpu F → Bool) → (Gpu F → F) → (Gpu F → Bool) → (Gpu F → F) → F → Option ℕ → Type 0
  IsPicked first first_score second second_score floor o =
      ((k : ℕ) × (o ≡ some k) × IsBest first first_score floor g.gpu_count (some k))
      ⊎ (IsBest first first_score floor g.gpu_count none
          × IsBest second second_score floor g.gpu_count o)

  task-IsPicked :
      (kind : WorkloadType) (o : Option ℕ)
      → IsBest
          (λ u. is_usable fl u && has_bits u.features (get_task_mapping fl kind).required)
          (task_score fl (get_task_mapping fl kind))
          (fl.negative (fl.lit 1000 1))
          g.gpu_count
          o
      → IsPicked
          (λ u. is_usable fl u && has_bits u.features (get_task_mapping fl kind).required)
          (task_score fl (get_task_mapping fl kind))
          (is_usable fl)
          (any_score fl)
          (fl.negative (fl.lit 1000 1))
          (or_any fl g o)
  task-IsPicked kind none b =
      inr (b, searched-IsBest (is_usable fl) (any_score fl) (fl.negative (fl.lit 1000 1)))
  task-IsPicked kind (some k) b = inl (k, refl, b)

  offload-IsPicked :
      (o : Option ℕ)
      → IsBest (can_compute fl) (adjusted_score fl) (fl.negative (fl.lit 1 1)) g.gpu_count o
      → IsPicked
          (can_compute fl)
          (adjusted_score fl)
          (is_usable fl)
          (adjusted_score fl)
          (fl.negative (fl.lit 1 1))
          (or_usable fl g o)
  offload-IsPicked none b =
      inr (b, searched-IsBest (is_usable fl) (adjusted_score fl) (fl.negative (fl.lit 1 1)))
  offload-IsPicked (some k) b = inl (k, refl, b)

  -- Where the comparison of floats is transitive and irreflexive: the GPU for a task, and the one for
  -- a computation, is the best of the usable GPUs with the features, if one of them has a score above
  -- -1000, or above -1; otherwise it is the best of all usable GPUs by the score of the second search, if
  -- one has such a score, and there is none if not.
  pub picks-IsPicked :
      (kind : WorkloadType)
      → IsPicked
          (λ u. is_usable fl u && has_bits u.features (get_task_mapping fl kind).required)
          (task_score fl (get_task_mapping fl kind))
          (is_usable fl)
          (any_score fl)
          (fl.negative (fl.lit 1000 1))
          (pick_task fl g kind)
        × IsPicked
            (can_compute fl)
            (adjusted_score fl)
            (is_usable fl)
            (adjusted_score fl)
            (fl.negative (fl.lit 1 1))
            (pick_offload fl g)
  unfolding pick_task pick_offload
  picks-IsPicked kind =
      (task-IsPicked kind _ (searched-IsBest _ _ _), offload-IsPicked _ (searched-IsBest _ _ _))
