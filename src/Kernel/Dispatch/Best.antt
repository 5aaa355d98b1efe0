-- ===== src/Kernel/Dispatch/Best.antt =====
-- The choice of mvgal_find_available_gpu.
use mvgal.Base.{
  ℕ, ◌+◌, ltb→lt, ◌≤◌, ◌<◌, ◌≡◌, refl, ◌⊎◌, inl, inr, true, ◌&&◌, Option, none, some, List, [], ◌∷◌,
  ◌++◌, arith, if_elim, and-true, and-false, All, ltb, ap,
}
use mvgal.Kernel.Dispatch.{Gpu, is_candidate, int_max, find_from, find_available_gpu}

-- If the GPU may be chosen, it is used `bound` or more.
abbrev pub AtLeast : ℕ → ℕ → Gpu → Type 0
AtLeast gpu_mask bound g = is_candidate gpu_mask g ≡ true → bound ≤ g.utilization

-- `g` is the first of the GPUs that may be chosen with the lowest utilization, which is below `bound`.
pub record Lowest (gpu_mask : ℕ) (gpus : List Gpu) (bound : ℕ) (g : Gpu) : Type 0 where
  pub pre : List Gpu
  pub post : List Gpu
  pub split : gpus ≡ pre ++ g ∷ post
  pub candidate : is_candidate gpu_mask g ≡ true
  pub below : g.utilization < bound
  pub earlier : All (AtLeast gpu_mask (g.utilization + 1)) pre
  pub later : All (AtLeast gpu_mask g.utilization) post

-- What a search over the GPUs ends with, from the best one before them.
abbrev pub Found : ℕ → List Gpu → ℕ → Option Gpu → Option Gpu → Type 0
Found gpu_mask gpus bound best r =
    ((r ≡ best) × All (AtLeast gpu_mask bound) gpus)
    ⊎ ((g : Gpu) × (r ≡ some g) × Lowest gpu_mask gpus bound g)

module _ (gpu_mask : ℕ) where
  extend :
      (g h : Gpu) (gpus : List Gpu) (inner bound : ℕ)
      → inner ≤ bound
      → AtLeast gpu_mask inner g
      → Lowest gpu_mask gpus inner h
      → Lowest gpu_mask (g ∷ gpus) bound h
  extend g h gpus inner bound le first l = record {
    pre = g ∷ l.pre;
    post = l.post;
    split = ap (λ xs. g ∷ xs) l.split;
    candidate = l.candidate;
    below = omega (arith, l.below);
    earlier = (λ c. omega (arith, first c, l.below), l.earlier);
    later = l.later;
  }

  taken :
      (g : Gpu) (gpus : List Gpu) (bound : ℕ) (best r : Option Gpu)
      → is_candidate gpu_mask g ≡ true
      → g.utilization < bound
      → Found gpu_mask gpus g.utilization (some g) r
      → Found gpu_mask (g ∷ gpus) bound best r
  taken g gpus bound best r c lt (inl (e, all)) = inr (
    g,
    e,
    record {
      pre = [];
      post = gpus;
      split = refl;
      candidate = c;
      below = lt;
      earlier = tt;
      later = all;
    },
  )
  taken g gpus bound best r c lt (inr (h, e, l)) =
      inr (h, e, extend g h gpus g.utilization bound (omega arith) (λ _. omega arith) l)

  passed :
      (g : Gpu) (gpus : List Gpu) (bound : ℕ) (best r : Option Gpu)
      → AtLeast gpu_mask bound g
      → Found gpu_mask gpus bound best r
      → Found gpu_mask (g ∷ gpus) bound best r
  passed g gpus bound best r first (inl (e, all)) = inl (e, (first, all))
  passed g gpus bound best r first (inr (h, e, l)) =
      inr (h, e, extend g h gpus bound bound (omega arith) first l)

  find_from-Found :
      (gpus : List Gpu) (bound : ℕ) (best : Option Gpu)
      → Found gpu_mask gpus bound best (find_from gpu_mask gpus bound best)
  unfolding find_from
  find_from-Found [] bound best = inl (refl, tt)
  find_from-Found (g ∷ gpus) bound best =
      if_elim (Found gpu_mask (g ∷ gpus) bound best)
        (is_candidate gpu_mask g && ltb g.utilization bound) _ _
        (λ e.
          let (c, l) = and-true (is_candidate gpu_mask g) _ e in
          taken g gpus bound best _ c (ltb→lt g.utilization bound l)
            (find_from-Found gpus g.utilization (some g)))
        (λ e.
          passed g gpus bound best _
            (λ c. ground (arith, and-false (is_candidate gpu_mask g) _ e c))
            (find_from-Found gpus bound best))

-- Either no GPU that is in the mask, enabled and available has a utilization below INT_MAX, and none
-- is chosen, or the chosen one is such a GPU of the lowest utilization, and the first of them in the
-- list.
pub find_available_gpu-Found :
    (gpus : List Gpu) (gpu_mask : ℕ)
    → Found gpu_mask gpus int_max none (find_available_gpu gpus gpu_mask)
unfolding find_available_gpu
find_available_gpu-Found gpus gpu_mask = find_from-Found gpu_mask gpus int_max none
