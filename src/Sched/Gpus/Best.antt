-- ===== src/Sched/Gpus/Best.antt =====
-- The search of mvgal_scheduler_find_best_gpu.
use mvgal.Base.{
  ℕ, zero, suc, ◌+◌, ◌≡◌, inl, inr, Bool, true, false, ◌&&◌, Option, none, some, arith, Bool-cases,
  and-true,
}
use mvgal.Sched.Types.{Workload}
use mvgal.Sched.Gpus.Searching as Searching
use mvgal.Sched.Gpus.{Floats, Gpus, gpu_suitable, calculate_score, best_from, find_best_gpu}

module _ {F : Type 0} (fl : Floats F)
    (gt-trans : (a b c : F) → fl.gt a b ≡ true → fl.gt b c ≡ true → fl.gt a c ≡ true)
    (gt-irrefl : (a : F) → fl.gt a a ≡ false) (g : Gpus F) (w : Workload) where
  abbrev pub floor : F
  floor = fl.negative (fl.lit 1000 1)

  abbrev suits : ℕ → Bool
  suits j = gpu_suitable fl g j w

  abbrev score : ℕ → F
  score j = calculate_score fl g j w

  -- What the search says of the GPUs below `n`: a suitable GPU with a score above the floor that no
  -- suitable GPU exceeds, or that no suitable GPU has a score above the floor.
  abbrev pub IsBest : ℕ → Option ℕ → Type 0
  IsBest = Searching.IsBest fl.gt gt-trans gt-irrefl suits score floor

  abbrev top : Option ℕ → F
  top = Searching.score_of fl.gt gt-trans gt-irrefl suits score floor

  best_from-IsBest :
      (n i m : ℕ) (o : Option ℕ)
      → m ≡ i + n
      → IsBest i o
      → IsBest m (best_from fl g w n i (top o) o)
  unfolding best_from
  best_from-IsBest zero i m o e b = let m=i : m ≡ i = omega (arith, e) in rw m=i b
  best_from-IsBest (suc n) i m o e b = elim (Bool-cases (suits i && fl.gt (score i) (top o))) [
    | inl t ↦
        let (s, above) = and-true (suits i) _ t in
        rw t (
          best_from-IsBest n (suc i) m (some i) (omega (arith, e))
            (Searching.better fl.gt gt-trans gt-irrefl suits score floor i o b s above))
    | inr f ↦ rw f (
        best_from-IsBest n (suc i) m o (omega (arith, e))
          (Searching.kept fl.gt gt-trans gt-irrefl suits score floor i o b f))
  ]

  -- Where the comparison of floats is transitive and irreflexive, the search gives a suitable GPU whose
  -- score is above -1000 and is exceeded by no suitable GPU, or no GPU, where no suitable GPU has a
  -- score above -1000.
  pub find_best_gpu-IsBest : IsBest g.gpu_count (find_best_gpu fl g w)
  unfolding find_best_gpu
  find_best_gpu-IsBest =
      best_from-IsBest g.gpu_count 0 g.gpu_count none (omega arith) (λ j l s. absurd (omega arith))
