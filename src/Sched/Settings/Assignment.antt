-- ===== src/Sched/Settings/Assignment.antt =====
-- mvgal_workload_assign_gpus before mvgal_scheduler_distribute_afr.
use mvgal.Base.{
  ℕ, suc, ◌<◌, ◌≤◌, ◌≡◌, refl, ap, ◌∙◌, true, false, ◌||◌, Option, some, List, [], ◌∷◌, arith,
  length, ltb, lt→ltb, ◌==◌, update,
}
use mvgal.Status.{success}
use mvgal.Sched.Types.{Workload, Heap}
use mvgal.Sched.Process.Step.{update-hit}
use mvgal.Sched.Gpus.{Afr, distribute_afr, afr_init, max_gpus}
use mvgal.Sched.Settings.{assign_one, assign_from, assign_only, assign_gpus}

assign_one-kept :
    (i gpu : ℕ) (w : Workload)
    → 0 < i
    → ((assign_one i gpu w).assigned_gpus 0 ≡ w.assigned_gpus 0)
      × ((assign_one i gpu w).assigned_gpu_count ≡ w.assigned_gpu_count)
assign_one-kept i gpu w l = (ground arith, ground arith)

assign_from-kept :
    (i : ℕ) (gpus : List ℕ) (w : Workload)
    → 0 < i
    → ((assign_from i gpus w).assigned_gpus 0 ≡ w.assigned_gpus 0)
      × ((assign_from i gpus w).assigned_gpu_count ≡ w.assigned_gpu_count)
unfolding assign_from
assign_from-kept i [] w l = (refl, refl)
assign_from-kept i (gpu ∷ gpus) w l =
    let (a, b) = assign_from-kept (suc i) gpus (assign_one i gpu w) (omega arith) in
    let (c, d) = assign_one-kept i gpu w l in (a ∙ c, b ∙ d)

assign_only-kept :
    (gpus : List ℕ) (w : Workload)
    → ((assign_only gpus w).assigned_gpus 0 ≡ w.assigned_gpus 0)
      × ((assign_only gpus w).assigned_gpu_count ≡ w.assigned_gpu_count)
assign_only-kept [] w = (refl, refl)
assign_only-kept (g ∷ []) w = (refl, refl)
assign_only-kept (g ∷ g' ∷ gpus) w = (refl, refl)

assign_one-first :
    (g : ℕ) (w : Workload)
    → g < max_gpus
    → ((assign_one 0 g w).assigned_gpus 0 ≡ g)
      × ((assign_one 0 g w).assigned_gpu_count ≡ w.assigned_gpu_count)
assign_one-first g w l = (ground arith, ground arith)

first_assigned :
    (g : ℕ) (gpus : List ℕ) (w : Workload)
    → g < max_gpus
    → ((assign_from 0 (g ∷ gpus) w).assigned_gpus 0 ≡ g)
      × ((assign_from 0 (g ∷ gpus) w).assigned_gpu_count ≡ w.assigned_gpu_count)
unfolding assign_from
first_assigned g gpus w l =
    let (a, b) = assign_from-kept 1 gpus (assign_one 0 g w) (omega arith) in
    let (c, d) = assign_one-first g w l in (a ∙ c, b ∙ d)

-- The block after the assignment.
abbrev assigned_block : List ℕ → Workload → Workload
assigned_block gpus w =
    assign_only gpus (assign_from 0 gpus (record w { assigned_gpu_count = length gpus }))

assigned_block-first :
    (g : ℕ) (gpus : List ℕ) (w : Workload)
    → g < max_gpus
    → ((assigned_block (g ∷ gpus) w).assigned_gpus 0 ≡ g)
      × (0 < (assigned_block (g ∷ gpus) w).assigned_gpu_count)
assigned_block-first g gpus w l =
    let counted : Workload = record w { assigned_gpu_count = length (g ∷ gpus) } in
    let (a, b) = first_assigned g gpus counted l in
    let (c, d) = assign_only-kept (g ∷ gpus) (assign_from 0 (g ∷ gpus) counted) in
    (c ∙ a, omega (arith, d, b))

assigned_heap :
    (h : Heap) (w g : ℕ) (gpus : List ℕ)
    → length (g ∷ gpus) ≤ max_gpus
    → (assign_gpus h (some w) (g ∷ gpus)).1 ≡ update h w (assigned_block (g ∷ gpus) (h w))
unfolding assign_gpus
assigned_heap h w g gpus room =
    let fits : ((length (g ∷ gpus) == 0) || ltb max_gpus (length (g ∷ gpus))) ≡ false =
      ground arith in
    rw fits refl

follows :
    (best : Workload → Option ℕ) (a : Afr) (h : Heap) (w g : ℕ)
    → (h w).assigned_gpus 0 ≡ g
    → 0 < (h w).assigned_gpu_count
    → ((distribute_afr best a h w).0 ≡ success)
      × (((distribute_afr best a h w).1 w).assigned_gpu ≡ g)
      × ((distribute_afr best a h w).2 ≡ afr_init a)
unfolding distribute_afr
follows best a h w g e l =
    let given : ltb 0 (h w).assigned_gpu_count ≡ true = lt→ltb 0 (h w).assigned_gpu_count l in
    rw given (refl, ap (λ u. u.assigned_gpu) (update-hit h w _) ∙ e, refl)

-- After between one and 16 GPUs are assigned by hand to a workload, of which the first has a valid
-- index, alternate frame rendering succeeds and assigns the first of them, whatever the rotation's
-- state, and does not advance the rotation.
pub distribute_afr-assign_gpus :
    (best : Workload → Option ℕ) (a : Afr) (h : Heap) (w g : ℕ) (gpus : List ℕ)
    → g < max_gpus
    → length (g ∷ gpus) ≤ max_gpus
    → let h1 = (assign_gpus h (some w) (g ∷ gpus)).1 in
      ((distribute_afr best a h1 w).0 ≡ success)
      × (((distribute_afr best a h1 w).1 w).assigned_gpu ≡ g)
      × ((distribute_afr best a h1 w).2 ≡ afr_init a)
distribute_afr-assign_gpus best a h w g gpus valid room =
    let block : Workload = assigned_block (g ∷ gpus) (h w) in
    let (first, some_gpu) = assigned_block-first g gpus (h w) valid in
    let hit : update h w block w ≡ block = update-hit h w block in
    rw (assigned_heap h w g gpus room) (
      follows best a (update h w block) w g (ap (λ u. u.assigned_gpus 0) hit ∙ first)
        (omega (arith, ap (λ u. u.assigned_gpu_count) hit, some_gpu)))
