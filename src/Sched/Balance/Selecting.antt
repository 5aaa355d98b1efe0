-- ===== src/Sched/Balance/Selecting.antt =====
-- The recommendations of src/userspace/scheduler/load_balancer.c, the choice of a GPU by them, and the
-- calls for the measured values.
use mathlib.Core.Path.{subst}
use mvgal.Base.{
  ℕ, suc, ◌≡◌, ◌⊎◌, inl, inr, refl, sym, ap, Bool, true, false, ◌&&◌, Option, none, some, List, [],
  ◌∷◌, ltb, leb, ltb→lt, length, ◌<◌, ◌≤◌, arith, ◌==◌, if◌then◌else◌, get_elem?, All, map,
  Bool-cases, update,
}
use mvgal.Status.{Status, success, invalid_argument, no_gpus}
use mvgal.Sched.Gpus.{Floats, no_gpu, max_gpus}
use mvgal.Sched.Balance.{GpuLoad, Balancer, Sensors}

-- The loop of load_balancer_select_gpu, with the recommendation of each GPU.
unfoldable pub select_from : {F : Type 0} → (F → F → Bool) → (ℕ → F) → List ℕ → F → ℕ → ℕ
select_from gt recommendation [] best_recommendation selected = selected
select_from gt recommendation (i ∷ is) best_recommendation selected =
    let better : Bool = gt (recommendation i) best_recommendation in
    select_from gt recommendation is (if better then recommendation i else best_recommendation)
      (if better then i else selected)

module _ {F : Type 0} (fl : Floats F) (sensors : Sensors F) (b : Balancer F)
    (compute_score : ℕ → Option F) where
  -- The capacity of a GPU, by the score in its descriptor.
  abbrev pub capacity_weight : Option F → F
  capacity_weight none = fl.lit 1 1
  capacity_weight (some score) =
      let weight : F = sensors.div score (fl.lit 50 1) in
      if fl.gt (fl.lit 1 10) weight then fl.lit 1 10 else weight

  abbrev pub thermal_penalty : F → F
  thermal_penalty temperature =
      let penalty : F = sensors.div (fl.sub temperature (fl.lit 60 1)) (fl.lit 25 1) in
      if fl.gt penalty (fl.lit 9 10) then fl.lit 9 10 else penalty

  -- The factor of a GPU.
  unfoldable pub load_factor : ℕ → F
  load_factor i =
      let u : GpuLoad F = b.gpus i in
      let factor : F =
        fl.mul (fl.sub (fl.lit 1 1) u.utilization) (capacity_weight (compute_score i)) in
      if leb b.gpu_count i
      then fl.lit 0 1
      else if b.thermal_aware && fl.gt u.temperature (fl.lit 60 1)
      then fl.mul factor (fl.sub (fl.lit 1 1) (thermal_penalty u.temperature))
      else factor

  -- load_balancer_get_recommendation, for pointers that are not NULL.
  unfoldable pub get_recommendation : List ℕ → Status × List F
  unfolding load_factor
  get_recommendation [] = (invalid_argument, [])
  get_recommendation (i ∷ is) = (success, map load_factor (i ∷ is))

  abbrev pub chosen_status : ℕ → Status
  chosen_status selected = if selected == no_gpu then no_gpus else success

  -- load_balancer_select_gpu, for pointers that are not NULL: the status and the selected GPU. `none`
  -- stands for more GPUs than its array of recommendations has entries, when it writes past the array.
  unfoldable pub select_gpu : List ℕ → Option (Status × Option ℕ)
  unfolding select_from load_factor
  select_gpu [] = some (invalid_argument, none)
  select_gpu (i ∷ is) =
      let selected : ℕ = select_from fl.gt load_factor (i ∷ is) (fl.negative (fl.lit 1 1)) no_gpu in
      if ltb max_gpus (length (i ∷ is)) then none else some (chosen_status selected, some selected)

-- load_balancer_update_temperature
unfoldable pub update_temperature : {F : Type 0} → ℕ → F → Balancer F → Balancer F
update_temperature i temperature_c b =
    if leb b.gpu_count i
    then b
    else record b { gpus = update b.gpus i (record (b.gpus i) { temperature = temperature_c }) }

-- load_balancer_update_power
unfoldable pub update_power : {F : Type 0} → ℕ → F → Balancer F → Balancer F
update_power i power_w b =
    if leb b.gpu_count i
    then b
    else record b { gpus = update b.gpus i (record (b.gpus i) { power_usage_w = power_w }) }

-- load_balancer_get_gpu_load, where at least one of the pointers is not NULL: the utilization in
-- percent, the temperature and the power.
unfoldable pub get_gpu_load : {F : Type 0} → Floats F → ℕ → Balancer F → Status × Option (F × F × F)
get_gpu_load fl i b = if leb b.gpu_count i then (invalid_argument, none) else (
  success,
  some (
    fl.mul (b.gpus i).utilization (fl.lit 100 1),
    (b.gpus i).temperature,
    (b.gpus i).power_usage_w,
  ),
)

module _ {F : Type 0} (gt : F → F → Bool) (factor : ℕ → F) where
  -- No GPU of the list has a factor above this value.
  abbrev pub AllBelow : F → List ℕ → Type 0
  AllBelow top = All (λ j. gt (factor j) top ≡ false)

  -- The selected GPU is the one of before, and none of the list is above it; or it stands in the list,
  -- its factor is above the one of before, and none of the list is above it.
  abbrev pub Selected : List ℕ → F → ℕ → ℕ → Type 0
  Selected is best before selected =
      ((selected ≡ before) × AllBelow best is)
      ⊎ ((k : ℕ) × (get_elem? is k ≡ some selected)
          × (gt (factor selected) best ≡ true)
          × AllBelow (factor selected) is)

module _ {F : Type 0} (gt : F → F → Bool)
    (gt-trans : (a b c : F) → gt a b ≡ true → gt b c ≡ true → gt a c ≡ true)
    (gt-irrefl : (a : F) → gt a a ≡ false) (factor : ℕ → F) where
  not-gt : (x y z : F) → gt x y ≡ false → gt z y ≡ true → gt x z ≡ false
  not-gt x y z lo hi = elim (Bool-cases (gt x z)) [
    | inl e ↦ absurd (cc (gt-trans x z y e hi))
    | inr e ↦ e
  ]

  better-Selected :
      (i : ℕ) (is : List ℕ) (best : F) (before selected : ℕ)
      → gt (factor i) best ≡ true
      → Selected gt factor is (factor i) i selected
      → Selected gt factor (i ∷ is) best before selected
  better-Selected i is best before selected up (inl (same, below)) =
      subst (λ (v : ℕ). Selected gt factor (i ∷ is) best before v) (sym same)
        (inr (0, refl, up, (gt-irrefl (factor i), below)))
  better-Selected i is best before selected up (inr (k, at, more, below)) = inr (
    suc k,
    at,
    gt-trans (factor selected) (factor i) best more up,
    (not-gt (factor i) (factor i) (factor selected) (gt-irrefl (factor i)) more, below),
  )

  kept-Selected :
      (i : ℕ) (is : List ℕ) (best : F) (before selected : ℕ)
      → gt (factor i) best ≡ false
      → Selected gt factor is best before selected
      → Selected gt factor (i ∷ is) best before selected
  kept-Selected i is best before selected lo (inl (same, below)) = inl (same, (lo, below))
  kept-Selected i is best before selected lo (inr (k, at, more, below)) =
      inr (suc k, at, more, (not-gt (factor i) best (factor selected) lo more, below))

  select_from-Selected :
      (is : List ℕ) (best : F) (before : ℕ)
      → Selected gt factor is best before (select_from gt factor is best before)
  unfolding select_from
  select_from-Selected [] best before = inl (refl, tt)
  select_from-Selected (i ∷ is) best before =
      let next : Bool → ℕ =
        λ t. select_from gt factor is (if t then factor i else best) (if t then i else before) in
      let Goal : ℕ → Type 0 = λ v. Selected gt factor (i ∷ is) best before v in
      elim (Bool-cases (gt (factor i) best)) [
        | inl up ↦
            subst Goal (sym (ap next up))
              (better-Selected i is best before _ up (select_from-Selected is (factor i) i))
        | inr lo ↦
            subst Goal (sym (ap next lo))
              (kept-Selected i is best before _ lo (select_from-Selected is best before))
      ]

-- Where the comparison of floats is transitive and irreflexive, the GPU that is selected from a list
-- that is not empty and has at most 16 entries stands in the list with a factor above -1 that no other
-- of the list exceeds, or no GPU of the list has a factor above -1 and the number is 0xFFFFFFFF. The
-- answer is NO_GPUS for this number and success for any other. A longer list has no result: the code
-- writes past its array.
pub select_gpu-Selected :
    {F : Type 0} (fl : Floats F)
    (gt-trans : (a b c : F) → fl.gt a b ≡ true → fl.gt b c ≡ true → fl.gt a c ≡ true)
    (gt-irrefl : (a : F) → fl.gt a a ≡ false) (sensors : Sensors F) (b : Balancer F)
    (compute_score : ℕ → Option F) (i : ℕ) (is : List ℕ)
    → ((length (i ∷ is) ≤ max_gpus)
        × ((selected : ℕ) × (select_gpu fl sensors b compute_score (i ∷ is)
              ≡ some (if selected == no_gpu then no_gpus else success, some selected))
            × Selected fl.gt
                (load_factor fl sensors b compute_score)
                (i ∷ is)
                (fl.negative (fl.lit 1 1))
                no_gpu
                selected))
      ⊎ ((max_gpus < length (i ∷ is)) × (select_gpu fl sensors b compute_score (i ∷ is) ≡ none))
unfolding select_gpu
select_gpu-Selected fl gt-trans gt-irrefl sensors b compute_score i is =
    elim (Bool-cases (ltb max_gpus (length (i ∷ is)))) [
      | inl long ↦ inr (ltb→lt _ _ long, rw long refl)
      | inr fits ↦ inl (
        ground (arith, fits),
        (
          select_from fl.gt (load_factor fl sensors b compute_score) (i ∷ is)
              (fl.negative (fl.lit 1 1)) no_gpu,
          rw fits refl,
          select_from-Selected fl.gt gt-trans gt-irrefl (load_factor fl sensors b compute_score)
              (i ∷ is) (fl.negative (fl.lit 1 1)) no_gpu,
        ),
      )
    ]
