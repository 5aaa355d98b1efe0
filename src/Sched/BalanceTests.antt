-- ===== src/Sched/BalanceTests.antt =====
-- The theorems on the load balancer at two GPUs of which one is busy.
use mvgal.Base.{
  ℕ, ◌+◌, ◌-◌, ◌*◌, ◌/◌, ◌<◌, ◌≤◌, ◌≡◌, ◌⊎◌, refl, true, false, Option, none, some, [], ◌∷◌, ltb,
  ◌==◌, if◌then◌else◌, arith,
}
use mvgal.Status.{success, no_gpus}
use mvgal.Sched.Gpus.{Floats, no_gpu, max_gpus}
use mvgal.Sched.Balance.Selecting.{load_factor, select_gpu, Selected, select_gpu-Selected}
use mvgal.Sched.Balance.{GpuLoad, Balancer, Sensors, updated, balance_load, update_from}
use mvgal.Sched.Balance.Priorities.{IsInSync, balance_load-IsInSync}
use mvgal.Sched.Balance.Spread.{IsSpread}
use mvgal.Sched.Balance.Measuring.{AreMeasured}
use mvgal.Sched.Balance.Nudging.{Rebalanced, AreOrdinary, balance_load-Rebalanced}

-- Thousandths, from -1 on, stand for floats: 1000 is 0.
abbrev thousandths : Floats ℕ
thousandths = record {
  lit = λ n d. 1000 + 1000 * n / d;
  negative = λ a. 2000 - a;
  of_u32 = λ n. 1000 + 1000 * n;
  add = λ a b. a + b - 1000;
  sub = λ a b. a + 1000 - b;
  mul = λ a b. 1000 + (a - 1000) * (b - 1000) / 1000;
  gt = λ a b. ltb b a;
}

gt-trans : (a b c : ℕ) → ltb b a ≡ true → ltb c b ≡ true → ltb c a ≡ true
gt-trans a b c e f = ground arith

gt-irrefl : (a : ℕ) → ltb a a ≡ false
gt-irrefl a = ground arith

-- The GPU 0 is at 90 percent, the others at 10.
abbrev sensors : Sensors ℕ
sensors = record {
  utilization = λ i. some (if i == 0 then 91_000 else 11_000);
  temperature = λ i. some 51_000;
  div = λ a b. 1000 + (a - 1000) * 1000 / (b - 1000);
}

abbrev idle_gpu : GpuLoad ℕ
idle_gpu = record {
  available = true;
  enabled = true;
  utilization = 1000;
  temperature = 41_000;
  power_usage_w = 1000;
  queue_count = 0;
  priority = 50;
}

abbrev two_gpus : Balancer ℕ
two_gpus = record {
  gpu_count = 2;
  gpus = λ i. idle_gpu;
  gpu_priorities = λ i. 50;
  dynamic_load_balance = true;
  thermal_aware = true;
  load_balance_threshold = 1200;
}

balance_load-IsInSync_example : IsInSync (balance_load thousandths sensors two_gpus)
balance_load-IsInSync_example =
    balance_load-IsInSync thousandths sensors two_gpus
      (record { same = λ i. refl; percent = λ i. omega arith })

two_gpus-AreOrdinary : AreOrdinary thousandths (updated thousandths sensors two_gpus).gpus 2
unfolding update_from
two_gpus-AreOrdinary i l on = ground arith

balance_load-Rebalanced_example :
    ((true ≡ false) × (balance_load thousandths sensors two_gpus ≡ two_gpus))
    ⊎ ((true ≡ true)
        × (b1 : Balancer ℕ) × (spread : ℕ) × AreMeasured thousandths sensors two_gpus b1
        × IsSpread thousandths b1 spread
        × (((ltb 1200 spread ≡ false) × (balance_load thousandths sensors two_gpus ≡ b1))
            ⊎ ((ltb 1200 spread ≡ true)
                × Rebalanced thousandths b1 (balance_load thousandths sensors two_gpus))))
balance_load-Rebalanced_example =
    balance_load-Rebalanced thousandths gt-trans gt-irrefl sensors two_gpus refl (omega arith)
      two_gpus-AreOrdinary

lowered_example : (balance_load thousandths sensors two_gpus).gpu_priorities 0 ≡ 47
unfolding balance_load
lowered_example = refl

raised_example : (balance_load thousandths sensors two_gpus).gpu_priorities 1 ≡ 53
unfolding balance_load
raised_example = refl

abbrev no_scores : ℕ → Option ℕ
no_scores i = none

select_gpu-Selected_example :
    ((3 ≤ max_gpus)
      × ((selected : ℕ) × (select_gpu thousandths sensors two_gpus no_scores (7 ∷ 1 ∷ 0 ∷ [])
            ≡ some (if selected == no_gpu then no_gpus else success, some selected))
          × Selected thousandths.gt
              (load_factor thousandths sensors two_gpus no_scores)
              (7 ∷ 1 ∷ 0 ∷ [])
              0
              no_gpu
              selected))
    ⊎ ((max_gpus < 3) × (select_gpu thousandths sensors two_gpus no_scores (7 ∷ 1 ∷ 0 ∷ []) ≡ none))
select_gpu-Selected_example =
    select_gpu-Selected thousandths gt-trans gt-irrefl sensors two_gpus no_scores 7 (1 ∷ 0 ∷ [])

-- A list of GPUs that do not exist: the first of them is selected.
missing_selected :
    select_gpu thousandths sensors two_gpus no_scores (7 ∷ 9 ∷ []) ≡ some (success, some 7)
unfolding select_gpu
missing_selected = refl
