-- ===== src/Sched/Balance.antt =====
-- The load balancer, src/userspace/scheduler/load_balancer.c: the GPUs' utilization and the priorities
-- that follow it.
pub mod Extremal
pub mod Measuring
pub mod Spread
pub mod Nudged
pub mod Nudging
pub mod Priorities
pub mod Selecting
use mvgal.Base.{
  ℕ, zero, suc, ◌+◌, ◌-◌, ◌%◌, ◌^◌, Bool, true, false, not, ◌&&◌, Option, none, some, ltb, leb,
  ◌==◌, if◌then◌else◌, update,
}
use mvgal.Sched.Gpus.{Floats}

-- mvgal_gpu_state_t, as far as the balancer uses it
pub record GpuLoad (F : Type 0) : Type 0 where
  pub available : Bool
  pub enabled : Bool
  pub utilization : F
  pub temperature : F
  pub power_usage_w : F
  pub queue_count : ℕ
  pub priority : ℕ

-- What the balancer uses of the scheduler's state and of its configuration.
pub record Balancer (F : Type 0) : Type 0 where
  pub gpu_count : ℕ
  pub gpus : ℕ → GpuLoad F
  pub gpu_priorities : ℕ → ℕ
  pub dynamic_load_balance : Bool
  pub thermal_aware : Bool
  pub load_balance_threshold : F

-- What mvgal_gpu_get_utilization and mvgal_gpu_get_temperature give, `none` where they fail, and the
-- division of floats.
pub record Sensors (F : Type 0) : Type 0 where
  pub utilization : ℕ → Option F
  pub temperature : ℕ → Option F
  pub div : F → F → F

-- max_util and min_util.
pub record Range (F : Type 0) : Type 0 where
  pub max_util : F
  pub min_util : F

-- The hottest and the coolest GPU so far, and the number of those in use.
pub record Extremes (F : Type 0) : Type 0 where
  pub idx_hot : ℕ
  pub idx_cool : ℕ
  pub util_hot : F
  pub util_cool : F
  pub active : ℕ

abbrev pub is_active : {F : Type 0} → GpuLoad F → Bool
is_active u = u.available && u.enabled

module _ {F : Type 0} (fl : Floats F) where
  -- A measured utilization, or the one that the queue suggests.
  abbrev pub measured : Sensors F → ℕ → GpuLoad F → Option F → F
  measured sensors i u (some util) = sensors.div util (fl.lit 100 1)
  measured sensors i u none = sensors.div (fl.of_u32 u.queue_count) (fl.lit 10 1)

  abbrev pub clamp : F → F
  clamp x =
      let low : F = if fl.gt (fl.lit 0 1) x then fl.lit 0 1 else x in
      if fl.gt low (fl.lit 1 1) then fl.lit 1 1 else low

  abbrev pub or_old : F → Option F → F
  or_old old none = old
  or_old old (some temp) = temp

  -- update_gpu_utilization
  unfoldable pub update_gpu_utilization : Sensors F → ℕ → GpuLoad F → GpuLoad F
  update_gpu_utilization sensors i u = record u {
    utilization = clamp (
        fl.add (fl.mul u.utilization (fl.lit 7 10))
          (fl.mul (measured sensors i u (sensors.utilization i)) (fl.lit 3 10)));
    temperature = or_old u.temperature (sensors.temperature i);
  }

  -- The first loop of mvgal_scheduler_balance_load, from GPU `i` on with `n` to go.
  unfoldable pub update_from : Sensors F → ℕ → ℕ → (ℕ → GpuLoad F) → ℕ → GpuLoad F
  unfolding update_gpu_utilization
  update_from sensors zero i gpus = gpus
  update_from sensors (suc n) i gpus =
      update_from sensors n (suc i) (update gpus i (update_gpu_utilization sensors i (gpus i)))

  -- The second loop.
  unfoldable pub range_from : (ℕ → GpuLoad F) → ℕ → ℕ → Range F → Range F
  range_from gpus zero i r = r
  range_from gpus (suc n) i r =
      let u : F = (gpus i).utilization in
      range_from gpus n (suc i) (
        if is_active (gpus i)
        then record {
          max_util = if fl.gt u r.max_util then u else r.max_util;
          min_util = if fl.gt r.min_util u then u else r.min_util;
        }
        else r)

  -- One round of the third loop, for a GPU that is in use.
  abbrev pub counted : ℕ → F → Extremes F → Extremes F
  counted i u e = record {
    idx_hot = if fl.gt u e.util_hot then i else e.idx_hot;
    idx_cool = if fl.gt e.util_cool u then i else e.idx_cool;
    util_hot = if fl.gt u e.util_hot then u else e.util_hot;
    util_cool = if fl.gt e.util_cool u then u else e.util_cool;
    active = (e.active + 1) % 2 ^ 32;
  }

  -- The third loop.
  unfoldable pub extremes_from : (ℕ → GpuLoad F) → ℕ → ℕ → Extremes F → Extremes F
  extremes_from gpus zero i e = e
  extremes_from gpus (suc n) i e =
      extremes_from gpus n (suc i)
        (if is_active (gpus i) then counted i (gpus i).utilization e else e)

  abbrev pub no_extremes : Extremes F
  no_extremes = record {
    idx_hot = 0;
    idx_cool = 0;
    util_hot = fl.negative (fl.lit 1 1);
    util_cool = fl.lit 2 1;
    active = 0;
  }

  abbrev pub lowered : ℕ → ℕ
  lowered pri = if ltb 13 pri then pri - 3 else 10

  abbrev pub raised : ℕ → ℕ
  raised pri = let next : ℕ = (pri + 3) % 2 ^ 32 in if ltb next 100 then next else 100

  abbrev pub with_priority : ℕ → (ℕ → GpuLoad F) → ℕ → ℕ → GpuLoad F
  with_priority pri gpus i = update gpus i (record (gpus i) { priority = pri })

  -- The new priorities of two GPUs.
  unfoldable pub nudge : ℕ → ℕ → Balancer F → Balancer F
  nudge hot cool b =
      let pri_hot : ℕ = lowered (b.gpus hot).priority in
      let pri_cool : ℕ = raised (b.gpus cool).priority in
      record b {
        gpus = with_priority pri_cool (with_priority pri_hot b.gpus hot) cool;
        gpu_priorities = update (update b.gpu_priorities hot pri_hot) cool pri_cool;
      }

  -- The part of mvgal_scheduler_balance_load for an imbalance above the threshold.
  unfoldable pub rebalance : Balancer F → Balancer F
  unfolding extremes_from nudge
  rebalance b =
      let e : Extremes F = extremes_from b.gpus b.gpu_count 0 no_extremes in
      if (leb 2 e.active && not (e.idx_hot == e.idx_cool))
        && fl.gt (fl.sub e.util_hot e.util_cool) (fl.lit 5 100)
      then nudge e.idx_hot e.idx_cool b
      else b

  -- The state with the utilization of all GPUs updated.
  abbrev pub updated : Sensors F → Balancer F → Balancer F
  updated sensors b = record b { gpus = update_from sensors b.gpu_count 0 b.gpus }

  -- The imbalance of the GPUs in use.
  abbrev pub imbalance : Balancer F → F
  imbalance b =
      let r : Range F =
        range_from b.gpus b.gpu_count 0 (record { max_util = fl.lit 0 1; min_util = fl.lit 1 1 }) in
      fl.sub r.max_util r.min_util

  -- mvgal_scheduler_balance_load
  unfoldable pub balance_load : Sensors F → Balancer F → Balancer F
  unfolding update_from range_from rebalance
  balance_load sensors b =
      let b1 : Balancer F = updated sensors b in
      if not b.dynamic_load_balance
      then b
      else if fl.gt (imbalance b1) b.load_balance_threshold
      then rebalance b1
      else b1
