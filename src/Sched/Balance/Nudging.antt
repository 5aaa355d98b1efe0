-- ===== src/Sched/Balance/Nudging.antt =====
-- Which GPUs get a new priority.
use mvgal.Base.{
  ℕ, zero, suc, ◌+◌, ◌%◌, ◌^◌, ◌≤◌, ◌<◌, ◌≡◌, ◌≢◌, ◌⊎◌, inl, inr, refl, ap, ◌∙◌, Bool, true, false,
  not, ◌&&◌, leb, ◌==◌, if◌then◌else◌, Bool-cases, arith,
}
use mvgal.Sched.Gpus.{Floats}
use mvgal.Sched.Balance.{
  GpuLoad, Balancer, Sensors, Extremes, is_active, counted, extremes_from, no_extremes, nudge,
  rebalance, updated, imbalance, balance_load,
}
use mvgal.Sched.Balance.Spread.{IsSpread, imbalance-IsSpread}
use mvgal.Sched.Balance.Measuring.{AreMeasured, updated-AreMeasured}
use mvgal.Sched.Balance.Nudged.{Nudged, nudge-Nudged}
use mvgal.Sched.Balance.Extremal.{IsTop, Found, Found-skip, Found-step}

-- The number of GPUs in use below `n`.
abbrev pub in_use : {F : Type 0} → (ℕ → GpuLoad F) → ℕ → ℕ
in_use gpus zero = 0
in_use gpus (suc n) = if is_active (gpus n) then in_use gpus n + 1 else in_use gpus n

in_use-le : {F : Type 0} (gpus : ℕ → GpuLoad F) (n : ℕ) → in_use gpus n ≤ n
in_use-le gpus zero = omega arith
in_use-le gpus (suc n) = let ih : in_use gpus n ≤ n = in_use-le gpus n in ground (arith, ih)

-- The GPUs in use, and those with the extreme utilizations.
module _ {F : Type 0} (fl : Floats F) (gpus : ℕ → GpuLoad F) where
  abbrev pub below : F → F → Bool
  below a b = fl.gt b a

  abbrev pub used : ℕ → Bool
  used i = is_active (gpus i)

  abbrev pub util : ℕ → F
  util i = (gpus i).utilization

  -- The utilizations are numbers above -1 and below 2.
  abbrev pub AreOrdinary : ℕ → Type 0
  AreOrdinary n =
      (i : ℕ)
      → i < n
      → used i ≡ true
      → (fl.gt (util i) (fl.negative (fl.lit 1 1)) ≡ true) × (fl.gt (fl.lit 2 1) (util i) ≡ true)

  -- GPU `i` is in use, and no GPU in use has a higher utilization, or a lower one.
  abbrev pub IsHottest : ℕ → ℕ → Type 0
  IsHottest n i = IsTop fl.gt used util n i

  abbrev pub IsCoolest : ℕ → ℕ → Type 0
  IsCoolest n i = IsTop below used util n i

  -- The loop's state after `n` GPUs.
  record Searched (n : ℕ) (e : Extremes F) : Type 0 where
    hot : Found fl.gt used util (fl.negative (fl.lit 1 1)) n e.idx_hot e.util_hot e.active
    cool : Found below used util (fl.lit 2 1) n e.idx_cool e.util_cool e.active
    count : e.active ≡ in_use gpus n

module _ {F : Type 0} (fl : Floats F)
    (gt-trans : (a b c : F) → fl.gt a b ≡ true → fl.gt b c ≡ true → fl.gt a c ≡ true)
    (gt-irrefl : (a : F) → fl.gt a a ≡ false) (gpus : ℕ → GpuLoad F) where
  below_trans : (a b c : F) → fl.gt b a ≡ true → fl.gt c b ≡ true → fl.gt c a ≡ true
  below_trans a b c e f = gt-trans c b a f e

  abbrev on_at : ℕ → Bool
  on_at = used fl gpus

  abbrev util_at : ℕ → F
  util_at = util fl gpus

  extremes_from-Searched :
      (n i m : ℕ) (e : Extremes F)
      → m ≡ i + n
      → m < 2 ^ 32
      → AreOrdinary fl gpus m
      → Searched fl gpus i e
      → Searched fl gpus m (extremes_from fl gpus n i e)
  unfolding extremes_from
  extremes_from-Searched zero i m e q small o s = let m=i : m ≡ i = omega (arith, q) in rw m=i s
  extremes_from-Searched (suc n) i m e q small o s = elim (Bool-cases (on_at i)) [
    | inl on ↦
        let le : in_use gpus i ≤ i = in_use-le gpus i in
        let fits : (e.active + 1) % 2 ^ 32 ≡ e.active + 1 = omega (arith, q, small, le, s.count) in
        let up = o i (omega (arith, q)) on in
        rw on (
          extremes_from-Searched n (suc i) m (counted fl i (util_at i) e) (omega (arith, q)) small o
            (record {
              hot =
                  Found-step fl.gt gt-trans gt-irrefl on_at util_at (fl.negative (fl.lit 1 1)) i
                    e.idx_hot e.util_hot e.active _ on up.0 s.hot;
              cool =
                  Found-step (below fl gpus) below_trans gt-irrefl on_at util_at (fl.lit 2 1) i
                    e.idx_cool e.util_cool e.active _ on up.1 s.cool;
              count = rw on (fits ∙ ap (λ (c : ℕ). c + 1) s.count);
            }))
    | inr off ↦ rw off (
        extremes_from-Searched n (suc i) m e (omega (arith, q)) small o (record {
          hot =
              Found-skip fl.gt gt-trans gt-irrefl on_at util_at (fl.negative (fl.lit 1 1)) i
                e.idx_hot e.util_hot e.active off s.hot;
          cool =
              Found-skip (below fl gpus) below_trans gt-irrefl on_at util_at (fl.lit 2 1) i
                e.idx_cool e.util_cool e.active off s.cool;
          count = rw off s.count;
        }))
  ]

module _ {F : Type 0} (fl : Floats F) (b : Balancer F) where
  -- The difference of the utilizations is above 0.05.
  abbrev pub far : ℕ → ℕ → Bool
  far hot cool = fl.gt (fl.sub (util fl b.gpus hot) (util fl b.gpus cool)) (fl.lit 5 100)

  -- Why nothing is done: fewer than two GPUs in use, or extremes that are not far apart.
  abbrev pub Quiet : Type 0
  Quiet =
      (in_use b.gpus b.gpu_count < 2)
      ⊎ ((hot : ℕ) × (cool : ℕ) × IsHottest fl b.gpus b.gpu_count hot
          × IsCoolest fl b.gpus b.gpu_count cool
          × ((hot ≡ cool) ⊎ (far hot cool ≡ false)))

  -- The hottest and the coolest GPU get new priorities, or nothing changes.
  abbrev pub Rebalanced : Balancer F → Type 0
  Rebalanced b' =
      ((b' ≡ b) × Quiet)
      ⊎ ((hot : ℕ) × (cool : ℕ) × IsHottest fl b.gpus b.gpu_count hot
          × IsCoolest fl b.gpus b.gpu_count cool
          × (hot ≢ cool)
          × (far hot cool ≡ true)
          × Nudged hot cool b b')

  abbrev chosen : Extremes F → Bool
  chosen e =
      (leb 2 e.active && not (e.idx_hot == e.idx_cool))
      && fl.gt (fl.sub e.util_hot e.util_cool) (fl.lit 5 100)

  few : (e : Extremes F) → e.active < 2 → chosen e ≡ false
  few e l = let no : leb 2 e.active ≡ false = ground arith in rw no refl

  found-Rebalanced :
      (e : Extremes F)
      → IsHottest fl b.gpus b.gpu_count e.idx_hot
      → e.util_hot ≡ util fl b.gpus e.idx_hot
      → IsCoolest fl b.gpus b.gpu_count e.idx_cool
      → e.util_cool ≡ util fl b.gpus e.idx_cool
      → leb 2 e.active ≡ true
      → Rebalanced (if chosen e then nudge fl e.idx_hot e.idx_cool b else b)
  found-Rebalanced e h uh c uc several = elim (Bool-cases (e.idx_hot == e.idx_cool)) [
    | inl same ↦
        rw (several, same) (inl (refl, inr (e.idx_hot, e.idx_cool, h, c, inl ground (arith, same))))
    | inr d ↦ elim (Bool-cases (far e.idx_hot e.idx_cool)) [
      | inl f ↦
          let apart : e.idx_hot ≢ e.idx_cool = λ q. ground (arith, d, q) in
          rw (several, d, uh, uc, f)
            (inr
              (e.idx_hot, e.idx_cool, h, c, apart, f, nudge-Nudged fl e.idx_hot e.idx_cool b apart))
      | inr f ↦ rw (several, d, uh, uc, f) (inl (refl, inr (e.idx_hot, e.idx_cool, h, c, inr f)))
    ]
  ]

  extremes-Rebalanced :
      (e : Extremes F)
      → Searched fl b.gpus b.gpu_count e
      → Rebalanced (if chosen e then nudge fl e.idx_hot e.idx_cool b else b)
  extremes-Rebalanced e s = elim s.hot [
    | inr (_, a, _) ↦ rw (few e (omega (arith, a))) (inl (refl, inl (omega (arith, a, s.count))))
    | inl (h, uh) ↦ elim s.cool [
      | inr (_, a, _) ↦ rw (few e (omega (arith, a))) (inl (refl, inl (omega (arith, a, s.count))))
      | inl (c, uc) ↦ elim (Bool-cases (leb 2 e.active)) [
        | inl several ↦ found-Rebalanced e h uh c uc several
        | inr l ↦
            let lt : e.active < 2 = ground arith in
            rw (few e lt) (inl (refl, inl (omega (arith, lt, s.count))))
      ]
    ]
  ]

if-true : {A : Type 0} (c : Bool) (x y : A) → c ≡ true → (if c then x else y) ≡ x
if-true c x y e = rw e refl

if-false : {A : Type 0} (c : Bool) (x y : A) → c ≡ false → (if c then x else y) ≡ y
if-false c x y e = rw e refl

module _ {F : Type 0} (fl : Floats F) (sensors : Sensors F) (b : Balancer F) where
  balance_load-off : b.dynamic_load_balance ≡ false → balance_load fl sensors b ≡ b
  unfolding balance_load
  balance_load-off off = if-true _ _ _ (ap not off)

  balance_load-even :
      b.dynamic_load_balance ≡ true
      → fl.gt (imbalance fl (updated fl sensors b)) b.load_balance_threshold ≡ false
      → balance_load fl sensors b ≡ updated fl sensors b
  unfolding balance_load
  balance_load-even on even = if-false _ _ _ (ap not on) ∙ if-false _ _ _ even

  balance_load-uneven :
      b.dynamic_load_balance ≡ true
      → fl.gt (imbalance fl (updated fl sensors b)) b.load_balance_threshold ≡ true
      → balance_load fl sensors b ≡ rebalance fl (updated fl sensors b)
  unfolding balance_load
  balance_load-uneven on uneven = if-false _ _ _ (ap not on) ∙ if-true _ _ _ uneven

rebalance-Rebalanced :
    {F : Type 0} (fl : Floats F) (b : Balancer F)
    → Searched fl b.gpus b.gpu_count (extremes_from fl b.gpus b.gpu_count 0 (no_extremes fl))
    → Rebalanced fl b (rebalance fl b)
unfolding rebalance
rebalance-Rebalanced fl b s = extremes-Rebalanced fl b _ s

no_extremes-Searched :
    {F : Type 0} (fl : Floats F) (gpus : ℕ → GpuLoad F) → Searched fl gpus 0 (no_extremes fl)
no_extremes-Searched fl gpus = record {
  hot = inr (refl, refl, λ j l. absurd (omega arith));
  cool = inr (refl, refl, λ j l. absurd (omega arith));
  count = refl;
}

-- Where the comparison of floats is transitive and irreflexive, 0 is not above 1 and there are fewer than
-- 2^32 GPUs, and those in use have utilizations above -1 and below 2 once measured: without dynamic balancing
-- nothing changes. With it there is a state in which each GPU is measured - its utilization is seven
-- tenths of the old and three tenths of what the sensor, or else the queue, gives, clamped to the
-- range from 0 to 1, and its temperature is the sensor's, if there is one - and nothing else has changed.
-- If the highest utilization in use there less the lowest, 0 counted for the highest and 1 for the lowest,
-- is not above the threshold, that is the result. If it is, and the hottest and
-- the coolest of the GPUs in use are two GPUs more than 0.05 apart, the hottest one's priority falls by 3,
-- but not below 10, the coolest one's, where it is below 2^32 - 3, rises by 3, but not above 100, in both tables, and nothing else
-- changes; else the priorities stay.
pub balance_load-Rebalanced :
    {F : Type 0} (fl : Floats F)
    (gt-trans : (a b c : F) → fl.gt a b ≡ true → fl.gt b c ≡ true → fl.gt a c ≡ true)
    (gt-irrefl : (a : F) → fl.gt a a ≡ false) (sensors : Sensors F) (b : Balancer F)
    → fl.gt (fl.lit 0 1) (fl.lit 1 1) ≡ false
    → b.gpu_count < 2 ^ 32
    → AreOrdinary fl (updated fl sensors b).gpus b.gpu_count
    → ((b.dynamic_load_balance ≡ false) × (balance_load fl sensors b ≡ b))
      ⊎ ((b.dynamic_load_balance ≡ true)
          × (b1 : Balancer F) × (spread : F) × AreMeasured fl sensors b b1
          × IsSpread fl b1 spread
          × (((fl.gt spread b.load_balance_threshold ≡ false) × (balance_load fl sensors b ≡ b1))
              ⊎ ((fl.gt spread b.load_balance_threshold ≡ true)
                  × Rebalanced fl b1 (balance_load fl sensors b))))
balance_load-Rebalanced fl gt-trans gt-irrefl sensors b unit small o =
    let b1 : Balancer _ = updated fl sensors b in
    let r : Rebalanced fl b1 (rebalance fl b1) = rebalance-Rebalanced fl b1 (
      extremes_from-Searched fl gt-trans gt-irrefl b1.gpus b.gpu_count 0 b.gpu_count
        (no_extremes fl) (omega arith) small o (no_extremes-Searched fl b1.gpus)) in
    elim (Bool-cases b.dynamic_load_balance) [
      | inr off ↦ inl (off, balance_load-off fl sensors b off)
      | inl on ↦ inr (
        on,
        b1,
        imbalance fl b1,
        updated-AreMeasured fl unit sensors b,
        imbalance-IsSpread fl gt-trans gt-irrefl b1,
        elim (Bool-cases (fl.gt (imbalance fl b1) b.load_balance_threshold)) [
          | inr even ↦ inl (even, balance_load-even fl sensors b on even)
          | inl uneven ↦ inr (uneven, rw (balance_load-uneven fl sensors b on uneven) r)
        ],
      )
    ]
