-- ===== src/Sched/Balance/Spread.antt =====
-- The imbalance of mvgal_scheduler_balance_load.
use mvgal.Base.{
  ℕ, zero, suc, ◌+◌, ◌<◌, ◌≡◌, ◌⊎◌, inl, inr, refl, Bool, true, false, arith, if◌then◌else◌,
  eq-or-ne, Bool-cases,
}
use mvgal.Sched.Gpus.{Floats}
use mvgal.Sched.Balance.{GpuLoad, Balancer, Range, is_active, range_from, imbalance}

module _ {F : Type 0} (gt : F → F → Bool) (used : ℕ → Bool) (util : ℕ → F) (start : F) where
  -- The extreme value of `start` and of the utilizations of the GPUs in use below `n`.
  pub record IsExtreme (n : ℕ) (m : F) : Type 0 where
    pub bound : (j : ℕ) → j < n → used j ≡ true → gt (util j) m ≡ false
    pub bounds_start : gt start m ≡ false
    pub reached : (m ≡ start) ⊎ ((j : ℕ) × (j < n) × (used j ≡ true) × (m ≡ util j))

  abbrev step : ℕ → F → F
  step i m = if gt (util i) m then util i else m

  module _ (gt-trans : (a b c : F) → gt a b ≡ true → gt b c ≡ true → gt a c ≡ true)
      (gt-irrefl : (a : F) → gt a a ≡ false) where
    still : (a b m : F) → gt b m ≡ true → gt a m ≡ false → gt a b ≡ false
    still a b m up stays = elim (Bool-cases (gt a b)) [
      | inl e ↦ absurd (cc (gt-trans a b m e up, stays))
      | inr e ↦ e
    ]

    pub IsExtreme-step :
        (i : ℕ) (m : F) → used i ≡ true → IsExtreme i m → IsExtreme (suc i) (step i m)
    IsExtreme-step i m on x = elim (Bool-cases (gt (util i) m)) [
      | inl up ↦ rw up (record {
        bound = λ j l u. elim (eq-or-ne j i) [
          | inl e ↦ rw e (gt-irrefl (util i))
          | inr ne ↦ still (util j) (util i) m up (x.bound j (omega (arith, l, ne)) u)
        ];
        bounds_start = still start (util i) m up x.bounds_start;
        reached = inr (i, omega arith, on, refl);
      })
      | inr stays ↦ rw stays (record {
        bound = λ j l u. elim (eq-or-ne j i) [
          | inl e ↦ rw e stays
          | inr ne ↦ x.bound j (omega (arith, l, ne)) u
        ];
        bounds_start = x.bounds_start;
        reached = elim x.reached [
          | inl e ↦ inl e
          | inr (j, l, u, e) ↦ inr (j, omega (arith, l), u, e)
        ];
      })
    ]

    pub IsExtreme-skip : (i : ℕ) (m : F) → used i ≡ false → IsExtreme i m → IsExtreme (suc i) m
    IsExtreme-skip i m off x = record {
      bound = λ j l u. elim (eq-or-ne j i) [
        | inl e ↦ absurd (cc)
        | inr ne ↦ x.bound j (omega (arith, l, ne)) u
      ];
      bounds_start = x.bounds_start;
      reached = elim x.reached [
        | inl e ↦ inl e
        | inr (j, l, u, e) ↦ inr (j, omega (arith, l), u, e)
      ];
    }

module _ {F : Type 0} (fl : Floats F)
    (gt-trans : (a b c : F) → fl.gt a b ≡ true → fl.gt b c ≡ true → fl.gt a c ≡ true)
    (gt-irrefl : (a : F) → fl.gt a a ≡ false) (gpus : ℕ → GpuLoad F) where
  abbrev pub in_use? : ℕ → Bool
  in_use? i = is_active (gpus i)

  abbrev pub load : ℕ → F
  load i = (gpus i).utilization

  abbrev pub less : F → F → Bool
  less a b = fl.gt b a

  less_trans : (a b c : F) → fl.gt b a ≡ true → fl.gt c b ≡ true → fl.gt c a ≡ true
  less_trans a b c e f = gt-trans c b a f e

  -- The highest and the lowest utilization in use, where they are in the range from 0 to 1.
  record IsRange (n : ℕ) (r : Range F) : Type 0 where
    high : IsExtreme fl.gt in_use? load (fl.lit 0 1) n r.max_util
    low : IsExtreme less in_use? load (fl.lit 1 1) n r.min_util

  range_from-IsRange :
      (n i m : ℕ) (r : Range F) → m ≡ i + n → IsRange i r → IsRange m (range_from fl gpus n i r)
  unfolding range_from
  range_from-IsRange zero i m r q x = let m=i : m ≡ i = omega (arith, q) in rw m=i x
  range_from-IsRange (suc n) i m r q x = elim (Bool-cases (in_use? i)) [
    | inl on ↦ rw on (
        range_from-IsRange n (suc i) m _ (omega (arith, q)) (record {
          high =
              IsExtreme-step fl.gt in_use? load (fl.lit 0 1) gt-trans gt-irrefl i r.max_util on
                x.high;
          low =
              IsExtreme-step less in_use? load (fl.lit 1 1) less_trans gt-irrefl i r.min_util on
                x.low;
        }))
    | inr off ↦ rw off (
        range_from-IsRange n (suc i) m r (omega (arith, q)) (record {
          high =
              IsExtreme-skip fl.gt in_use? load (fl.lit 0 1) gt-trans gt-irrefl i r.max_util off
                x.high;
          low =
              IsExtreme-skip less in_use? load (fl.lit 1 1) less_trans gt-irrefl i r.min_util off
                x.low;
        }))
  ]

-- The difference of the highest and the lowest utilization in use, 0 and 1 included.
pub record IsSpread {F : Type 0} (fl : Floats F) (b : Balancer F) (d : F) : Type 0 where
  pub max_util : F
  pub min_util : F
  pub high :
      IsExtreme fl.gt
        (λ i. is_active (b.gpus i))
        (λ i. (b.gpus i).utilization)
        (fl.lit 0 1)
        b.gpu_count
        max_util
  pub low :
      IsExtreme
        (λ x y. fl.gt y x)
        (λ i. is_active (b.gpus i))
        (λ i. (b.gpus i).utilization)
        (fl.lit 1 1)
        b.gpu_count
        min_util
  pub difference : d ≡ fl.sub max_util min_util

pub imbalance-IsSpread :
    {F : Type 0} (fl : Floats F)
    (gt-trans : (a b c : F) → fl.gt a b ≡ true → fl.gt b c ≡ true → fl.gt a c ≡ true)
    (gt-irrefl : (a : F) → fl.gt a a ≡ false) (b : Balancer F)
    → IsSpread fl b (imbalance fl b)
imbalance-IsSpread fl gt-trans gt-irrefl b =
    let r0 : Range _ = record { max_util = fl.lit 0 1; min_util = fl.lit 1 1 } in
    let x =
      range_from-IsRange fl gt-trans gt-irrefl b.gpus b.gpu_count 0 b.gpu_count r0 (omega arith)
        (record {
          high = record {
            bound = λ j l u. absurd (omega arith);
            bounds_start = gt-irrefl (fl.lit 0 1);
            reached = inl refl;
          };
          low = record {
            bound = λ j l u. absurd (omega arith);
            bounds_start = gt-irrefl (fl.lit 1 1);
            reached = inl refl;
          };
        }) in
    record {
      max_util = (range_from fl b.gpus b.gpu_count 0 r0).max_util;
      min_util = (range_from fl b.gpus b.gpu_count 0 r0).min_util;
      high = x.high;
      low = x.low;
      difference = refl;
    }
