-- ===== src/Sched/Balance/Extremal.antt =====
-- One extreme of the GPUs that are in use, as a loop finds it.
use mvgal.Base.{
  ℕ, suc, ◌<◌, ◌≡◌, ◌⊎◌, inl, inr, refl, Bool, true, false, if◌then◌else◌, Bool-cases, eq-or-ne,
  arith,
}

-- One extreme of the GPUs in use, by a comparison of their values.
module _ {F : Type 0} (gt : F → F → Bool) (ok : ℕ → Bool) (value : ℕ → F) where
  -- No GPU in use below `n` is above `top`.
  abbrev pub NoneAbove : ℕ → F → Type 0
  NoneAbove n top = (j : ℕ) → j < n → ok j ≡ true → gt (value j) top ≡ false

  abbrev pub IsTop : ℕ → ℕ → Type 0
  IsTop n k = (k < n) × (ok k ≡ true) × NoneAbove n (value k)

  -- The loop's state after `n` GPUs of which `active` are in use.
  abbrev pub Found : F → ℕ → ℕ → F → ℕ → Type 0
  Found floor n k top active =
      (IsTop n k × (top ≡ value k))
      ⊎ ((top ≡ floor) × (active ≡ 0) × ((j : ℕ) → j < n → ok j ≡ false))

module _ {F : Type 0} (gt : F → F → Bool)
    (gt-trans : (a b c : F) → gt a b ≡ true → gt b c ≡ true → gt a c ≡ true)
    (gt-irrefl : (a : F) → gt a a ≡ false) (ok : ℕ → Bool) (value : ℕ → F) (floor : F) where
  abbrev None : ℕ → F → Type 0
  None = NoneAbove gt ok value

  abbrev State : ℕ → ℕ → F → ℕ → Type 0
  State = Found gt ok value floor

  NoneAbove-suc : (n : ℕ) (top : F) → None n top → gt (value n) top ≡ false → None (suc n) top
  NoneAbove-suc n top none last j l o = elim (eq-or-ne j n) [
    | inl e ↦ rw e last
    | inr d ↦ none j (ground (arith, d)) o
  ]

  NoneAbove-new : (n : ℕ) (top : F) → None n top → gt (value n) top ≡ true → None (suc n) (value n)
  NoneAbove-new n top none e =
      NoneAbove-suc n (value n)
        (λ j l o. elim (Bool-cases (gt (value j) (value n))) [
          | inl up ↦ absurd (cc (gt-trans (value j) (value n) top up e, none j l o))
          | inr same ↦ same
        ])
        (gt-irrefl (value n))

  -- A GPU that is not in use.
  pub Found-skip :
      (n k : ℕ) (top : F) (active : ℕ)
      → ok n ≡ false
      → State n k top active
      → State (suc n) k top active
  Found-skip n k top active off (inl (t, e)) = inl (
    (
      omega (arith, t.0),
      t.1,
      λ j l o. elim (eq-or-ne j n) [ inl q ↦ absurd (cc) | inr d ↦ t.2 j (ground (arith, d)) o ],
    ),
    e,
  )
  Found-skip n k top active off (inr (e, a, none)) =
      inr
        (e, a, λ j l. elim (eq-or-ne j n) [ inl q ↦ rw q off | inr d ↦ none j (ground (arith, d)) ])

  -- A GPU that is in use.
  pub Found-step :
      (n k : ℕ) (top : F) (active active' : ℕ)
      → ok n ≡ true
      → gt (value n) floor ≡ true
      → State n k top active
      → State
          (suc n)
          (if gt (value n) top then n else k)
          (if gt (value n) top then value n else top)
          active'
  Found-step n k top active active' on up (inl (t, e)) = elim (Bool-cases (gt (value n) top)) [
    | inl better ↦ rw better (inl ((omega arith, on, NoneAbove-new n top (rw e t.2) better), refl))
    | inr not_better ↦
        rw not_better
          (inl ((omega (arith, t.0), t.1, NoneAbove-suc n (value k) t.2 (rw⁻¹ e not_better)), e))
  ]
  Found-step n k top active active' on up (inr (e, a, none)) =
      let better : gt (value n) top ≡ true = rw e up in
      rw better (
        inl ((omega arith, on, NoneAbove-new n top (λ j l o. absurd (cc (none j l))) better), refl))
