-- ===== src/Sched/Gpus/Searching.antt =====
-- What a search for the greatest value keeps true: the loops for the best GPU share these steps.
use mvgal.Base.{
  ℕ, suc, ◌<◌, ◌≡◌, inl, inr, Bool, true, false, ◌&&◌, Option, none, some, arith, Bool-cases,
  eq-or-ne, and-false,
}

module _ {F : Type 0} (gt : F → F → Bool)
    (gt-trans : (a b c : F) → gt a b ≡ true → gt b c ≡ true → gt a c ≡ true)
    (gt-irrefl : (a : F) → gt a a ≡ false) (suits : ℕ → Bool) (score : ℕ → F) (floor : F) where
  -- Nothing suitable below `n` has a score above `top`.
  abbrev pub NoneAbove : ℕ → F → Type 0
  NoneAbove n top = (j : ℕ) → j < n → suits j ≡ true → gt (score j) top ≡ false

  -- What the search says of the indices below `n`.
  abbrev pub IsBest : ℕ → Option ℕ → Type 0
  IsBest n none = NoneAbove n floor
  IsBest n (some k) =
      (k < n) × (suits k ≡ true) × (gt (score k) floor ≡ true) × NoneAbove n (score k)

  abbrev pub score_of : Option ℕ → F
  score_of none = floor
  score_of (some k) = score k

  above_floor : (n : ℕ) (o : Option ℕ) → IsBest n o → NoneAbove n (score_of o)
  above_floor n none b = b
  above_floor n (some k) b = b.3

  not-gt : (a b c : F) → gt a b ≡ false → gt c b ≡ true → gt a c ≡ false
  not-gt a b c lo hi = elim (Bool-cases (gt a c)) [
    | inl e ↦ absurd (cc (gt-trans a c b e hi))
    | inr e ↦ e
  ]

  beats_floor :
      (i : ℕ) (o : Option ℕ)
      → IsBest i o
      → gt (score i) (score_of o) ≡ true
      → gt (score i) floor ≡ true
  beats_floor i none b e = e
  beats_floor i (some k) b e = gt-trans (score i) (score k) floor e b.2

  extend :
      (i : ℕ) (top : F)
      → NoneAbove i top
      → (suits i ≡ true → gt (score i) top ≡ false)
      → NoneAbove (suc i) top
  extend i top n last j l s = elim (eq-or-ne j i) [
    | inl j=i ↦ rw j=i (last (rw⁻¹ j=i s))
    | inr d ↦ n j (ground (arith, d)) s
  ]

  pub better :
      (i : ℕ) (o : Option ℕ)
      → IsBest i o
      → suits i ≡ true
      → gt (score i) (score_of o) ≡ true
      → IsBest (suc i) (some i)
  better i o b s e = (
    omega arith,
    s,
    beats_floor i o b e,
    extend i (score i)
        (λ j l sj. not-gt (score j) (score_of o) (score i) (above_floor i o b j l sj) e)
        (λ s. gt-irrefl (score i)),
  )

  pub kept :
      (i : ℕ) (o : Option ℕ)
      → IsBest i o
      → (suits i && gt (score i) (score_of o)) ≡ false
      → IsBest (suc i) o
  kept i none b e = extend i floor b (and-false _ _ e)
  kept i (some k) b e = (omega (arith, b.0), b.1, b.2, extend i (score k) b.3 (and-false _ _ e))
