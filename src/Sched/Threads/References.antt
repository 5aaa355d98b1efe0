-- ===== src/Sched/Threads/References.antt =====
-- Reference counts under any interleaving of users and the scheduler thread.
use mvgal.Base.{
  ℕ, suc, ◌+◌, ◌-◌, ◌%◌, ◌<◌, ◌≡◌, ◌≢◌, ◌⊎◌, inl, inr, Bool, true, false, some, List, [], ◌∷◌, ◌++◌,
  arith, ◌==◌, if◌then◌else◌, update, eq-or-ne, update-eq, update-ne,
}
use mvgal.Sched.Types.{u32_mod, Workload, Heap}
use mvgal.Sched.Queue.{retain, release}
use mvgal.Sched.Queue.Links.{NotIn}
use mvgal.Sched.Threads.{World}

-- How often the workload is in the list.
abbrev pub count : ℕ → List ℕ → ℕ
count y [] = 0
count y (x ∷ xs) = (if x == y then 1 else 0) + count y xs

pub count-append : (y : ℕ) (xs zs : List ℕ) → count y (xs ++ zs) ≡ count y xs + count y zs
count-append y [] zs = omega arith
count-append y (x ∷ xs) zs = omega (arith, count-append y xs zs)

pub NotIn-count : (y : ℕ) (xs : List ℕ) → count y xs ≡ 0 → NotIn y xs
NotIn-count y [] e = tt
NotIn-count y (x ∷ xs) e = (ground arith, NotIn-count y xs (ground arith))

-- A block is free and nobody refers to it, or it is allocated and its counter is the number `n` of
-- those who do.
abbrev pub Owned : Bool → ℕ → ℕ → Type 0
Owned freed refs n =
    ((freed ≡ true) × (n ≡ 0)) ⊎ ((freed ≡ false) × (refs ≡ n) × (0 < refs) × (refs < u32_mod))

-- The references to the workload `y`: of users, of threads, of the queue.
abbrev pub holders : {S : Type 0} → World S → List ℕ → ℕ → ℕ
holders v xs y = v.users y + v.flying y + count y xs

Owned-release :
    (freed : Bool) (refs n m : ℕ)
    → n ≡ suc m
    → Owned freed refs n
    → Owned (if refs == 1 then true else freed) ((refs + u32_mod - 1) % u32_mod) m
Owned-release freed refs n m e (inl (f, z)) = absurd (omega arith)
Owned-release freed refs n m e (inr (f, q, pos, word)) = ground (arith, f, q)

Owned-retain :
    (freed : Bool) (refs n m : ℕ)
    → m ≡ suc n
    → 0 < n
    → refs + 1 < u32_mod
    → Owned freed refs n
    → Owned freed ((refs + 1) % u32_mod) m
Owned-retain freed refs n m e pos small (inl (f, z)) = absurd (omega arith)
Owned-retain freed refs n m e pos small (inr (f, q, p, word)) = ground (arith, f, q)

-- The heap's blocks, counted.
abbrev pub AllOwned : Heap → (ℕ → ℕ) → Type 0
AllOwned h n = (y : ℕ) → Owned (h y).freed (h y).refcount (n y)

module _ (h : Heap) (n : ℕ → ℕ) (a : AllOwned h n) where
  -- One reference less.
  pub AllOwned-release :
      (w : ℕ) (m : ℕ → ℕ)
      → n w ≡ suc (m w)
      → ((y : ℕ) → y ≢ w → m y ≡ n y)
      → AllOwned (release h (some w)) m
  unfolding release
  AllOwned-release w m e same y = elim (eq-or-ne y w) [
    | inl q ↦ rw q (
        rw
          (update-eq h w (record (h w) {
            refcount = ((h w).refcount + u32_mod - 1) % u32_mod;
            freed = if (h w).refcount == 1 then true else (h w).freed;
          }))
          (Owned-release (h w).freed (h w).refcount (n w) (m w) e (a w)))
    | inr d ↦ rw (same y d) (rw (update-ne h w _ y d) (a y))
  ]

  -- One reference more, by someone who holds one.
  pub AllOwned-retain :
      (w : ℕ) (m : ℕ → ℕ)
      → m w ≡ suc (n w)
      → 0 < n w
      → (h w).refcount + 1 < u32_mod
      → ((y : ℕ) → y ≢ w → m y ≡ n y)
      → AllOwned (retain h (some w)) m
  unfolding retain
  AllOwned-retain w m e pos small same y = elim (eq-or-ne y w) [
    | inl q ↦ rw q (
        rw (update-eq h w (record (h w) { refcount = ((h w).refcount + 1) % u32_mod }))
          (Owned-retain (h w).freed (h w).refcount (n w) (m w) e pos small (a w)))
    | inr d ↦ rw (same y d) (rw (update-ne h w _ y d) (a y))
  ]

  -- Other fields.
  pub AllOwned-same :
      (h' : Heap) (m : ℕ → ℕ)
      → ((y : ℕ) → ((h' y).freed ≡ (h y).freed) × ((h' y).refcount ≡ (h y).refcount))
      → ((y : ℕ) → m y ≡ n y)
      → AllOwned h' m
  AllOwned-same h' m e c y = let (f, r) = e y in rw f (rw r (rw (c y) (a y)))

  -- A write to a block that keeps its two fields.
  pub AllOwned-write :
      (w : ℕ) (b : Workload)
      → b.freed ≡ (h w).freed
      → b.refcount ≡ (h w).refcount
      → AllOwned (update h w b) n
  AllOwned-write w b f r y = elim (eq-or-ne y w) [
    | inl q ↦ rw q (rw (update-eq h w b) (rw f (rw r (a w))))
    | inr d ↦ rw (update-ne h w b y d) (a y)
  ]

  -- A block that nobody refers to, written.
  pub AllOwned-fresh :
      (w : ℕ) (b : Workload) (m : ℕ → ℕ)
      → Owned b.freed b.refcount (m w)
      → ((y : ℕ) → y ≢ w → m y ≡ n y)
      → AllOwned (update h w b) m
  AllOwned-fresh w b m o same y = elim (eq-or-ne y w) [
    | inl q ↦ rw q (rw (update-eq h w b) o)
    | inr d ↦ rw (same y d) (rw (update-ne h w b y d) (a y))
  ]
