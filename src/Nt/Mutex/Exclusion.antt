-- ===== src/Nt/Mutex/Exclusion.antt =====
-- Whether two threads can hold a mutex at once.
use mvgal.Base.{
  ℕ, ◌<◌, ◌≡◌, refl, sym, ◌≢◌, ◌⊎◌, inl, true, Option, some, arith, ◌==◌, if◌then◌else◌,
}
use mvgal.Nt.Mutex.Steps.{
  Point, outside, trying, swapped, entering, checking, sleeping, chosen, World, tries, swaps, owns,
  waits, enters, sees_free, stores, Reach, start, next,
}

-- What a thread knows that stands at this point, from who has locked mutex->lock and from `state`.
abbrev Knows : ℕ → Option ℕ → ℕ → Point → Type 0
Knows tid inner state outside = Unit
Knows tid inner state trying = ⊥
Knows tid inner state swapped = ⊥
Knows tid inner state entering = Unit
Knows tid inner state checking = inner ≡ some tid
Knows tid inner state sleeping = Unit
Knows tid inner state chosen = (inner ≡ some tid) × (state ≡ 0)

record Inv (s : World) : Type 0 where
  owned :
      ((s.mutex.state ≡ 0) × (s.mutex.recursion_count ≡ 0) × (s.mutex.owner_thread ≡ 0))
      ⊎ ((s.mutex.state ≡ 1) × (0 < s.mutex.recursion_count) × (s.mutex.owner_thread ≢ 0))
  counted :
      (tid : ℕ) → s.held tid ≡ (if s.mutex.owner_thread == tid then s.mutex.recursion_count else 0)
  knows : (tid : ℕ) → Knows tid s.inner s.mutex.state (s.point tid)

-- With a call of timeout 0 two threads can have it at once: one reads that `state` is 0 under mutex->lock,
-- another one's compare-and-swap, which does not take mutex->lock, sets `state`, and then the first
-- stores 1 as well; both calls succeed, and each thread has one lock that it has not unlocked.
pub trylock_races :
    (i j : ℕ) → i ≢ 0 → j ≢ 0 → i ≢ j → (s : World) × Reach true s × (s.held i ≡ 1) × (s.held j ≡ 1)
trylock_races i j ni nj n =
    let r1 : Reach true _ = next start (waits j refl nj (inl (λ e. nj (sym e)))) in
    let r2 : Reach true _ = next r1 (enters j (ground arith) refl) in
    let r3 : Reach true _ = next r2 (sees_free j (ground arith) refl) in
    let r4 : Reach true _ = next r3 (tries i (ground (arith, n)) ni (inl (λ e. ni (sym e))) refl) in
    let r5 : Reach true _ = next r4 (swaps i (ground arith) refl) in
    let r6 : Reach true _ = next r5 (stores j (ground (arith, n)) nj) in
    let r7 : Reach true _ = next r6 (owns i (ground (arith, n)) refl) in
    (_, r7, ground (arith, n), ground (arith, n))
