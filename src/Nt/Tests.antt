-- ===== src/Nt/Tests.antt =====
-- The theorems on compat/windows/mvgal_ntsync.c at concrete objects.
use mvgal.Base.{ℕ, ◌<◌, ◌≡◌, ◌≢◌, true, some, List, [], ◌∷◌, arith}
use mvgal.Base.Wait.{Wakeup, woke}
use mvgal.Nt.Codes.{u32_mod}
use mvgal.Nt.Mutex.Steps.{World, Reach}
use mvgal.Nt.Mutex.Exclusion.{trylock_races}
use mvgal.Nt.Semaphore.{Semaphore, wait}
use mvgal.Nt.Semaphore.Take.{Took, wait-Took}

abbrev me : ℕ
me = 7

seven : me ≢ 0
seven e = omega (arith, e)

trylock_races_example : (s : World) × Reach true s × (s.held 3 ≡ 1) × (s.held 7 ≡ 1)
trylock_races_example = trylock_races 3 7 (λ e. omega (arith, e)) seven (λ e. omega (arith, e))

abbrev semaphore : ℕ → ℕ → Semaphore
semaphore count max_count = record { count = count; max_count = max_count }

-- Another thread releases two while the caller sleeps.
abbrev released : List (Wakeup Semaphore)
released = record { ret = woke; others = λ s. record s { count = 2 } } ∷ []

abbrev Word : Semaphore → Type 0
Word s = s.count < u32_mod

wait-Took_example : Took Word (wait (some (semaphore 0 10)) 500 released)
wait-Took_example =
    wait-Took Word (λ u p. p) (semaphore 0 10) 500 released (λ s p. omega arith, tt) (omega arith)
