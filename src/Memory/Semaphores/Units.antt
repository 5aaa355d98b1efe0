-- ===== src/Memory/Semaphores/Units.antt =====
-- Threads that signal and wait on one semaphore, in any order.
use mvgal.Base.{ℕ, ◌+◌, ◌≤◌, ◌<◌, ◌≡◌, true, Option, some, [], arith}
use mvgal.Base.Wait.{wait_loop, checked_loop}
use mvgal.Nt.Codes.{Host, u64_mod}
use mvgal.Status.{Status, success}
use mvgal.Memory.Semaphores.{Semaphore, create, signal, wait, wait_on, after_wait}

-- The units that were added by signals and taken by waits since the semaphore was created.
pub record World : Type 0 where
  pub semaphore : Semaphore
  pub given : ℕ
  pub taken : ℕ

-- What a wait for `value` took, by its result.
abbrev pub taken_by : ℕ → Option Status → ℕ
taken_by value (some success) = value
taken_by value _ = 0

-- A signal whose sum fits in 64 bits, or a wait that is granted, refused or put to sleep (a sleeping
-- one is granted when it is tried again).
pub data Step (w : World) : World → Type 0 where
  signals :
      (value calls : ℕ) (s : Semaphore)
      → w.semaphore.count + value < u64_mod
      → signal (some w.semaphore) value ≡ (success, some s, calls)
      → Step w (record { semaphore = s; given = w.given + value; taken = w.taken })
  waits :
      (value timeout_ms : ℕ) (r : Option Status) (s : Semaphore)
      → wait [] (some w.semaphore) value timeout_ms ≡ (r, some s)
      → Step w (record { semaphore = s; given = w.given; taken = w.taken + taken_by value r })

pub data Reach (initial : ℕ) : World → Type 0 where
  start :
      (host : Host) (s : Semaphore)
      → create host initial true ≡ (success, some s)
      → Reach initial (record { semaphore = s; given = 0; taken = 0 })
  next : {v w : World} → Reach initial v → Step v w → Reach initial w

record Inv (initial : ℕ) (w : World) : Type 0 where
  bounded : w.semaphore.count < u64_mod
  counted : w.semaphore.count + w.taken ≡ initial + w.given

Step-Inv : {initial : ℕ} {v w : World} → Step v w → Inv initial v → Inv initial w
unfolding signal wait wait_on after_wait wait_loop checked_loop
Step-Inv (signals value calls s small e) i = record {
  bounded = ground (arith, i.bounded);
  counted = ground (arith, i.counted);
}
Step-Inv (waits value timeout_ms r s e) i = record {
  bounded = ground (arith, i.bounded);
  counted = ground (arith, i.bounded, i.counted);
}

Reach-Inv : {initial : ℕ} {w : World} → initial < u64_mod → Reach initial w → Inv initial w
unfolding create
Reach-Inv small (start host s e) = record { bounded = ground arith; counted = ground arith }
Reach-Inv small (next r st) = Step-Inv st (Reach-Inv small r)

-- In every state that signals and waits reach from a semaphore created with `initial` units, below
-- 2^64, the units taken and the count make up the units there were at first and the units given:
-- waits never take more than there was. Each signal's sum is taken to fit in 64 bits.
pub taken_units :
    {w : World} (initial : ℕ)
    → initial < u64_mod
    → Reach initial w
    → (w.semaphore.count + w.taken ≡ initial + w.given) × (w.taken ≤ initial + w.given)
taken_units initial small r = let i = Reach-Inv small r in (i.counted, ground (arith, i.counted))
