-- ===== src/Base/Wait/Loops.antt =====
-- The three loops `while (!test) pthread_cond_[timed]wait(...)` of the sources.
use mathlib.Core.Path.{◌≡◌}
use mathlib.Core.Bool.{Bool, true, false}
use mathlib.Core.List.{List, [], ◌∷◌}
use mvgal.Base.Lists.{All}
use mvgal.Base.Tests.{if◌then◌else◌}

-- The results of pthread_cond_timedwait: 0, ETIMEDOUT, another error number.
pub data CondRet : Type 0 where
  woke etimedout failed : CondRet

pub record Wakeup (S : Type 0) : Type 0 where
  pub ret : CondRet
  pub others : S → S

-- How a loop ends, with the object as it is then.
pub data Waited (S : Type 0) : Type 0 where
  ready : S → Waited S
  timeout : S → Waited S
  error : S → Waited S
  blocked : S → Waited S

-- The next round, or the end of the loop at ETIMEDOUT.
abbrev pub timed_next : {S : Type 0} → CondRet → S → Waited S → Waited S
timed_next woke s rest = rest
timed_next failed s rest = rest
timed_next etimedout s rest = timeout s

-- The same, where every other error ends the loop too.
abbrev pub checked_next : {S : Type 0} → CondRet → S → Waited S → Waited S
checked_next woke s rest = rest
checked_next failed s rest = error s
checked_next etimedout s rest = timeout s

module _ {S : Type 0} (test : S → Bool) where
  -- pthread_cond_wait: its result is not looked at.
  unfoldable pub wait_loop : List (Wakeup S) → S → Waited S
  wait_loop [] s = if test s then ready s else blocked s
  wait_loop (w ∷ ws) s = if test s then ready s else wait_loop ws (w.others s)

  -- pthread_cond_timedwait, where only ETIMEDOUT ends the loop.
  unfoldable pub timed_loop : List (Wakeup S) → S → Waited S
  timed_loop [] s = if test s then ready s else blocked s
  timed_loop (w ∷ ws) s =
      if test s then ready s else timed_next w.ret (w.others s) (timed_loop ws (w.others s))

  -- pthread_cond_timedwait, where every other error ends the loop too.
  unfoldable pub checked_loop : List (Wakeup S) → S → Waited S
  checked_loop [] s = if test s then ready s else blocked s
  checked_loop (w ∷ ws) s =
      if test s then ready s else checked_next w.ret (w.others s) (checked_loop ws (w.others s))

abbrev pub state_of : {S : Type 0} → Waited S → S
state_of (ready s) = s
state_of (timeout s) = s
state_of (error s) = s
state_of (blocked s) = s

-- What the test says when the loop has ended: it holds, or it does not yet.
abbrev pub IsReady : {S : Type 0} → (S → Bool) → Waited S → Type 0
IsReady test (ready s) = test s ≡ true
IsReady test (blocked s) = test s ≡ false
IsReady test (timeout s) = Unit
IsReady test (error s) = Unit

-- A loop without a deadline ends when its test holds, or not yet.
abbrev pub IsUntimed : {S : Type 0} → Waited S → Type 0
IsUntimed (ready s) = Unit
IsUntimed (blocked s) = Unit
IsUntimed (timeout s) = ⊥
IsUntimed (error s) = ⊥

-- The other threads keep the invariant, whenever they run.
abbrev pub Keeps : {S : Type 0} → (S → Type 0) → List (Wakeup S) → Type 0
Keeps P ws = All (λ w. (s : _) → P s → P (w.others s)) ws
