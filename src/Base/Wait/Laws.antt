-- ===== src/Base/Wait/Laws.antt =====
-- What every wait loop guarantees: it ends as ready only where its test holds, and it keeps an
-- invariant that the other threads keep.
use mathlib.Core.Logic.{inl, inr}
use mathlib.Core.Bool.{Bool}
use mathlib.Core.List.{List, [], ◌∷◌}
use mvgal.Base.Tests.{Bool-cases}
use mvgal.Base.Wait.Loops.{
  CondRet, woke, etimedout, failed, Wakeup, Waited, wait_loop, timed_loop, checked_loop, state_of,
  timed_next, checked_next, IsReady, IsUntimed, Keeps,
}

module _ {S : Type 0} (P : Waited S → Type 0) where
  timed_next_cases :
      (r : CondRet) (s : S) (rest : Waited S)
      → P rest
      → P (Waited.timeout s)
      → P (timed_next r s rest)
  timed_next_cases woke s rest p q = p
  timed_next_cases failed s rest p q = p
  timed_next_cases etimedout s rest p q = q

  checked_next_cases :
      (r : CondRet) (s : S) (rest : Waited S)
      → P rest
      → P (Waited.timeout s)
      → P (Waited.error s)
      → P (checked_next r s rest)
  checked_next_cases woke s rest p q e = p
  checked_next_cases failed s rest p q e = e
  checked_next_cases etimedout s rest p q e = q

module _ {S : Type 0} (test : S → Bool) where
  pub wait_loop-IsReady : (ws : List (Wakeup S)) (s : S) → IsReady test (wait_loop test ws s)
  unfolding wait_loop
  wait_loop-IsReady [] s = elim (Bool-cases (test s)) [ inl e ↦ rw e e | inr e ↦ rw e e ]
  wait_loop-IsReady (w ∷ ws) s = elim (Bool-cases (test s)) [
    | inl e ↦ rw e e
    | inr e ↦ rw e (wait_loop-IsReady ws (w.others s))
  ]

  pub wait_loop-IsUntimed : (ws : List (Wakeup S)) (s : S) → IsUntimed (wait_loop test ws s)
  unfolding wait_loop
  wait_loop-IsUntimed [] s = elim (Bool-cases (test s)) [ inl e ↦ rw e tt | inr e ↦ rw e tt ]
  wait_loop-IsUntimed (w ∷ ws) s = elim (Bool-cases (test s)) [
    | inl e ↦ rw e tt
    | inr e ↦ rw e (wait_loop-IsUntimed ws (w.others s))
  ]

  pub wait_loop_inv :
      (P : S → Type 0) (ws : List (Wakeup S)) (s : S)
      → Keeps P ws
      → P s
      → P (state_of (wait_loop test ws s))
  unfolding wait_loop
  wait_loop_inv P [] s k p = elim (Bool-cases (test s)) [ inl e ↦ rw e p | inr e ↦ rw e p ]
  wait_loop_inv P (w ∷ ws) s k p = elim (Bool-cases (test s)) [
    | inl e ↦ rw e p
    | inr e ↦ rw e (wait_loop_inv P ws (w.others s) k.1 (k.0 s p))
  ]

  pub timed_loop-IsReady : (ws : List (Wakeup S)) (s : S) → IsReady test (timed_loop test ws s)
  unfolding timed_loop
  timed_loop-IsReady [] s = elim (Bool-cases (test s)) [ inl e ↦ rw e e | inr e ↦ rw e e ]
  timed_loop-IsReady (w ∷ ws) s = elim (Bool-cases (test s)) [
    | inl e ↦ rw e e
    | inr e ↦ rw e (
        timed_next_cases (IsReady test) w.ret (w.others s) _ (timed_loop-IsReady ws (w.others s))
          tt)
  ]

  pub timed_loop_inv :
      (P : S → Type 0) (ws : List (Wakeup S)) (s : S)
      → Keeps P ws
      → P s
      → P (state_of (timed_loop test ws s))
  unfolding timed_loop
  timed_loop_inv P [] s k p = elim (Bool-cases (test s)) [ inl e ↦ rw e p | inr e ↦ rw e p ]
  timed_loop_inv P (w ∷ ws) s k p = elim (Bool-cases (test s)) [
    | inl e ↦ rw e p
    | inr e ↦ rw e (
        timed_next_cases (λ o. P (state_of o)) w.ret (w.others s) _
          (timed_loop_inv P ws (w.others s) k.1 (k.0 s p)) (k.0 s p))
  ]

  pub checked_loop-IsReady : (ws : List (Wakeup S)) (s : S) → IsReady test (checked_loop test ws s)
  unfolding checked_loop
  checked_loop-IsReady [] s = elim (Bool-cases (test s)) [ inl e ↦ rw e e | inr e ↦ rw e e ]
  checked_loop-IsReady (w ∷ ws) s = elim (Bool-cases (test s)) [
    | inl e ↦ rw e e
    | inr e ↦ rw e (
        checked_next_cases (IsReady test) w.ret (w.others s) _
          (checked_loop-IsReady ws (w.others s)) tt tt)
  ]

  pub checked_loop_inv :
      (P : S → Type 0) (ws : List (Wakeup S)) (s : S)
      → Keeps P ws
      → P s
      → P (state_of (checked_loop test ws s))
  unfolding checked_loop
  checked_loop_inv P [] s k p = elim (Bool-cases (test s)) [ inl e ↦ rw e p | inr e ↦ rw e p ]
  checked_loop_inv P (w ∷ ws) s k p = elim (Bool-cases (test s)) [
    | inl e ↦ rw e p
    | inr e ↦ rw e (
        checked_next_cases (λ o. P (state_of o)) w.ret (w.others s) _
          (checked_loop_inv P ws (w.others s) k.1 (k.0 s p)) (k.0 s p) (k.0 s p))
  ]
