-- ===== src/Kernel/Sync/Timelines.antt =====
-- Timelines: their values, the waits for them, and the values that are given to fences.
use mvgal.Base.{
  ℕ, zero, suc, ◌+◌, ◌≤◌, ◌<◌, ◌≡◌, refl, ◌⊎◌, inl, inr, Bool, true, false, Option, none, some,
  List, [], ◌∷◌, arith, update, ltb, leb→le, ◌==◌, if◌then◌else◌, Bool-cases, eq-or-ne,
}
use mvgal.Base.Wait.{
  Wakeup, CondRet, woke, etimedout, failed, Waited, ready, timeout, error, blocked, wait_loop,
}
use mvgal.Kernel.Sync.{
  Errno, ok, einval, enoent, expired_time, Timeline, SyncManager, u32, fence_alloc, timeline_signal,
  timeline_wait, has_reached, take_value, expired, event_loop, event_result, timeline_create,
  find_timeline, max_timelines,
}

abbrev pub max : ℕ → ℕ → ℕ
max a b = if ltb a b then b else a

-- After a signal the timeline's value is the larger of its old value and the given one; the next value
-- to hand out, and every other timeline, are as before; the signal itself succeeds.
pub timeline_signal-max :
    (m : SyncManager) (i value : ℕ)
    → ((timeline_signal m (some i) value).0 ≡ ok)
      × (((timeline_signal m (some i) value).1.timelines i).current_value
          ≡ max (m.timelines i).current_value value)
      × (((timeline_signal m (some i) value).1.timelines i).next_value ≡ (m.timelines i).next_value)
      × ((j : ℕ) → (i ≡ j) ⊎ ((timeline_signal m (some i) value).1.timelines j ≡ m.timelines j))
unfolding timeline_signal
timeline_signal-max m i value = (
  ground arith,
  ground arith,
  ground arith,
  λ j. elim (eq-or-ne i j) [ inl e ↦ inl e | inr d ↦ inr (ground (arith, d)) ],
)

-- How a wait with a timeout ends: the test holds, or it failed when the time was up.
abbrev Ends : {S : Type 0} → (S → Bool) → Waited S → Type 0
Ends test (ready s) = test s ≡ true
Ends test (timeout s) = test s ≡ false
Ends test (error s) = ⊥
Ends test (blocked s) = test s ≡ false

expired-Ends :
    {S : Type 0} (test : S → Bool) (r : CondRet) (s : S) (rest : Waited S)
    → Ends test rest
    → Ends test (expired test r s rest)
expired-Ends test woke s rest e = e
expired-Ends test failed s rest e = e
expired-Ends test etimedout s rest e = elim (Bool-cases (test s)) [
  | inl t ↦ rw t t
  | inr t ↦ rw t t
]

event_loop-Ends :
    {S : Type 0} (test : S → Bool) (ws : List (Wakeup S)) (s : S) → Ends test (event_loop test ws s)
unfolding event_loop
event_loop-Ends test [] s = elim (Bool-cases (test s)) [ inl t ↦ rw t t | inr t ↦ rw t t ]
event_loop-Ends test (w ∷ ws) s = elim (Bool-cases (test s)) [
  | inl t ↦ rw t t
  | inr t ↦ rw t (expired-Ends test w.ret (w.others s) _ (event_loop-Ends test ws (w.others s)))
]

wait_loop-Ends :
    {S : Type 0} (test : S → Bool) (ws : List (Wakeup S)) (s : S) → Ends test (wait_loop test ws s)
unfolding wait_loop
wait_loop-Ends test [] s = elim (Bool-cases (test s)) [ inl t ↦ rw t t | inr t ↦ rw t t ]
wait_loop-Ends test (w ∷ ws) s = elim (Bool-cases (test s)) [
  | inl t ↦ rw t t
  | inr t ↦ rw t (wait_loop-Ends test ws (w.others s))
]

-- What the result of a wait says of the timeline at that moment; `none` is a blocked caller.
abbrev pub Reached : ℕ → ℕ → Option Errno × SyncManager → Type 0
Reached i value (some ok, m) = value ≤ (m.timelines i).current_value
Reached i value (some expired_time, m) = (m.timelines i).current_value < value
Reached i value (some einval, m) = ⊥
Reached i value (some enoent, m) = ⊥
Reached i value (none, m) = (m.timelines i).current_value < value

Ends-Reached :
    (i value : ℕ) (o : Waited SyncManager)
    → Ends (has_reached i value) o
    → Reached i value (event_result o)
Ends-Reached i value (ready m) e = ground arith
Ends-Reached i value (timeout m) e = ground arith
Ends-Reached i value (error m) e = absurd e
Ends-Reached i value (blocked m) e = ground arith

loop-Ends :
    (b : Bool) (i value : ℕ) (ws : List (Wakeup SyncManager)) (m : SyncManager)
    → Ends
        (has_reached i value)
        (if b then wait_loop (has_reached i value) ws m else event_loop (has_reached i value) ws m)
loop-Ends true i value ws m = wait_loop-Ends (has_reached i value) ws m
loop-Ends false i value ws m = event_loop-Ends (has_reached i value) ws m

-- Whatever the other threads do while it waits, a wait for a value returns 0 only when the timeline has
-- the value, and ETIMEDOUT only when it has not; a caller that is still blocked waits for a value that
-- is not reached.
pub timeline_wait-Reached :
    (ws : List (Wakeup SyncManager)) (m : SyncManager) (i value timeout_ns : ℕ)
    → Reached i value (timeline_wait ws m (some i) value timeout_ns)
unfolding timeline_wait
timeline_wait-Reached ws m i value timeout_ns = elim (Bool-cases (has_reached i value m)) [
  | inl t ↦ rw t (leb→le value (m.timelines i).current_value t)
  | inr f ↦ rw f (Ends-Reached i value _ (loop-Ends (timeout_ns == 0) i value ws m))
]

at_most : (c c' n v : ℕ) {s : ℕ} {k : ℕ} → c' ≡ max c s → c ≡ k → s ≡ n → v ≡ n + 1 → k ≤ n → c' < v
at_most c c' n v a e f g l = ground arith

timeline_wait_blocked :
    (m : SyncManager) (i value timeout_ns : ℕ)
    → (m.timelines i).current_value < value
    → timeline_wait [] m (some i) value timeout_ns ≡ (none, m)
unfolding timeline_wait event_loop wait_loop
timeline_wait_blocked m i value timeout_ns l =
    let f : has_reached i value m ≡ false = ground arith in
    elim (Bool-cases (timeout_ns == 0)) [ inl e ↦ rw f (rw e refl) | inr e ↦ rw f (rw e refl) ]

-- The manager with a fence allocated on a timeline, as mvgal_fence_alloc leaves it.
abbrev pub with_fence : SyncManager → ℕ → ℕ → ℕ → SyncManager
with_fence m i flags f = (fence_alloc m (some i) flags (some f)).1

fence_alloc-values :
    (m : SyncManager) (i flags f : ℕ)
    → (m.timelines i).next_value < u32
    → (((with_fence m i flags f).fences f).seq ≡ (m.timelines i).next_value)
      × (((with_fence m i flags f).fences f).timeline_value ≡ (m.timelines i).next_value + 1)
      × (((with_fence m i flags f).timelines i).current_value ≡ (m.timelines i).current_value)
unfolding fence_alloc
fence_alloc-values m i flags f fits = (ground arith, ground arith, ground arith)

-- The fence that is allocated on a timeline gets the timeline's next value as its number, and the value
-- after it as its timeline value, where the number fits its 32 bits. If the timeline has not passed the
-- number, then after it is signalled up to the number a wait for the fence's timeline value is
-- blocked.
pub fence_alloc-timeline_wait :
    (m : SyncManager) (i flags f timeout_ns : ℕ)
    → (m.timelines i).next_value < u32
    → (m.timelines i).current_value ≤ (m.timelines i).next_value
    → (((with_fence m i flags f).fences f).seq ≡ (m.timelines i).next_value)
      × (((with_fence m i flags f).fences f).timeline_value ≡ (m.timelines i).next_value + 1)
      × (timeline_wait []
            (timeline_signal
              (with_fence m i flags f)
              (some i)
              ((with_fence m i flags f).fences f).seq).1
            (some i)
            ((with_fence m i flags f).fences f).timeline_value
            timeout_ns
          ≡ (
            none,
            (timeline_signal
                (with_fence m i flags f)
                (some i)
                ((with_fence m i flags f).fences f).seq).1,
          ))
fence_alloc-timeline_wait m i flags f timeout_ns fits behind =
    let (s, v, c) = fence_alloc-values m i flags f fits in
    let a =
      timeline_signal-max (with_fence m i flags f) i ((with_fence m i flags f).fences f).seq in
    (
      s,
      v,
      timeline_wait_blocked
          (timeline_signal (with_fence m i flags f) (some i)
            ((with_fence m i flags f).fences f).seq).1
          i ((with_fence m i flags f).fences f).timeline_value timeout_ns
          (at_most ((with_fence m i flags f).timelines i).current_value
            ((timeline_signal (with_fence m i flags f) (some i)
                ((with_fence m i flags f).fences f).seq).1.timelines
              i).current_value
            (m.timelines i).next_value ((with_fence m i flags f).fences f).timeline_value a.1 c s v
            behind),
    )

-- The search of mvgal_timeline_create finds the first timeline of value 0.
find_timeline-same :
    (n i : ℕ) (ts ts' : ℕ → Timeline)
    → ((j : ℕ) → (ts' j).current_value ≡ (ts j).current_value)
    → find_timeline n i ts' ≡ find_timeline n i ts
unfolding find_timeline
find_timeline-same zero i ts ts' same = refl
find_timeline-same (suc n) i ts ts' same =
    rw (same i) (rw (find_timeline-same n (suc i) ts ts' same) refl)

-- Creating does not take a timeline: until some timeline is signalled, it gives the same one again
-- after a fence was allocated on one.
pub timeline_create-fence_alloc :
    (m : SyncManager) (i flags : ℕ) (fresh : Option ℕ)
    → timeline_create (fence_alloc m (some i) flags fresh).1 ≡ timeline_create m
unfolding timeline_create fence_alloc
timeline_create-fence_alloc m i flags none = refl
timeline_create-fence_alloc m i flags (some f) =
    find_timeline-same max_timelines 0 m.timelines
      (update m.timelines i (take_value (m.timelines i))) (λ j. ground arith)
