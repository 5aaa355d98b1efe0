-- ===== src/Kernel/Sync.antt =====
-- kernel/mvgal_sync.c: timelines and fences. Each call that holds a lock throughout is one step.
pub mod Timelines
pub mod Fences
use mvgal.Base.{
  ℕ, zero, suc, ◌+◌, ◌%◌, ◌^◌, Bool, true, false, Option, none, some, List, [], ◌∷◌, ltb, leb, ◌==◌,
  if◌then◌else◌, update,
}
use mvgal.Base.Wait.{
  Wakeup, CondRet, woke, etimedout, failed, Waited, ready, timeout, error, blocked, wait_loop,
}

-- The results of the calls: 0 and the negative error numbers.
pub data Errno : Type 0 where
  ok einval enoent expired_time : Errno

-- struct mvgal_fence. The code reads and writes no other field of it.
pub record Fence : Type 0 where
  pub seq : ℕ
  pub flags : ℕ
  pub timeline_value : ℕ
  pub signaled : ℕ
  pub freed : Bool

-- struct mvgal_timeline
pub record Timeline : Type 0 where
  pub current_value : ℕ
  pub next_value : ℕ
  pub signaled_value : ℕ

-- sync_manager, with the blocks of the fences.
pub record SyncManager : Type 0 where
  pub timelines : ℕ → Timeline
  pub fence_list : List ℕ
  pub fences : ℕ → Fence

-- MVGAL_MAX_TIMELINES
abbrev pub max_timelines : ℕ
max_timelines = 64

abbrev pub u32 : ℕ
u32 = 2 ^ 32

abbrev pub u64 : ℕ
u64 = 2 ^ 64

-- mvgal_sync_init
abbrev pub sync_init : (ℕ → Fence) → SyncManager
sync_init fences = record {
  timelines = λ i. record { current_value = 0; next_value = 1; signaled_value = 0 };
  fence_list = [];
  fences = fences;
}

-- The search of mvgal_timeline_create from index `i` on, with `n` timelines to go.
unfoldable pub find_timeline : ℕ → ℕ → (ℕ → Timeline) → Option ℕ
find_timeline zero i ts = none
find_timeline (suc n) i ts =
    let rest : Option ℕ = find_timeline n (suc i) ts in
    if (ts i).current_value == 0 then some i else rest

-- mvgal_timeline_create
unfoldable pub timeline_create : SyncManager → Option ℕ
timeline_create m = find_timeline max_timelines 0 m.timelines

-- The part of mvgal_fence_alloc that takes a value of the timeline.
abbrev pub take_value : Timeline → Timeline
take_value t = record t { next_value = (t.next_value + 1) % u64 }

-- mvgal_fence_alloc; `fresh` is what kzalloc returns.
unfoldable pub fence_alloc : SyncManager → Option ℕ → ℕ → Option ℕ → Option ℕ × SyncManager
fence_alloc m timeline flags none = (none, m)
fence_alloc m none flags (some f) = (
  some f,
  record m {
    fences =
        update m.fences f
          (record { seq = 0; flags = flags; timeline_value = 0; signaled = 0; freed = false });
  },
)
fence_alloc m (some i) flags (some f) =
    let t : Timeline = take_value (m.timelines i) in
    (
      some f,
      record m {
        timelines = update m.timelines i t;
        fences = update m.fences f (record {
          seq = (m.timelines i).next_value % u32;
          flags = flags;
          timeline_value = t.next_value;
          signaled = 0;
          freed = false;
        });
      },
    )

-- mvgal_fence_free
unfoldable pub fence_free : SyncManager → Option ℕ → SyncManager
fence_free m none = m
fence_free m (some f) = record m {
  fences = update m.fences f (record (m.fences f) { freed = true });
}

-- mvgal_fence_signal
unfoldable pub fence_signal : SyncManager → Option ℕ → Errno × SyncManager
fence_signal m none = (einval, m)
fence_signal m (some f) =
    (ok, record m { fences = update m.fences f (record (m.fences f) { signaled = 1 }) })

-- wait_event_timeout: like pthread_cond_timedwait's loops, but it looks at the test once more when the
-- time is up.
abbrev pub expired : {S : Type 0} → (S → Bool) → CondRet → S → Waited S → Waited S
expired test woke s rest = rest
expired test failed s rest = rest
expired test etimedout s rest = if test s then ready s else timeout s

unfoldable pub event_loop : {S : Type 0} → (S → Bool) → List (Wakeup S) → S → Waited S
event_loop test [] s = if test s then ready s else blocked s
event_loop test (w ∷ ws) s =
    let rest = event_loop test ws (w.others s) in
    if test s then ready s else expired test w.ret (w.others s) rest

-- The result of a wait and the object after it; `none` means that the caller is still blocked.
abbrev pub event_result : {S : Type 0} → Waited S → Option Errno × S
event_result (ready s) = (some ok, s)
event_result (timeout s) = (some expired_time, s)
event_result (error s) = (some expired_time, s)
event_result (blocked s) = (none, s)

abbrev pub is_signaled : ℕ → SyncManager → Bool
is_signaled f m = if (m.fences f).signaled == 0 then false else true

-- mvgal_fence_wait, with the schedule of its wakeups.
unfoldable pub fence_wait :
    List (Wakeup SyncManager) → SyncManager → Option ℕ → ℕ → Option Errno × SyncManager
fence_wait ws m none timeout_ns = (some einval, m)
fence_wait ws m (some f) timeout_ns =
    if is_signaled f m
    then (some ok, m)
    else event_result (
        if timeout_ns == 0 then wait_loop (is_signaled f) ws m else event_loop (is_signaled f) ws m)

-- mvgal_timeline_signal
unfoldable pub timeline_signal : SyncManager → Option ℕ → ℕ → Errno × SyncManager
timeline_signal m none value = (einval, m)
timeline_signal m (some i) value =
    if ltb (m.timelines i).current_value value
    then (
      ok,
      record m {
        timelines =
            update m.timelines i
              (record (m.timelines i) { current_value = value; signaled_value = value % u32 });
      },
    )
    else (ok, m)

abbrev pub has_reached : ℕ → ℕ → SyncManager → Bool
has_reached i value m = leb value (m.timelines i).current_value

-- mvgal_timeline_wait, with the schedule of its wakeups.
unfoldable pub timeline_wait :
    List (Wakeup SyncManager) → SyncManager → Option ℕ → ℕ → ℕ → Option Errno × SyncManager
timeline_wait ws m none value timeout_ns = (some einval, m)
timeline_wait ws m (some i) value timeout_ns =
    if has_reached i value m
    then (some ok, m)
    else event_result (
        if timeout_ns == 0
        then wait_loop (has_reached i value) ws m
        else event_loop (has_reached i value) ws m)

-- The search of the two ioctls.
unfoldable pub find_fence : (ℕ → Fence) → List ℕ → ℕ → Option ℕ
find_fence fences [] id = none
find_fence fences (f ∷ fs) id =
    let rest : Option ℕ = find_fence fences fs id in if (fences f).seq == id then some f else rest

-- mvgal_ioctl_signal_fence
unfoldable pub ioctl_signal_fence : SyncManager → ℕ → Errno × SyncManager
ioctl_signal_fence m id = elim (find_fence m.fences m.fence_list id) [
  | none ↦ (enoent, m)
  | some f ↦ let (ret, m1) = fence_signal m (some f) in (ret, fence_free m1 (some f))
]

-- The fence is freed once the wait has returned.
abbrev pub free_after : ℕ → Option Errno × SyncManager → Option Errno × SyncManager
free_after f (none, m) = (none, m)
free_after f (some ret, m) = (some ret, fence_free m (some f))

-- mvgal_ioctl_wait_fence, with the schedule of its wakeups.
unfoldable pub ioctl_wait_fence :
    List (Wakeup SyncManager) → SyncManager → ℕ → ℕ → Option Errno × SyncManager
ioctl_wait_fence ws m id timeout_ns = elim (find_fence m.fences m.fence_list id) [
  | none ↦ (some enoent, m)
  | some f ↦ free_after f (fence_wait ws m (some f) timeout_ns)
]
