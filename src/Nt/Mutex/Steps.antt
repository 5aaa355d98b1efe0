-- ===== src/Nt/Mutex/Steps.antt =====
-- mvgal_nt_mutex_lock and mvgal_nt_mutex_unlock step by step, with several threads. The words of the mutex
-- are read and written in the source's order: `inner` is the thread that has locked mutex->lock, which
-- the compare-and-swap of a call with the timeout 0 does not wait for.
use mvgal.Base.{ℕ, ◌+◌, ◌-◌, ◌<◌, ◌≡◌, ◌≢◌, ◌⊎◌, Bool, true, false, Option, none, some, update}
use mvgal.Nt.Codes.{u32_mod}
use mvgal.Nt.Mutex.{Mutex, acquire, own, relock, unlock}

-- Where a thread stands: in no call; before the compare-and-swap and after it has succeeded; before the
-- lock of mutex->lock, in the loop that reads `state`, asleep, and after it has read 0.
pub data Point : Type 0 where
  outside trying swapped entering checking sleeping chosen : Point

-- `held tid` counts the locks of thread `tid` that it has not unlocked.
pub record World : Type 0 where
  pub mutex : Mutex
  pub inner : Option ℕ
  pub point : ℕ → Point
  pub held : ℕ → ℕ

abbrev pub moved : World → ℕ → Point → ℕ → Point
moved s tid p = update s.point tid p

abbrev pub gained : World → ℕ → ℕ → ℕ
gained s tid = update s.held tid (s.held tid + 1)

-- A step of a thread, whose identifier is not 0; with `may_try` there are calls with the timeout 0. The
-- count of nested locks stays below 2^32, and a thread unlocks only what it holds.
pub data Step (may_try : Bool) (s : World) : World → Type 0 where
  relocks :
      (tid : ℕ)
      → s.point tid ≡ outside
      → tid ≢ 0
      → s.mutex.owner_thread ≡ tid
      → 0 < s.mutex.recursion_count
      → s.mutex.recursion_count + 1 < u32_mod
      → Step may_try s (record s { mutex = relock s.mutex; held = gained s tid })
  tries :
      (tid : ℕ)
      → s.point tid ≡ outside
      → tid ≢ 0
      → (s.mutex.owner_thread ≢ tid) ⊎ (s.mutex.recursion_count ≡ 0)
      → may_try ≡ true
      → Step may_try s (record s { point = moved s tid trying })
  swaps :
      (tid : ℕ)
      → s.point tid ≡ trying
      → s.mutex.state ≡ 0
      → Step may_try s
          (record s { mutex = record s.mutex { state = 1 }; point = moved s tid swapped })
  fails :
      (tid : ℕ)
      → s.point tid ≡ trying
      → s.mutex.state ≢ 0
      → Step may_try s (record s { point = moved s tid outside })
  owns :
      (tid : ℕ)
      → s.point tid ≡ swapped
      → s.inner ≡ none
      → Step may_try s
          (record s { mutex = own tid s.mutex; point = moved s tid outside; held = gained s tid })
  waits :
      (tid : ℕ)
      → s.point tid ≡ outside
      → tid ≢ 0
      → (s.mutex.owner_thread ≢ tid) ⊎ (s.mutex.recursion_count ≡ 0)
      → Step may_try s (record s { point = moved s tid entering })
  enters :
      (tid : ℕ)
      → s.point tid ≡ entering
      → s.inner ≡ none
      → Step may_try s (record s { inner = some tid; point = moved s tid checking })
  sees_taken :
      (tid : ℕ)
      → s.point tid ≡ checking
      → s.mutex.state ≢ 0
      → Step may_try s (record s { inner = none; point = moved s tid sleeping })
  wakes :
      (tid : ℕ)
      → s.point tid ≡ sleeping
      → s.inner ≡ none
      → Step may_try s (record s { inner = some tid; point = moved s tid checking })
  gives_up :
      (tid : ℕ)
      → s.point tid ≡ sleeping
      → s.inner ≡ none
      → Step may_try s (record s { point = moved s tid outside })
  sees_free :
      (tid : ℕ)
      → s.point tid ≡ checking
      → s.mutex.state ≡ 0
      → Step may_try s (record s { point = moved s tid chosen })
  stores :
      (tid : ℕ)
      → s.point tid ≡ chosen
      → tid ≢ 0
      → Step may_try s (record s {
        mutex = acquire tid s.mutex;
        inner = none;
        point = moved s tid outside;
        held = gained s tid;
      })
  unlocks :
      (tid : ℕ) (m : Mutex) (woken : Bool)
      → s.point tid ≡ outside
      → 0 < s.held tid
      → s.inner ≡ none
      → unlock (some s.mutex) ≡ some (m, woken)
      → Step may_try s (record s { mutex = m; held = update s.held tid (s.held tid - 1) })

abbrev pub unowned : Mutex
unowned = record {
  state = 0;
  owner_thread = 0;
  recursion_count = 0;
  abandon_count = 0;
  abandoned = false;
}

abbrev pub idle : World
idle = record { mutex = unowned; inner = none; point = λ tid. outside; held = λ tid. 0 }

pub data Reach (may_try : Bool) : World → Type 0 where
  start : Reach may_try idle
  next : {s t : World} → Reach may_try s → Step may_try s t → Reach may_try t
