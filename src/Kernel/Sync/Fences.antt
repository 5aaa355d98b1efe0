-- ===== src/Kernel/Sync/Fences.antt =====
-- Fences: what signalling does to the waits, and what the ioctls can find.
use mvgal.Base.{ℕ, ◌≡◌, refl, true, Option, none, some, List, [], arith}
use mvgal.Base.Wait.{Wakeup}
use mvgal.Kernel.Sync.{
  ok, enoent, Fence, SyncManager, sync_init, fence_alloc, fence_free, fence_signal, fence_wait,
  is_signaled, timeline_signal, find_fence, ioctl_signal_fence, ioctl_wait_fence,
}

signaled-is : (m : SyncManager) (f : ℕ) → is_signaled f (fence_signal m (some f)).1 ≡ true
unfolding fence_signal
signaled-is m f = ground arith

signal_ok : (m : SyncManager) (f : ℕ) → (fence_signal m (some f)).0 ≡ ok
unfolding fence_signal
signal_ok m f = refl

-- Signalling a fence succeeds, and every later wait for it returns 0 at once, whatever its timeout and
-- whatever the other threads do.
pub fence_wait-fence_signal :
    (ws : List (Wakeup SyncManager)) (m : SyncManager) (f timeout_ns : ℕ)
    → ((fence_signal m (some f)).0 ≡ ok)
      × (fence_wait ws (fence_signal m (some f)).1 (some f) timeout_ns
          ≡ (some ok, (fence_signal m (some f)).1))
unfolding fence_wait
fence_wait-fence_signal ws m f timeout_ns = (signal_ok m f, rw (signaled-is m f) refl)

-- What the module does to the manager, call by call.
pub data Step : SyncManager → SyncManager → Type 0 where
  alloc :
      {m : SyncManager} (timeline : Option ℕ) (flags : ℕ) (fresh : Option ℕ)
      → Step m (fence_alloc m timeline flags fresh).1
  free : {m : SyncManager} (f : Option ℕ) → Step m (fence_free m f)
  signal : {m : SyncManager} (f : Option ℕ) → Step m (fence_signal m f).1
  advance :
      {m : SyncManager} (timeline : Option ℕ) (value : ℕ)
      → Step m (timeline_signal m timeline value).1
  ioctl : {m : SyncManager} (id : ℕ) → Step m (ioctl_signal_fence m id).1

pub data Reach (from : SyncManager) : SyncManager → Type 0 where
  here : Reach from from
  after : {m m' : SyncManager} → Reach from m → Step m m' → Reach from m'

alloc-list :
    (m : SyncManager) (timeline : Option ℕ) (flags : ℕ) (fresh : Option ℕ)
    → (fence_alloc m timeline flags fresh).1.fence_list ≡ m.fence_list
unfolding fence_alloc
alloc-list m timeline flags none = refl
alloc-list m none flags (some f) = refl
alloc-list m (some i) flags (some f) = refl

free-list : (m : SyncManager) (f : Option ℕ) → (fence_free m f).fence_list ≡ m.fence_list
unfolding fence_free
free-list m none = refl
free-list m (some f) = refl

signal-list : (m : SyncManager) (f : Option ℕ) → (fence_signal m f).1.fence_list ≡ m.fence_list
unfolding fence_signal
signal-list m none = refl
signal-list m (some f) = refl

advance-list :
    (m : SyncManager) (timeline : Option ℕ) (value : ℕ)
    → (timeline_signal m timeline value).1.fence_list ≡ m.fence_list
unfolding timeline_signal
advance-list m none value = refl
advance-list m (some i) value = ground arith

ioctl-empty : (m : SyncManager) (id : ℕ) → m.fence_list ≡ [] → ioctl_signal_fence m id ≡ (enoent, m)
unfolding ioctl_signal_fence find_fence
ioctl-empty m id e = rw e refl

list_stays_one : (m m' : SyncManager) → Step m m' → m.fence_list ≡ [] → m'.fence_list ≡ []
list_stays_one m m' (alloc t flags fresh) e = rw (alloc-list m t flags fresh) e
list_stays_one m m' (free f) e = rw (free-list m f) e
list_stays_one m m' (signal f) e = rw (signal-list m f) e
list_stays_one m m' (advance t value) e = rw (advance-list m t value) e
list_stays_one m m' (ioctl id) e = rw (ioctl-empty m id e) e

list_stays_empty :
    (fences : ℕ → Fence) (m : SyncManager) → Reach (sync_init fences) m → m.fence_list ≡ []
list_stays_empty fences m here = refl
list_stays_empty fences m (after {m = m0} r s) =
    list_stays_one m0 m s (list_stays_empty fences m0 r)

-- No call of the module puts a fence on the list that the ioctls search. So in every state that the
-- module reaches from its start, both ioctls fail with ENOENT for every id, and do nothing.
pub ioctls_find_nothing :
    (fences : ℕ → Fence) (m : SyncManager) (ws : List (Wakeup SyncManager)) (id timeout_ns : ℕ)
    → Reach (sync_init fences) m
    → (ioctl_wait_fence ws m id timeout_ns ≡ (some enoent, m))
      × (ioctl_signal_fence m id ≡ (enoent, m))
unfolding ioctl_wait_fence find_fence
ioctls_find_nothing fences m ws id timeout_ns r =
    let e = list_stays_empty fences m r in (rw e refl, ioctl-empty m id e)
