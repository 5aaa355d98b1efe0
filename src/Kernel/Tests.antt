-- ===== src/Kernel/Tests.antt =====
-- The theorems on kernel/mvgal_sync.c at concrete timelines and fences.
use mvgal.Base.{ℕ, false, some, List, [], ◌∷◌}
use mvgal.Base.Wait.{Wakeup, woke, etimedout}
use mvgal.Kernel.Sync.{Fence, SyncManager, sync_init, timeline_signal, timeline_wait}
use mvgal.Kernel.Sync.Timelines.{Reached, timeline_wait-Reached}

abbrev no_fences : ℕ → Fence
no_fences f = record { seq = 0; flags = 0; timeline_value = 0; signaled = 0; freed = false }

abbrev started : SyncManager
started = sync_init no_fences

-- One wakeup without a change, then the end of the time.
abbrev schedule : List (Wakeup SyncManager)
schedule =
    record { ret = woke; others = λ m. m }
    ∷ record { ret = etimedout; others = λ m. (timeline_signal m (some 2) 9).1 }
    ∷ []

timeline_wait-Reached_example : Reached 2 7 (timeline_wait schedule started (some 2) 7 1000)
timeline_wait-Reached_example = timeline_wait-Reached schedule started 2 7 1000
