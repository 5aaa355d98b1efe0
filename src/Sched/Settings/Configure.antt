-- ===== src/Sched/Settings/Configure.antt =====
-- Reading back what was configured.
use mvgal.Base.{ℕ, ◌<◌, ◌≤◌, ◌≡◌, refl, some, arith, false, ltb, leb, ◌||◌}
use mvgal.Sched.Gpus.{max_gpus}
use mvgal.Sched.Settings.{Config, Settings, configure, get_config, set_gpu_priority, pause, resume}

-- A configuration is read back as it was given, also after GPU priorities were set and scheduling was
-- paused and resumed; a priority of at most 100 that is set for one of the 16 GPUs is stored in the
-- configuration and for the GPU alike.
pub get_config-configure :
    {F : Type 0} (s : Settings F) (c : Config F) (i priority : ℕ)
    → i < max_gpus
    → priority ≤ 100
    → let s1 = (set_gpu_priority (pause (configure s (some c)).1) i priority).1 in
      (get_config (resume s1) ≡ c) × (s1.gpu_priorities i ≡ priority) × (s1.priorities i ≡ priority)
unfolding configure get_config set_gpu_priority pause resume
get_config-configure s c i priority valid small =
    let ok : (leb max_gpus i || ltb 100 priority) ≡ false = ground arith in
    rw ok (refl, ground arith, ground arith)
