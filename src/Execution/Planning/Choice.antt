-- ===== src/Execution/Planning/Choice.antt =====
-- The strategies that a plan may have.
use mvgal.Base.{
  ℕ, ◌≡◌, Bool, true, false, ◌&&◌, ◌||◌, if◌then◌else◌, length, ltb, leb, if_elim, ltb→lt, ◌<◌,
  arith,
}
use mvgal.Sched.Settings.{
  Distribution, afr, sfr, task, compute_offload, hybrid, single_gpu, auto, custom,
}
use mvgal.Execution.Frames.{Frame}
use mvgal.Execution.Planning.{
  GpuManager, Kind, SubmitInfo, enabled_gpus, is_graphics, is_computing, is_transfer, unless_auto,
  hybrid_choice, choose_from, choose_strategy,
}

abbrev pub Allowed : ℕ → Distribution → Type 0
Allowed enabled auto = ⊥
Allowed enabled hybrid = ⊥
Allowed enabled single_gpu = Unit
Allowed enabled custom = Unit
Allowed enabled afr = 1 < enabled
Allowed enabled sfr = 1 < enabled
Allowed enabled task = 1 < enabled
Allowed enabled compute_offload = 1 < enabled

-- A strategy that the scheduler's switch can apply as it is: neither AUTO nor HYBRID, and with one GPU or
-- none only one that does not need several.
pub record IsDecided (enabled : ℕ) (d : Distribution) : Type 0 where
  pub allowed : Allowed enabled d

snd_true : (a : Bool) (enabled : ℕ) → (a && ltb 1 enabled) ≡ true → 1 < enabled
snd_true true enabled e = ground arith
snd_true false enabled e = absurd (cc)

-- A strategy that is chosen on several GPUs only.
guarded :
    (enabled : ℕ) (test : Bool) (d other : Distribution)
    → (1 < enabled → IsDecided enabled d)
    → IsDecided enabled other
    → IsDecided enabled (if test && ltb 1 enabled then d else other)
guarded enabled test d other k rest =
    if_elim (IsDecided enabled) (test && ltb 1 enabled) d other (λ e. k (snd_true test enabled e))
      (λ _. rest)

hybrid_choice-IsDecided :
    (enabled : ℕ) (frame : Frame) (kind : Kind) (bytes : ℕ)
    → IsDecided enabled (hybrid_choice enabled frame kind bytes)
unfolding hybrid_choice
hybrid_choice-IsDecided enabled frame kind bytes =
    guarded enabled ((frame.steam_mode || frame.proton_mode) && is_graphics kind) afr _
      (λ e. record { allowed = e })
      (guarded enabled (is_computing kind) compute_offload _ (λ e. record { allowed = e })
        (guarded enabled (is_transfer kind) task _ (λ e. record { allowed = e })
          (guarded enabled (is_graphics kind && leb 67_108_864 bytes) sfr _
            (λ e. record { allowed = e })
            (if_elim (IsDecided enabled) (ltb 1 enabled) afr single_gpu
              (λ e. record { allowed = ltb→lt 1 enabled e }) (λ _. record { allowed = tt })))))

-- A strategy that needs several GPUs, behind the check for them.
limited :
    (enabled : ℕ) (d : Distribution)
    → (1 < enabled → IsDecided enabled d)
    → IsDecided enabled (if leb enabled 1 && true then single_gpu else d)
limited enabled d k =
    if_elim (IsDecided enabled) (leb enabled 1 && true) single_gpu d (λ _. record { allowed = tt })
      (λ e. k (ground arith))

choose_from-IsDecided :
    (requested : Distribution) (enabled : ℕ) (frame : Frame) (kind : Kind) (bytes : ℕ)
    → IsDecided enabled (choose_from (unless_auto requested hybrid) enabled frame kind bytes)
unfolding choose_from
choose_from-IsDecided afr enabled frame kind bytes =
    limited enabled afr (λ e. record { allowed = e })
choose_from-IsDecided sfr enabled frame kind bytes =
    limited enabled sfr (λ e. record { allowed = e })
choose_from-IsDecided task enabled frame kind bytes =
    limited enabled task (λ e. record { allowed = e })
choose_from-IsDecided compute_offload enabled frame kind bytes =
    limited enabled compute_offload (λ e. record { allowed = e })
choose_from-IsDecided hybrid enabled frame kind bytes =
    limited enabled _ (λ _. hybrid_choice-IsDecided enabled frame kind bytes)
choose_from-IsDecided auto enabled frame kind bytes =
    limited enabled _ (λ _. hybrid_choice-IsDecided enabled frame kind bytes)
choose_from-IsDecided single_gpu enabled frame kind bytes =
    if_elim (IsDecided enabled) (leb enabled 1 && false) _ _ (λ _. record { allowed = tt })
      (λ _. record { allowed = tt })
choose_from-IsDecided custom enabled frame kind bytes =
    if_elim (IsDecided enabled) (leb enabled 1 && false) _ _ (λ _. record { allowed = tt })
      (λ _. record { allowed = tt })

-- Whatever was requested of a submission and of its frame, the strategy of its plan is neither AUTO
-- nor HYBRID, and one that needs several GPUs (AFR, SFR, TASK, COMPUTE_OFFLOAD) only if more than one is
-- enabled.
pub choose_strategy-IsDecided :
    (m : GpuManager) (frame : Frame) (info : SubmitInfo)
    → IsDecided (length (enabled_gpus m)) (choose_strategy m frame info)
unfolding choose_strategy
choose_strategy-IsDecided m frame info =
    choose_from-IsDecided (unless_auto info.requested_strategy frame.requested_strategy)
      (length (enabled_gpus m)) frame _ info.resource_bytes
