-- ===== src/Sched/Frames/Sharing.antt =====
-- What mvgal_scheduler_distribute_sfr gives a workload that has no GPUs yet.
use native.Mathlib.Nat.{mod-eq_of_lt}
use mvgal.Base.{
  ℕ, zero, suc, ◌+◌, ◌%◌, ◌≤◌, ◌<◌, ◌≡◌, refl, ap, ◌∙◌, ◌≢◌, Bool, true, false, ◌&&◌, Option, some,
  List, [], ◌∷◌, arith, All, length, ltb, ltb→lt, ◌==◌, if_elim, and-true, get_or, update,
  update-eq,
}
use mvgal.Status.{success}
use mvgal.Sched.Types.{Workload, Heap}
use mvgal.Sched.Gpus.{Gpus, max_gpus}
use mvgal.Sched.Frames.{
  horizontal, Region, SplitFloats, share_of, split_frame, strips, horizontal_strip,
}
use mvgal.Sched.Frames.Strips.{
  Adjacent, Rows, share_sum, split_frame-horizontal, horizontal-Rows, length-strips,
}
use mvgal.Sched.Frames.Distribute.{
  SplitData, FrameData, assign_regions, create_split_data, usable_from, with_gpus, weight,
  split_among, distribute_sfr, max_regions,
}

-- The GPU may be used.
abbrev pub Usable : {F : Type 0} → Gpus F → ℕ → Type 0
Usable g i = (i < g.gpu_count) × ((g.gpus i).available ≡ true) × ((g.gpus i).enabled ≡ true)

module _ {F : Type 0} (g : Gpus F) where
  usable_from-All : (n i : ℕ) → All (Usable g) (usable_from g n i)
  unfolding usable_from
  usable_from-All zero i = tt
  usable_from-All (suc n) i =
      if_elim (All (Usable g)) (ltb i g.gpu_count && ((g.gpus i).available && (g.gpus i).enabled)) _
        _
        (λ e.
          let (below, flags) = and-true (ltb i g.gpu_count) _ e in
          let (available, enabled) = and-true (g.gpus i).available (g.gpus i).enabled flags in
          ((ltb→lt i g.gpu_count below, available, enabled), usable_from-All n (suc i)))
        (λ _. usable_from-All n (suc i))

  usable_from-length : (n i : ℕ) → length (usable_from g n i) ≤ n
  unfolding usable_from
  usable_from-length zero i = omega arith
  usable_from-length (suc n) i =
      if_elim (λ (xs : List ℕ). length xs ≤ suc n)
        (ltb i g.gpu_count && ((g.gpus i).available && (g.gpus i).enabled)) _ _
        (λ _. omega (arith, usable_from-length n (suc i)))
        (λ _. omega (arith, usable_from-length n (suc i)))

All-get_or : (P : ℕ → Type 0) (xs : List ℕ) (j d : ℕ) → j < length xs → All P xs → P (get_or xs j d)
All-get_or P [] j d l a = absurd (omega arith)
All-get_or P (x ∷ xs) zero d l (p, a) = p
All-get_or P (x ∷ xs) (suc j) d l (p, a) = All-get_or P xs j d (omega arith) a

-- The regions are for the GPUs of the list, from entry `i` on, one after another.
abbrev pub Dealt : List ℕ → ℕ → List Region → Type 0
Dealt gs i [] = Unit
Dealt gs i (r ∷ rs) = (r.gpu_index ≡ get_or gs i 0) × Dealt gs (i + 1) rs

get_or-default : (xs : List ℕ) (j d d' : ℕ) → j < length xs → get_or xs j d ≡ get_or xs j d'
get_or-default [] j d d' l = absurd (omega arith)
get_or-default (x ∷ xs) zero d d' l = refl
get_or-default (x ∷ xs) (suc j) d d' l = get_or-default xs j d d' (omega arith)

module _ (v : Workload) where
  assign_regions-Dealt :
      (gs : List ℕ) (rs : List Region) (i : ℕ)
      → v.assigned_gpu_count ≡ length gs
      → ((j : ℕ) → j < length gs → v.assigned_gpus j ≡ get_or gs j 0)
      → i + length rs ≤ length gs
      → Dealt gs i (assign_regions v rs i)
  unfolding assign_regions
  assign_regions-Dealt gs [] i c l h = tt
  assign_regions-Dealt gs (r ∷ rs) i c l h =
      let small : i < length gs = omega (arith, h) in
      let same : i % v.assigned_gpu_count ≡ i = rw c (mod-eq_of_lt small) in
      (rw same (l i small), assign_regions-Dealt gs rs (i + 1) c l (omega (arith, h)))

  assign_regions-length : (rs : List Region) (i : ℕ) → length (assign_regions v rs i) ≡ length rs
  unfolding assign_regions
  assign_regions-length [] i = refl
  assign_regions-length (r ∷ rs) i = ap suc (assign_regions-length rs (i + 1))

  assign_regions-Adjacent :
      (rs : List Region) (i start end : ℕ)
      → Adjacent (λ r. r.y) (λ r. r.height) start end rs
      → Adjacent (λ r. r.y) (λ r. r.height) start end (assign_regions v rs i)
  unfolding assign_regions
  assign_regions-Adjacent [] i start end a = a
  assign_regions-Adjacent (r ∷ rs) i start end (e, a) =
      (e, assign_regions-Adjacent rs (i + 1) (start + r.height) end a)

  assign_regions-full :
      (rs : List Region) (i width : ℕ)
      → All (λ r. (Region.x r ≡ 0) × (Region.width r ≡ width)) rs
      → All (λ r. (Region.x r ≡ 0) × (Region.width r ≡ width)) (assign_regions v rs i)
  unfolding assign_regions
  assign_regions-full [] i width a = tt
  assign_regions-full (r ∷ rs) i width (e, a) = (e, assign_regions-full rs (i + 1) width a)

  assign_regions-gpus :
      (P : ℕ → Type 0) (rs : List Region) (i : ℕ)
      → ((j : ℕ) → P (v.assigned_gpus (j % v.assigned_gpu_count)))
      → All (λ r. P (Region.gpu_index r)) (assign_regions v rs i)
  unfolding assign_regions
  assign_regions-gpus P [] i p = tt
  assign_regions-gpus P (r ∷ rs) i p = (p i, assign_regions-gpus P rs (i + 1) p)

module _ {F : Type 0} (fl : SplitFloats F) where
  create_split_data-eq :
      (frames : FrameData) (h : Heap) (w n : ℕ) (weights : ℕ → F) (rs : List Region)
      → (h w).assigned_gpu_count ≡ suc n
      → split_frame fl 0 1920 1080 (h w).assigned_gpu_count (some weights) horizontal max_regions
        ≡ some rs
      → create_split_data fl 0 true frames h (some w) 1920 1080 horizontal (some weights)
        ≡ some (
          success,
          update frames w (
              some (record {
                regions = assign_regions (h w) rs 0;
                original_width = 1920;
                original_height = 1080;
                freed = false;
              })),
        )
  unfolding create_split_data
  create_split_data-eq frames h w n weights rs count split =
      let some_gpu : ((h w).assigned_gpu_count == 0) ≡ false = ground (arith, count) in
      rw some_gpu (rw split refl)

-- What a workload has got: the listed GPUs, of which the first is the primary one, and as many regions,
-- strips of the whole frame of which each GPU of the list has one in turn; all may be used.
pub record Shared {F : Type 0} (g : Gpus F) (first : ℕ) (gpus : List ℕ) (w : ℕ) (frames : FrameData)
    (h : Heap) : Type 0 where
  pub split : SplitData
  pub kept : frames w ≡ some split
  pub alive : split.freed ≡ false
  pub rows : Rows 1920 1080 split.regions
  pub usable : All (λ r. Usable g (Region.gpu_index r)) split.regions
  pub primary : (h w).assigned_gpu ≡ first
  pub count : (h w).assigned_gpu_count ≡ length (first ∷ gpus)
  pub listed :
      (j : ℕ) → j < length (first ∷ gpus) → (h w).assigned_gpus j ≡ get_or (first ∷ gpus) j 0
  pub pieces : length split.regions ≡ length (first ∷ gpus)
  pub dealt : Dealt (first ∷ gpus) 0 split.regions

module _ {F : Type 0} (fl : SplitFloats F) (best : Workload → Option ℕ) (g : Gpus F)
    (dynamic_load_balance : Bool) (frames : FrameData) (h : Heap) (w first : ℕ)
    (gpus : List ℕ) where
  abbrev weights : ℕ → F
  weights i = weight fl best g dynamic_load_balance (get_or (first ∷ gpus) i 0)

  abbrev among : Heap
  among = update h w (with_gpus (first ∷ gpus) (h w))

  among-eq : among w ≡ with_gpus (first ∷ gpus) (h w)
  among-eq = update-eq h w (with_gpus (first ∷ gpus) (h w))

  among-listed :
      (j : ℕ) → j < length (first ∷ gpus) → (among w).assigned_gpus j ≡ get_or (first ∷ gpus) j 0
  among-listed j l = rw among-eq (get_or-default (first ∷ gpus) j _ 0 l)

  -- For a workload without GPUs, where `first` and `gpus` are the GPUs that are available and enabled,
  -- the allocation succeeds, and the shares of all of them but the last fit into the 1080 lines: the
  -- frame of 1920 columns is cut into as many strips of full width from its top to its bottom as there
  -- are such GPUs, the n-th strip for the n-th of them, and the workload has these GPUs in this order,
  -- the first as its primary one.
  pub distribute_sfr-Shared :
      (h w).assigned_gpu_count ≡ 0
      → g.gpu_count ≢ 0
      → usable_from g max_gpus 0 ≡ first ∷ gpus
      → share_sum (share_of fl (suc (length gpus)) (some weights) 1080) (length gpus) 0 ≤ 1080
      → (frames' : FrameData) × (h' : Heap) × (distribute_sfr fl best g dynamic_load_balance true
            frames h w
          ≡ (success, frames', h'))
        × Shared g first gpus w frames' h'
  unfolding distribute_sfr split_among
  distribute_sfr-Shared none_yet some_gpus usable fits =
      let n : ℕ = length gpus in
      let short : n < 16 = omega (arith, usable_from-length g max_gpus 0, ap length usable) in
      let room : suc n ≤ max_regions = omega (arith, short) in
      let rs : List Region =
        strips (horizontal_strip 1920) (share_of fl (suc n) (some weights) 1080) 1080 (suc n)
          (suc n) 0 0 in
      let split = split_frame-horizontal fl 0 1920 1080 n max_regions (some weights) room in
      let rows : Rows 1920 1080 rs =
        horizontal-Rows fl 0 1920 1080 n max_regions (some weights) (omega arith) fits in
      let whole : length rs ≡ suc n =
        length-strips (horizontal_strip 1920) (share_of fl (suc n) (some weights) 1080) 1080 (suc n)
          (suc n) 0 0 in
      let count : (among w).assigned_gpu_count ≡ suc n =
        ap (λ v. Workload.assigned_gpu_count v) among-eq in
      let every : All (Usable g) (usable_from g max_gpus 0) = usable_from-All g max_gpus 0 in
      let all : All (Usable g) (first ∷ gpus) = rw usable at every in
      let gpu : (j : ℕ) → Usable g ((among w).assigned_gpus (j % (among w).assigned_gpu_count)) =
        λ j. rw among-eq (All-get_or (Usable g) (first ∷ gpus) (j % suc n) _ (omega arith) all) in
      let kept : SplitData = record {
        regions = assign_regions (among w) rs 0;
        original_width = 1920;
        original_height = 1080;
        freed = false;
      } in
      let b : Workload = record (among w) { assigned_gpu = first } in
      let no_gpus_yet : ltb 0 (h w).assigned_gpu_count ≡ false = ground (arith, none_yet) in
      let more : (g.gpu_count == 0) ≡ false = ground (arith, some_gpus) in
      (
        update frames w (some kept),
        update among w b,
        rw no_gpus_yet (
            rw more (
              rw usable (
                rw (create_split_data-eq fl frames among w n weights rs count (rw count split))
                  refl))),
        record {
          split = kept;
          kept = update-eq frames w (some kept);
          alive = refl;
          rows = record {
            full = assign_regions-full (among w) rs 0 1920 rows.full;
            adjacent = assign_regions-Adjacent (among w) rs 0 0 1080 rows.adjacent;
          };
          usable = assign_regions-gpus (among w) (Usable g) rs 0 gpu;
          primary = ap (λ v. Workload.assigned_gpu v) (update-eq among w b);
          count = ap (λ v. Workload.assigned_gpu_count v) (update-eq among w b) ∙ count;
          listed =
              λ j l. ap (λ v. Workload.assigned_gpus v j) (update-eq among w b) ∙ among-listed j l;
          pieces = assign_regions-length (among w) rs 0 ∙ whole;
          dealt =
              assign_regions-Dealt (among w) (first ∷ gpus) rs 0 count among-listed
                (omega (arith, whole));
        },
      )
