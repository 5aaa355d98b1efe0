-- ===== src/Sched/Frames/Strips.antt =====
-- The strips of sfr_split_frame lie side by side.
use mvgal.Base.{
  ℕ, zero, suc, ◌+◌, ◌-◌, ◌%◌, ◌≤◌, ◌<◌, ◌≡◌, refl, ◌||◌, true, false, Option, some, List, [], ◌∷◌,
  arith, All, ◌==◌, length, ap, if◌then◌else◌,
}
use mvgal.Sched.Types.{u32_mod}
use mvgal.Sched.Frames.{
  horizontal, vertical, Region, SplitFloats, strips, horizontal_strip, vertical_strip, sub_u32,
  share_of, split_mode, split_frame, min,
}

-- The regions follow each other from `start` to `end` along one axis, of which `pos` and `size` give a
-- region's place and length.
abbrev pub Adjacent : (Region → ℕ) → (Region → ℕ) → ℕ → ℕ → List Region → Type 0
Adjacent pos size start end [] = start ≡ end
Adjacent pos size start end (r ∷ rs) = (pos r ≡ start) × Adjacent pos size (start + size r) end rs

-- The sum of the shares from number `i` on, with `n` to go.
abbrev pub share_sum : (ℕ → ℕ) → ℕ → ℕ → ℕ
share_sum share zero i = 0
share_sum share (suc n) i = share i + share_sum share n (i + 1)

module _ (region : ℕ → ℕ → ℕ → Region) (pos size : Region → ℕ)
    (pos-eq : (i p n : ℕ) → pos (region i p n) ≡ p)
    (size-eq : (i p n : ℕ) → size (region i p n) ≡ n) (share : ℕ → ℕ) (extent count : ℕ)
    (word : extent < u32_mod) where
  strips-Adjacent :
      (left i current : ℕ)
      → i + suc left ≡ count
      → current + share_sum share left i ≤ extent
      → Adjacent pos size current extent (strips region share extent count (suc left) i current)
  unfolding strips
  strips-Adjacent zero i current e fits =
      let last : (i == count - 1) ≡ true = ground arith in
      let left_over : sub_u32 extent current ≡ extent - current = omega arith in
      rw last (
        rw left_over (
          pos-eq i current (extent - current),
          rw (size-eq i current (extent - current)) (omega arith),
        ))
  strips-Adjacent (suc left) i current e fits =
      let more : (i == count - 1) ≡ false = ground arith in
      let room : (current + share i) % u32_mod ≡ current + share i = omega arith in
      rw more (
        rw room (
          pos-eq i current (share i),
          rw (size-eq i current (share i))
              (strips-Adjacent left (i + 1) (current + share i) (omega arith) (omega arith)),
        ))

-- Strips of full width from the top to the bottom, and strips of full height from the left to the
-- right.
pub record Rows (width height : ℕ) (rs : List Region) : Type 0 where
  pub full : All (λ r. (r.x ≡ 0) × (r.width ≡ width)) rs
  pub adjacent : Adjacent (λ r. r.y) (λ r. r.height) 0 height rs

pub record Columns (width height : ℕ) (rs : List Region) : Type 0 where
  pub full : All (λ r. (r.y ≡ 0) × (r.height ≡ height)) rs
  pub adjacent : Adjacent (λ r. r.x) (λ r. r.width) 0 width rs

strips-All :
    (P : Region → Type 0) (region : ℕ → ℕ → ℕ → Region) (share : ℕ → ℕ) (extent count : ℕ)
    → ((i p n : ℕ) → P (region i p n))
    → (left i current : ℕ) → All P (strips region share extent count left i current)
unfolding strips
strips-All P region share extent count p zero i current = tt
strips-All P region share extent count p (suc left) i current =
    (p i current _, strips-All P region share extent count p left (i + 1) _)

pub length-strips :
    (region : ℕ → ℕ → ℕ → Region) (share : ℕ → ℕ) (extent count left i current : ℕ)
    → length (strips region share extent count left i current) ≡ left
unfolding strips
length-strips region share extent count zero i current = refl
length-strips region share extent count (suc left) i current =
    let size : ℕ = if i == count - 1 then sub_u32 extent current else share i in
    ap suc (length-strips region share extent count left (i + 1) ((current + size) % u32_mod))

module _ {F : Type 0} (fl : SplitFloats F) (fuel width height n max_regions : ℕ)
    (weights : Option (ℕ → F)) where
  abbrev count : ℕ
  count = suc n

  nonempty : count ≤ max_regions → ((count == 0) || (max_regions == 0)) ≡ false
  nonempty room = ground arith

  all_fit : count ≤ max_regions → min count max_regions ≡ count
  all_fit room = ground arith

  pub split_frame-horizontal :
      count ≤ max_regions
      → split_frame fl fuel width height count weights horizontal max_regions
        ≡ some (
            strips
              (horizontal_strip width)
              (share_of fl count weights height)
              height
              count
              count
              0
              0)
  unfolding split_frame split_mode
  split_frame-horizontal room = rw (nonempty room) (rw (all_fit room) refl)

  pub horizontal-Rows :
      height < u32_mod
      → share_sum (share_of fl count weights height) n 0 ≤ height
      → Rows width height (
          strips (horizontal_strip width) (share_of fl count weights height) height count count 0 0)
  horizontal-Rows high fits_h =
      let down : ℕ → ℕ = share_of fl count weights height in
      record {
        full =
            strips-All (λ r. (r.x ≡ 0) × (r.width ≡ width)) (horizontal_strip width) down height
              count (λ i p n. (refl, refl)) count 0 0;
        adjacent =
            strips-Adjacent (horizontal_strip width) (λ r. r.y) (λ r. r.height) (λ i p n. refl)
              (λ i p n. refl) down height count high n 0 0 (omega arith) (omega (arith, fits_h));
      }

  -- If the shares of all GPUs but the last fit into the frame, whose sides are below 2^32, and the
  -- array has room for a region for each of the `n` + 1 GPUs: the horizontal mode cuts the frame into
  -- strips of full width that follow each other from its top to its bottom, and the vertical mode
  -- into strips of full height that follow each other from its left to its right.
  pub split_frame-Rows :
      count ≤ max_regions
      → width < u32_mod
      → height < u32_mod
      → share_sum (share_of fl count weights width) n 0 ≤ width
      → share_sum (share_of fl count weights height) n 0 ≤ height
      → ((rs : List Region) × (split_frame fl fuel width height count weights horizontal max_regions
            ≡ some rs)
          × Rows width height rs)
        × ((rs : List Region) × (split_frame fl fuel width height count weights vertical max_regions
              ≡ some rs)
            × Columns width height rs)
  unfolding split_frame split_mode
  split_frame-Rows room wide high fits_w fits_h =
      let across : ℕ → ℕ = share_of fl count weights width in
      let down : ℕ → ℕ = share_of fl count weights height in
      (
        (
          strips (horizontal_strip width) down height count count 0 0,
          split_frame-horizontal room,
          horizontal-Rows high fits_h,
        ),
        (
          strips (vertical_strip height) across width count count 0 0,
          rw (nonempty room) (rw (all_fit room) refl),
          record {
            full =
                strips-All (λ r. (r.y ≡ 0) × (r.height ≡ height)) (vertical_strip height) across
                  width count (λ i p n. (refl, refl)) count 0 0;
            adjacent =
                strips-Adjacent (vertical_strip height) (λ r. r.x) (λ r. r.width) (λ i p n. refl)
                  (λ i p n. refl) across width count wide n 0 0 (omega arith)
                  (omega (arith, fits_w));
          },
        ),
      )
