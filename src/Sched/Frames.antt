-- ===== src/Sched/Frames.antt =====
-- Split frame rendering, src/userspace/scheduler/strategy/sfr.c: the split of a frame.
pub mod Strips
pub mod Distribute
pub mod Sharing
use mvgal.Base.{
  ℕ, zero, suc, ◌+◌, ◌-◌, ◌*◌, ◌/◌, ◌%◌, ◌^◌, Bool, true, false, not, ◌&&◌, ◌||◌, Option, none,
  some, List, [], ◌∷◌, ◌++◌, ltb, leb, ◌==◌, if◌then◌else◌, update, length, get_or,
}
use mvgal.Status.{Status, success, invalid_argument, out_of_memory}
use mvgal.Sched.Types.{Workload, Heap, u32_mod}
use mvgal.Sched.Gpus.{Floats, Gpu, Gpus, max_gpus, assign_best, best_status}

-- sfr_mode_t
pub data SfrMode : Type 0 where
  horizontal vertical grid checkerboard : SfrMode

-- sfr_region_t
pub record Region : Type 0 where
  pub x : ℕ
  pub y : ℕ
  pub width : ℕ
  pub height : ℕ
  pub gpu_index : ℕ

-- `a - b` on uint32_t.
abbrev pub sub_u32 : ℕ → ℕ → ℕ
sub_u32 a b = (a + u32_mod - b) % u32_mod

abbrev pub min : ℕ → ℕ → ℕ
min a b = if ltb b a then b else a

-- The operations of `float` that a split needs besides those of the scores.
pub record SplitFloats (F : Type 0) : Type 0 where
  pub base : Floats F
  pub div : F → F → F
  pub le : F → F → Bool
  pub lt : F → F → Bool
  pub sqrt : F → F
  pub ceil : F → F
  pub to_u32 : F → ℕ

-- The loop of one direction: `left` strips to go from number `i` on, which starts at `current`; the
-- last of the `count` strips takes what is left of `extent`.
unfoldable pub strips : (ℕ → ℕ → ℕ → Region) → (ℕ → ℕ) → ℕ → ℕ → ℕ → ℕ → ℕ → List Region
strips region share extent count zero i current = []
strips region share extent count (suc left) i current =
    let size : ℕ = if i == count - 1 then sub_u32 extent current else share i in
    region i current size
    ∷ strips region share extent count left (i + 1) ((current + size) % u32_mod)

abbrev pub horizontal_strip : ℕ → ℕ → ℕ → ℕ → Region
horizontal_strip width i y height = record {
  x = 0;
  y = y;
  width = width;
  height = height;
  gpu_index = i;
}

abbrev pub vertical_strip : ℕ → ℕ → ℕ → ℕ → Region
vertical_strip height i x width = record {
  x = x;
  y = 0;
  width = width;
  height = height;
  gpu_index = i;
}

-- A row of the grid mode, `left` columns from `c` on, with room for `room` regions.
unfoldable pub grid_row : (ℕ → ℕ) → ℕ → ℕ → ℕ → ℕ → ℕ → ℕ → ℕ → ℕ → ℕ → ℕ → List Region
grid_row share width count cols y row_height r zero c current_x room = []
grid_row share width count cols y row_height r (suc left) c current_x zero = []
grid_row share width count cols y row_height r (suc left) c current_x (suc room) =
    let i : ℕ = r * cols + c in
    let size : ℕ =
      if (c == cols - 1) || (i == count - 1) then sub_u32 width current_x else share i in
    let rest : List Region =
      grid_row share width count cols y row_height r left (c + 1) ((current_x + size) % u32_mod)
        room in
    if leb count i
    then []
    else record { x = current_x; y = y; width = size; height = row_height; gpu_index = i } ∷ rest

-- The rows of the grid mode, `left` from `r` on.
unfoldable pub grid_rows : (ℕ → ℕ) → ℕ → ℕ → ℕ → ℕ → ℕ → ℕ → ℕ → ℕ → ℕ → List Region
unfolding grid_row
grid_rows share width height count rows cols zero r current_y room = []
grid_rows share width height count rows cols (suc left) r current_y room =
    let row_height : ℕ = height / rows in
    let this_height : ℕ = if r == rows - 1 then sub_u32 height current_y else row_height in
    let row : List Region = grid_row share width count cols current_y this_height r cols 0 0 room in
    row
    ++ grid_rows share width height count rows cols left (r + 1)
        ((current_y + row_height) % u32_mod) (room - length row)

-- One line of the checkerboard mode, from `x` on, with the GPU that is next, on fuel: the regions and
-- the GPU after them. The room is the fuel.
unfoldable pub board_row : ℕ → ℕ → ℕ → ℕ → ℕ → ℕ → ℕ → ℕ → List Region × ℕ
board_row width cell_width y height count zero x gpu = ([], gpu)
board_row width cell_width y height count (suc room) x gpu =
    let rest : List Region × ℕ =
      board_row width cell_width y height count room ((x + cell_width) % u32_mod)
        ((gpu + 1) % count) in
    if ltb x width
    then (
      record {
        x = x;
        y = y;
        width = if ltb width ((x + cell_width) % u32_mod) then width - x else cell_width;
        height = height;
        gpu_index = gpu;
      }
          ∷ rest.0,
      rest.1,
    )
    else ([], gpu)

-- The lines of the checkerboard mode, from `y` on, on fuel; `none` means that the fuel ran out.
unfoldable pub board_rows : ℕ → ℕ → ℕ → ℕ → ℕ → ℕ → ℕ → Option (List Region)
unfolding board_row
board_rows zero width height count y gpu room = none
board_rows (suc fuel) width height count y gpu room =
    let cell : ℕ = height / 2 in
    let size : ℕ = if ltb height ((y + cell) % u32_mod) then height - y else cell in
    let row : List Region × ℕ = board_row width (width / 2) y size count room 0 gpu in
    let rest : Option (List Region) =
      board_rows fuel width height count ((y + cell) % u32_mod) ((row.1 + 1) % count)
        (room - length row.0) in
    if ltb y height && ltb 0 room then prepend row.0 rest else some []
  where
    prepend : List Region → Option (List Region) → Option (List Region)
    prepend row none = none
    prepend row (some rs) = some (row ++ rs)

module _ {F : Type 0} (fl : SplitFloats F) where
  -- The sum of the weights from `i` on, with `n` to go.
  abbrev pub add_weights : (ℕ → F) → ℕ → ℕ → F → F
  add_weights weights zero i total = total
  add_weights weights (suc n) i total =
      add_weights weights n (i + 1) (fl.base.add total (weights i))

  abbrev pub total_weight : ℕ → Option (ℕ → F) → F
  total_weight count none = fl.base.of_u32 count
  total_weight count (some weights) = add_weights weights count 0 (fl.base.lit 0 1)

  -- The divisor of the weights.
  abbrev pub divisor : ℕ → Option (ℕ → F) → F
  divisor count weights =
      if fl.le (total_weight count weights) (fl.base.lit 0 1)
      then fl.base.lit 1 1
      else total_weight count weights

  abbrev pub weight_of : ℕ → Option (ℕ → F) → ℕ → F
  weight_of count none i = fl.div (fl.base.lit 1 1) (fl.base.of_u32 count)
  weight_of count (some weights) i = fl.div (weights i) (divisor count (some weights))

  -- The share of GPU `i` in `extent`, rounded down.
  abbrev pub share_of : ℕ → Option (ℕ → F) → ℕ → ℕ → ℕ
  share_of count weights extent i =
      fl.to_u32 (fl.base.mul (fl.base.of_u32 extent) (weight_of count weights i))

  -- The number of rows of the grid mode.
  abbrev pub grid_rows_of : ℕ → ℕ
  grid_rows_of count = fl.to_u32 (fl.ceil (fl.sqrt (fl.base.of_u32 count)))

  -- The width of a cell of the grid mode, before the last of its row.
  abbrev pub grid_share : ℕ → Option (ℕ → F) → ℕ → ℕ → ℕ → ℕ
  grid_share count weights rows width i = fl.to_u32 (
      fl.base.mul (fl.base.of_u32 width)
        (fl.base.mul (weight_of count weights i) (fl.base.of_u32 rows)))

  -- The switch of sfr_split_frame.
  unfoldable pub split_mode : ℕ → ℕ → ℕ → ℕ → Option (ℕ → F) → SfrMode → ℕ → Option (List Region)
  unfolding strips grid_rows board_rows
  split_mode fuel width height count weights horizontal max_regions = some (
      strips (horizontal_strip width) (share_of count weights height) height count
        (min count max_regions) 0 0)
  split_mode fuel width height count weights vertical max_regions = some (
      strips (vertical_strip height) (share_of count weights width) width count
        (min count max_regions) 0 0)
  split_mode fuel width height count weights grid max_regions =
      let rows : ℕ = grid_rows_of count in
      let cols : ℕ = (count + rows - 1) / rows in
      some (
        grid_rows (grid_share count weights rows width) width height count rows cols rows 0 0
          max_regions)
  split_mode fuel width height count weights checkerboard max_regions =
      board_rows fuel width height count 0 0 max_regions

  -- sfr_split_frame, with an array for the regions; the outer `none` means that the fuel of the
  -- checkerboard ran out.
  unfoldable pub split_frame : ℕ → ℕ → ℕ → ℕ → Option (ℕ → F) → SfrMode → ℕ → Option (List Region)
  unfolding split_mode
  split_frame fuel width height count weights mode max_regions =
      if (count == 0) || (max_regions == 0)
      then some []
      else split_mode fuel width height count weights mode max_regions
