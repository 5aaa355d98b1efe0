-- ===== src/Execution/Frames/Table.antt =====
-- The frames' ids name one slot each, and a new frame takes the place of no more than one.
use mvgal.Base.{
  ℕ, zero, suc, ◌+◌, ◌%◌, ◌<◌, ◌≡◌, ◌⊎◌, inl, inr, refl, sym, ap, ◌∙◌, true, false, ◌&&◌, Option,
  none, some, List, [], ◌∷◌, length, set, get_elem?, All, leb, ◌==◌, if◌then◌else◌, arith,
  Bool-cases, replicate,
}
use mvgal.Status.{success}
use mvgal.Execution.Frames.{
  Frame, Execution, BeginInfo, Core, max_frames, u64_mod, shifted, find_frame_state, free_slot,
  allocate_frame_state, new_frame, begun, enter, begin_frame, ensure_execution_initialized,
  resolve_context, module_init, no_frame,
}

-- The frame has another id than any frame to come, and than the other frame.
abbrev pub Below : ℕ → Frame → Type 0
Below n f = (f.in_use && leb n f.frame_id) ≡ false

abbrev pub Apart : Frame → Frame → Type 0
Apart f g = (f.in_use && (g.in_use && (g.frame_id == f.frame_id))) ≡ false

abbrev pub AreApart : List Frame → Type 0
AreApart [] = Unit
AreApart (f ∷ fs) = All (Apart f) fs × AreApart fs

-- The table has all its slots, and the ids in use are distinct and were given out.
pub record IsTable (s : Execution) : Type 0 where
  pub size : length s.frames ≡ max_frames
  pub below : All (Below s.next_frame_id) s.frames
  pub apart : AreApart s.frames

abbrev pub without : ℕ → Option (ℕ × Frame) → Option (ℕ × Frame)
without slot none = none
without slot (some (i, f)) = if i == slot then none else some (i, f)

find_none :
    (id : ℕ) (f : Frame) (fs : List Frame)
    → (f.in_use && (f.frame_id == id)) ≡ true
    → All (Apart f) fs
    → find_frame_state id fs ≡ none
unfolding find_frame_state
find_none id f [] e a = refl
find_none id f (g ∷ gs) e a =
    let other : (g.in_use && (g.frame_id == id)) ≡ false = ground (arith, a.0) in
    rw (other, find_none id f gs e a.1) refl

shifted-without :
    (slot : ℕ) (o : Option (ℕ × Frame)) → without (suc slot) (shifted o) ≡ shifted (without slot o)
shifted-without slot none = refl
shifted-without slot (some (i, f)) = ground arith

without-shifted : (o : Option (ℕ × Frame)) → without 0 (shifted o) ≡ shifted o
without-shifted none = refl
without-shifted (some (i, f)) = ground arith

-- Where a new frame is looked up after it was put into a slot.
find-set :
    (id next slot : ℕ) (v : Frame) (fs : List Frame)
    → v.in_use ≡ true
    → v.frame_id ≡ next
    → All (Below next) fs
    → AreApart fs
    → slot < length fs
    → find_frame_state id (set fs slot v)
      ≡ (if id == next then some (slot, v) else without slot (find_frame_state id fs))
unfolding find_frame_state
find-set id next slot v [] u e b a lt = absurd (omega arith)
find-set id next zero v (f ∷ fs) u e b a lt = elim (Bool-cases (id == next)) [
  | inl p ↦ let here : (v.in_use && (v.frame_id == id)) ≡ true = ground arith in rw (here, p) refl
  | inr p ↦
      let there : (v.in_use && (v.frame_id == id)) ≡ false = ground arith in
      rw (there, p)
        (elim (Bool-cases (f.in_use && (f.frame_id == id))) [
          | inl q ↦ rw (q, find_none id f fs q a.0) refl
          | inr q ↦ rw q (sym (without-shifted (find_frame_state id fs)))
        ])
]
find-set id next (suc slot) v (f ∷ fs) u e b a lt =
    elim (Bool-cases (f.in_use && (f.frame_id == id))) [
      | inl q ↦
          let old : (id == next) ≡ false = ground (arith, b.0) in
          let first : (0 == suc slot) ≡ false = ground arith in rw (q, old, first) refl
      | inr q ↦
          rw (q, find-set id next slot v fs u e b.1 a.1 (omega arith))
            (elim (Bool-cases (id == next)) [
              | inl p ↦ rw p refl
              | inr p ↦ rw p (sym (shifted-without slot (find_frame_state id fs)))
            ])
    ]

pub All-set :
    (P : Frame → Type 0) (fs : List Frame) (slot : ℕ) (v : Frame)
    → All P fs
    → P v
    → All P (set fs slot v)
All-set P [] slot v a p = tt
All-set P (f ∷ fs) zero v a p = (p, a.1)
All-set P (f ∷ fs) (suc slot) v a p = (a.0, All-set P fs slot v a.1 p)

Below-Apart : (v : Frame) (fs : List Frame) → All (Below v.frame_id) fs → All (Apart v) fs
Below-Apart v [] b = tt
Below-Apart v (f ∷ fs) b = (ground (arith, b.0), Below-Apart v fs b.1)

AreApart-set :
    (fs : List Frame) (slot : ℕ) (v : Frame)
    → All (Below v.frame_id) fs
    → AreApart fs
    → AreApart (set fs slot v)
AreApart-set [] slot v b a = tt
AreApart-set (f ∷ fs) zero v b a = (Below-Apart v fs b.1, a.1)
AreApart-set (f ∷ fs) (suc slot) v b a =
    (All-set (Apart f) fs slot v a.0 (ground (arith, b.0)), AreApart-set fs slot v b.1 a.1)

Below-suc : (n : ℕ) (fs : List Frame) → All (Below n) fs → All (Below (n + 1)) fs
Below-suc n [] b = tt
Below-suc n (f ∷ fs) b = (ground (arith, b.0), Below-suc n fs b.1)

-- A frame that nobody waits for any more.
abbrev pub IsBusy : Frame → Type 0
IsBusy f = (f.in_use && f.active) ≡ true

-- The slot of a frame that is not in use or not active, or the given one where there is none.
abbrev pub Chosen : List Frame → ℕ → ℕ → Type 0
Chosen fs slot replacement =
    (All IsBusy fs × (slot ≡ replacement))
    ⊎ ((i : ℕ) × (f : Frame) × (get_elem? fs i ≡ some f)
        × ((f.in_use && f.active) ≡ false)
        × (slot ≡ i))

free_slot-Chosen :
    (fs : List Frame) (i replacement : ℕ)
    → (All IsBusy fs × (free_slot fs i replacement ≡ replacement))
      ⊎ ((j : ℕ) × (f : Frame) × (get_elem? fs j ≡ some f)
          × ((f.in_use && f.active) ≡ false)
          × (free_slot fs i replacement ≡ i + j))
unfolding free_slot
free_slot-Chosen [] i r = inl (tt, refl)
free_slot-Chosen (f ∷ fs) i r = elim (Bool-cases f.in_use) [
  | inr unused ↦ inr (0, f, refl, ground arith, rw unused (omega arith))
  | inl used ↦ elim (Bool-cases f.active) [
    | inr idle ↦ elim (free_slot-Chosen fs (suc i) i) [
      | inl (all, e) ↦ inr (0, f, refl, ground arith, rw (used, idle) (omega (arith, e)))
      | inr (j, g, at, q, e) ↦ inr (suc j, g, at, q, rw (used, idle) (omega (arith, e)))
    ]
    | inl busy ↦ elim (free_slot-Chosen fs (suc i) r) [
      | inl (all, e) ↦ inl ((ground arith, all), rw (used, busy) e)
      | inr (j, g, at, q, e) ↦ inr (suc j, g, at, q, rw (used, busy) (omega (arith, e)))
    ]
  ]
]

get_elem?-lt : (fs : List Frame) (i : ℕ) (f : Frame) → get_elem? fs i ≡ some f → i < length fs
get_elem?-lt [] i f e = absurd (cc)
get_elem?-lt (g ∷ fs) zero f e = omega arith
get_elem?-lt (g ∷ fs) (suc i) f e = omega (arith, get_elem?-lt fs i f e)

pub length-set : (fs : List Frame) (i : ℕ) (v : Frame) → length (set fs i v) ≡ length fs
length-set [] i v = refl
length-set (f ∷ fs) zero v = refl
length-set (f ∷ fs) (suc i) v = ap suc (length-set fs i v)

allocate_frame_state-Chosen : (fs : List Frame) → Chosen fs (allocate_frame_state fs) 0
unfolding allocate_frame_state
allocate_frame_state-Chosen fs = elim (free_slot-Chosen fs 0 0) [
  | inl (all, e) ↦ inl (all, e)
  | inr (j, f, at, idle, e) ↦ inr (j, f, at, idle, omega (arith, e))
]

Chosen-lt : (fs : List Frame) (slot : ℕ) → 0 < length fs → Chosen fs slot 0 → slot < length fs
Chosen-lt fs slot h (inl (all, e)) = omega (arith, e)
Chosen-lt fs slot h (inr (j, f, at, idle, e)) = omega (arith, e, get_elem?-lt fs j f at)

-- The new frame stands in a slot that was not in use, or whose frame is not active, unless all frames are
-- active; its id finds it, each other id finds what it found before, but for the frame that stood in
-- the slot, and the table stays well-formed.
pub record Begun (s : Execution) (v : Frame) (s' : Execution) : Type 0 where
  pub slot : ℕ
  pub chosen : Chosen s.frames slot 0
  pub lookups :
      (id : ℕ)
      → find_frame_state id s'.frames
        ≡ (if id == v.frame_id then some (slot, v) else without slot (find_frame_state id s.frames))
  pub table : IsTable s'

begun-Begun :
    (core : Core) (now context : ℕ) (info : BeginInfo) (s : Execution)
    → IsTable s
    → s.next_frame_id + 1 < u64_mod
    → Begun s (new_frame core now s.next_frame_id context info) (begun core now context info s)
begun-Begun core now context info s t short =
    let v : Frame = new_frame core now s.next_frame_id context info in
    let chosen : Chosen s.frames (allocate_frame_state s.frames) 0 =
      allocate_frame_state-Chosen s.frames in
    let lt : allocate_frame_state s.frames < length s.frames =
      Chosen-lt s.frames _ (omega (arith, t.size)) chosen in
    let next : (s.next_frame_id + 1) % u64_mod ≡ s.next_frame_id + 1 = omega arith in
    record {
      slot = allocate_frame_state s.frames;
      chosen = chosen;
      lookups = λ id.
          find-set id s.next_frame_id (allocate_frame_state s.frames) v s.frames refl refl t.below
            t.apart lt;
      table = record {
        size = length-set s.frames (allocate_frame_state s.frames) v ∙ t.size;
        below = rw next (
            All-set (Below (s.next_frame_id + 1)) s.frames (allocate_frame_state s.frames) v
              (Below-suc s.next_frame_id s.frames t.below) (ground arith));
        apart = AreApart-set s.frames (allocate_frame_state s.frames) v t.below t.apart;
      };
    }

pub enter-success :
    (core : Core) (context : ℕ) (s : Execution)
    → core.is_initialized ≡ true
    → s.initialized ≡ true
    → enter core (some context) s ≡ (success, some context, s)
unfolding enter ensure_execution_initialized resolve_context
enter-success core context s e f = rw (e, f) refl

-- On an initialized engine and a well-formed table, while ids are left, mvgal_execution_begin_frame
-- succeeds with the next id, and the frame it names has begun: it stands in a slot that was not in use or
-- whose frame was no longer active, unless all frames are active, when it takes the first slot; its
-- id finds it, every other id finds what it found before, but for the frame that stood in the slot, and
-- the table stays well-formed.
pub begin_frame-Begun :
    (core : Core) (now context : ℕ) (info : BeginInfo) (s : Execution)
    → core.is_initialized ≡ true
    → s.initialized ≡ true
    → IsTable s
    → s.next_frame_id + 1 < u64_mod
    → let (st, id, s') = begin_frame core now (some context) (some info) s in
      (st ≡ success)
      × (id ≡ some s.next_frame_id)
      × Begun s (new_frame core now s.next_frame_id context info) s'
unfolding begin_frame
begin_frame-Begun core now context info s e f t short =
    rw (enter-success core context s e f) (refl, refl, begun-Begun core now context info s t short)

empty-AreApart : (n : ℕ) → AreApart (replicate n no_frame)
empty-AreApart zero = tt
empty-AreApart (suc n) = (unused-Apart n, empty-AreApart n)
  where
    unused-Apart : (n : ℕ) → All (Apart no_frame) (replicate n no_frame)
    unused-Apart zero = tt
    unused-Apart (suc n) = (refl, unused-Apart n)

empty-Below : (n : ℕ) → All (Below 1) (replicate n no_frame)
empty-Below zero = tt
empty-Below (suc n) = (refl, empty-Below n)

-- The table that mvgal_execution_module_init makes is well-formed.
pub module_init-IsTable : (s : Execution) → s.initialized ≡ false → IsTable (module_init s).1
unfolding module_init
module_init-IsTable s e =
    rw e (record { size = refl; below = empty-Below max_frames; apart = empty-AreApart max_frames })
