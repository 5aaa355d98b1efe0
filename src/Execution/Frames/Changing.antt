-- ===== src/Execution/Frames/Changing.antt =====
-- A change of a frame in its place, which keeps its id.
use mathlib.Core.Path.{subst}
use mvgal.Base.{
  ℕ, zero, suc, ◌≡◌, ◌≢◌, inl, inr, refl, sym, ap, ◌∙◌, false, ◌&&◌, Option, none, some, List, [],
  ◌∷◌, set, get_elem?, All, length, ◌==◌, if◌then◌else◌, arith, Bool-cases,
}
use mvgal.Execution.Frames.{Frame, Execution, shifted, find_frame_state}
use mvgal.Execution.Frames.Table.{IsTable, AreApart, Apart, Below, All-set, length-set}

shifted-zero : (o : Option (ℕ × Frame)) (f : Frame) → shifted o ≢ some (0, f)
shifted-zero none f e = absurd (cc)
shifted-zero (some (i, g)) f e = absurd (cc)

shifted-suc :
    (o : Option (ℕ × Frame)) (i : ℕ) (f : Frame) → shifted o ≡ some (suc i, f) → o ≡ some (i, f)
shifted-suc none i f e = absurd (cc)
shifted-suc (some (j, g)) i f e = cc

abbrev found : ℕ → Frame → Option (ℕ × Frame)
found i f = some (i, f)

found-differ : (i : ℕ) (f g : Frame) → found 0 f ≢ found (suc i) g
found-differ i f g e = absurd (cc)

found-frame : (f g : Frame) → found 0 f ≡ found 0 g → f ≡ g
found-frame f g e = cc

-- A frame that is changed in its place is found there, as long as it keeps its id.
pub find-change :
    (id other i : ℕ) (f g : Frame) (fs : List Frame)
    → find_frame_state id fs ≡ some (i, f)
    → g.in_use ≡ f.in_use
    → g.frame_id ≡ f.frame_id
    → find_frame_state other (set fs i g)
      ≡ (if other == id then some (i, g) else find_frame_state other fs)
unfolding find_frame_state
find-change id other i f g [] e u k = absurd (cc)
find-change id other zero f g (v ∷ fs) e u k = elim (Bool-cases (v.in_use && (v.frame_id == id))) [
  | inl p ↦
      let same : v ≡ f = found-frame v f (rw p at e) in
      let used : g.in_use ≡ v.in_use = u ∙ ap (λ (x : Frame). x.in_use) (sym same) in
      let named : g.frame_id ≡ v.frame_id = k ∙ ap (λ (x : Frame). x.frame_id) (sym same) in
      ground (arith, used, named, p)
  | inr p ↦ absurd (shifted-zero (find_frame_state id fs) f (rw p at e))
]
find-change id other (suc i) f g (v ∷ fs) e u k =
    elim (Bool-cases (v.in_use && (v.frame_id == id))) [
      | inl p ↦ absurd (found-differ i v f (rw p at e))
      | inr p ↦
          let ih : find_frame_state other (set fs i g)
              ≡ (if other == id then some (i, g) else find_frame_state other fs) =
            find-change id other i f g fs (shifted-suc (find_frame_state id fs) i f (rw p at e)) u
              k in
          elim (Bool-cases (v.in_use && (v.frame_id == other))) [
            | inl q ↦ let d : (other == id) ≡ false = ground (arith, p, q) in rw (q, d) refl
            | inr q ↦
                rw (q, ih)
                  (elim (Bool-cases (other == id)) [ inl r ↦ rw r refl | inr r ↦ rw r refl ])
          ]
    ]

find-get_elem? :
    (id i : ℕ) (f : Frame) (fs : List Frame)
    → find_frame_state id fs ≡ some (i, f)
    → get_elem? fs i ≡ some f
unfolding find_frame_state
find-get_elem? id i f [] e = absurd (cc)
find-get_elem? id zero f (v ∷ fs) e = elim (Bool-cases (v.in_use && (v.frame_id == id))) [
  | inl p ↦ ap some (found-frame v f (rw p at e))
  | inr p ↦ absurd (shifted-zero (find_frame_state id fs) f (rw p at e))
]
find-get_elem? id (suc i) f (v ∷ fs) e = elim (Bool-cases (v.in_use && (v.frame_id == id))) [
  | inl p ↦ absurd (found-differ i v f (rw p at e))
  | inr p ↦ find-get_elem? id i f fs (shifted-suc (find_frame_state id fs) i f (rw p at e))
]

All-get_elem? :
    (P : Frame → Type 0) (fs : List Frame) (i : ℕ) (f : Frame)
    → All P fs
    → get_elem? fs i ≡ some f
    → P f
All-get_elem? P [] i f a e = absurd (cc)
All-get_elem? P (v ∷ fs) zero f a e = let same : v ≡ f = cc in subst P same a.0
All-get_elem? P (v ∷ fs) (suc i) f a e = All-get_elem? P fs i f a.1 e

Apart-left :
    (v g : Frame) (fs : List Frame)
    → g.in_use ≡ v.in_use
    → g.frame_id ≡ v.frame_id
    → All (Apart v) fs
    → All (Apart g) fs
Apart-left v g [] u k a = tt
Apart-left v g (x ∷ fs) u k a = (ground (arith, a.0), Apart-left v g fs u k a.1)

AreApart-change :
    (i : ℕ) (f g : Frame) (fs : List Frame)
    → get_elem? fs i ≡ some f
    → g.in_use ≡ f.in_use
    → g.frame_id ≡ f.frame_id
    → AreApart fs
    → AreApart (set fs i g)
AreApart-change i f g [] e u k a = tt
AreApart-change zero f g (v ∷ fs) e u k a =
    let same : v ≡ f = cc in
    (
      Apart-left v g fs (u ∙ ap (λ (x : Frame). x.in_use) (sym same))
          (k ∙ ap (λ (x : Frame). x.frame_id) (sym same)) a.0,
      a.1,
    )
AreApart-change (suc i) f g (v ∷ fs) e u k a =
    let old : Apart v f = All-get_elem? (Apart v) fs i f a.0 e in
    let new : Apart v g = rw (u, k) old in
    (All-set (Apart v) fs i g a.0 new, AreApart-change i f g fs e u k a.1)

-- A table with a frame that was changed in its place.
pub change-IsTable :
    (s s' : Execution) (id i : ℕ) (f g : Frame)
    → find_frame_state id s.frames ≡ some (i, f)
    → g.in_use ≡ f.in_use
    → g.frame_id ≡ f.frame_id
    → s'.frames ≡ set s.frames i g
    → s'.next_frame_id ≡ s.next_frame_id
    → IsTable s
    → IsTable s'
change-IsTable s s' id i f g e u k fe ne t =
    let at : get_elem? s.frames i ≡ some f = find-get_elem? id i f s.frames e in
    let old : Below s.next_frame_id f =
      All-get_elem? (Below s.next_frame_id) s.frames i f t.below at in
    let new : Below s.next_frame_id g = rw (u, k) old in
    record {
      size = ap length fe ∙ length-set s.frames i g ∙ t.size;
      below = rw (fe, ne) (All-set (Below s.next_frame_id) s.frames i g t.below new);
      apart = rw fe (AreApart-change i f g s.frames at u k t.apart);
    }
