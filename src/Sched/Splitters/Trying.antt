-- ===== src/Sched/Splitters/Trying.antt =====
-- The splitters are tried in the order of their slots until one succeeds.
use mvgal.Base.{
  ℕ, zero, suc, ◌+◌, ◌<◌, ◌≤◌, ◌≡◌, ◌≢◌, refl, sym, ap, ◌∙◌, Bool, true, false, Option, none, some,
  List, [], ◌∷◌, length, leb, if◌then◌else◌, arith, get_elem?, drop,
}
use mvgal.Status.{Status, success, invalid_argument, scheduler_error, not_supported}
use mvgal.Sched.Splitters.{
  Splitter, Slot, Run, max_splitters, call, answered, or_next, round, apply_custom_splitter,
  apply_from, apply_all_custom_splitters,
}
use mvgal.Sched.Splitters.Registered.{registered}

-- The callbacks are called in turn until one succeeds.
pub data Tries {P : Type 0} (run : Run P) (workload part_count : ℕ)
    : List Splitter → P → Status → P → Type 0 where
  nobody : (p : P) → Tries run workload part_count [] p not_supported p
  succeeds :
      (x : Splitter) (xs : List Splitter) (p q : P)
      → call run workload part_count x.split x.user_data p ≡ (success, q)
      → Tries run workload part_count (x ∷ xs) p success q
  fails :
      (x : Splitter) (xs : List Splitter) (p q : P) (r : Status) (p' : P) (err : Status)
      → call run workload part_count x.split x.user_data p ≡ (err, q)
      → err ≢ success
      → Tries run workload part_count xs q r p'
      → Tries run workload part_count (x ∷ xs) p r p'

at-drop :
    (t : List Slot) (i : ℕ)
    → i < length t
    → (v : Slot) × (get_elem? t i ≡ some v) × (drop i t ≡ v ∷ drop (suc i) t)
at-drop [] i l = absurd (omega arith)
at-drop (v ∷ vs) zero l = (v, refl, refl)
at-drop (v ∷ vs) (suc i) l = at-drop vs i (omega arith)

drop-length : (t : List Slot) → drop (length t) t ≡ []
drop-length [] = refl
drop-length (v ∷ vs) = drop-length vs

module _ {P : Type 0} (run : Run P) (workload part_count : ℕ) where
  -- The tries from a result and a state on.
  abbrev Tried : List Splitter → P → Status × P → Type 0
  Tried xs p r = Tries run workload part_count xs p r.0 r.1

  answered-Tried :
      (x : Splitter) (xs : List Splitter) (p : P) (next : P → Status × P) (r : Bool × P)
      → call run workload part_count x.split x.user_data p ≡ answered run workload part_count r
      → ((q : P) → Tried xs q (next q))
      → Tried (x ∷ xs) p (or_next run workload part_count (answered run workload part_count r) next)
  answered-Tried x xs p next (true, q) e h = succeeds x xs p q e
  answered-Tried x xs p next (false, q) e h =
      fails x xs p q (next q).0 (next q).1 scheduler_error e (λ d. absurd (cc)) (h q)

  call-Tried :
      (analyze split merge : Option ℕ) (user_data : ℕ) (xs : List Splitter) (p : P)
      (next : P → Status × P)
      → ((q : P) → Tried xs q (next q))
      → Tried
          (record { analyze = analyze; split = split; merge = merge; user_data = user_data } ∷ xs)
          p
          (or_next run workload part_count (call run workload part_count split user_data p) next)
  call-Tried analyze none merge user_data xs p next h =
      fails _ xs p p (next p).0 (next p).1 invalid_argument refl (λ d. absurd (cc)) (h p)
  call-Tried analyze (some f) merge user_data xs p next h =
      answered-Tried _ xs p next (run f workload part_count p user_data) refl h

  apply-used :
      (t : List Slot) (i : ℕ) (v : Slot) (p : P)
      → i < max_splitters
      → get_elem? t i ≡ some v
      → v.used ≡ true
      → apply_custom_splitter run workload part_count t i p
        ≡ call run workload part_count v.splitter.split v.splitter.user_data p
  unfolding apply_custom_splitter
  apply-used t i v p l e on =
      let in_table : leb max_splitters i ≡ false = ground arith in rw (in_table, e, on) refl

  slot-Tried :
      (t : List Slot) (n i : ℕ) (p : P) (x : Splitter) (u : Bool)
      → i < max_splitters
      → get_elem? t i ≡ some (record { splitter = x; used = u })
      → ((q : P)
          → Tried
              (registered (drop (suc i) t))
              q
              (apply_from run workload part_count t n (suc i) q))
      → Tried (registered (record { splitter = x; used = u } ∷ drop (suc i) t)) p (
          if u
          then or_next run workload part_count
              (apply_custom_splitter run workload part_count t i p)
              (λ q. apply_from run workload part_count t n (suc i) q)
          else apply_from run workload part_count t n (suc i) p)
  slot-Tried t n i p x true l at h =
      rw (apply-used t i (record { splitter = x; used = true }) p l at refl)
        (call-Tried x.analyze x.split x.merge x.user_data (registered (drop (suc i) t)) p _ h)
  slot-Tried t n i p x false l at h = h p

  apply_from-suc :
      (t : List Slot) (n i : ℕ) (p : P) (v : Slot)
      → get_elem? t i ≡ some v
      → apply_from run workload part_count t (suc n) i p
        ≡ round run workload part_count
            (some v)
            (apply_custom_splitter run workload part_count t i p)
            (λ q. apply_from run workload part_count t n (suc i) q)
            p
  unfolding apply_from
  apply_from-suc t n i p v at =
      ap
        (λ (o : Option Slot).
          round run workload part_count o (apply_custom_splitter run workload part_count t i p)
            (λ q. apply_from run workload part_count t n (suc i) q) p)
        at

  apply_from-end :
      (t : List Slot) (i : ℕ) (p : P)
      → length t ≡ i
      → Tried (registered (drop i t)) p (apply_from run workload part_count t 0 i p)
  unfolding apply_from
  apply_from-end t i p e =
      let end : drop i t ≡ [] = ap (λ (k : ℕ). drop k t) (sym e) ∙ drop-length t in
      rw end (nobody p)

  apply_from-Tried :
      (t : List Slot) (n i : ℕ) (p : P)
      → length t ≡ i + n
      → i + n ≤ max_splitters
      → Tried (registered (drop i t)) p (apply_from run workload part_count t n i p)
  apply_from-Tried t zero i p e l = apply_from-end t i p (omega (arith, e))
  apply_from-Tried t (suc n) i p e l =
      let (v, at, here) = at-drop t i (omega (arith, e)) in
      rw (apply_from-suc t n i p v at, here)
        (slot-Tried t n i p v.splitter v.used (omega arith) at
          (λ q. apply_from-Tried t n (suc i) q (omega (arith, e)) (omega arith)))

-- With a table of 16 slots, all registered splitters are tried in the order of their slots: each call
-- that fails hands the parts on to the next, the first that succeeds ends the search with success, and
-- if none does the answer is NOT_SUPPORTED.
pub apply_all_custom_splitters-Tries :
    {P : Type 0} (run : Run P) (workload part_count : ℕ) (t : List Slot) (p : P)
    → length t ≡ max_splitters
    → let (st, q) = apply_all_custom_splitters run workload part_count t p in
      Tries run workload part_count (registered t) p st q
unfolding apply_all_custom_splitters
apply_all_custom_splitters-Tries run workload part_count t p size =
    apply_from-Tried run workload part_count t max_splitters 0 p size (omega arith)
