-- ===== src/Sched/Queue/Priority.antt =====
-- The walk of mvgal_workload_dequeue_priority and the choice that it makes.
use mvgal.Base.{
  ℕ, zero, suc, ◌≤◌, ◌<◌, ◌≡◌, refl, ap, ◌∙◌, ◌⊎◌, inl, inr, Bool, true, false, Option, none, some,
  List, [], ◌∷◌, ◌++◌, arith, All, length, ltb, if◌then◌else◌, Bool-cases,
}
use mvgal.Sched.Types.{Heap, WorkloadQueue, set_next, set_prev, set_next?, set_prev?}
use mvgal.Sched.Queue.{find_best, unlink, append_tail, dequeue_priority, Linked}
use mvgal.Sched.Queue.Links.{first, Chain, IsQueue, SameButLinks}
use mvgal.Sched.Queue.Unlink.{unlink-IsQueue}

-- The walk as a recursion on the list.
best_of : Heap → List ℕ → Option ℕ → ℕ → Option ℕ × ℕ
best_of h [] best priority = (best, priority)
best_of h (x ∷ xs) best priority =
    let higher : Bool = ltb priority (h x).priority in
    best_of h xs (if higher then some x else best) (if higher then (h x).priority else priority)

find_best-best_of :
    (fuel : ℕ) (h : Heap) (p : Option ℕ) (xs : List ℕ) (best : Option ℕ) (priority : ℕ)
    → Chain h p none xs
    → length xs < fuel
    → find_best fuel h (first xs none) best priority ≡ some (best_of h xs best priority)
unfolding find_best best_of
find_best-best_of zero h p xs best priority c l = absurd (omega arith)
find_best-best_of (suc fuel) h p [] best priority c l = refl
find_best-best_of (suc fuel) h p (x ∷ xs) best priority c l =
    rw c.1 (find_best-best_of fuel h (some x) xs _ _ c.2 (omega arith))

abbrev pub Lower : Heap → ℕ → List ℕ → Type 0
Lower h n xs = All (λ y. (h y).priority < n) xs

abbrev pub NotHigher : Heap → ℕ → List ℕ → Type 0
NotHigher h n xs = All (λ y. (h y).priority ≤ n) xs

-- `x` is the first item of `xs` whose priority is the highest, and higher than `floor`.
pub record Chosen (h : Heap) (floor : ℕ) (xs : List ℕ) (x : ℕ) : Type 0 where
  pub pre : List ℕ
  pub post : List ℕ
  pub split : xs ≡ pre ++ x ∷ post
  pub above : floor < (h x).priority
  pub lower : Lower h (h x).priority pre
  pub not_higher : NotHigher h (h x).priority post

abbrev BestOf : Heap → List ℕ → Option ℕ → ℕ → Type 0
BestOf h xs best priority =
    (NotHigher h priority xs × (best_of h xs best priority ≡ (best, priority)))
    ⊎ ((x : ℕ) × Chosen h priority xs x × (best_of h xs best priority ≡ (some x, (h x).priority)))

walk_cases : (h : Heap) (xs : List ℕ) (best : Option ℕ) (priority : ℕ) → BestOf h xs best priority
unfolding best_of
walk_cases h [] best priority = inl (tt, refl)
walk_cases h (x ∷ xs) best priority = elim (Bool-cases (ltb priority (h x).priority)) [
  | inl hi ↦ rw hi (higher hi (walk_cases h xs (some x) (h x).priority))
  | inr lo ↦ rw lo (kept lo (walk_cases h xs best priority))
]
  where
    higher :
        ltb priority (h x).priority ≡ true
        → BestOf h xs (some x) (h x).priority
        → (NotHigher h priority (x ∷ xs)
            × (best_of h xs (some x) (h x).priority ≡ (best, priority)))
          ⊎ ((y : ℕ) × Chosen h priority (x ∷ xs) y
              × (best_of h xs (some x) (h x).priority ≡ (some y, (h y).priority)))
    higher hi (inl (n, e)) = inr (
      x,
      record {
        pre = [];
        post = xs;
        split = refl;
        above = ground arith;
        lower = tt;
        not_higher = n;
      },
      e,
    )
    higher hi (inr (y, c, e)) = inr (
      y,
      record {
        pre = x ∷ c.pre;
        post = c.post;
        split = rw c.split refl;
        above = ground (arith, c.above);
        lower = (c.above, c.lower);
        not_higher = c.not_higher;
      },
      e,
    )

    kept :
        ltb priority (h x).priority ≡ false
        → BestOf h xs best priority
        → (NotHigher h priority (x ∷ xs) × (best_of h xs best priority ≡ (best, priority)))
          ⊎ ((y : ℕ) × Chosen h priority (x ∷ xs) y
              × (best_of h xs best priority ≡ (some y, (h y).priority)))
    kept lo (inl (n, e)) = inl ((ground arith, n), e)
    kept lo (inr (y, c, e)) = inr (
      y,
      record {
        pre = x ∷ c.pre;
        post = c.post;
        split = rw c.split refl;
        above = c.above;
        lower = (ground (arith, c.above), c.lower);
        not_higher = c.not_higher;
      },
      e,
    )

set_next?-same : (h : Heap) (o p : Option ℕ) → SameButLinks h (set_next? h o p)
set_next?-same h none p y = refl
set_next?-same h (some z) p y = ground arith

set_prev?-same : (h : Heap) (o p : Option ℕ) → SameButLinks h (set_prev? h o p)
set_prev?-same h none p y = refl
set_prev?-same h (some z) p y = ground arith

pub unlink-same : (h : Heap) (q : WorkloadQueue) (x n : ℕ) → SameButLinks h (unlink h q x n).heap
unfolding unlink
unlink-same h q x n y =
    let h1 : Heap = set_next? h (h x).prev (h x).next in
    ground (
      arith,
      set_next?-same h (h x).prev (h x).next y,
      set_next?-same h (h x).prev (h x).next x,
      set_prev?-same h1 (h1 x).next (h1 x).prev y,
      set_prev?-same h1 (h1 x).next (h1 x).prev x,
    )

pub append_tail-same :
    (h : Heap) (q : WorkloadQueue) (w : ℕ) → SameButLinks h (append_tail h q w).heap
unfolding append_tail
append_tail-same h q w y =
    let h1 : Heap = set_prev (set_next h w none) w q.tail in
    ground (arith, set_next?-same h1 q.tail (some w) y)

-- With fuel for the whole queue, the walk finds a workload unless every priority is 0. It is the first
-- of the highest priority; the others stay in their order, and nothing but links and the queue's
-- counters changes. If every priority is 0, NULL is returned and nothing changes.
pub dequeue_priority-Chosen :
    (fuel : ℕ) (h : Heap) (q : WorkloadQueue) (xs : List ℕ)
    → IsQueue h q xs
    → length xs < fuel
    → (NotHigher h 0 xs × (dequeue_priority fuel h q ≡ some (none, record { heap = h; queue = q })))
      ⊎ ((x : ℕ) × (c : Chosen h 0 xs x) × (l : Linked) × (dequeue_priority fuel h q
            ≡ some (some x, l))
          × IsQueue l.heap l.queue (c.pre ++ c.post)
          × SameButLinks h l.heap)
unfolding dequeue_priority
dequeue_priority-Chosen fuel h q xs v room = elim (walk_cases h xs none 0) [
  | inl (n, e) ↦ inl (n, rw (found ∙ ap some e, dequeue_priority) refl)
  | inr (x, c, e) ↦ inr (
    x,
    c,
    unlink h q x (h x).priority,
    rw (found ∙ ap some e, dequeue_priority) refl,
    unlink-IsQueue h q c.pre x c.post (rw c.split at v),
    unlink-same h q x (h x).priority,
  )
]
  where
    found : find_best fuel h q.head none 0 ≡ some (best_of h xs none 0)
    found = rw v.head (find_best-best_of fuel h none xs none 0 v.chain room)
