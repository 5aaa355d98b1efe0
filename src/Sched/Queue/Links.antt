-- ===== src/Sched/Queue/Links.antt =====
-- When a heap and a queue's ends stand for a list of workloads: the links both ways, the counters.
use mvgal.Base.{
  ℕ, ◌+◌, ◌%◌, ◌≤◌, ◌<◌, ◌≡◌, refl, ◌≢◌, Option, none, some, List, [], ◌∷◌, ◌++◌, arith, All,
  length, update,
}
use mvgal.Sched.Types.{
  Workload, Heap, WorkloadQueue, u32_mod, u64_mod, max_queued, set_next?, set_prev?,
}

-- The address before which, or behind which, a list stands.
abbrev pub first : List ℕ → Option ℕ → Option ℕ
first [] n = n
first (x ∷ xs) n = some x

abbrev pub last : Option ℕ → List ℕ → Option ℕ
last p [] = p
last p (x ∷ xs) = last (some x) xs

abbrev pub NotIn : ℕ → List ℕ → Type 0
NotIn a xs = All (λ x. a ≢ x) xs

abbrev pub Distinct : List ℕ → Type 0
Distinct [] = Unit
Distinct (x ∷ xs) = NotIn x xs × Distinct xs

-- The workloads `xs` are linked both ways, between `p` and `n`.
abbrev pub Chain : Heap → Option ℕ → Option ℕ → List ℕ → Type 0
Chain h p n [] = Unit
Chain h p n (x ∷ xs) = ((h x).prev ≡ p) × ((h x).next ≡ first xs n) × Chain h (some x) n xs

abbrev pub priority_sum : Heap → List ℕ → ℕ
priority_sum h [] = 0
priority_sum h (x ∷ xs) = (h x).priority + priority_sum h xs

pub record IsQueue (h : Heap) (q : WorkloadQueue) (xs : List ℕ) : Type 0 where
  pub distinct : Distinct xs
  pub chain : Chain h none none xs
  pub head : q.head ≡ first xs none
  pub tail : q.tail ≡ last none xs
  pub count : q.count ≡ length xs
  pub room : length xs ≤ max_queued
  pub words : All (λ x. (h x).priority < u32_mod) xs
  pub total : q.total_priority ≡ priority_sum h xs % u64_mod

-- Two heaps that differ in links only.
abbrev pub SameButLinks : Heap → Heap → Type 0
SameButLinks h h' = (y : ℕ) → h' y ≡ record (h y) { next = (h' y).next; prev = (h' y).prev }

pub Chain-update :
    (h : Heap) (a : ℕ) (w : Workload) (p n : Option ℕ) (xs : List ℕ)
    → NotIn a xs
    → Chain h p n xs
    → Chain (update h a w) p n xs
Chain-update h a w p n [] d c = tt
Chain-update h a w p n (x ∷ xs) d c =
    (ground (arith, d.0), ground (arith, d.0), Chain-update h a w (some x) n xs d.1 c.2)

pub NotIn-append : (a : ℕ) (xs ys : List ℕ) → NotIn a xs → NotIn a ys → NotIn a (xs ++ ys)
NotIn-append a [] ys d e = e
NotIn-append a (x ∷ xs) ys d e = (d.0, NotIn-append a xs ys d.1 e)

-- What `last` gives is an item of the list, and so is what `first` gives.
pub last-ne : (a x z : ℕ) (xs : List ℕ) → NotIn a (x ∷ xs) → last (some x) xs ≡ some z → a ≢ z
last-ne a x z [] d e = ground (arith, d.0)
last-ne a x z (y ∷ xs) d e = last-ne a y z xs d.1 e

-- The same for the last item of a list.
pub last-none-ne : (a z : ℕ) (xs : List ℕ) → NotIn a xs → last none xs ≡ some z → a ≢ z
last-none-ne a z [] d e = cc
last-none-ne a z (x ∷ xs) d e = last-ne a x z xs d e

pub set_next?-ne :
    (h : Heap) (o p : Option ℕ) (x : ℕ) → ((z : ℕ) → o ≡ some z → x ≢ z) → set_next? h o p x ≡ h x
set_next?-ne h none p x d = refl
set_next?-ne h (some z) p x d = ground (arith, d z refl)

pub set_prev?-ne :
    (h : Heap) (o p : Option ℕ) (x : ℕ) → ((z : ℕ) → o ≡ some z → x ≢ z) → set_prev? h o p x ≡ h x
set_prev?-ne h none p x d = refl
set_prev?-ne h (some z) p x d = ground (arith, d z refl)

pub first-ne : (a z : ℕ) (xs : List ℕ) → NotIn a xs → first xs none ≡ some z → a ≢ z
first-ne a z [] d e = cc
first-ne a z (x ∷ xs) d e = ground (arith, d.0)

-- Writing to an end of one list leaves the chain of a list that lacks it.
pub Chain-set_next? :
    (h : Heap) (o q p n : Option ℕ) (xs : List ℕ)
    → ((z : ℕ) → o ≡ some z → NotIn z xs)
    → Chain h p n xs
    → Chain (set_next? h o q) p n xs
Chain-set_next? h none q p n xs d c = c
Chain-set_next? h (some z) q p n xs d c = Chain-update h z _ p n xs (d z refl) c

pub Chain-set_prev? :
    (h : Heap) (o q p n : Option ℕ) (xs : List ℕ)
    → ((z : ℕ) → o ≡ some z → NotIn z xs)
    → Chain h p n xs
    → Chain (set_prev? h o q) p n xs
Chain-set_prev? h none q p n xs d c = c
Chain-set_prev? h (some z) q p n xs d c = Chain-update h z _ p n xs (d z refl) c

pub retarget-last :
    (h : Heap) (p n n' : Option ℕ) (xs : List ℕ)
    → Distinct xs
    → Chain h p n xs
    → Chain (set_next? h (last none xs) n') p n' xs
retarget-last h p n n' [] d c = tt
retarget-last h p n n' (x ∷ []) d c = ground arith
retarget-last h p n n' (x ∷ y ∷ xs) d c =
    let same : set_next? h (last (some y) xs) n' x ≡ h x =
      set_next?-ne h (last (some y) xs) n' x (λ z e. last-ne x y z xs d.0 e) in
    (rw same c.0, rw same c.1, retarget-last h (some x) n n' (y ∷ xs) d.1 c.2)

pub retarget-first :
    (h : Heap) (p p' n : Option ℕ) (xs : List ℕ)
    → Distinct xs
    → Chain h p n xs
    → Chain (set_prev? h (first xs none) p') p' n xs
retarget-first h p p' n [] d c = tt
retarget-first h p p' n (x ∷ xs) d c =
    (ground arith, ground arith, Chain-update h x _ (some x) n xs d.0 c.2)

module _ (h : Heap) where
  pub Chain-join :
      (p n : Option ℕ) (xs ys : List ℕ)
      → Chain h p (first ys n) xs
      → Chain h (last p xs) n ys
      → Chain h p n (xs ++ ys)
  Chain-join p n [] ys c d = d
  Chain-join p n (x ∷ []) ys c d = (c.0, c.1, d)
  Chain-join p n (x ∷ y ∷ xs) ys c d = (c.0, c.1, Chain-join (some x) n (y ∷ xs) ys c.2 d)

  pub Chain-split :
      (p n : Option ℕ) (xs ys : List ℕ)
      → Chain h p n (xs ++ ys)
      → Chain h p (first ys n) xs × Chain h (last p xs) n ys
  Chain-split p n [] ys c = (tt, c)
  Chain-split p n (x ∷ []) ys c = ((c.0, c.1, tt), c.2)
  Chain-split p n (x ∷ y ∷ xs) ys c =
      let (l, r) = Chain-split (some x) n (y ∷ xs) ys c.2 in ((c.0, c.1, l), r)

-- A heap with the same links and priorities stands for the same queue.
module _ (h h' : Heap)
    (same : (y : ℕ)
      → ((h' y).next ≡ (h y).next)
        × ((h' y).prev ≡ (h y).prev)
        × ((h' y).priority ≡ (h y).priority)) where
  Chain-same : (p n : Option ℕ) (xs : List ℕ) → Chain h p n xs → Chain h' p n xs
  Chain-same p n [] c = tt
  Chain-same p n (x ∷ xs) c = (rw (same x).1 c.0, rw (same x).0 c.1, Chain-same (some x) n xs c.2)

  priority_sum-same : (xs : List ℕ) → priority_sum h' xs ≡ priority_sum h xs
  priority_sum-same [] = refl
  priority_sum-same (x ∷ xs) = omega (arith, (same x).2, priority_sum-same xs)

  words-same :
      (xs : List ℕ)
      → All (λ x. (h x).priority < u32_mod) xs
      → All (λ x. (h' x).priority < u32_mod) xs
  words-same [] w = tt
  words-same (x ∷ xs) w = (omega (arith, (same x).2, w.0), words-same xs w.1)

  pub IsQueue-same : (q : WorkloadQueue) (xs : List ℕ) → IsQueue h q xs → IsQueue h' q xs
  IsQueue-same q xs v = record {
    distinct = v.distinct;
    chain = Chain-same none none xs v.chain;
    head = v.head;
    tail = v.tail;
    count = v.count;
    room = v.room;
    words = words-same xs v.words;
    total = rw (priority_sum-same xs) v.total;
  }

-- A write to a block that is not queued.
module _ (h : Heap) (w : ℕ) (block : Workload) where
  priority_sum-fresh :
      (xs : List ℕ) → NotIn w xs → priority_sum (update h w block) xs ≡ priority_sum h xs
  priority_sum-fresh [] n = refl
  priority_sum-fresh (x ∷ xs) n =
      let x-same : (update h w block x).priority ≡ (h x).priority = ground (arith, n.0) in
      omega (arith, x-same, priority_sum-fresh xs n.1)

  pub All-fresh :
      (P : ℕ → Type 0) (xs : List ℕ)
      → NotIn w xs
      → All (λ x. P (h x).priority) xs
      → All (λ x. P (update h w block x).priority) xs
  All-fresh P [] n a = tt
  All-fresh P (x ∷ xs) n a =
      let x-same : (update h w block x).priority ≡ (h x).priority = ground (arith, n.0) in
      (rw x-same a.0, All-fresh P xs n.1 a.1)

  pub IsQueue-fresh :
      (q : WorkloadQueue) (xs : List ℕ)
      → NotIn w xs
      → IsQueue h q xs
      → IsQueue (update h w block) q xs
  IsQueue-fresh q xs n v = record {
    distinct = v.distinct;
    chain = Chain-update h w block none none xs n v.chain;
    head = v.head;
    tail = v.tail;
    count = v.count;
    room = v.room;
    words = All-fresh (λ p. p < u32_mod) xs n v.words;
    total = rw (priority_sum-fresh xs n) v.total;
  }
