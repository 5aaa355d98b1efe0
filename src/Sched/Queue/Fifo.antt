-- ===== src/Sched/Queue/Fifo.antt =====
-- mvgal_workload_queue against the list that a queue stands for.
use native.Mathlib.Decide.{dec_lt}
use mvgal.Base.{
  ◌⊎◌, inl, inr, ℕ, ◌+◌, ◌∙◌, ◌≤◌, ◌<◌, ◌≡◌, refl, sym, true, false, Option, none, some, List, [],
  ◌∷◌, ◌++◌, arith, All, length, length-append, leb,
}
use mvgal.Status.{success, memory_error}
use mvgal.Sched.Types.{Heap, WorkloadQueue, u32_mod, max_queued, set_next, set_prev, set_next?}
use mvgal.Sched.Queue.{or_else, append_tail, enqueue, retain, Linked}
use mvgal.Sched.Queue.Links.{
  first, last, NotIn, Distinct, Chain, priority_sum, IsQueue, Chain-update, Chain-join,
  retarget-last, last-none-ne, set_next?-ne, NotIn-append, IsQueue-same,
}

first-append : (w : ℕ) (xs : List ℕ) → first (xs ++ w ∷ []) none ≡ first xs (some w)
first-append w [] = refl
first-append w (x ∷ xs) = refl

last-append : (p : Option ℕ) (w : ℕ) (xs : List ℕ) → last p (xs ++ w ∷ []) ≡ some w
last-append p w [] = refl
last-append p w (x ∷ xs) = last-append (some x) w xs

Distinct-append : (w : ℕ) (xs : List ℕ) → NotIn w xs → Distinct xs → Distinct (xs ++ w ∷ [])
Distinct-append w [] n d = (tt, tt)
Distinct-append w (x ∷ xs) n d =
    (NotIn-append x xs (w ∷ []) d.0 (ground (arith, n.0), tt), Distinct-append w xs n.1 d.1)

module _ (h h' : Heap) (same : (y : ℕ) → (h' y).priority ≡ (h y).priority) where
  pub priority_sum-same : (xs : List ℕ) → priority_sum h' xs ≡ priority_sum h xs
  priority_sum-same [] = refl
  priority_sum-same (x ∷ xs) = omega (arith, same x, priority_sum-same xs)

  pub words-same :
      (xs : List ℕ)
      → All (λ x. (h x).priority < u32_mod) xs
      → All (λ x. (h' x).priority < u32_mod) xs
  words-same [] w = tt
  words-same (x ∷ xs) w = (omega (arith, same x, w.0), words-same xs w.1)

priority_sum-append :
    (h : Heap) (w : ℕ) (xs : List ℕ)
    → priority_sum h (xs ++ w ∷ []) ≡ priority_sum h xs + (h w).priority
priority_sum-append h w [] = omega arith
priority_sum-append h w (x ∷ xs) = omega (arith, priority_sum-append h w xs)

words-append :
    (h : Heap) (w : ℕ) (xs : List ℕ)
    → All (λ x. (h x).priority < u32_mod) xs
    → (h w).priority < u32_mod
    → All (λ x. (h x).priority < u32_mod) (xs ++ w ∷ [])
words-append h w [] a b = (b, tt)
words-append h w (x ∷ xs) a b = (a.0, words-append h w xs a.1 b)

or_else-first : (w : ℕ) (xs : List ℕ) → or_else (first xs none) w ≡ first (xs ++ w ∷ []) none
unfolding or_else
or_else-first w [] = refl
or_else-first w (x ∷ xs) = refl

pub set_next?-priority :
    (h : Heap) (o p : Option ℕ) (y : ℕ) → (set_next? h o p y).priority ≡ (h y).priority
set_next?-priority h none p y = refl
set_next?-priority h (some z) p y = ground arith

module _ (h : Heap) (q : WorkloadQueue) (xs : List ℕ) (v : IsQueue h q xs) (w : ℕ)
    (new : NotIn w xs) where
  abbrev placed : Heap
  placed = set_prev (set_next h w none) w (last none xs)

  abbrev behind : Heap
  behind = set_next? placed (last none xs) (some w)

  append_tail-w : set_next? placed (last none xs) (some w) w ≡ placed w
  append_tail-w = set_next?-ne placed (last none xs) (some w) w (λ z e. last-none-ne w z xs new e)

  append_tail-Chain : Chain behind none none (xs ++ w ∷ [])
  append_tail-Chain =
      Chain-join behind none none xs (w ∷ [])
        (retarget-last placed none none (some w) xs v.distinct (
          Chain-update (set_next h w none) w (record (set_next h w none w) { prev = last none xs })
            none none xs new
            (Chain-update h w (record (h w) { next = none }) none none xs new v.chain)))
        (rw append_tail-w (ground arith), rw append_tail-w (ground arith), tt)

  append_tail-priority : (y : ℕ) → ((append_tail h q w).heap y).priority ≡ (h y).priority
  unfolding append_tail
  append_tail-priority y =
      ground (arith, set_next?-priority placed (last none xs) (some w) y, v.tail)

  -- Adding behind the tail appends to the list.
  pub append_tail-IsQueue :
      length xs < max_queued
      → (h w).priority < u32_mod
      → IsQueue (append_tail h q w).heap (append_tail h q w).queue (xs ++ w ∷ [])
  unfolding append_tail
  append_tail-IsQueue room word = record {
    distinct = Distinct-append w xs new v.distinct;
    chain = rw v.tail append_tail-Chain;
    head = rw v.head (or_else-first w xs);
    tail = sym (last-append none w xs);
    count = omega (arith, v.count, length-append xs (w ∷ []));
    room = omega (arith, length-append xs (w ∷ []));
    words =
        words-append (append_tail h q w).heap w xs
          (words-same h (append_tail h q w).heap append_tail-priority xs v.words)
          (omega (arith, append_tail-priority w));
    total = omega (
      arith,
      v.total,
      append_tail-priority w,
      priority_sum-append (append_tail h q w).heap w xs,
      priority_sum-same h (append_tail h q w).heap append_tail-priority xs,
    );
  }

retain-word :
    (h : Heap) (w : ℕ) → (h w).priority < u32_mod → (retain h (some w) w).priority < u32_mod
unfolding retain
retain-word h w word = ground arith

retain-priority : (h : Heap) (w y : ℕ) → (retain h (some w) y).priority ≡ (h y).priority
unfolding retain
retain-priority h w y = ground arith

retain-IsQueue :
    (h : Heap) (q : WorkloadQueue) (xs : List ℕ) (w : ℕ)
    → IsQueue h q xs
    → IsQueue (retain h (some w)) q xs
unfolding retain
retain-IsQueue h q xs w v = IsQueue-same h (retain h (some w)) same q xs v
  where
    same :
        (y : ℕ)
        → ((retain h (some w) y).next ≡ (h y).next)
          × ((retain h (some w) y).prev ≡ (h y).prev)
          × ((retain h (some w) y).priority ≡ (h y).priority)
    same y = (ground arith, ground arith, ground arith)

set_next?-refcount :
    (h : Heap) (o p : Option ℕ) (y : ℕ) → (set_next? h o p y).refcount ≡ (h y).refcount
set_next?-refcount h none p y = refl
set_next?-refcount h (some z) p y = ground arith

append_tail-refcount :
    (h : Heap) (q : WorkloadQueue) (w : ℕ) → ((append_tail h q w).heap w).refcount ≡ (h w).refcount
unfolding append_tail
append_tail-refcount h q w =
    ground (arith, set_next?-refcount (set_prev (set_next h w none) w q.tail) q.tail (some w) w)

retain-refcount :
    (h : Heap) (w : ℕ)
    → (h w).refcount + 1 < u32_mod
    → (retain h (some w) w).refcount ≡ (h w).refcount + 1
unfolding retain
retain-refcount h w refs = ground arith

full-leb : (n : ℕ) → max_queued ≤ n → leb max_queued n ≡ true
full-leb n l = ground arith

room-leb : (n : ℕ) → n < max_queued → leb max_queued n ≡ false
room-leb n l = ground arith

pub enqueue-room :
    (h : Heap) (q : WorkloadQueue) (w : ℕ)
    → q.count < max_queued
    → enqueue h q (some w) ≡ (success, append_tail (retain h (some w)) q w)
unfolding enqueue
enqueue-room h q w l = rw (room-leb q.count l) refl

pub enqueue-full :
    (h : Heap) (q : WorkloadQueue) (w : ℕ)
    → max_queued ≤ q.count
    → enqueue h q (some w) ≡ (memory_error, record { heap = h; queue = q })
unfolding enqueue
enqueue-full h q w l = rw (full-leb q.count l) refl

-- Queueing a workload that is not in the queue, whose priority fits 32 bits and whose reference count
-- has room for one more, puts it at the end and takes a reference, and no priority changes, unless the queue holds 1024 workloads; then nothing changes.
pub enqueue-IsQueue :
    (h : Heap) (q : WorkloadQueue) (xs : List ℕ) (w : ℕ)
    → IsQueue h q xs
    → NotIn w xs
    → (h w).priority < u32_mod
    → (h w).refcount + 1 < u32_mod
    → ((length xs < max_queued)
        × (l : Linked) × (enqueue h q (some w) ≡ (success, l))
        × IsQueue l.heap l.queue (xs ++ w ∷ [])
        × ((l.heap w).refcount ≡ (h w).refcount + 1)
        × ((y : ℕ) → (l.heap y).priority ≡ (h y).priority))
      ⊎ ((max_queued ≤ length xs)
          × (enqueue h q (some w) ≡ (memory_error, record { heap = h; queue = q })))
enqueue-IsQueue h q xs w v new word refs = elim (dec_lt (length xs) max_queued) [
  | yes fits ↦ inl (
    fits,
    append_tail (retain h (some w)) q w,
    enqueue-room h q w (omega (arith, v.count)),
    append_tail-IsQueue (retain h (some w)) q xs (retain-IsQueue h q xs w v) w new fits
        (retain-word h w word),
    append_tail-refcount (retain h (some w)) q w ∙ retain-refcount h w refs,
    λ y.
        append_tail-priority (retain h (some w)) q xs (retain-IsQueue h q xs w v) w new y
        ∙ retain-priority h w y,
  )
  | no full ↦ inr (omega arith, enqueue-full h q w (omega (arith, v.count)))
]
