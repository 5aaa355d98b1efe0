-- ===== src/Sched/Queue/Unlink.antt =====
-- The removals of mvgal_workload_dequeue_priority and mvgal_workload_dequeue, on lists.
use mathlib.Core.List.{append-nil}
use mvgal.Base.{
  ℕ, ◌+◌, ◌-◌, ◌%◌, ◌<◌, ◌≡◌, refl, ◌≢◌, Option, none, some, List, [], ◌∷◌, ◌++◌, arith, All,
  length-append,
}
use mvgal.Sched.Types.{
  Heap, WorkloadQueue, u32_mod, u64_mod, set_next, set_prev, set_next?, set_prev?, if_null,
}
use mvgal.Sched.Queue.{unlink, dequeue, Linked}
use mvgal.Sched.Queue.Links.{
  first, last, NotIn, Distinct, Chain, priority_sum, IsQueue, Chain-update, Chain-join, Chain-split,
  Chain-set_next?, Chain-set_prev?, retarget-last, retarget-first, last-none-ne, first-ne,
  set_next?-ne,
}
use mvgal.Sched.Queue.Fifo.{priority_sum-same, words-same, set_next?-priority}

NotIn-left : (a : ℕ) (xs ys : List ℕ) → NotIn a (xs ++ ys) → NotIn a xs
NotIn-left a [] ys d = tt
NotIn-left a (x ∷ xs) ys d = (d.0, NotIn-left a xs ys d.1)

NotIn-right : (a : ℕ) (xs ys : List ℕ) → NotIn a (xs ++ ys) → NotIn a ys
NotIn-right a [] ys d = d
NotIn-right a (x ∷ xs) ys d = NotIn-right a xs ys d.1

Distinct-left : (xs ys : List ℕ) → Distinct (xs ++ ys) → Distinct xs
Distinct-left [] ys d = tt
Distinct-left (x ∷ xs) ys d = (NotIn-left x xs ys d.0, Distinct-left xs ys d.1)

Distinct-right : (xs ys : List ℕ) → Distinct (xs ++ ys) → Distinct ys
Distinct-right [] ys d = d
Distinct-right (x ∷ xs) ys d = Distinct-right xs ys d.1

pub NotIn-drop : (a x : ℕ) (pre post : List ℕ) → NotIn a (pre ++ x ∷ post) → NotIn a (pre ++ post)
NotIn-drop a x [] post d = d.1
NotIn-drop a x (y ∷ pre) post d = (d.0, NotIn-drop a x pre post d.1)

pub Distinct-drop :
    (x : ℕ) (pre post : List ℕ) → Distinct (pre ++ x ∷ post) → Distinct (pre ++ post)
Distinct-drop x [] post d = d.1
Distinct-drop x (y ∷ pre) post d = (NotIn-drop y x pre post d.0, Distinct-drop x pre post d.1)

-- The last item of one part is not in the other, and the first item of the other not in the one.
last-NotIn : (z : ℕ) (xs ys : List ℕ) → Distinct (xs ++ ys) → last none xs ≡ some z → NotIn z ys
last-NotIn z [] ys d e = absurd (cc)
last-NotIn z (x ∷ []) ys d e = let x=z : x ≡ z = ground arith in rw (← x=z) d.0
last-NotIn z (x ∷ y ∷ xs) ys d e = last-NotIn z (y ∷ xs) ys d.1 e

first-NotIn : (z : ℕ) (xs ys : List ℕ) → Distinct (xs ++ ys) → first ys none ≡ some z → NotIn z xs
first-NotIn z [] ys d e = tt
first-NotIn z (x ∷ xs) ys d e =
    let other : x ≢ z = first-ne x z ys (NotIn-right x xs ys d.0) e in
    (ground arith, first-NotIn z xs ys d.1 e)

set_prev?-priority :
    (h : Heap) (o p : Option ℕ) (y : ℕ) → (set_prev? h o p y).priority ≡ (h y).priority
set_prev?-priority h none p y = refl
set_prev?-priority h (some z) p y = ground arith

pub All-drop {κ} :
    (P : ℕ → Type κ) (x : ℕ) (pre post : List ℕ) → All P (pre ++ x ∷ post) → All P (pre ++ post)
All-drop P x [] post a = a.1
All-drop P x (y ∷ pre) post a = (a.0, All-drop P x pre post a.1)

pub All-at {κ} : (P : ℕ → Type κ) (x : ℕ) (pre post : List ℕ) → All P (pre ++ x ∷ post) → P x
All-at P x [] post a = a.0
All-at P x (y ∷ pre) post a = All-at P x pre post a.1

priority_sum-drop :
    (h : Heap) (x : ℕ) (pre post : List ℕ)
    → priority_sum h (pre ++ x ∷ post) ≡ (h x).priority + priority_sum h (pre ++ post)
priority_sum-drop h x [] post = refl
priority_sum-drop h x (y ∷ pre) post = omega (arith, priority_sum-drop h x pre post)

last-skip :
    (x : ℕ) (p : Option ℕ) (pre : List ℕ) (y : ℕ) (post : List ℕ)
    → last p (pre ++ x ∷ y ∷ post) ≡ last p (pre ++ y ∷ post)
last-skip x p [] y post = refl
last-skip x p (z ∷ pre) y post = last-skip x (some z) pre y post

last-some : (y : ℕ) (l : List ℕ) → (z : ℕ) × (last (some y) l ≡ some z)
last-some y [] = (y, refl)
last-some y (x ∷ l) = last-some x l

head-drop :
    (x : ℕ) (pre post : List ℕ)
    → if_null (last none pre) (first post none) (first (pre ++ x ∷ post) none)
      ≡ first (pre ++ post) none
head-drop x [] post = refl
head-drop x (y ∷ pre) post = let (z, e) = last-some y pre in rw e refl

tail-drop :
    (x : ℕ) (pre post : List ℕ)
    → if_null (first post none) (last none pre) (last none (pre ++ x ∷ post))
      ≡ last none (pre ++ post)
tail-drop x pre [] = rw append-nil refl
tail-drop x pre (y ∷ post) = last-skip x none pre y post

module _ (h : Heap) (q : WorkloadQueue) (pre : List ℕ) (x : ℕ) (post : List ℕ)
    (v : IsQueue h q (pre ++ x ∷ post)) where
  abbrev before : Option ℕ
  before = last none pre

  abbrev behind : Option ℕ
  behind = first post none

  abbrev h1 : Heap
  h1 = set_next? h before behind

  abbrev h2 : Heap
  h2 = set_prev? h1 behind before

  parts : Chain h none (some x) pre × Chain h before none (x ∷ post)
  parts = Chain-split h none none pre (x ∷ post) v.chain

  x-pre : NotIn x pre
  x-pre = first-NotIn x pre (x ∷ post) v.distinct refl

  x-post : NotIn x post
  x-post = (Distinct-right pre (x ∷ post) v.distinct).0

  h1-x : h1 x ≡ h x
  h1-x = set_next?-ne h before behind x (λ z e. last-none-ne x z pre x-pre e)

  chain2 : Chain h2 none behind pre × Chain h2 before none post
  chain2 = (
    Chain-set_prev? h1 behind before none behind pre
        (λ z e. first-NotIn z pre post (Distinct-drop x pre post v.distinct) e)
        (retarget-last h none (some x) behind pre (Distinct-left pre (x ∷ post) v.distinct)
          parts.0),
    retarget-first h1 (some x) before none post (Distinct-right pre (x ∷ post) v.distinct).1 (
        Chain-set_next? h before behind (some x) none post
          (λ z e. (last-NotIn z pre (x ∷ post) v.distinct e).1) parts.1.2),
  )

  abbrev h4 : Heap
  h4 = set_prev (set_next h2 x none) x none

  chain4 : (p n : Option ℕ) (xs : List ℕ) → NotIn x xs → Chain h2 p n xs → Chain h4 p n xs
  chain4 p n xs d c =
      Chain-update (set_next h2 x none) x (record (set_next h2 x none x) { prev = none }) p n xs d
        (Chain-update h2 x (record (h2 x) { next = none }) p n xs d c)

  h4-priority : (y : ℕ) → (h4 y).priority ≡ (h y).priority
  h4-priority y = ground (
    arith,
    set_prev?-priority h1 behind before y,
    set_next?-priority h before behind y,
    set_prev?-priority h1 behind before x,
    set_next?-priority h before behind x,
  )

  -- The pointers that the code reads are those of the list, and the heap that it leaves is `h4`.
  unlink-heap : (unlink h q x (h x).priority).heap ≡ h4
  unfolding unlink
  unlink-heap = rw parts.1.0 (rw parts.1.1 (rw h1-x (rw parts.1.0 (rw parts.1.1 refl))))

  unlink-head : (unlink h q x (h x).priority).queue.head ≡ first (pre ++ post) none
  unfolding unlink
  unlink-head = rw parts.1.0 (rw parts.1.1 (rw v.head (head-drop x pre post)))

  unlink-tail : (unlink h q x (h x).priority).queue.tail ≡ last none (pre ++ post)
  unfolding unlink
  unlink-tail =
      rw (parts.1.0, unlink)
        (rw parts.1.1 (rw h1-x (rw parts.1.0 (rw parts.1.1 (rw v.tail (tail-drop x pre post))))))

  unlink-words : All (λ y. ((unlink h q x (h x).priority).heap y).priority < u32_mod) (pre ++ post)
  unlink-words =
      rw unlink-heap (words-same h h4 h4-priority (pre ++ post) (All-drop _ x pre post v.words))

  unlink-sum :
      priority_sum (unlink h q x (h x).priority).heap (pre ++ post) ≡ priority_sum h (pre ++ post)
  unlink-sum = rw unlink-heap (priority_sum-same h h4 h4-priority (pre ++ post))

  unlink-total :
      (unlink h q x (h x).priority).queue.total_priority
      ≡ (priority_sum h (pre ++ x ∷ post) % u64_mod + u64_mod - (h x).priority) % u64_mod
  unfolding unlink
  unlink-total = rw v.total

  -- When a workload at any place of a queue is removed with its own priority, the queue that is left
  -- holds the other workloads, in the same order.
  pub unlink-IsQueue :
      IsQueue (unlink h q x (h x).priority).heap (unlink h q x (h x).priority).queue (pre ++ post)
  unlink-IsQueue = record {
    distinct = Distinct-drop x pre post v.distinct;
    chain = rw unlink-heap (
        Chain-join h4 none none pre post (chain4 none behind pre x-pre chain2.0)
          (chain4 before none post x-post chain2.1));
    head = unlink-head;
    tail = unlink-tail;
    count =
        unfold unlink in
        omega (arith, v.count, v.room, length-append pre (x ∷ post), length-append pre post);
    room = omega (arith, v.room, length-append pre (x ∷ post), length-append pre post);
    words = unlink-words;
    total = omega (
      arith,
      unlink-total,
      unlink-sum,
      priority_sum-drop h x pre post,
      All-at (λ y. (h y).priority < u32_mod) x pre post v.words,
    );
  }

-- Taking from the front of a queue that is not empty gives its first workload, and leaves the others.
pub dequeue-IsQueue :
    (h : Heap) (q : WorkloadQueue) (x : ℕ) (xs : List ℕ)
    → IsQueue h q (x ∷ xs)
    → (l : Linked) × (dequeue h q ≡ (some x, l)) × IsQueue l.heap l.queue xs
unfolding dequeue unlink
dequeue-IsQueue h q x xs v = (
  unlink h q x (h x).priority,
  rw (v.head, dequeue) (rw v.chain.0 (ground (arith, set_prev?-priority h (h x).next none x))),
  unlink-IsQueue h q [] x xs v,
)
