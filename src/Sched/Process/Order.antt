-- ===== src/Sched/Process/Order.antt =====
-- The abstract priority queue, and how what a round does to one workload adds up over the rounds.
use mvgal.Base.{
  ℕ, ◌+◌, ◌-◌, ◌%◌, ◌<◌, ◌≡◌, refl, sym, ap, ◌∙◌, ◌≢◌, List, [], ◌∷◌, ◌++◌, arith, All,
}
use mvgal.Status.{success}
use mvgal.Sched.Types.{Workload, Heap, u32_mod}
use mvgal.Sched.Queue.Links.{NotIn, Distinct}
use mvgal.Sched.Queue.Unlink.{All-at}
use mvgal.Sched.Queue.Priority.{Chosen, Lower, NotHigher}
use mvgal.Sched.State.{Call}
use mvgal.Sched.Process.{notify}
use mvgal.Sched.Process.Step.{Finished, Untouched}

-- The abstract queue: again and again the first item of the highest priority is taken from a list.
pub data Drains (h : Heap) : List ℕ → List ℕ → Type 0 where
  drained : Drains h [] []
  take :
      {xs : List ℕ} {x : ℕ} {ys : List ℕ} (c : Chosen h 0 xs x)
      → Drains h (c.pre ++ c.post) ys
      → Drains h xs (x ∷ ys)

-- The calls of callbacks, for workloads that finish in this order.
abbrev pub calls : Heap → List ℕ → List Call → List Call
calls h [] called = called
calls h (y ∷ ys) called = calls h ys (notify (h y).callback y success called)

pub calls-same :
    (h h' : Heap)
    → ((y : ℕ) → (h' y).callback ≡ (h y).callback)
    → (ys : List ℕ) (called : List Call) → calls h' ys called ≡ calls h ys called
calls-same h h' same [] called = refl
calls-same h h' same (y ∷ ys) called = rw (same y) (calls-same h h' same ys _)

module _ (h h' : Heap) (same : (y : ℕ) → (h' y).priority ≡ (h y).priority) where
  Lower-same : (n : ℕ) (xs : List ℕ) → Lower h' n xs → Lower h n xs
  Lower-same n [] l = tt
  Lower-same n (x ∷ xs) l = (omega (arith, same x, l.0), Lower-same n xs l.1)

  NotHigher-same : (n : ℕ) (xs : List ℕ) → NotHigher h' n xs → NotHigher h n xs
  NotHigher-same n [] l = tt
  NotHigher-same n (x ∷ xs) l = (omega (arith, same x, l.0), NotHigher-same n xs l.1)

  Chosen-same : (xs : List ℕ) (x : ℕ) → Chosen h' 0 xs x → Chosen h 0 xs x
  Chosen-same xs x c = record {
    pre = c.pre;
    post = c.post;
    split = c.split;
    above = omega (arith, same x, c.above);
    lower = rw (sym (same x)) (Lower-same (h' x).priority c.pre c.lower);
    not_higher = rw (sym (same x)) (NotHigher-same (h' x).priority c.post c.not_higher);
  }

  pub Drains-same : (xs ys : List ℕ) → Drains h' xs ys → Drains h xs ys
  unfolding Chosen-same
  Drains-same xs ys drained = drained
  Drains-same xs (x ∷ ys) (take c d) =
      take (Chosen-same xs x c) (Drains-same (c.pre ++ c.post) ys d)

pub positive-same :
    (h h' : Heap)
    → ((y : ℕ) → (h' y).priority ≡ (h y).priority)
    → (xs : List ℕ) → All (λ y. 0 < (h y).priority) xs
    → All (λ y. 0 < (h' y).priority) xs
positive-same h h' same [] a = tt
positive-same h h' same (x ∷ xs) a = (omega (arith, same x, a.0), positive-same h h' same xs a.1)

pub All-insert {κ} :
    (P : ℕ → Type κ) (x : ℕ) (pre post : List ℕ)
    → P x
    → All P (pre ++ post)
    → All P (pre ++ x ∷ post)
All-insert P x [] post p a = (p, a)
All-insert P x (y ∷ pre) post p a = (a.0, All-insert P x pre post p a.1)

pub NotIn-dropped : (x : ℕ) (pre post : List ℕ) → Distinct (pre ++ x ∷ post) → NotIn x (pre ++ post)
NotIn-dropped x [] post d = d.0
NotIn-dropped x (y ∷ pre) post d =
    let other : y ≢ x = All-at (λ z. y ≢ z) x pre post d.0 in
    (λ e. other (sym e), NotIn-dropped x pre post d.1)

NotIn-parts :
    (y x : ℕ) (pre post : List ℕ) → y ≢ x → NotIn y (pre ++ post) → NotIn y (pre ++ x ∷ post)
NotIn-parts y x pre post d n = All-insert (λ z. y ≢ z) x pre post d n

pub Untouched-trans : (a b c : Workload) → Untouched a b → Untouched b c → Untouched a c
Untouched-trans a b c e f =
    f
    ∙ ap {A = Workload} {B = Workload}
        (λ u. record u {
          next = c.next;
          prev = c.prev;
          assigned_gpu = c.assigned_gpu;
          assigned_gpu_count = c.assigned_gpu_count;
          assigned_gpus = c.assigned_gpus;
        })
        e

pub links-Untouched :
    (a b : Workload) → b ≡ record a { next = b.next; prev = b.prev } → Untouched a b
links-Untouched a b e =
    let g : b.assigned_gpu ≡ a.assigned_gpu = ap (λ u. u.assigned_gpu) e in
    let n : b.assigned_gpu_count ≡ a.assigned_gpu_count = ap (λ u. u.assigned_gpu_count) e in
    let f : b.assigned_gpus ≡ a.assigned_gpus = ap (λ u. u.assigned_gpus) e in e ∙ rw (g, n, f) refl

pub NotIn-at : (y x : ℕ) (pre post : List ℕ) → NotIn y (pre ++ x ∷ post) → y ≢ x
NotIn-at y x pre post n = All-at (λ z. y ≢ z) x pre post n

-- A block that was not touched before it finished, or after.
pub Untouched-Finished : (a b c : Workload) → Untouched a b → Finished b c → Finished a c
Untouched-Finished a b c e f = record {
  state = f.state;
  signaled = f.signaled;
  status = f.status;
  refcount = f.refcount ∙ ap (λ u. (u.refcount + u32_mod - 1) % u32_mod) e;
}

pub Finished-Untouched : (a b c : Workload) → Finished a b → Untouched b c → Finished a c
Finished-Untouched a b c f e = record {
  state = ap (λ u. u.state) e ∙ f.state;
  signaled = ap (λ u. u.completion_signaled) e ∙ f.signaled;
  status = ap (λ u. u.completion_status) e ∙ f.status;
  refcount = ap (λ u. u.refcount) e ∙ f.refcount;
}

pub All-Untouched-Finished :
    (h h1 h' : Heap) (x : ℕ)
    → ((y : ℕ) → y ≢ x → Untouched (h y) (h1 y))
    → (xs : List ℕ) → NotIn x xs
    → All (λ y. Finished (h1 y) (h' y)) xs
    → All (λ y. Finished (h y) (h' y)) xs
All-Untouched-Finished h h1 h' x u [] n a = tt
All-Untouched-Finished h h1 h' x u (y ∷ xs) n a = (
  Untouched-Finished (h y) (h1 y) (h' y) (u y (λ e. n.0 (sym e))) a.0,
  All-Untouched-Finished h h1 h' x u xs n.1 a.1,
)
