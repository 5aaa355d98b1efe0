-- ===== src/Sched/Queue.antt =====
-- The workload queues of src/userspace/scheduler/scheduler.c: an intrusive doubly linked list.
-- Each call holds the queue's lock throughout, so it is one step.
pub mod Links
pub mod Fifo
pub mod Unlink
pub mod Priority
use mvgal.Base.{
  ℕ, zero, suc, ◌+◌, ◌-◌, ◌%◌, Bool, true, false, Option, none, some, ltb, leb, ◌==◌, if◌then◌else◌,
  update,
}
use mvgal.Status.{Status, success, invalid_argument, memory_error}
use mvgal.Sched.Types.{
  Workload, Heap, WorkloadQueue, u32_mod, u64_mod, max_queued, set_next, set_prev, set_next?,
  set_prev?, if_null,
}

-- workload_queue_init
abbrev pub empty : WorkloadQueue
empty = record { head = none; tail = none; count = 0; total_priority = 0 }

-- mvgal_workload_retain
unfoldable pub retain : Heap → Option ℕ → Heap
retain h none = h
retain h (some w) = update h w (record (h w) { refcount = ((h w).refcount + 1) % u32_mod })

-- mvgal_workload_release, with mvgal_workload_destroy_internal at the last reference.
unfoldable pub release : Heap → Option ℕ → Heap
release h none = h
release h (some w) =
    let old_count : ℕ = (h w).refcount in
    update h w (record (h w) {
      refcount = (old_count + u32_mod - 1) % u32_mod;
      freed = if old_count == 1 then true else (h w).freed;
    })

-- The store and the queue after a call.
pub record Linked : Type 0 where
  pub heap : Heap
  pub queue : WorkloadQueue

or_else : Option ℕ → ℕ → Option ℕ
or_else none w = some w
or_else (some a) w = some a

-- The part of mvgal_workload_queue that adds the workload behind the tail.
unfoldable pub append_tail : Heap → WorkloadQueue → ℕ → Linked
unfolding or_else
append_tail h q w =
    let h1 : Heap = set_prev (set_next h w none) w q.tail in
    let h2 : Heap = set_next? h1 q.tail (some w) in
    record {
      heap = h2;
      queue = record {
        head = or_else q.head w;
        tail = some w;
        count = (q.count + 1) % u32_mod;
        total_priority = (q.total_priority + (h2 w).priority) % u64_mod;
      };
    }

-- mvgal_workload_queue. The queue is never NULL: its callers pass the address of a field.
unfoldable pub enqueue : Heap → WorkloadQueue → Option ℕ → Status × Linked
enqueue h q none = (invalid_argument, record { heap = h; queue = q })
enqueue h q (some w) =
    if leb max_queued q.count
    then (memory_error, record { heap = h; queue = q })
    else (success, append_tail (retain h (some w)) q w)

-- mvgal_workload_dequeue
unfoldable pub dequeue : Heap → WorkloadQueue → Option ℕ × Linked
dequeue h q = elim q.head [
  | none ↦ (none, record { heap = h; queue = q })
  | some w ↦
      let head : Option ℕ = (h w).next in
      let h1 : Heap = set_prev? h head none in
      (
        some w,
        record {
          heap = set_prev (set_next h1 w none) w none;
          queue = record {
            head = head;
            tail = if_null head none q.tail;
            count = (q.count + u32_mod - 1) % u32_mod;
            total_priority = (q.total_priority + u64_mod - (h1 w).priority) % u64_mod;
          };
        },
      )
]

-- The walk of mvgal_workload_dequeue_priority, from `current` on, with fuel; `none` means that the
-- fuel ran out.
unfoldable pub find_best : ℕ → Heap → Option ℕ → Option ℕ → ℕ → Option (Option ℕ × ℕ)
find_best zero h current best best_priority = none
find_best (suc fuel) h none best best_priority = some (best, best_priority)
find_best (suc fuel) h (some c) best best_priority =
    let higher : Bool = ltb best_priority (h c).priority in
    find_best fuel h (h c).next (if higher then some c else best)
      (if higher then (h c).priority else best_priority)

-- The removal in mvgal_workload_dequeue_priority.
unfoldable pub unlink : Heap → WorkloadQueue → ℕ → ℕ → Linked
unlink h q best best_priority =
    let h1 : Heap = set_next? h (h best).prev (h best).next in
    let h2 : Heap = set_prev? h1 (h1 best).next (h1 best).prev in
    record {
      heap = set_prev (set_next h2 best none) best none;
      queue = record {
        head = if_null (h best).prev (h best).next q.head;
        tail = if_null (h1 best).next (h1 best).prev q.tail;
        count = (q.count + u32_mod - 1) % u32_mod;
        total_priority = (q.total_priority + u64_mod - best_priority) % u64_mod;
      };
    }

-- mvgal_workload_dequeue_priority. The outer `none` means that the fuel ran out, the inner one is
-- NULL.
unfoldable pub dequeue_priority : ℕ → Heap → WorkloadQueue → Option (Option ℕ × Linked)
unfolding unlink
dequeue_priority fuel h q = elim (find_best fuel h q.head none 0) [
  | none ↦ none
  | some (none, _) ↦ some (none, record { heap = h; queue = q })
  | some (some best, best_priority) ↦ some (some best, unlink h q best best_priority)
]
