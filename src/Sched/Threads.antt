-- ===== src/Sched/Threads.antt =====
-- src/userspace/scheduler/scheduler.c with users' calls in any order. A submission runs the queue before it
-- returns, unless there is a scheduler thread; each call of such a thread's loop is a step.
-- mvgal_workload_set_priority, which changes a workload behind the queue's back, is left out.
pub mod References
pub mod Submitting
pub mod Invariant
pub mod Running
pub mod Safety
use mvgal.Base.{ℕ, ◌+◌, ◌-◌, ◌<◌, ◌≡◌, true, Option, none, some, update}
use mvgal.Status.{Status, success}
use mvgal.Sched.Types.{u32_mod, Workload}
use mvgal.Sched.Queue.{empty, retain, release, dequeue_priority, Linked}
use mvgal.Sched.State.{Stats, Scheduler, Strategy, Applied, relink}
use mvgal.Sched.Process.{walk_fuel, complete}
use mvgal.Sched.Calls.{SubmitInfo, submit, cancel}

-- The scheduler, the references that users hold to each workload, and the workloads that threads have
-- taken from the queue and not released yet.
pub record World (S : Type 0) : Type 0 where
  pub sched : Scheduler S
  pub users : ℕ → ℕ
  pub flying : ℕ → ℕ

-- The users' references after a submission gave out a handle.
abbrev pub given : Option ℕ → (ℕ → ℕ) → ℕ → ℕ
given none users = users
given (some w) users = update users w (users w + 1)

module _ {S : Type 0} (clock : ℕ → ℕ) (strategy : Strategy S) where
  -- A user calls with a workload that it holds a reference to, and the block of a new workload is one
  -- that is free. A scheduler thread works on a workload that it has taken.
  pub data Step (v : World S) : World S → Type 0 where
    submits :
        (fuel : ℕ) (info : SubmitInfo) (callback : Option ℕ) (w : ℕ) (st : Status)
        (handle : Option ℕ) (s : Scheduler S)
        → (v.sched.heap w).freed ≡ true
        → v.sched.initialized ≡ true
        → info.priority < u32_mod
        → submit clock strategy fuel v.sched info callback (some w) ≡ some (st, handle, s)
        → Step v (record { sched = s; users = given handle v.users; flying = v.flying })
    takes :
        (w : ℕ) (l : Linked)
        → dequeue_priority walk_fuel v.sched.heap v.sched.ready ≡ some (some w, l)
        → Step v (record {
          sched = relink v.sched l;
          users = v.users;
          flying = update v.flying w (v.flying w + 1);
        })
    assigns :
        (w : ℕ)
        → 0 < v.flying w
        → Step v (record v {
          sched = record v.sched {
            heap = (strategy.apply v.sched.strategy_state v.sched.heap w).heap;
            strategy_state = (strategy.apply v.sched.strategy_state v.sched.heap w).state;
          };
        })
    completes :
        (w : ℕ)
        → 0 < v.flying w
        → Step v (record v { sched = complete clock v.sched (some w) success })
    drops :
        (w : ℕ)
        → 0 < v.flying w
        → Step v (record {
          sched = record v.sched { heap = release v.sched.heap (some w) };
          users = v.users;
          flying = update v.flying w (v.flying w - 1);
        })
    retains :
        (w : ℕ)
        → 0 < v.users w
        → (v.sched.heap w).refcount + 1 < u32_mod
        → Step v (record {
          sched = record v.sched { heap = retain v.sched.heap (some w) };
          users = update v.users w (v.users w + 1);
          flying = v.flying;
        })
    releases :
        (w : ℕ)
        → 0 < v.users w
        → Step v (record {
          sched = record v.sched { heap = release v.sched.heap (some w) };
          users = update v.users w (v.users w - 1);
          flying = v.flying;
        })
    cancels : (w : ℕ) → 0 < v.users w → Step v (record v { sched = (cancel v.sched (some w)).1 })

  -- It starts with an empty queue, every block free and no reference.
  pub data Reach : World S → Type 0 where
    start :
        (s : Scheduler S)
        → s.ready ≡ empty
        → ((y : ℕ) → (s.heap y).freed ≡ true)
        → Reach (record { sched = s; users = λ y. 0; flying = λ y. 0 })
    next : {v w : World S} → Reach v → Step v w → Reach w
