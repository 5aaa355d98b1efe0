-- ===== src/Sched/Threads/Running.antt =====
-- A user's call that runs the queue itself, as every submission does while there is no scheduler
-- thread, keeps the invariant.
use mathlib.Core.Option.{some-injective}
use mvgal.Base.{
  ℕ, zero, suc, ◌+◌, ◌<◌, ◌≡◌, refl, inl, inr, some, arith, update, update-eq, ltb, Bool-cases,
  Option-cases,
}
use mvgal.Sched.Queue.{dequeue_priority, Linked}
use mvgal.Sched.Queue.Priority.{dequeue_priority-Chosen}
use mvgal.Sched.State.{Scheduler, Strategy, relink}
use mvgal.Sched.Process.{walk_fuel, process_one, after_dequeue, process_loop}
use mvgal.Sched.Threads.{World}
use mvgal.Sched.Threads.References.{AllOwned-same, holders}
use mvgal.Sched.Threads.Invariant.{Inv, takes-Inv, assigns-Inv, completes-Inv, drops-Inv}

-- The same references, as another function.
Inv-flying :
    {S : Type 0} (v : World S) (flying : ℕ → ℕ)
    → ((y : ℕ) → flying y ≡ v.flying y)
    → Inv v
    → Inv (record v { flying = flying })
Inv-flying v flying same i = record {
  xs = i.xs;
  queue = i.queue;
  owned =
      AllOwned-same v.sched.heap (holders v i.xs) i.owned v.sched.heap
        (holders (record v { flying = flying }) i.xs) (λ y. (refl, refl))
        (λ y. ground (arith, same y));
}

module _ {S : Type 0} (clock : ℕ → ℕ) (strategy : Strategy S) (users flying : ℕ → ℕ) where
  abbrev world : Scheduler S → World S
  world s = record { sched = s; users = users; flying = flying }

  process_one-Inv :
      (s : Scheduler S) (w : ℕ) (l : Linked)
      → dequeue_priority walk_fuel s.heap s.ready ≡ some (some w, l)
      → Inv (world s)
      → Inv (world (process_one clock strategy (relink s l) w))
  unfolding process_one
  process_one-Inv s w l e i =
      let taken = takes-Inv clock strategy (world s) w l e i in
      let assigned = assigns-Inv clock strategy _ w taken in
      let completed = completes-Inv clock strategy _ w assigned in
      let pos : 0 < update flying w (flying w + 1) w =
        omega (arith, update-eq flying w (flying w + 1)) in
      let dropped = drops-Inv clock strategy _ w pos completed in
      Inv-flying _ flying (λ y. ground arith) dropped

  after_dequeue-Inv :
      (s s1 : Scheduler S)
      → after_dequeue clock strategy s (dequeue_priority walk_fuel s.heap s.ready) ≡ some s1
      → Inv (world s)
      → Inv (world s1)
  unfolding after_dequeue
  after_dequeue-Inv s s1 e i =
      elim (dequeue_priority-Chosen walk_fuel s.heap s.ready i.xs i.queue
        (omega (arith, i.queue.room))) [
          | inl (low, none_left) ↦ rw⁻¹ (some-injective s s1 (rw none_left at e)) i
          | inr (x, c, l, found, lv, links) ↦
              rw⁻¹ (some-injective (process_one clock strategy (relink s l) x) s1 (rw found at e))
                (process_one-Inv s x l found i)
        ]

  pub process_loop-Inv :
      (fuel : ℕ) (s s' : Scheduler S)
      → process_loop clock strategy fuel s ≡ some s'
      → Inv (world s)
      → Inv (world s')
  unfolding process_loop
  process_loop-Inv zero s s' e i = absurd (cc)
  process_loop-Inv (suc fuel) s s' e i = elim (Bool-cases (ltb 0 s.ready.count)) [
    | inr f ↦ rw⁻¹ (some-injective s s' (rw f at e)) i
    | inl t ↦
        elim (Option-cases
          (after_dequeue clock strategy s (dequeue_priority walk_fuel s.heap s.ready))) [
            | inl n ↦ absurd (cc (rw (t, n) at e))
            | inr (s1, d) ↦
                process_loop-Inv fuel s1 s' (rw (t, d) at e) (after_dequeue-Inv s s1 d i)
          ]
  ]
