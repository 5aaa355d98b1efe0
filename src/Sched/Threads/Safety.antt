-- ===== src/Sched/Threads/Safety.antt =====
-- No step frees a workload that somebody still refers to.
use mathlib.Core.Option.{some-injective}
use mvgal.Base.{
  ℕ, ◌+◌, ◌<◌, ◌≡◌, refl, sym, ap, ◌∙◌, inl, inr, true, Option, none, some, List, [], ◌∷◌, ◌++◌,
  arith, length, Bool-cases, Option-cases,
}
use mvgal.Status.{Status, success, memory_error}
use mvgal.Sched.Types.{u32_mod, max_queued}
use mvgal.Sched.Queue.{retain, enqueue, append_tail, Linked}
use mvgal.Sched.Queue.Links.{NotIn, IsQueue, IsQueue-fresh}
use mvgal.Sched.Queue.Fifo.{enqueue-IsQueue, enqueue-room}
use mvgal.Sched.State.{Scheduler, Strategy}
use mvgal.Sched.Calls.{SubmitInfo, submit, place, queued_workload}
use mvgal.Sched.Threads.{
  World, Step, submits, takes, assigns, completes, drops, retains, releases, cancels, Reach, start,
  next, given,
}
use mvgal.Sched.Process.{process_loop}
use mvgal.Sched.Threads.Running.{process_loop-Inv}
use mvgal.Sched.Calls.Submit.{submit-runs, submit-stuck, counted_in, place-priority, place-refcount}
use mvgal.Sched.Threads.Submitting.{
  undone, submit-room, submit-full, undone-AllOwned, queued-AllOwned,
}
use mvgal.Sched.Threads.Invariant.{
  Inv, drops-Inv, releases-Inv, retains-Inv, completes-Inv, cancels-Inv, assigns-Inv, takes-Inv,
}
use mvgal.Sched.Threads.References.{count, NotIn-count, Owned, holders}

module _ {S : Type 0} (clock : ℕ → ℕ) (strategy : Strategy S) where
  module _ (v : World S) (fuel : ℕ) (info : SubmitInfo) (callback : Option ℕ) (w : ℕ)
      (free_block : (v.sched.heap w).freed ≡ true) (init : v.sched.initialized ≡ true)
      (word : info.priority < u32_mod) (i : Inv v) where
    nobody : holders v i.xs w ≡ 0
    nobody = elim (i.owned w) [ inl (f, z) ↦ z | inr (f, q, pos, small) ↦ absurd (cc) ]

    not_queued : NotIn w i.xs
    not_queued = NotIn-count w i.xs (omega (arith, nobody))

    abbrev placed : Scheduler S
    placed = place clock strategy v.sched info callback w

    placed-IsQueue : IsQueue placed.heap placed.ready i.xs
    placed-IsQueue =
        IsQueue-fresh v.sched.heap w (queued_workload clock strategy v.sched info callback)
          v.sched.ready i.xs not_queued i.queue

    linked :
        (l : Linked)
        → enqueue placed.heap placed.ready (some w) ≡ (success, l)
        → length i.xs < max_queued
        → append_tail (retain placed.heap (some w)) placed.ready w ≡ l
    linked l e fits =
        ap (λ p. p.1)
          (sym (enqueue-room placed.heap placed.ready w (omega (arith, placed-IsQueue.count))) ∙ e)

    queued-Inv :
        (l : Linked)
        → enqueue placed.heap placed.ready (some w) ≡ (success, l)
        → length i.xs < max_queued
        → IsQueue l.heap l.queue (i.xs ++ w ∷ [])
        → Inv (record {
          sched = counted_in clock strategy placed l;
          users = given (some w) v.users;
          flying = v.flying;
        })
    queued-Inv l e fits lv = record {
      xs = i.xs ++ w ∷ [];
      queue = lv;
      owned = rw⁻¹ (linked l e fits) (
          queued-AllOwned clock strategy v.sched fuel info callback w i.xs v.users v.flying i.owned
            nobody);
    }

    undone-Inv : Inv (record v { sched = undone clock strategy v.sched fuel info callback w })
    undone-Inv = record {
      xs = i.xs;
      queue = IsQueue-fresh placed.heap w _ placed.ready i.xs not_queued placed-IsQueue;
      owned =
          undone-AllOwned clock strategy v.sched fuel info callback w i.xs v.users v.flying i.owned
            nobody;
    }

    -- What a call has given out, from the result that it computes to.
    result-Inv :
        (st' st : Status) (handle' handle : Option ℕ) (s' s : Scheduler S)
        → submit clock strategy fuel v.sched info callback (some w) ≡ some (st', handle', s')
        → submit clock strategy fuel v.sched info callback (some w) ≡ some (st, handle, s)
        → Inv (record { sched = s'; users = given handle' v.users; flying = v.flying })
        → Inv (record { sched = s; users = given handle v.users; flying = v.flying })
    result-Inv st' st handle' handle s' s e' e inv =
        let all : Path (Status × Option ℕ × Scheduler S) (st', handle', s') (st, handle, s) =
          some-injective (st', handle', s') (st, handle, s) (sym e' ∙ e) in
        let same_handle : handle' ≡ handle = ap (λ p. p.1) all in
        let same_s : s' ≡ s = ap (λ p. p.2) all in rw⁻¹ same_handle (rw⁻¹ same_s inv)

    -- A submission that has queued the workload, with or without a thread.
    room-Inv :
        (l : Linked) (st : Status) (handle : Option ℕ) (s : Scheduler S)
        → enqueue placed.heap placed.ready (some w) ≡ (success, l)
        → Inv (record {
          sched = counted_in clock strategy placed l;
          users = given (some w) v.users;
          flying = v.flying;
        })
        → submit clock strategy fuel v.sched info callback (some w) ≡ some (st, handle, s)
        → Inv (record { sched = s; users = given handle v.users; flying = v.flying })
    room-Inv l st handle s e inv r = elim (Bool-cases v.sched.thread_running) [
      | inl running ↦
          result-Inv success st (some w) handle (counted_in clock strategy placed l) s
            (submit-room clock strategy v.sched fuel info callback w l running e) r inv
      | inr idle ↦
          elim (Option-cases
            (process_loop clock strategy fuel (counted_in clock strategy placed l))) [
              | inl never ↦ absurd (
                  cc (
                    submit-stuck clock strategy fuel v.sched info callback w l init idle e never,
                    r,
                  ))
              | inr (s', ends) ↦
                  result-Inv success st (some w) handle s' s
                    (submit-runs clock strategy fuel v.sched s' info callback w l init idle e ends)
                    r
                    (process_loop-Inv clock strategy (given (some w) v.users) v.flying fuel
                      (counted_in clock strategy placed l) s' ends inv)
            ]
    ]

    submits-Inv :
        (st : Status) (handle : Option ℕ) (s : Scheduler S)
        → submit clock strategy fuel v.sched info callback (some w) ≡ some (st, handle, s)
        → Inv (record { sched = s; users = given handle v.users; flying = v.flying })
    submits-Inv st handle s r =
        elim (enqueue-IsQueue placed.heap placed.ready i.xs w placed-IsQueue not_queued
          (omega (arith, place-priority clock strategy v.sched info callback w))
          (omega (arith, place-refcount clock strategy v.sched info callback w))) [
            | inl (fits, l, e, lv, lref, lprio) ↦
                room-Inv l st handle s e (queued-Inv l e fits lv) r
            | inr (full, e) ↦
                result-Inv memory_error st none handle
                  (undone clock strategy v.sched fuel info callback w) s
                  (submit-full clock strategy v.sched fuel info callback w e) r undone-Inv
          ]

  Step-Inv : {v u : World S} → Step clock strategy v u → Inv v → Inv u
  Step-Inv {v} (submits fuel info callback w st handle s f r word e) i =
      submits-Inv v fuel info callback w f r word i st handle s e
  Step-Inv {v} (takes w l e) i = takes-Inv clock strategy v w l e i
  Step-Inv {v} (assigns w pos) i = assigns-Inv clock strategy v w i
  Step-Inv {v} (completes w pos) i = completes-Inv clock strategy v w i
  Step-Inv {v} (drops w pos) i = drops-Inv clock strategy v w pos i
  Step-Inv {v} (retains w pos small) i = retains-Inv clock strategy v w pos small i
  Step-Inv {v} (releases w pos) i = releases-Inv clock strategy v w pos i
  Step-Inv {v} (cancels w pos) i = cancels-Inv clock strategy v w i

  Reach-Inv : {v : World S} → Reach clock strategy v → Inv v
  Reach-Inv (start s e f) = record {
    xs = [];
    queue = rw e (record {
      distinct = tt;
      chain = tt;
      head = refl;
      tail = refl;
      count = refl;
      room = omega arith;
      words = tt;
      total = omega arith;
    });
    owned = λ y. inl (f y, omega arith);
  }
  Reach-Inv (next r st) = Step-Inv st (Reach-Inv r)

  -- From an empty queue with every block free, in every state that these steps reach in any order -
  -- submissions of 32-bit priorities to an initialized scheduler, which run the queue when there is no
  -- scheduler thread, references that users take, up to 2^32 - 1 of a block, and drop, cancellations, and
  -- the steps of scheduler threads -: the queue is well-formed, and a block is allocated exactly while
  -- a user, a thread or the queue refers to it, its counter is then the number of these references, and a
  -- free block has none. So no workload is freed too early, and none is left over.
  pub references_counted :
      {v : World S}
      → Reach clock strategy v
      → (xs : List ℕ) × IsQueue v.sched.heap v.sched.ready xs
        × ((y : ℕ)
            → Owned
                (v.sched.heap y).freed
                (v.sched.heap y).refcount
                (v.users y + v.flying y + count y xs))
  references_counted r = let i = Reach-Inv r in (i.xs, i.queue, i.owned)
