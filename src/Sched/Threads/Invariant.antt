-- ===== src/Sched/Threads/Invariant.antt =====
-- The steps other than a submission keep the queue and the reference counts.
use mathlib.Core.Option.{some-injective}
use mvgal.Base.{
  ℕ, suc, ◌+◌, ◌-◌, ◌<◌, ◌≡◌, refl, sym, ap, ◌∙◌, ◌≢◌, inl, inr, Option, some, List, ◌∷◌, ◌++◌,
  arith, update, eq-or-ne, update-eq, update-ne, Bool-cases,
}
use mvgal.Status.{success}
use mvgal.Sched.Types.{u32_mod, Workload, Heap, WorkloadQueue}
use mvgal.Sched.Queue.{retain, release, dequeue_priority, Linked}
use mvgal.Sched.Queue.Links.{IsQueue, IsQueue-same}
use mvgal.Sched.Queue.Priority.{dequeue_priority-Chosen}
use mvgal.Sched.State.{Scheduler, Strategy, relink}
use mvgal.Sched.Process.{walk_fuel, complete}
use mvgal.Sched.Calls.{cancel, is_waiting}
use mvgal.Sched.Threads.{World}
use mvgal.Sched.Threads.References.{
  count, count-append, holders, AllOwned, AllOwned-release, AllOwned-retain, AllOwned-same,
  AllOwned-write,
}

-- A write to a workload that keeps its links and its priority.
IsQueue-write :
    (h : Heap) (w : ℕ) (b : Workload) (q : WorkloadQueue) (xs : List ℕ)
    → b.next ≡ (h w).next
    → b.prev ≡ (h w).prev
    → b.priority ≡ (h w).priority
    → IsQueue h q xs
    → IsQueue (update h w b) q xs
IsQueue-write h w b q xs n p r v =
    IsQueue-same h (update h w b)
      (λ y. elim (eq-or-ne y w) [
        | inl e ↦ rw e (rw (update-eq h w b) (n, p, r))
        | inr d ↦ rw (update-ne h w b y d) (refl, refl, refl)
      ])
      q xs v

-- The queue is well-formed, and every block is counted.
pub record Inv {S : Type 0} (v : World S) : Type 0 where
  pub xs : List ℕ
  pub queue : IsQueue v.sched.heap v.sched.ready xs
  pub owned : AllOwned v.sched.heap (holders v xs)

module _ {S : Type 0} (clock : ℕ → ℕ) (strategy : Strategy S) where
  dropped-Inv :
      (v : World S) (w : ℕ) (m : ℕ → ℕ) (i : Inv v)
      → holders v i.xs w ≡ suc (m w)
      → ((y : ℕ) → y ≢ w → m y ≡ holders v i.xs y)
      → IsQueue (release v.sched.heap (some w)) v.sched.ready i.xs
        × AllOwned (release v.sched.heap (some w)) m
  unfolding release
  dropped-Inv v w m i e same = (
    IsQueue-write v.sched.heap w _ v.sched.ready i.xs refl refl refl i.queue,
    AllOwned-release v.sched.heap (holders v i.xs) i.owned w m e same,
  )

  pub drops-Inv :
      (v : World S) (w : ℕ)
      → 0 < v.flying w
      → Inv v
      → Inv (record {
        sched = record v.sched { heap = release v.sched.heap (some w) };
        users = v.users;
        flying = update v.flying w (v.flying w - 1);
      })
  drops-Inv v w pos i =
      let (queue, owned) =
        dropped-Inv v w (λ y. v.users y + update v.flying w (v.flying w - 1) y + count y i.xs) i
          (ground (arith, pos)) (λ y d. ground (arith, d)) in
      record { xs = i.xs; queue = queue; owned = owned }

  pub releases-Inv :
      (v : World S) (w : ℕ)
      → 0 < v.users w
      → Inv v
      → Inv (record {
        sched = record v.sched { heap = release v.sched.heap (some w) };
        users = update v.users w (v.users w - 1);
        flying = v.flying;
      })
  releases-Inv v w pos i =
      let (queue, owned) =
        dropped-Inv v w (λ y. update v.users w (v.users w - 1) y + v.flying y + count y i.xs) i
          (ground (arith, pos)) (λ y d. ground (arith, d)) in
      record { xs = i.xs; queue = queue; owned = owned }

  pub retains-Inv :
      (v : World S) (w : ℕ)
      → 0 < v.users w
      → (v.sched.heap w).refcount + 1 < u32_mod
      → Inv v
      → Inv (record {
        sched = record v.sched { heap = retain v.sched.heap (some w) };
        users = update v.users w (v.users w + 1);
        flying = v.flying;
      })
  unfolding retain
  retains-Inv v w pos small i = record {
    xs = i.xs;
    queue = IsQueue-write v.sched.heap w _ v.sched.ready i.xs refl refl refl i.queue;
    owned =
        AllOwned-retain v.sched.heap (holders v i.xs) i.owned w
          (λ y. update v.users w (v.users w + 1) y + v.flying y + count y i.xs) (ground arith)
          (omega arith) small (λ y d. ground (arith, d));
  }

  -- A write to a workload's other fields.
  write-Inv :
      (v : World S) (s : Scheduler S) (w : ℕ) (b : Workload)
      → s.heap ≡ update v.sched.heap w b
      → s.ready ≡ v.sched.ready
      → b.next ≡ (v.sched.heap w).next
      → b.prev ≡ (v.sched.heap w).prev
      → b.priority ≡ (v.sched.heap w).priority
      → b.freed ≡ (v.sched.heap w).freed
      → b.refcount ≡ (v.sched.heap w).refcount
      → Inv v
      → Inv (record v { sched = s })
  write-Inv v s w b eh er n p r f c i = record {
    xs = i.xs;
    queue = rw eh (rw er (IsQueue-write v.sched.heap w b v.sched.ready i.xs n p r i.queue));
    owned = rw eh (AllOwned-write v.sched.heap (holders v i.xs) i.owned w b f c);
  }

  pub completes-Inv :
      (v : World S) (w : ℕ)
      → Inv v
      → Inv (record v { sched = complete clock v.sched (some w) success })
  unfolding complete
  completes-Inv v w i =
      write-Inv v (complete clock v.sched (some w) success) w _ refl refl refl refl refl refl refl i

  pub cancels-Inv :
      (v : World S) (w : ℕ) → Inv v → Inv (record v { sched = (cancel v.sched (some w)).1 })
  unfolding cancel
  cancels-Inv v w i = elim (Bool-cases (is_waiting (v.sched.heap w).state)) [
    | inl e ↦ rw e (write-Inv v _ w _ refl refl refl refl refl refl refl i)
    | inr e ↦ rw e i
  ]

  pub assigns-Inv :
      (v : World S) (w : ℕ)
      → Inv v
      → Inv (record v {
        sched = record v.sched {
          heap = (strategy.apply v.sched.strategy_state v.sched.heap w).heap;
          strategy_state = (strategy.apply v.sched.strategy_state v.sched.heap w).state;
        };
      })
  assigns-Inv v w i =
      let a = strategy.assigns v.sched.strategy_state v.sched.heap w in
      record {
        xs = i.xs;
        queue =
            IsQueue-same v.sched.heap (strategy.apply v.sched.strategy_state v.sched.heap w).heap
              (λ y. (
                ap (λ b. Workload.next b) (a y),
                ap (λ b. Workload.prev b) (a y),
                ap (λ b. Workload.priority b) (a y),
              ))
              v.sched.ready i.xs i.queue;
        owned =
            AllOwned-same v.sched.heap (holders v i.xs) i.owned
              (strategy.apply v.sched.strategy_state v.sched.heap w).heap (holders v i.xs)
              (λ y. (ap (λ b. Workload.freed b) (a y), ap (λ b. Workload.refcount b) (a y)))
              (λ y. refl);
      }

  pub takes-Inv :
      (v : World S) (w : ℕ) (l : Linked)
      → dequeue_priority walk_fuel v.sched.heap v.sched.ready ≡ some (some w, l)
      → Inv v
      → Inv (record {
        sched = relink v.sched l;
        users = v.users;
        flying = update v.flying w (v.flying w + 1);
      })
  takes-Inv v w l e i =
      elim (dequeue_priority-Chosen walk_fuel v.sched.heap v.sched.ready i.xs i.queue
        (omega (arith, i.queue.room))) [
          | inl (low, e') ↦ absurd (cc)
          | inr (x, c, l', e', lv, links) ↦
              let both : Path (Option ℕ × Linked) (some x, l') (some w, l) =
                some-injective (some x, l') (some w, l) (sym e' ∙ e) in
              let same_w : x ≡ w = some-injective x w (ap (λ p. p.0) both) in
              let same_l : l' ≡ l = ap (λ p. p.1) both in
              rw⁻¹ same_w (
                rw⁻¹ same_l (record {
                  xs = c.pre ++ c.post;
                  queue = lv;
                  owned =
                      AllOwned-same v.sched.heap (holders v i.xs) i.owned l'.heap
                        (λ y.
                          v.users y
                          + update v.flying x (v.flying x + 1) y
                          + count y (c.pre ++ c.post))
                        (λ y. (
                          ap (λ b. Workload.freed b) (links y),
                          ap (λ b. Workload.refcount b) (links y),
                        ))
                        (λ y. ground (
                          arith,
                          ap (count y) c.split,
                          count-append y c.pre (x ∷ c.post),
                          count-append y c.pre c.post,
                        ));
                }))
        ]
