-- ===== src/Kernel/Submit/Ends.antt =====
-- How a submission ends, on every branch.
use mvgal.Base.{
  ℕ, ◌≡◌, refl, ◌≢◌, ◌⊎◌, inl, inr, true, false, Option, none, some, List, arith, if_elim, ◌==◌,
  if◌then◌else◌, not, ltb, ◌∙◌, update-eq, update-ne,
}
use mvgal.Base.Wait.{
  Wakeup, Waited, Keeps, state_of, wait_loop, timed_loop, wait_loop_inv, timed_loop_inv,
}
use mvgal.Kernel.Workloads.{
  Workload, Scheduler, einval, enomem, efault, enodev, is_negative, is_over, is_done, alloc, free,
  with_workload, after_wait, wait, new_workload,
}
use mvgal.Kernel.Dispatch.{Gpu, has_bit, find_available_gpu, submit_cs}
use mvgal.Kernel.Submit.{
  max_workload_size, workload_transfer, Args, Copies, SubmitEnd, returned, waiting, copied, filled,
  stored, accepted, given_to, submit_to, fill, with_block, ioctl_submit_workload, waited, err_free,
}

-- Only the block of the workload `w` and the counter of identifiers differ between `s` and `t`.
pub record Only (w : ℕ) (s t : Scheduler) : Type 0 where
  pub queues : t.queues ≡ s.queues
  pub others : (y : ℕ) → y ≢ w → t.heap y ≡ s.heap y

-- The call has failed: the arguments and the file are as they were, and so is the scheduler, or it has
-- the new workload's block, which is freed again.
pub record Refused (fresh : Option ℕ) (args : Args) (file : Option (List ℕ)) (s : Scheduler)
    (ret : ℕ) (args' : Args) (file' : Option (List ℕ)) (t : Scheduler) : Type 0 where
  pub code : ret ≢ 0
  pub same_args : args' ≡ args
  pub same_file : file' ≡ file
  pub block : (t ≡ s) ⊎ ((w : ℕ) × (fresh ≡ some w) × ((t.heap w).freed ≡ true) × Only w s t)

-- The call has returned 0: the new workload is not freed, the arguments have its number, and it is the
-- last in the list of the file, if there is one.
pub record Accepted (fresh : Option ℕ) (file : Option (List ℕ)) (s : Scheduler) (ret : ℕ)
    (args' : Args) (file' : Option (List ℕ)) (t : Scheduler) : Type 0 where
  pub code : ret ≡ 0
  pub block : ℕ
  pub fresh_block : fresh ≡ some block
  pub alive : (t.heap block).freed ≡ false
  pub number : args'.workload_id ≡ s.next_workload_id
  pub in_file : file' ≡ stored block file
  pub only : Only block s t

-- A call that still waits has its workload in no list, and not freed.
abbrev pub Ended : Option ℕ → Args → Option (List ℕ) → Scheduler → SubmitEnd → Type 0
Ended fresh args file s (returned ret args' file' t) =
    Refused fresh args file s ret args' file' t ⊎ Accepted fresh file s ret args' file' t
Ended fresh args file s (waiting args' t) =
    (w : ℕ) × (fresh ≡ some w) × ((t.heap w).freed ≡ false) × Only w s t

abbrev pub Alive : Workload → Type 0
Alive v = v.freed ≡ false

abbrev AliveEnd : Option ℕ × Option Workload → Type 0
AliveEnd (r, none) = ⊥
AliveEnd (r, some v) = Alive v

after_wait-Alive : (o : Waited Workload) → Alive (state_of o) → Alive (after_wait o).1
unfolding after_wait
after_wait-Alive (Waited.ready v) a = a
after_wait-Alive (Waited.timeout v) a = a
after_wait-Alive (Waited.error v) a = a
after_wait-Alive (Waited.blocked v) a = a

wait-Alive :
    (ws : List (Wakeup Workload)) (v : Workload) (timeout_ms : ℕ)
    → Keeps Alive ws
    → Alive v
    → AliveEnd (wait ws (some v) timeout_ms)
unfolding wait
wait-Alive ws v timeout_ms k a =
    if_elim AliveEnd (is_over v.state) _ _ (λ _. a)
      (λ _.
        if_elim (λ (o : Option ℕ × Workload). Alive o.1) (timeout_ms == 0) _ _
          (λ _. after_wait-Alive (wait_loop is_done ws v) (wait_loop_inv is_done Alive ws v k a))
          (λ _. after_wait-Alive (timed_loop is_done ws v) (timed_loop_inv is_done Alive ws v k a)))

-- The state in which the new workload is at `w`.
record Fresh (w : ℕ) (s t : Scheduler) : Type 0 where
  only : Only w s t
  alive : Alive (t.heap w)
  number : (t.heap w).id ≡ s.next_workload_id

Only-write : (w : ℕ) (s t : Scheduler) (v : Workload) → Only w s t → Only w s (with_workload t w v)
Only-write w s t v o = record {
  queues = o.queues;
  others = λ y n. update-ne t.heap w v y n ∙ o.others y n;
}

Fresh-write :
    (w : ℕ) (s t : Scheduler) (v : Workload)
    → v.freed ≡ (t.heap w).freed
    → v.id ≡ (t.heap w).id
    → Fresh w s t
    → Fresh w s (with_workload t w v)
Fresh-write w s t v a i f = record {
  only = Only-write w s t v f.only;
  alive = rw (update-eq t.heap w v) (a ∙ f.alive);
  number = rw (update-eq t.heap w v) (i ∙ f.number);
}

Fresh-alloc : (w : ℕ) (s : Scheduler) → Fresh w s (alloc s (some w)).1
unfolding alloc
Fresh-alloc w s = record {
  only = record {
    queues = refl;
    others = λ y n. update-ne s.heap w (new_workload s.next_workload_id) y n;
  };
  alive = rw (update-eq s.heap w (new_workload s.next_workload_id)) refl;
  number = rw (update-eq s.heap w (new_workload s.next_workload_id)) refl;
}

module _ (ws : List (Wakeup Workload)) (copies : Copies) (gpus : List Gpu) (args : Args)
    (file : Option (List ℕ)) (s : Scheduler) where
  err_free-Ended :
      (w : ℕ) (t : Scheduler) (ret : ℕ)
      → ret ≢ 0
      → Fresh w s t
      → Ended (some w) args file s (err_free ws copies gpus args file w t ret)
  unfolding free
  err_free-Ended w t ret nz f = inl (record {
    code = nz;
    same_args = refl;
    same_file = refl;
    block = inr (
      w,
      refl,
      rw (update-eq t.heap w (record (t.heap w) { freed = true })) refl,
      Only-write w s t (record (t.heap w) { freed = true }) f.only,
    );
  })

  waited-Ended :
      (w : ℕ) (t : Scheduler) (o : Option ℕ × Option Workload)
      → Fresh w s t
      → AliveEnd o
      → Ended (some w) args file s (waited ws copies gpus args file w t o)
  waited-Ended w t (r, none) f a = elim a [ ]
  waited-Ended w t (none, some v) f a =
      (w, refl, rw (update-eq t.heap w v) a, Only-write w s t v f.only)
  waited-Ended w t (some r, some v) f a = inr (record {
    code = refl;
    block = w;
    fresh_block = refl;
    alive = rw (update-eq t.heap w v) a;
    number = f.number;
    in_file = refl;
    only = Only-write w s t v f.only;
  })

  accepted-Ended :
      (w : ℕ) (t : Scheduler)
      → Keeps Alive ws
      → Fresh w s t
      → Ended (some w) args file s (accepted ws copies gpus args file w t)
  unfolding accepted
  accepted-Ended w t k f =
      if_elim (Ended (some w) args file s) (has_bit args.flags 0) _ _
        (λ _.
          waited-Ended w t (wait ws (some (t.heap w)) args.timeout_ms) f
            (wait-Alive ws (t.heap w) args.timeout_ms k f.alive))
        (λ _. inr (record {
          code = refl;
          block = w;
          fresh_block = refl;
          alive = f.alive;
          number = f.number;
          in_file = refl;
          only = f.only;
        }))

  negative-nonzero : (n : ℕ) → is_negative n ≡ true → n ≢ 0
  negative-nonzero n e z = ground arith

  submit_to-Ended :
      (w : ℕ) (t : Scheduler) (o : Option Gpu)
      → Keeps Alive ws
      → Fresh w s t
      → Ended (some w) args file s (submit_to ws copies gpus args file w t o)
  unfolding submit_to
  submit_to-Ended w t none k f = err_free-Ended w t enodev (λ z. omega arith) f
  submit_to-Ended w t (some g) k f =
      let t1 : Scheduler = with_workload t w (given_to ws copies gpus args file g (t.heap w)) in
      let f1 : Fresh w s t1 =
        Fresh-write w s t _
          (if_elim (λ v. Workload.freed v ≡ (t.heap w).freed) g.ops _ _ (λ _. refl) (λ _. refl))
          (if_elim (λ v. Workload.id v ≡ (t.heap w).id) g.ops _ _ (λ _. refl) (λ _. refl)) f in
      if_elim (Ended (some w) args file s) (is_negative (if g.ops then submit_cs g else 0)) _ _
        (λ e. err_free-Ended w t1 _ (negative-nonzero _ e) f1) (λ _. accepted-Ended w t1 k f1)

  fill-Ended :
      (w : ℕ) (t : Scheduler)
      → Keeps Alive ws
      → Fresh w s t
      → Ended
          (some w)
          args
          file
          s
          (fill ws copies gpus args file w t (copied copies args (t.heap w)))
  unfolding fill
  fill-Ended w t k f =
      let Q : Option Workload → Type 0 =
        λ o. Ended (some w) args file s (fill ws copies gpus args file w t o) in
      let failed : Q none = err_free-Ended w t efault (λ z. omega arith) f in
      if_elim Q (not copies.addr) _ _ (λ _. failed)
        (λ _.
          if_elim Q (not copies.size) _ _ (λ _. failed)
            (λ _.
              if_elim Q (not copies.priority) _ _ (λ _. failed)
                (λ _.
                  if_elim Q (not copies.gpu_mask) _ _ (λ _. failed)
                    (λ _.
                      submit_to-Ended w (with_workload t w (filled args (t.heap w)))
                        (find_available_gpu gpus args.gpu_mask) k
                        (Fresh-write w s t (filled args (t.heap w)) refl refl f)))))

  unchanged-Ended :
      (fresh : Option ℕ) (ret : ℕ) → ret ≢ 0 → Ended fresh args file s (returned ret args file s)
  unchanged-Ended fresh ret nz =
      inl (record { code = nz; same_args = refl; same_file = refl; block = inl refl })

  with_block-Ended :
      (fresh : Option ℕ)
      → Keeps Alive ws
      → Ended fresh args file s (with_block ws copies gpus args file (alloc s fresh))
  unfolding with_block alloc
  with_block-Ended none k = unchanged-Ended none enomem (λ z. omega arith)
  with_block-Ended (some w) k = fill-Ended w (alloc s (some w)).1 k (Fresh-alloc w s)

  -- If the other threads do not free the workload while the call waits: a submission that fails, with
  -- a code other than 0, leaves the arguments, the file and every block as they were, and has freed
  -- the block that it had allocated; one that returns 0 has an allocated workload that is not freed,
  -- is numbered as the arguments then say, and is the last of the file's list; one that still waits
  -- has freed nothing.
  pub ioctl_submit_workload-Ended :
      (fresh : Option ℕ)
      → Keeps Alive ws
      → Ended fresh args file s (ioctl_submit_workload ws copies gpus args file fresh s)
  unfolding ioctl_submit_workload
  ioctl_submit_workload-Ended fresh k =
      if_elim (Ended fresh args file s) (ltb max_workload_size args.command_buffer_size) _ _
        (λ _. unchanged-Ended fresh einval (λ z. omega arith))
        (λ _.
          if_elim (Ended fresh args file s) (ltb workload_transfer args.workload_type) _ _
            (λ _. unchanged-Ended fresh einval (λ z. omega arith)) (λ _. with_block-Ended fresh k))
