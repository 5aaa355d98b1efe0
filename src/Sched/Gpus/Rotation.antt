-- ===== src/Sched/Gpus/Rotation.antt =====
-- The rotation of alternate frame rendering: round robin over the configured GPUs.
use native.Mathlib.Nat.{mod-add-mod, mod-lt, zero-mod}
use mvgal.Base.{
  ℕ, zero, suc, ◌+◌, ◌%◌, ◌<◌, ◌≤◌, ◌≡◌, refl, sym, ap, ◌∙◌, ◌≢◌, inl, inr, false, ◌||◌, Option,
  some, List, [], ◌∷◌, arith, length, get_elem?, ltb, ◌==◌, if◌then◌else◌, Bool-cases,
}
use mvgal.Status.{success}
use mvgal.Sched.Types.{Workload, Heap}
use mvgal.Sched.Gpus.{
  Afr, afr_init, afr_configure, afr_get_next_gpu, copy_indices, max_gpus, no_gpu, in_mask, masked,
  afr_masked, assign_next, distribute_afr,
}

-- The GPU of the k-th call from now on.
abbrev pub nth_gpu : ℕ → Afr → ℕ
nth_gpu zero a = (afr_get_next_gpu a).0
nth_gpu (suc k) a = nth_gpu k (afr_get_next_gpu a).1

next_gpu :
    (a : Afr)
    → 0 < a.gpu_count
    → ((afr_get_next_gpu a).0 ≡ a.gpu_indices a.current_gpu_index)
      × ((afr_get_next_gpu a).1.gpu_count ≡ a.gpu_count)
      × ((afr_get_next_gpu a).1.gpu_indices ≡ a.gpu_indices)
      × ((afr_get_next_gpu a).1.current_gpu_index ≡ (a.current_gpu_index + 1) % a.gpu_count)
unfolding afr_get_next_gpu
next_gpu a l =
    let some_gpu : (a.gpu_count == 0) ≡ false = ground arith in rw some_gpu (refl, refl, refl, refl)

nth_gpu_lem :
    (k c n : ℕ) (f : ℕ → ℕ) (a : Afr)
    → a.gpu_count ≡ n
    → a.gpu_indices ≡ f
    → a.current_gpu_index ≡ c % n
    → 0 < n
    → nth_gpu k a ≡ f ((c + k) % n)
nth_gpu_lem zero c n f a count indices current l =
    (next_gpu a (omega (arith, count))).0
    ∙ ap (λ g. g a.current_gpu_index) indices
    ∙ ap f (current ∙ ap (λ x. x % n) (omega arith))
nth_gpu_lem (suc k) c n f a count indices current l =
    let next = next_gpu a (omega (arith, count)) in
    nth_gpu_lem k (c + 1) n f (afr_get_next_gpu a).1 (next.1 ∙ count) (next.2 ∙ indices)
      (next.3
        ∙ ap (λ x. (a.current_gpu_index + 1) % x) count
        ∙ ap (λ x. (x + 1) % n) current
        ∙ mod-add-mod c n 1)
      l
    ∙ ap (λ x. f (x % n)) (omega arith)

configured :
    (a : Afr) (indices : List ℕ)
    → 0 < length indices
    → length indices ≤ max_gpus
    → afr_configure a indices ≡ (
      success,
      record (afr_init a) {
        gpu_count = length indices;
        gpu_indices = copy_indices indices (afr_init a).gpu_indices;
        current_gpu_index = 0;
        frame_counter = 0;
      },
    )
unfolding afr_configure
configured a indices l m =
    let ok : ((length indices == 0) || ltb max_gpus (length indices)) ≡ false = ground arith in
    rw ok refl

copied :
    (indices : List ℕ) (old : ℕ → ℕ) (i : ℕ)
    → i < length indices
    → get_elem? indices i ≡ some (copy_indices indices old i)
copied [] old i l = absurd (omega arith)
copied (x ∷ xs) old zero l = refl
copied (x ∷ xs) old (suc i) l = copied xs (λ j. old (suc j)) i (omega arith)

-- After a configuration with between one and 16 GPUs, the k-th call gives the GPU at position k modulo
-- their number: the GPUs take turns in the order given.
pub afr_configure-nth_gpu :
    (a : Afr) (indices : List ℕ) (k : ℕ)
    → 0 < length indices
    → length indices ≤ max_gpus
    → get_elem? indices (k % length indices) ≡ some (nth_gpu k (afr_configure a indices).1)
afr_configure-nth_gpu a indices k l m =
    let old : ℕ → ℕ = (afr_init a).gpu_indices in
    rw (configured a indices l m) (
      copied indices old (k % length indices) (mod-lt k l)
      ∙ ap some (
          sym (
            nth_gpu_lem k 0 (length indices) (copy_indices indices old) _ refl refl
              (sym (zero-mod (length indices))) l
            ∙ ap (λ x. copy_indices indices old (x % length indices)) (omega arith))))

masked_head : (mask n j i : ℕ) (rest : List ℕ) → masked mask n j ≡ i ∷ rest → i < j + n
unfolding masked
masked_head mask zero j i rest e = absurd (cc e)
masked_head mask (suc n) j i rest e = elim (Bool-cases (in_mask mask j)) [
  | inl t ↦
      let e' : j ∷ masked mask n (suc j) ≡ i ∷ rest =
        rw⁻¹ (ap (λ b. if b then j ∷ masked mask n (suc j) else masked mask n (suc j)) t) e in
      ground arith
  | inr f ↦
      let e' : masked mask n (suc j) ≡ i ∷ rest =
        rw⁻¹ (ap (λ b. if b then j ∷ masked mask n (suc j) else masked mask n (suc j)) f) e in
      omega (arith, masked_head mask n (suc j) i rest e')
]

length-masked : (mask n j : ℕ) → length (masked mask n j) ≤ n
unfolding masked
length-masked mask zero j = omega arith
length-masked mask (suc n) j = elim (Bool-cases (in_mask mask j)) [
  | inl t ↦ rw t (omega (arith, length-masked mask n (suc j)))
  | inr f ↦ rw f (omega (arith, length-masked mask n (suc j)))
]

masked_next :
    (a : Afr) (w : Workload) (i : ℕ) (rest : List ℕ)
    → w.gpu_mask ≢ no_gpu
    → masked w.gpu_mask max_gpus 0 ≡ i ∷ rest
    → (afr_get_next_gpu (afr_masked a w)).0 ≡ i
unfolding afr_masked
masked_next a w i rest mask first =
    let named : (w.gpu_mask == no_gpu) ≡ false = ground (arith, mask) in
    let room : length (i ∷ rest) ≤ max_gpus =
      omega (arith, ap length first, length-masked w.gpu_mask max_gpus 0) in
    rw named
      (rw first (rw (configured a (i ∷ rest) (omega arith) room) ((next_gpu _ (omega arith)).0)))

assign_next-AssignedTo :
    (h : Heap) (w i : ℕ) (best : Option ℕ) (p : ℕ × Afr)
    → p.0 ≡ i
    → i < no_gpu
    → ((assign_next h w best p).0 ≡ success)
      × (((assign_next h w best p).1 w).assigned_gpu ≡ i)
      × ((y : ℕ) → y ≢ w → (assign_next h w best p).1 y ≡ h y)
assign_next-AssignedTo h w i best (j, a) e l =
    let some_gpu : (j == no_gpu) ≡ false = ground arith in
    rw some_gpu (refl, ground arith, λ y d. ground (arith, d))

-- A workload without assigned GPUs that names GPUs by its mask starts the rotation again: it gets the
-- first GPU of its mask, in whatever state the rotation is, and nothing else of the store changes.
pub distribute_afr-masked :
    (best : Workload → Option ℕ) (a : Afr) (h : Heap) (w i : ℕ) (rest : List ℕ)
    → (h w).assigned_gpu_count ≡ 0
    → (h w).gpu_mask ≢ no_gpu
    → masked (h w).gpu_mask max_gpus 0 ≡ i ∷ rest
    → ((distribute_afr best a h w).0 ≡ success)
      × (((distribute_afr best a h w).1 w).assigned_gpu ≡ i)
      × ((y : ℕ) → y ≢ w → (distribute_afr best a h w).1 y ≡ h y)
unfolding distribute_afr afr_masked
distribute_afr-masked best a h w i rest fresh mask first =
    let unassigned : ltb 0 (h w).assigned_gpu_count ≡ false = ground (arith, fresh) in
    rw unassigned (
      assign_next-AssignedTo h w i (best (h w)) _ (masked_next (afr_init a) (h w) i rest mask first)
        (omega (arith, masked_head (h w).gpu_mask max_gpus 0 i rest first)))
