-- ===== src/Sched/Splitters/Registered.antt =====
-- The registered splitters as a collection without an order.
use mathlib.Core.List.{Perm}
use mathlib.Core.List.Perm
use mvgal.Base.{
  suc, ◌≡◌, ◌⊎◌, inl, inr, refl, ap, Bool, true, false, some, List, [], ◌∷◌, length, All,
  if◌then◌else◌, Bool-cases,
}
use mvgal.Status.{Status, success, invalid_argument, out_of_memory}
use mvgal.Sched.Splitters.{
  Splitter, Slot, behind, matches, register_in, unregister_in, register_custom_splitter,
  unregister_custom_splitter, get_custom_splitter_count,
}

-- The splitters of the slots in use.
abbrev pub registered : List Slot → List Splitter
registered [] = []
registered (v ∷ vs) = if v.used then v.splitter ∷ registered vs else registered vs

-- A new splitter is one more, or every slot is in use and nothing changes.
abbrev pub Registers : Splitter → List Slot → Status × List Slot → Type 0
Registers s t (st, t') =
    ((st ≡ success) × (length t' ≡ length t) × Perm (registered t') (s ∷ registered t))
    ⊎ ((st ≡ out_of_memory) × (t' ≡ t) × (length (registered t) ≡ length t))

-- A splitter with these callbacks is one less, or there is none and nothing changes.
abbrev pub Unregisters : Splitter → List Slot → Status × List Slot → Type 0
Unregisters s t (st, t') =
    ((v : Splitter) × (matches s v ≡ true)
      × (st ≡ success)
      × (length t' ≡ length t)
      × Perm (registered t) (v ∷ registered t'))
    ⊎ ((st ≡ invalid_argument) × (t' ≡ t) × All (λ v. matches s v ≡ false) (registered t))

-- A slot that is in use, and one that is free.
abbrev holding : Splitter → Slot
holding x = record { splitter = x; used = true }

abbrev left : Splitter → Slot
left x = record { splitter = x; used = false }

behind-Registers :
    (s x : Splitter) (vs : List Slot) (r : Status × List Slot)
    → Registers s vs r
    → Registers s (holding x ∷ vs) (behind (holding x) r)
behind-Registers s x vs (st, t') (inl (e, l, p)) =
    inl (e, ap suc l, Perm.trans (Perm.cons x p) (Perm.swap s x (registered vs)))
behind-Registers s x vs (st, t') (inr (e, same, full)) =
    inr (e, ap (λ (y : List Slot). holding x ∷ y) same, ap suc full)

behind-Unregisters-holding :
    (s x : Splitter) (vs : List Slot) (r : Status × List Slot)
    → matches s x ≡ false
    → Unregisters s vs r
    → Unregisters s (holding x ∷ vs) (behind (holding x) r)
behind-Unregisters-holding s x vs (st, t') other (inl (y, m, e, l, p)) =
    inl (y, m, e, ap suc l, Perm.trans (Perm.cons x p) (Perm.swap y x (registered t')))
behind-Unregisters-holding s x vs (st, t') other (inr r) =
    inr (r.0, ap (λ (y : List Slot). holding x ∷ y) r.1, (other, r.2))

behind-Unregisters-left :
    (s x : Splitter) (vs : List Slot) (r : Status × List Slot)
    → Unregisters s vs r
    → Unregisters s (left x ∷ vs) (behind (left x) r)
behind-Unregisters-left s x vs (st, t') (inl (y, m, e, l, p)) = inl (y, m, e, ap suc l, p)
behind-Unregisters-left s x vs (st, t') (inr r) =
    inr (r.0, ap (λ (y : List Slot). left x ∷ y) r.1, r.2)

register-slot :
    (s x : Splitter) (u : Bool) (vs : List Slot)
    → Registers s vs (register_in s vs)
    → Registers s
        (record { splitter = x; used = u } ∷ vs)
        (register_in s (record { splitter = x; used = u } ∷ vs))
unfolding register_in
register-slot s x true vs ih = behind-Registers s x vs (register_in s vs) ih
register-slot s x false vs ih = inl (refl, refl, Perm.rfl)

register_in-Registers : (s : Splitter) (t : List Slot) → Registers s t (register_in s t)
unfolding register_in
register_in-Registers s [] = inr (refl, refl, refl)
register_in-Registers s (v ∷ vs) = register-slot s v.splitter v.used vs (register_in-Registers s vs)

unregister-slot :
    (s x : Splitter) (u : Bool) (vs : List Slot)
    → Unregisters s vs (unregister_in s vs)
    → Unregisters s
        (record { splitter = x; used = u } ∷ vs)
        (unregister_in s (record { splitter = x; used = u } ∷ vs))
unfolding unregister_in
unregister-slot s x true vs ih = elim (Bool-cases (matches s x)) [
  | inl m ↦ rw m (inl (x, m, refl, refl, Perm.rfl))
  | inr m ↦
      let next = behind-Unregisters-holding s x vs (unregister_in s vs) m ih in rw m (rw m at next)
]
unregister-slot s x false vs ih = behind-Unregisters-left s x vs (unregister_in s vs) ih

unregister_in-Unregisters : (s : Splitter) (t : List Slot) → Unregisters s t (unregister_in s t)
unfolding unregister_in
unregister_in-Unregisters s [] = inr (refl, refl, tt)
unregister_in-Unregisters s (v ∷ vs) =
    unregister-slot s v.splitter v.used vs (unregister_in-Unregisters s vs)

-- Registering a splitter succeeds as long as a slot is free, and then the registered splitters are
-- those of before and the new one, up to their order; when all slots are in use it fails with
-- OUT_OF_MEMORY and changes nothing. Removing takes one splitter with the same `split` and `merge`
-- callbacks from those registered, up to their order, or fails with INVALID_ARGUMENT and changes nothing
-- when none has them. The table keeps its size.
pub registering-Registered :
    (s : Splitter) (t : List Slot)
    → Registers s t (register_custom_splitter (some s) t)
      × Unregisters s t (unregister_custom_splitter (some s) t)
unfolding register_custom_splitter unregister_custom_splitter
registering-Registered s t = (register_in-Registers s t, unregister_in-Unregisters s t)

-- The count is that of the registered splitters.
get_custom_splitter_count-registered :
    (t : List Slot) → get_custom_splitter_count t ≡ length (registered t)
unfolding get_custom_splitter_count
get_custom_splitter_count-registered [] = refl
get_custom_splitter_count-registered (v ∷ vs) =
    rw (get_custom_splitter_count-registered vs)
      (elim (Bool-cases v.used) [ inl on ↦ rw on refl | inr off ↦ rw off refl ])
