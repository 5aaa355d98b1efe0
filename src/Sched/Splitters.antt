-- ===== src/Sched/Splitters.antt =====
-- The table of custom splitters, src/userspace/scheduler/workload_splitter.c.
pub mod Registered
pub mod Trying
use mvgal.Base.{
  ℕ, zero, suc, ◌+◌, Bool, true, false, not, ◌&&◌, Option, none, some, List, [], ◌∷◌, length, leb,
  ◌==◌, if◌then◌else◌, get_elem?, replicate,
}
use mvgal.Status.{Status, success, invalid_argument, out_of_memory, not_supported, scheduler_error}

-- mvgal_workload_splitter_t; a callback is a function's address, `none` for NULL.
pub record Splitter : Type 0 where
  pub analyze : Option ℕ
  pub split : Option ℕ
  pub merge : Option ℕ
  pub user_data : ℕ

-- registered_splitter_t
pub record Slot : Type 0 where
  pub splitter : Splitter
  pub used : Bool

-- MAX_SPLITTERS
abbrev pub max_splitters : ℕ
max_splitters = 16

abbrev pub no_splitter : Splitter
no_splitter = record { analyze = none; split = none; merge = none; user_data = 0 }

abbrev pub free_slot : Slot
free_slot = record { splitter = no_splitter; used = false }

-- g_splitters as the program starts.
abbrev pub no_splitters : List Slot
no_splitters = replicate max_splitters free_slot

abbrev pub behind : Slot → Status × List Slot → Status × List Slot
behind v (st, vs) = (st, v ∷ vs)

-- The loop of mvgal_scheduler_register_custom_splitter.
unfoldable pub register_in : Splitter → List Slot → Status × List Slot
register_in s [] = (out_of_memory, [])
register_in s (v ∷ vs) =
    let rest : Status × List Slot = behind v (register_in s vs) in
    if not v.used then (success, record { splitter = s; used = true } ∷ vs) else rest

-- mvgal_scheduler_register_custom_splitter
unfoldable pub register_custom_splitter : Option Splitter → List Slot → Status × List Slot
unfolding register_in
register_custom_splitter none t = (invalid_argument, t)
register_custom_splitter (some s) t = register_in s t

abbrev pub same_callback : Option ℕ → Option ℕ → Bool
same_callback none none = true
same_callback (some f) (some g) = f == g
same_callback _ _ = false

-- The comparison that the removal goes by.
abbrev pub matches : Splitter → Splitter → Bool
matches s v = same_callback v.split s.split && same_callback v.merge s.merge

-- The loop of mvgal_scheduler_unregister_custom_splitter.
unfoldable pub unregister_in : Splitter → List Slot → Status × List Slot
unregister_in s [] = (invalid_argument, [])
unregister_in s (v ∷ vs) =
    let rest : Status × List Slot = behind v (unregister_in s vs) in
    if v.used && matches s v.splitter then (success, free_slot ∷ vs) else rest

-- mvgal_scheduler_unregister_custom_splitter
unfoldable pub unregister_custom_splitter : Option Splitter → List Slot → Status × List Slot
unfolding unregister_in
unregister_custom_splitter none t = (invalid_argument, t)
unregister_custom_splitter (some s) t = unregister_in s t

-- mvgal_scheduler_get_custom_splitter_count
unfoldable pub get_custom_splitter_count : List Slot → ℕ
get_custom_splitter_count [] = 0
get_custom_splitter_count (v ∷ vs) =
    let rest : ℕ = get_custom_splitter_count vs in if v.used then suc rest else rest

-- What a `split` callback does: its answer for a workload and a number of parts, and the parts.
abbrev pub Run : Type 0 → Type 0
Run P = (callback workload part_count : ℕ) → P → (user_data : ℕ) → Bool × P

module _ {P : Type 0} (run : Run P) (workload part_count : ℕ) where
  abbrev pub answered : Bool × P → Status × P
  answered (true, p) = (success, p)
  answered (false, p) = (scheduler_error, p)

  abbrev pub call : Option ℕ → ℕ → P → Status × P
  call none user_data p = (invalid_argument, p)
  call (some f) user_data p = answered (run f workload part_count p user_data)

  -- mvgal_scheduler_apply_custom_splitter from the slot on.
  abbrev pub apply_slot : Slot → P → Status × P
  apply_slot v p =
      if not v.used then (invalid_argument, p) else call v.splitter.split v.splitter.user_data p

  abbrev pub apply_at : Option Slot → P → Status × P
  apply_at none p = (invalid_argument, p)
  apply_at (some v) p = apply_slot v p

  -- mvgal_scheduler_apply_custom_splitter
  unfoldable pub apply_custom_splitter : List Slot → ℕ → P → Status × P
  apply_custom_splitter t i p =
      if leb max_splitters i then (invalid_argument, p) else apply_at (get_elem? t i) p

  -- The result of a success, or what comes next.
  abbrev pub or_next : Status × P → (P → Status × P) → Status × P
  or_next (success, p) next = (success, p)
  or_next (err, p) next = next p

  -- One round: `tried` is the call for this slot and `rest` the rounds after it. A slot behind the
  -- table does not occur.
  abbrev pub round : Option Slot → Status × P → (P → Status × P) → P → Status × P
  round none tried rest p = rest p
  round (some v) tried rest p = if v.used then or_next tried rest else rest p

  -- The loop of mvgal_scheduler_apply_all_custom_splitters from slot `i` on, with `n` to go.
  unfoldable pub apply_from : List Slot → ℕ → ℕ → P → Status × P
  unfolding apply_custom_splitter
  apply_from t zero i p = (not_supported, p)
  apply_from t (suc n) i p =
      round (get_elem? t i) (apply_custom_splitter t i p) (λ q. apply_from t n (suc i) q) p

  -- mvgal_scheduler_apply_all_custom_splitters
  unfoldable pub apply_all_custom_splitters : List Slot → P → Status × P
  unfolding apply_from
  apply_all_custom_splitters t p = apply_from t max_splitters 0 p
