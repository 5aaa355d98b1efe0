-- ===== src/Sched/SplitterTests.antt =====
-- The theorems on custom splitters at a table with two splitters of which the first fails.
use mvgal.Base.{ℕ, ◌≡◌, refl, none, some, List, [], ◌∷◌, not, ◌==◌}
use mvgal.Status.{success}
use mvgal.Sched.Splitters.{
  Splitter, Slot, Run, no_splitters, register_custom_splitter, unregister_custom_splitter,
  get_custom_splitter_count, apply_all_custom_splitters,
}
use mvgal.Sched.Splitters.Registered.{Registers, Unregisters, registered, registering-Registered}
use mvgal.Sched.Splitters.Trying.{Tries, apply_all_custom_splitters-Tries}

abbrev splitter : ℕ → Splitter
splitter f = record { analyze = none; split = some f; merge = some 9; user_data = 0 }

abbrev two_registered : List Slot
two_registered =
    (register_custom_splitter (some (splitter 2))
      (register_custom_splitter (some (splitter 1)) no_splitters).1).1

-- The callback at 1 writes a part and fails; the others succeed.
abbrev run : Run (List ℕ)
run f workload part_count parts user_data = (not (f == 1), f ∷ parts)

registering-Registered_example :
    Registers
      (splitter 1)
      two_registered
      (register_custom_splitter (some (splitter 1)) two_registered)
    × Unregisters
        (splitter 1)
        two_registered
        (unregister_custom_splitter (some (splitter 1)) two_registered)
registering-Registered_example = registering-Registered (splitter 1) two_registered

apply_all_custom_splitters-Tries_example :
    let (st, q) = apply_all_custom_splitters run 5 2 two_registered [] in
    Tries run 5 2 (registered two_registered) [] st q
unfolding register_custom_splitter
apply_all_custom_splitters-Tries_example =
    apply_all_custom_splitters-Tries run 5 2 two_registered [] refl

second_succeeds : apply_all_custom_splitters run 5 2 two_registered [] ≡ (success, 2 ∷ 1 ∷ [])
unfolding apply_all_custom_splitters register_custom_splitter
second_succeeds = refl

removed_count :
    get_custom_splitter_count (unregister_custom_splitter (some (splitter 1)) two_registered).1 ≡ 1
unfolding get_custom_splitter_count unregister_custom_splitter register_custom_splitter
removed_count = refl
