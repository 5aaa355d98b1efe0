-- ===== src/Kernel/UvaTests.antt =====
-- The theorems on the unified virtual addresses at concrete requests. The tree is left out: it is a
-- counter of insertions.
use mvgal.Base.{true, false, ℕ, ◌+◌, List, [], ◌∷◌, arith}
use mvgal.Kernel.Uva.{Entry, space_base, memory_init}
use mvgal.Kernel.Uva.Ranges.{Request, AreAscending, allocate_all, allocate-AreAscending}

abbrev insert_color : ℕ → Entry → ℕ
insert_color n e = n + 1

abbrev requests : List Request
requests = (100, 1, true) ∷ (9000, 4, false) ∷ (5000, 2, true) ∷ (4096, 3, true) ∷ []

allocate-AreAscending_example :
    AreAscending space_base requests (allocate_all insert_color (memory_init 0) requests)
allocate-AreAscending_example =
    allocate-AreAscending insert_color 0 requests (omega arith) (omega arith)
