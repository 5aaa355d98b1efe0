-- ===== src/Kernel/Uva/Ranges.antt =====
-- The ranges that a fresh space gives out.
use mathlib.Core.Path.{subst}
use mvgal.Base.{
  ℕ, ◌+◌, ◌%◌, ◌^◌, ◌≤◌, ◌<◌, ◌≡◌, refl, Bool, true, false, List, [], ◌∷◌, arith, ◌==◌, All,
}
use mvgal.Kernel.Uva.{
  Entry, Space, space_base, space_size, page_align, memory_init, reserve, allocate,
}

-- A request: the size, the memory's id, and whether kzalloc has a block for its entry.
abbrev pub Request : Type 0
Request = ℕ × ℕ × Bool

-- The pages of the requests that get a block, in bytes.
abbrev pub total : List Request → ℕ
total [] = 0
total ((size, id, true) ∷ rs) = page_align size + total rs
total ((size, id, false) ∷ rs) = total rs

abbrev pub IsRequest : Request → Type 0
IsRequest r = (0 < r.0) × (r.0 < 2 ^ 63)

-- The addresses that requests are given: 0 where kzalloc fails, and else the ranges follow one another
-- from `from` to the end of the space, each on a page boundary.
abbrev pub AreAscending : ℕ → List Request → List ℕ → Type 0
AreAscending from [] [] = from ≤ space_base + space_size
AreAscending from ((size, id, true) ∷ rs) (addr ∷ addrs) =
    (from ≤ addr) × (addr % 4096 ≡ 0) × AreAscending (addr + size) rs addrs
AreAscending from ((size, id, false) ∷ rs) (addr ∷ addrs) = (addr ≡ 0) × AreAscending from rs addrs
AreAscending from [] (addr ∷ addrs) = ⊥
AreAscending from (r ∷ rs) [] = ⊥

module _ {T : Type 0} (insert_color : T → Entry → T) where
  -- The addresses of requests in a row.
  pub allocate_all : Space T → List Request → List ℕ
  allocate_all s [] = []
  allocate_all s ((size, id, kzalloc) ∷ rs) =
      let (addr, s1) = allocate insert_color s size id kzalloc in addr ∷ allocate_all s1 rs

  reserve_lem :
      (s : Space T) (aligned id : ℕ)
      → s.next_addr + aligned ≤ 2 ^ 31
      → 0 < aligned
      → ((reserve insert_color s aligned id).0 ≡ space_base + s.next_addr)
        × ((reserve insert_color s aligned id).1.next_addr ≡ s.next_addr + aligned)
  unfolding reserve
  reserve_lem s aligned id h pos = ground arith

  page_align_lem :
      (size : ℕ) → size < 2 ^ 63 → (size ≤ page_align size) × (page_align size % 4096 ≡ 0)
  page_align_lem size h = omega arith

  pub allocate_lem :
      (s : Space T) (size id : ℕ)
      → IsRequest (size, id, true)
      → allocate insert_color s size id true ≡ reserve insert_color s (page_align size) id
  unfolding allocate
  allocate_lem s size id v =
      let some_page : (page_align size == 0) ≡ false = ground (arith, page_align_lem size v.1) in
      rw some_page refl

  allocate-failed : (s : Space T) (size id : ℕ) → allocate insert_color s size id false ≡ (0, s)
  unfolding allocate
  allocate-failed s size id = ground arith

  next_range :
      (addr size start aligned : ℕ) (rs : List Request) (addrs : List ℕ)
      → size ≤ aligned
      → AreAscending (start + aligned) rs addrs
      → addr ≡ start
      → AreAscending (addr + size) rs addrs
  next_range addr size start aligned [] [] h a e = omega arith
  next_range addr size start aligned ((n, id, true) ∷ rs) (b ∷ bs) h a e = (omega arith, a.1, a.2)
  next_range addr size start aligned ((n, id, false) ∷ rs) (b ∷ bs) h a e =
      (a.0, next_range addr size start aligned rs bs h a.1 e)
  next_range addr size start aligned [] (b ∷ bs) h a e = absurd a
  next_range addr size start aligned (r ∷ rs) [] h a e = absurd a

  allocate_all-AreAscending :
      (rs : List Request) (s : Space T)
      → All IsRequest rs
      → s.next_addr % 4096 ≡ 0
      → s.next_addr + total rs ≤ 2 ^ 31
      → AreAscending (space_base + s.next_addr) rs (allocate_all s rs)
  unfolding allocate_all
  allocate_all-AreAscending [] s v al h = omega arith
  allocate_all-AreAscending ((size, id, false) ∷ rs) s v al h =
      rw (allocate-failed s size id) (refl, allocate_all-AreAscending rs s v.1 al h)
  allocate_all-AreAscending ((size, id, true) ∷ rs) s v al h =
      let page : (size ≤ page_align size) × (page_align size % 4096 ≡ 0) =
        page_align_lem size v.0.1 in
      let s1 : Space T = (reserve insert_color s (page_align size) id).1 in
      let r : ((reserve insert_color s (page_align size) id).0 ≡ space_base + s.next_addr)
          × ((reserve insert_color s (page_align size) id).1.next_addr
              ≡ s.next_addr + page_align size) =
        reserve_lem s (page_align size) id (omega arith) (omega (arith, page.0, v.0.0)) in
      rw (allocate_lem s size id v.0) (
        omega (arith, r.0),
        omega (arith, r.0, page.1, al),
        next_range _ size (space_base + s.next_addr) (page_align size) rs _ page.0
            (subst (λ from. AreAscending from rs (allocate_all s1 rs)) (omega (arith, r.1))
              (allocate_all-AreAscending rs s1 v.1 (omega (arith, r.1, page.1, al))
                (omega (arith, r.1))))
            r.0,
      )

  -- From a fresh space, for requests of sizes above 0 and below 2^63: where those for which kzalloc has a
  -- block have at most 2^31 bytes of pages together, each of these gets an address, on a page boundary
  -- and in the space, with its range behind those before it, so that no two ranges meet; each other
  -- request gets 0 and takes no range.
  pub allocate-AreAscending :
      (root : T) (rs : List Request)
      → All IsRequest rs
      → total rs ≤ 2 ^ 31
      → AreAscending space_base rs (allocate_all (memory_init root) rs)
  unfolding memory_init
  allocate-AreAscending root rs v h =
      allocate_all-AreAscending rs (memory_init root) v (omega arith) (omega arith)
