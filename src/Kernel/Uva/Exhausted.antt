-- ===== src/Kernel/Uva/Exhausted.antt =====
-- What the 32-bit counter does to a space of 128 TB.
use mvgal.Base.{ℕ, ◌+◌, ◌%◌, ◌^◌, ◌≤◌, ◌<◌, ◌≡◌, ◌∙◌, ap, true, arith}
use mvgal.Kernel.Uva.{Entry, Space, space_base, int_mod, page_align, reserve, allocate}
use mvgal.Kernel.Uva.Ranges.{IsRequest, allocate_lem}

module _ {T : Type 0} (insert_color : T → Entry → T) (s : Space T) (size id : ℕ)
    (v : IsRequest (size, id, true)) where
  reserve_exhausted :
      (aligned : ℕ)
      → 2 ^ 31 ≤ s.next_addr
      → s.next_addr + aligned < int_mod
      → ((reserve insert_color s aligned id).0 ≡ 0) × ((reserve insert_color s aligned id).1 ≡ s)
  unfolding reserve
  reserve_exhausted aligned h lt = ground arith

  -- Once 2^31 bytes of the space are given out, each request that the rest of the 32-bit counter still could
  -- hold gets no address, and the space stays as it is.
  pub allocate_exhausted :
      2 ^ 31 ≤ s.next_addr
      → s.next_addr + page_align size < int_mod
      → ((allocate insert_color s size id true).0 ≡ 0)
        × ((allocate insert_color s size id true).1 ≡ s)
  allocate_exhausted h lt =
      rw (allocate_lem insert_color s size id v) (reserve_exhausted (page_align size) h lt)

  reserve_stays :
      (aligned : ℕ)
      → s.next_addr < 2 ^ 31
      → aligned ≤ 2 ^ 46
      → aligned % int_mod ≡ 0
      → ((reserve insert_color s aligned id).0 ≡ space_base + s.next_addr)
        × ((reserve insert_color s aligned id).1.next_addr ≡ s.next_addr)
  unfolding reserve
  reserve_stays aligned lt h e = ground arith

module _ {T : Type 0} (insert_color : T → Entry → T) (s : Space T) where
  reserve_address :
      (aligned id : ℕ)
      → s.next_addr < 2 ^ 31
      → aligned ≤ 2 ^ 46
      → (reserve insert_color s aligned id).0 ≡ space_base + s.next_addr
  unfolding reserve
  reserve_address aligned id lt h = ground arith

-- A range whose pages are a multiple of 4 GiB leaves the counter where it was, so the next request gets
-- the same address: both ranges, of whatever sizes up to 64 TB, start there.
pub allocate_twice :
    {T : Type 0} (insert_color : T → Entry → T) (s : Space T) (size next id next_id : ℕ)
    → IsRequest (size, id, true)
    → IsRequest (next, next_id, true)
    → s.next_addr < 2 ^ 31
    → page_align size ≤ 2 ^ 46
    → page_align size % int_mod ≡ 0
    → page_align next ≤ 2 ^ 46
    → let (first, s1) = allocate insert_color s size id true in
      (first ≡ space_base + s.next_addr)
      × ((allocate insert_color s1 next next_id true).0 ≡ space_base + s.next_addr)
allocate_twice insert_color s size next id next_id v w lt h e h' =
    let s1 : Space _ = (reserve insert_color s (page_align size) id).1 in
    let stays : ((reserve insert_color s (page_align size) id).0 ≡ space_base + s.next_addr)
        × (s1.next_addr ≡ s.next_addr) =
      reserve_stays insert_color s size id v (page_align size) lt h e in
    rw (allocate_lem insert_color s size id v, allocate_lem insert_color s1 next next_id w)
      (
        stays.0,
        reserve_address insert_color s1 (page_align next) next_id (omega (arith, stays.1)) h'
            ∙ ap (λ n. space_base + n) stays.1,
      )
