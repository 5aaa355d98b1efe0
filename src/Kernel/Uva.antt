-- ===== src/Kernel/Uva.antt =====
-- The unified virtual addresses of src/kernel/mvgal_memory.c: the kernel's next free address, and
-- mvgal_uva_allocate. The red-black tree of the kernel is a parameter.
pub mod Ranges
pub mod Exhausted
use mvgal.Base.{ℕ, ◌+◌, ◌-◌, ◌*◌, ◌/◌, ◌%◌, ◌^◌, Bool, List, [], ◌∷◌, ltb, ◌==◌, not, if◌then◌else◌}

-- struct mvgal_uva_entry
pub record Entry : Type 0 where
  pub addr : ℕ
  pub size : ℕ
  pub memory_id : ℕ

-- struct mvgal_uva_space, less its base and size, which are constants. `next_addr` is the bit pattern of
-- the 32-bit atomic_t.
pub record Space (T : Type 0) : Type 0 where
  pub addr_tree : T
  pub next_addr : ℕ

-- MVGAL_UVA_SPACE_BASE
abbrev pub space_base : ℕ
space_base = 2 ^ 44

-- MVGAL_UVA_SPACE_SIZE, 128 TB
abbrev pub space_size : ℕ
space_size = 2 ^ 47

abbrev pub u64_mod : ℕ
u64_mod = 2 ^ 64

abbrev pub int_mod : ℕ
int_mod = 2 ^ 32

abbrev pub page_size : ℕ
page_size = 4096

-- PAGE_ALIGN
abbrev pub page_align : ℕ → ℕ
page_align size = (size + page_size - 1) % u64_mod / page_size * page_size

-- The uint64_t of an int with these bits.
abbrev pub sign_extend : ℕ → ℕ
sign_extend bits = if ltb bits (2 ^ 31) then bits else bits + u64_mod - int_mod

-- The global part of mvgal_memory_init.
unfoldable pub memory_init : {T : Type 0} → T → Space T
memory_init root = record { addr_tree = root; next_addr = 0 }

module _ {T : Type 0} (insert_color : T → Entry → T) where
  -- The part of mvgal_uva_allocate with the lock held: the address, or 0, and the space.
  unfoldable pub reserve : Space T → ℕ → ℕ → ℕ × Space T
  reserve s aligned_size memory_id =
      let addr : ℕ = sign_extend s.next_addr in
      let next : ℕ = (s.next_addr + aligned_size % int_mod) % int_mod in
      let start : ℕ = (space_base + addr) % u64_mod in
      if ltb (space_base + space_size) ((addr + aligned_size) % u64_mod)
      then (0, record s { next_addr = (next + int_mod - aligned_size % int_mod) % int_mod })
      else (
        start,
        record {
          addr_tree =
              insert_color s.addr_tree
                (record { addr = start; size = aligned_size; memory_id = memory_id });
          next_addr = next;
        },
      )

  -- mvgal_uva_allocate; `kzalloc` says whether there is a block for the entry.
  unfoldable pub allocate : Space T → ℕ → ℕ → Bool → ℕ × Space T
  allocate s size memory_id kzalloc =
      if page_align size == 0
      then (0, s)
      else if not kzalloc
      then (0, s)
      else reserve s (page_align size) memory_id
