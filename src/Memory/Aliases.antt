-- ===== src/Memory/Aliases.antt =====
-- Buffers that share the memory of a parent buffer, and the references that keep the parent:
-- mvgal_buffer_retain, mvgal_memory_create_alias and mvgal_memory_get_alias_info of
-- src/userspace/memory/allocator.c. An enum, a flag word and an address are numbers, a pointer is an
-- `Option`, and so is a file descriptor, with `none` for -1. The list through next and prev is a list.
pub mod Creating
use mvgal.Base.{
  ℕ, ◌+◌, ◌-◌, ◌/◌, ◌%◌, ◌^◌, Bool, true, false, not, Option, none, some, List, [], ◌∷◌, ◌++◌, map,
  length, leb, ltb, ◌==◌, if◌then◌else◌, update,
}
use mvgal.Status.{Status, success, invalid_argument, not_found, memory_error, out_of_memory}

-- mvgal_gpu_binding_t
pub record Binding : Type 0 where
  pub gpu_index : ℕ
  pub gpu_address : ℕ
  pub mapping : Option ℕ
  pub writable : Bool
  pub readable : Bool
  pub dmabuf_fd : Option ℕ

-- struct mvgal_buffer, less its fence, its callback and the counters of its use.
pub record Buffer : Type 0 where
  pub refcount : ℕ
  pub state : ℕ
  pub backend : ℕ
  pub size : ℕ
  pub alignment : ℕ
  pub flags : ℕ
  pub memory_type : ℕ
  pub sharing_mode : ℕ
  pub access : ℕ
  pub gpu_mask : ℕ
  pub priority : ℕ
  pub host_ptr : Option ℕ
  pub host_offset : ℕ
  pub dmabuf_fd : Option ℕ
  pub dmabuf_offset : ℕ
  pub dmabuf_owner : Bool
  pub gpu_bindings : List Binding
  pub original_ptr : Option ℕ
  pub should_free : Bool
  pub alias_parent : Option ℕ
  pub aliases : List ℕ
  pub alias_offset : ℕ
  pub alias_size : ℕ
  pub alias_flags : ℕ
  pub is_alias : Bool
  pub alias_detached : Bool

-- The blocks of buffers by their addresses, and the buffers of g_memory_state, the newest first.
pub record Memory : Type 0 where
  pub heap : ℕ → Buffer
  pub buffers : List ℕ

-- mvgal_buffer_alias_info_t
pub record AliasInfo : Type 0 where
  pub parent : Option ℕ
  pub alias : ℕ
  pub offset : ℕ
  pub size : ℕ
  pub flags : ℕ
  pub gpu_mask : ℕ

abbrev pub u64_mod : ℕ
u64_mod = 2 ^ 64

abbrev pub u32_mod : ℕ
u32_mod = 2 ^ 32

-- MVGAL_BUFFER_ALIAS_FLAG_READ_ONLY and MVGAL_MEMORY_ACCESS_READ are the lowest bit,
-- MVGAL_BUFFER_ALIAS_FLAG_WRITE_ONLY and MVGAL_MEMORY_ACCESS_WRITE the next.
abbrev pub has_low : ℕ → Bool
has_low mask = mask % 2 == 1

abbrev pub has_next : ℕ → Bool
has_next mask = (mask / 2) % 2 == 1

abbrev pub clear_low : ℕ → ℕ
clear_low mask = mask - mask % 2

abbrev pub clear_next : ℕ → ℕ
clear_next mask = if has_next mask then mask - 2 else mask

abbrev pub modify : (ℕ → Buffer) → ℕ → (Buffer → Buffer) → ℕ → Buffer
modify heap i f = update heap i (f (heap i))

abbrev pub counted : Buffer → Buffer
counted b = record b { refcount = (b.refcount + 1) % u32_mod }

-- mvgal_buffer_retain
unfoldable pub retain : Memory → Option ℕ → Memory
retain m none = m
retain m (some b) = record m { heap = modify m.heap b counted }

-- The size of the alias, where 0 asks for the rest of the parent.
abbrev pub region : Buffer → ℕ → ℕ → ℕ
region p offset size = if size == 0 then p.size - offset else size

abbrev pub moved : Option ℕ → ℕ → Option ℕ
moved none offset = none
moved (some a) offset = some (a + offset)

-- The new structure, before its access is restricted.
unfoldable pub alias_of : ℕ → Buffer → ℕ → ℕ → ℕ → Buffer
alias_of parent p offset alias_size alias_flags = record {
  refcount = 1;
  state = p.state;
  backend = p.backend;
  size = alias_size;
  alignment = p.alignment;
  flags = p.flags;
  memory_type = p.memory_type;
  sharing_mode = p.sharing_mode;
  access = p.access;
  gpu_mask = p.gpu_mask;
  priority = p.priority;
  host_ptr = moved p.host_ptr offset;
  host_offset = offset;
  dmabuf_fd = p.dmabuf_fd;
  dmabuf_offset = (p.dmabuf_offset + offset) % u64_mod;
  dmabuf_owner = false;
  gpu_bindings = p.gpu_bindings;
  original_ptr = moved p.host_ptr offset;
  should_free = false;
  alias_parent = some parent;
  aliases = [];
  alias_offset = offset;
  alias_size = alias_size;
  alias_flags = alias_flags;
  is_alias = true;
  alias_detached = false;
}

abbrev pub read_only : Buffer → Buffer
read_only b = record b {
  gpu_bindings = map (λ (g : Binding). record g { writable = false }) b.gpu_bindings;
  access = clear_next b.access;
}

abbrev pub write_only : Buffer → Buffer
write_only b = record b { access = clear_low b.access }

abbrev pub restricted_by : Bool → Bool → Buffer → Buffer
restricted_by no_write no_read b =
    let b' : Buffer = if no_write then read_only b else b in if no_read then write_only b' else b'

-- The alias with its access restricted by the flags.
unfoldable pub restricted : ℕ → Buffer → Buffer
restricted alias_flags b = restricted_by (has_low alias_flags) (has_next alias_flags) b

abbrev pub with_alias : ℕ → Buffer → Buffer
with_alias b p = record p { aliases = p.aliases ++ (b ∷ []) }

-- The alias in its block, known to its parent and on the list of buffers.
unfoldable pub registered : Memory → ℕ → ℕ → ℕ → ℕ → ℕ → Memory
unfolding retain
registered m parent offset alias_size alias_flags b =
    let made : Buffer = alias_of parent (m.heap parent) offset alias_size alias_flags in
    let linked : Memory = record m { heap = modify (update m.heap b made) parent (with_alias b) } in
    let kept : Memory = retain linked (some parent) in
    record { heap = modify kept.heap b (restricted alias_flags); buffers = b ∷ kept.buffers }

-- mvgal_memory_create_alias on a parent, with the block that calloc gives.
unfoldable pub create_in : Memory → ℕ → ℕ → ℕ → ℕ → Option ℕ → Status × Option ℕ × Memory
create_in m parent offset alias_size alias_flags none = (out_of_memory, none, m)
create_in m parent offset alias_size alias_flags (some b) =
    (success, some b, registered m parent offset alias_size alias_flags b)

unfoldable pub create_from : Memory → ℕ → ℕ → ℕ → ℕ → Option ℕ → Status × Option ℕ × Memory
create_from m parent offset size alias_flags block =
    let p : Buffer = m.heap parent in
    let alias_size : ℕ = region p offset size in
    if leb p.size offset
    then (invalid_argument, none, m)
    else if ltb p.size ((offset + alias_size) % u64_mod)
    then (invalid_argument, none, m)
    else if leb 16 (length p.aliases)
    then (memory_error, none, m)
    else create_in m parent offset alias_size alias_flags block

-- mvgal_memory_create_alias; `out` says that the caller's pointer for the handle is not NULL.
unfoldable pub create_alias :
    Memory → Option ℕ → ℕ → ℕ → ℕ → Bool → Option ℕ → Status × Option ℕ × Memory
create_alias m none offset size alias_flags out block = (invalid_argument, none, m)
create_alias m (some parent) offset size alias_flags out block =
    if out then create_from m parent offset size alias_flags block else (invalid_argument, none, m)

-- mvgal_memory_get_alias_info; `out` says that the caller's pointer for the answer is not NULL.
unfoldable pub get_alias_info : Memory → Option ℕ → Bool → Status × Option AliasInfo
get_alias_info m none out = (invalid_argument, none)
get_alias_info m (some a) out =
    let b : Buffer = m.heap a in
    if not out then (invalid_argument, none) else if not b.is_alias then (not_found, none) else (
      success,
      some (record {
        parent = b.alias_parent;
        alias = a;
        offset = b.alias_offset;
        size = b.alias_size;
        flags = b.alias_flags;
        gpu_mask = b.gpu_mask;
      }),
    )
