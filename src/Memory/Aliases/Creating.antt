-- ===== src/Memory/Aliases/Creating.antt =====
-- What mvgal_memory_create_alias makes of its parent and of the new buffer.
use mathlib.Core.Path.{subst}
use mvgal.Base.{
  ℕ, ◌+◌, ◌%◌, ◌≤◌, ◌<◌, ◌≡◌, ◌≢◌, ◌⊎◌, inl, inr, refl, sym, ap, ◌∙◌, Bool, true, false, ◌&&◌,
  Option, none, some, List, [], ◌∷◌, map, length, leb, ltb, All, update, update-eq, update-ne,
  arith, if_elim,
}
use mvgal.Status.{Status, is_success, success, invalid_argument, memory_error, out_of_memory}
use mvgal.Memory.Aliases.{
  clear_low, clear_next, Binding, Buffer, Memory, AliasInfo, has_low, has_next, u64_mod, region,
  moved, alias_of, restricted_by, restricted, retain, modify, counted, with_alias, registered,
  create_in, create_from, create_alias, get_alias_info,
}

-- What the flags of an alias forbid: READ_ONLY any write, by a GPU's binding too, and WRITE_ONLY reads.
abbrev pub Forbids : Bool → Bool → Buffer → Type 0
Forbids no_write no_read b =
    All (λ (g : Binding). (no_write && g.writable) ≡ false) b.gpu_bindings
    × ((no_write && has_next b.access) ≡ false)
    × ((no_read && has_low b.access) ≡ false)

-- The buffer is an alias of a region of the parent, as the caller can ask, its memory is the parent's, and
-- the parent has it as its last alias, with one reference more. No other buffer changed.
abbrev pub IsAliasOf : Memory → Memory → ℕ → ℕ → ℕ → ℕ → ℕ → Type 0
IsAliasOf m m' parent offset size alias_flags b =
    (get_alias_info m' (some b) true ≡ (
      success,
      some (record {
        parent = some parent;
        alias = b;
        offset = offset;
        size = size;
        flags = alias_flags;
        gpu_mask = (m.heap parent).gpu_mask;
      }),
    ))
    × ((m'.heap b).host_ptr ≡ moved (m.heap parent).host_ptr offset)
    × Forbids (has_low alias_flags) (has_next alias_flags) (m'.heap b)
    × (m'.heap parent ≡ counted (with_alias b (m.heap parent)))
    × ((y : ℕ) → y ≢ parent → y ≢ b → m'.heap y ≡ m.heap y)

-- The region lies in the parent, and there is room for one more alias.
abbrev pub Fits : Buffer → ℕ → ℕ → Type 0
Fits p offset size =
    (offset < p.size) × (offset + region p offset size ≤ p.size) × (length p.aliases < 16)

-- A call that made an alias, and one that was refused.
pub data Created (m : Memory) (parent offset size alias_flags : ℕ) (block : Option ℕ)
    : Status × Option ℕ × Memory → Type 0 where
  creates :
      (b : ℕ) (m' : Memory)
      → Fits (m.heap parent) offset size
      → block ≡ some b
      → IsAliasOf m m' parent offset (region (m.heap parent) offset size) alias_flags b
      → m'.buffers ≡ b ∷ m.buffers
      → Created m parent offset size alias_flags block (success, some b, m')
  refuses :
      (st : Status)
      → is_success st ≡ false
      → ¬ Fits (m.heap parent) offset size ⊎ (block ≡ none)
      → Created m parent offset size alias_flags block (st, none, m)

-- A read-only alias has no writable binding.
bindings-Forbids :
    (gs : List Binding)
    → All
        (λ (g : Binding). (true && g.writable) ≡ false)
        (map (λ (g : Binding). record g { writable = false }) gs)
bindings-Forbids [] = tt
bindings-Forbids (g ∷ gs) = (refl, bindings-Forbids gs)

any_bindings : (gs : List Binding) → All (λ (g : Binding). (false && g.writable) ≡ false) gs
any_bindings [] = tt
any_bindings (g ∷ gs) = (refl, any_bindings gs)

has_next-clear_next : (a : ℕ) → has_next (clear_next a) ≡ false
has_next-clear_next a = ground arith

has_next-clear_low : (a : ℕ) → has_next (clear_low a) ≡ has_next a
has_next-clear_low a = ground arith

has_low-clear_low : (a : ℕ) → has_low (clear_low a) ≡ false
has_low-clear_low a = ground arith

restricted_by-Forbids :
    (no_write no_read : Bool) (b : Buffer)
    → Forbids no_write no_read (restricted_by no_write no_read b)
restricted_by-Forbids true true b = (
  bindings-Forbids b.gpu_bindings,
  has_next-clear_low (clear_next b.access) ∙ has_next-clear_next b.access,
  has_low-clear_low (clear_next b.access),
)
restricted_by-Forbids true false b =
    (bindings-Forbids b.gpu_bindings, has_next-clear_next b.access, refl)
restricted_by-Forbids false true b = (any_bindings b.gpu_bindings, refl, has_low-clear_low b.access)
restricted_by-Forbids false false b = (any_bindings b.gpu_bindings, refl, refl)

restricted_by-same :
    (no_write no_read : Bool) (b : Buffer)
    → let r : Buffer = restricted_by no_write no_read b in
      r ≡ record b { gpu_bindings = r.gpu_bindings; access = r.access }
restricted_by-same true true b = refl
restricted_by-same true false b = refl
restricted_by-same false true b = refl
restricted_by-same false false b = refl

module _ (alias_flags : ℕ) (b : Buffer) where
  restricted-Forbids :
      Forbids (has_low alias_flags) (has_next alias_flags) (restricted alias_flags b)
  unfolding restricted
  restricted-Forbids = restricted_by-Forbids (has_low alias_flags) (has_next alias_flags) b

  restricted-same : restricted alias_flags b ≡ record b {
    gpu_bindings = (restricted alias_flags b).gpu_bindings;
    access = (restricted alias_flags b).access;
  }
  unfolding restricted
  restricted-same = restricted_by-same (has_low alias_flags) (has_next alias_flags) b

module _ (m : Memory) (parent offset size alias_flags b : ℕ) (apart : b ≢ parent) where
  abbrev made : Buffer
  made = alias_of parent (m.heap parent) offset size alias_flags

  abbrev linked : ℕ → Buffer
  linked = modify (update m.heap b made) parent (with_alias b)

  abbrev kept : ℕ → Buffer
  kept = modify linked parent counted

  registered-made :
      (registered m parent offset size alias_flags b).heap b ≡ restricted alias_flags made
  unfolding registered retain
  registered-made =
      update-eq kept b (restricted alias_flags (kept b))
      ∙ ap (restricted alias_flags) (
          update-ne linked parent (counted (linked parent)) b apart
          ∙ update-ne (update m.heap b made) parent (with_alias b (update m.heap b made parent)) b
              apart
          ∙ update-eq m.heap b made)

  registered-parent :
      (registered m parent offset size alias_flags b).heap parent
      ≡ counted (with_alias b (m.heap parent))
  unfolding registered retain
  registered-parent =
      update-ne kept b (restricted alias_flags (kept b)) parent (λ e. apart (sym e))
      ∙ update-eq linked parent (counted (linked parent))
      ∙ ap counted (
          update-eq (update m.heap b made) parent (with_alias b (update m.heap b made parent))
          ∙ ap (with_alias b) (update-ne m.heap b made parent (λ e. apart (sym e))))

  registered-others :
      (y : ℕ)
      → y ≢ parent
      → y ≢ b
      → (registered m parent offset size alias_flags b).heap y ≡ m.heap y
  unfolding registered retain
  registered-others y np nb =
      update-ne kept b (restricted alias_flags (kept b)) y nb
      ∙ update-ne linked parent (counted (linked parent)) y np
      ∙ update-ne (update m.heap b made) parent (with_alias b (update m.heap b made parent)) y np
      ∙ update-ne m.heap b made y nb

  registered-Forbids :
      Forbids
        (has_low alias_flags)
        (has_next alias_flags)
        ((registered m parent offset size alias_flags b).heap b)
  registered-Forbids =
      subst (Forbids (has_low alias_flags) (has_next alias_flags)) (sym registered-made)
        (restricted-Forbids alias_flags made)

  -- All fields but the bindings and the access are as they were made.
  registered-same :
      let r : Buffer = restricted alias_flags made in
      (registered m parent offset size alias_flags b).heap b
      ≡ record made { gpu_bindings = r.gpu_bindings; access = r.access }
  registered-same = registered-made ∙ restricted-same alias_flags made

  registered-IsAliasOf :
      IsAliasOf m (registered m parent offset size alias_flags b) parent offset size alias_flags b
  unfolding get_alias_info alias_of
  registered-IsAliasOf = (
    ap {B = Status × Option AliasInfo}
        (λ (x : Buffer). get_alias_info (record m { heap = λ y. x }) (some b) true) registered-same,
    ap (λ (x : Buffer). x.host_ptr) registered-same,
    registered-Forbids,
    registered-parent,
    registered-others,
  )

module _ (size offset r n : ℕ) (short : offset + r < u64_mod) where
  in_parent :
      leb size offset ≡ false
      → ltb size ((offset + r) % u64_mod) ≡ false
      → leb 16 n ≡ false
      → (offset < size) × (offset + r ≤ size) × (n < 16)
  in_parent e1 e2 e3 = ground arith

  past_end : ltb size ((offset + r) % u64_mod) ≡ true → ¬ (offset + r ≤ size)
  past_end e = ground arith

module _ (m : Memory) (parent offset size alias_flags : ℕ) where
  create_in-Created :
      (block : Option ℕ)
      → ((b : ℕ) → block ≡ some b → b ≢ parent)
      → Fits (m.heap parent) offset size
      → Created m parent offset size alias_flags block
          (create_in m parent offset (region (m.heap parent) offset size) alias_flags block)
  unfolding create_in registered retain
  create_in-Created none fresh fits = refuses out_of_memory refl (inr refl)
  create_in-Created (some b) fresh fits =
      creates b _ fits refl
        (registered-IsAliasOf m parent offset (region (m.heap parent) offset size) alias_flags b
          (fresh b refl))
        refl

  -- Where the end of the region is a 64-bit number and a block that calloc gives is not the parent's,
  -- the call makes an alias if the region lies in the parent, the parent has fewer than 16 aliases
  -- and calloc gives a block; else it fails and changes nothing. The alias reports
  -- its parent, region and flags, its memory is the parent's from the offset on, a READ_ONLY alias has no
  -- write access of its own or by a GPU's binding, a WRITE_ONLY alias no read access of its own, and
  -- the parent has it as its last alias and one reference more (modulo 2^32). No other buffer changes.
  pub create_alias-Created :
      (block : Option ℕ)
      → ((b : ℕ) → block ≡ some b → b ≢ parent)
      → offset + region (m.heap parent) offset size < u64_mod
      → Created m parent offset size alias_flags block
          (create_alias m (some parent) offset size alias_flags true block)
  unfolding create_alias create_from
  create_alias-Created block fresh short =
      let p : Buffer = m.heap parent in
      let Result : (Status × Option ℕ × Memory) → Type 0 =
        Created m parent offset size alias_flags block in
      if_elim Result (leb p.size offset) _ _
        (λ e. refuses invalid_argument refl (inl (λ f. ground (arith, f.0))))
        (λ e1.
          if_elim Result (ltb p.size ((offset + region p offset size) % u64_mod)) _ _
            (λ e.
              refuses invalid_argument refl
                (inl (λ f. past_end p.size offset (region p offset size) 0 short e f.1)))
            (λ e2.
              if_elim Result (leb 16 (length p.aliases)) _ _
                (λ e. refuses memory_error refl (inl (λ f. ground (arith, f.2))))
                (λ e3. create_in-Created block fresh (
                  in_parent p.size offset (region p offset size) (length p.aliases) short e1 e2
                    e3))))
