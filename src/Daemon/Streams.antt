-- ===== src/Daemon/Streams.antt =====
-- One direction of a stream socket, as read() and write() see it, and little-endian words.
use mvgal.Base.{
  ℕ, zero, suc, ◌+◌, ◌*◌, ◌/◌, ◌%◌, ◌^◌, ◌<◌, ◌≡◌, refl, ap, ◌∙◌, Option, none, some, List, [], ◌∷◌,
  ◌++◌, sym, length, take, drop, ltb, Bool-cases, inl, inr, take_append, take_ge, take_append_le,
  drop_append, drop_ge, drop_append_le, append-nil, length-take_append, if◌then◌else◌, arith,
}

-- The bytes that are under way, and a limit for each coming call: `none` where the call fails, `some k`
-- where it moves `k` bytes at most. A call without a limit moves all that it can.
pub record Pipe : Type 0 where
  pub bytes : List ℕ
  pub limits : List (Option ℕ)

abbrev pub at_most : ℕ → ℕ → ℕ
at_most k n = if ltb k n then k else n

-- read(); `none` is -1.
abbrev pub read_by : ℕ → List ℕ → List (Option ℕ) → Option (List ℕ) × Pipe
read_by n bytes [] = (some (take n bytes), record { bytes = drop n bytes; limits = [] })
read_by n bytes (none ∷ limits) = (none, record { bytes = bytes; limits = limits })
read_by n bytes (some k ∷ limits) =
    (some (take (at_most k n) bytes), record { bytes = drop (at_most k n) bytes; limits = limits })

unfoldable pub read : ℕ → Pipe → Option (List ℕ) × Pipe
read n p = read_by n p.bytes p.limits

-- write(); `none` is -1.
abbrev pub write_by : List ℕ → List ℕ → List (Option ℕ) → Option ℕ × Pipe
write_by new bytes [] = (some (length new), record { bytes = bytes ++ new; limits = [] })
write_by new bytes (none ∷ limits) = (none, record { bytes = bytes; limits = limits })
write_by new bytes (some k ∷ limits) = (
  some (at_most k (length new)),
  record { bytes = bytes ++ take (at_most k (length new)) new; limits = limits },
)

unfoldable pub write : List ℕ → Pipe → Option ℕ × Pipe
write new p = write_by new p.bytes p.limits

-- The bytes of a word, the lowest first, and the word of such bytes.
abbrev pub to_bytes : ℕ → ℕ → List ℕ
to_bytes zero x = []
to_bytes (suc n) x = (x % 256) ∷ to_bytes n (x / 256)

abbrev pub of_bytes : List ℕ → ℕ
of_bytes [] = 0
of_bytes (b ∷ bs) = b + 256 * of_bytes bs

pub length-to_bytes : (n x : ℕ) → length (to_bytes n x) ≡ n
length-to_bytes zero x = refl
length-to_bytes (suc n) x = omega (arith, length-to_bytes n (x / 256))

pub of_bytes-to_bytes_4 : (x : ℕ) → x < 2 ^ 32 → of_bytes (to_bytes 4 x) ≡ x
of_bytes-to_bytes_4 x h = omega arith

pub of_bytes-to_bytes_8 : (x : ℕ) → x < 2 ^ 64 → of_bytes (to_bytes 8 x) ≡ x
of_bytes-to_bytes_8 x h = omega arith

-- A call that asks for at most what is there takes the front of it.
module _ (payload rest : List ℕ) (n : ℕ) where
  pub take-at_most : take (at_most (length payload) n) (payload ++ rest) ≡ take n payload
  take-at_most = elim (Bool-cases (ltb (length payload) n)) [
    | inl e ↦ rw e (take_append payload rest ∙ sym (take_ge n payload (ground arith)))
    | inr e ↦ rw e (take_append_le n payload rest (ground arith))
  ]

  pub drop-at_most : drop (at_most (length payload) n) (payload ++ rest) ≡ drop n payload ++ rest
  drop-at_most = elim (Bool-cases (ltb (length payload) n)) [
    | inl e ↦
        rw e (
          drop_append payload rest ∙ ap (λ zs. zs ++ rest) (sym (drop_ge n payload (ground arith))))
    | inr e ↦ rw e (drop_append_le n payload rest (ground arith))
  ]

  pub length-take-at_most : length (take n payload) ≡ at_most (length payload) n
  length-take-at_most = elim (Bool-cases (ltb (length payload) n)) [
    | inl e ↦ rw e (ap length (take_ge n payload (ground arith)))
    | inr e ↦ rw e (
        ap (λ zs. length (take n zs)) (sym (append-nil payload))
        ∙ length-take_append n payload [] (ground arith))
  ]
