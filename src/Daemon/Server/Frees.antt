-- ===== src/Daemon/Server/Frees.antt =====
-- A response that cannot be written.
use mvgal.Base.{
  ℕ, ◌<◌, ◌≡◌, refl, ap, ◌∙◌, true, Option, none, some, List, ◌∷◌, ◌++◌, length, lt→ltb, ◌⊎◌, inl,
  inr,
}
use mvgal.Daemon.Streams.{Pipe, write}
use mvgal.Daemon.Ipc.RoundTrip.{header, IsMessage, message_bytes, open_pipe}
use mvgal.Daemon.Server.{Services, serve_one, process, config_get, gpu_enumerate}
use mvgal.Daemon.Server.Rounds.{says, serve_one-process}

module _ {S : Type 0} (sv : Services S) where
  -- The request is answered by a header and a body.
  abbrev pub WantsBody : S → ℕ → Type 0
  WantsBody s kind = (kind ≡ config_get) ⊎ ((kind ≡ gpu_enumerate) × (0 < length (sv.gpus s)))

  process_double_free :
      (s : S) (requests : Pipe) (kind b request_id : ℕ) (bs out : List ℕ) (limits : List (Option ℕ))
      → WantsBody s kind
      → (process sv s requests
          (record { bytes = out; limits = none ∷ limits })
          (header (says kind (b ∷ bs) request_id))
          (some (b ∷ bs))).frees
        ≡ 2
  unfolding process write
  process_double_free s requests kind b request_id bs out limits (inl e) = rw e refl
  process_double_free s requests kind b request_id bs out limits (inr (e, h)) =
      rw (e, lt→ltb 0 (length (sv.gpus s)) h) refl

  -- Where the header of a response with a body cannot be written, handle_client frees the payload of
  -- the request twice.
  pub serve_one_double_free :
      (s : S) (kind b request_id : ℕ) (bs rest out : List ℕ) (limits : List (Option ℕ))
      → ((n : ℕ) → sv.malloc n ≡ true)
      → IsMessage (says kind (b ∷ bs) request_id)
      → WantsBody s kind
      → (serve_one sv s
          (open_pipe (message_bytes (says kind (b ∷ bs) request_id) ++ rest))
          (record { bytes = out; limits = none ∷ limits })).frees
        ≡ 2
  serve_one_double_free s kind b request_id bs rest out limits mem v wants =
      ap (λ r. r.frees) (serve_one-process sv s _ (says kind (b ∷ bs) request_id) rest mem v)
      ∙ process_double_free s (open_pipe rest) kind b request_id bs out limits wants
