-- ===== src/Daemon/Server/Answers.antt =====
-- The responses of the server to a stream of well-formed requests, and the frees of their payloads.
use mathlib.Core.List.{append_assoc}
use mvgal.Base.{
  ℕ, zero, suc, ◌<◌, ◌≡◌, refl, sym, ap, ◌∙◌, true, Option, none, some, List, [], ◌∷◌, ◌++◌, length,
  All, arith, append-nil,
}
use mvgal.Daemon.Streams.{Pipe}
use mvgal.Daemon.Ipc.RoundTrip.{Message, IsMessage, message_bytes, open_pipe, stream}
use mvgal.Daemon.Server.{Services, before, freed_once, serve_one, handle_client}
use mvgal.Daemon.Server.Rounds.{
  payload_of, answer, answered, AreShort, process-answered, serve_one-process, serve_one-closed,
}

module _ {S : Type 0} (sv : Services S) where
  abbrev pub prepend : Message → Option (List Message × S) → Option (List Message × S)
  prepend r none = none
  prepend r (some (rs, s)) = some (r ∷ rs, s)

  abbrev pub then_answers :
      Option (Message × S) → (S → Option (List Message × S)) → Option (List Message × S)
  then_answers none next = none
  then_answers (some (r, s)) next = prepend r (next s)

  -- The responses to a stream of requests and the state after the last, if every submission returns.
  abbrev pub answers : S → List Message → Option (List Message × S)
  answers s [] = some ([], s)
  answers s (m ∷ ms) = then_answers (answer sv s m) (λ s'. answers s' ms)

  -- A payload's block is freed once, where there is one; the last round reads nothing.
  abbrev pub frees_of : List Message → List ℕ
  frees_of [] = 0 ∷ []
  frees_of (m ∷ ms) = freed_once (payload_of m.payload) ∷ frees_of ms

  -- The end of handle_client, from the responses.
  abbrev pub all_served :
      List ℕ → List Message → Option (List Message × S) → Option (S × Pipe × List ℕ)
  all_served out ms none = none
  all_served out ms (some (rs, s)) = some (s, open_pipe (out ++ stream rs), frees_of ms)

  before-all_served :
      (out : List ℕ) (m r : Message) (ms : List Message) (rest : Option (List Message × S))
      → before sv (freed_once (payload_of m.payload)) (all_served (out ++ message_bytes r) ms rest)
        ≡ all_served out (m ∷ ms) (prepend r rest)
  before-all_served out m r ms none = refl
  before-all_served out m r ms (some (rs, s)) =
      ap (λ bs. some (s, open_pipe bs, frees_of (m ∷ ms)))
        (append_assoc out (message_bytes r) (stream rs))

  handle_client-answered :
      (rounds : ℕ) (s : S) (m : Message) (ms : List Message) (out : List ℕ)
      (a : Option (Message × S))
      → serve_one sv s (open_pipe (message_bytes m ++ stream ms)) (open_pipe out)
        ≡ answered sv (open_pipe (stream ms)) out m.payload s a
      → ((s' : S) (out' : List ℕ)
          → handle_client sv rounds s' (open_pipe (stream ms)) (open_pipe out')
            ≡ all_served out' ms (answers s' ms))
      → handle_client sv (suc rounds) s (open_pipe (message_bytes m ++ stream ms)) (open_pipe out)
        ≡ all_served out (m ∷ ms) (then_answers a (λ s'. answers s' ms))
  unfolding handle_client
  handle_client-answered rounds s m ms out none e ih = rw e refl
  handle_client-answered rounds s m ms out (some (r, s')) e ih =
      rw (e, ih s' (out ++ message_bytes r)) (before-all_served out m r ms (answers s' ms))

  -- Where each size gets a block, the bodies of responses have 32-bit sizes, the writes and reads are whole
  -- and the client sends well-formed requests and then closes: if the call for one of its submissions
  -- never returns, neither does the server's loop. Otherwise a server that runs for more rounds than
  -- there are requests answers each of them once, in their order and under their ids, as `answer` says,
  -- ends when the client has closed, and has freed each payload exactly once.
  pub handle_client-Answers :
      AreShort sv
      → ((n : ℕ) → sv.malloc n ≡ true)
      → (rounds : ℕ) (s : S) (ms : List Message) (out : List ℕ) → All IsMessage ms
      → length ms < rounds
      → handle_client sv rounds s (open_pipe (stream ms)) (open_pipe out)
        ≡ all_served out ms (answers s ms)
  unfolding handle_client
  handle_client-Answers short mem zero s ms out v lt = absurd (omega arith)
  handle_client-Answers short mem (suc rounds) s [] out v lt =
      rw (serve_one-closed sv) (ap (λ bs. some (s, open_pipe bs, 0 ∷ [])) (sym (append-nil out)))
  handle_client-Answers short mem (suc rounds) s (m ∷ ms) out v lt =
      handle_client-answered rounds s m ms out (answer sv s m)
        (serve_one-process sv s (open_pipe out) m (stream ms) mem v.0
          ∙ process-answered sv short s (open_pipe (stream ms)) out m)
        (λ s' out'. handle_client-Answers short mem rounds s' ms out' v.1 (omega arith))
