-- ===== src/Daemon/Server/Rounds.antt =====
-- What a round of the server answers to a well-formed request.
use mathlib.Core.List.{append_assoc}
use native.Mathlib.Nat.{mod-eq_of_lt}
use mvgal.Base.{
  eq_self, ℕ, ◌%◌, ◌<◌, ◌≡◌, refl, ap, ◌∙◌, Bool, true, false, Option, none, some, List, [], ◌∷◌,
  ◌++◌, length, take, drop, ltb, ◌==◌, if◌then◌else◌, arith, take_append, drop_append,
}
use mvgal.Daemon.Streams.{Pipe, read, write}
use mvgal.Daemon.Ipc.{Header, u32_mod, header_bytes}
use mvgal.Daemon.Ipc.RoundTrip.{
  Message, header, IsMessage, header-Fits, message_bytes, open_pipe, header_of-header_bytes,
}
use mvgal.Daemon.Server.{
  Services, Served, stuck, response, freed_once, ping, pong, gpu_enumerate, gpu_list,
  workload_submit, workload_result, config_get, ipc_error, left, respond, respond_body, submission,
  submitted, process, take_payload, validate, serve_one,
}

-- The pointer to the payload.
abbrev pub payload_of : List ℕ → Option (List ℕ)
payload_of [] = none
payload_of (b ∷ bs) = some (b ∷ bs)

abbrev pub says : ℕ → List ℕ → ℕ → Message
says kind payload request_id = record { kind = kind; payload = payload; request_id = request_id }

if_both {ℓ κ} :
    {A : Type ℓ} {B : Type κ} (F : A → B) (b : Bool) (x y : B) (x' y' : A)
    → x ≡ F x'
    → y ≡ F y'
    → (if b then x else y) ≡ F (if b then x' else y')
if_both F true x y x' y' p q = p
if_both F false x y x' y' p q = q

module _ {S : Type 0} (sv : Services S) where
  abbrev pub result_of : Option (Bool × S) → ℕ → Option (Message × S)
  result_of none request_id = none
  result_of (some (done, s')) request_id =
      if done
      then some (says workload_result [] request_id, s')
      else some (says ipc_error [] request_id, s')

  abbrev pub answer_submission : S → List ℕ → ℕ → Option (Message × S)
  answer_submission s [] request_id = some (says ipc_error [] request_id, s)
  answer_submission s (b ∷ bs) request_id =
      if ltb (length (b ∷ bs)) sv.info_size
      then some (says ipc_error [] request_id, s)
      else result_of (sv.submit s (b ∷ bs)) request_id

  -- What a request is answered, and the state after: a ping by a pong, a question by the list of GPUs,
  -- if there are any, or the configuration, a submission by whether it succeeded, if its call
  -- returns, and all else by an error.
  abbrev pub answer : S → Message → Option (Message × S)
  answer s m =
      if m.kind == ping
      then some (says pong [] m.request_id, s)
      else if m.kind == gpu_enumerate
      then (if ltb 0 (length (sv.gpus s))
          then some (says gpu_list (sv.gpus s) m.request_id, s)
          else some (says ipc_error [] m.request_id, s))
      else if m.kind == config_get
      then some (says config_get (sv.config s) m.request_id, s)
      else if m.kind == workload_submit
      then answer_submission s m.payload m.request_id
      else some (says ipc_error [] m.request_id, s)

  abbrev pub answered : Pipe → List ℕ → List ℕ → S → Option (Message × S) → Served S
  answered requests out payload s0 none = stuck sv s0 requests (open_pipe out)
  answered requests out payload s0 (some (m, s)) = record {
    state = s;
    requests = requests;
    responses = open_pipe (out ++ message_bytes m);
    frees = freed_once (payload_of payload);
    more = true;
    hangs = false;
  }

  -- The sizes of the bodies fit into a word.
  abbrev pub AreShort : Type 0
  AreShort = (s : S) → (length (sv.gpus s) < u32_mod) × (length (sv.config s) < u32_mod)

  respond-answered :
      (s : S) (requests : Pipe) (out payload : List ℕ) (kind request_id : ℕ)
      → respond sv s requests (open_pipe out) (payload_of payload) 0 (response kind 0 request_id)
        ≡ answered requests out payload s (some (says kind [] request_id, s))
  unfolding write
  respond-answered s requests out [] kind request_id = refl
  respond-answered s requests out (b ∷ bs) kind request_id = refl

  respond_body-answered :
      (s : S) (requests : Pipe) (out payload body : List ℕ) (kind request_id : ℕ)
      → length body < u32_mod
      → respond_body sv s requests
          (open_pipe out)
          (payload_of payload)
          (response kind (length body % u32_mod) request_id)
          body
        ≡ answered requests out payload s (some (says kind body request_id, s))
  unfolding write
  respond_body-answered s requests out payload body kind request_id short =
      rw (mod-eq_of_lt short, eq_self (length body))
        (ap
          (λ bs. record {
            state = s;
            requests = requests;
            responses = open_pipe bs;
            frees = freed_once (payload_of payload);
            more = true;
            hangs = false;
          })
          (append_assoc out (header_bytes (response kind (length body) request_id)) body))

  submitted-answered :
      (s : S) (requests : Pipe) (out payload : List ℕ) (request_id : ℕ) (result : Option (Bool × S))
      → submitted sv s requests (open_pipe out) (payload_of payload) request_id result
        ≡ answered requests out payload s (result_of result request_id)
  unfolding write
  submitted-answered s requests out payload request_id none = refl
  submitted-answered s requests out [] request_id (some (true, s')) = refl
  submitted-answered s requests out [] request_id (some (false, s')) = refl
  submitted-answered s requests out (b ∷ bs) request_id (some (true, s')) = refl
  submitted-answered s requests out (b ∷ bs) request_id (some (false, s')) = refl

  submission-answered :
      (s : S) (requests : Pipe) (out payload : List ℕ) (h : Header)
      → h.payload_size ≡ length payload
      → submission sv s requests (open_pipe out) (payload_of payload) h
        ≡ answered requests out payload s (answer_submission s payload h.request_id)
  submission-answered s requests out [] h e =
      respond-answered s requests out [] ipc_error h.request_id
  submission-answered s requests out (b ∷ bs) h e =
      ap
        (λ n.
          if ltb n sv.info_size
          then respond sv s requests (open_pipe out) (some (b ∷ bs)) 0
              (response ipc_error 0 h.request_id)
          else submitted sv s requests (open_pipe out) (some (b ∷ bs)) h.request_id
              (sv.submit s (b ∷ bs)))
        e
      ∙ if_both (answered requests out (b ∷ bs) s) (ltb (length (b ∷ bs)) sv.info_size) _ _ _ _
          (respond-answered s requests out (b ∷ bs) ipc_error h.request_id)
          (submitted-answered s requests out (b ∷ bs) h.request_id (sv.submit s (b ∷ bs)))

  pub process-answered :
      AreShort
      → (s : S) (requests : Pipe) (out : List ℕ) (m : Message)
      → process sv s requests (open_pipe out) (header m) (payload_of m.payload)
        ≡ answered requests out m.payload s (answer s m)
  unfolding process
  process-answered short s requests out m =
      let F : Option (Message × S) → Served S = answered requests out m.payload s in
      if_both F (m.kind == ping) _ _ _ _
        (respond-answered s requests out m.payload pong m.request_id)
        (if_both F (m.kind == gpu_enumerate) _ _ _ _
          (if_both F (ltb 0 (length (sv.gpus s))) _ _ _ _
            (respond_body-answered s requests out m.payload (sv.gpus s) gpu_list m.request_id
              (short s).0)
            (respond-answered s requests out m.payload ipc_error m.request_id))
          (if_both F (m.kind == config_get) _ _ _ _
            (respond_body-answered s requests out m.payload (sv.config s) config_get m.request_id
              (short s).1)
            (if_both F (m.kind == workload_submit) _ _ _ _
              (submission-answered s requests out m.payload (header m) refl)
              (respond-answered s requests out m.payload ipc_error m.request_id))))

  -- A payload that is there is read whole.
  take_payload-process :
      (s : S) (responses : Pipe) (payload rest : List ℕ) (h : Header)
      → ((n : ℕ) → sv.malloc n ≡ true)
      → h.payload_size ≡ length payload
      → take_payload sv s (open_pipe (payload ++ rest)) responses h
        ≡ process sv s (open_pipe rest) responses h (payload_of payload)
  unfolding read
  take_payload-process s responses [] rest h mem e =
      let t : ltb 0 h.payload_size ≡ false = ground arith in rw t refl
  take_payload-process s responses (b ∷ bs) rest h mem e =
      let t : ltb 0 h.payload_size ≡ true = ground arith in
      let taken : take h.payload_size (b ∷ (bs ++ rest)) ≡ b ∷ bs =
        ap (λ n. take n (b ∷ (bs ++ rest))) e ∙ take_append (b ∷ bs) rest in
      let dropped : drop h.payload_size (b ∷ (bs ++ rest)) ≡ rest =
        ap (λ n. drop n (b ∷ (bs ++ rest))) e ∙ drop_append (b ∷ bs) rest in
      let whole : (length (b ∷ bs) == h.payload_size) ≡ true = ground arith in
      rw (t, mem h.payload_size, taken, dropped, whole) refl

  pub serve_one-process :
      (s : S) (responses : Pipe) (m : Message) (rest : List ℕ)
      → ((n : ℕ) → sv.malloc n ≡ true)
      → IsMessage m
      → serve_one sv s (open_pipe (message_bytes m ++ rest)) responses
        ≡ process sv s (open_pipe rest) responses (header m) (payload_of m.payload)
  unfolding serve_one read
  serve_one-process s responses m rest mem v =
      ap (validate sv s (open_pipe (m.payload ++ rest)) responses)
        (header_of-header_bytes (header m) (header-Fits m v))
      ∙ take_payload-process s responses m.payload rest (header m) mem refl

  pub serve_one-closed :
      (s : S) (responses : Pipe)
      → serve_one sv s (open_pipe []) responses ≡ left sv s (open_pipe []) responses 0
  unfolding serve_one read
  serve_one-closed s responses = refl
