-- ===== src/Daemon/Server.antt =====
-- The server's side of a connection: handle_client of src/userspace/daemon/ipc.c. A round of its loop
-- reads a request, does it and answers. The payload's block is counted where it is freed.
pub mod Rounds
pub mod Answers
pub mod Frees
use mvgal.Base.{
  ℕ, zero, suc, ◌+◌, ◌%◌, Bool, true, false, not, ◌||◌, Option, none, some, List, [], ◌∷◌, length,
  ltb, ◌==◌, if◌then◌else◌,
}
use mvgal.Daemon.Streams.{Pipe, read, write}
use mvgal.Daemon.Ipc.{
  Header, ipc_magic, ipc_version, u32_mod, header_size, header_bytes, header_of, is_all,
}

-- mvgal_ipc_message_type_t, as far as the server names its values; any number comes over the socket.
abbrev pub ping : ℕ
ping = 0

abbrev pub pong : ℕ
pong = 1

abbrev pub gpu_enumerate : ℕ
gpu_enumerate = 2

abbrev pub gpu_list : ℕ
gpu_list = 3

abbrev pub workload_submit : ℕ
workload_submit = 4

abbrev pub workload_result : ℕ
workload_result = 5

abbrev pub config_get : ℕ
config_get = 8

abbrev pub ipc_error : ℕ
ipc_error = 10

-- What the server asks of the other parts, on their state: the descriptors that mvgal_gpu_enumerate
-- gives, the configuration, both as bytes in memory, and mvgal_workload_submit on the bytes of a
-- payload, with whether it succeeded and gave a workload, or `none` where the call never returns.
-- `info_size` is the size of
-- mvgal_workload_submit_info_t, and `malloc` says for which sizes a block is there.
pub record Services (S : Type 0) : Type 0 where
  pub gpus : S → List ℕ
  pub config : S → List ℕ
  pub submit : S → List ℕ → Option (Bool × S)
  pub info_size : ℕ
  pub malloc : ℕ → Bool

-- The connection, and how often the block of the round's payload was freed. `more` is false after a `break`
-- of the loop, `hangs` true where the round never ends.
pub record Served (S : Type 0) : Type 0 where
  pub state : S
  pub requests : Pipe
  pub responses : Pipe
  pub frees : ℕ
  pub more : Bool
  pub hangs : Bool

abbrev pub response : ℕ → ℕ → ℕ → Header
response kind payload_size request_id = record {
  magic = ipc_magic;
  version = ipc_version;
  message_type = kind;
  payload_size = payload_size;
  request_id = request_id;
}

-- One call of free(payload), which does nothing to NULL.
abbrev pub freed_once : Option (List ℕ) → ℕ
freed_once none = 0
freed_once (some payload) = 1

module _ {S : Type 0} (sv : Services S) where
  -- The end of a round: the header of the response, and free(payload).
  abbrev pub respond : S → Pipe → Pipe → Option (List ℕ) → ℕ → Header → Served S
  respond s requests responses payload frees h = record {
    state = s;
    requests = requests;
    responses = (write (header_bytes h) responses).1;
    frees = frees + freed_once payload;
    more = true;
    hangs = false;
  }

  -- The body of a response once it is written: `continue`, or free(payload) and out of the switch.
  abbrev pub after_body : S → Pipe → Option (List ℕ) → Header → ℕ → Option ℕ × Pipe → Served S
  after_body s requests payload h n (moved, responses) =
      if is_all n moved
      then record {
        state = s;
        requests = requests;
        responses = responses;
        frees = freed_once payload;
        more = true;
        hangs = false;
      }
      else respond s requests responses payload (freed_once payload) h

  -- The same for its header.
  abbrev pub after_head : S → Pipe → Option (List ℕ) → Header → List ℕ → Option ℕ × Pipe → Served S
  after_head s requests payload h body (moved, responses) =
      if is_all header_size moved
      then after_body s requests payload h (length body) (write body responses)
      else respond s requests responses payload (freed_once payload) h

  -- A response with a body, in two writes.
  abbrev pub respond_body : S → Pipe → Pipe → Option (List ℕ) → Header → List ℕ → Served S
  respond_body s requests responses payload h body =
      after_head s requests payload h body (write (header_bytes h) responses)

  -- The header of a successful submission, which has no body.
  abbrev pub after_result : S → Pipe → Option (List ℕ) → Header → Option ℕ × Pipe → Served S
  after_result s requests payload h (moved, responses) =
      if is_all header_size moved
      then record {
        state = s;
        requests = requests;
        responses = responses;
        frees = freed_once payload;
        more = true;
        hangs = false;
      }
      else respond s requests responses payload (freed_once payload) h

  -- The thread is in a call that never returns.
  abbrev pub stuck : S → Pipe → Pipe → Served S
  stuck s requests responses = record {
    state = s;
    requests = requests;
    responses = responses;
    frees = 0;
    more = true;
    hangs = true;
  }

  abbrev pub submitted : S → Pipe → Pipe → Option (List ℕ) → ℕ → Option (Bool × S) → Served S
  submitted s0 requests responses payload request_id none = stuck s0 requests responses
  submitted s0 requests responses payload request_id (some (done, s)) =
      let h : Header = response workload_result 0 request_id in
      if done
      then after_result s requests payload h (write (header_bytes h) responses)
      else respond s requests responses payload 0 (response ipc_error 0 request_id)

  abbrev pub submission : S → Pipe → Pipe → Option (List ℕ) → Header → Served S
  submission s requests responses none h =
      respond s requests responses none 0 (response ipc_error 0 h.request_id)
  submission s requests responses (some payload) h =
      if ltb h.payload_size sv.info_size
      then respond s requests responses (some payload) 0 (response ipc_error 0 h.request_id)
      else submitted s requests responses (some payload) h.request_id (sv.submit s payload)

  -- The switch over the type of the message.
  unfoldable pub process : S → Pipe → Pipe → Header → Option (List ℕ) → Served S
  process s requests responses h payload =
      if h.message_type == ping
      then respond s requests responses payload 0 (response pong 0 h.request_id)
      else if h.message_type == gpu_enumerate
      then (if ltb 0 (length (sv.gpus s))
          then respond_body s requests responses payload
              (response gpu_list (length (sv.gpus s) % u32_mod) h.request_id) (sv.gpus s)
          else respond s requests responses payload 0 (response ipc_error 0 h.request_id))
      else if h.message_type == config_get
      then respond_body s requests responses payload
          (response config_get (length (sv.config s) % u32_mod) h.request_id) (sv.config s)
      else if h.message_type == workload_submit
      then submission s requests responses payload h
      else respond s requests responses payload 0 (response ipc_error 0 h.request_id)

  -- A `break` out of the loop.
  abbrev pub left : S → Pipe → Pipe → ℕ → Served S
  left s requests responses frees = record {
    state = s;
    requests = requests;
    responses = responses;
    frees = frees;
    more = false;
    hangs = false;
  }

  abbrev pub with_payload : S → Pipe → Header → Option (List ℕ) × Pipe → Served S
  with_payload s responses h (none, requests) = left s requests responses 1
  with_payload s responses h (some payload, requests) =
      if length payload == h.payload_size
      then process s requests responses h (some payload)
      else left s requests responses 1

  abbrev pub take_payload : S → Pipe → Pipe → Header → Served S
  take_payload s requests responses h =
      if ltb 0 h.payload_size
      then (if sv.malloc h.payload_size
          then with_payload s responses h (read h.payload_size requests)
          else left s requests responses 0)
      else process s requests responses h none

  abbrev pub validate : S → Pipe → Pipe → Header → Served S
  validate s requests responses h =
      if not (h.magic == ipc_magic) || not (h.version == ipc_version)
      then left s requests responses 0
      else take_payload s requests responses h

  abbrev pub with_request : S → Pipe → Option (List ℕ) × Pipe → Served S
  with_request s responses (none, requests) = left s requests responses 0
  with_request s responses (some bytes, requests) =
      if length bytes == header_size
      then validate s requests responses (header_of bytes)
      else left s requests responses 0

  -- One round of the loop of handle_client.
  unfoldable pub serve_one : S → Pipe → Pipe → Served S
  unfolding process
  serve_one s requests responses = with_request s responses (read header_size requests)

  -- A round before the others.
  abbrev pub before : ℕ → Option (S × Pipe × List ℕ) → Option (S × Pipe × List ℕ)
  before frees none = none
  before frees (some (s, responses, rest)) = some (s, responses, frees ∷ rest)

  -- The loop while the server runs, which is for so many rounds at most: the state, the responses, and
  -- how often each round's payload was freed, or `none` where a round never ends.
  unfoldable pub handle_client : ℕ → S → Pipe → Pipe → Option (S × Pipe × List ℕ)
  handle_client zero s requests responses = some (s, responses, [])
  handle_client (suc rounds) s requests responses =
      let r : Served S = serve_one s requests responses in
      let rest : Option (S × Pipe × List ℕ) = handle_client rounds r.state r.requests r.responses in
      if r.hangs
      then none
      else if r.more
      then before r.frees rest
      else some (r.state, r.responses, r.frees ∷ [])
