-- ===== src/Daemon/Ipc/RoundTrip.antt =====
-- What is sent is received, message for message.
use mvgal.Base.{
  eq_self, zero, map, ℕ, ◌^◌, ◌≤◌, ◌<◌, ◌≡◌, refl, sym, ap, ◌∙◌, Option, some, List, [], ◌∷◌, ◌++◌,
  length, take, drop, All, if◌then◌else◌, ltb, arith,
}
use mvgal.Base.{take_ge, drop_ge, suc, append-nil}
use mathlib.Core.List.{append_assoc}
use native.Mathlib.Nat.{mod-eq_of_lt}
use mvgal.Status.{Status, success}
use mathlib.Core.Path.{subst}
use mvgal.Daemon.Streams.{
  at_most, take-at_most, drop-at_most, length-take-at_most, Pipe, read, write, of_bytes-to_bytes_4,
  of_bytes-to_bytes_8,
}
use mvgal.Daemon.Ipc.{
  Header, ipc_magic, ipc_version, u32_mod, header_bytes, header_of, send, receive, Received,
  received, send_payload, validated, receive_payload, receive_done,
}

-- The fields fit into their words.
abbrev pub Fits : Header → Type 0
Fits h =
    (h.magic < u32_mod)
    × (h.version < u32_mod)
    × (h.message_type < u32_mod)
    × (h.payload_size < u32_mod)
    × (h.request_id < 2 ^ 64)

pub header_of-header_bytes : (h : Header) → Fits h → header_of (header_bytes h) ≡ h
header_of-header_bytes h f i = record {
  magic = of_bytes-to_bytes_4 h.magic f.0 i;
  version = of_bytes-to_bytes_4 h.version f.1 i;
  message_type = of_bytes-to_bytes_4 h.message_type f.2 i;
  payload_size = of_bytes-to_bytes_4 h.payload_size f.3 i;
  request_id = of_bytes-to_bytes_8 h.request_id f.4 i;
}

-- A message, and the header it is sent with.
pub record Message : Type 0 where
  pub kind : ℕ
  pub payload : List ℕ
  pub request_id : ℕ

abbrev pub header : Message → Header
header m = record {
  magic = ipc_magic;
  version = ipc_version;
  message_type = m.kind;
  payload_size = length m.payload;
  request_id = m.request_id;
}

abbrev pub IsMessage : Message → Type 0
IsMessage m = (m.kind < u32_mod) × (length m.payload < u32_mod) × (m.request_id < 2 ^ 64)

pub header-Fits : (m : Message) → IsMessage m → Fits (header m)
header-Fits m v = (omega arith, omega arith, v.0, v.1, v.2)

-- The bytes of a message on a stream.
abbrev pub message_bytes : Message → List ℕ
message_bytes m = header_bytes (header m) ++ m.payload

abbrev pub open_pipe : List ℕ → Pipe
open_pipe bytes = record { bytes = bytes; limits = [] }

payload_sent :
    (payload queued : List ℕ)
    → send_payload (some payload) (length payload) (open_pipe queued)
      ≡ (success, open_pipe (queued ++ payload))
unfolding write
payload_sent [] queued = ap (λ bs. (success, open_pipe bs)) (sym (append-nil queued))
payload_sent (b ∷ bs) queued = rw (take_ge (length bs) bs (omega arith)) (ground arith)

send-message_bytes :
    (m : Message) (queued : List ℕ)
    → IsMessage m
    → send (open_pipe queued) m.kind (some m.payload) (length m.payload) m.request_id
      ≡ (success, open_pipe (queued ++ message_bytes m))
unfolding send write
send-message_bytes m queued v =
    let with_size : ℕ → Header = λ n. record (header m) { payload_size = n } in
    ap {B = Status × Pipe}
      (λ n.
        send_payload (some m.payload) (length m.payload)
          (open_pipe (queued ++ header_bytes (with_size n))))
      (mod-eq_of_lt v.1)
    ∙ payload_sent m.payload (queued ++ header_bytes (header m))
    ∙ ap (λ bs. (success, open_pipe bs)) (append_assoc queued (header_bytes (header m)) m.payload)

front_received :
    (h : Header) (payload rest : List ℕ) (buf : ℕ)
    → (if ltb 0 (length payload)
        then receive_done h
            (at_most (length payload) buf)
            (read (at_most (length payload) buf) (open_pipe (payload ++ rest)))
        else (success, some (received h []), open_pipe (payload ++ rest)))
      ≡ (success, some (received h (take buf payload)), open_pipe (drop buf payload ++ rest))
unfolding read
front_received h [] rest buf =
    rw (take_ge {A = ℕ} buf [] (omega arith), drop_ge {A = ℕ} buf [] (omega arith)) refl
front_received h (b ∷ bs) rest buf =
    rw
      (
        take-at_most (b ∷ bs) rest buf,
        drop-at_most (b ∷ bs) rest buf,
        length-take-at_most (b ∷ bs) rest buf,
        eq_self (at_most (suc (length bs)) buf),
      )
      (ground arith)

-- Where the size in the header is that of the payload, the buffer gets the front of it.
payload_received :
    (h : Header) (payload rest : List ℕ) (buf : ℕ)
    → h.payload_size ≡ length payload
    → receive_payload h (some buf) (open_pipe (payload ++ rest))
      ≡ (success, some (received h (take buf payload)), open_pipe (drop buf payload ++ rest))
unfolding read
payload_received h payload rest buf e =
    subst
      (λ n.
        (if ltb 0 n
          then receive_done h (at_most n buf) (read (at_most n buf) (open_pipe (payload ++ rest)))
          else (success, some (received h []), open_pipe (payload ++ rest)))
        ≡ (success, some (received h (take buf payload)), open_pipe (drop buf payload ++ rest)))
      (sym e) (front_received h payload rest buf)

-- A message on a stream without limits is received with what fits of its payload into the buffer. The
-- rest of the payload stays on the stream, before what follows.
pub receive-message_bytes :
    (m : Message) (rest : List ℕ) (buf : ℕ)
    → IsMessage m
    → receive (open_pipe (message_bytes m ++ rest)) (some buf) ≡ (
      success,
      some (received (header m) (take buf m.payload)),
      open_pipe (drop buf m.payload ++ rest),
    )
unfolding receive read
receive-message_bytes m rest buf v =
    ap (λ h. validated h (some buf) (open_pipe (m.payload ++ rest)))
      (header_of-header_bytes (header m) (header-Fits m v))
    ∙ payload_received (header m) m.payload rest buf refl

-- The messages are sent one after the other: the results, and the stream.
pub send_all : List Message → Pipe → List Status × Pipe
send_all [] p = ([], p)
send_all (m ∷ ms) p =
    let (st, p1) = send p m.kind (some m.payload) (length m.payload) m.request_id in
    let (sts, p2) = send_all ms p1 in (st ∷ sts, p2)

-- So many calls of mvgal_ipc_receive, one after the other.
pub receive_all : ℕ → ℕ → Pipe → List (Status × Option Received)
receive_all buf zero p = []
receive_all buf (suc n) p =
    let (st, got, p1) = receive p (some buf) in (st, got) ∷ receive_all buf n p1

abbrev pub stream : List Message → List ℕ
stream [] = []
stream (m ∷ ms) = message_bytes m ++ stream ms

abbrev pub sent_well : Message → Status
sent_well m = success

abbrev pub got_well : Message → Status × Option Received
got_well m = (success, some (received (header m) m.payload))

send_all-stream :
    (ms : List Message) (queued : List ℕ)
    → All IsMessage ms
    → send_all ms (open_pipe queued) ≡ (map sent_well ms, open_pipe (queued ++ stream ms))
unfolding send_all
send_all-stream [] queued v = ap (λ bs. ([], open_pipe bs)) (sym (append-nil queued))
send_all-stream (m ∷ ms) queued v =
    rw
      (
        send-message_bytes m queued v.0,
        send_all-stream ms (queued ++ message_bytes m) v.1,
        append_assoc queued (message_bytes m) (stream ms),
      )
      refl

receive_all-stream :
    (ms : List Message) (buf : ℕ)
    → All (λ m. IsMessage m × (length m.payload ≤ buf)) ms
    → receive_all buf (length ms) (open_pipe (stream ms)) ≡ map got_well ms
unfolding receive_all
receive_all-stream [] buf v = refl
receive_all-stream (m ∷ ms) buf v =
    rw
      (
        receive-message_bytes m (stream ms) buf v.0.0,
        take_ge buf m.payload v.0.1,
        drop_ge buf m.payload v.0.1,
        receive_all-stream ms buf v.1,
      )
      refl

All-fst :
    (ms : List Message) (buf : ℕ)
    → All (λ m. IsMessage m × (length m.payload ≤ buf)) ms
    → All IsMessage ms
All-fst [] buf v = tt
All-fst (m ∷ ms) buf v = (v.0.0, All-fst ms buf v.1)

-- Messages whose fields fit into their words, sent in a row to an empty stream without limits, are all
-- sent, and as many calls with a buffer that holds each payload receive them in the same order, with
-- their types, payloads, sizes and request ids.
pub receive_all-send_all :
    (ms : List Message) (buf : ℕ)
    → All (λ m. IsMessage m × (length m.payload ≤ buf)) ms
    → ((send_all ms (open_pipe [])).0 ≡ map sent_well ms)
      × (receive_all buf (length ms) (send_all ms (open_pipe [])).1 ≡ map got_well ms)
receive_all-send_all ms buf v =
    let e : send_all ms (open_pipe []) ≡ (map sent_well ms, open_pipe (stream ms)) =
      send_all-stream ms [] (All-fst ms buf v) in
    (ap (λ r. r.0) e, ap (λ r. receive_all buf (length ms) r.1) e ∙ receive_all-stream ms buf v)
