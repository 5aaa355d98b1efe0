-- ===== src/Daemon/Ipc.antt =====
-- The messages of src/userspace/daemon/ipc.c on a socket that is open: the header's bytes on a
-- little-endian machine, mvgal_ipc_send and mvgal_ipc_receive.
pub mod RoundTrip
use mvgal.Base.{
  ℕ, suc, ◌+◌, ◌%◌, ◌^◌, Bool, true, false, not, ◌&&◌, Option, none, some, List, [], ◌∷◌, ◌++◌,
  length, take, drop, ltb, ◌==◌, if◌then◌else◌,
}
use mvgal.Status.{Status, success, invalid_argument, not_supported, ipc}
use mvgal.Daemon.Streams.{Pipe, at_most, read, write, to_bytes, of_bytes}

-- ipc_message_header_t, which is packed.
pub record Header : Type 0 where
  pub magic : ℕ
  pub version : ℕ
  pub message_type : ℕ
  pub payload_size : ℕ
  pub request_id : ℕ

-- MVGAL_IPC_MAGIC
abbrev pub ipc_magic : ℕ
ipc_magic = 0x4D56_4741

-- MVGAL_IPC_VERSION
abbrev pub ipc_version : ℕ
ipc_version = 1

abbrev pub u32_mod : ℕ
u32_mod = 2 ^ 32

abbrev pub header_size : ℕ
header_size = 24

-- The bytes of a header in memory.
abbrev pub header_bytes : Header → List ℕ
header_bytes h =
    to_bytes 4 h.magic
    ++ (to_bytes 4 h.version
        ++ (to_bytes 4 h.message_type ++ (to_bytes 4 h.payload_size ++ to_bytes 8 h.request_id)))

abbrev pub header_of : List ℕ → Header
header_of bs = record {
  magic = of_bytes (take 4 bs);
  version = of_bytes (take 4 (drop 4 bs));
  message_type = of_bytes (take 4 (drop 8 bs));
  payload_size = of_bytes (take 4 (drop 12 bs));
  request_id = of_bytes (take 8 (drop 16 bs));
}

-- `write(fd, bytes, n) != n`
abbrev pub is_all : ℕ → Option ℕ → Bool
is_all n none = false
is_all n (some m) = m == n

-- The end of mvgal_ipc_send, once the payload is written.
abbrev pub send_done : ℕ → Option ℕ × Pipe → Status × Pipe
send_done n (moved, p) = if is_all n moved then (success, p) else (ipc, p)

abbrev pub send_payload : Option (List ℕ) → ℕ → Pipe → Status × Pipe
send_payload none payload_size p = (success, p)
send_payload (some payload) payload_size p =
    if ltb 0 payload_size
    then send_done payload_size (write (take payload_size payload) p)
    else (success, p)

abbrev pub after_header : Option (List ℕ) → ℕ → Option ℕ × Pipe → Status × Pipe
after_header payload payload_size (moved, p) =
    if is_all header_size moved then send_payload payload payload_size p else (ipc, p)

-- mvgal_ipc_send; the payload is `none` for NULL, and else has `payload_size` bytes at least.
unfoldable pub send : Pipe → ℕ → Option (List ℕ) → ℕ → ℕ → Status × Pipe
send p kind payload payload_size request_id =
    let header : Header = record {
      magic = ipc_magic;
      version = ipc_version;
      message_type = kind;
      payload_size = payload_size % u32_mod;
      request_id = request_id;
    } in
    after_header payload payload_size (write (header_bytes header) p)

-- What mvgal_ipc_receive writes through its pointers: the fields of the header, and the payload.
pub record Received : Type 0 where
  pub kind : ℕ
  pub payload : List ℕ
  pub payload_size : ℕ
  pub request_id : ℕ

abbrev pub received : Header → List ℕ → Received
received h payload = record {
  kind = h.message_type;
  payload = payload;
  payload_size = h.payload_size;
  request_id = h.request_id;
}

abbrev pub receive_done : Header → ℕ → Option (List ℕ) × Pipe → Status × Option Received × Pipe
receive_done h to_read (none, p) = (ipc, some (received h []), p)
receive_done h to_read (some payload, p) =
    if length payload == to_read
    then (success, some (received h payload), p)
    else (ipc, some (received h payload), p)

-- The payload goes to a buffer of the given size, or nowhere if that is NULL.
abbrev pub receive_payload : Header → Option ℕ → Pipe → Status × Option Received × Pipe
receive_payload h none p = (success, some (received h []), p)
receive_payload h (some buf_size) p =
    if ltb 0 h.payload_size
    then receive_done h (at_most h.payload_size buf_size) (read (at_most h.payload_size buf_size) p)
    else (success, some (received h []), p)

abbrev pub validated : Header → Option ℕ → Pipe → Status × Option Received × Pipe
validated h buf p =
    if not (h.magic == ipc_magic)
    then (invalid_argument, none, p)
    else if not (h.version == ipc_version)
    then (not_supported, none, p)
    else receive_payload h buf p

abbrev pub with_header : Option ℕ → Option (List ℕ) × Pipe → Status × Option Received × Pipe
with_header buf (none, p) = (ipc, none, p)
with_header buf (some bytes, p) =
    if length bytes == header_size then validated (header_of bytes) buf p else (ipc, none, p)

-- mvgal_ipc_receive
unfoldable pub receive : Pipe → Option ℕ → Status × Option Received × Pipe
receive p buf = with_header buf (read header_size p)
