-- ===== src/Connect/State.antt =====
-- `struct ziti_conn` and `struct ziti_write_req_s` of inc_internal/zt_internal.h for a connection of
-- type `Transport`, with the parts of library/connect.c that only change a field or a queue.
use ziti_sdk_c.Base.{
  ℕ, ◌+◌, ◌/◌, ◌%◌, Bool, true, false, List, [], ◌∷◌, ◌++◌, Option, none, ◌==◌, if◌then◌else◌,
  sub_size,
}
use ziti_sdk_c.Errors.{ZitiError}
use ziti_sdk_c.Buffer.{Buffer, new_buffer}
use ziti_sdk_c.Message.Hdrs.{Hdr}

-- `enum conn_state` of inc_internal/connect.h.
pub data ConnState : Type 0 where
  initial connecting connected accepting close_write timedout disconnected closed : ConnState

-- The order of the constants, in which the code compares them.
abbrev pub rank : ConnState → ℕ
rank initial = 0
rank connecting = 1
rank connected = 2
rank accepting = 3
rank close_write = 4
rank timedout = 5
rank disconnected = 6
rank closed = 7

-- What `create_message` hands to `message_new`, with the body that is then written.
pub record EdgeMessage : Type 0 where
  pub content : ℕ
  pub hdrs : List Hdr
  pub body : List ℕ

-- The function that a write request calls at its end: none, a client's with its `ctx`, or
-- `on_disconnect`.
pub data WriteCb : Type 0 where
  no_cb on_disconnect_cb : WriteCb
  client_cb : ℕ → WriteCb

-- How a write ended: the bytes written, an error of the SDK, or the number of an error of libuv.
pub data WriteStatus : Type 0 where
  written uv_error : ℕ → WriteStatus
  failed : ZitiError → WriteStatus

-- A request; `id` stands for its address, and `buf` is what its pointer shows, `len` bytes of it. Its
-- `conn` is the connection, which no code clears.
pub record WriteReq : Type 0 where
  pub id : ℕ
  pub buf : List ℕ
  pub eof : Bool
  pub close : Bool
  pub message : Option EdgeMessage
  pub cb : WriteCb

-- A request on its way, with the requests that are sent in the same message.
pub record Chained : Type 0 where
  pub req : WriteReq
  pub chain : List WriteReq
  pub chain_len : ℕ

-- `struct ziti_conn_req`: whether its `cb` is still to be called, its waiter, whether its deadline is
-- set, the service once it is known, and the options of the dial.
pub record ConnReq : Type 0 where
  pub cb : Bool
  pub is_failed : Bool
  pub waiter : Option ℕ
  pub deadline : Bool
  pub retry_count : ℕ
  pub service_id : Option ℕ
  pub connect_timeout_seconds : ℕ
  pub identity : Option (List ℕ)
  pub app_data : Option (List ℕ)

-- What a connection does outside itself. `fault` is the use of a channel or a callback that is not
-- there, a read past a text or a failed assert: what stands behind it in the log is undefined in C.
pub data Action : Type 0 where
  channel_send : ℕ → EdgeMessage → Action
  fault : Action
  wrote : ℕ → WriteStatus → Action
  connect_done : Option ZitiError → Action
  client_data : List ℕ → Action
  client_code : ZitiError → Action
  conn_closed_sent rem_receiver : ℕ → ℕ → Action
  waiter_removed : ℕ → Action
  left_waiting joined_waiting : ℕ → Action
  add_receiver : ℕ → ℕ → Action
  connect_sent : ℕ → EdgeMessage → Action
  force_connect : ℕ → Action
  service_asked session_asked session_refreshed session_invalidated : Action
  api_session_refreshed posture_sent : Action
  closed_cb freed : Action

-- A channel is known by its address. `flusher` says whether the idle handle is active, `data_cb` and
-- `close_cb` whether they are set, `rx` and `tx` are the keys of `key_ex`, and `crypt_o` and `crypt_i` are the
-- bytes of the cipher states. `next_req` is the allocator's: the address of the next request. `log`
-- is what the connection has done outside itself, oldest first.
pub record Conn : Type 0 where
  pub conn_id : ℕ
  pub rt_conn_id : ℕ
  pub close_cb : Bool
  pub close : Bool
  pub encrypted : Bool
  pub conn_req : Option ConnReq
  pub edge_msg_seq : ℕ
  pub flags : ℕ
  pub channel : Option ℕ
  pub data_cb : Bool
  pub state : ConnState
  pub fin_sent : Bool
  pub fin_recv : ℕ
  pub disconnecting : Bool
  pub in_q : List EdgeMessage
  pub inbound : Buffer
  pub flusher : Bool
  pub wreqs : List WriteReq
  pub pending_wreqs : List Chained
  pub dial_req_seq : ℕ
  pub in_msg_seq : ℕ
  pub rx : Option (List ℕ)
  pub tx : List ℕ
  pub crypt_o : List ℕ
  pub crypt_i : List ℕ
  pub start : ℕ
  pub connect_time : ℕ
  pub last_activity : ℕ
  pub sent : ℕ
  pub received : ℕ
  pub next_req : ℕ
  pub log : List Action

-- What `ziti_channel_send_message` does with a message: the stream takes it, or `on_channel_send`
-- reports an error at once, after which the channel is closed if that was its last write.
pub data SendResult : Type 0 where
  taken : SendResult
  refused refused_closing : ℕ → SendResult

-- What an operation asks of the code around it: `uv_now`, SHA-256, the functions of libsodium's
-- `crypto_secretstream_xchacha20poly1305` (`push` and `pull` return what they make of a text, and
-- the state, `init_push` the header and the state) with its two lengths, `init_crypto`, which makes
-- the two keys of the peer's, the result of each send by the request's address, and what
-- `data_cb` returns for a chunk in each round of a flush: how much it took, or nothing for a
-- negative result. `short_text` says whether `malloc` gives the nearly 4 GB that it is asked for when a
-- text is shorter than `ABYTES`.
pub record Env : Type 0 where
  pub now : ℕ
  pub sha256 : List ℕ → List ℕ
  pub abytes : ℕ
  pub header_bytes : ℕ
  pub push : List ℕ → List ℕ → List ℕ × List ℕ
  pub pull : List ℕ → List ℕ → Option (List ℕ × List ℕ)
  pub init_pull : List ℕ → List ℕ → Option (List ℕ)
  pub init_push : List ℕ → List ℕ × List ℕ
  pub init_crypto : List ℕ → Bool → Option (List ℕ × List ℕ)
  pub send_result : ℕ → SendResult
  pub consumes : ℕ → List ℕ → Option ℕ
  pub short_text : Bool

-- The flags of library/edge_protocol.h, by the number of their bit.
abbrev pub edge_fin : ℕ
edge_fin = 1

abbrev pub edge_trace_uuid : ℕ
edge_trace_uuid = 2

abbrev pub edge_multipart : ℕ
edge_multipart = 4

abbrev pub edge_stream : ℕ
edge_stream = 8

abbrev pub edge_multipart_msg : ℕ
edge_multipart_msg = 16

-- `flags & flag` and `flags | flag` for one flag.
abbrev pub has_flag : ℕ → ℕ → Bool
has_flag flags flag = flags / flag % 2 == 1

abbrev pub set_flag : ℕ → ℕ → ℕ
set_flag flags flag = if has_flag flags flag then flags else flags + flag

abbrev pub emit : Action → Conn → Conn
emit a c = record c { log = c.log ++ (a ∷ []) }

unfoldable pub connect_time_in : Env → ConnState → Conn → ℕ
connect_time_in env connected c = sub_size env.now c.start
connect_time_in env initial c = c.connect_time
connect_time_in env connecting c = c.connect_time
connect_time_in env accepting c = c.connect_time
connect_time_in env close_write c = c.connect_time
connect_time_in env timedout c = c.connect_time
connect_time_in env disconnected c = c.connect_time
connect_time_in env closed c = c.connect_time

unfoldable pub conn_set_state : Env → ConnState → Conn → Conn
conn_set_state env st c = record c { state = st; connect_time = connect_time_in env st c }

unfoldable pub flush_connection : Env → Conn → Conn
flush_connection env c = record c { flusher = true; last_activity = env.now }

-- The zeroed struct of `ziti_conn_init` in library/ziti.c, with the number that the context gives.
unfoldable pub ziti_conn_init : ℕ → Conn
ziti_conn_init conn_seq = record {
  conn_id = conn_seq;
  rt_conn_id = conn_seq;
  close_cb = false;
  close = false;
  encrypted = false;
  conn_req = none;
  edge_msg_seq = 0;
  flags = 0;
  channel = none;
  data_cb = false;
  state = initial;
  fin_sent = false;
  fin_recv = 0;
  disconnecting = false;
  in_q = [];
  inbound = new_buffer;
  flusher = false;
  wreqs = [];
  pending_wreqs = [];
  dial_req_seq = 0;
  in_msg_seq = 0;
  rx = none;
  tx = [];
  crypt_o = [];
  crypt_i = [];
  start = 0;
  connect_time = 0;
  last_activity = 0;
  sent = 0;
  received = 0;
  next_req = 0;
  log = [];
}

unfoldable pub init_transport_conn : Conn → Conn
init_transport_conn c = record c { in_q = []; wreqs = []; pending_wreqs = []; inbound = new_buffer }
