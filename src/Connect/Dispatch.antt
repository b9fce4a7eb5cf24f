-- ===== src/Connect/Dispatch.antt =====
-- The messages that a channel hands to a connection, in library/connect.c: `queue_edge_message`,
-- `process_edge_message`, `connect_reply_cb` and `flush_to_client`, and the functions that a
-- deadline and an idle handle call.
use ziti_sdk_c.Base.{
  ℕ, ◌+◌, Bool, true, false, not, ◌&&◌, List, [], ◌∷◌, ◌++◌, Option, none, some, ◌==◌,
  if◌then◌else◌, take, drop, add32, read_u32,
}
use ziti_sdk_c.Errors.{ZitiError, invalid_state, conn_closed, crypto_fail, timeout}
use ziti_sdk_c.EdgeProtocol.ContentType.{data_type, state_closed, state_connected}
use ziti_sdk_c.EdgeProtocol.HeaderId.{conn_id_header, uuid_header, public_key_header}
use ziti_sdk_c.Message.Query.{message_get_int32_header, message_get_bytes_header}
use ziti_sdk_c.Connect.State.{
  ConnState, initial, connecting, connected, accepting, close_write, timedout, disconnected, closed,
  EdgeMessage, no_cb, ConnReq, Conn, Env, edge_trace_uuid, edge_multipart, edge_stream, has_flag,
  set_flag, rem_receiver, session_invalidated, fault, emit, conn_set_state, flush_connection,
}
use ziti_sdk_c.Connect.Requests.{ziti_disconnect}
use ziti_sdk_c.Connect.Writes.{complete_conn_req}
use ziti_sdk_c.Connect.Service.{create_message, flush_to_service}
use ziti_sdk_c.Connect.Receiving.{inbound_flags, conn_inbound_data_msg, flush_data}
use ziti_sdk_c.Connect.Dial.{Context, restart_connect}

-- "Invalid Session".
abbrev pub invalid_session : List ℕ
invalid_session =
    b'I' ∷ b'n' ∷ b'v' ∷ b'a' ∷ b'l' ∷ b'i' ∷ b'd' ∷ b' ' ∷ b'S' ∷ b'e' ∷ b's' ∷ b's' ∷ b'i' ∷ b'o'
    ∷ b'n' ∷ []

-- `strncmp(text, body, body_len) == 0` for a text without a zero.
unfoldable pub strncmp_eq : List ℕ → List ℕ → Bool
strncmp_eq s [] = true
strncmp_eq [] (b ∷ bs) = b == 0
strncmp_eq (x ∷ s) (b ∷ bs) = if x == b then strncmp_eq s bs else false

unfoldable pub keys_set : Option (List ℕ × List ℕ) → Conn → Conn × Option ZitiError
keys_set none c = (record c { rx = none; tx = [] }, some crypto_fail)
keys_set (some (rx, tx)) c = (record c { rx = some rx; tx = tx }, none)

unfoldable pub crypto_with : Env → Bool → Option (ℕ × List ℕ) → Conn → Conn × Option ZitiError
unfolding keys_set
crypto_with env server none c = (c, some crypto_fail)
crypto_with env server (some (len, key)) c = keys_set (env.init_crypto (take len key) server) c

unfoldable pub crypto_in : Env → EdgeMessage → ConnState → Conn → Conn × Option ZitiError
unfolding crypto_with
crypto_in env m connecting c =
    crypto_with env false (message_get_bytes_header m.hdrs public_key_header) c
crypto_in env m accepting c =
    crypto_with env true (message_get_bytes_header m.hdrs public_key_header) c
crypto_in env m initial c = (c, some invalid_state)
crypto_in env m connected c = (c, some invalid_state)
crypto_in env m close_write c = (c, some invalid_state)
crypto_in env m timedout c = (c, some invalid_state)
crypto_in env m disconnected c = (c, some invalid_state)
crypto_in env m closed c = (c, some invalid_state)

unfoldable pub establish_crypto : Env → EdgeMessage → Conn → Conn × Option ZitiError
unfolding crypto_in
establish_crypto env m c = if c.encrypted then crypto_in env m c.state c else (c, none)

-- The header of the cipher goes to the front of the queue.
unfoldable pub queue_header : Env → List ℕ × List ℕ → Conn → Conn
queue_header env (header, state) c =
    let (m, c') = create_message env (record c { crypt_o = state }) data_type 0 header in
    flush_connection env (record c' {
      wreqs =
          record {
            id = c'.next_req;
            buf = [];
            eof = false;
            close = false;
            message = some m;
            cb = no_cb;
          }
          ∷ c'.wreqs;
      next_req = c'.next_req + 1;
    })

unfoldable pub send_crypto_header : Env → Conn → Conn
unfolding queue_header
send_crypto_header env c = if c.encrypted then queue_header env (env.init_push c.tx) c else c

unfoldable pub connected_as : Env → Conn × Option ZitiError → Conn
connected_as env (c, some e) = complete_conn_req env (some e) (conn_set_state env disconnected c)
connected_as env (c, none) =
    complete_conn_req env none (conn_set_state env connected (send_crypto_header env c))

-- `ContentTypeStateConnected`.
unfoldable pub state_connected_in : Env → EdgeMessage → ConnState → Conn → Conn
unfolding connected_as
state_connected_in env m connecting c = connected_as env (establish_crypto env m c)
state_connected_in env m accepting c = connected_as env (c, none)
state_connected_in env m timedout c = ziti_disconnect env c
state_connected_in env m disconnected c = ziti_disconnect env c
state_connected_in env m closed c = ziti_disconnect env c
state_connected_in env m initial c = c
state_connected_in env m connected c = c
state_connected_in env m close_write c = c

-- The receiver is taken from the channel, if there is one.
unfoldable pub forget_channel : Option ℕ → Conn → Conn
forget_channel none c = c
forget_channel (some ch) c = emit (rem_receiver ch c.rt_conn_id) (record c { channel = none })

unfoldable pub invalidate : Option ConnReq → Conn → Conn
invalidate none c = emit fault c
invalidate (some req) c = emit session_invalidated c

-- The router has refused the attempt: `true` is an invalid session.
unfoldable pub refused_as : Env → Context → Bool → Conn → Conn
unfolding forget_channel invalidate
refused_as env ctx true c =
    restart_connect env ctx
      (conn_set_state env connecting (forget_channel c.channel (invalidate c.conn_req c)))
refused_as env ctx false c =
    complete_conn_req env (some conn_closed) (conn_set_state env disconnected c)

-- `ContentTypeStateClosed`.
unfoldable pub state_closed_in : Env → Context → EdgeMessage → ConnState → Conn → Conn
unfolding refused_as
state_closed_in env ctx m connecting c = refused_as env ctx (strncmp_eq invalid_session m.body) c
state_closed_in env ctx m accepting c = refused_as env ctx (strncmp_eq invalid_session m.body) c
state_closed_in env ctx m connected c = conn_set_state env disconnected c
state_closed_in env ctx m close_write c = conn_set_state env disconnected c
state_closed_in env ctx m initial c = c
state_closed_in env ctx m timedout c = c
state_closed_in env ctx m disconnected c = c
state_closed_in env ctx m closed c = c

unfoldable pub data_in : Env → EdgeMessage → ConnState → Conn → Conn
data_in env m connected c = conn_inbound_data_msg env m c
data_in env m close_write c = conn_inbound_data_msg env m c
data_in env m initial c = c
data_in env m connecting c = c
data_in env m accepting c = c
data_in env m timedout c = c
data_in env m disconnected c = c
data_in env m closed c = c

-- What the peer says that it can do.
abbrev pub add_flag : ℕ → ℕ → ℕ → ℕ
add_flag flags flag mine = if has_flag flags flag then set_flag mine flag else mine

unfoldable pub learn_caps : ℕ → Conn → Conn
learn_caps flags c = record c {
  flags =
      add_flag flags edge_multipart
        (add_flag flags edge_trace_uuid (add_flag flags edge_stream c.flags));
}

-- `uuid->seq + 1`.
unfoldable pub next_seq : Option (ℕ × List ℕ) → ℕ → ℕ
next_seq none seq = seq
next_seq (some (len, uuid)) seq = elim (read_u32 (drop 4 uuid)) [
  | none ↦ seq
  | some (n, rest) ↦ add32 n 1
]

unfoldable pub learn_seq : Bool → EdgeMessage → Conn → Conn
unfolding next_seq
learn_seq true m c = record c {
  in_msg_seq = next_seq (message_get_bytes_header m.hdrs uuid_header) c.in_msg_seq;
}
learn_seq false m c = c

unfoldable pub by_content : Env → Context → EdgeMessage → Conn → Conn
unfolding state_closed_in data_in state_connected_in
by_content env ctx m c =
    if m.content == state_closed
    then state_closed_in env ctx m c.state c
    else if m.content == data_type
    then data_in env m c.state c
    else if m.content == state_connected
    then state_connected_in env m c.state c
    else c

abbrev pub is_for : Option ℕ → ℕ → Bool
is_for none id = false
is_for (some n) id = n == id

unfoldable pub learned : EdgeMessage → Conn → Conn
unfolding learn_caps learn_seq
learned m c =
    let c' = learn_caps (inbound_flags m.hdrs) c in
    learn_seq (has_flag c'.flags edge_trace_uuid) m c'

-- A message for another connection is a failed assert.
unfoldable pub process_edge_message : Env → Context → EdgeMessage → Conn → Conn
unfolding learned by_content
process_edge_message env ctx m c =
    if is_for (message_get_int32_header m.hdrs conn_id_header) c.rt_conn_id
    then by_content env ctx m (learned m c)
    else emit fault c

-- `queue_edge_message` with a message that is no inspect request.
unfoldable pub queue_edge_message : Env → EdgeMessage → Conn → Conn
queue_edge_message env m c = flush_connection env (record c { in_q = c.in_q ++ (m ∷ []) })

-- The loop over the messages that were queued.
unfoldable pub process_all : Env → Context → List EdgeMessage → Conn → Conn
process_all env ctx [] c = c
process_all env ctx (m ∷ ms) c =
    process_all env ctx ms (process_edge_message env ctx m (record c { in_q = ms }))

unfoldable pub flush_if : Env → Bool → Conn → Conn × Bool
flush_if env true c = flush_data env c
flush_if env false c = (c, false)

unfoldable pub flush_to_client : Env → Context → Conn → Conn × Bool
unfolding process_all flush_if
flush_to_client env ctx c = let c' = process_all env ctx c.in_q c in flush_if env c'.data_cb c'

unfoldable pub on_flush : Env → Context → Conn → Conn
unfolding flush_to_client
on_flush env ctx c =
    let (c', to_client) = flush_to_client env ctx c in
    let (c'', to_service) = flush_to_service env c' in
    if not to_client && not to_service then record c'' { flusher = false } else c''

unfoldable pub timeout_in : Env → ConnState → Conn → Conn
timeout_in env connecting c = ziti_disconnect env (complete_conn_req env (some timeout) c)
timeout_in env accepting c = ziti_disconnect env (complete_conn_req env (some timeout) c)
timeout_in env initial c = c
timeout_in env connected c = c
timeout_in env close_write c = c
timeout_in env timedout c = c
timeout_in env disconnected c = c
timeout_in env closed c = c

unfoldable pub connect_timeout : Env → Conn → Conn
unfolding timeout_in
connect_timeout env c = timeout_in env c.state c

abbrev pub answered_req : Option ConnReq → Option ConnReq
answered_req none = none
answered_req (some req) = some (record req { deadline = false; waiter = none })

-- The reply to the request of `ziti_channel_start_connection`; `none` is an error without a message.
unfoldable pub reply_of : Env → Context → Option EdgeMessage → Conn → Conn
unfolding refused_as state_connected_in
reply_of env ctx none c =
    complete_conn_req env (some conn_closed) (conn_set_state env disconnected c)
reply_of env ctx (some m) c =
    if m.content == state_closed
    then (if strncmp_eq invalid_session m.body
        then restart_connect env ctx (forget_channel c.channel (invalidate c.conn_req c))
        else refused_as env ctx false c)
    else if m.content == state_connected
    then state_connected_in env m c.state c
    else ziti_disconnect env c

unfoldable pub connect_reply_cb : Env → Context → Option EdgeMessage → Conn → Conn
unfolding reply_of
connect_reply_cb env ctx m c = reply_of env ctx m (record c { conn_req = answered_req c.conn_req })
