-- ===== src/Connect/Service.antt =====
-- `flush_to_service` of library/connect.c and what it calls: the requests of a connection become
-- messages on its channel.
pub mod Flushed
pub mod Packing
pub mod Chains
use ziti_sdk_c.Base.{
  ℕ, zero, suc, ◌+◌, ◌*◌, ◌/◌, ◌%◌, Bool, true, false, not, ◌&&◌, ◌||◌, List, [], ◌∷◌, ◌++◌, Option,
  none, some, ltb, leb, ◌==◌, if◌then◌else◌, length, take, drop, add32, add_size, write_u32,
  u32_mod,
}
use ziti_sdk_c.Errors.{ZitiError, invalid_state, connabort}
use ziti_sdk_c.EdgeProtocol.ContentType.{data_type, state_closed}
use ziti_sdk_c.EdgeProtocol.HeaderId.{conn_id_header, seq_header, uuid_header, flags_header}
use ziti_sdk_c.Message.Hdrs.{Hdr}
use ziti_sdk_c.StringBuf.{StringBuf, string_buf_init_fixed, string_buf_appendn}
use ziti_sdk_c.Connect.State.{
  ConnState, initial, connecting, connected, accepting, close_write, timedout, disconnected, closed,
  rank, EdgeMessage, no_cb, failed, WriteReq, Chained, Conn, Env, SendResult, taken, refused,
  refused_closing, edge_fin, edge_trace_uuid, edge_multipart, edge_stream, edge_multipart_msg,
  has_flag, set_flag, conn_set_state, flush_connection,
}
use ziti_sdk_c.Connect.Requests.{to_channel}
use ziti_sdk_c.Connect.Writes.{answer, on_write_completed, channel_closed}

-- The flags of the message: the first one of a connection tells what the connection can do.
unfoldable pub message_flags : Conn → ℕ → ℕ
message_flags c flags =
    if c.edge_msg_seq == 0
    then set_flag (set_flag flags edge_trace_uuid)
        (if has_flag c.flags edge_stream then edge_stream else edge_multipart)
    else flags

-- `struct msg_uuid` before its `slug` is known.
abbrev pub uuid_of : ℕ → ℕ → List ℕ
uuid_of msg_seq ts =
    write_u32 0 ++ (write_u32 msg_seq ++ (write_u32 ts ++ write_u32 (ts / u32_mod)))

abbrev pub header_if : Bool → Hdr → List Hdr
header_if true h = h ∷ []
header_if false h = []

-- The headers of the message.
unfoldable pub message_hdrs : ℕ → ℕ → ℕ → ℕ → ℕ → ℕ → List Hdr
message_hdrs rt_conn_id msg_seq now content flags body_len =
    record { header_id = conn_id_header; size = 4; value = write_u32 rt_conn_id }
    ∷ record { header_id = seq_header; size = 4; value = write_u32 msg_seq }
    ∷ (header_if (content == data_type && ltb 0 body_len)
          (record { header_id = uuid_header; size = 16; value = uuid_of msg_seq now })
        ++ header_if (not (flags == 0))
            (record { header_id = flags_header; size = 4; value = write_u32 flags }))

-- The message, with the body that its sender writes, and the connection with the next number.
unfoldable pub create_message : Env → Conn → ℕ → ℕ → List ℕ → EdgeMessage × Conn
unfolding message_flags message_hdrs
create_message env c content flags body = (
  record {
    content = content;
    hdrs =
        message_hdrs c.rt_conn_id c.edge_msg_seq env.now content (message_flags c flags)
          (length body);
    body = body;
  },
  record c { edge_msg_seq = add32 c.edge_msg_seq 1 },
)

-- `uuid->slug`: the first bytes of the body's hash.
unfoldable pub stamp : List ℕ → List Hdr → List Hdr
stamp hash [] = []
stamp hash (h ∷ hs) =
    if h.header_id == uuid_header
    then record h { value = take 4 hash ++ drop 4 h.value } ∷ hs
    else h ∷ stamp hash hs

unfoldable pub stamped : Env → EdgeMessage → EdgeMessage
unfolding stamp
stamped env m =
    if m.content == data_type then record m { hdrs = stamp (env.sha256 m.body) m.hdrs } else m

-- What `on_channel_send` does at once if the stream does not take the message.
unfoldable pub after_send : Env → ℕ → SendResult → Conn → Conn
after_send env id taken c = c
after_send env id (refused e) c = on_write_completed env id (some e) c
after_send env id (refused_closing e) c =
    channel_closed env connabort (on_write_completed env id (some e) c)

-- The address is that of the request.
unfoldable pub send_message : Env → EdgeMessage → ℕ → Conn → Conn
unfolding stamped after_send
send_message env m id c =
    after_send env id (env.send_result id) (to_channel c.channel (stamped env m) c)

-- `string_buf_appendn`, whose result the caller drops; the copy always ends.
unfoldable pub kept_text : StringBuf → Option (StringBuf × Bool) → StringBuf
kept_text buf none = buf
kept_text buf (some (buf', rc)) = buf'

unfoldable pub appended : StringBuf → List ℕ → StringBuf
unfolding kept_text
appended buf bytes = kept_text buf (string_buf_appendn buf bytes)

-- `htole16((uint16_t) r->len)`.
abbrev pub write_u16 : ℕ → List ℕ
write_u16 n = n % 256 ∷ n / 256 % 256 ∷ []

unfoldable pub append_part : Bool → StringBuf → List ℕ → StringBuf
unfolding appended
append_part true buf bytes = appended buf bytes
append_part false buf bytes = appended (appended buf (write_u16 (length bytes))) bytes

-- The loop over the request and its chain.
unfoldable pub pack : Bool → StringBuf → List WriteReq → StringBuf
unfolding append_part
pack stream buf [] = buf
pack stream buf (r ∷ rs) = pack stream (append_part stream buf r.buf) rs

abbrev pub total : List WriteReq → ℕ
total [] = 0
total (r ∷ rs) = length r.buf + total rs

-- The text of the message: the request's own, or that of the whole chain.
unfoldable pub payload_with : ℕ → Bool → WriteReq → List WriteReq → ℕ → List ℕ
unfolding pack
payload_with extra stream r [] chain_len = r.buf
payload_with extra stream r (x ∷ xs) chain_len =
    take chain_len
      (pack stream (string_buf_init_fixed (add_size extra chain_len)) (r ∷ x ∷ xs)).chunk

unfoldable pub payload : ℕ → Bool → Chained → List ℕ
unfolding payload_with
payload extra stream p = payload_with extra stream p.req p.chain p.chain_len

abbrev pub is_multipart : List WriteReq → Bool
is_multipart [] = false
is_multipart (r ∷ rs) = true

unfoldable pub payload_flags : Bool → Chained → ℕ
payload_flags stream p = if is_multipart p.chain && not stream then edge_multipart_msg else 0

-- The body of the message, and the state of the cipher.
unfoldable pub encrypt : Env → Bool → List ℕ → List ℕ → List ℕ × List ℕ
encrypt env true state plain = env.push state plain
encrypt env false state plain = (plain, state)

-- `crypto_secretstream_xchacha20poly1305_abytes()`, if they are needed.
abbrev pub extra_bytes : Env → Bool → ℕ
extra_bytes env true = env.abytes
extra_bytes env false = 0

unfoldable pub data_message : Env → Chained → Conn → EdgeMessage × Conn
unfolding create_message payload payload_flags encrypt
data_message env p c =
    let stream = has_flag c.flags edge_stream in
    let (body, state) =
      encrypt env c.encrypted c.crypt_o (payload (extra_bytes env c.encrypted) stream p) in
    create_message env
      (record c { crypt_o = state; sent = add_size c.sent (total (p.req ∷ p.chain)) }) data_type
      (payload_flags stream p) body

-- The message of a request that is neither the end of the writes nor a close.
unfoldable pub message_of : Env → Chained → Option EdgeMessage → Conn → EdgeMessage × Conn
unfolding data_message
message_of env p (some m) c = (m, c)
message_of env p none c = data_message env p c

-- The message of any request; `true` first is `eof`, and then `close`.
unfoldable pub request_message : Env → Chained → Bool → Bool → Conn → EdgeMessage × Conn
unfolding message_of
request_message env p true close c =
    create_message env (conn_set_state env close_write c) data_type edge_fin []
request_message env p false true c = create_message env c state_closed 0 []
request_message env p false false c = message_of env p p.req.message c

unfoldable pub ziti_write_req : Env → Chained → Conn → Conn
unfolding request_message
ziti_write_req env p c =
    let (m, c') = request_message env p p.req.eof p.req.close c in send_message env m p.req.id c'

abbrev pub max_chain_len : ℕ
max_chain_len = 31 * 1024

abbrev pub is_plain : WriteReq → Bool
is_plain r = elim r.message [ none ↦ not (r.close || r.eof) | some m ↦ false ]

-- The loop of `chain_data_requests`: the requests that it takes, `chain_len` and those that stay.
unfoldable pub take_chain : ℕ → ℕ → List WriteReq → List WriteReq × ℕ × List WriteReq
take_chain boundary chain_len [] = ([], chain_len, [])
take_chain boundary chain_len (next ∷ rest) =
    if not (is_plain next)
    then ([], chain_len, next ∷ rest)
    else if ltb max_chain_len (add_size (add_size chain_len (length next.buf)) boundary)
    then ([], chain_len, next ∷ rest)
    else (let (chain, len, left) =
          take_chain boundary (add_size chain_len (add_size (length next.buf) boundary)) rest in
        (next ∷ chain, len, left))

abbrev pub alone : WriteReq → Chained
alone r = record { req = r; chain = []; chain_len = 0 }

abbrev pub boundary_len : Bool → ℕ
boundary_len stream = if stream then 0 else 2

-- `chain_len` is set if there is a chain.
unfoldable pub chained_with : WriteReq → List WriteReq × ℕ × List WriteReq → Chained × List WriteReq
chained_with r ([], len, left) = (alone r, left)
chained_with r (x ∷ xs, len, left) = (record { req = r; chain = x ∷ xs; chain_len = len }, left)

-- A message that is there already goes alone.
unfoldable pub chain_for :
    Bool → Option EdgeMessage → WriteReq → List WriteReq → Chained × List WriteReq
unfolding take_chain chained_with
chain_for stream (some m) r wreqs = (alone r, wreqs)
chain_for stream none r wreqs =
    let first = add_size (length r.buf) (boundary_len stream) in
    if leb max_chain_len first
    then (alone r, wreqs)
    else chained_with r (take_chain (boundary_len stream) first wreqs)

unfoldable pub chain_data_requests : Bool → WriteReq → List WriteReq → Chained × List WriteReq
unfolding chain_for
chain_data_requests stream r wreqs = chain_for stream r.message r wreqs

abbrev pub chains : ℕ → WriteReq → Bool
chains flags r =
    (has_flag flags edge_multipart || has_flag flags edge_stream) && (not r.close && not r.eof)

unfoldable pub chain_if : Bool → Bool → WriteReq → List WriteReq → Chained × List WriteReq
unfolding chain_data_requests
chain_if true stream r wreqs = chain_data_requests stream r wreqs
chain_if false stream r wreqs = (alone r, wreqs)

abbrev pub is_connected : ConnState → Bool
is_connected connected = true
is_connected _ = false

-- A request that is sent, with the queue behind it.
unfoldable pub send_request : Env → WriteReq → List WriteReq → Conn → Conn
unfolding chain_if
send_request env r rest c =
    let (p, left) = chain_if (chains c.flags r) (has_flag c.flags edge_stream) r rest in
    ziti_write_req env p (record c { wreqs = left; pending_wreqs = c.pending_wreqs ++ (p ∷ []) })

unfoldable pub flush_request : Env → Bool → WriteReq → List WriteReq → Conn → Conn
unfolding send_request
flush_request env true r rest c = send_request env r rest c
flush_request env false r rest c =
    answer env (failed invalid_state) r.cb (record c { wreqs = rest })

-- One round for the request at the head of the queue.
unfoldable pub flush_head : Env → List WriteReq → Conn → Conn
unfolding flush_request
flush_head env [] c = c
flush_head env (r ∷ rest) c = flush_request env (is_connected c.state || r.close) r rest c

-- The loop of `flush_to_service`, with fuel; a round takes at least one request.
unfoldable pub flush_loop : ℕ → Env → Conn → Conn
flush_loop zero env c = c
flush_loop (suc fuel) env c = flush_loop fuel env (flush_head env c.wreqs c)

abbrev pub can_flush : Option ℕ → ConnState → Bool
can_flush none st = false
can_flush (some ch) st = elim st [
  | initial ↦ false
  | connecting ↦ false
  | accepting ↦ false
  | _ ↦ true
]

abbrev pub is_waiting : List WriteReq → Bool
is_waiting [] = false
is_waiting (r ∷ rs) = true

-- The result says whether requests are left.
unfoldable pub flush_to_service : Env → Conn → Conn × Bool
unfolding flush_loop flush_head
flush_to_service env c =
    if can_flush c.channel c.state
    then (let c' = flush_loop (length c.wreqs) env c in (c', is_waiting c'.wreqs))
    else (c, false)
